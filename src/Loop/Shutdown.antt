-- ===== src/Loop/Shutdown.antt =====
-- The end of a `uvloop`: its destructor, which waits on a condition variable, against the loop's
-- thread, which clears m_bRunning and notifies without the destructor's lock. A step is one access
-- of one thread. `work` is what other threads and the loop do besides, which leaves the two flags
-- alone; before m_bRunning is set every request is refused. `run` is called once. Spurious
-- wake-ups, which the standard allows and does not promise, are left out.
pub mod Flags
pub mod Steps
pub mod Waiting
pub mod Races
mod Tests
use libuvwrapper.Base.{
  ℕ, ◌<◌, ◌≡◌, ◌≢◌, ◌⊎◌, inl, inr, refl, sym, ap, ◌∙◌, true, false, List, count, remove, ok,
}
use libuvwrapper.Loop.{Async, Loop, stop_loop, new, stop, end_thread, dispatch, uv_stop}

-- Where `run` stands: the thread is started before m_bRunning is set.
pub data Starter : Type 0 where
  fresh_loop spawned started : Starter

-- Where `theadRun` stands: in uv_run, behind it, behind `m_bRunning = false`, at its end.
pub data Thread : Type 0 where
  no_thread looping returned cleared ended : Thread

-- Where the destructor stands: not called, behind `stop` and before the test of the predicate,
-- behind a test that said to wait, in the wait, at its end.
pub data Destroyer : Type 0 where
  alive testing deciding asleep destroyed : Destroyer

pub record Life (Cb : Type 0) : Type 0 where
  pub loop : Loop Cb
  pub starter : Starter
  pub thread : Thread
  pub destroyer : Destroyer

-- notify_all
abbrev pub woken : Destroyer → Destroyer
woken asleep = testing
woken alive = alive
woken testing = testing
woken deciding = deciding
woken destroyed = destroyed

module _ {Cb : Type 0} where
  pub data Step (s t : Life Cb) : Type 0 where
    spawn :
        s.starter ≡ fresh_loop
        → s.destroyer ≡ alive
        → t ≡ record s { starter = spawned; thread = looping }
        → Step s t
    mark :
        s.starter ≡ spawned
        → t ≡ record s { starter = started; loop = record (s.loop) { running = true } }
        → Step s t
    destroy :
        s.destroyer ≡ alive
        → s.starter ≢ spawned
        → t ≡ record s { loop = stop s.loop; destroyer = testing }
        → Step s t
    deliver :
        (h : ℕ)
        → s.thread ≡ looping
        → 0 < count h s.loop.sent
        → dispatch s.loop h ≡ ok stop_loop
        → t ≡ record s { loop = uv_stop (record (s.loop) { sent = remove h s.loop.sent }) }
        → Step s t
    work :
        (l : Loop Cb)
        → s.starter ≡ started
        → l.running ≡ s.loop.running
        → l.stopping ≡ s.loop.stopping
        → t ≡ record s { loop = l }
        → Step s t
    leave :
        s.thread ≡ looping → s.loop.stopping ≡ true → t ≡ record s { thread = returned } → Step s t
    clear :
        s.thread ≡ returned → t ≡ record s { loop = end_thread s.loop; thread = cleared } → Step s t
    notify :
        s.thread ≡ cleared
        → t ≡ record s { thread = ended; destroyer = woken s.destroyer }
        → Step s t
    pass :
        s.destroyer ≡ testing
        → s.loop.running ≡ false
        → t ≡ record s { destroyer = destroyed }
        → Step s t
    test :
        s.destroyer ≡ testing
        → s.loop.running ≡ true
        → t ≡ record s { destroyer = deciding }
        → Step s t
    sleep : s.destroyer ≡ deciding → t ≡ record s { destroyer = asleep } → Step s t

  pub data Reach (s : Life Cb) : Life Cb → Type 0 where
    here : Reach s s
    next : {t u : Life Cb} → Reach s t → Step t u → Reach s u

  abbrev pub initial : (ℕ → ℕ) → (ℕ → Async Cb) → Life Cb
  initial fresh junk = record {
    loop = new fresh junk;
    starter = fresh_loop;
    thread = no_thread;
    destroyer = alive;
  }
