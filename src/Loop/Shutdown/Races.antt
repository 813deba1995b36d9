-- ===== src/Loop/Shutdown/Races.antt =====
-- What can go wrong between the destructor of `uvloop` and the loop's thread.
use libuvwrapper.Base.{ℕ, ◌<◌, ◌≡◌, ◌⊎◌, refl, true, false, ok, arith, count, ==_refl, remove}
use libuvwrapper.Loop.{
  stop_loop, Async, new, new_asyncs, stop, enqueue_stop, send_async, dispatch, action_of, uv_stop,
  end_thread,
}
use libuvwrapper.Loop.Shutdown.{
  spawned, started, no_thread, looping, returned, cleared, ended, testing, deciding, destroyed,
  Life, spawn, mark, destroy, deliver, leave, clear, notify, pass, test, Reach, here, next, initial,
}
use libuvwrapper.Loop.Shutdown.Flags.{initial-Inv, silent_thread}
use libuvwrapper.Loop.Shutdown.Steps.{Reach-Inv}
use libuvwrapper.Loop.Shutdown.Waiting.{undecided, CanEnd, ends_iff_awaited}

module _ {Cb : Type 0} (fresh : ℕ → ℕ) (junk : ℕ → Async Cb) where
  abbrev pub life0 : Life Cb
  life0 = initial fresh junk

  abbrev pub life1 : Life Cb
  life1 = record life0 { starter = spawned; thread = looping }

  abbrev pub life2 : Life Cb
  life2 = record life1 { starter = started; loop = record (life1.loop) { running = true } }

  -- The destructor has sent its order to stop.
  abbrev pub life3 : Life Cb
  life3 = record life2 { loop = stop life2.loop; destroyer = testing }

  stopping_begun : Reach life0 life3
  unfolding new
  stopping_begun =
      next (next (next here (spawn refl refl refl)) (mark refl refl)) (destroy refl (λ h. cc) refl)

  order_sent : 0 < count (fresh 0) life3.loop.sent
  unfolding new new_asyncs stop enqueue_stop send_async
  order_sent = rw (==_refl (fresh 0)) (omega arith)

  order_dispatches : dispatch life3.loop (fresh 0) ≡ ok stop_loop
  unfolding new new_asyncs stop enqueue_stop send_async dispatch action_of
  order_dispatches = rw (==_refl (fresh 0)) refl

  -- The loop's thread has left uv_run.
  abbrev pub life4 : Life Cb
  life4 = record life3 {
    loop = uv_stop (record (life3.loop) { sent = remove (fresh 0) life3.loop.sent });
    thread = returned;
  }

  pub left : Reach life0 life4
  unfolding uv_stop
  left =
      next (next stopping_begun (deliver (fresh 0) refl order_sent order_dispatches refl))
        (leave refl refl refl)

  -- The destructor has seen the flag set, the thread has cleared it and notified.
  abbrev pub life5 : Life Cb
  life5 = record life4 { loop = end_thread life4.loop; thread = ended; destroyer = deciding }

  still_running : life4.loop.running ≡ true
  unfolding new new_asyncs stop enqueue_stop send_async uv_stop
  still_running = refl

  lost_order : Reach life0 life5
  lost_order =
      next (next (next left (test refl still_running refl)) (clear refl refl)) (notify refl refl)

  -- For every new loop there is a run in which the order to stop is delivered and the loop's thread
  -- ends, and after which the destructor never comes out of its wait: the notification came between
  -- the test of the predicate and the wait.
  pub wakeup_can_be_lost :
      (s : Life Cb) × Reach (initial fresh junk) s
      × (s.loop.stopping ≡ true)
      × (s.loop.running ≡ false)
      × (s.thread ≡ ended)
      × ¬ CanEnd s
  unfolding uv_stop end_thread
  wakeup_can_be_lost = (
    life5,
    lost_order,
    refl,
    refl,
    refl,
    λ x. (ends_iff_awaited fresh junk lost_order refl (λ h. cc)).0 x (undecided refl refl),
  )

  -- The destructor has tested after the thread cleared the flag.
  abbrev pub life6 : Life Cb
  life6 = record life4 { loop = end_thread life4.loop; thread = cleared; destroyer = destroyed }

  pub quiet_order : Reach life0 life6
  unfolding end_thread
  quiet_order = next (next left (clear refl refl)) (pass refl refl refl)

  -- For every new loop there is a run in which the destructor has come to its end and the loop's
  -- thread has still to call notify_all on the object's condition variable.
  notifies_destroyed :
      (s : Life Cb) × Reach (initial fresh junk) s
      × (s.destroyer ≡ destroyed)
      × (s.thread ≡ cleared)
  notifies_destroyed = (life6, quiet_order, refl, refl)

-- Once the destructor has come to its end, m_bRunning is false and the loop's thread does not run
-- the loop any more: it was never started, or it has set the flag.
pub destroyed_quiet :
    {Cb : Type 0} (fresh : ℕ → ℕ) (junk : ℕ → Async Cb) {s : Life Cb}
    → Reach (initial fresh junk) s
    → s.destroyer ≡ destroyed
    → (s.loop.running ≡ false)
      × ((s.thread ≡ no_thread) ⊎ (s.thread ≡ cleared) ⊎ (s.thread ≡ ended))
destroyed_quiet fresh junk {s} r d =
    let i = Reach-Inv (initial-Inv fresh junk) r in
    let quiet = i.destroyed_silent d in (quiet, silent_thread i (λ h. cc) quiet)
