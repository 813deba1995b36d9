-- ===== src/Loop/Shutdown/Flags.antt =====
-- What m_bRunning says of the loop's thread while the destructor and that thread run.
use libuvwrapper.Base.{ℕ, ◌<◌, ◌≡◌, ◌≢◌, ◌⊎◌, inl, inr, ap, refl, true, false, [], count, arith}
use libuvwrapper.Loop.{Async, Loop, new, stop, enqueue_stop, send_async}
use libuvwrapper.Loop.Shutdown.{
  Starter, fresh_loop, spawned, started, Thread, no_thread, looping, returned, cleared, ended,
  Destroyer, alive, destroyed, Life, initial,
}

Starter-is : (x : Starter) → (x ≡ fresh_loop) ⊎ (x ≡ spawned) ⊎ (x ≡ started)
Starter-is fresh_loop = inl refl
Starter-is spawned = inr (inl refl)
Starter-is started = inr (inr refl)

Starter-cases : (x : Starter) → (x ≡ started) ⊎ (x ≢ started)
Starter-cases fresh_loop = inr (λ h. cc)
Starter-cases spawned = inr (λ h. cc)
Starter-cases started = inl refl

module _ {Cb : Type 0} where
  -- What every step keeps: who has cleared the flag, and what a destructor that is done has seen.
  pub record Inv (s : Life Cb) : Type 0 where
    pub fresh_no_thread : s.starter ≡ fresh_loop → s.thread ≡ no_thread
    pub spawned_looping : s.starter ≡ spawned → s.thread ≡ looping
    pub spawned_alive : s.starter ≡ spawned → s.destroyer ≡ alive
    pub started_thread : s.starter ≡ started → s.thread ≢ no_thread
    pub unmarked_sent : s.starter ≢ started → s.loop.sent ≡ []
    pub unmarked_going : s.starter ≢ started → s.loop.stopping ≡ false
    pub no_thread_silent : s.thread ≡ no_thread → s.loop.running ≡ false
    pub cleared_silent : s.thread ≡ cleared → s.loop.running ≡ false
    pub ended_silent : s.thread ≡ ended → s.loop.running ≡ false
    pub looping_marked : s.thread ≡ looping → s.starter ≡ started → s.loop.running ≡ true
    pub returned_marked : s.thread ≡ returned → s.loop.running ≡ true
    pub destroyed_silent : s.destroyer ≡ destroyed → s.loop.running ≡ false

  pub initial-Inv : (fresh : ℕ → ℕ) (junk : ℕ → Async Cb) → Inv (initial fresh junk)
  unfolding new
  initial-Inv fresh junk = record {
    fresh_no_thread = λ h. refl;
    spawned_looping = λ h. cc;
    spawned_alive = λ h. cc;
    started_thread = λ h. cc;
    unmarked_sent = λ h. refl;
    unmarked_going = λ h. refl;
    no_thread_silent = λ h. refl;
    cleared_silent = λ h. refl;
    ended_silent = λ h. refl;
    looping_marked = λ h k. cc;
    returned_marked = λ h. cc;
    destroyed_silent = λ h. refl;
  }

  pub stopping-started : {s : Life Cb} → Inv s → s.loop.stopping ≡ true → s.starter ≡ started
  stopping-started {s} i q = elim (Starter-cases s.starter) [
    | inl e ↦ e
    | inr n ↦ cc (q, i.unmarked_going n)
  ]

  pub sent-started :
      {s : Life Cb} → Inv s → (x : ℕ) → 0 < count x s.loop.sent → ¬ (s.starter ≢ started)
  sent-started {s} i x q h =
      let none_sent : count x s.loop.sent ≡ 0 = ap (count x) (i.unmarked_sent h) in omega arith

  -- A loop whose thread was never started does not run.
  pub unmarked-silent :
      {s : Life Cb} → Inv s → s.starter ≢ spawned → s.starter ≢ started → s.loop.running ≡ false
  unmarked-silent {s} i p q = elim (Starter-is s.starter) [
    | inl e ↦ i.no_thread_silent (i.fresh_no_thread e)
    | inr (inl e) ↦ absurd (p e)
    | inr (inr e) ↦ absurd (q e)
  ]

  pub stop_silent : (l : Loop Cb) → l.running ≡ false → stop l ≡ l
  unfolding stop
  stop_silent l e = ground arith

  pub stop-running : (l : Loop Cb) → (stop l).running ≡ l.running
  unfolding stop enqueue_stop send_async
  stop-running l = ground arith

  pub stop-stopping : (l : Loop Cb) → (stop l).stopping ≡ l.stopping
  unfolding stop enqueue_stop send_async
  stop-stopping l = ground arith

  -- The destructor goes on.
  pub moved :
      {s : Life Cb}
      → Inv s
      → (d : Destroyer) → (s.starter ≡ spawned → d ≡ alive)
      → (d ≡ destroyed → s.loop.running ≡ false)
      → Inv (record s { destroyer = d })
  moved i d a b = record {
    fresh_no_thread = i.fresh_no_thread;
    spawned_looping = i.spawned_looping;
    spawned_alive = a;
    started_thread = i.started_thread;
    unmarked_sent = i.unmarked_sent;
    unmarked_going = i.unmarked_going;
    no_thread_silent = i.no_thread_silent;
    cleared_silent = i.cleared_silent;
    ended_silent = i.ended_silent;
    looping_marked = i.looping_marked;
    returned_marked = i.returned_marked;
    destroyed_silent = b;
  }

  -- Where a loop does not run and its destructor has begun, its thread is not in uv_run.
  pub silent_thread :
      {s : Life Cb}
      → Inv s
      → s.destroyer ≢ alive
      → s.loop.running ≡ false
      → (s.thread ≡ no_thread) ⊎ (s.thread ≡ cleared) ⊎ (s.thread ≡ ended)
  silent_thread {s} i n q = from s.thread refl
    where
      marked : s.thread ≡ looping → s.starter ≡ started
      marked e = elim (Starter-is s.starter) [
        | inl f ↦ cc (e, i.fresh_no_thread f)
        | inr (inl f) ↦ absurd (n (i.spawned_alive f))
        | inr (inr f) ↦ f
      ]

      from :
          (x : Thread)
          → s.thread ≡ x
          → (s.thread ≡ no_thread) ⊎ (s.thread ≡ cleared) ⊎ (s.thread ≡ ended)
      from no_thread e = inl e
      from looping e = cc (q, i.looping_marked e (marked e))
      from returned e = cc (q, i.returned_marked e)
      from cleared e = inr (inl e)
      from ended e = inr (inr e)
