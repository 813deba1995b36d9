-- ===== src/Loop/Shutdown/Waiting.antt =====
-- Whether the destructor of `uvloop` comes out of its wait.
use libuvwrapper.Base.{ℕ, ◌↔◌, ◌≡◌, ◌≢◌, refl, ap, ◌∙◌, true, false}
use libuvwrapper.Loop.{Async, end_thread}
use libuvwrapper.Loop.Shutdown.{
  Thread, no_thread, looping, returned, cleared, ended, Destroyer, alive, testing, deciding, asleep,
  destroyed, Life, woken, Step, spawn, mark, destroy, deliver, work, leave, clear, notify, pass,
  test, sleep, Reach, here, next, initial,
}
use libuvwrapper.Loop.Shutdown.Flags.{Inv, initial-Inv, stopping-started}
use libuvwrapper.Loop.Shutdown.Steps.{Reach-Inv}

module _ {Cb : Type 0} where
  -- The thread has notified and ended, and the destructor waits or is about to.
  pub data Lost (s : Life Cb) : Type 0 where
    undecided : s.thread ≡ ended → s.destroyer ≡ deciding → Lost s
    waiting : s.thread ≡ ended → s.destroyer ≡ asleep → Lost s

  Lost-ended : {s : Life Cb} → Lost s → s.thread ≡ ended
  Lost-ended (undecided p q) = p
  Lost-ended (waiting p q) = p

  Lost-inside : {s : Life Cb} → Lost s → (s.destroyer ≢ alive) × (s.destroyer ≢ testing)
  Lost-inside (undecided p q) = ((λ h. cc), (λ h. cc))
  Lost-inside (waiting p q) = ((λ h. cc), (λ h. cc))

  kept-Lost : {s t : Life Cb} → Lost s → t.thread ≡ s.thread → t.destroyer ≡ s.destroyer → Lost t
  kept-Lost (undecided p q) a b = undecided (a ∙ p) (b ∙ q)
  kept-Lost (waiting p q) a b = waiting (a ∙ p) (b ∙ q)

  Step-Lost : {s t : Life Cb} → Inv s → Lost s → Step s t → Lost t
  Step-Lost i l (spawn p q e) = absurd ((Lost-inside l).0 q)
  Step-Lost i l (mark p e) = absurd ((Lost-inside l).0 (i.spawned_alive p))
  Step-Lost i l (destroy p q e) = absurd ((Lost-inside l).0 p)
  Step-Lost i l (deliver h p q d e) = cc (Lost-ended l)
  Step-Lost i l (work x p r q e) = kept-Lost l (ap (λ u. u.thread) e) (ap (λ u. u.destroyer) e)
  Step-Lost i l (leave p q e) = cc (Lost-ended l)
  Step-Lost i l (clear p e) = cc (Lost-ended l)
  Step-Lost i l (notify p e) = cc (Lost-ended l)
  Step-Lost i l (pass p q e) = absurd ((Lost-inside l).1 p)
  Step-Lost i l (test p q e) = absurd ((Lost-inside l).1 p)
  Step-Lost i l (sleep p e) =
      waiting (ap (λ u. u.thread) e ∙ Lost-ended l) (ap (λ u. u.destroyer) e)

  Reach-Lost : {s t : Life Cb} → Inv s → Lost s → Reach s t → Lost t
  Reach-Lost i l here = l
  Reach-Lost i l (next r st) = Step-Lost (Reach-Inv i r) (Reach-Lost i l r) st

  Lost-not_destroyed : {s : Life Cb} → Lost s → s.destroyer ≢ destroyed
  Lost-not_destroyed (undecided p q) h = cc
  Lost-not_destroyed (waiting p q) h = cc

  -- A state from which the destructor comes to its end.
  abbrev pub CanEnd : Life Cb → Type 0
  CanEnd s = (t : Life Cb) × Reach s t × (t.destroyer ≡ destroyed)

  before : {s t u : Life Cb} → Step s t → Reach t u → Reach s u
  before st here = next here st
  before st (next r x) = next (before st r) x

  after : {s t : Life Cb} → Step s t → CanEnd t → CanEnd s
  after st (u, r, e) = (u, before st r, e)

  -- A test of the predicate finds that the loop no longer runs.
  testing_ends : (s : Life Cb) → s.destroyer ≡ testing → s.loop.running ≡ false → CanEnd s
  testing_ends s p q = (record s { destroyer = destroyed }, next here (pass p q refl), refl)

  -- A notification that is still to come wakes whoever waits.
  cleared_ends :
      (s : Life Cb) → s.thread ≡ cleared → s.destroyer ≢ alive → s.loop.running ≡ false → CanEnd s
  cleared_ends s p = from s.destroyer refl
    where
      from : (d : Destroyer) → s.destroyer ≡ d → d ≢ alive → s.loop.running ≡ false → CanEnd s
      from alive e n q = absurd (n refl)
      from testing e n q = testing_ends s e q
      from deciding e n q = after (sleep e refl) (after (notify p refl) (testing_ends _ refl q))
      from asleep e n q = after (notify p refl) (testing_ends _ (ap woken e) q)
      from destroyed e n q = (s, here, e)

  returned_ends : (s : Life Cb) → s.thread ≡ returned → s.destroyer ≢ alive → CanEnd s
  unfolding end_thread
  returned_ends s p n = after (clear p refl) (cleared_ends _ refl n refl)

  ended_ends :
      (s : Life Cb)
      → s.thread ≡ ended
      → s.destroyer ≢ alive
      → ¬ Lost s
      → s.loop.running ≡ false
      → CanEnd s
  ended_ends s p = from s.destroyer refl
    where
      from :
          (d : Destroyer)
          → s.destroyer ≡ d
          → d ≢ alive
          → ¬ Lost s
          → s.loop.running ≡ false
          → CanEnd s
      from alive e n k q = absurd (n refl)
      from testing e n k q = testing_ends s e q
      from deciding e n k q = absurd (k (undecided p e))
      from asleep e n k q = absurd (k (waiting p e))
      from destroyed e n k q = (s, here, e)

  can_end :
      (s : Life Cb) → Inv s → s.loop.stopping ≡ true → s.destroyer ≢ alive → ¬ Lost s → CanEnd s
  can_end s i q n k = from s.thread refl
    where
      from : (x : Thread) → s.thread ≡ x → CanEnd s
      from no_thread e = absurd (i.started_thread (stopping-started i q) e)
      from looping e = after (leave e q refl) (returned_ends _ refl n)
      from returned e = returned_ends s e n
      from cleared e = cleared_ends s e n (i.cleared_silent e)
      from ended e = ended_ends s e n k (i.ended_silent e)

  -- In every reachable state in which uv_stop was called and the destructor has begun, the
  -- destructor can come to its end exactly if it is not the case that the loop's thread has already
  -- notified and ended while the destructor waits, or is about to after a test that said so.
  pub ends_iff_awaited :
      (fresh : ℕ → ℕ) (junk : ℕ → Async Cb) {s : Life Cb}
      → Reach (initial fresh junk) s
      → s.loop.stopping ≡ true
      → s.destroyer ≢ alive
      → CanEnd s ↔ ¬ Lost s
  ends_iff_awaited fresh junk {s} r q n =
      let i = Reach-Inv (initial-Inv fresh junk) r in
      (λ (t, p, e). λ l. Lost-not_destroyed (Reach-Lost i l p) e, λ k. can_end s i q n k)
