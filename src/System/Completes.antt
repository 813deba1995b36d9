-- ===== src/System/Completes.antt =====
-- The callbacks in the whole runs of a system: each comes to its end exactly where the method that was
-- bound can.
use libuvwrapper.Base.{
  List, ◌∷◌, ◌++◌, some, ℕ, ◌<◌, ◌≡◌, ◌⊎◌, inl, inr, refl, some, [], Outcome, ok, abort, fault,
  count,
}
use libuvwrapper.Loop.{Async, Loop, new}
use libuvwrapper.Loop.Interleavings.{IsInjective}
use libuvwrapper.Loop.Interleavings
use libuvwrapper.Requests.{Request}
use libuvwrapper.System.{System, Answers, async_callback}
use libuvwrapper.System.Touches.{Touches}
use libuvwrapper.System.Runs.{Reach}

-- The program ends, or does what C++ leaves open.
abbrev pub Fails {ℓ} : {A : Type ℓ} → Outcome A → Type ℓ
Fails m = (m ≡ abort) ⊎ (m ≡ fault)

abbrev Outcome-cases {ℓ} : {A : Type ℓ} (m : Outcome A) → ((a : A) × (m ≡ ok a)) ⊎ Fails m
Outcome-cases (ok a) = inl (a, refl)
Outcome-cases abort = inr (inl refl)
Outcome-cases fault = inr (inr refl)

-- A system whose loop was just constructed.
module _ {App : Type 0} (env : Answers) (fresh : ℕ → ℕ) (junk : ℕ → Async Request)
    (inj : IsInjective fresh) {s t : System App} (begun : s.loop ≡ new fresh junk)
    (r : Reach env s t) where
  module _ (h : ℕ) (k : 0 < count h t.loop.sent) where
    -- The callback comes to its end, and the handle is free again, behind the others.
    abbrev pub GivesBack : Type 0
    GivesBack =
        (v : System App) × (xs : List ℕ) × (async_callback env h t ≡ ok v)
        × (v.loop.d_async ≡ xs ++ (h ∷ []))
