-- ===== src/Loop/Interleavings.antt =====
-- Every interleaving of requests, stops, callbacks and starts of one `uvloop`, from its
-- constructor on.
use libuvwrapper.Base.{
  ℕ, zero, suc, ◌+◌, ◌≤◌, ◌<◌, ◌≡◌, refl, sym, ap, subst, ◌∙◌, inl, inr, true, false, List, [],
  ◌++◌, arith, length, Bool-cases, ok, count, one_if, remove, ◌==◌, ==_iff,
}
use libuvwrapper.Loop.{
  EventType, Async, Loop, Action, new, new_asyncs, add_req, stop, run, end_thread, dispatch, finish,
  uv_async_hande,
}
use libuvwrapper.Loop.Pool.{Sys, Inv}
use libuvwrapper.Loop.Send.{requested, stop_requested, add_req-Inv, stop-Inv}
use libuvwrapper.Loop.Callback.{delivered, delivered-Inv, flags-Inv, finish_lem, finish-Inv}
use mathlib.Core.List.Perm

module _ {Cb : Type 0} where
  -- One step of some thread, or of libuv.
  pub data Step (s t : Sys Cb) : Type 0 where
    request :
        (e : EventType) (cb : Cb)
        → t ≡ record s {
          loop = (add_req s.loop e cb).1;
          accepted = s.accepted ++ requested (add_req s.loop e cb).0 e cb;
        }
        → Step s t
    halt :
        t ≡ record s { loop = stop s.loop; accepted = s.accepted ++ stop_requested s.loop }
        → Step s t
    start : t ≡ record s { loop = run s.loop } → Step s t
    leave : t ≡ record s { loop = end_thread s.loop } → Step s t
    deliver :
        (h : ℕ) (a : Action Cb)
        → 0 < count h s.loop.sent
        → dispatch s.loop h ≡ ok a
        → t ≡ delivered s h a
        → Step s t
    complete :
        (h : ℕ) (l : Loop Cb)
        → 0 < count h s.current
        → finish s.loop h ≡ ok l
        → t ≡ record s { loop = l; current = remove h s.current }
        → Step s t

  pub data Reach (s : Sys Cb) : Sys Cb → Type 0 where
    here : Reach s s
    next : {t u : Sys Cb} → Reach s t → Step t u → Reach s u

  -- A loop that was just constructed: nothing is on its way.
  abbrev pub initial : (ℕ → ℕ) → (ℕ → Async Cb) → Sys Cb
  initial fresh junk = record { loop = new fresh junk; current = []; accepted = []; executed = [] }

  run-Inv : {hs : List ℕ} {s : Sys Cb} → Inv hs s → Inv hs (record s { loop = run s.loop })
  unfolding run
  run-Inv {s = s} v = elim (Bool-cases s.loop.running) [
    | inl on ↦ simp on v
    | inr off ↦ simp off (flags-Inv v true s.loop.stopping)
  ]

  complete-Inv :
      (hs : List ℕ) (s : Sys Cb) (h : ℕ) (l : Loop Cb)
      → Inv hs s
      → 0 < count h s.current
      → finish s.loop h ≡ ok l
      → Inv hs (record s { loop = l; current = remove h s.current })
  complete-Inv hs s h l v k f =
      subst (λ m. Inv hs (record s { loop = m; current = remove h s.current }))
        (ok_injective (sym (finish_lem hs s v h k) ∙ f)) (finish-Inv hs s v h k)
    where
      ok_injective : {a b : Loop Cb} → ok a ≡ ok b → a ≡ b
      ok_injective e = cc

  pub Step-Inv : {hs : List ℕ} {s t : Sys Cb} → Step s t → Inv hs s → Inv hs t
  unfolding end_thread
  Step-Inv {hs} {s} (request e cb p) v = rw p (add_req-Inv hs s e cb v)
  Step-Inv {hs} {s} (halt p) v = rw p (stop-Inv hs s v)
  Step-Inv (start p) v = rw p (run-Inv v)
  Step-Inv {s = s} (leave p) v = rw p (flags-Inv v false s.loop.stopping)
  Step-Inv {hs} {s} (deliver h a k d p) v = rw p (delivered-Inv hs s h a v k)
  Step-Inv {hs} {s} (complete h l k f p) v = rw p (complete-Inv hs s h l v k f)

  pub Reach-Inv : {hs : List ℕ} {s t : Sys Cb} → Inv hs s → Reach s t → Inv hs t
  Reach-Inv v here = v
  Reach-Inv v (next r st) = Step-Inv st (Reach-Inv v r)

-- Distinct objects have distinct addresses.
abbrev pub IsInjective : (ℕ → ℕ) → Type 0
IsInjective fresh = (i j : ℕ) → fresh i ≡ fresh j → i ≡ j

-- The handles that the constructor registers with uv_async_init.
abbrev pub handles : (ℕ → ℕ) → List ℕ
handles fresh = new_asyncs fresh 0 uv_async_hande

not_among :
    (fresh : ℕ → ℕ)
    → IsInjective fresh
    → (i j n : ℕ) → i < j
    → count (fresh i) (new_asyncs fresh j n) ≡ 0
unfolding new_asyncs
not_among fresh inj i j zero h = refl
not_among fresh inj i j (suc n) h = ground (arith, inj j i, not_among fresh inj i (j + 1) n)

distinct : (fresh : ℕ → ℕ) → IsInjective fresh → (x i n : ℕ) → count x (new_asyncs fresh i n) ≤ 1
unfolding new_asyncs
distinct fresh inj x i zero = omega arith
distinct fresh inj x i (suc n) = elim (Bool-cases (fresh i == x)) [
  | inl e ↦ omega (
    arith,
    ap one_if e,
    not_among fresh inj i (i + 1) n (omega arith),
    ap (λ y. count y (new_asyncs fresh (i + 1) n)) ((==_iff (fresh i) x).0 e),
  )
  | inr e ↦ omega (arith, ap one_if e, distinct fresh inj x (i + 1) n)
]

pub length-new_asyncs : (fresh : ℕ → ℕ) (i n : ℕ) → length (new_asyncs fresh i n) ≡ n
unfolding new_asyncs
length-new_asyncs fresh i zero = refl
length-new_asyncs fresh i (suc n) = ap suc (length-new_asyncs fresh (i + 1) n)

initial-Inv :
    {Cb : Type 0} (fresh : ℕ → ℕ) (junk : ℕ → Async Cb)
    → IsInjective fresh
    → Inv (handles fresh) (initial fresh junk)
unfolding new
initial-Inv fresh junk inj = record {
  unique = λ x. distinct fresh inj x 0 uv_async_hande;
  conserved = λ x. omega arith;
  sized = omega arith;
  signalled = λ x. omega arith;
  keyed = tt;
  bound = λ x k. absurd (omega arith);
  armed = λ x k. absurd (omega arith);
  once = Perm.refl [];
}

-- In every state that any interleaving of threads can reach, each handle that the constructor
-- registered is, exactly once, free or in the map; a handle in the map is, exactly once, signalled or
-- has its callback running; the object of a signalled handle holds an order to stop or a callback, and
-- points to the loop; and what was sent is, in some order, what callbacks have found and what is still
-- on its way. The condition: distinct objects have distinct addresses.
pub reachable-Inv :
    {Cb : Type 0} (fresh : ℕ → ℕ) (junk : ℕ → Async Cb) {s : Sys Cb}
    → IsInjective fresh
    → Reach (initial fresh junk) s
    → Inv (handles fresh) s
reachable-Inv fresh junk inj r = Reach-Inv (initial-Inv fresh junk inj) r
