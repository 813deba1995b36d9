-- ===== src/Base/Outcomes.antt =====
-- What running a piece of the C++ code comes to: a value, a failed `assert`, or undefined
-- behaviour (an access out of bounds, through null or through an end iterator).
use mathlib.Core.Path.{◌≡◌, refl, subst}
use mathlib.Core.Bool.{Bool, true, false}
use mathlib.Core.Option.{Option, none, some}
use libuvwrapper.Base.Tests.{if◌then◌else◌}

pub data Outcome {ℓ} (A : Type ℓ) : Type ℓ where
  ok : A → Outcome A
  abort : Outcome A
  fault : Outcome A

infixl 5 ◌>>=◌ ◌>>◌
abbrev pub ◌>>=◌ {ℓ κ} : {A : Type ℓ} {B : Type κ} → Outcome A → (A → Outcome B) → Outcome B
ok value >>= next = next value
abort >>= next = abort
fault >>= next = fault

-- The next step, where the step before it has no value.
abbrev pub ◌>>◌ {ℓ} : {A : Type ℓ} → Outcome (Unit {0}) → Outcome A → Outcome A
first >> next = first >>= λ done. next

-- `assert(b)`, in a build that keeps assertions.
abbrev pub assert : Bool → Outcome (Unit {0})
assert true = ok tt
assert false = abort

-- `p->…`: what is done with the object, or a fault through null.
abbrev pub deref {ℓ κ} : {A : Type ℓ} {B : Type κ} → Option A → (A → Outcome B) → Outcome B
deref none k = fault
deref (some p) k = k p

-- An access that is defined only where `b` holds.
abbrev pub require : Bool → Outcome (Unit {0})
require true = ok tt
require false = fault

-- Partial correctness with its exits: a value satisfies `P`, a failed assertion is explained by
-- `Q`, and there is no undefined behaviour.
abbrev pub Ensures {ℓ} : {A : Type ℓ} → (A → Type 0) → Type 0 → Outcome A → Type 0
Ensures P Q (ok a) = P a
Ensures P Q abort = Q
Ensures P Q fault = ⊥

pub Ensures-bind {ℓ κ} :
    {A : Type ℓ} {B : Type κ} (P : A → Type 0) (R : B → Type 0) (Q : Type 0) (m : Outcome A)
    (f : A → Outcome B)
    → Ensures P Q m
    → ((a : A) → P a → Ensures R Q (f a))
    → Ensures R Q (m >>= f)
Ensures-bind P R Q (ok a) f h k = k a h
Ensures-bind P R Q abort f h k = h
Ensures-bind P R Q fault f h k = h

pub Ensures-map {ℓ} :
    {A : Type ℓ} (P R : A → Type 0) (Q : Type 0) (m : Outcome A)
    → Ensures P Q m
    → ((a : A) → P a → R a)
    → Ensures R Q m
Ensures-map P R Q (ok a) h k = k a h
Ensures-map P R Q abort h k = h
Ensures-map P R Q fault h k = h

pub Ensures-weaken {ℓ} :
    {A : Type ℓ} (P R : A → Type 0) (Q T : Type 0) (m : Outcome A)
    → Ensures P Q m
    → ((a : A) → P a → R a)
    → (Q → T)
    → Ensures R T m
Ensures-weaken P R Q T (ok a) h k l = k a h
Ensures-weaken P R Q T abort h k l = l h
Ensures-weaken P R Q T fault h k l = h

abbrev pub map_outcome {ℓ κ} : {A : Type ℓ} {B : Type κ} → (A → B) → Outcome A → Outcome B
map_outcome f m = m >>= λ a. ok (f a)

pub Ensures-total {ℓ} :
    {A : Type ℓ} (P : A → Type 0) (m : Outcome A) → Ensures P ⊥ m → (a : A) × (m ≡ ok a) × P a
Ensures-total P (ok a) h = (a, refl, h)
Ensures-total P abort h = elim h [ ]
Ensures-total P fault h = elim h [ ]

-- What holds of the value, if there is one.
abbrev pub Yields {ℓ} : {A : Type ℓ} → (A → Type 0) → Outcome A → Type 0
Yields P (ok a) = P a
Yields P abort = Unit
Yields P fault = Unit

pub Yields-any {ℓ} : {A : Type ℓ} (m : Outcome A) → Yields (λ a. Unit) m
Yields-any (ok a) = tt
Yields-any abort = tt
Yields-any fault = tt

pub Yields-bind {ℓ κ} :
    {A : Type ℓ} {B : Type κ} (P : A → Type 0) (R : B → Type 0) (m : Outcome A) (f : A → Outcome B)
    → Yields P m
    → ((a : A) → P a → Yields R (f a))
    → Yields R (m >>= f)
Yields-bind P R (ok a) f h k = k a h
Yields-bind P R abort f h k = tt
Yields-bind P R fault f h k = tt

pub Yields-deref {ℓ κ} :
    {A : Type ℓ} {B : Type κ} (R : B → Type 0) (o : Option A) (f : A → Outcome B)
    → ((a : A) → Yields R (f a))
    → Yields R (deref o f)
Yields-deref R none f k = tt
Yields-deref R (some a) f k = k a

pub Yields-if {ℓ} :
    {A : Type ℓ} (P : A → Type 0) (b : Bool) (x y : Outcome A)
    → Yields P x
    → Yields P y
    → Yields P (if b then x else y)
Yields-if P true x y h k = h
Yields-if P false x y h k = k

pub Yields-value {ℓ} :
    {A : Type ℓ} (P : A → Type 0) (m : Outcome A) {a : A} → Yields P m → m ≡ ok a → P a
Yields-value P m h e = subst (Yields P) e h

pub Yields-weaken {ℓ} :
    {A : Type ℓ} (P R : A → Type 0) (m : Outcome A)
    → Yields P m
    → ((a : A) → P a → R a)
    → Yields R m
Yields-weaken P R (ok a) h k = k a h
Yields-weaken P R abort h k = tt
Yields-weaken P R fault h k = tt

pub bind_ok {ℓ} : {A : Type ℓ} (m : Outcome A) → (m >>= λ a. ok a) ≡ m
bind_ok (ok a) = refl
bind_ok abort = refl
bind_ok fault = refl
