-- ===== src/Base/Counts.antt =====
-- How often a number stands in a list, and the removal of one occurrence.
use Prim.Native.Nat.{ℕ, suc, ◌+◌, ◌<◌}
use mathlib.Core.Path.{◌≡◌, refl, ap₂}
use mathlib.Core.Logic.{inl, inr}
use mathlib.Core.Bool.{Bool, true, false}
use mathlib.Core.List.{List, [], ◌∷◌, ◌++◌, map, Perm}
use mathlib.Core.List.Perm
use native.Mathlib.Omega.{arith}
use libuvwrapper.Base.Tests.{◌==◌, if◌then◌else◌, ==_iff, Bool-cases}
use libuvwrapper.Base.Lists.{length}

abbrev pub one_if : Bool → ℕ
one_if true = 1
one_if false = 0

abbrev pub count : ℕ → List ℕ → ℕ
count x [] = 0
count x (y ∷ ys) = one_if (y == x) + count x ys

-- The list without the first `x`.
unfoldable pub remove : ℕ → List ℕ → List ℕ
remove x [] = []
remove x (y ∷ ys) = if y == x then ys else y ∷ remove x ys

pub count-append : (x : ℕ) (ys zs : List ℕ) → count x (ys ++ zs) ≡ count x ys + count x zs
count-append x [] zs = omega arith
count-append x (y ∷ ys) zs = omega (arith, count-append x ys zs)

pub count-remove :
    (x h : ℕ) (ys : List ℕ) → 0 < count h ys → count x ys ≡ one_if (h == x) + count x (remove h ys)
unfolding remove
count-remove x h [] k = absurd (omega arith)
count-remove x h (y ∷ ys) k = ground (arith, count-remove x h ys)

pub length-remove : (h : ℕ) (ys : List ℕ) → 0 < count h ys → length ys ≡ suc (length (remove h ys))
unfolding remove
length-remove h [] k = absurd (omega arith)
length-remove h (y ∷ ys) k = ground (arith, length-remove h ys)

-- Taking `h` out of the list takes its image out of the image.
pub map-remove {ℓ} :
    {A : Type ℓ} (f : ℕ → A) (h : ℕ) (ys : List ℕ)
    → 0 < count h ys
    → Perm (map f ys) (f h ∷ map f (remove h ys))
unfolding remove
map-remove f h [] k = absurd (omega arith)
map-remove f h (y ∷ ys) k = elim (Bool-cases (y == h)) [
  | inl e ↦ rw (e, (==_iff y h).0 e) (Perm.refl _)
  | inr e ↦
      rw e
        (Perm.trans (Perm.cons (f y) (map-remove f h ys (ground arith))) (Perm.swap (f h) (f y) _))
]

-- Maps that differ at `h` only agree on a list without `h`.
pub map-without {ℓ} :
    {A : Type ℓ} (f g : ℕ → A) (h : ℕ) (ys : List ℕ)
    → ((x : ℕ) → (x == h) ≡ false → f x ≡ g x)
    → count h ys ≡ 0
    → map f ys ≡ map g ys
map-without f g h [] same k = refl
map-without f g h (y ∷ ys) same k =
    ap₂ ◌∷◌ (same y (ground arith)) (map-without f g h ys same (ground arith))
