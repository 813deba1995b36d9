-- ===== src/Base/Assoc.antt =====
-- `std::map` from pointers: an association list of numbers.
use Prim.Native.Nat.{ℕ, ◌<◌}
use mathlib.Core.Path.{◌≡◌, refl}
use mathlib.Core.List.{List, [], ◌∷◌}
use mathlib.Core.Option.{Option, none, some}
use native.Mathlib.Omega.{arith}
use libuvwrapper.Base.Tests.{◌==◌, if◌then◌else◌}
use libuvwrapper.Base.Counts.{count, remove}

abbrev pub Assoc : Type 0
Assoc = List (ℕ × ℕ)

abbrev pub keys : Assoc → List ℕ
keys [] = []
keys ((k, v) ∷ m) = k ∷ keys m

-- `m.find(k)`: `none` is `m.end()`.
unfoldable pub find : ℕ → Assoc → Option ℕ
find k [] = none
find k ((j, v) ∷ m) = if j == k then some v else find k m

-- `m.insert(make_pair(k, v))` leaves an entry that is there.
unfoldable pub insert : ℕ → ℕ → Assoc → Assoc
unfolding find
insert k v m = elim (find k m) [ none ↦ (k, v) ∷ m | some _ ↦ m ]

-- `m.erase(it)` at the iterator that `find` gave.
unfoldable pub erase : ℕ → Assoc → Assoc
erase k [] = []
erase k ((j, v) ∷ m) = if j == k then m else (j, v) ∷ erase k m

-- Every key is the address of the object that it leads to.
abbrev pub IsKeyed : Assoc → Type 0
IsKeyed [] = Unit
IsKeyed ((k, v) ∷ m) = (v ≡ k) × IsKeyed m

pub keys-erase : (k : ℕ) (m : Assoc) → keys (erase k m) ≡ remove k (keys m)
unfolding erase remove
keys-erase k [] = refl
keys-erase k ((j, v) ∷ m) = ground (arith, keys-erase k m)

pub erase-IsKeyed : (k : ℕ) (m : Assoc) → IsKeyed m → IsKeyed (erase k m)
unfolding erase
erase-IsKeyed k [] h = tt
erase-IsKeyed k ((j, v) ∷ m) h = ground (arith, erase-IsKeyed k m h.1)

pub find_absent : (k : ℕ) (m : Assoc) → count k (keys m) ≡ 0 → find k m ≡ none
unfolding find
find_absent k [] h = refl
find_absent k ((j, v) ∷ m) h = ground (arith, find_absent k m)

pub find_present : (k : ℕ) (m : Assoc) → IsKeyed m → 0 < count k (keys m) → find k m ≡ some k
unfolding find
find_present k [] i h = absurd (omega arith)
find_present k ((j, v) ∷ m) i h = ground (arith, find_present k m i.1)

pub insert_absent : (k v : ℕ) (m : Assoc) → count k (keys m) ≡ 0 → insert k v m ≡ (k, v) ∷ m
unfolding insert
insert_absent k v m h = rw (find_absent k m h, insert)
