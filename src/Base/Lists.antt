-- ===== src/Base/Lists.antt =====
-- Lists measured and cut by native numbers, under the library's names.
use Prim.Native.Nat.{ℕ, zero, suc, ◌+◌, ◌-◌, ◌≤◌, min}
use mathlib.Core.Path.{◌≡◌, refl, ap, sym, ◌∙◌}
use mathlib.Core.List.{List, [], ◌∷◌, ◌++◌}
use mathlib.Core.Option.{Option, none, some}
use native.Mathlib.Omega.{arith}

module _ {ℓ} {A : Type ℓ} where
  abbrev pub length : List A → ℕ
  length [] = 0
  length (x ∷ xs) = suc (length xs)

  abbrev pub get_elem? : List A → ℕ → Option A
  get_elem? [] i = none
  get_elem? (x ∷ xs) zero = some x
  get_elem? (x ∷ xs) (suc i) = get_elem? xs i

  abbrev pub take : ℕ → List A → List A
  take zero xs = []
  take (suc n) [] = []
  take (suc n) (x ∷ xs) = x ∷ take n xs

  abbrev pub drop : ℕ → List A → List A
  drop zero xs = xs
  drop (suc n) [] = []
  drop (suc n) (x ∷ xs) = drop n xs

  abbrev pub replicate : ℕ → A → List A
  replicate zero a = []
  replicate (suc n) a = a ∷ replicate n a

  pub length-append : (xs ys : List A) → length (xs ++ ys) ≡ length xs + length ys
  length-append [] ys = omega arith
  length-append (x ∷ xs) ys = omega (arith, length-append xs ys)

  pub length-take : (n : ℕ) (xs : List A) → length (take n xs) ≡ min n (length xs)
  length-take zero xs = omega arith
  length-take (suc n) [] = omega arith
  length-take (suc n) (x ∷ xs) = omega (arith, length-take n xs)

  pub length-drop : (n : ℕ) (xs : List A) → length (drop n xs) ≡ length xs - n
  length-drop zero xs = omega arith
  length-drop (suc n) [] = omega arith
  length-drop (suc n) (x ∷ xs) = omega (arith, length-drop n xs)

  pub length-replicate : (n : ℕ) (a : A) → length (replicate n a) ≡ n
  length-replicate zero a = refl
  length-replicate (suc n) a = ap suc (length-replicate n a)

  pub take-append-drop : (n : ℕ) (xs : List A) → take n xs ++ drop n xs ≡ xs
  take-append-drop zero xs = refl
  take-append-drop (suc n) [] = refl
  take-append-drop (suc n) (x ∷ xs) = ap (λ ys. x ∷ ys) (take-append-drop n xs)

  -- Cutting exactly after a prefix of known length.
  pub take_prefix : (n : ℕ) (xs ys : List A) → length xs ≡ n → take n (xs ++ ys) ≡ xs
  take_prefix zero [] ys e = refl
  take_prefix zero (x ∷ xs) ys e = absurd (omega arith)
  take_prefix (suc n) [] ys e = absurd (omega arith)
  take_prefix (suc n) (x ∷ xs) ys e = ap (λ zs. x ∷ zs) (take_prefix n xs ys (omega arith))

  pub drop_prefix : (n : ℕ) (xs ys : List A) → length xs ≡ n → drop n (xs ++ ys) ≡ ys
  drop_prefix zero [] ys e = refl
  drop_prefix zero (x ∷ xs) ys e = absurd (omega arith)
  drop_prefix (suc n) [] ys e = absurd (omega arith)
  drop_prefix (suc n) (x ∷ xs) ys e = drop_prefix n xs ys (omega arith)

  pub take_all : (n : ℕ) (xs : List A) → length xs ≤ n → take n xs ≡ xs
  take_all zero [] h = refl
  take_all zero (x ∷ xs) h = absurd (omega arith)
  take_all (suc n) [] h = refl
  take_all (suc n) (x ∷ xs) h = ap (λ zs. x ∷ zs) (take_all n xs (omega arith))

  pub drop_all : (n : ℕ) (xs : List A) → length xs ≤ n → drop n xs ≡ []
  drop_all zero [] h = refl
  drop_all zero (x ∷ xs) h = absurd (omega arith)
  drop_all (suc n) [] h = refl
  drop_all (suc n) (x ∷ xs) h = drop_all n xs (omega arith)

  pub take-append_le : (n : ℕ) (xs ys : List A) → n ≤ length xs → take n (xs ++ ys) ≡ take n xs
  take-append_le zero xs ys h = refl
  take-append_le (suc n) [] ys h = absurd (omega arith)
  take-append_le (suc n) (x ∷ xs) ys h = ap (λ zs. x ∷ zs) (take-append_le n xs ys (omega arith))

  pub take-take : (m n : ℕ) (xs : List A) → m ≤ n → take m (take n xs) ≡ take m xs
  take-take zero n xs h = refl
  take-take (suc m) zero xs h = absurd (omega arith)
  take-take (suc m) (suc n) [] h = refl
  take-take (suc m) (suc n) (x ∷ xs) h = ap (λ zs. x ∷ zs) (take-take m n xs (omega arith))

  pub drop-replicate : (m n : ℕ) (a : A) → drop m (replicate n a) ≡ replicate (n - m) a
  drop-replicate zero n a = let e : n ≡ n - 0 = omega arith in ap (λ k. replicate k a) e
  drop-replicate (suc m) zero a = let e : 0 ≡ 0 - suc m = omega arith in ap (λ k. replicate k a) e
  drop-replicate (suc m) (suc n) a =
      let e : n - m ≡ suc n - suc m = omega arith in
      drop-replicate m n a ∙ ap (λ k. replicate k a) e

  take-nil : (k : ℕ) → [] ≡ take k []
  take-nil zero = refl
  take-nil (suc k) = refl

  drop-nil : (k : ℕ) → [] ≡ drop k []
  drop-nil zero = refl
  drop-nil (suc k) = refl

  pub drop-drop : (m n : ℕ) (xs : List A) → drop m (drop n xs) ≡ drop (n + m) xs
  drop-drop m zero xs = let e : m ≡ 0 + m = omega arith in ap (λ k. drop k xs) e
  drop-drop m (suc n) [] = sym (drop-nil m) ∙ drop-nil (suc n + m)
  drop-drop m (suc n) (x ∷ xs) =
      let e : suc (n + m) ≡ suc n + m = omega arith in
      drop-drop m n xs ∙ ap (λ k. drop k (x ∷ xs)) e

  pub drop-take : (n m : ℕ) (xs : List A) → drop n (take m xs) ≡ take (m - n) (drop n xs)
  drop-take zero m xs = let e : m ≡ m - 0 = omega arith in ap (λ k. take k xs) e
  drop-take (suc n) zero xs =
      let e : 0 ≡ 0 - suc n = omega arith in ap (λ k. take k (drop (suc n) xs)) e
  drop-take (suc n) (suc m) [] = take-nil (suc m - suc n)
  drop-take (suc n) (suc m) (x ∷ xs) =
      let e : m - n ≡ suc m - suc n = omega arith in
      drop-take n m xs ∙ ap (λ k. take k (drop n xs)) e

  pub replicate-append : (m n : ℕ) (a : A) → replicate m a ++ replicate n a ≡ replicate (m + n) a
  replicate-append zero n a = let e : n ≡ 0 + n = omega arith in ap (λ k. replicate k a) e
  replicate-append (suc m) n a =
      let e : suc (m + n) ≡ suc m + n = omega arith in
      ap (λ zs. a ∷ zs) (replicate-append m n a) ∙ ap (λ k. replicate k a) e

  pub get_elem?-drop :
      (n : ℕ) (xs : List A) {y : A} {ys : List A} → drop n xs ≡ y ∷ ys → get_elem? xs n ≡ some y
  get_elem?-drop zero [] h = cc
  get_elem?-drop zero (x ∷ xs) h = cc
  get_elem?-drop (suc n) [] h = cc
  get_elem?-drop (suc n) (x ∷ xs) h = get_elem?-drop n xs h
