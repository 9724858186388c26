-- ===== src/Common/Lists.antt =====
-- Lists measured and cut by native numbers, under the library's names.
use Prim.Native.Nat.{ℕ, zero, suc, ◌+◌, ◌-◌, ◌≤◌, min}
use mathlib.Core.Path.{◌≡◌, refl, ap, ◌∙◌}
use mathlib.Core.List.{List, [], ◌∷◌, ◌++◌}
use native.Mathlib.Omega.{arith}

module _ {ℓ} {A : Type ℓ} where
  abbrev pub length : List A → ℕ
  length [] = 0
  length (x ∷ xs) = suc (length xs)

  abbrev pub get_or : List A → ℕ → A → A
  get_or [] i d = d
  get_or (x ∷ xs) zero d = x
  get_or (x ∷ xs) (suc i) d = get_or xs i d

  abbrev pub take : ℕ → List A → List A
  take zero xs = []
  take (suc n) [] = []
  take (suc n) (x ∷ xs) = x ∷ take n xs

  abbrev pub drop : ℕ → List A → List A
  drop zero xs = xs
  drop (suc n) [] = []
  drop (suc n) (x ∷ xs) = drop n xs

  abbrev pub All {κ} : (A → Type κ) → List A → Type κ
  All P [] = Unit {κ}
  All P (x ∷ xs) = P x × All P xs

  abbrev pub concat : List (List A) → List A
  concat [] = []
  concat (xs ∷ xss) = xs ++ concat xss

  pub length-append : (xs ys : List A) → length (xs ++ ys) ≡ length xs + length ys
  length-append [] ys = omega arith
  length-append (x ∷ xs) ys = omega (arith, length-append xs ys)

module _ {ℓ} {A : Type ℓ} where
  pub take-append-drop : (n : ℕ) (xs : List A) → take n xs ++ drop n xs ≡ xs
  take-append-drop zero xs = refl
  take-append-drop (suc n) [] = refl
  take-append-drop (suc n) (x ∷ xs) = rw (take-append-drop n xs)

  pub length-take : (n : ℕ) (xs : List A) → length (take n xs) ≡ min n (length xs)
  length-take zero xs = omega arith
  length-take (suc n) [] = omega arith
  length-take (suc n) (x ∷ xs) = omega (arith, length-take n xs)

  pub length-drop : (n : ℕ) (xs : List A) → length (drop n xs) ≡ length xs - n
  length-drop zero xs = omega arith
  length-drop (suc n) [] = omega arith
  length-drop (suc n) (x ∷ xs) = omega (arith, length-drop n xs)

  pub take-length_append : (xs ys : List A) → take (length xs) (xs ++ ys) ≡ xs
  take-length_append [] ys = refl
  take-length_append (x ∷ xs) ys = ap (λ zs. x ∷ zs) (take-length_append xs ys)

  pub drop-length_append : (xs ys : List A) → drop (length xs) (xs ++ ys) ≡ ys
  drop-length_append [] ys = refl
  drop-length_append (x ∷ xs) ys = drop-length_append xs ys

  pub take-front : (k : ℕ) (xs ys : List A) → k ≤ length xs → take k (xs ++ ys) ≡ take k xs
  take-front zero xs ys h = refl
  take-front (suc k) [] ys h = ground arith
  take-front (suc k) (x ∷ xs) ys h = ap (λ zs. x ∷ zs) (take-front k xs ys (omega arith))

  pub drop-front : (k : ℕ) (xs ys : List A) → k ≤ length xs → drop k (xs ++ ys) ≡ drop k xs ++ ys
  drop-front zero xs ys h = refl
  drop-front (suc k) [] ys h = ground arith
  drop-front (suc k) (x ∷ xs) ys h = drop-front k xs ys (omega arith)

  pub drop-drop : (i k : ℕ) (xs : List A) → drop (i + k) xs ≡ drop k (drop i xs)
  drop-drop zero k xs = ap (λ (m : ℕ). drop m xs) (let e : 0 + k ≡ k = omega arith in e)
  drop-drop (suc i) zero [] =
      ap (λ (m : ℕ). drop m ([])) (let e : suc i + 0 ≡ suc i = omega arith in e)
  drop-drop (suc i) (suc k) [] =
      ap (λ (m : ℕ). drop m ([])) (let e : suc i + suc k ≡ suc (i + suc k) = omega arith in e)
  drop-drop (suc i) k (x ∷ xs) =
      ap (λ (m : ℕ). drop m (x ∷ xs)) (let e : suc i + k ≡ suc (i + k) = omega arith in e)
      ∙ drop-drop i k xs

  pub take-take : (i k : ℕ) (xs : List A) → i ≤ k → take i (take k xs) ≡ take i xs
  take-take zero k xs le = refl
  take-take (suc i) zero xs le = absurd (omega arith)
  take-take (suc i) (suc k) [] le = refl
  take-take (suc i) (suc k) (x ∷ xs) le = ap (λ ys. x ∷ ys) (take-take i k xs (omega arith))

  pub take-plus : (i k : ℕ) (xs : List A) → take (i + k) xs ≡ take i xs ++ take k (drop i xs)
  take-plus zero k xs = ap (λ (j : ℕ). take j xs) (omega arith)
  take-plus (suc i) zero [] =
      ap (λ (j : ℕ). take j ([])) (let e : suc i + 0 ≡ suc i = omega arith in e)
  take-plus (suc i) (suc k) [] =
      ap (λ (j : ℕ). take j ([])) (let e : suc i + suc k ≡ suc (i + suc k) = omega arith in e)
  take-plus (suc i) k (x ∷ xs) =
      ap (λ (j : ℕ). take j (x ∷ xs)) (let e : suc i + k ≡ suc (i + k) = omega arith in e)
      ∙ ap (λ ys. x ∷ ys) (take-plus i k xs)
