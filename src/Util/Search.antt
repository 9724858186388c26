-- ===== src/Util/Search.antt =====
-- Where the searches of `Memchr` find a byte or a pattern, and what the cuts there leave.
use sensor_sensei.Common.{
  ℕ, zero, suc, ◌+◌, ◌≤◌, ◌<◌, ◌==◌, List, [], ◌∷◌, ◌++◌, Option, none, some, Bool, length, take,
  ◌≡◌, ◌⊎◌, inl, inr, refl, sym, ap, ◌∙◌, arith, Bool-cases, Option-cases, true, false, ==→eq,
}
use sensor_sensei.Util.Memchr.{StandsAt, first_index}

pub first_index-empty : (byte : ℕ) → first_index (λ b. b == byte) [] ≡ none
unfolding first_index
first_index-empty byte = refl

-- Where the first fitting byte stands, the list with its first byte split off.
first_index-cons :
    (p : ℕ → Bool) (b : ℕ) (bs : List ℕ) (i : ℕ)
    → first_index p (b ∷ bs) ≡ some i
    → ((p b ≡ true) × (i ≡ 0))
      ⊎ ((j : ℕ) × (p b ≡ false) × (i ≡ suc j) × (first_index p bs ≡ some j))
unfolding first_index
first_index-cons p b bs i e = elim (Bool-cases (p b)) [
  | inl here ↦
      let first : ◌≡◌ {A = Option ℕ} (some 0) (some i) = sym (rw here refl) ∙ e in inl (here, cc)
  | inr later ↦ elim (Option-cases (first_index p bs)) [
    | inl nothing ↦
        let no : ◌≡◌ {A = Option ℕ} none (some i) = sym (rw (later, nothing) refl) ∙ e in cc
    | inr (j, sooner) ↦
        let next : ◌≡◌ {A = Option ℕ} (some (suc j)) (some i) = sym (rw (later, sooner) refl) ∙ e in
        inr (j, later, cc, sooner)
  ]
]

pub first_index-front :
    (p : ℕ → Bool) (xs ys : List ℕ) (i : ℕ)
    → first_index p xs ≡ some i
    → first_index p (xs ++ ys) ≡ some i
unfolding first_index
first_index-front p [] ys i e = cc
first_index-front p (b ∷ bs) ys i e = elim (first_index-cons p b bs i e) [
  | inl (here, zero_i) ↦ rw (here, zero_i) refl
  | inr (j, later, suc_j, sooner) ↦ rw (later, first_index-front p bs ys j sooner, suc_j) refl
]

pub first_index-take :
    (p : ℕ → Bool) (k : ℕ) (xs : List ℕ) (i : ℕ)
    → first_index p xs ≡ some i
    → i < k
    → first_index p (take k xs) ≡ some i
unfolding first_index
first_index-take p k [] i e less = cc
first_index-take p zero (b ∷ bs) i e less = absurd (omega arith)
first_index-take p (suc k) (b ∷ bs) i e less = elim (first_index-cons p b bs i e) [
  | inl (here, zero_i) ↦ rw (here, zero_i) refl
  | inr (j, later, suc_j, sooner) ↦
      rw (later, first_index-take p k bs j sooner (omega arith), suc_j) refl
]

pub first_index-< : (p : ℕ → Bool) (xs : List ℕ) (i : ℕ) → first_index p xs ≡ some i → i < length xs
unfolding first_index
first_index-< p [] i e = cc
first_index-< p (b ∷ bs) i e = elim (first_index-cons p b bs i e) [
  | inl (here, zero_i) ↦ omega arith
  | inr (j, later, suc_j, sooner) ↦ omega (arith, first_index-< p bs j sooner)
]

pub take-first_index :
    (byte : ℕ) (xs : List ℕ) (i : ℕ)
    → first_index (λ b. b == byte) xs ≡ some i
    → take (i + 1) xs ≡ take i xs ++ (byte ∷ [])
unfolding first_index
take-first_index byte [] i e = cc
take-first_index byte (b ∷ bs) i e = elim (first_index-cons (λ c. c == byte) b bs i e) [
  | inl (here, zero_i) ↦ rw (zero_i, ==→eq b byte here) refl
  | inr (j, later, suc_j, sooner) ↦
      let next : suc j + 1 ≡ suc (j + 1) = omega arith in
      rw (suc_j, next) (ap (λ ys. b ∷ ys) (take-first_index byte bs j sooner))
]

-- A pattern that begins with the byte does not stand before the byte's first place.
pub first_index-before :
    (byte : ℕ) (rest xs : List ℕ) (i at : ℕ)
    → first_index (λ b. b == byte) xs ≡ some i
    → StandsAt (byte ∷ rest) xs at
    → i ≤ at
first_index-before byte rest [] i at e (same, fits) = absurd (omega arith)
first_index-before byte rest (b ∷ bs) i zero e (same, fits) =
    elim (first_index-cons (λ c. c == byte) b bs i e) [
      | inl (here, zero_i) ↦ omega arith
      | inr (j, later, suc_j, sooner) ↦ let byte_b : b ≡ byte = cc in absurd (ground arith)
    ]
first_index-before byte rest (b ∷ bs) i (suc at) e (same, fits) =
    elim (first_index-cons (λ c. c == byte) b bs i e) [
      | inl (here, zero_i) ↦ omega arith
      | inr (j, later, suc_j, sooner) ↦
          omega (arith, first_index-before byte rest bs j at sooner (same, omega arith))
    ]
