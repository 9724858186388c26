-- ===== src/Examples/Memchr.antt =====
-- The searches of the crate `memchr`, written out.
use sensor_sensei.Common.{
  ℕ, zero, suc, ◌≤◌, ◌==◌, ◌||◌, if◌then◌else◌, Bool, true, false, List, [], ◌∷◌, Option, none,
  some, length, take, length-take, ◌≡◌, refl, sym, ap, subst, ◌∙◌, arith, inl, inr, Bool-cases,
  Option-cases,
}
use mathlib.Core.Option
use sensor_sensei.Common.Bytes.{same_bytes, same_bytes_refl, same_bytes-≡}
use sensor_sensei.Util.Memchr.{Memchr, IsMemchr, StandsAt, first_index}

abbrev here : List ℕ → List ℕ → Bool
here needle bytes = same_bytes (take (length needle) bytes) needle

unfoldable pub search_for : List ℕ → List ℕ → Option ℕ
search_for needle [] = if here needle [] then some 0 else none
search_for needle (b ∷ bs) =
    let later = Option.map (λ i. suc i) (search_for needle bs) in
    if here needle (b ∷ bs) then some 0 else later

abbrev pub searches : Memchr
searches = record {
  memchr = λ b bytes. first_index (λ c. c == b) bytes;
  memchr2 = λ a b bytes. first_index (λ c. c == a || c == b) bytes;
  memmem_find = search_for;
}

here-StandsAt : (needle bytes : List ℕ) → here needle bytes ≡ true → StandsAt needle bytes 0
here-StandsAt needle bytes e =
    let same = same_bytes-≡ (take (length needle) bytes) needle e in
    (same, omega (arith, length-take (length needle) bytes, ap (λ (l : List ℕ). length l) same))

StandsAt-here : (needle bytes : List ℕ) → StandsAt needle bytes 0 → here needle bytes ≡ true
StandsAt-here needle bytes (e, _) = rw e (same_bytes_refl needle)

StandsAt-later :
    (needle bs : List ℕ) (b i : ℕ) → StandsAt needle bs i → StandsAt needle (b ∷ bs) (suc i)
StandsAt-later needle bs b i (e, le) = (e, omega arith)

StandsAt-sooner :
    (needle bs : List ℕ) (b i : ℕ) → StandsAt needle (b ∷ bs) (suc i) → StandsAt needle bs i
StandsAt-sooner needle bs b i (e, le) = (e, omega arith)

found_here : (needle bytes : List ℕ) → here needle bytes ≡ true → search_for needle bytes ≡ some 0
unfolding search_for
found_here needle [] e = rw e refl
found_here needle (b ∷ bs) e = rw e refl

goes_on :
    (needle bs : List ℕ) (b : ℕ)
    → here needle (b ∷ bs) ≡ false
    → search_for needle (b ∷ bs) ≡ Option.map (λ i. suc i) (search_for needle bs)
unfolding search_for
goes_on needle bs b e = rw e refl

not_in_empty : (needle : List ℕ) → here needle [] ≡ false → search_for needle [] ≡ none
unfolding search_for
not_in_empty needle e = rw e refl

search_for-none :
    (needle bytes : List ℕ) (j : ℕ) → search_for needle bytes ≡ none → ¬ (StandsAt needle bytes j)
search_for-none needle bytes zero e at =
    let found = found_here needle bytes (StandsAt-here needle bytes at) in
    let no : ◌≡◌ {A = Option ℕ} none (some 0) = sym e ∙ found in cc
search_for-none needle [] (suc j) e at = omega (arith, at.1)
search_for-none needle (b ∷ bs) (suc j) e at = elim (Bool-cases (here needle (b ∷ bs))) [
  | inl found ↦ let e' = found_here needle (b ∷ bs) found in cc
  | inr going ↦ elim (Option-cases (search_for needle bs)) [
    | inl nothing ↦ search_for-none needle bs j nothing (StandsAt-sooner needle bs b j at)
    | inr (i, later) ↦ let e' = goes_on needle bs b going ∙ ap (Option.map (λ i. suc i)) later in cc
  ]
]

first_of :
    (needle bytes : List ℕ)
    → StandsAt needle bytes 0
    → StandsAt needle bytes 0 × ((j : ℕ) → StandsAt needle bytes j → 0 ≤ j)
first_of needle bytes at = (at, λ j later. omega arith)

after_first :
    (needle bs : List ℕ) (b i : ℕ)
    → here needle (b ∷ bs) ≡ false
    → StandsAt needle bs i
    → ((j : ℕ) → StandsAt needle bs j → i ≤ j)
    → (j : ℕ) → StandsAt needle (b ∷ bs) j
    → suc i ≤ j
after_first needle bs b i going at least zero other =
    let found = StandsAt-here needle (b ∷ bs) other in cc
after_first needle bs b i going at least (suc j) other =
    omega (arith, least j (StandsAt-sooner needle bs b j other))

search_for-some :
    (needle bytes : List ℕ) (i : ℕ)
    → search_for needle bytes ≡ some i
    → StandsAt needle bytes i × ((j : ℕ) → StandsAt needle bytes j → i ≤ j)
search_for-some needle [] i e = elim (Bool-cases (here needle [])) [
  | inl found ↦
      let e' : some 0 ≡ some i = sym (found_here needle [] found) ∙ e in
      let zero_i : 0 ≡ i = cc in
      subst (λ k. StandsAt needle [] k × ((j : ℕ) → StandsAt needle [] j → k ≤ j)) zero_i
        (first_of needle [] (here-StandsAt needle [] found))
  | inr going ↦ let e' = not_in_empty needle going in cc
]
search_for-some needle (b ∷ bs) i e = elim (Bool-cases (here needle (b ∷ bs))) [
  | inl found ↦
      let e' : some 0 ≡ some i = sym (found_here needle (b ∷ bs) found) ∙ e in
      let zero_i : 0 ≡ i = cc in
      subst (λ k. StandsAt needle (b ∷ bs) k × ((j : ℕ) → StandsAt needle (b ∷ bs) j → k ≤ j))
        zero_i (first_of needle (b ∷ bs) (here-StandsAt needle (b ∷ bs) found))
  | inr going ↦ elim (Option-cases (search_for needle bs)) [
    | inl nothing ↦ let e' = goes_on needle bs b going ∙ ap (Option.map (λ i. suc i)) nothing in cc
    | inr (k, later) ↦
        let (at, least) = search_for-some needle bs k later in
        let e' : some (suc k) ≡ some i =
          sym (goes_on needle bs b going ∙ ap (Option.map (λ i. suc i)) later) ∙ e in
        let next_i : suc k ≡ i = cc in
        subst (λ k. StandsAt needle (b ∷ bs) k × ((j : ℕ) → StandsAt needle (b ∷ bs) j → k ≤ j))
          next_i (StandsAt-later needle bs b k at, after_first needle bs b k going at least)
  ]
]

pub searches-IsMemchr : IsMemchr searches
searches-IsMemchr = record {
  memchr_lem = λ b bytes. refl;
  memchr2_lem = λ a b bytes. refl;
  memmem_some = search_for-some;
  memmem_none = search_for-none;
}
