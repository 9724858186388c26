-- ===== src/Util/Memchr.antt =====
-- The crate `memchr`, of which only the documentation is known here: its functions are parameters,
-- and `IsMemchr` is what it documents of them, for a haystack of bytes.
use sensor_sensei.Common.{
  ℕ, suc, ◌+◌, ◌≤◌, ◌==◌, ◌||◌, if◌then◌else◌, Bool, List, [], ◌∷◌, Option, none, some, length,
  take, drop, ◌≡◌,
}
use mathlib.Core.Option

-- Where the first byte that `fits` stands.
unfoldable pub first_index : (ℕ → Bool) → List ℕ → Option ℕ
first_index fits [] = none
first_index fits (b ∷ bs) =
    let later = Option.map (λ i. suc i) (first_index fits bs) in if fits b then some 0 else later

-- `memchr` and `memchr2` search for one byte and for one of two, `find` of the module `memmem` for
-- a byte sequence: the haystack is the last argument.
pub record Memchr : Type 0 where
  pub memchr : ℕ → List ℕ → Option ℕ
  pub memchr2 : ℕ → ℕ → List ℕ → Option ℕ
  pub memmem_find : List ℕ → List ℕ → Option ℕ

-- The needle stands at `i`.
abbrev pub StandsAt : List ℕ → List ℕ → ℕ → Type 0
StandsAt needle bytes i =
    (take (length needle) (drop i bytes) ≡ needle) × (i + length needle ≤ length bytes)

pub record IsMemchr (m : Memchr) : Type 0 where
  pub memchr_lem : (b : ℕ) (bytes : List ℕ) → m.memchr b bytes ≡ first_index (λ c. c == b) bytes
  pub memchr2_lem :
      (a b : ℕ) (bytes : List ℕ) → m.memchr2 a b bytes ≡ first_index (λ c. c == a || c == b) bytes
  pub memmem_some :
      (needle bytes : List ℕ) (i : ℕ)
      → m.memmem_find needle bytes ≡ some i
      → StandsAt needle bytes i × ((j : ℕ) → StandsAt needle bytes j → i ≤ j)
  pub memmem_none :
      (needle bytes : List ℕ) (j : ℕ)
      → m.memmem_find needle bytes ≡ none
      → ¬ (StandsAt needle bytes j)
