-- ===== src/Web/Server/Searches.antt =====
-- The searches of net/http/server.rs: `read_until_byte` and `read_until_bytes`.
use sensor_sensei.Common.{
  ℕ, zero, suc, ◌+◌, ◌-◌, ◌≤◌, ◌<◌, ◌==◌, leb, ltb, List, [], ◌∷◌, ◌++◌, Option, none, some, Bool,
  length, drop, append_assoc, length-append, drop-length_append, ◌≡◌, ◌⊎◌, inl, inr, refl, sym, ap,
  subst, ◌∙◌, arith, Bool-cases, Option-cases, true,
}
use sensor_sensei.Common.Outcome.{Ended, bind-Ended}
use sensor_sensei.Util.Memchr.{Memchr, IsMemchr, StandsAt, first_index}
use sensor_sensei.Web.Http.{TcpSocket}
use sensor_sensei.Web.Server.{
  Connection, ReadUntilBytesMatch, read_append, read_until_byte, first_match, read_until_bytes,
  read_body,
}
use sensor_sensei.Web.Server.Runs.{IsTcpSocket, Holds, Grown, read_append-Ended}

-- A list in which nothing fits goes on with one whose first fitting byte is at `i`.
first_index-later :
    (p : ℕ → Bool) (old new : List ℕ) (i : ℕ)
    → first_index p old ≡ none
    → first_index p new ≡ some i
    → first_index p (old ++ new) ≡ some (length old + i)
unfolding first_index
first_index-later p [] new i e found = found ∙ ap some (omega arith)
first_index-later p (b ∷ bs) new i e found = elim (Bool-cases (p b)) [
  | inl here ↦ let no : ◌≡◌ {A = Option ℕ} (some 0) none = (rw here refl) ∙ e in cc
  | inr later ↦ elim (Option-cases (first_index p bs)) [
    | inl nothing ↦ rw (later, first_index-later p bs new i nothing found) (ap some (omega arith))
    | inr (j, sooner) ↦
        let no : ◌≡◌ {A = Option ℕ} (some (suc j)) none = (rw (later, sooner) refl) ∙ e in cc
  ]
]

first_index-nowhere :
    (p : ℕ → Bool) (old new : List ℕ)
    → first_index p old ≡ none
    → first_index p new ≡ none
    → first_index p (old ++ new) ≡ none
unfolding first_index
first_index-nowhere p [] new e e' = e'
first_index-nowhere p (b ∷ bs) new e e' = elim (Bool-cases (p b)) [
  | inl here ↦ let no : ◌≡◌ {A = Option ℕ} (some 0) none = (rw here refl) ∙ e in cc
  | inr later ↦ elim (Option-cases (first_index p bs)) [
    | inl nothing ↦ rw (later, first_index-nowhere p bs new nothing e') refl
    | inr (j, sooner) ↦
        let no : ◌≡◌ {A = Option ℕ} (some (suc j)) none = (rw (later, sooner) refl) ∙ e in cc
  ]
]

-- Each round of a search reads once more, up to the capacity.
module _ {K E : Type 0} (m : Memchr) (laws : IsMemchr m) (tcp : TcpSocket K E) (log : K → List ℕ)
    (socket : IsTcpSocket tcp log) (n : ℕ) where
  pub read_until_byte-Ended :
      (fuel byte offset : ℕ) (before old new : List ℕ) (c : Connection K)
      → Holds log n before c
      → c.buffer ≡ old ++ new
      → length old ≡ offset
      → first_index (λ b. b == byte) old ≡ none
      → n < length c.buffer + fuel
      → Ended
          (λ pos c'. Holds log n before c' × (first_index (λ b. b == byte) c'.buffer ≡ some pos))
          (read_until_byte m tcp n fuel byte offset c)
  unfolding read_until_byte
  read_until_byte-Ended zero byte offset before old new c (read, room) e l searched more =
      omega arith
  read_until_byte-Ended (suc fuel) byte offset before old new c (read, room) e l searched more =
      let fits : leb offset (length c.buffer) ≡ true = ground (arith, length-append old new) in
      let unseen : drop offset c.buffer ≡ new = rw (← l, e) (drop-length_append old new) in
      elim (Option-cases (first_index (λ b. b == byte) new)) [
        | inl nothing ↦
            let buffer_none : first_index (λ b. b == byte) c.buffer ≡ none =
              rw e (first_index-nowhere (λ b. b == byte) old new searched nothing) in
            rw (fits, unseen, laws.memchr_lem byte new, nothing)
              (bind-Ended (λ _ c'. Grown log n before c.buffer c')
                (λ pos c'.
                  Holds log n before c' × (first_index (λ b. b == byte) c'.buffer ≡ some pos))
                (read_append tcp n c) (λ _. read_until_byte m tcp n fuel byte (length c.buffer))
                (read_append-Ended tcp log socket n before c (read, room))
                (λ _ c' (bytes, grown, longer, holds).
                  read_until_byte-Ended fuel byte (length c.buffer) before c.buffer bytes c' holds
                    grown refl buffer_none (omega arith)))
        | inr (pos, found) ↦
            rw (fits, unseen, laws.memchr_lem byte new, found)
              (
                (read, room),
                rw (e, ← l) (first_index-later (λ b. b == byte) old new pos searched found),
              )
      ]

StandsAt-later :
    (needle old new : List ℕ) (i : ℕ)
    → StandsAt needle new i
    → StandsAt needle (old ++ new) (length old + i)
StandsAt-later needle [] new i at = subst (λ j. StandsAt needle new j) (omega arith) at
StandsAt-later needle (b ∷ bs) new i at =
    let (same, fits) = StandsAt-later needle bs new i at in
    let next : suc (length bs + i) ≡ suc (length bs) + i = omega arith in
    subst (λ j. StandsAt needle (b ∷ (bs ++ new)) j) next (same, omega arith)

-- The match is of one of the patterns, the first of which has the index `i`.
abbrev pub Matched : ℕ → List (List ℕ) → List ℕ → ReadUntilBytesMatch → Type 0
Matched i [] bytes found = ⊥
Matched i (pattern ∷ patterns) bytes found =
    ((found.pattern ≡ i) × StandsAt pattern bytes found.start)
    ⊎ Matched (suc i) patterns bytes found

Matched-later :
    (i : ℕ) (patterns : List (List ℕ)) (old new : List ℕ) (found : ReadUntilBytesMatch)
    → Matched i patterns new found
    → Matched i patterns (old ++ new) (record found { start = length old + found.start })
Matched-later i [] old new found matched = matched
Matched-later i (p ∷ ps) old new found (inl (e, at)) =
    inl (e, StandsAt-later p old new found.start at)
Matched-later i (p ∷ ps) old new found (inr later) =
    inr (Matched-later (suc i) ps old new found later)

first_match-Matched :
    (m : Memchr) (laws : IsMemchr m) (i : ℕ) (patterns : List (List ℕ)) (bytes : List ℕ)
    → (found : ReadUntilBytesMatch) → first_match m i patterns bytes ≡ some found
    → Matched i patterns bytes found
unfolding first_match
first_match-Matched m laws i [] bytes found e = cc
first_match-Matched m laws i (p ∷ ps) bytes found e = elim (Option-cases (m.memmem_find p bytes)) [
  | inl nothing ↦
      inr (first_match-Matched m laws (suc i) ps bytes found (sym (rw nothing refl) ∙ e))
  | inr (pos, at) ↦
      let same : some (record { start = pos; pattern = i }) ≡ some found = sym (rw at refl) ∙ e in
      let is_found : record { start = pos; pattern = i } ≡ found = cc in
      subst (λ f. Matched i (p ∷ ps) bytes f) is_found
        (inl (refl, (laws.memmem_some p bytes pos at).0))
]

module _ {K : Type 0} (log : K → List ℕ) (n : ℕ) where
  -- The buffer has been read on, and one of the patterns stands in it.
  abbrev pub Found : List ℕ → List (List ℕ) → List ℕ → ReadUntilBytesMatch → Connection K → Type 0
  Found before patterns bytes found c =
      Holds log n before c
      × ((later : List ℕ) × (c.buffer ≡ bytes ++ later))
      × Matched 0 patterns c.buffer found

  -- The buffer has been read on and holds the whole body.
  abbrev pub Whole : List ℕ → List ℕ → ℕ → Unit {0} → Connection K → Type 0
  Whole before bytes content_length _ c =
      Holds log n before c
      × ((later : List ℕ) × (c.buffer ≡ bytes ++ later))
      × (content_length ≤ length c.buffer)

module _ {K E : Type 0} (m : Memchr) (laws : IsMemchr m) (tcp : TcpSocket K E) (log : K → List ℕ)
    (socket : IsTcpSocket tcp log) (n : ℕ) where
  pub read_until_bytes-Ended :
      (fuel offset : ℕ) (patterns : List (List ℕ)) (before first old new : List ℕ)
      (c : Connection K)
      → Holds log n before c
      → ((later : List ℕ) × (c.buffer ≡ first ++ later))
      → c.buffer ≡ old ++ new
      → length old ≡ offset
      → n < length c.buffer + fuel
      → Ended (Found log n before patterns first) (read_until_bytes m tcp n fuel patterns offset c)
  unfolding read_until_bytes
  read_until_bytes-Ended zero offset patterns before first old new c (read, room) begins e l more =
      omega arith
  read_until_bytes-Ended (suc fuel) offset patterns before first old new c (read, room)
        (later, begins) e l more =
      let fits : leb offset (length c.buffer) ≡ true = ground (arith, length-append old new) in
      let unseen : drop offset c.buffer ≡ new = rw (← l, e) (drop-length_append old new) in
      elim (Option-cases (first_match m 0 patterns new)) [
        | inl nothing ↦
            rw (fits, unseen, nothing)
              (bind-Ended (λ _ c'. Grown log n before c.buffer c')
                (Found log n before patterns first) (read_append tcp n c)
                (λ _. read_until_bytes m tcp n fuel patterns (length c.buffer))
                (read_append-Ended tcp log socket n before c (read, room))
                (λ _ c' (bytes, grown, longer, holds).
                  read_until_bytes-Ended fuel (length c.buffer) patterns before first c.buffer bytes
                    c' holds (later ++ bytes, grown ∙ rw begins (append_assoc first later bytes))
                    grown refl (omega arith)))
        | inr (found, at) ↦
            rw (fits, unseen, at)
              (
                (read, room),
                (later, begins),
                rw (e, ← l)
                    (Matched-later 0 patterns old new found
                      (first_match-Matched m laws 0 patterns new found at)),
              )
      ]

  pub read_body-Ended :
      (fuel content_length : ℕ) (before first : List ℕ) (c : Connection K)
      → Holds log n before c
      → ((later : List ℕ) × (c.buffer ≡ first ++ later))
      → n < length c.buffer + fuel
      → Ended (Whole log n before first content_length) (read_body tcp n fuel content_length c)
  unfolding read_body
  read_body-Ended zero content_length before first c (read, room) begins more = omega arith
  read_body-Ended (suc fuel) content_length before first c (read, room) (later, begins) more =
      elim (Bool-cases (ltb 0 (content_length - length c.buffer))) [
        | inl lacks ↦ rw lacks (
            bind-Ended (λ _ c'. Grown log n before c.buffer c')
              (Whole log n before first content_length) (read_append tcp n c)
              (λ _. read_body tcp n fuel content_length)
              (read_append-Ended tcp log socket n before c (read, room))
              (λ _ c' (bytes, grown, longer, holds).
                read_body-Ended fuel content_length before first c' holds
                  (later ++ bytes, grown ∙ rw begins (append_assoc first later bytes))
                  (omega arith)))
        | inr whole ↦ rw whole ((read, room), (later, begins), ground arith)
      ]
