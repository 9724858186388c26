-- ===== src/Web/Client/Response.antt =====
-- The response of net/http/client.rs: the status line, and the rest that is dropped.
use sensor_sensei.Common.{
  ℕ, zero, suc, ◌+◌, ◌-◌, ◌≤◌, ◌<◌, ◌==◌, ◌||◌, Bool, List, [], ◌∷◌, ◌++◌, Option, none, some,
  length, take, length-append, append_assoc, append-nil, take-plus, take-length_append,
  drop-length_append, take-front, ◌≡◌, ◌≢◌, inl, inr, refl, sym, ap, ◌∙◌, arith, Bool-cases,
  Option-cases,
}
use sensor_sensei.Common.Outcome.{Ended, bind-Ended, weaken-Ended}
use sensor_sensei.Util.Memchr.{Memchr, IsMemchr, first_index}
use sensor_sensei.Util.Search.{first_index-front, first_index-<}
use sensor_sensei.Web.Client.{
  io, Network, HttpClient, read, line_capacity, line_loop, read_line, until_empty, drain,
}
use sensor_sensei.Web.Client.Sent.{IsNetwork, on_stack-Ended}

-- The end of a line.
abbrev pub is_eol : ℕ → Bool
is_eol b = b == b'\r' || b == b'\n'

take_onto :
    (n : ℕ) (xs ys : List ℕ) → length xs ≤ n → take n (xs ++ ys) ≡ xs ++ take (n - length xs) ys
take_onto n xs ys le =
    let k : ℕ = n - length xs in
    let split : n ≡ length xs + k = omega arith in
    ap (λ (j : ℕ). take j (xs ++ ys)) split
    ∙ take-plus (length xs) k (xs ++ ys)
    ∙ rw (take-length_append xs ys, drop-length_append xs ys) refl

take-empty : (n : ℕ) → take {A = ℕ} n [] ≡ []
take-empty zero = refl
take-empty (suc n) = refl

length-some : (xs : List ℕ) → xs ≢ [] → 0 < length xs
length-some [] some_bytes = absurd (some_bytes refl)
length-some (x ∷ xs) some_bytes = omega arith

-- What comes has an end of line, so it is not yet all there.
unended :
    (filled rest front : List ℕ) (i : ℕ)
    → front ≡ filled ++ rest
    → rest ≡ []
    → first_index is_eol filled ≡ none
    → first_index is_eol front ≡ some i
    → ⊥
unended filled rest front i e none_left no_end found =
    let all : front ≡ filled =
      e ∙ ap (λ (xs : List ℕ). filled ++ xs) none_left ∙ append-nil filled in
    let no_index : ◌≡◌ {A = Option ℕ} none (some i) =
      sym no_end ∙ ap (λ (xs : List ℕ). first_index is_eol xs) (sym all) ∙ found in
    cc

module _ (m : Memchr) (searches : IsMemchr m) (is_utf8 : List ℕ → Bool)
    (parse_u16 : List ℕ → Option ℕ) {K C E : Type 0} (network : Network K C E)
    (log arrives : K → List ℕ) (bound : ℕ) (laws : IsNetwork network log arrives bound) where
  -- A part of `coming` has been read, and nothing was written.
  abbrev pub Read : List ℕ → HttpClient K → List ℕ → HttpClient K → Type 0
  Read coming c bytes c' = (log c'.stack ≡ log c.stack) × (coming ≡ bytes ++ arrives c'.stack)

  read-Ended :
      (size : ℕ) (c : HttpClient K)
      → 0 < size
      → Ended
          (λ bytes c'.
            Read (arrives c.stack) c bytes c'
            × (length bytes ≤ size)
            × (bytes ≡ [] → arrives c.stack ≡ []))
          (read network size c)
  unfolding read
  read-Ended size c some_size =
      weaken-Ended _
        (λ bytes c'.
          Read (arrives c.stack) c bytes c'
          × (length bytes ≤ size)
          × (bytes ≡ [] → arrives c.stack ≡ []))
        _
        (on_stack-Ended network log arrives bound laws (λ x. io x) c
          (λ bytes k'.
            (log k' ≡ log c.stack)
            × (arrives c.stack ≡ bytes ++ arrives k')
            × (length bytes ≤ size)
            × (bytes ≡ [] → arrives c.stack ≡ []))
          (network.socket.read size c.stack) (laws.read_lem size c.stack some_size))
        (λ bytes c' ((kept, split, fits, end), _). ((kept, split), fits, end))

  -- The line of `coming` that ends at `i`, with which the rest of the response is not longer.
  abbrev pub IsLine : List ℕ → ℕ → HttpClient K → List ℕ → HttpClient K → Type 0
  IsLine coming i c line c' =
      (line ≡ take i coming)
      × (log c'.stack ≡ log c.stack)
      × (length (arrives c'.stack) ≤ length coming)

  line_loop-Ended :
      (fuel : ℕ) (filled coming : List ℕ) (i : ℕ) (c : HttpClient K)
      → coming ≡ filled ++ arrives c.stack
      → length filled ≤ line_capacity
      → first_index is_eol (take line_capacity coming) ≡ some i
      → line_capacity < length filled + fuel
      → Ended (IsLine coming i c) (line_loop network m is_utf8 parse_u16 fuel filled c)
  unfolding line_loop
  line_loop-Ended zero filled coming i c split fits found enough = omega arith
  line_loop-Ended (suc fuel) filled coming i c split fits found enough =
      let here : take line_capacity coming
          ≡ filled ++ take (line_capacity - length filled) (arrives c.stack) =
        ap (λ (xs : List ℕ). take line_capacity xs) split
        ∙ take_onto line_capacity filled (arrives c.stack) fits in
      elim (Option-cases (first_index is_eol filled)) [
        | inl no_end ↦ elim (Bool-cases (length filled == line_capacity)) [
          | inl full ↦
              let none_left : take (line_capacity - length filled) (arrives c.stack) ≡ [] =
                let zero_left : line_capacity - length filled ≡ 0 = ground arith in
                ap (λ (k : ℕ). take k (arrives c.stack)) zero_left in
              absurd (unended filled _ (take line_capacity coming) i here none_left no_end found)
          | inr free ↦
              rw (searches.memchr2_lem b'\r' b'\n' filled, no_end, free)
                (bind-Ended
                  (λ bytes c'.
                    Read (arrives c.stack) c bytes c'
                    × (length bytes ≤ line_capacity - length filled)
                    × (bytes ≡ [] → arrives c.stack ≡ []))
                  (IsLine coming i c) (read network (line_capacity - length filled) c)
                  (λ bytes. line_loop network m is_utf8 parse_u16 fuel (filled ++ bytes))
                  (read-Ended (line_capacity - length filled) c (ground arith))
                  (λ bytes c' ((kept, came), short, closed).
                    weaken-Ended (IsLine coming i c') (IsLine coming i c) _
                      (line_loop-Ended fuel (filled ++ bytes) coming i c'
                        (split
                          ∙ ap (λ (xs : List ℕ). filled ++ xs) came
                          ∙ sym (append_assoc filled bytes (arrives c'.stack)))
                        (omega (arith, length-append filled bytes)) found
                        (omega (
                          arith,
                          length-append filled bytes,
                          length-some bytes (λ empty.
                              unended filled _ (take line_capacity coming) i here
                                (ap (λ (xs : List ℕ). take (line_capacity - length filled) xs)
                                    (closed empty)
                                  ∙ take-empty (line_capacity - length filled))
                                no_end found),
                        )))
                      (λ line c'' (e, kept', less). (e, kept' ∙ kept, less))))
        ]
        | inr (line_len, at) ↦
            let same : line_len ≡ i =
              let both : some line_len ≡ some i =
                sym (
                  first_index-front is_eol filled
                    (take (line_capacity - length filled) (arrives c.stack)) line_len at)
                ∙ ap (λ (xs : List ℕ). first_index is_eol xs) (sym here)
                ∙ found in
              cc in
            let inside = first_index-< is_eol filled line_len at in
            rw (searches.memchr2_lem b'\r' b'\n' filled, at, ← same)
              (
                sym (
                    ap (λ (xs : List ℕ). take line_len xs) split
                    ∙ take-front line_len filled (arrives c.stack) (omega arith)),
                refl,
                omega (
                  arith,
                  ap (λ (xs : List ℕ). length xs) split,
                  length-append filled (arrives c.stack),
                ),
              )
      ]

  pub read_line-Ended :
      (fuel i : ℕ) (c : HttpClient K)
      → first_index is_eol (take line_capacity (arrives c.stack)) ≡ some i
      → line_capacity < fuel
      → Ended (IsLine (arrives c.stack) i c) (read_line network m is_utf8 parse_u16 fuel c)
  unfolding read_line
  read_line-Ended fuel i c found enough =
      bind-Ended
        (λ bytes c'.
          Read (arrives c.stack) c bytes c'
          × (length bytes ≤ line_capacity)
          × (bytes ≡ [] → arrives c.stack ≡ []))
        (IsLine (arrives c.stack) i c) (read network line_capacity c)
        (line_loop network m is_utf8 parse_u16 fuel) (read-Ended line_capacity c (omega arith))
        (λ bytes c' ((kept, came), short, closed).
          weaken-Ended (IsLine (arrives c.stack) i c') (IsLine (arrives c.stack) i c) _
            (line_loop-Ended fuel bytes (arrives c.stack) i c' came short found (omega arith))
            (λ line c'' (e, kept', less). (e, kept' ∙ kept, less)))

  pub drain-Ended :
      (fuel : ℕ) (c : HttpClient K)
      → length (arrives c.stack) < fuel
      → Ended (λ _ c'. log c'.stack ≡ log c.stack) (drain network m is_utf8 parse_u16 fuel c)
  unfolding drain
  drain-Ended zero c enough = absurd (omega arith)
  drain-Ended (suc fuel) c enough =
      bind-Ended
        (λ bytes c'.
          Read (arrives c.stack) c bytes c'
          × (length bytes ≤ line_capacity)
          × (bytes ≡ [] → arrives c.stack ≡ []))
        (λ _ c'. log c'.stack ≡ log c.stack) (read network line_capacity c)
        (λ bytes.
          until_empty network m is_utf8 parse_u16 bytes (drain network m is_utf8 parse_u16 fuel))
        (read-Ended line_capacity c (omega arith)) (go (drain-Ended fuel))
    where
      go :
          ((c' : HttpClient K)
            → length (arrives c'.stack) < fuel
            → Ended
                (λ _ c''. log c''.stack ≡ log c'.stack)
                (drain network m is_utf8 parse_u16 fuel c'))
          → (bytes : List ℕ) (c' : HttpClient K)
          → Read (arrives c.stack) c bytes c'
            × (length bytes ≤ line_capacity)
            × (bytes ≡ [] → arrives c.stack ≡ [])
          → Ended
              (λ _ c''. log c''.stack ≡ log c.stack)
              (until_empty network m is_utf8 parse_u16 bytes
                (drain network m is_utf8 parse_u16 fuel)
                c')
      go ih [] c' ((kept, came), short, closed) = kept
      go ih (b ∷ bs) c' ((kept, came), short, closed) =
          weaken-Ended (λ _ c''. log c''.stack ≡ log c'.stack)
            (λ _ c''. log c''.stack ≡ log c.stack) _
            (ih c' (
              omega (
                arith,
                ap (λ (xs : List ℕ). length xs) came,
                length-append (b ∷ bs) (arrives c'.stack),
              )))
            (λ _ c'' kept'. kept' ∙ kept)
