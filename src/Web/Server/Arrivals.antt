-- ===== src/Web/Server/Arrivals.antt =====
-- The searches of net/http/server.rs in what one read delivers.
use sensor_sensei.Common.{
  ℕ, suc, ◌+◌, ◌-◌, ◌≤◌, ◌==◌, leb, List, [], ◌∷◌, ◌++◌, some, length, drop, length-append,
  take-length_append, drop-length_append, ◌≡◌, inl, inr, refl, ap, append_assoc, take, drop-drop,
  ◌∙◌, arith, Option-cases, true, false,
}
use sensor_sensei.Common.Outcome.{ok}
use sensor_sensei.Util.Memchr.{Memchr, IsMemchr, StandsAt, first_index}
use sensor_sensei.Web.Http.{TcpSocket}
use sensor_sensei.Web.Server.{
  Connection, ReadUntilBytesMatch, read_append, read_until_byte, first_match, read_until_bytes,
}
use sensor_sensei.Util.Search.{first_index-empty}

-- The pattern stands at the end of `before`, and nowhere sooner.
abbrev pub FirstAt : List ℕ → List ℕ → List ℕ → Type 0
FirstAt pattern before after =
    (j : ℕ) → StandsAt pattern (before ++ (pattern ++ after)) j → length before ≤ j

-- What stands first behind a longer part stands first behind the end of it.
pub FirstAt-end :
    (pattern front mid after : List ℕ)
    → FirstAt pattern (front ++ mid) after
    → FirstAt pattern mid after
FirstAt-end pattern front mid after first j (here, inside) =
    let text : List ℕ = mid ++ (pattern ++ after) in
    let whole : (front ++ mid) ++ (pattern ++ after) ≡ front ++ text =
      append_assoc front mid (pattern ++ after) in
    let dropped : drop (length front + j) (front ++ text) ≡ drop j text =
      drop-drop (length front) j (front ++ text)
      ∙ ap (λ (xs : List ℕ). drop j xs) (drop-length_append front text) in
    let at = first (length front + j) (
      ap (λ (xs : List ℕ). take (length pattern) (drop (length front + j) xs)) whole
          ∙ ap (λ (xs : List ℕ). take (length pattern) xs) dropped
          ∙ here,
      omega (arith, inside, length-append front text, ap (λ (xs : List ℕ). length xs) whole),
    ) in
    omega (arith, at, length-append front mid)

stands_after :
    (pattern before after : List ℕ)
    → StandsAt pattern (before ++ (pattern ++ after)) (length before)
stands_after pattern before after = (
  rw (drop-length_append before (pattern ++ after)) (take-length_append pattern after),
  omega (arith, length-append before (pattern ++ after), length-append pattern after),
)

module _ (m : Memchr) (laws : IsMemchr m) where
  pub finds :
      (pattern before after : List ℕ)
      → FirstAt pattern before after
      → m.memmem_find pattern (before ++ (pattern ++ after)) ≡ some (length before)
  finds pattern before after first =
      let all : List ℕ = before ++ (pattern ++ after) in
      elim (Option-cases (m.memmem_find pattern all)) [
        | inl nothing ↦ absurd (
            laws.memmem_none pattern all (length before) nothing
              (stands_after pattern before after))
        | inr (i, found) ↦
            let (at, least) = laws.memmem_some pattern all i found in
            let same : i ≡ length before =
              omega
                (arith, first i at, least (length before) (stands_after pattern before after)) in
            found ∙ ap some same
      ]

  module _ {K E : Type 0} (tcp : TcpSocket K E) (n : ℕ) where
    pub byte_seen :
        (fuel byte offset i : ℕ) (c : Connection K)
        → offset ≤ length c.buffer
        → first_index (λ b. b == byte) (drop offset c.buffer) ≡ some i
        → read_until_byte m tcp n (suc fuel) byte offset c ≡ ok (offset + i) c
    unfolding read_until_byte
    byte_seen fuel byte offset i c le e =
        let fits : leb offset (length c.buffer) ≡ true = ground arith in
        rw (fits, laws.memchr_lem byte (drop offset c.buffer), e) refl

    pub bytes_seen :
        (patterns : List (List ℕ)) (found : ReadUntilBytesMatch) (c : Connection K)
        → first_match m 0 patterns c.buffer ≡ some found
        → read_until_bytes m tcp n (suc n) patterns 0 c ≡ ok found c
    unfolding read_until_bytes
    bytes_seen patterns found c e =
        let fits : leb 0 (length c.buffer) ≡ true = ground arith in
        let same : record found { start = 0 + found.start } ≡ found =
          ap (λ j. record found { start = j })
            (let e : 0 + found.start ≡ found.start = omega arith in e) in
        rw (fits, e) (ap (λ f. ok f c) same)

  -- The first read brings the byte.
  pub byte_arrives :
      {K E : Type 0} (tcp : TcpSocket K E) (n byte i b : ℕ) (bs : List ℕ) (k k' : K)
      → tcp.read (suc n) k ≡ ok (b ∷ bs) k'
      → first_index (λ b. b == byte) (b ∷ bs) ≡ some i
      → read_until_byte m tcp (suc n) (suc (suc n)) byte 0 (record { sock = k; buffer = [] })
        ≡ ok i (record { sock = k'; buffer = b ∷ bs })
  unfolding read_until_byte read_append
  byte_arrives tcp n byte i b bs k k' e at =
      let free : (0 == suc n) ≡ false = ground arith in
      let all : suc n - 0 ≡ suc n = omega arith in
      rw (laws.memchr_lem byte [], first_index-empty byte, free, all, e)
        (byte_seen tcp (suc n) n byte 0 i (record { sock = k'; buffer = b ∷ bs }) (omega arith) at
          ∙ ap (λ j. ok j (record { sock = k'; buffer = b ∷ bs })) (omega arith))
