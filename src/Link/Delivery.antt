-- ===== src/Link/Delivery.antt =====
-- `LinkPacket::read` over a run of the physical layer: frames that fail the check are skipped.
use sensor_sensei.Common.{
  ℕ, zero, suc, ◌+◌, ◌<◌, List, [], ◌∷◌, Option, none, some, length, All, bit_and, ◌≡◌, refl, drop,
  ◌≤◌, ap, ◌∙◌, ◌-◌, ◌%◌, ◌^◌, arith,
}
use sensor_sensei.Codec.Wire.{shl}
use sensor_sensei.Common.Outcome.{Outcome, ok, err, bind}
use sensor_sensei.Link.Phy.{PhysicalLayer}
use sensor_sensei.Link.Packet.{
  LinkPhase, sign_payload, from_be_five, check, read_within, read_packet, get_payload, found_or,
}
use sensor_sensei.Link.Header.{frame, check-frame, payload_after, five_or_more}

module _ {P E : Type 0} (phy : PhysicalLayer P E) where
  -- Receiving the frames one after the other leads from the first state to the last.
  pub data Receives : P → List (List ℕ) → P → Type 0 where
    done : {p : P} → Receives p [] p
    next :
        {p q r : P} {bytes : List ℕ} {frames : List (List ℕ)}
        → phy.read p ≡ ok tt q
        → phy.rx_buffer q ≡ bytes
        → Receives q frames r
        → Receives p (bytes ∷ frames) r

module _ (hmac : List ℕ → List ℕ → List ℕ) {P E : Type 0} (phy : PhysicalLayer P E)
    (key : List ℕ) where
  -- Frames that the check refuses: too short, or with another signature.
  abbrev pub Refused : List ℕ → Type 0
  Refused bytes = check hmac key bytes ≡ none

  one_round :
      (p q : P) (bytes : List ℕ) (budget : ℕ)
      → phy.read p ≡ ok tt q
      → phy.rx_buffer q ≡ bytes
      → Refused bytes
      → read_within hmac phy key (suc budget) p ≡ read_within hmac phy key budget q
  unfolding read_within
  one_round p q bytes budget e b no_match = rw (e, b, no_match)

  found_round :
      (p q : P) (bytes : List ℕ) (budget : ℕ) (found : LinkPhase × ℕ)
      → phy.read p ≡ ok tt q
      → phy.rx_buffer q ≡ bytes
      → check hmac key bytes ≡ some found
      → read_within hmac phy key (suc budget) p ≡ ok (some found) q
  unfolding read_within
  found_round p q bytes budget found e b passes = rw (e, b, passes)

  payload_of :
      (p : P) (phase : LinkPhase) (id : ℕ) (payload : List ℕ)
      → phy.rx_buffer p ≡ frame hmac key phase id payload
      → get_payload phy p ≡ ok payload p
  unfolding get_payload
  payload_of p phase id payload b = rw (b, five_or_more _ payload, payload_after _ payload)

  read_within-skip :
      {p q : P} {junk : List (List ℕ)} (budget : ℕ)
      → Receives phy p junk q
      → All Refused junk
      → read_within hmac phy key (length junk + budget) p ≡ read_within hmac phy key budget q
  read_within-skip budget done refused =
      ap (λ (n : ℕ). read_within hmac phy key n _) (let e : 0 + budget ≡ budget = omega arith in e)
  read_within-skip budget (next {p} {q} {r} {bytes} {frames} e b more) (no_match, refused) =
      let step : length (bytes ∷ frames) + budget ≡ suc (length frames + budget) = omega arith in
      rw step (
        one_round p q bytes (length frames + budget) e b no_match
        ∙ read_within-skip budget more refused)

  -- Within a budget that the frames before it do not use up, the first frame that was written with
  -- the same key is found, and what `get_payload` then shows is its payload.
  pub read_within-delivers :
      {p q r : P} (junk : List (List ℕ)) (phase : LinkPhase) (id : ℕ) (payload : List ℕ)
      (budget : ℕ)
      → Receives phy p junk q
      → All Refused junk
      → phy.read q ≡ ok tt r
      → phy.rx_buffer r ≡ frame hmac key phase id payload
      → sign_payload hmac payload key < 2 ^ 64
      → 0 < length payload
      → length junk < budget
      → (read_within hmac phy key budget p ≡ ok (some (phase, id % 16)) r)
        × (get_payload phy r ≡ ok payload r)
  read_within-delivers junk phase id payload budget skipped refused e b lt some_payload enough =
      let left : ℕ = budget - length junk - 1 in
      let split : budget ≡ length junk + suc left = omega arith in
      let passes = check-frame hmac key phase id payload lt some_payload in
      (
        rw (split, read_within-skip (suc left) skipped refused)
            (found_round _ _ _ left _ e b passes),
        payload_of _ phase id payload b,
      )

  -- The first frame that was written with the same key is returned, whatever was received before
  -- it, and what `get_payload` then shows is its payload.
  pub read_packet-delivers :
      {p q r : P} (junk : List (List ℕ)) (phase : LinkPhase) (id : ℕ) (payload : List ℕ) (fuel : ℕ)
      → Receives phy p junk q
      → All Refused junk
      → phy.read q ≡ ok tt r
      → phy.rx_buffer r ≡ frame hmac key phase id payload
      → sign_payload hmac payload key < 2 ^ 64
      → 0 < length payload
      → length junk < fuel
      → (read_packet hmac phy key fuel p ≡ ok (phase, id % 16) r)
        × (get_payload phy r ≡ ok payload r)
  unfolding read_packet
  read_packet-delivers junk phase id payload fuel skipped refused e b lt some_payload enough =
      let (found, shown) =
        read_within-delivers junk phase id payload fuel skipped refused e b lt some_payload
          enough in
      (rw found refl, shown)

  again-some :
      (o : Option (LinkPhase × ℕ)) (budget : ℕ) (p q : P) (found : LinkPhase × ℕ)
      → check hmac key (phy.rx_buffer p) ≡ o
      → found_or o (read_within hmac phy key budget) p ≡ ok (some found) q
      → (read_within hmac phy key budget p ≡ ok (some found) q
          → check hmac key (phy.rx_buffer q) ≡ some found)
      → check hmac key (phy.rx_buffer q) ≡ some found
  again-some none budget p q found c e ih = ih e
  again-some (some x) budget p q found c e ih = cc

  received-some :
      (o : Outcome P E (Unit {0})) (budget : ℕ) (q : P) (found : LinkPhase × ℕ)
      → ((p : P)
          → read_within hmac phy key budget p ≡ ok (some found) q
          → check hmac key (phy.rx_buffer q) ≡ some found)
      → bind o
          (λ _ p. found_or (check hmac key (phy.rx_buffer p)) (read_within hmac phy key budget) p)
        ≡ ok (some found) q
      → check hmac key (phy.rx_buffer q) ≡ some found
  received-some (ok _ p) budget q found ih e = again-some _ budget p q found refl e (ih p)
  received-some (err x p) budget q found ih e = cc
  received-some Outcome.panic budget q found ih e = cc
  received-some Outcome.pending budget q found ih e = cc

  -- Whatever `read` returns passed the check: it has a payload, which is signed with the key.
  pub read_within-some :
      (budget : ℕ) (p q : P) (found : LinkPhase × ℕ)
      → read_within hmac phy key budget p ≡ ok (some found) q
      → check hmac key (phy.rx_buffer q) ≡ some found
  unfolding read_within
  read_within-some zero p q found e = cc
  read_within-some (suc budget) p q found e =
      received-some (phy.read p) budget q found (λ r. read_within-some budget r q found) e

  -- The frame has a payload, and its 34 bits of signature are those of the payload and the key.
  abbrev pub Signed : List ℕ → Type 0
  Signed bytes =
      (6 ≤ length bytes)
      × (shl 64 (from_be_five bytes) 6
          ≡ bit_and (sign_payload hmac (drop 5 bytes) key) 0xffffffffc0000000)
