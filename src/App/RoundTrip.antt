-- ===== src/App/RoundTrip.antt =====
-- The decodings of the packets of protocol/src/app/v1.rs on the documented bytes (App/Format).
use sensor_sensei.Common.{
  ℕ, ◌+◌, ◌-◌, ◌%◌, ◌^◌, ◌≤◌, ◌<◌, ◌≢◌, min, ◌==◌, leb, ◌≡◌, subst, arith, List, [], ◌∷◌, ◌++◌,
  length, length-append, append_assoc, append-nil, true, false,
}
use sensor_sensei.Common.Outcome.{M, ok, pure, ◌>>=◌}
use sensor_sensei.Codec.Traits.{Decoder, usize_mod}
use sensor_sensei.Codec.Leb.Bounds.{groups, length-groups}
use sensor_sensei.Codec.Stream.{IsStream, Consumes, Consumes-pure}
use sensor_sensei.Codec.Values.{
  decode_u8-Consumes, decode_u32-Consumes, decode_u64-Consumes, read_discard-Consumes,
}
use sensor_sensei.App.Packet.{
  HandshakeStart, HandshakeEnd, SensorData, Packet, handshake_start, handshake_end, ack,
  sensor_data, reset_connection, decode_handshake_start, decode_handshake_end, decode_epoch,
  decode_sensor_data, decode_body, decode_packet, checked_sub, wrapping_sub,
}
use sensor_sensei.App.Format.{sized, packet_bytes, IsValid}

-- What `wrapping_sub` makes of two offsets is the number of bytes read between them.
pub advance :
    (o o' n : ℕ) → o < usize_mod → n < usize_mod → o' ≡ (o + n) % usize_mod → wrapping_sub o' o ≡ n
advance o o' n lt small e = omega arith

pub leb_add : (a b : ℕ) → leb a (a + b) ≡ true
leb_add a b = ground arith

pub add_sub : (a b : ℕ) → a + b - a ≡ b
add_sub a b = omega arith

min_left : (a b : ℕ) → a ≤ b → min a b ≡ a
min_left a b h = omega arith

not_one : (a : ℕ) → a ≢ 1 → (a == 1) ≡ false
not_one a h = ground arith

module _ {S E : Type 0} (d : Decoder S E) (Holds : S → List ℕ → Type 0)
    (stream : IsStream d Holds) where
  pub decode_handshake_start-Consumes :
      (p : HandshakeStart) (tail : List ℕ)
      → length tail < 2 ^ 32
      → Consumes d Holds (decode_handshake_start d) p (p.major ∷ p.minor ∷ sized tail)
  unfolding decode_handshake_start
  decode_handshake_start-Consumes p tail lt s rest h =
      let size = groups 4 (length tail) in
      let (s1, e1, h1, o1) = decode_u8-Consumes d Holds stream p.major s _ h in
      let (s2, e2, h2, o2) = decode_u8-Consumes d Holds stream p.minor s1 _ h1 in
      let h2' = subst (λ t. Holds s2 t) (append_assoc size tail rest) h2 in
      let (s3, e3, h3, o3) = decode_u32-Consumes d Holds stream (length tail) lt s2 _ h2' in
      let (s4, e4, h4, o4) = read_discard-Consumes d Holds stream tail s3 rest h3 in
      (s4, rw (e1, e2, e3, e4), h4, omega (arith, length-append size tail))

  decode_epoch-Consumes :
      (major epoch more size : ℕ)
      → major ≡ 1
      → epoch < 2 ^ 64
      → size ≡ length (groups 9 epoch) + more
      → Consumes d Holds (decode_epoch d major size) (epoch, more) (groups 9 epoch)
  unfolding decode_epoch checked_sub
  decode_epoch-Consumes major epoch more size one lt e s rest h =
      let n = length (groups 9 epoch) in
      let (s1, e1, h1, o1) = decode_u64-Consumes d Holds stream epoch lt s rest h in
      let read = advance _ _ n (stream.offset_lt s _ h) (omega (arith, length-groups 9 epoch)) o1 in
      (s1, rw (one, e, e1, read, leb_add n more, add_sub n more), h1, o1)

  -- Bytes behind the epoch, which a later version may send, are skipped.
  pub decode_handshake_end-Consumes :
      (p : HandshakeEnd) (tail : List ℕ)
      → p.major ≡ 1
      → p.epoch < 2 ^ 64
      → length tail + 10 < 2 ^ 32
      → (s : S) (rest : List ℕ)
      → Holds s ((p.major ∷ p.minor ∷ sized (groups 9 p.epoch ++ tail)) ++ rest)
      → (s' : S) × (decode_handshake_end d s ≡ ok p s')
        × Holds s' rest
        × (d.current_offset s'
            ≡ (d.current_offset s + length (p.major ∷ p.minor ∷ sized (groups 9 p.epoch ++ tail)))
              % usize_mod)
  unfolding decode_handshake_end
  decode_handshake_end-Consumes p tail one lt fits s rest h =
      let field = groups 9 p.epoch in
      let whole = length-append field tail in
      let size = groups 4 (length (field ++ tail)) in
      let small : length (field ++ tail) < 2 ^ 32 = omega (arith, whole, length-groups 9 p.epoch) in
      let (s1, e1, h1, o1) = decode_u8-Consumes d Holds stream p.major s _ h in
      let (s2, e2, h2, o2) = decode_u8-Consumes d Holds stream p.minor s1 _ h1 in
      let h2' = subst (λ t. Holds s2 t) (append_assoc size (field ++ tail) rest) h2 in
      let (s3, e3, h3, o3) =
        decode_u32-Consumes d Holds stream (length (field ++ tail)) small s2 _ h2' in
      let h3' = subst (λ t. Holds s3 t) (append_assoc field tail rest) h3 in
      let (s4, e4, h4, o4) =
        decode_epoch-Consumes p.major p.epoch (length tail) _ one lt whole s3 _ h3' in
      let (s5, e5, h5, o5) = read_discard-Consumes d Holds stream tail s4 rest h4 in
      let all = min_left (length tail) (2 ^ 32 - 1) (omega arith) in
      (
        s5,
        rw (e1, e2, e3, e4, all, e5),
        h5,
        omega (arith, whole, length-append size (field ++ tail)),
      )

  -- Another major version: the whole array is skipped, and the epoch is 0.
  pub decode_handshake_end_future :
      (major minor : ℕ) (tail : List ℕ)
      → major ≢ 1
      → length tail < 2 ^ 32
      → (s : S) (rest : List ℕ) → Holds s ((major ∷ minor ∷ sized tail) ++ rest)
      → (s' : S) × (decode_handshake_end d s
          ≡ ok (record { major = major; minor = minor; epoch = 0 }) s')
        × Holds s' rest
        × (d.current_offset s'
            ≡ (d.current_offset s + length (major ∷ minor ∷ sized tail)) % usize_mod)
  unfolding decode_handshake_end decode_epoch
  decode_handshake_end_future major minor tail other lt s rest h =
      let size = groups 4 (length tail) in
      let (s1, e1, h1, o1) = decode_u8-Consumes d Holds stream major s _ h in
      let (s2, e2, h2, o2) = decode_u8-Consumes d Holds stream minor s1 _ h1 in
      let h2' = subst (λ t. Holds s2 t) (append_assoc size tail rest) h2 in
      let (s3, e3, h3, o3) = decode_u32-Consumes d Holds stream (length tail) lt s2 _ h2' in
      let (s4, e4, h4, o4) = read_discard-Consumes d Holds stream tail s3 rest h3 in
      let all = min_left (length tail) (2 ^ 32 - 1) (omega arith) in
      (
        s4,
        rw (e1, e2, e3, not_one major other, all, e4),
        h4,
        omega (arith, length-append size tail),
      )

  decode_sensor_data-Consumes :
      (p : SensorData) → Consumes d Holds (decode_sensor_data d) p (p.count ∷ [])
  unfolding decode_sensor_data
  decode_sensor_data-Consumes p s rest h =
      let (s1, e1, h1, o1) = decode_u8-Consumes d Holds stream p.count s rest h in
      (s1, rw e1, h1, o1)

  decode_packet_after :
      (id : ℕ) (p : Packet) (bytes : List ℕ)
      → Consumes d Holds (decode_body d id) p bytes
      → Consumes d Holds (decode_packet d) p (id ∷ bytes)
  unfolding decode_packet
  decode_packet_after id p bytes body s rest h =
      let (s1, e1, h1, o1) = decode_u8-Consumes d Holds stream id s (bytes ++ rest) h in
      let (s2, e2, h2, o2) = body s1 rest h1 in (s2, rw e1 e2, h2, omega arith)

  -- A body that is decoded by `m` and wrapped by `f`.
  wrapped :
      {A B : Type 0} (m : M S E A) (f : A → B) (a : A) (bytes : List ℕ)
      → Consumes d Holds m a bytes
      → Consumes d Holds (m >>= λ x. pure (f x)) (f a) bytes
  wrapped m f a bytes hm s rest h = let (s', e, h', o) = hm s rest h in (s', rw e, h', o)

  -- A packet is read back from its documented bytes, whatever follows them.
  pub decode_packet-Consumes :
      (p : Packet)
      → IsValid p
      → (s : S) (rest : List ℕ) → Holds s (packet_bytes p ++ rest)
      → (s' : S) × (decode_packet d s ≡ ok p s')
        × Holds s' rest
        × (d.current_offset s' ≡ (d.current_offset s + length (packet_bytes p)) % usize_mod)
  unfolding decode_body
  decode_packet-Consumes (handshake_start p) v =
      decode_packet_after 0 (handshake_start p) (p.major ∷ p.minor ∷ sized []) (
        wrapped _ handshake_start p (p.major ∷ p.minor ∷ sized [])
          (decode_handshake_start-Consumes p [] (omega arith)))
  decode_packet-Consumes (handshake_end p) v =
      decode_packet_after 1 (handshake_end p) (p.major ∷ p.minor ∷ sized (groups 9 p.epoch)) (
        wrapped _ handshake_end p (p.major ∷ p.minor ∷ sized (groups 9 p.epoch)) (
          subst (λ t. Consumes d Holds (decode_handshake_end d) p (p.major ∷ p.minor ∷ sized t))
            (append-nil (groups 9 p.epoch))
            (decode_handshake_end-Consumes p [] v.0 v.1 (omega arith))))
  decode_packet-Consumes ack v = decode_packet_after 2 ack [] (Consumes-pure d Holds stream ack)
  decode_packet-Consumes (sensor_data p) v =
      decode_packet_after 3 (sensor_data p) (p.count ∷ [])
        (wrapped _ sensor_data p (p.count ∷ []) (decode_sensor_data-Consumes p))
  decode_packet-Consumes reset_connection v =
      decode_packet_after 4 reset_connection [] (Consumes-pure d Holds stream reset_connection)
