-- ===== src/Examples/Codec.antt =====
-- The codec and the packets at concrete values.
use sensor_sensei.Common.{ℕ, ◌+◌, ◌-◌, ◌%◌, ◌^◌, List, [], ◌∷◌, ◌++◌, length, ◌≡◌, refl, arith}
use sensor_sensei.Common.Outcome.{ok, err}
use sensor_sensei.Codec.Traits.{usize_mod}
use sensor_sensei.Codec.Leb.Bounds.{groups, signed_groups}
use sensor_sensei.Codec.Wire.{decode_i64, to_le_bytes}
use sensor_sensei.Codec.Values.{decode_i64-Consumes}
use sensor_sensei.App.Packet.{
  Packet, handshake_end, temperature, unknown, wire_id, encode_packet, decode_packet,
  decode_handshake_end, decode_value,
}
use sensor_sensei.App.Format.{packet_bytes, sized}
use sensor_sensei.App.RoundTrip.{decode_packet-Consumes, decode_handshake_end-Consumes}
use sensor_sensei.App.Values.{known_bytes, decode_value-Consumes, decode_value_short}
use sensor_sensei.App.Emit.{encode_packet-Emits}
use sensor_sensei.Examples.Streams.{
  Memory, memory_decoder, MemoryHolds, memory_decoder-IsStream, memory_encoder, MemoryView,
  memory_encoder-IsSink,
}

abbrev minus_two : ℕ
minus_two = 2 ^ 64 - 2

abbrev memory : List ℕ → Memory
memory bytes = record { buf = bytes; at = 0 }

decode_i64-Consumes_example :
    (s' : Memory) × (decode_i64 memory_decoder (memory (signed_groups 9 minus_two ++ (7 ∷ [])))
      ≡ ok minus_two s')
    × MemoryHolds s' (7 ∷ [])
    × (memory_decoder.current_offset s'
        ≡ (memory_decoder.current_offset (memory (signed_groups 9 minus_two ++ (7 ∷ [])))
            + length (signed_groups 9 minus_two))
          % usize_mod)
decode_i64-Consumes_example =
    decode_i64-Consumes memory_decoder MemoryHolds memory_decoder-IsStream minus_two (omega arith)
      (memory (signed_groups 9 minus_two ++ (7 ∷ []))) (7 ∷ []) (refl, omega arith)

abbrev twenty : List ℕ
twenty =
    1 ∷ 2 ∷ 3 ∷ 4 ∷ 5 ∷ 6 ∷ 7 ∷ 8 ∷ 9 ∷ 10 ∷ 11 ∷ 12 ∷ 13 ∷ 14 ∷ 15 ∷ 16 ∷ 17 ∷ 18 ∷ 19 ∷ 20 ∷ []

abbrev reply : Packet
reply = handshake_end (record { major = 1; minor = 0; epoch = 1000 })

decode_packet-Consumes_example :
    (s' : Memory) × (decode_packet memory_decoder (memory (packet_bytes reply ++ (7 ∷ [])))
      ≡ ok reply s')
    × MemoryHolds s' (7 ∷ [])
    × (memory_decoder.current_offset s'
        ≡ (memory_decoder.current_offset (memory (packet_bytes reply ++ (7 ∷ [])))
            + length (packet_bytes reply))
          % usize_mod)
decode_packet-Consumes_example =
    decode_packet-Consumes memory_decoder MemoryHolds memory_decoder-IsStream reply
      (refl, omega arith) (memory (packet_bytes reply ++ (7 ∷ []))) (7 ∷ []) (refl, omega arith)

abbrev later_reply : List ℕ
later_reply = 1 ∷ 0 ∷ sized (groups 9 1000 ++ (8 ∷ 9 ∷ []))

decode_handshake_end-Consumes_example :
    (s' : Memory) × (decode_handshake_end memory_decoder (memory (later_reply ++ (7 ∷ [])))
      ≡ ok (record { major = 1; minor = 0; epoch = 1000 }) s')
    × MemoryHolds s' (7 ∷ [])
    × (memory_decoder.current_offset s'
        ≡ (memory_decoder.current_offset (memory (later_reply ++ (7 ∷ []))) + length later_reply)
          % usize_mod)
decode_handshake_end-Consumes_example =
    decode_handshake_end-Consumes memory_decoder MemoryHolds memory_decoder-IsStream
      (record { major = 1; minor = 0; epoch = 1000 }) (8 ∷ 9 ∷ []) refl (omega arith) (omega arith)
      (memory (later_reply ++ (7 ∷ []))) (7 ∷ []) (refl, omega arith)

abbrev future_reply : List ℕ
future_reply = 2 ∷ 5 ∷ sized (8 ∷ 9 ∷ [])

abbrev array : List ℕ
array = 8 ∷ 8 ∷ 8 ∷ []

abbrev unknown_value : List ℕ
unknown_value =
    groups 4 9
    ++ (groups 4 (length (known_bytes (unknown 9 3)) + length array)
        ++ (known_bytes (unknown 9 3) ++ array))

decode_value-Consumes_example :
    (s' : Memory) × (decode_value memory_decoder (memory (unknown_value ++ (7 ∷ [])))
      ≡ ok (unknown 9 3) s')
    × MemoryHolds s' (7 ∷ [])
    × (memory_decoder.current_offset s'
        ≡ (memory_decoder.current_offset (memory (unknown_value ++ (7 ∷ [])))
            + length unknown_value)
          % usize_mod)
decode_value-Consumes_example =
    decode_value-Consumes memory_decoder MemoryHolds memory_decoder-IsStream (unknown 9 3) array
      (omega arith, omega arith, refl) (omega arith) (memory (unknown_value ++ (7 ∷ []))) (7 ∷ [])
      (refl, omega arith)

abbrev short_value : List ℕ
short_value =
    groups 4 (wire_id (temperature 5)) ++ (groups 4 3 ++ (known_bytes (temperature 5) ++ (7 ∷ [])))

decode_value_short_example :
    (s' : Memory) × (decode_value memory_decoder (memory short_value)
      ≡ err (memory_decoder.decoding_error s') s')
decode_value_short_example =
    decode_value_short memory_decoder MemoryHolds memory_decoder-IsStream (temperature 5) 3
      (memory short_value) (7 ∷ []) (omega arith) (unfold to_le_bytes in omega arith)
      (refl, omega arith)

encode_packet-Emits_example :
    (s' : List ℕ) × (encode_packet memory_encoder reply (7 ∷ []) ≡ ok tt s')
    × MemoryView s' ((7 ∷ []) ++ packet_bytes reply)
encode_packet-Emits_example =
    encode_packet-Emits memory_encoder MemoryView memory_encoder-IsSink reply (refl, omega arith)
      (7 ∷ []) (7 ∷ []) refl
