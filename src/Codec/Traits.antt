-- ===== src/Codec/Traits.antt =====
-- protocol/src/codec.rs: `AsyncEncoder`, `AsyncDecoder` and `read_discard`. A trait is a record of
-- its required methods over the implementor's state `S` and error `E`.
use sensor_sensei.Common.{ℕ, zero, suc, ◌-◌, ◌^◌, min, ◌==◌, List, if◌then◌else◌}
use sensor_sensei.Common.Outcome.{Outcome, M, ok, pending, pure, ◌>>◌}

pub record Encoder (S E : Type 0) : Type 0 where
  pub emit_bytes : List ℕ → M S E (Unit {0})

-- `read_bytes n` fills a buffer of `n` bytes and returns it.
pub record Decoder (S E : Type 0) : Type 0 where
  pub read_bytes : ℕ → M S E (List ℕ)
  pub current_offset : S → ℕ
  pub decoding_error : S → E

-- `usize` of the boards (ESP32, 32 bits).
abbrev pub usize_mod : ℕ
usize_mod = 2 ^ 32

module _ {S E : Type 0} (d : Decoder S E) where
  -- Reads in chunks of at most 16 bytes until `n` bytes are gone. Each round takes one byte at
  -- least, so `n` rounds are enough.
  unfoldable pub read_discard_loop : ℕ → ℕ → M S E (Unit {0})
  read_discard_loop zero n = if n == 0 then pure tt else (λ _. pending)
  read_discard_loop (suc fuel) n =
      let to_discard = min n 16 in
      let rest = (d.read_bytes to_discard) >> read_discard_loop fuel (n - to_discard) in
      if n == 0 then pure tt else rest

  unfoldable pub read_discard : ℕ → M S E (Unit {0})
  unfolding read_discard_loop
  read_discard n = read_discard_loop n n

  abbrev pub offset : M S E ℕ
  offset s = ok (d.current_offset s) s

  abbrev pub fail_decoding : {A : Type 0} → M S E A
  fail_decoding s = Outcome.err (d.decoding_error s) s
