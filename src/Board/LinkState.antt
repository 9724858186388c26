-- ===== src/Board/LinkState.antt =====
-- What the link layers of gateway-board/src/comm/link.rs and sensor-board/src/comm/link.rs share:
-- the buffers of the struct, `read` and `write`, and the trait `LinkLayer` of
-- protocol/src/link/v1.rs. `B` is the part of the struct that differs between the boards.
use sensor_sensei.Common.{
  ℕ, zero, suc, ◌+◌, ◌-◌, min, ltb, leb, if◌then◌else◌, List, [], ◌∷◌, ◌++◌, length, take, drop,
}
use sensor_sensei.Common.Outcome.{Outcome, M, ok, err, panic, pending, pure, ◌>>=◌, ◌>>◌}
use sensor_sensei.Link.Phy.{PhysicalLayer}
use sensor_sensei.Link.Packet.{get_payload}

-- `read n` fills up to `n` bytes and returns them; `write` returns the number of bytes taken.
pub record LinkLayer (L E : Type 0) : Type 0 where
  pub read : ℕ → M L E (List ℕ)
  pub write : List ℕ → M L E ℕ
  pub flush : M L E (Unit {0})
  pub reset : L → L

pub record LinkState (P B : Type 0) : Type 0 where
  pub board : B
  pub phy : P
  pub tx_buf : List ℕ
  pub payload_start : ℕ
  pub payload_end : ℕ

-- `heapless::Vec<u8, 64>`
abbrev pub tx_capacity : ℕ
tx_capacity = 64

module _ {P B E : Type 0} where
  -- A call on the field `phy`.
  abbrev pub resume : {A : Type 0} → LinkState P B → Outcome P E A → Outcome (LinkState P B) E A
  resume s (ok a p) = ok a (record s { phy = p })
  resume s (err e p) = err e (record s { phy = p })
  resume s panic = panic
  resume s pending = pending

  abbrev pub on_phy : {A : Type 0} → M P E A → M (LinkState P B) E A
  on_phy m s = resume s (m s.phy)

  abbrev pub set_tx : List ℕ → M (LinkState P B) E (Unit {0})
  set_tx bytes s = ok tt (record s { tx_buf = bytes })

  abbrev pub set_payload : List ℕ → M (LinkState P B) E (Unit {0})
  set_payload payload s = ok tt (record s { payload_start = 0; payload_end = length payload })

module _ {P B E : Type 0} (phy : PhysicalLayer P E)
    (read_payload : M (LinkState P B) E (Unit {0})) where
  -- `payload is empty/consumed, read a new one`
  unfoldable pub refill : M (LinkState P B) E (Unit {0})
  refill s =
      let fresh = (do read_payload; payload ← on_phy (get_payload phy); set_payload payload) in
      if leb s.payload_end s.payload_start then fresh s else ok tt s

  -- The copy out of the payload; a range past its end is a panic.
  unfoldable pub copy_out : ℕ → List ℕ → M (LinkState P B) E (List ℕ)
  copy_out n payload s =
      let bytes_to_copy = min n (s.payload_end - s.payload_start) in
      if ltb (length payload) (s.payload_start + bytes_to_copy)
      then panic
      else ok (take bytes_to_copy (drop s.payload_start payload))
          (record s { payload_start = s.payload_start + bytes_to_copy })

  unfoldable pub read_link : ℕ → M (LinkState P B) E (List ℕ)
  read_link n = do refill; payload ← on_phy (get_payload phy); copy_out n payload

module _ {P B E : Type 0} (flush : M (LinkState P B) E (Unit {0})) where
  -- One chunk: what does not fit behind the buffered bytes goes into a fresh buffer.
  unfoldable pub push_chunk : List ℕ → M (LinkState P B) E (Unit {0})
  push_chunk chunk s =
      let full = (do flush; set_tx chunk) in
      if ltb tx_capacity (length s.tx_buf + length chunk)
      then full s
      else ok tt (record s { tx_buf = s.tx_buf ++ chunk })

  unfoldable pub write_chunks : List (List ℕ) → M (LinkState P B) E ℕ
  write_chunks [] = pure 0
  write_chunks (chunk ∷ later) = do
    push_chunk chunk
    sent ← write_chunks later
    pure (length chunk + sent)

-- `buf.chunks(n)`, on fuel: each chunk takes a byte at least.
unfoldable pub chunks : ℕ → ℕ → List ℕ → List (List ℕ)
chunks zero n bytes = []
chunks (suc fuel) n [] = []
chunks (suc fuel) n (b ∷ bs) = take n (b ∷ bs) ∷ chunks fuel n (drop n (b ∷ bs))

unfoldable pub write_link :
    {P B E : Type 0} → M (LinkState P B) E (Unit {0}) → List ℕ → M (LinkState P B) E ℕ
write_link flush bytes = write_chunks flush (chunks (length bytes) tx_capacity bytes)
