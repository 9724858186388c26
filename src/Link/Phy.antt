-- ===== src/Link/Phy.antt =====
-- protocol/src/phy.rs: the trait `PhysicalLayer` as a record over the implementor's state and error.
use sensor_sensei.Common.{ℕ, ◌+◌, ◌≤◌, ◌≡◌, ◌≢◌, List, [], ◌∷◌, ◌++◌, length}
use sensor_sensei.Common.Outcome.{M, ok}

pub record PhysicalLayer (P E : Type 0) : Type 0 where
  pub read : M P E (Unit {0})
  pub rx_buffer : P → List ℕ
  pub write : List ℕ → M P E (Unit {0})
  pub flush : M P E (Unit {0})

-- What the link layer relies on when it sends: in the state `p` the frames `sent` are on the air and
-- the bytes `buf` wait; `write` appends while they fit into `capacity` bytes, `flush` sends what
-- waits as one frame, and neither touches the received packet.
pub record IsRadio {P E : Type 0} (phy : PhysicalLayer P E) (capacity : ℕ)
    (View : P → List (List ℕ) → List ℕ → Type 0) : Type 0 where
  pub write_lem :
      (p : P) (sent : List (List ℕ)) (buf bytes : List ℕ)
      → View p sent buf
      → length buf + length bytes ≤ capacity
      → (p' : P) × (phy.write bytes p ≡ ok tt p')
        × View p' sent (buf ++ bytes)
        × (phy.rx_buffer p' ≡ phy.rx_buffer p)
  pub flush_lem :
      (p : P) (sent : List (List ℕ)) (buf : List ℕ)
      → View p sent buf
      → buf ≢ []
      → (p' : P) × (phy.flush p ≡ ok tt p')
        × View p' (sent ++ (buf ∷ [])) []
        × (phy.rx_buffer p' ≡ phy.rx_buffer p)
  pub flush_empty : (p : P) (sent : List (List ℕ)) → View p sent [] → phy.flush p ≡ ok tt p
