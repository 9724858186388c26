-- ===== src/Board/Lora/Air.antt =====
-- What `LoraController` of both boards' lora.rs does with a chip that works, and when it fails.
use sensor_sensei.Common.{
  ℕ, ◌+◌, ◌≤◌, leb, List, [], ◌∷◌, ◌++◌, some, length, length-append, take-length_append, ◌≡◌, ◌≢◌,
  refl, sym, ap, ◌∙◌, arith, true,
}
use sensor_sensei.Common.Outcome.{Outcome, ok, err, panic, pending, bind}
use sensor_sensei.Link.Phy.{IsRadio}
use sensor_sensei.Link.Delivery.{Receives, done, next}
use sensor_sensei.Board.Lora.{
  LoRa, LoraError, LoraController, lora_rx_buf_size, on_lora, clear_tx, send, recv, read, rx_buffer,
  write, unless_empty, flush, lora_controller,
}

-- A chip that transmits what it was prepared with: `Sent k frames` are the frames on the air, and
-- `Ready k frames bytes` that `bytes` come next.
pub record IsTransmitting {K R : Type 0} (chip : LoRa K R) (Sent : K → List (List ℕ) → Type 0)
    (Ready : K → List (List ℕ) → List ℕ → Type 0) : Type 0 where
  pub prepare_lem :
      (k : K) (frames : List (List ℕ)) (bytes : List ℕ)
      → Sent k frames
      → length bytes ≤ lora_rx_buf_size
      → (k' : K) × (chip.prepare_for_tx bytes k ≡ ok tt k') × Ready k' frames bytes
  pub tx_lem :
      (k : K) (frames : List (List ℕ)) (bytes : List ℕ)
      → Ready k frames bytes
      → (k' : K) × (chip.tx k ≡ ok tt k') × Sent k' (frames ++ (bytes ∷ []))

module _ {K R : Type 0} (chip : LoRa K R) where
  module _ (Sent : K → List (List ℕ) → Type 0) (Ready : K → List (List ℕ) → List ℕ → Type 0)
      (laws : IsTransmitting chip Sent Ready) where
    -- The bytes of `tx_buffer` wait, within its capacity.
    abbrev pub LoraView : LoraController K → List (List ℕ) → List ℕ → Type 0
    LoraView c sent buf = Sent c.lora sent × (c.tx_buffer ≡ buf) × (length buf ≤ lora_rx_buf_size)

    sends :
        (c : LoraController K) (sent : List (List ℕ)) (buf : List ℕ)
        → LoraView c sent buf
        → (k : K) × (send chip c ≡ ok tt (record c { lora = k; tx_buffer = [] }))
          × Sent k (sent ++ (buf ∷ []))
    unfolding send
    sends c sent buf (air, waits, fits) =
        let (k1, e1, ready) = laws.prepare_lem c.lora sent buf air fits in
        let (k2, e2, air2) = laws.tx_lem k1 sent buf ready in (k2, rw (waits, e1, e2) refl, air2)

    flushes :
        (c : LoraController K) (bytes : List ℕ)
        → bytes ≢ []
        → unless_empty bytes (send chip) c ≡ send chip c
    flushes c [] some_bytes = absurd (some_bytes refl)
    flushes c (b ∷ bs) some_bytes = refl

    -- With a chip that transmits what it was prepared with, the controller of the boards is the
    -- radio that the link layers rely on, with a capacity of 128 bytes.
    pub lora_controller-IsRadio : IsRadio (lora_controller chip) lora_rx_buf_size LoraView
    unfolding lora_controller write flush rx_buffer
    lora_controller-IsRadio = record {
      write_lem = λ c sent buf bytes (air, waits, fits) more.
          let room : leb (length buf + length bytes) lora_rx_buf_size ≡ true = ground arith in
          (
            record c { tx_buffer = buf ++ bytes },
            rw (waits, room) refl,
            (air, refl, omega (arith, length-append buf bytes)),
            refl,
          );
      flush_lem = λ c sent buf (air, waits, fits) some_bytes.
          let (k, e, air') = sends c sent buf (air, waits, fits) in
          (
            record c { lora = k; tx_buffer = [] },
            flushes c c.tx_buffer (λ empty. some_bytes (sym waits ∙ empty)) ∙ e,
            (air', refl, omega arith),
            refl,
          );
      flush_empty =
          λ c sent (air, waits, fits). ap (λ bytes. unless_empty bytes (send chip) c) waits;
    }

  -- What waits after `flush`: nothing, or after a failure all that waited before.
  abbrev pub Waiting :
      LoraController K → Outcome (LoraController K) (LoraError R) (Unit {0}) → Type 0
  Waiting c (ok _ c') = c'.tx_buffer ≡ []
  Waiting c (err e c') = c'.tx_buffer ≡ c.tx_buffer
  Waiting c panic = Unit
  Waiting c pending = Unit

  transmitted-Waiting :
      (c : LoraController K) (k : K) (o : Outcome K R (Unit {0}))
      → Waiting c (bind (on_lora (record c { lora = k }) o) (λ _. clear_tx))
  transmitted-Waiting c k (ok _ k') = refl
  transmitted-Waiting c k (err e k') = refl
  transmitted-Waiting c k panic = tt
  transmitted-Waiting c k pending = tt

  prepared-Waiting :
      (c : LoraController K) (o : Outcome K R (Unit {0}))
      → Waiting c (bind (on_lora c o) (λ _ c'. bind (on_lora c' (chip.tx c'.lora)) (λ _. clear_tx)))
  prepared-Waiting c (ok _ k) = transmitted-Waiting c k (chip.tx k)
  prepared-Waiting c (err e k) = refl
  prepared-Waiting c panic = tt
  prepared-Waiting c pending = tt

  -- After a flush nothing waits, and after one that failed all that waited before waits still.
  pub flush-Waiting : (c : LoraController K) → Waiting c (flush chip c)
  unfolding flush send
  flush-Waiting c = go c.tx_buffer refl
    where
      go : (bytes : List ℕ) → c.tx_buffer ≡ bytes → Waiting c (unless_empty bytes (send chip) c)
      go [] e = e
      go (b ∷ bs) e = prepared-Waiting c (chip.prepare_for_tx c.tx_buffer c.lora)

  -- A chip to which frames come: it puts the next one at the front of the memory.
  pub record IsReceiving (Coming : K → List (List ℕ) → Type 0) : Type 0 where
    pub listen_lem :
        (k : K) (frames : List (List ℕ))
        → Coming k frames
        → (k' : K) × (chip.prepare_for_rx k ≡ ok tt k') × Coming k' frames
    pub rx_lem :
        (k : K) (bytes memory : List ℕ) (frames : List (List ℕ))
        → Coming k (bytes ∷ frames)
        → (k' : K) × (rest : List ℕ) × (chip.rx_or_timer (k, memory)
            ≡ ok (some (length bytes)) (k', bytes ++ rest))
          × Coming k' frames

  module _ (Coming : K → List (List ℕ) → Type 0) (laws : IsReceiving Coming) where
    -- With a chip that puts the frames that come into the memory, the controller shows them one
    -- after the other, each whole.
    pub lora_controller-Receives :
        (frames : List (List ℕ)) (c : LoraController K)
        → Coming c.lora frames
        → (c' : LoraController K) × Receives (lora_controller chip) c frames c'
    unfolding lora_controller read recv rx_buffer
    lora_controller-Receives [] c coming = (c, done)
    lora_controller-Receives (bytes ∷ frames) c coming =
        let (k1, e1, coming1) = laws.listen_lem c.lora (bytes ∷ frames) coming in
        let (k2, rest, e2, coming2) = laws.rx_lem k1 bytes c.rx_memory frames coming1 in
        let c2 : LoraController K = record {
          lora = k2;
          rx_memory = bytes ++ rest;
          rx_len = length bytes;
          tx_buffer = c.tx_buffer;
        } in
        let (c', later) = lora_controller-Receives frames c2 coming2 in
        (c', next (rw (e1, e2) refl) (take-length_append bytes rest) later)
