-- ===== src/Board/Lora.antt =====
-- `LoraController` of gateway-board/src/lora.rs and sensor-board/src/lora.rs, the physical layer of
-- both boards, which is the same code over another chip. The crate lora-phy comes from outside.
use sensor_sensei.Common.{
  ℕ, ◌+◌, leb, if◌then◌else◌, List, [], ◌∷◌, ◌++◌, Option, none, some, length, take,
}
use sensor_sensei.Common.Outcome.{Outcome, ok, err, panic, pending, M, ◌>>◌, throw}
use sensor_sensei.Link.Phy.{PhysicalLayer}
pub mod Air

abbrev pub lora_rx_buf_size : ℕ
lora_rx_buf_size = 128

-- The `LoRa` of lora-phy with its modulation and packet parameters, which never change. `rx_or_timer`
-- is the race between `rx`, which fills the memory that it is given and returns a length, and the
-- five seconds.
pub record LoRa (K R : Type 0) : Type 0 where
  pub prepare_for_tx : List ℕ → M K R (Unit {0})
  pub tx : M K R (Unit {0})
  pub prepare_for_rx : M K R (Unit {0})
  pub rx_or_timer : M (K × List ℕ) R (Option ℕ)

pub data LoraError (R : Type 0) : Type 0 where
  radio : R → LoraError R
  buffer_overflow : LoraError R

-- `rx_buffer` is a memory with a length that `set_len` sets; of `tx_buffer` only its bytes matter.
pub record LoraController (K : Type 0) : Type 0 where
  pub lora : K
  pub rx_memory : List ℕ
  pub rx_len : ℕ
  pub tx_buffer : List ℕ

abbrev pub Run : Type 0 → Type 0 → Type 0 → Type 0
Run K R A = M (LoraController K) (LoraError R) A

-- A call of lora-phy, with `?`.
abbrev pub on_lora :
    {K R A : Type 0} → LoraController K → Outcome K R A → Outcome (LoraController K) (LoraError R) A
on_lora c (ok a k) = ok a (record c { lora = k })
on_lora c (err e k) = err (radio e) (record c { lora = k })
on_lora c panic = panic
on_lora c pending = pending

abbrev pub clear_tx : {K R : Type 0} → Run K R (Unit {0})
clear_tx c = ok tt (record c { tx_buffer = [] })

abbrev pub set_rx_len : {K R : Type 0} → ℕ → Run K R (Unit {0})
set_rx_len len c = ok tt (record c { rx_len = len })

-- The `match` on the race.
abbrev pub after_race :
    {K R : Type 0}
    → LoraController K
    → Outcome (K × List ℕ) R (Option ℕ)
    → Outcome (LoraController K) (LoraError R) (Unit {0})
after_race c (ok (some received_len) (k, memory)) =
    ok tt (record c { lora = k; rx_memory = memory; rx_len = received_len })
after_race c (ok none (k, memory)) = ok tt (record c { lora = k; rx_memory = memory; rx_len = 0 })
after_race c (err e (k, memory)) = err (radio e) (record c { lora = k; rx_memory = memory })
after_race c panic = panic
after_race c pending = pending

unfoldable pub rx_buffer : {K : Type 0} → LoraController K → List ℕ
rx_buffer c = take c.rx_len c.rx_memory

unfoldable pub write : {K R : Type 0} → List ℕ → Run K R (Unit {0})
write data_bytes c =
    if leb (length c.tx_buffer + length data_bytes) lora_rx_buf_size
    then ok tt (record c { tx_buffer = c.tx_buffer ++ data_bytes })
    else err buffer_overflow c

abbrev pub unless_empty : {K R : Type 0} → List ℕ → Run K R (Unit {0}) → Run K R (Unit {0})
unless_empty [] rest c = ok tt c
unless_empty (b ∷ bs) rest c = rest c

module _ {K R : Type 0} (chip : LoRa K R) where
  unfoldable pub send : Run K R (Unit {0})
  send =
      (λ c. on_lora c (chip.prepare_for_tx c.tx_buffer c.lora))
      >> ((λ c. on_lora c (chip.tx c.lora)) >> clear_tx)

  unfoldable pub recv : Run K R (Unit {0})
  recv =
      (λ c. on_lora c (chip.prepare_for_rx c.lora))
      >> (set_rx_len lora_rx_buf_size
          >> (λ c. after_race c (chip.rx_or_timer (c.lora, c.rx_memory))))

  unfoldable pub read : Run K R (Unit {0})
  read = set_rx_len 0 >> recv

  unfoldable pub flush : Run K R (Unit {0})
  flush c = unless_empty c.tx_buffer send c

  unfoldable pub lora_controller : PhysicalLayer (LoraController K) (LoraError R)
  lora_controller = record { read = read; rx_buffer = rx_buffer; write = write; flush = flush }
