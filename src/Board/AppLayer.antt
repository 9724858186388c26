-- ===== src/Board/AppLayer.antt =====
-- The encoder and decoder that both boards build on their link layer: `emit_bytes` and `read_bytes`
-- of `GatewayAppLayer` (gateway-board/src/comm/app.rs) and `SensorBoardAppLayer`
-- (sensor-board/src/comm/app.rs), which have the same text.
use sensor_sensei.Common.{ℕ, zero, suc, ◌+◌, ◌-◌, ◌%◌, List, [], ◌∷◌, ◌++◌, length, drop}
use sensor_sensei.Common.Outcome.{Outcome, M, ok, err, panic, pending, pure, ◌>>=◌, ◌>>◌}
use sensor_sensei.Codec.Traits.{Encoder, Decoder, usize_mod}
use sensor_sensei.Board.LinkState.{LinkLayer}

pub record AppLayer (L : Type 0) : Type 0 where
  pub link : L
  pub offset : ℕ

-- `GatewayAppLayerError` and `SensorBoardAppLayerError`.
pub data AppError (X : Type 0) : Type 0 where
  decoding : AppError X
  unexpected_packet : ℕ → AppError X
  incompatible_protocol : ℕ → ℕ → AppError X
  timeout : AppError X
  link_error : X → AppError X

module _ {L X : Type 0} (link : LinkLayer L X) where
  abbrev pub State : Type 0
  State = AppLayer L

  -- `.map_err(GatewayAppLayerError::Link)` on a call on the field `link`.
  abbrev pub resume_link : {A : Type 0} → ℕ → Outcome L X A → Outcome State (AppError X) A
  resume_link offset (ok a l) = ok a (record { link = l; offset = offset })
  resume_link offset (err x l) = err (link_error x) (record { link = l; offset = offset })
  resume_link offset panic = panic
  resume_link offset pending = pending

  abbrev pub on_link : {A : Type 0} → M L X A → M State (AppError X) A
  on_link m s = resume_link s.offset (m s.link)

  abbrev pub advance_offset : ℕ → M State (AppError X) (Unit {0})
  advance_offset n s = ok tt (record s { offset = (s.offset + n) % usize_mod })

  -- `while !buf.is_empty()`; a link that takes a byte at least of each write ends it.
  unfoldable pub emit_loop : ℕ → List ℕ → M State (AppError X) (Unit {0})
  emit_loop fuel [] = pure tt
  emit_loop zero (b ∷ bs) = λ _. pending
  emit_loop (suc fuel) (b ∷ bs) = do
    written ← on_link (link.write (b ∷ bs))
    emit_loop fuel (drop written (b ∷ bs))

  -- `while bytes_read < buf.len()`, over the number of bytes that are still missing.
  unfoldable pub read_loop : ℕ → ℕ → M State (AppError X) (List ℕ)
  read_loop fuel zero = pure []
  read_loop zero (suc missing) = λ _. pending
  read_loop (suc fuel) (suc missing) = do
    front ← on_link (link.read (suc missing))
    advance_offset (length front)
    back ← read_loop fuel (suc missing - length front)
    pure (front ++ back)

  unfoldable pub app_encoder : Encoder State (AppError X)
  app_encoder = record { emit_bytes = λ bytes. emit_loop (length bytes) bytes }

  unfoldable pub app_decoder : Decoder State (AppError X)
  app_decoder = record {
    read_bytes = λ n. read_loop n n;
    current_offset = λ s. s.offset;
    decoding_error = λ s. decoding;
  }

  unfoldable pub flush_app : M State (AppError X) (Unit {0})
  flush_app = on_link link.flush

  unfoldable pub reset_app : State → State
  reset_app s = record { link = link.reset s.link; offset = 0 }
