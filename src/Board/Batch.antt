-- ===== src/Board/Batch.antt =====
-- A batch of sensor values, from `app_send_values` of sensor-board/src/comm/app.rs to
-- `app_on_sensor_data` of gateway-board/src/comm/app.rs.
use sensor_sensei.Common.{
  ℕ, ◌+◌, ◌^◌, ◌<◌, if◌then◌else◌, List, [], ◌∷◌, ◌++◌, length, All, append_assoc, append-nil, ◌≡◌,
  refl, subst, arith, Bool-cases, inl, inr,
}
use sensor_sensei.Common.Outcome.{ok}
use sensor_sensei.Codec.Traits.{Decoder}
use sensor_sensei.Codec.Stream.{IsStream, IsSink, Emits-pure, Emits-then, Consumes}
use sensor_sensei.Codec.Leb.Bounds.{groups}
use sensor_sensei.Codec.Wire.{to_le_bytes}
use sensor_sensei.App.Packet.{
  SensorValue, SensorValuePoint, temperature, pressure, altitude, air_quality, unknown, wire_id,
  decode_point, decode_value,
}
use sensor_sensei.App.Format.{IsValue, missing, value_bytes, point_bytes}
use sensor_sensei.App.Emit.{encode_point-Emits}
use sensor_sensei.App.Values.{decode_point-Consumes, decode_value-Consumes, known_bytes, IsSized}
use sensor_sensei.Board.LinkState.{LinkLayer}
use sensor_sensei.Board.AppLayer.{AppLayer, app_encoder, app_decoder}
use sensor_sensei.Board.GatewayApp.{Sender, Gateway, receive_values}
use sensor_sensei.Board.SensorApp.{emit_values}

-- The bytes of the points of a batch.
abbrev pub batch_bytes : List SensorValuePoint → List ℕ
batch_bytes [] = []
batch_bytes (point ∷ points) = point_bytes point ++ batch_bytes points

abbrev pub points_at : ℕ → List SensorValue → List SensorValuePoint
points_at time_offset [] = []
points_at time_offset (value ∷ values) =
    record { value = value; time_offset = time_offset } ∷ points_at time_offset values

-- The queue after the points: each goes in while there is room, and is dropped otherwise.
abbrev pub kept : {Q : Type 0} → Sender Q → List SensorValuePoint → Q → Q
kept sender [] q = q
kept sender (point ∷ points) q =
    kept sender points (if sender.has_room q then sender.send point q else q)

-- What the wire carries: a value whose array the encoder writes, and a 64-bit time offset.
abbrev pub IsPoint : SensorValuePoint → Type 0
IsPoint p = (p.time_offset < 2 ^ 64) × IsValue p.value × (missing p.value ≡ 0)

module _ {L X : Type 0} (link : LinkLayer L X) (View : AppLayer L → List ℕ → Type 0)
    (sink : IsSink (app_encoder link) View) where
  -- The sensor emits the points of all its values, in order and with one time offset. A pressure
  -- is an f32, as in the code, where doc/protocol.md 4.3.6 has a u32.
  pub emit_values-Emits :
      (time_offset : ℕ) (values : List SensorValue)
      → All IsPoint (points_at time_offset values)
      → (s : AppLayer L) (out : List ℕ) → View s out
      → (s' : AppLayer L) × (emit_values link time_offset values s ≡ ok tt s')
        × View s' (out ++ batch_bytes (points_at time_offset values))
  unfolding emit_values
  emit_values-Emits time_offset [] valid = Emits-pure View
  emit_values-Emits time_offset (value ∷ values) ((lt, v, _), rest) =
      Emits-then View _ (emit_values link time_offset values) _
        (batch_bytes (points_at time_offset values))
        (encode_point-Emits (app_encoder link) View sink
          (record { value = value; time_offset = time_offset }) lt v)
        (emit_values-Emits time_offset values rest)

whole_value :
    (v : SensorValue)
    → missing v ≡ 0
    → groups 4 (wire_id v) ++ (groups 4 (length (known_bytes v) + 0) ++ (known_bytes v ++ []))
      ≡ value_bytes v
unfolding to_le_bytes
whole_value (temperature v) none_missing = refl
whole_value (pressure v) none_missing = refl
whole_value (altitude v) none_missing = refl
whole_value (air_quality v) none_missing = refl
whole_value (unknown id len) none_missing = rw (none_missing, append-nil (groups 4 0)) refl

value-IsSized :
    (v : SensorValue) → IsValue v → missing v ≡ 0 → IsSized v (length (known_bytes v) + 0)
value-IsSized (unknown id len) (big, small, _) none_missing = (big, small, none_missing)
value-IsSized (temperature v) h none_missing = h
value-IsSized (pressure v) h none_missing = h
value-IsSized (altitude v) h none_missing = h
value-IsSized (air_quality v) h none_missing = h

module _ {S E : Type 0} (d : Decoder S E) (Holds : S → List ℕ → Type 0)
    (stream : IsStream d Holds) where
  point-Consumes :
      (p : SensorValuePoint) → IsPoint p → Consumes d Holds (decode_point d) p (point_bytes p)
  point-Consumes p (lt, v, none_missing) =
      decode_point-Consumes d Holds stream p (value_bytes p.value) lt (
        subst (λ xs. Consumes d Holds (decode_value d) p.value xs)
          (whole_value p.value none_missing)
          (decode_value-Consumes d Holds stream p.value [] (value-IsSized p.value v none_missing)
            (omega arith)))

module _ {L Q X : Type 0} (link : LinkLayer L X) (sender : Sender Q)
    (Holds : AppLayer L → List ℕ → Type 0) (stream : IsStream (app_decoder link) Holds) where
  -- The gateway reads exactly the bytes of a batch, and its queue takes the points in order: each
  -- goes in while there is room, and is read and dropped otherwise. A pressure is an f32, as in
  -- the code, where doc/protocol.md 4.3.6 has a u32.
  pub receive_values-kept :
      (points : List SensorValuePoint) (s : Gateway L Q) (rest : List ℕ)
      → All IsPoint points
      → Holds s.app (batch_bytes points ++ rest)
      → (app : AppLayer L) × (receive_values link sender (length points) s
          ≡ ok tt (record s { app = app; queue = kept sender points s.queue }))
        × Holds app rest
  unfolding receive_values
  receive_values-kept [] s rest valid held = (s.app, refl, held)
  receive_values-kept (point ∷ points) s rest (one, others) held =
      let held' =
        subst (λ xs. Holds s.app xs) (append_assoc (point_bytes point) (batch_bytes points) rest)
          held in
      let (app, e, h, _) = point-Consumes (app_decoder link) Holds stream point one s.app _ held' in
      elim (Bool-cases (sender.has_room s.queue)) [
        | inl room ↦
            let (app', e', h') =
              receive_values-kept points (record s { app = app; queue = sender.send point s.queue })
                rest others h in
            (app', rw (room, e, e') refl, h')
        | inr full ↦
            let (app', e', h') =
              receive_values-kept points (record s { app = app }) rest others h in
            (app', rw (full, e, e') refl, h')
      ]
