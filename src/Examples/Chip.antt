-- ===== src/Examples/Chip.antt =====
-- A radio chip in memory under the controller, and a sensor that is answered.
use sensor_sensei.Common.{
  ℕ, suc, ◌+◌, ◌%◌, ◌^◌, ◌<◌, ltb, false, List, [], ◌∷◌, ◌++◌, Option, none, some, length, drop,
  ◌≡◌, ◌≢◌, refl, ap, ◌∙◌, arith,
}
use sensor_sensei.Common.Outcome.{Outcome, ok}
use sensor_sensei.Link.Phy.{IsRadio}
use sensor_sensei.Link.Packet.{handshake_phase, sign_payload, from_be_five, check}
use sensor_sensei.Link.Header.{frame}
use sensor_sensei.Link.Delivery.{Receives, done, next}
use sensor_sensei.Board.LinkState.{LinkState}
use sensor_sensei.Board.GatewayLink.{secret}
use sensor_sensei.Board.SensorLink.{SensorBoardLinkPhase, handshaking, linked, connect_loop}
use sensor_sensei.Board.Connecting.{none_yet, IsReply, connect_loop-linked}
use sensor_sensei.Board.Lora.{LoRa, LoraController, lora_controller, flush}
use sensor_sensei.Board.Lora.Air.{
  IsTransmitting, IsReceiving, LoraView, Waiting, lora_controller-IsRadio, lora_controller-Receives,
  flush-Waiting,
}
use sensor_sensei.Examples.Radio.{Radio, radio, send, checksum}

record Chip : Type 0 where
  air : List (List ℕ)
  prepared : List ℕ
  coming : List (List ℕ)

-- The next frame at the front of the memory, or the timer.
abbrev next_frame : List (List ℕ) → Chip → List ℕ → Outcome (Chip × List ℕ) ℕ (Option ℕ)
next_frame [] k memory = ok none (k, memory)
next_frame (bytes ∷ later) k memory =
    ok (some (length bytes)) (record k { coming = later }, bytes ++ drop (length bytes) memory)

abbrev chip : LoRa Chip ℕ
chip = record {
  prepare_for_tx = λ bytes k. ok tt (record k { prepared = bytes });
  tx = λ k. ok tt (record k { air = k.air ++ (k.prepared ∷ []) });
  prepare_for_rx = λ k. ok tt k;
  rx_or_timer = λ (k, memory). next_frame k.coming k memory;
}

abbrev Sent : Chip → List (List ℕ) → Type 0
Sent k frames = k.air ≡ frames

abbrev Ready : Chip → List (List ℕ) → List ℕ → Type 0
Ready k frames bytes = (k.air ≡ frames) × (k.prepared ≡ bytes)

abbrev Coming : Chip → List (List ℕ) → Type 0
Coming k frames = k.coming ≡ frames

chip-IsTransmitting : IsTransmitting chip Sent Ready
chip-IsTransmitting = record {
  prepare_lem = λ k frames bytes air short. (record k { prepared = bytes }, refl, (air, refl));
  tx_lem = λ k frames bytes (air, ready).
      (record k { air = k.air ++ (k.prepared ∷ []) }, refl, rw (air, ready) refl);
}

chip-IsReceiving : IsReceiving chip Coming
chip-IsReceiving = record {
  listen_lem = λ k frames coming. (k, refl, coming);
  rx_lem = λ k bytes memory frames coming. (
    record k { coming = frames },
    drop (length bytes) memory,
    ap (λ fs. next_frame fs k memory) coming,
    refl,
  );
}

lora_controller-IsRadio_example :
    IsRadio (lora_controller chip) 128 (LoraView chip Sent Ready chip-IsTransmitting)
lora_controller-IsRadio_example = lora_controller-IsRadio chip Sent Ready chip-IsTransmitting

abbrev two_coming : LoraController Chip
two_coming = record {
  lora = record { air = []; prepared = []; coming = (1 ∷ 2 ∷ []) ∷ (3 ∷ []) ∷ [] };
  rx_memory = [];
  rx_len = 0;
  tx_buffer = 7 ∷ [];
}

lora_controller-Receives_example :
    (c' : LoraController Chip) × Receives
      (lora_controller chip)
      two_coming
      ((1 ∷ 2 ∷ []) ∷ (3 ∷ []) ∷ [])
      c'
lora_controller-Receives_example =
    lora_controller-Receives chip Coming chip-IsReceiving ((1 ∷ 2 ∷ []) ∷ (3 ∷ []) ∷ []) two_coming
      refl

flush-Waiting_example : Waiting chip two_coming (flush chip two_coming)
flush-Waiting_example = flush-Waiting chip two_coming

abbrev mac : List ℕ
mac = 1 ∷ 2 ∷ 3 ∷ 4 ∷ 5 ∷ 6 ∷ []

abbrev reply : List ℕ
reply = frame checksum secret handshake_phase 5 mac

-- What is on the air and what waits, with frames to come.
abbrev ComingView : List (List ℕ) → Radio → List (List ℕ) → List ℕ → Type 0
ComingView coming s sent buf = (s.air ≡ sent) × (s.waiting ≡ buf) × (s.arriving ≡ coming)

send_some :
    (coming : List (List ℕ)) (s : Radio) (sent : List (List ℕ)) (buf : List ℕ)
    → s.air ≡ sent
    → s.arriving ≡ coming
    → buf ≢ []
    → (s' : Radio) × (send buf s ≡ ok tt s')
      × ComingView coming s' (sent ++ (buf ∷ [])) []
      × (s'.shown ≡ s.shown)
send_some coming s sent [] e later some_bytes = absurd (some_bytes refl)
send_some coming s sent (b ∷ bs) e later some_bytes = (
  record s { air = s.air ++ ((b ∷ bs) ∷ []); waiting = [] },
  refl,
  (rw e refl, refl, later),
  refl,
)

radio-IsRadio_coming : (coming : List (List ℕ)) → IsRadio radio 128 (ComingView coming)
unfolding radio
radio-IsRadio_coming coming = record {
  write_lem = λ s sent buf bytes (a, w, l) fits.
      let room : ltb 128 (length buf + length bytes) ≡ false = ground arith in
      (record s { waiting = buf ++ bytes }, rw (w, room) refl, (a, refl, l), refl);
  flush_lem = λ s sent buf (a, w, l) some_bytes.
      let (s', e, view, shown) = send_some coming s sent buf a l some_bytes in
      (s', ap (λ bytes. send bytes s) w ∙ e, view, shown);
  flush_empty = λ s sent (a, w, l). ap (λ bytes. send bytes s) w;
}

abbrev waiting_sensor : LinkState Radio SensorBoardLinkPhase
waiting_sensor = record {
  board = handshaking;
  phy = record { air = []; waiting = []; arriving = (9 ∷ []) ∷ reply ∷ []; shown = [] };
  tx_buf = [];
  payload_start = 0;
  payload_end = 0;
}

abbrev answered : Radio
answered = record {
  air = frame checksum secret handshake_phase 0 mac ∷ [];
  waiting = [];
  arriving = [];
  shown = reply;
}

junk_refused : check checksum secret (9 ∷ []) ≡ none
unfolding check
junk_refused = refl

arrives :
    (p : Radio)
    → ComingView ((9 ∷ []) ∷ reply ∷ []) p (frame checksum secret handshake_phase 0 mac ∷ []) []
    → IsReply checksum mac radio 2 p 5 answered
unfolding radio
arrives p (a, w, l) = record {
  junk = (9 ∷ []) ∷ [];
  before = record p { arriving = reply ∷ []; shown = 9 ∷ [] };
  skipped = next (rw l refl) refl done;
  refused = (junk_refused, tt);
  in_time = omega arith;
  read = rw (a, w) refl;
  shown = refl;
}

mac_signed : sign_payload checksum mac secret < 2 ^ 64
unfolding sign_payload from_be_five
mac_signed = omega arith

connect_loop-linked_example :
    connect_loop checksum mac radio 2 (0 + suc 3) waiting_sensor
    ≡ ok (5 % 16) (record waiting_sensor { board = linked (5 % 16); phy = answered })
connect_loop-linked_example =
    connect_loop-linked checksum mac radio 2 128 (ComingView ((9 ∷ []) ∷ reply ∷ []))
      (radio-IsRadio_coming ((9 ∷ []) ∷ reply ∷ [])) (omega arith) (omega arith) mac_signed 0 3
      waiting_sensor waiting_sensor.phy answered [] 5 none_yet (refl, refl, refl) arrives
