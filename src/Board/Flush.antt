-- ===== src/Board/Flush.antt =====
-- `GatewayLinkLayer::flush` over a radio: one signed data packet with the buffered bytes.
use sensor_sensei.Common.{
  ℕ, ◌+◌, ◌≤◌, List, [], ◌∷◌, ◌++◌, length, append_assoc, append-nil, ◌≡◌, ◌≢◌, refl, ap, ◌∙◌,
  arith, concat, sym, subst,
}
use mathlib.Core.List.{map}
use sensor_sensei.Common.Outcome.{ok}
use sensor_sensei.Link.Phy.{PhysicalLayer, IsRadio}
use sensor_sensei.Link.Packet.{
  LinkPhase, data_phase, write_packet, to_be_five, header, sign_payload,
}
use sensor_sensei.Link.Header.{frame}
use sensor_sensei.Board.LinkState.{LinkState, write_link, tx_capacity}
use sensor_sensei.Board.GatewayLink.{GatewayBoard, secret, flush_gateway}
use sensor_sensei.Board.Chunks.{IsFlush, Written, write_link-Written}

pub map-append :
    {A B : Type 0} (f : A → B) (xs : List A) (x : A)
    → map f (xs ++ (x ∷ [])) ≡ map f xs ++ (f x ∷ [])
map-append f [] x = refl
map-append f (y ∷ ys) x = ap (λ zs. f y ∷ zs) (map-append f ys x)

concat-append : (xs : List (List ℕ)) (x : List ℕ) → concat (xs ++ (x ∷ [])) ≡ concat xs ++ x
concat-append [] x = append-nil x
concat-append (y ∷ ys) x =
    ap (λ zs. y ++ zs) (concat-append ys x) ∙ sym (append_assoc y (concat ys) x)

length-header : (x : ℕ) → length (to_be_five x) ≡ 5
unfolding to_be_five
length-header x = refl

frame-some : (x : ℕ) (payload : List ℕ) → to_be_five x ++ payload ≢ []
unfolding to_be_five
frame-some x payload e = cc

module _ (hmac : List ℕ → List ℕ → List ℕ) {P E : Type 0} (phy : PhysicalLayer P E) (capacity : ℕ)
    (View : P → List (List ℕ) → List ℕ → Type 0) (radio : IsRadio phy capacity View) where
  -- A packet that fits is sent as one frame.
  pub write_packet-frame :
      (p : P) (sent : List (List ℕ)) (phase : LinkPhase) (id : ℕ) (payload key : List ℕ)
      → View p sent []
      → 5 + length payload ≤ capacity
      → (p' : P) × (write_packet hmac phy
            (record { phase = phase; id = id; payload = payload })
            key
            p
          ≡ ok tt p')
        × View p' (sent ++ (frame hmac key phase id payload ∷ [])) []
        × (phy.rx_buffer p' ≡ phy.rx_buffer p)
  unfolding write_packet
  write_packet-frame p sent phase id payload key view fits =
      let x : ℕ = header phase id (sign_payload hmac payload key) in
      let five = length-header x in
      let (p1, e1, v1, r1) = radio.write_lem p sent [] (to_be_five x) view (omega (arith, five)) in
      let (p2, e2, v2, r2) =
        radio.write_lem p1 sent (to_be_five x) payload v1 (omega (arith, five)) in
      let (p3, e3, v3, r3) =
        radio.flush_lem p2 sent (to_be_five x ++ payload) v2 (frame-some x payload) in
      (p3, rw (e1, e2, e3) refl, v3, r3 ∙ r2 ∙ r1)

  -- Data frames of the connection, signed with the key of the gateway.
  abbrev pub data_frames : ℕ → List (List ℕ) → List (List ℕ)
  data_frames id payloads = map (frame hmac secret data_phase id) payloads

  module _ (before : List (List ℕ)) (id : ℕ) where
    -- The connection has the id `id`; what is on the air after the frames `before` is signed data
    -- frames under that id whose payloads are `out` together, and the radio has nothing left to send.
    abbrev pub OnAir : LinkState P GatewayBoard → List ℕ → Type 0
    OnAir s out =
        (s.board.curr_sensor_id ≡ id)
        × ((payloads : List (List ℕ)) × View s.phy (before ++ data_frames id payloads) []
            × (concat payloads ≡ out))

    flush_sends :
        (s : LinkState P GatewayBoard) (out : List ℕ)
        → 69 ≤ capacity
        → OnAir s out
        → length s.tx_buf ≤ tx_capacity
        → (s' : LinkState P GatewayBoard) × (flush_gateway hmac phy s ≡ ok tt s')
          × OnAir s' (out ++ s.tx_buf)
          × (s'.tx_buf ≡ [])
    unfolding flush_gateway
    flush_sends s out enough (same_id, (payloads, view, e)) fits =
        let frames : List (List ℕ) = before ++ data_frames id payloads in
        let bytes : List ℕ = frame hmac secret data_phase s.board.curr_sensor_id s.tx_buf in
        let (p, sent, view', _) =
          write_packet-frame s.phy frames data_phase s.board.curr_sensor_id s.tx_buf secret view
            (omega arith) in
        let grown : frames ++ (bytes ∷ [])
            ≡ before ++ data_frames id (payloads ++ (s.tx_buf ∷ [])) =
          append_assoc before (data_frames id payloads) (bytes ∷ [])
          ∙ ap
              (λ (i : ℕ).
                before
                ++ (data_frames id payloads ++ (frame hmac secret data_phase i s.tx_buf ∷ [])))
              same_id
          ∙ ap (λ (fs : List (List ℕ)). before ++ fs)
              (sym (map-append (frame hmac secret data_phase id) payloads s.tx_buf)) in
        (
          record s { phy = p; tx_buf = [] },
          rw (sent, radio.flush_empty p (frames ++ (bytes ∷ [])) view') refl,
          (
            same_id,
            (
              payloads ++ (s.tx_buf ∷ []),
              subst (λ fs. View p fs []) grown view',
              concat-append payloads s.tx_buf ∙ ap (λ (xs : List ℕ). xs ++ s.tx_buf) e,
            ),
          ),
          refl,
        )

    pub flush_gateway-IsFlush : 69 ≤ capacity → IsFlush (flush_gateway hmac phy) OnAir
    flush_gateway-IsFlush enough = record {
      flush_lem = λ s out view fits. flush_sends s out enough view fits;
      buffer_lem = λ s out bytes view. view;
    }

    -- Over a radio whose buffer takes a header and 64 bytes, `write` takes every byte: the payloads
    -- of the data frames on the air and the buffered bytes are what they were, followed by the bytes
    -- written, and 64 bytes at most stay buffered.
    pub gateway_write-Written :
        (s : LinkState P GatewayBoard) (all bytes : List ℕ)
        → 69 ≤ capacity
        → Written OnAir s all
        → (s' : LinkState P GatewayBoard) × (write_link (flush_gateway hmac phy) bytes s
            ≡ ok (length bytes) s')
          × Written OnAir s' (all ++ bytes)
    gateway_write-Written s all bytes enough written =
        write_link-Written (flush_gateway hmac phy) OnAir (flush_gateway-IsFlush enough) s all bytes
          written
