-- ===== src/Board/Sending.antt =====
-- The application layer of the gateway on its link layer, down to the frames of the radio.
use sensor_sensei.Common.{
  ℕ, ◌≤◌, List, [], ◌++◌, length, take, append-nil, take-length_append, ◌≡◌, refl, sym, ap, subst,
  ◌∙◌, arith,
}
use sensor_sensei.Common.Outcome.{ok, ◌>>◌}
use sensor_sensei.Link.Phy.{PhysicalLayer, IsRadio}
use sensor_sensei.App.Packet.{Packet, encode_packet}
use sensor_sensei.App.Format.{IsValid, packet_bytes}
use sensor_sensei.App.Emit.{encode_packet-Emits}
use sensor_sensei.Board.LinkState.{LinkState}
use sensor_sensei.Board.GatewayLink.{GatewayBoard, gateway_link}
use sensor_sensei.Board.AppLayer.{AppLayer, app_encoder, flush_app}
use sensor_sensei.Board.Chunks.{Written}
use sensor_sensei.Board.Flush.{OnAir, gateway_write-Written, flush_gateway-IsFlush}
use sensor_sensei.Board.Transport.{IsWritable, app_encoder-IsSink}
use sensor_sensei.Board.Sessions.{IsFlushing}

take_all : (xs : List ℕ) → take (length xs) xs ≡ xs
take_all xs = ap (λ ys. take (length xs) ys) (sym (append-nil xs)) ∙ take-length_append xs []

module _ (hmac : List ℕ → List ℕ → List ℕ) {P E : Type 0} (phy : PhysicalLayer P E) (capacity : ℕ)
    (View : P → List (List ℕ) → List ℕ → Type 0) (radio : IsRadio phy capacity View)
    (enough : 69 ≤ capacity) (before : List (List ℕ)) (id : ℕ) where
  abbrev pub Taken : LinkState P GatewayBoard → List ℕ → Type 0
  Taken = Written (OnAir hmac phy capacity View radio before id)

  pub gateway_link-IsWritable : (fuel : ℕ) → IsWritable (gateway_link hmac phy fuel) Taken
  unfolding gateway_link
  gateway_link-IsWritable fuel = record {
    write_lem = λ l out bytes view some_bytes.
        let (l', e, view') =
          gateway_write-Written hmac phy capacity View radio before id l out bytes enough view in
        (
          length bytes,
          l',
          e,
          some_bytes,
          subst (λ xs. Taken l' (out ++ xs)) (sym (take_all bytes)) view',
        );
  }

  -- A flush leaves nothing buffered.
  flushed :
      (fuel : ℕ) (s : AppLayer (LinkState P GatewayBoard)) (out : List ℕ)
      → Taken s.link out
      → (s' : AppLayer (LinkState P GatewayBoard)) × (flush_app (gateway_link hmac phy fuel) s
          ≡ ok tt s')
        × Taken s'.link out
        × OnAir hmac phy capacity View radio before id s'.link out
  unfolding gateway_link flush_app
  flushed fuel s out (gone, view, e, fits) =
      let flushes = flush_gateway-IsFlush hmac phy capacity View radio before id enough in
      let (l, e', view', empty) = flushes.flush_lem s.link gone view fits in
      let on_air = subst (λ xs. OnAir hmac phy capacity View radio before id l xs) e view' in
      (
        record s { link = l },
        rw e' refl,
        (
          out,
          on_air,
          rw empty (append-nil out),
          omega (arith, ap (λ (xs : List ℕ). length xs) empty),
        ),
        on_air,
      )

  pub gateway_link-IsFlushing :
      (fuel : ℕ)
      → IsFlushing
          (gateway_link hmac phy fuel)
          (λ s out. Taken s.link out)
          (λ s out. OnAir hmac phy capacity View radio before id s.link out)
  gateway_link-IsFlushing fuel = record { flush_lem = λ s out view. flushed fuel s out view }

  -- A valid packet that the gateway encodes and flushes over a radio is on the air whole: behind
  -- the frames sent before there are only data frames under the id of the connection, signed with
  -- the key of the gateway, whose payloads are together what was written before, followed by the
  -- bytes of the packet.
  pub gateway_packet-OnAir :
      (fuel : ℕ) (p : Packet) (s : AppLayer (LinkState P GatewayBoard)) (out : List ℕ)
      → IsValid p
      → Taken s.link out
      → (s' : AppLayer (LinkState P GatewayBoard)) × ((encode_packet
                (app_encoder (gateway_link hmac phy fuel))
                p
              >> flush_app (gateway_link hmac phy fuel))
            s
          ≡ ok tt s')
        × OnAir hmac phy capacity View radio before id s'.link (out ++ packet_bytes p)
  gateway_packet-OnAir fuel p s out valid view =
      let link = gateway_link hmac phy fuel in
      let sink = app_encoder-IsSink link Taken (gateway_link-IsWritable fuel) in
      let (s1, e1, view1) =
        encode_packet-Emits (app_encoder link) (λ t xs. Taken t.link xs) sink p valid s out view in
      let (s2, e2, view2, on_air) = flushed fuel s1 (out ++ packet_bytes p) view1 in
      (s2, rw (e1, e2) refl, on_air)
