-- ===== src/Examples/Radio.antt =====
-- A radio in memory: what it has sent, what waits, and the frames that will arrive.
use sensor_sensei.Common.{
  ℕ, ◌+◌, ltb, if◌then◌else◌, List, [], ◌∷◌, ◌++◌, length, ◌≡◌, ◌≢◌, refl, ap, ◌∙◌, arith, false,
}
use sensor_sensei.Common.Outcome.{Outcome, ok, err}
use sensor_sensei.Link.Phy.{PhysicalLayer, IsRadio}

pub record Radio : Type 0 where
  pub air : List (List ℕ)
  pub waiting : List ℕ
  pub arriving : List (List ℕ)
  pub shown : List ℕ

abbrev pub receive : List (List ℕ) → Radio → Outcome Radio ℕ (Unit {0})
receive [] s = err 1 s
receive (bytes ∷ later) s = ok tt (record s { arriving = later; shown = bytes })

abbrev pub send : List ℕ → Radio → Outcome Radio ℕ (Unit {0})
send [] s = ok tt s
send (b ∷ bs) s = ok tt (record s { air = s.air ++ ((b ∷ bs) ∷ []); waiting = [] })

unfoldable pub radio : PhysicalLayer Radio ℕ
radio = record {
  read = λ s. receive s.arriving s;
  rx_buffer = λ s. s.shown;
  write = λ bytes s.
      if ltb 128 (length s.waiting + length bytes)
      then err 0 s
      else ok tt (record s { waiting = s.waiting ++ bytes });
  flush = λ s. send s.waiting s;
}

abbrev pub RadioView : Radio → List (List ℕ) → List ℕ → Type 0
RadioView s sent buf = (s.air ≡ sent) × (s.waiting ≡ buf)

send_some :
    (s : Radio) (sent : List (List ℕ)) (buf : List ℕ)
    → s.air ≡ sent
    → buf ≢ []
    → (s' : Radio) × (send buf s ≡ ok tt s')
      × RadioView s' (sent ++ (buf ∷ [])) []
      × (s'.shown ≡ s.shown)
send_some s sent [] e some_bytes = absurd (some_bytes refl)
send_some s sent (b ∷ bs) e some_bytes =
    (record s { air = s.air ++ ((b ∷ bs) ∷ []); waiting = [] }, refl, (rw e refl, refl), refl)

pub radio-IsRadio : IsRadio radio 128 RadioView
unfolding radio
radio-IsRadio = record {
  write_lem = λ s sent buf bytes (a, w) fits.
      let room : ltb 128 (length buf + length bytes) ≡ false = ground arith in
      (record s { waiting = buf ++ bytes }, rw (w, room) refl, (a, refl), refl);
  flush_lem = λ s sent buf (a, w) some_bytes.
      let (s', e, view, shown) = send_some s sent buf a some_bytes in
      (s', ap (λ bytes. send bytes s) w ∙ e, view, shown);
  flush_empty = λ s sent (a, w). ap (λ bytes. send bytes s) w;
}

-- A stand-in for HMAC-SHA256: five bytes that depend on the key and the message.
abbrev pub checksum : List ℕ → List ℕ → List ℕ
checksum key message = length key ∷ length message ∷ 3 ∷ 4 ∷ 5 ∷ []
