-- ===== src/Export/Requests.antt =====
-- The requests of gateway-board/src/export.rs, as the bytes on their connection.
use sensor_sensei.Common.{
  ℕ, ◌+◌, ◌≤◌, ◌<◌, ◌^◌, ◌==◌, Bool, true, false, List, [], ◌∷◌, ◌++◌, Option, length,
  length-append, append_assoc, append-nil, ◌≡◌, ◌≢◌, refl, sym, ap, subst, ◌∙◌, arith,
}
use mathlib.Core.List.{map}
use sensor_sensei.Common.Bytes.{codes}
use sensor_sensei.Common.Outcome.{ok, M, pure, ◌>>◌, Ended, bind-Ended, weaken-Ended}
use sensor_sensei.Util.Memchr.{Memchr, IsMemchr}
use sensor_sensei.App.Packet.{SensorValuePoint}
use sensor_sensei.Web.Http.{post}
use sensor_sensei.Web.Client.{
  HttpClientError, Network, Formatter, HttpClient, line_capacity, extend_from_slice, header,
  request, finish,
}
use sensor_sensei.Web.Client.Sent.{
  IsNetwork, Sends, onto-Sends, opened, header_text, request_line, header_then-Sends, request-Sends,
}
use sensor_sensei.Web.Client.Exchange.{IsFormatter, printed}
use sensor_sensei.Web.Client.Finish.{body_text, Finished, finish-Sends}
use sensor_sensei.Export.{
  SensorCommunitySensor, particulate_matter, temperature_pressure, pin, filter_supported,
  community_value, community_values, export_by_sensor, influx_values, InfluxDbExporter,
  export_influx,
}
use sensor_sensei.Export.Texts.{community_json, community_text, influx_lines, influx_text}
use sensor_sensei.Export.Bodies.{separated, community_values-separated, influx_values-separated}

not_none : {A : Type 0} (xs : List A) → xs ≢ [] → (length xs == 0) ≡ false
not_none [] some_value = absurd (some_value refl)
not_none (x ∷ xs) some_value = ground arith

pin-small : (sensor : SensorCommunitySensor) → pin sensor < 10 ^ 10
pin-small particulate_matter = omega arith
pin-small temperature_pressure = omega arith

module _ (m : Memchr) (searches : IsMemchr m) (is_utf8 : List ℕ → Bool)
    (parse_u16 : List ℕ → Option ℕ) (formatter : Formatter) (formats : IsFormatter formatter)
    {K C E : Type 0} (network : Network K C E) (log arrives : K → List ℕ) (bound : ℕ)
    (laws : IsNetwork network log arrives bound) where
  abbrev pub Any : HttpClient K → Type 0
  Any c = Unit {0}

  abbrev Run : Type 0
  Run = M (HttpClient K) (HttpClientError C E) (Unit {0})

  -- The end of a request whose body is complete.
  finished-Sends :
      (fuel : ℕ) (body : List ℕ) (c : HttpClient K)
      → c.body_buf ≡ body
      → length body < 10 ^ 10
      → bound ≤ fuel
      → line_capacity < fuel
      → Ended
          (λ _ c'. Sends log c (body_text formatter body) Any c')
          ((finish network m is_utf8 parse_u16 formatter fuel >> pure tt) c)
  finished-Sends fuel body c e short enough enough' =
      let same : body_text formatter c.body_buf ≡ body_text formatter body =
        ap (λ (xs : List ℕ). body_text formatter xs) e in
      bind-Ended
        (Finished m searches is_utf8 parse_u16 formatter formats network log arrives bound laws c)
        (λ _ c'. Sends log c (body_text formatter body) Any c')
        (finish network m is_utf8 parse_u16 formatter fuel c) (λ _. pure tt)
        (finish-Sends m searches is_utf8 parse_u16 formatter formats network log arrives bound laws
          fuel c (subst (λ (xs : List ℕ). length xs < 10 ^ 10) (sym e) short) enough enough')
        (λ status c' (sent, _). (sent ∙ ap (λ (xs : List ℕ). log c.stack ++ xs) same, tt))

  -- A request and then the rest of what it sends.
  requested :
      (host path rest : List ℕ) (port : ℕ) (next : Run) (c : HttpClient K)
      → ((c' : HttpClient K)
          → c'.body_buf ≡ []
          → Ended (λ _ c''. Sends log c' rest Any c'') (next c'))
      → Ended
          (λ _ c'. Sends log c (opened port ++ (request_line post host path ++ rest)) Any c')
          ((request network post host port path >> next) c)
  requested host path rest port next c sends =
      let line : List ℕ = request_line post host path in
      bind-Ended (λ _ c'. Sends log c (opened port ++ line) (λ x. x.body_buf ≡ []) c')
        (λ _ c'. Sends log c (opened port ++ (line ++ rest)) Any c')
        (request network post host port path c) (λ _. next)
        (request-Sends network log arrives bound laws post host port path c)
        (λ _ c1 (sent, empty).
          weaken-Ended (λ _ c'. Sends log c ((opened port ++ line) ++ rest) Any c')
            (λ _ c'. Sends log c (opened port ++ (line ++ rest)) Any c') (next c1)
            (onto-Sends log c c1 (opened port ++ line) rest Any (next c1) sent (sends c1 empty))
            (λ _ c' (all_sent, _). (
              all_sent
                  ∙ ap (λ (xs : List ℕ). log c.stack ++ xs) (append_assoc (opened port) line rest),
              tt,
            )))

  module _ (fuel : ℕ) (enough : bound ≤ fuel) (enough' : line_capacity < fuel) where
    community_body :
        (sensor : SensorCommunitySensor) (values : List SensorValuePoint)
        → length (community_json formatter sensor values) < 10 ^ 10
        → (c : HttpClient K) → c.body_buf ≡ []
        → Ended
            (λ _ c'.
              Sends log c (body_text formatter (community_json formatter sensor values)) Any c')
            ((extend_from_slice (codes "{\"sensordatavalues\":[")
                >> (community_values m is_utf8 parse_u16 formatter network sensor 0 values
                    >> (extend_from_slice (codes "]}")
                        >> (finish network m is_utf8 parse_u16 formatter fuel >> pure tt))))
              c)
    unfolding extend_from_slice
    community_body sensor values short c empty =
        let first : List ℕ = codes "{\"sensordatavalues\":[" in
        let middle : List ℕ =
          separated b','
            (map (λ v. community_value formatter v.value) (filter_supported sensor values)) in
        rw
          (community_values-separated m is_utf8 parse_u16 formatter network sensor 0 values
            (record c { body_buf = c.body_buf ++ first }))
          (finished-Sends fuel (community_json formatter sensor values)
            (record c { body_buf = ((c.body_buf ++ first) ++ middle) ++ codes "]}" })
            (ap (λ (xs : List ℕ). ((xs ++ first) ++ middle) ++ codes "]}") empty
              ∙ append_assoc first middle (codes "]}"))
            short enough enough')

    -- Over a network whose calls return, where a look-up that succeeds has an address, and with a
    -- server that answers with a line, and with some supported value, an export that succeeds has
    -- opened one connection more, to port 80, and has written on it one request and nothing else:
    -- the headers, and as its body, with its length, the supported values as JSON in their order.
    -- It neither panics nor runs on.
    pub export_by_sensor-Sends :
        (sensor : SensorCommunitySensor) (values : List SensorValuePoint) (c : HttpClient K)
        → filter_supported sensor values ≢ []
        → length (community_json formatter sensor values) < 10 ^ 10
        → Ended
            (λ _ c'. Sends log c (opened 80 ++ community_text formatter sensor values) Any c')
            (export_by_sensor m is_utf8 parse_u16 formatter network fuel sensor values c)
    unfolding export_by_sensor
    export_by_sensor-Sends sensor values c some_value short =
        let body : List ℕ = body_text formatter (community_json formatter sensor values) in
        let next : Run =
          extend_from_slice (codes "{\"sensordatavalues\":[")
          >> (community_values m is_utf8 parse_u16 formatter network sensor 0 values
              >> (extend_from_slice (codes "]}")
                  >> (finish network m is_utf8 parse_u16 formatter fuel >> pure tt))) in
        let x_pin : List ℕ = formatter.decimal (pin sensor) in
        let pin_text : List ℕ = header_text (codes "X-Pin") x_pin ++ body in
        let pinned : Run = header network (codes "X-Pin") x_pin >> next in
        let sensor_text : List ℕ =
          header_text (codes "X-Sensor") (codes "esp32-32344") ++ pin_text in
        let sensored : Run = header network (codes "X-Sensor") (codes "esp32-32344") >> pinned in
        let agent : List ℕ = codes "NRZ-2021-134-B4-ESP32/4123/4123" in
        let agent_text : List ℕ = header_text (codes "User-Agent") agent ++ sensor_text in
        let agented : Run = header network (codes "User-Agent") agent >> sensored in
        rw
          (
            not_none (filter_supported sensor values) some_value,
            printed formatter formats 10 (pin sensor) (pin-small sensor) (omega arith),
          )
          (requested (codes "api.sensor.community") (codes "/v1/push-sensor-data/")
            (header_text (codes "Content-Type") (codes "application/json") ++ agent_text) 80
            (header network (codes "Content-Type") (codes "application/json") >> agented) c
            (header_then-Sends network log arrives bound laws (codes "Content-Type")
              (codes "application/json") agent_text [] Any agented
              (header_then-Sends network log arrives bound laws (codes "User-Agent") agent
                sensor_text [] Any sensored
                (header_then-Sends network log arrives bound laws (codes "X-Sensor")
                  (codes "esp32-32344") pin_text [] Any pinned
                  (header_then-Sends network log arrives bound laws (codes "X-Pin") x_pin body []
                    Any next (community_body sensor values short))))))

    influx_body :
        (values : List SensorValuePoint)
        → length (influx_lines formatter values) < 10 ^ 10
        → (c : HttpClient K) → c.body_buf ≡ []
        → Ended
            (λ _ c'. Sends log c (body_text formatter (influx_lines formatter values)) Any c')
            ((influx_values m is_utf8 parse_u16 formatter network 0 values
                >> (finish network m is_utf8 parse_u16 formatter fuel >> pure tt))
              c)
    influx_body values short c empty =
        let lines : List ℕ = influx_lines formatter values in
        rw (influx_values-separated m is_utf8 parse_u16 formatter network 0 values c) (
          finished-Sends fuel lines (record c { body_buf = c.body_buf ++ lines })
            (ap (λ (xs : List ℕ). xs ++ lines) empty) short enough enough')

    -- Under the same conditions, with an organisation and a bucket of 62 bytes together and a
    -- token of 94 at most, an export of some value to InfluxDB that succeeds has opened one
    -- connection more, to its port, and has written on it one request and nothing else, with one
    -- line for each value.
    pub export_influx-Sends :
        (exporter : InfluxDbExporter) (value : SensorValuePoint) (values : List SensorValuePoint)
        (c : HttpClient K)
        → length exporter.org + length exporter.bucket ≤ 62
        → length exporter.api_token ≤ 94
        → length (influx_lines formatter (value ∷ values)) < 10 ^ 10
        → Ended
            (λ _ c'.
              Sends log c
                (opened exporter.port ++ influx_text formatter exporter (value ∷ values))
                Any
                c')
            (export_influx m is_utf8 parse_u16 formatter network fuel exporter (value ∷ values) c)
    unfolding export_influx
    export_influx-Sends exporter value values c path_fits token_fits short =
        let path : List ℕ =
          codes "/api/v2/write?org="
          ++ (exporter.org ++ (codes "&bucket=" ++ (exporter.bucket ++ codes "&precision=s"))) in
        let pieces : List (List ℕ) =
          codes "/api/v2/write?org="
          ∷ exporter.org
          ∷ codes "&bucket="
          ∷ exporter.bucket
          ∷ codes "&precision=s"
          ∷ [] in
        let whole_path : formatter.format 100 pieces ≡ path = formats.format_lem 100 pieces (
          omega (
            arith,
            path_fits,
            length-append exporter.org
                (codes "&bucket=" ++ (exporter.bucket ++ codes "&precision=s")),
            length-append exporter.bucket (codes "&precision=s"),
          )) in
        let token : List ℕ = codes "Token " ++ exporter.api_token in
        let whole_token : formatter.format 100 (codes "Token " ∷ exporter.api_token ∷ []) ≡ token =
          formats.format_lem 100 (codes "Token " ∷ exporter.api_token ∷ [])
            (omega (arith, token_fits, length-append exporter.api_token []))
          ∙ ap (λ (xs : List ℕ). codes "Token " ++ xs) (append-nil exporter.api_token) in
        let body : List ℕ = body_text formatter (influx_lines formatter (value ∷ values)) in
        let next : Run =
          influx_values m is_utf8 parse_u16 formatter network 0 (value ∷ values)
          >> (finish network m is_utf8 parse_u16 formatter fuel >> pure tt) in
        let token_text : List ℕ = header_text (codes "Authorization") token ++ body in
        let authorized : Run = header network (codes "Authorization") token >> next in
        rw (whole_path, whole_token)
          (requested exporter.host path
            (header_text (codes "Content-Type") (codes "text/plain") ++ token_text) exporter.port
            (header network (codes "Content-Type") (codes "text/plain") >> authorized) c
            (header_then-Sends network log arrives bound laws (codes "Content-Type")
              (codes "text/plain") token_text [] Any authorized
              (header_then-Sends network log arrives bound laws (codes "Authorization") token body
                [] Any next (influx_body (value ∷ values) short))))

-- Without a value that the sensor supports, nothing is sent.
pub export_by_sensor-silent :
    {K C E : Type 0} (m : Memchr) (is_utf8 : List ℕ → Bool) (parse_u16 : List ℕ → Option ℕ)
    (formatter : Formatter) (network : Network K C E) (fuel : ℕ) (sensor : SensorCommunitySensor)
    (values : List SensorValuePoint) (c : HttpClient K)
    → filter_supported sensor values ≡ []
    → export_by_sensor m is_utf8 parse_u16 formatter network fuel sensor values c ≡ ok tt c
unfolding export_by_sensor
export_by_sensor-silent m is_utf8 parse_u16 formatter network fuel sensor values c e =
    let no_value : (length (filter_supported sensor values) == 0) ≡ true = rw e refl in
    rw no_value refl
