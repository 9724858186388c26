-- ===== src/Export/Rounds.antt =====
-- `export_to_all` of gateway-board/src/export.rs, with both exporters.
use sensor_sensei.Common.{
  ℕ, Bool, ◌+◌, ◌≤◌, ◌<◌, ◌^◌, List, [], ◌∷◌, ◌++◌, Option, none, some, length, ◌≡◌, refl,
}
use sensor_sensei.Common.Outcome.{Outcome, ok, err, panic, pending, Ended, bind-Ended, weaken-Ended}
use sensor_sensei.Util.Memchr.{Memchr, IsMemchr}
use sensor_sensei.App.Packet.{SensorValuePoint}
use sensor_sensei.Web.Client.{HttpClientError, Network, Formatter, HttpClient, line_capacity}
use sensor_sensei.Web.Client.Sent.{IsNetwork, Sends, opened}
use sensor_sensei.Web.Client.Exchange.{IsFormatter}
use sensor_sensei.Export.{
  SensorCommunitySensor, particulate_matter, temperature_pressure, filter_supported,
  export_by_sensor, export_community, InfluxDbExporter, export_influx, logged, export_to_all,
}
use sensor_sensei.Export.Texts.{community_json, community_text, influx_lines, influx_text}
use sensor_sensei.Export.Requests.{
  export_by_sensor-Sends, export_by_sensor-silent, export_influx-Sends,
}

-- The texts that InfluxDB is given fit into their buffers.
abbrev pub Fits : Formatter → Option InfluxDbExporter → List SensorValuePoint → Type 0
Fits formatter none values = Unit
Fits formatter (some exporter) values =
    (length exporter.org + length exporter.bucket ≤ 62)
    × (length exporter.api_token ≤ 94)
    × (length (influx_lines formatter values) < 10 ^ 10)

module _ (m : Memchr) (searches : IsMemchr m) (is_utf8 : List ℕ → Bool)
    (parse_u16 : List ℕ → Option ℕ) (formatter : Formatter) (formats : IsFormatter formatter)
    {K C E : Type 0} (network : Network K C E) (log arrives : K → List ℕ) (bound : ℕ)
    (laws : IsNetwork network log arrives bound) (fuel : ℕ) (enough : bound ≤ fuel)
    (enough' : line_capacity < fuel) where
  abbrev Any : Unit {0} → HttpClient K → Type 0
  Any _ c = Unit {0}

  by_sensor-Ended :
      (sensor : SensorCommunitySensor) (values supported : List SensorValuePoint) (c : HttpClient K)
      → filter_supported sensor values ≡ supported
      → length (community_json formatter sensor values) < 10 ^ 10
      → Ended Any (export_by_sensor m is_utf8 parse_u16 formatter network fuel sensor values c)
  by_sensor-Ended sensor values [] c e short =
      rw (export_by_sensor-silent m is_utf8 parse_u16 formatter network fuel sensor values c e) tt
  by_sensor-Ended sensor values (value ∷ supported) c e short =
      weaken-Ended
        (λ _ c'. Sends log c (opened 80 ++ community_text formatter sensor values) (λ _. Unit) c')
        Any _
        (export_by_sensor-Sends m searches is_utf8 parse_u16 formatter formats network log arrives
          bound laws fuel enough enough' sensor values c
          (λ no_value. let no : [] ≡ value ∷ supported = cc in cc) short)
        (λ _ _ _. tt)

  community-Ended :
      (values : List SensorValuePoint) (c : HttpClient K)
      → length (community_json formatter particulate_matter values) < 10 ^ 10
      → length (community_json formatter temperature_pressure values) < 10 ^ 10
      → Ended Any (export_community m is_utf8 parse_u16 formatter network fuel values c)
  unfolding export_community
  community-Ended values c short short' =
      bind-Ended Any Any
        (export_by_sensor m is_utf8 parse_u16 formatter network fuel particulate_matter values c)
        (λ _.
          export_by_sensor m is_utf8 parse_u16 formatter network fuel temperature_pressure values)
        (by_sensor-Ended particulate_matter values (filter_supported particulate_matter values) c
          refl short)
        (λ _ c1 _.
          by_sensor-Ended temperature_pressure values (filter_supported temperature_pressure values)
            c1 refl short')

  influx-Ended :
      (exporter : InfluxDbExporter) (values : List SensorValuePoint) (c : HttpClient K)
      → Fits formatter (some exporter) values
      → Ended Any (export_influx m is_utf8 parse_u16 formatter network fuel exporter values c)
  unfolding export_influx
  influx-Ended exporter [] c fits = tt
  influx-Ended exporter (value ∷ values) c (path, token, short) =
      weaken-Ended
        (λ _ c'.
          Sends log c (opened exporter.port ++ influx_text formatter exporter (value ∷ values))
            (λ _. Unit) c')
        Any _
        (export_influx-Sends m searches is_utf8 parse_u16 formatter formats network log arrives
          bound laws fuel enough enough' exporter value values c path token short)
        (λ _ _ _. tt)

  logged-ok :
      (o : Outcome (HttpClient K) (HttpClientError C E) (Unit {0}))
      → Ended Any o
      → (c' : HttpClient K) × (logged m is_utf8 parse_u16 formatter network o ≡ ok tt c')
  logged-ok (ok a c) ended = (c, refl)
  logged-ok (err e c) ended = (c, refl)
  logged-ok panic ended = absurd ended
  logged-ok pending ended = absurd ended

  -- Over a network whose calls return, where a look-up that succeeds has an address, and with a
  -- server that answers with a line, and with texts that fit into their buffers, the export of a
  -- batch comes to its end without an error, whichever of these calls fails. A server that closes
  -- the connection before a line end is not such a server: the client then waits without end.
  pub export_to_all-ok :
      (influx_db : Option InfluxDbExporter) (values : List SensorValuePoint) (c : HttpClient K)
      → length (community_json formatter particulate_matter values) < 10 ^ 10
      → length (community_json formatter temperature_pressure values) < 10 ^ 10
      → Fits formatter influx_db values
      → (c' : HttpClient K) × (export_to_all m is_utf8 parse_u16 formatter network fuel influx_db
            values c
          ≡ ok tt c')
  unfolding export_to_all
  export_to_all-ok none values c short short' fits =
      logged-ok (export_community m is_utf8 parse_u16 formatter network fuel values c)
        (community-Ended values c short short')
  export_to_all-ok (some exporter) values c short short' fits =
      let (c1, e) =
        logged-ok (export_community m is_utf8 parse_u16 formatter network fuel values c)
          (community-Ended values c short short') in
      let (c2, e2) =
        logged-ok (export_influx m is_utf8 parse_u16 formatter network fuel exporter values c1)
          (influx-Ended exporter values c1 fits) in
      (c2, rw e e2)
