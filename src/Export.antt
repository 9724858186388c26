-- ===== src/Export.antt =====
-- gateway-board/src/export.rs: collecting the values of the queue and sending them to
-- sensor.community and to InfluxDB. The counts stay below 2 ^ 32, since there are less values.
use sensor_sensei.Common.{
  ℕ, zero, suc, ◌==◌, if◌then◌else◌, Bool, true, false, List, [], ◌∷◌, ◌++◌, Option, none, some,
  length,
}
use sensor_sensei.Common.Bytes.{codes}
use sensor_sensei.Common.Outcome.{Outcome, ok, err, panic, pending, M, pure, bind, ◌>>=◌, ◌>>◌}
use sensor_sensei.Util.Memchr.{Memchr}
use sensor_sensei.App.Packet.{
  SensorValue, temperature, pressure, altitude, air_quality, unknown, SensorValuePoint,
}
use sensor_sensei.Web.Http.{post}
use sensor_sensei.Web.Client.{
  HttpClientError, Network, Formatter, HttpClient, extend_from_slice, header, request, finish,
}
pub mod Collected
pub mod Bodies
pub mod Texts
pub mod Requests
pub mod Rounds

-- `n` is the capacity left in the buffer.
abbrev pub try_collect : ℕ → List SensorValuePoint → List SensorValuePoint × List SensorValuePoint
try_collect zero queue = ([], queue)
try_collect (suc n) [] = ([], [])
try_collect (suc n) (value ∷ queue) =
    let (values, left) = try_collect n queue in (value ∷ values, left)

-- The channel's queue is all that it holds: the values collected and those left, or `none` while it
-- waits for the first. A full buffer drops what is pushed.
unfoldable pub collect_values :
    ℕ → List SensorValuePoint → Option (List SensorValuePoint × List SensorValuePoint)
collect_values n [] = none
collect_values zero (value ∷ queue) = some ([], queue)
collect_values (suc n) (value ∷ queue) =
    let (values, left) = try_collect n queue in some (value ∷ values, left)

pub data SensorCommunitySensor : Type 0 where
  particulate_matter temperature_pressure : SensorCommunitySensor

-- The discriminants.
abbrev pub pin : SensorCommunitySensor → ℕ
pin particulate_matter = 1
pin temperature_pressure = 3

unfoldable pub supports_value : SensorCommunitySensor → SensorValue → Bool
supports_value particulate_matter (air_quality v) = true
supports_value particulate_matter _ = false
supports_value temperature_pressure (temperature v) = true
supports_value temperature_pressure (pressure v) = true
supports_value temperature_pressure _ = false

-- The values that the sensor supports.
abbrev pub filter_supported : SensorCommunitySensor → List SensorValuePoint → List SensorValuePoint
filter_supported sensor [] = []
filter_supported sensor (value ∷ values) =
    let others = filter_supported sensor values in
    if supports_value sensor value.value then value ∷ others else others

module _ (formatter : Formatter) where
  -- What `write!` puts into the body.
  unfoldable pub community_value : SensorValue → List ℕ
  community_value (temperature v) =
      codes "{\"value\":" ++ (formatter.float v ++ codes ",\"value_type\":\"temperature\"}")
  community_value (pressure v) =
      codes "{\"value\":" ++ (formatter.float v ++ codes ",\"value_type\":\"pressure\"}")
  community_value (altitude v) =
      codes "{\"value\":" ++ (formatter.float v ++ codes ",\"value_type\":\"altitude\"}")
  community_value (air_quality v) =
      codes "{\"value\":" ++ (formatter.float v ++ codes ",\"value_type\":\"dust_density\"}")
  community_value (unknown id len) = []

  unfoldable pub influx_value : SensorValue → List ℕ
  influx_value (temperature v) = codes "temperature value=" ++ formatter.float v
  influx_value (pressure v) = codes "pressure value=" ++ formatter.float v
  influx_value (altitude v) = codes "altitude value=" ++ formatter.float v
  influx_value (air_quality v) = codes "dust_density value=" ++ formatter.float v
  influx_value (unknown id len) = []

-- `write_value_to_body` of both exporters: `separator` comes before all values but the first.
unfoldable pub write_value_to_body :
    {K X : Type 0} → ℕ → List ℕ → Bool → M (HttpClient K) X (Unit {0})
write_value_to_body separator text true = extend_from_slice text
write_value_to_body separator text false =
    extend_from_slice (separator ∷ []) >> extend_from_slice text

-- The InfluxDB section of the configuration, with a host.
pub record InfluxDbExporter : Type 0 where
  pub host : List ℕ
  pub port : ℕ
  pub org : List ℕ
  pub bucket : List ℕ
  pub api_token : List ℕ

module _ (m : Memchr) (is_utf8 : List ℕ → Bool) (parse_u16 : List ℕ → Option ℕ)
    (formatter : Formatter) {K C E : Type 0} (network : Network K C E) where
  abbrev pub Run : Type 0
  Run = M (HttpClient K) (HttpClientError C E) (Unit {0})

  -- The `for` loop of `export_by_sensor`.
  unfoldable pub community_values : SensorCommunitySensor → ℕ → List SensorValuePoint → Run
  community_values sensor exported_count [] = pure tt
  community_values sensor exported_count (value ∷ values) =
      let skip = community_values sensor exported_count values in
      let export =
        write_value_to_body b',' (community_value formatter value.value) (exported_count == 0)
        >> community_values sensor (suc exported_count) values in
      if supports_value sensor value.value then export else skip

  -- The status of the response only goes to the log.
  unfoldable pub export_by_sensor : ℕ → SensorCommunitySensor → List SensorValuePoint → Run
  export_by_sensor fuel sensor values =
      let sent =
        request network post (codes "api.sensor.community") 80 (codes "/v1/push-sensor-data/")
        >> (header network (codes "Content-Type") (codes "application/json")
            >> (header network (codes "User-Agent") (codes "NRZ-2021-134-B4-ESP32/4123/4123")
                >> (header network (codes "X-Sensor") (codes "esp32-32344")
                    >> (header network (codes "X-Pin")
                          (formatter.format 10 (formatter.decimal (pin sensor) ∷ []))
                        >> (extend_from_slice (codes "{\"sensordatavalues\":[")
                            >> (community_values sensor 0 values
                                >> (extend_from_slice (codes "]}")
                                    >> (finish network m is_utf8 parse_u16 formatter fuel
                                        >> pure tt)))))))) in
      if length (filter_supported sensor values) == 0 then pure tt else sent

  unfoldable pub export_community : ℕ → List SensorValuePoint → Run
  export_community fuel values =
      export_by_sensor fuel particulate_matter values
      >> export_by_sensor fuel temperature_pressure values

  unfoldable pub influx_values : ℕ → List SensorValuePoint → Run
  influx_values exported_count [] = pure tt
  influx_values exported_count (value ∷ values) =
      write_value_to_body b'\n' (influx_value formatter value.value) (exported_count == 0)
      >> influx_values (suc exported_count) values

  unfoldable pub export_influx : ℕ → InfluxDbExporter → List SensorValuePoint → Run
  export_influx fuel exporter [] = pure tt
  export_influx fuel exporter (value ∷ values) =
      request network post exporter.host exporter.port (
        formatter.format 100 (
          codes "/api/v2/write?org="
          ∷ exporter.org
          ∷ codes "&bucket="
          ∷ exporter.bucket
          ∷ codes "&precision=s"
          ∷ []))
      >> (header network (codes "Content-Type") (codes "text/plain")
          >> (header network (codes "Authorization")
                (formatter.format 100 (codes "Token " ∷ exporter.api_token ∷ []))
              >> (influx_values 0 (value ∷ values)
                  >> (finish network m is_utf8 parse_u16 formatter fuel >> pure tt))))

  -- An exporter's error is logged, and the next one goes on.
  abbrev pub logged :
      Outcome (HttpClient K) (HttpClientError C E) (Unit {0})
      → Outcome (HttpClient K) (HttpClientError C E) (Unit {0})
  logged (err e c) = ok tt c
  logged (ok a c) = ok tt c
  logged panic = panic
  logged pending = pending

  -- The exporter of the configuration, if it has a host.
  unfoldable pub export_to_all : ℕ → Option InfluxDbExporter → List SensorValuePoint → Run
  export_to_all fuel none values c = logged (export_community fuel values c)
  export_to_all fuel (some exporter) values c =
      bind (logged (export_community fuel values c))
        (λ _ c'. logged (export_influx fuel exporter values c'))
