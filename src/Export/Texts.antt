-- ===== src/Export/Texts.antt =====
-- What the requests of gateway-board/src/export.rs say, as texts.
use sensor_sensei.Common.{ℕ, List, ◌++◌}
use mathlib.Core.List.{map}
use sensor_sensei.Common.Bytes.{codes}
use sensor_sensei.App.Packet.{SensorValuePoint}
use sensor_sensei.Web.Http.{post}
use sensor_sensei.Web.Client.{Formatter}
use sensor_sensei.Web.Client.Sent.{header_text, request_line}
use sensor_sensei.Web.Client.Finish.{body_text}
use sensor_sensei.Export.{
  SensorCommunitySensor, pin, filter_supported, community_value, influx_value, InfluxDbExporter,
}
use sensor_sensei.Export.Bodies.{separated}

-- The measurements that the sensor supports, as JSON.
abbrev pub community_json : Formatter → SensorCommunitySensor → List SensorValuePoint → List ℕ
community_json formatter sensor values =
    codes "{\"sensordatavalues\":["
    ++ (separated b','
          (map (λ v. community_value formatter v.value) (filter_supported sensor values))
        ++ codes "]}")

abbrev pub community_text : Formatter → SensorCommunitySensor → List SensorValuePoint → List ℕ
community_text formatter sensor values =
    request_line post (codes "api.sensor.community") (codes "/v1/push-sensor-data/")
    ++ (header_text (codes "Content-Type") (codes "application/json")
        ++ (header_text (codes "User-Agent") (codes "NRZ-2021-134-B4-ESP32/4123/4123")
            ++ (header_text (codes "X-Sensor") (codes "esp32-32344")
                ++ (header_text (codes "X-Pin") (formatter.decimal (pin sensor))
                    ++ body_text formatter (community_json formatter sensor values)))))

-- One line for each value.
abbrev pub influx_lines : Formatter → List SensorValuePoint → List ℕ
influx_lines formatter values = separated b'\n' (map (λ v. influx_value formatter v.value) values)

abbrev pub influx_text : Formatter → InfluxDbExporter → List SensorValuePoint → List ℕ
influx_text formatter exporter values =
    request_line post exporter.host (
      codes "/api/v2/write?org="
      ++ (exporter.org ++ (codes "&bucket=" ++ (exporter.bucket ++ codes "&precision=s"))))
    ++ (header_text (codes "Content-Type") (codes "text/plain")
        ++ (header_text (codes "Authorization") (codes "Token " ++ exporter.api_token)
            ++ body_text formatter (influx_lines formatter values)))
