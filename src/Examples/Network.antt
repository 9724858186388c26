-- ===== src/Examples/Network.antt =====
-- A network in memory with a server that answers, and the requests of the exporters on it.
use sensor_sensei.Common.{
  ℕ, zero, suc, ◌+◌, ◌≤◌, ◌<◌, ◌^◌, ◌==◌, ◌||◌, ◌%◌, Bool, true, List, [], ◌∷◌, ◌++◌, Option, none,
  some, length, take, drop, concat, All, length-take, take-append-drop, ◌≡◌, ◌≢◌, refl, sym, arith,
}
use sensor_sensei.Common.Bytes.{codes}
use sensor_sensei.Common.Outcome.{ok, pending, Ended}
use sensor_sensei.Util.Memchr.{first_index}
use sensor_sensei.Examples.Memchr.{searches, searches-IsMemchr}
use sensor_sensei.App.Packet.{SensorValuePoint, temperature, air_quality, unknown}
use sensor_sensei.Web.Client.{Network, Formatter, HttpClient, line_loop, finish}
use sensor_sensei.Web.Client.Sent.{IsNetwork, Sends, opened}
use sensor_sensei.Web.Client.Response.{is_eol}
use sensor_sensei.Web.Client.Exchange.{IsFormatter}
use sensor_sensei.Web.Client.Finish.{body_text, HasStatus, finish-Sends}
use sensor_sensei.Web.Client.Closed.{line_loop-closed}
use sensor_sensei.Export.{
  particulate_matter, temperature_pressure, InfluxDbExporter, export_by_sensor, export_influx,
  export_to_all, filter_supported, supports_value, community_value, influx_value,
}
use sensor_sensei.Export.Collected.{collect_all, collect_all-whole}
use sensor_sensei.Export.Texts.{community_json, community_text, influx_lines, influx_text}
use sensor_sensei.Export.Requests.{export_by_sensor-Sends, export_influx-Sends}
use sensor_sensei.Export.Rounds.{export_to_all-ok}

-- The connections opened with the bytes written on them, and the bytes that come.
record Net : Type 0 where
  written : List ℕ
  answer : List ℕ

abbrev written_on : Net → List ℕ
written_on k = k.written

abbrev answer_on : Net → List ℕ
answer_on k = k.answer

abbrev no_content : List ℕ
no_content = codes "HTTP/1.0 204 No Content\r\n"

abbrev net : Network Net ℕ ℕ
net = record {
  dns_query = λ host k. ok (1 ∷ []) k;
  new_socket = λ k. ok tt k;
  tcp_connect =
      λ address port k. ok tt (record { written = k.written ++ opened port; answer = [] });
  socket = record {
    read = λ size k. ok (take size k.answer) (record k { answer = drop size k.answer });
    write_all = λ bytes k. ok tt (record k { written = k.written ++ bytes });
  };
  flush = λ k. ok tt (record k { answer = no_content });
}

line_ends : first_index (λ b. b == b'\r' || b == b'\n') (take 128 no_content) ≡ some 23
unfolding first_index
line_ends = refl

taken_empty : (size : ℕ) (answer : List ℕ) → 0 < size → take size answer ≡ [] → answer ≡ []
taken_empty zero answer some_size e = absurd (omega arith)
taken_empty (suc size) [] some_size e = refl
taken_empty (suc size) (b ∷ bs) some_size e = cc

net-IsNetwork : IsNetwork net written_on answer_on 100
net-IsNetwork = record {
  reply = λ done. no_content;
  dns_lem = λ host k. ((λ none_found. cc), refl);
  new_lem = λ k. refl;
  connect_lem = λ address port k. refl;
  write_lem = λ bytes k. refl;
  flush_lem = λ k. (refl, refl, ((23, line_ends), omega arith));
  read_lem = λ size k some_size. (
    refl,
    sym (take-append-drop size k.answer),
    omega (arith, length-take size k.answer),
    taken_empty size k.answer some_size,
  );
}

-- Numbers by their last digit alone.
abbrev last_digits : Formatter
last_digits = record {
  format = λ capacity pieces. concat pieces;
  decimal = λ n. (48 + n % 10) ∷ [];
  float = λ v. (48 + v % 10) ∷ [];
}

last_digits-IsFormatter : IsFormatter last_digits
last_digits-IsFormatter = record {
  format_lem = λ capacity pieces fits. refl;
  decimal_short = λ digits n small some_digit. omega arith;
}

abbrev any_text : List ℕ → Bool
any_text bytes = true

abbrev always_204 : List ℕ → Option ℕ
always_204 bytes = some 204

abbrev measured : List SensorValuePoint
measured =
    record { value = temperature 5; time_offset = 0 }
    ∷ record { value = air_quality 6; time_offset = 0 }
    ∷ record { value = unknown 9 1; time_offset = 0 }
    ∷ []

abbrev client : HttpClient Net
client = record { stack = record { written = []; answer = [] }; body_buf = codes "body" }

finish-Sends_example :
    Ended
      (λ status c'.
        (c'.stack.written ≡ body_text last_digits (codes "body"))
        × HasStatus always_204 no_content status)
      (finish net searches any_text always_204 last_digits 200 client)
unfolding net-IsNetwork
finish-Sends_example =
    finish-Sends searches searches-IsMemchr any_text always_204 last_digits last_digits-IsFormatter
      net written_on answer_on 100 net-IsNetwork 200 client (omega arith) (omega arith)
      (omega arith)

-- A connection at its end.
abbrev closed : Network Net ℕ ℕ
closed = record net { socket = record { read = λ size k. ok [] k; write_all = λ bytes k. ok tt k } }

no_end : first_index is_eol (codes "HTTP/1.0 200") ≡ none
unfolding first_index
no_end = refl

line_loop-closed_example :
    line_loop closed searches any_text always_204 1000 (codes "HTTP/1.0 200") client ≡ pending
line_loop-closed_example =
    line_loop-closed searches searches-IsMemchr any_text always_204 closed 1000
      (codes "HTTP/1.0 200") client (λ size. refl) no_end (omega arith)

dust_supported : filter_supported particulate_matter measured ≢ []
unfolding supports_value
dust_supported e = cc

dust_short : length (community_json last_digits particulate_matter measured) < 10 ^ 10
unfolding supports_value community_value
dust_short = omega arith

temperature_short : length (community_json last_digits temperature_pressure measured) < 10 ^ 10
unfolding supports_value community_value
temperature_short = omega arith

lines_short : length (influx_lines last_digits measured) < 10 ^ 10
unfolding influx_value
lines_short = omega arith

abbrev database : InfluxDbExporter
database = record {
  host = codes "db";
  port = 8086;
  org = codes "org";
  bucket = codes "bucket";
  api_token = codes "token";
}

export_by_sensor-Sends_example :
    Ended
      (λ _ c'.
        Sends written_on client
          (opened 80 ++ community_text last_digits particulate_matter measured)
          (λ _. Unit)
          c')
      (export_by_sensor searches any_text always_204 last_digits net 200 particulate_matter measured
        client)
export_by_sensor-Sends_example =
    export_by_sensor-Sends searches searches-IsMemchr any_text always_204 last_digits
      last_digits-IsFormatter net written_on answer_on 100 net-IsNetwork 200 (omega arith)
      (omega arith) particulate_matter measured client dust_supported dust_short

export_influx-Sends_example :
    Ended
      (λ _ c'.
        Sends written_on client
          (opened 8086 ++ influx_text last_digits database measured)
          (λ _. Unit)
          c')
      (export_influx searches any_text always_204 last_digits net 200 database measured client)
export_influx-Sends_example =
    export_influx-Sends searches searches-IsMemchr any_text always_204 last_digits
      last_digits-IsFormatter net written_on answer_on 100 net-IsNetwork 200 (omega arith)
      (omega arith) database (record { value = temperature 5; time_offset = 0 })
      (record { value = air_quality 6; time_offset = 0 }
        ∷ record { value = unknown 9 1; time_offset = 0 }
        ∷ [])
      client (omega arith) (omega arith) lines_short

export_to_all-ok_example :
    (c' : HttpClient Net) × (export_to_all searches any_text always_204 last_digits net 200
        (some database)
        measured
        client
      ≡ ok tt c')
export_to_all-ok_example =
    export_to_all-ok searches searches-IsMemchr any_text always_204 last_digits
      last_digits-IsFormatter net written_on answer_on 100 net-IsNetwork 200 (omega arith)
      (omega arith) (some database) measured client dust_short temperature_short
      (omega arith, omega arith, lines_short)

collect_all-whole_example :
    (concat (collect_all 2 3 measured) ≡ measured)
    × All (λ values. (0 < length values) × (length values ≤ 2)) (collect_all 2 3 measured)
collect_all-whole_example = collect_all-whole 1 3 measured (omega arith)
