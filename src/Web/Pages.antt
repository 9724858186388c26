-- ===== src/Web/Pages.antt =====
-- The texts of the pages in gateway-board/src/net/http/api.rs.
use sensor_sensei.Common.{ℕ, List, [], ◌∷◌, concat}
use sensor_sensei.Common.Bytes.{codes}

unfoldable pub form_page_1 : List ℕ
form_page_1 = concat (
    codes "HTTP/1.0 200 OK\r\n"
    ∷ codes "Connection: close\r\n"
    ∷ codes "\r\n"
    ∷ codes "<!DOCTYPE html>\n"
    ∷ codes "<html lang=\"en\">\n"
    ∷ codes "<head>\n"
    ∷ codes "<title>Gateway Board Configuration</title>\n"
    ∷ codes "<meta name=\"viewport\" content=\"width=device-width,initial-scale=1\">\n"
    ∷ codes "<style>\n"
    ∷ codes "body {\n"
    ∷ codes "font-family: Arial, Helvetica, sans-serif;\n"
    ∷ codes "}\n"
    ∷ codes "#gw-config {\n"
    ∷ codes "display: flex; flex-direction: column; gap: 0.5em; max-width: 400px;\n"
    ∷ codes "}\n"
    ∷ codes "#gw-config label {\n"
    ∷ codes "font-weight: bold;\n"
    ∷ codes "}\n"
    ∷ codes "</style>\n"
    ∷ codes "</head>\n"
    ∷ codes "<body>\n"
    ∷ codes "<h1>Gateway Board Configuration</h1>\n"
    ∷ codes "<form method=\"post\" id=\"gw-config\">\n"
    ∷ codes "<input type=\"hidden\" name=\"csrf_token\" value=\""
    ∷ [])

unfoldable pub form_page_2 : List ℕ
form_page_2 = concat (
    codes "\">\n"
    ∷ codes "<label for=\"wifi_sta_ssid\">WiFi external access point SSID</label>\n"
    ∷ codes "<input type=\"text\" name=\"wifi_sta_ssid\" placeholder=\"WiFi SSID\" value=\""
    ∷ [])

unfoldable pub form_page_3 : List ℕ
form_page_3 = concat (
    codes "\" required>\n"
    ∷ codes "<label for=\"wifi_sta_password\">WiFi external access point password</label>\n"
    ∷ codes "<input type=\"password\" name=\"wifi_sta_password\" placeholder=\"WiFi Password\""
    ∷ codes " value=\"(_unchanged_)\" required>\n"
    ∷ codes "<label for=\"wifi_sta_ssid\">WiFi internal access point SSID</label>\n"
    ∷ codes "<input type=\"text\" name=\"wifi_ap_ssid\" placeholder=\"WiFi AP SSID\" value=\""
    ∷ [])

unfoldable pub form_page_4 : List ℕ
form_page_4 = concat (
    codes "\" required>\n"
    ∷ codes "<label for=\"dns_server_1\">Primary DNS server</label>\n"
    ∷ codes "<input type=\"text\" name=\"dns_server_1\" placeholder=\"1.1.1.1\" value=\""
    ∷ [])

unfoldable pub form_page_5 : List ℕ
form_page_5 = codes "\" required>"

unfoldable pub form_page_6 : List ℕ
form_page_6 = concat (
    codes "<label for=\"dns_server_2\">Secondary DNS server</label>\n"
    ∷ codes "<input type=\"text\" name=\"dns_server_2\" placeholder=\"1.0.0.1\" value=\""
    ∷ [])

unfoldable pub form_page_7 : List ℕ
form_page_7 = concat (
    codes "\" required>\n"
    ∷ codes "<label for=\"influx_db_host\">InfluxDB host</label>\n"
    ∷ codes "<input type=\"text\" name=\"influx_db_host\" placeholder=\"host\" value=\""
    ∷ [])

unfoldable pub form_page_8 : List ℕ
form_page_8 = codes "\">"

unfoldable pub form_page_9 : List ℕ
form_page_9 = concat (
    codes "<label for=\"influx_db_port\">InfluxDB port</label>\n"
    ∷ codes "<input type=\"number\" name=\"influx_db_port\" placeholder=\"8086\" value=\""
    ∷ [])

unfoldable pub form_page_10 : List ℕ
form_page_10 = concat (
    codes "\">\n"
    ∷ codes "<button type=\"submit\" name=\"action\" value=\"apply\">Apply</button>\n"
    ∷ codes "<button type=\"submit\" name=\"action\" value=\"save-reboot\">Save & Reboot</but"
    ∷ codes "ton>\n"
    ∷ codes "</form>\n"
    ∷ codes "</body>"
    ∷ [])

unfoldable pub processing_page : List ℕ
processing_page = concat (
    codes "HTTP/1.0 202 Accepted\r\n"
    ∷ codes "Refresh: 2, /\r\n"
    ∷ codes "Connection: close\r\n"
    ∷ codes "\r\n"
    ∷ codes "<!DOCTYPE html>\n"
    ∷ codes "<html lang=\"en\">\n"
    ∷ codes "<head>\n"
    ∷ codes "<title>Processing request...</title>\n"
    ∷ codes "<meta name=\"viewport\" content=\"width=device-width,initial-scale=1\">\n"
    ∷ codes "</head>\n"
    ∷ codes "<body>\n"
    ∷ codes "<h1>Processing request...</h1>\n"
    ∷ codes "<p>Please wait a few seconds.</p>\n"
    ∷ codes "</body>"
    ∷ [])

unfoldable pub reboot_page : List ℕ
reboot_page = concat (
    codes "HTTP/1.0 202 Accepted\r\n"
    ∷ codes "Refresh: 10, /\r\n"
    ∷ codes "Connection: close\r\n"
    ∷ codes "\r\n"
    ∷ codes "<!DOCTYPE html>\n"
    ∷ codes "<html lang=\"en\">\n"
    ∷ codes "<head>\n"
    ∷ codes "<title>Gateway rebooting...</title>\n"
    ∷ codes "<meta name=\"viewport\" content=\"width=device-width,initial-scale=1\">\n"
    ∷ codes "</head>\n"
    ∷ codes "<body>\n"
    ∷ codes "<h1>Gateway Board is rebooting...</h1>\n"
    ∷ codes "<p>Please wait a few seconds for the system to come back online.</p>\n"
    ∷ codes "</body>"
    ∷ [])
