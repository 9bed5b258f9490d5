-- ===== src/Tests/Settings.antt =====
-- The settings of the connection to the database, and dates, at concrete inputs.
use filmstund.Base.{◌≡◌, ◌↔◌, ◌<◌, refl, true, none, some, [], ◌∷◌}
use filmstund.Base.Int.{pos}
use filmstund.Base.Text.{bytes}
use filmstund.Database.{ok}
use filmstund.Database.Config.{Config, duration_string, dsn_map, connection_string}
use filmstund.Database.Config.Reading.{settings_of, settings_of-connection_string}
use filmstund.Graph.Scalars.Dates.{
  Date, date_text, is_day, unmarshal_local_date, string, parse_date, parse_time,
}
use filmstund.Graph.Scalars.Dates.Formats.{unmarshal_local_date_iff}

-- With the defaults, and some of the optional settings.
abbrev settings : Config
settings = record {
  hostname = bytes "localhost";
  port = pos 5432;
  database = bytes "filmstund";
  username = bytes "filmstund";
  password = bytes "secret";
  ssl_mode = bytes "prefer";
  connect_timeout = pos 0;
  pool_min_connections = pos 0;
  pool_max_connections = pos 10;
  pool_max_conn_lifetime = pos 5400000000000;
  pool_max_conn_idle_time = pos 1500000;
  pool_health_check_period = pos 0;
}

settings_of-connection_string_example :
    settings_of (connection_string (λ m. m) (some settings)) ≡ dsn_map (some settings)
settings_of-connection_string_example =
    settings_of-connection_string (λ m. m) settings (record { at = λ p m. refl })
      (refl, refl, refl, refl, refl)

lifetime_text : duration_string 5400000000000 ≡ bytes "1h30m0s"
unfolding duration_string
lifetime_text = refl

idle_text : duration_string 1500000 ≡ bytes "1.5ms"
unfolding duration_string
idle_text = refl

-- A password with a space sets another host, too.
abbrev injected : Config
injected = record settings {
  hostname = [];
  port = pos 0;
  database = [];
  username = [];
  password = bytes "a host=elsewhere";
  ssl_mode = [];
  pool_max_connections = pos 0;
  pool_max_conn_lifetime = pos 0;
  pool_max_conn_idle_time = pos 0;
}

injected_settings :
    settings_of (connection_string (λ m. m) (some injected))
    ≡ (bytes "password", bytes "a") ∷ (bytes "host", bytes "elsewhere") ∷ []
unfolding settings_of connection_string
injected_settings = refl

abbrev leap_day : Date
leap_day = record { year = 2024; month = 2; day = 29 }

unmarshal_local_date_iff_example :
    (unmarshal_local_date (string (bytes "2024-02-29")) ≡ ok leap_day) ↔ (
      (date_text leap_day ≡ bytes "2024-02-29")
      × (is_day leap_day ≡ true)
      × (leap_day.year < 10000))
unmarshal_local_date_iff_example = unmarshal_local_date_iff (bytes "2024-02-29") leap_day

no_leap_day : parse_date (bytes "2023-02-29") ≡ none
unfolding parse_date
no_leap_day = refl

short_hour : parse_time (bytes "9:05") ≡ some (record { hour = 9; minute = 5 })
unfolding parse_time
short_hour = refl
