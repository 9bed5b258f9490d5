-- ===== src/Graph/Locations.antt =====
-- internal/graph/location.resolvers.go.
use filmstund.Base.{List, [], ◌∷◌}
use filmstund.Base.Text.{Text, bytes, utf8}
use filmstund.Database.{Action, pool, exec, or_return}
use filmstund.Dao.Locations.{previously_used_locations}

pub data LocationError : Type 0 where
  lookup_locations_failed : LocationError

-- `queryResolver.PreviouslyUsedLocations`; `grouped` is the order of the server's groups.
unfoldable pub used_locations : (List Text → List Text) → Action LocationError (List Text)
used_locations grouped =
    or_return (exec pool (previously_used_locations grouped)) lookup_locations_failed

-- `FilmstadenCityAlias` of internal/graph/model.
pub record FilmstadenCityAlias : Type 0 where
  pub name : Text
  pub alias : Text

abbrev city : Text → Text → FilmstadenCityAlias
city name alias = record { name = name; alias = alias }

-- `queryResolver.FilmstadenCities`
unfoldable pub filmstaden_cities : List FilmstadenCityAlias
filmstaden_cities =
    city (utf8 "Alingsås") (bytes "AL")
    ∷ city (utf8 "Borås") (bytes "BS")
    ∷ city (utf8 "Borlänge") (bytes "BO")
    ∷ city (utf8 "Eskilstuna") (bytes "EA")
    ∷ city (utf8 "Falun") (bytes "FN")
    ∷ city (utf8 "Gävle") (bytes "GA")
    ∷ city (utf8 "Göteborg") (bytes "GB")
    ∷ city (utf8 "Halmstad") (bytes "HD")
    ∷ city (utf8 "Härnösand") (bytes "HS")
    ∷ city (utf8 "Helsingborg") (bytes "HE")
    ∷ city (utf8 "Höllviken") (bytes "HV")
    ∷ city (utf8 "Hudiksvall") (bytes "HL")
    ∷ city (utf8 "Jönköping") (bytes "JO")
    ∷ city (utf8 "Kalmar") (bytes "KL")
    ∷ city (utf8 "Karlskrona") (bytes "KK")
    ∷ city (utf8 "Karlstad") (bytes "KA")
    ∷ city (utf8 "Katrineholm") (bytes "KM")
    ∷ city (utf8 "Köping") (bytes "KP")
    ∷ city (utf8 "Kristianstad") (bytes "KD")
    ∷ city (utf8 "Kungsbacka") (bytes "KB")
    ∷ city (utf8 "Landskrona") (bytes "LK")
    ∷ city (utf8 "Linköping") (bytes "LI")
    ∷ city (utf8 "Luleå") (bytes "LU")
    ∷ city (utf8 "Lund") (bytes "LD")
    ∷ city (utf8 "Malmö") (bytes "MA")
    ∷ city (utf8 "Mariestad") (bytes "MD")
    ∷ city (utf8 "Mjölby") (bytes "MJ")
    ∷ city (utf8 "Mora") (bytes "MR")
    ∷ city (utf8 "Motala") (bytes "ML")
    ∷ city (utf8 "Norrköping") (bytes "NO")
    ∷ city (utf8 "Norrtälje") (bytes "NT")
    ∷ city (utf8 "Nyköping") (bytes "NG")
    ∷ city (utf8 "Örebro") (bytes "OR")
    ∷ city (utf8 "Örnsköldsvik") (bytes "OK")
    ∷ city (utf8 "Östersund") (bytes "OS")
    ∷ city (utf8 "Sälen") (bytes "SN")
    ∷ city (utf8 "Skara") (bytes "SA")
    ∷ city (utf8 "Skellefteå") (bytes "ST")
    ∷ city (utf8 "Skövde") (bytes "SK")
    ∷ city (utf8 "Söderhamn") (bytes "SH")
    ∷ city (utf8 "Stockholm") (bytes "SE")
    ∷ city (utf8 "Strängnäs") (bytes "SS")
    ∷ city (utf8 "Trelleborg") (bytes "TR")
    ∷ city (utf8 "Uddevalla") (bytes "UD")
    ∷ city (utf8 "Umeå") (bytes "UM")
    ∷ city (utf8 "Uppsala") (bytes "UP")
    ∷ city (utf8 "Vänersborg") (bytes "VG")
    ∷ city (utf8 "Varberg") (bytes "VB")
    ∷ city (utf8 "Värnamo") (bytes "VR")
    ∷ city (utf8 "Västerås") (bytes "VA")
    ∷ city (utf8 "Västervik") (bytes "VS")
    ∷ city (utf8 "Växjö") (bytes "VO")
    ∷ city (utf8 "Vetlanda") (bytes "VL")
    ∷ city (utf8 "Visby") (bytes "VY")
    ∷ city (utf8 "Ystad") (bytes "YD")
    ∷ []
