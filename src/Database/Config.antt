-- ===== src/Database/Config.antt =====
-- internal/database/config.go: the string with which the pool connects, e.g.
-- `user=jack password=secret host=pg.example.com`. The other string, for the migrations, is a URL and
-- is left out.
pub mod Reading
use filmstund.Base.{
  [], ℕ, zero, suc, ◌+◌, ◌/◌, ◌%◌, ◌^◌, Bool, true, false, ◌&&◌, ◌||◌, Option, none, some, ◌∷◌,
  ◌++◌, map, nat_eq, leb, ltb, if◌then◌else◌,
}
use filmstund.Base.Int.{ℤ, pos, negsuc}
use filmstund.Base.Text.{Text, bytes}
use filmstund.Base.Maps.{GoMap, put}
use filmstund.Base.Splitting.{join}
use filmstund.Currency.Decimal.{decimal, digit}

-- Durations are in nanoseconds.
pub record Config : Type 0 where
  pub hostname : Text
  pub port : ℤ
  pub database : Text
  pub username : Text
  pub password : Text
  pub ssl_mode : Text
  pub connect_timeout : ℤ
  pub pool_min_connections : ℤ
  pub pool_max_connections : ℤ
  pub pool_max_conn_lifetime : ℤ
  pub pool_max_conn_idle_time : ℤ
  pub pool_health_check_period : ℤ

-- How much of a code point in UTF-8 has been read.
pub data Seen : Type 0 where
  nothing : Seen
  one : ℕ → Seen
  two : ℕ → ℕ → Seen

abbrev between : ℕ → ℕ → ℕ → Bool
between a b c = leb a c && leb c b

-- `unicode.IsSpace`: the last byte of a space that has been read up to it.
unfoldable pub ends_space : Seen → ℕ → Bool
ends_space nothing c = between 9 13 c || nat_eq c 32
ends_space (one a) c = nat_eq a 194 && (nat_eq c 133 || nat_eq c 160)
ends_space (two a b) c =
    (nat_eq a 225 && nat_eq b 154 && nat_eq c 128)
    || ((nat_eq a 226
          && ((nat_eq b 128 && (between 128 138 c || between 168 169 c || nat_eq c 175))
              || (nat_eq b 129 && nat_eq c 159)))
        || (nat_eq a 227 && nat_eq b 128 && nat_eq c 128))

abbrev read_more : Seen → ℕ → Option Seen
read_more nothing c = some (one c)
read_more (one a) c = some (two a c)
read_more (two a b) c = none

unfoldable pub spaces_from : Seen → Text → Bool
unfolding ends_space
spaces_from nothing [] = true
spaces_from (one a) [] = false
spaces_from (two a b) [] = false
spaces_from seen (c ∷ t) = elim (if ends_space seen c then some nothing else read_more seen c) [
  | none ↦ false
  | some next ↦ spaces_from next t
]

-- `strings.TrimSpace(val) == ""`
unfoldable pub is_all_space : Text → Bool
unfolding spaces_from
is_all_space t = spaces_from nothing t

-- The fraction n / 10 ^ places, without the zeros at its end.
unfoldable pub fraction : ℕ → ℕ → Text
fraction zero n = []
fraction (suc places) n =
    let rest = fraction places (n % 10 ^ places) in
    if nat_eq n 0 then [] else digit (n / 10 ^ places) ∷ rest

-- A number of units, with a fraction of so many places.
unfoldable pub with_fraction : ℕ → ℕ → Text
unfolding decimal fraction
with_fraction places n =
    decimal (n / 10 ^ places)
    ++ (if nat_eq (n % 10 ^ places) 0 then [] else bytes "." ++ fraction places (n % 10 ^ places))

-- `String` of a duration that is positive.
unfoldable pub duration_string : ℕ → Text
unfolding decimal with_fraction
duration_string n =
    let minutes = n / 60000000000 in
    let hours = minutes / 60 in
    if ltb n 1000
    then decimal n ++ bytes "ns"
    else if ltb n 1000000
    then with_fraction 3 n ++ (194 ∷ 181 ∷ bytes "s")
    else if ltb n 1000000000
    then with_fraction 6 n ++ bytes "ms"
    else (if nat_eq hours 0 then [] else decimal hours ++ bytes "h")
      ++ (if nat_eq minutes 0 then [] else decimal (minutes % 60) ++ bytes "m")
      ++ with_fraction 9 (n % 60000000000)
      ++ bytes "s"

unfoldable pub set_unless_blank : Text → Text → GoMap Text → GoMap Text
unfolding is_all_space put
set_unless_blank key val dsn = if is_all_space val then dsn else put key val dsn

unfoldable pub set_if_positive : Text → ℤ → GoMap Text → GoMap Text
unfolding decimal put
set_if_positive key (pos zero) dsn = dsn
set_if_positive key (pos (suc n)) dsn = put key (decimal (suc n)) dsn
set_if_positive key (negsuc n) dsn = dsn

unfoldable pub set_if_positive_dur : Text → ℤ → GoMap Text → GoMap Text
unfolding duration_string put
set_if_positive_dur key (pos zero) dsn = dsn
set_if_positive_dur key (pos (suc n)) dsn = put key (duration_string (suc n)) dsn
set_if_positive_dur key (negsuc n) dsn = dsn

-- Of a configuration that may be nil.
unfoldable pub dsn_map : Option Config → GoMap Text
unfolding set_unless_blank set_if_positive set_if_positive_dur
dsn_map none = []
dsn_map (some c) =
    let dsn = set_unless_blank (bytes "user") c.username [] in
    let dsn = set_unless_blank (bytes "password") c.password dsn in
    let dsn = set_unless_blank (bytes "host") c.hostname dsn in
    let dsn = set_if_positive (bytes "port") c.port dsn in
    let dsn = set_unless_blank (bytes "dbname") c.database dsn in
    let dsn = set_unless_blank (bytes "sslmode") c.ssl_mode dsn in
    let dsn = set_if_positive (bytes "connect_timeout") c.connect_timeout dsn in
    let dsn = set_if_positive (bytes "pool_min_conns") c.pool_min_connections dsn in
    let dsn = set_if_positive (bytes "pool_max_conns") c.pool_max_connections dsn in
    let dsn = set_if_positive_dur (bytes "pool_max_conn_lifetime") c.pool_max_conn_lifetime dsn in
    let dsn = set_if_positive_dur (bytes "pool_max_conn_idle_time") c.pool_max_conn_idle_time dsn in
    set_if_positive_dur (bytes "pool_health_check_period") c.pool_health_check_period dsn

abbrev pub space : ℕ
space = 32

abbrev pub equals : ℕ
equals = 61

-- `fmt.Sprintf("%s=%s", key, val)`
abbrev pub key_val : Text × Text → Text
key_val e = e.0 ++ equals ∷ e.1

unfoldable pub join_together : (GoMap Text → GoMap Text) → GoMap Text → Text
unfolding join
join_together range dsn = join space (map key_val (range dsn))

unfoldable pub connection_string : (GoMap Text → GoMap Text) → Option Config → Text
unfolding dsn_map join_together
connection_string range c = join_together range (dsn_map c)
