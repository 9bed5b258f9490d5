-- ===== src/Database/Config/Reading.antt =====
-- What a reader of the connection string (internal/database/config.go) sees.
use filmstund.Base.{
  ℕ, zero, suc, ◌/◌, ◌%◌, ◌^◌, ◌≡◌, refl, ◌∙◌, ap, Bool, true, false, ◌||◌, not, some, List, [],
  ◌∷◌, ◌++◌, map, nat_eq, if◌then◌else◌, All, count, select, texts, ◌==◌, any-append, arith,
}
use filmstund.Base.Int.{ℤ, pos, negsuc}
use filmstund.Base.Text.{Text}
use filmstund.Base.Maps.{GoMap, put, VisitsEach}
use filmstund.Base.Splitting.{join, split_at, has_byte, IsPart, split_at-join}
use filmstund.Currency.Decimal.{decimal, is_digit, decimal-digits}
use filmstund.Database.Config.{
  Config, fraction, with_fraction, duration_string, set_unless_blank, set_if_positive,
  set_if_positive_dur, dsn_map, space, equals, key_val, join_together, connection_string,
}

-- A setting as it is written, read up to its first `=`.
unfoldable pub key_and_value : Text → Text × Text
key_and_value [] = ([], [])
key_and_value (c ∷ t) =
    let rest = key_and_value t in if nat_eq c equals then ([], t) else (c ∷ rest.0, rest.1)

-- The settings of a connection string in which nothing is quoted: words between single spaces.
unfoldable pub settings_of : Text → List (Text × Text)
unfolding key_and_value split_at
settings_of [] = []
settings_of (c ∷ t) = map key_and_value (split_at space (c ∷ t))

key_and_value-key_val : (k v : Text) → IsPart equals k → key_and_value (key_val (k, v)) ≡ (k, v)
unfolding key_and_value
key_and_value-key_val [] v h = refl
key_and_value-key_val (c ∷ k) v h = ground (arith, key_and_value-key_val k v)

-- No texts of the configuration contain a space.
abbrev pub HasNoSpaces : Config → Type 0
HasNoSpaces c =
    (has_byte space c.username ≡ false)
    × (has_byte space c.password ≡ false)
    × (has_byte space c.hostname ≡ false)
    × (has_byte space c.database ≡ false)
    × (has_byte space c.ssl_mode ≡ false)

-- What would be read as something else.
abbrev is_torn : Text × Text → Bool
is_torn e = has_byte equals e.0 || (has_byte space e.0 || has_byte space e.1)

written : (ms : List (Text × Text)) → count is_torn ms ≡ 0 → All (IsPart space) (map key_val ms)
written [] h = tt
written ((k, v) ∷ ms) h =
    (ground (arith, any-append (λ c. nat_eq c space) k (equals ∷ v)), written ms (ground arith))

read_back :
    (ms : List (Text × Text)) → count is_torn ms ≡ 0 → map key_and_value (map key_val ms) ≡ ms
read_back [] h = refl
read_back ((k, v) ∷ ms) h =
    let here : key_and_value (key_val (k, v)) ≡ (k, v) = key_and_value-key_val k v (ground arith) in
    let there : map key_and_value (map key_val ms) ≡ ms = read_back ms (ground arith) in
    rw (here, there) refl

settings_of-started :
    (c : ℕ) (t u : Text) → u ≡ c ∷ t → settings_of u ≡ map key_and_value (split_at space u)
unfolding settings_of
settings_of-started c t u e = rw e refl

joined-started :
    (k v : Text) (ms : List (Text × Text))
    → (c : ℕ) × (t : Text) × (join space (map key_val ((k, v) ∷ ms)) ≡ c ∷ t)
unfolding join
joined-started [] v [] = (equals, v, refl)
joined-started (c ∷ k) v [] = (c, key_val (k, v), refl)
joined-started [] v (n ∷ ms) = (equals, v ++ space ∷ join space (map key_val (n ∷ ms)), refl)
joined-started (c ∷ k) v (n ∷ ms) =
    (c, key_val (k, v) ++ space ∷ join space (map key_val (n ∷ ms)), refl)

settings_of-join :
    (ms : List (Text × Text))
    → count is_torn ms ≡ 0
    → settings_of (join space (map key_val ms)) ≡ ms
unfolding settings_of join
settings_of-join [] h = refl
settings_of-join ((k, v) ∷ ms) h =
    let start = joined-started k v ms in
    settings_of-started start.0 start.1 (join space (map key_val ((k, v) ∷ ms))) start.2
    ∙ ap (map key_and_value)
        (split_at-join space (key_val (k, v)) (map key_val ms) (written ((k, v) ∷ ms) h))
    ∙ read_back ((k, v) ∷ ms) h

-- Go's maps keep what is whole.
dropped-whole :
    (q : Text × Text → Bool) (m : GoMap Text) → count is_torn m ≡ 0 → count is_torn (select q m) ≡ 0
dropped-whole q [] h = refl
dropped-whole q (e ∷ m) h = ground (arith, dropped-whole q m)

abbrev IsWhole : GoMap Text → Type 0
IsWhole m = count is_torn m ≡ 0

abbrev IsKey : Text → Type 0
IsKey k = (has_byte equals k || has_byte space k) ≡ false

put-IsWhole :
    (k v : Text) (m : GoMap Text)
    → IsKey k
    → has_byte space v ≡ false
    → IsWhole m
    → IsWhole (put k v m)
unfolding put
put-IsWhole k v m hk hv h = ground (arith, dropped-whole (λ (e : Text × Text). not (e.0 == k)) m)

set_unless_blank-IsWhole :
    (k v : Text) (m : GoMap Text)
    → IsKey k
    → has_byte space v ≡ false
    → IsWhole m
    → IsWhole (set_unless_blank k v m)
unfolding set_unless_blank
set_unless_blank-IsWhole k v m hk hv h = ground (arith, put-IsWhole k v m hk hv h)

digits-unspaced : (t : Text) → All (λ c. is_digit c ≡ true) t → has_byte space t ≡ false
digits-unspaced [] h = refl
digits-unspaced (c ∷ t) h = ground (arith, digits-unspaced t)

decimal-unspaced : (n : ℕ) → has_byte space (decimal n) ≡ false
decimal-unspaced n = digits-unspaced (decimal n) (decimal-digits n)

set_if_positive-IsWhole :
    (k : Text) (n : ℤ) (m : GoMap Text) → IsKey k → IsWhole m → IsWhole (set_if_positive k n m)
unfolding set_if_positive
set_if_positive-IsWhole k (pos zero) m hk h = h
set_if_positive-IsWhole k (pos (suc n)) m hk h =
    put-IsWhole k (decimal (suc n)) m hk (decimal-unspaced (suc n)) h
set_if_positive-IsWhole k (negsuc n) m hk h = h

fraction-unspaced : (places n : ℕ) → has_byte space (fraction places n) ≡ false
unfolding fraction
fraction-unspaced zero n = refl
fraction-unspaced (suc places) n = ground (arith, fraction-unspaced places (n % 10 ^ places))

append-unspaced :
    (t u : Text)
    → has_byte space t ≡ false
    → has_byte space u ≡ false
    → has_byte space (t ++ u) ≡ false
append-unspaced t u h k = ground (arith, any-append (λ c. nat_eq c space) t u)

with_fraction-unspaced : (places n : ℕ) → has_byte space (with_fraction places n) ≡ false
unfolding with_fraction
with_fraction-unspaced places n =
    append-unspaced (decimal (n / 10 ^ places)) _ (decimal-unspaced (n / 10 ^ places))
      (ground (arith, fraction-unspaced places (n % 10 ^ places)))

if-unspaced :
    (b : Bool) (t u : Text)
    → has_byte space t ≡ false
    → has_byte space u ≡ false
    → has_byte space (if b then t else u) ≡ false
if-unspaced true t u h k = h
if-unspaced false t u h k = k

duration_string-unspaced : (n : ℕ) → has_byte space (duration_string n) ≡ false
unfolding duration_string
duration_string-unspaced n =
    search (append-unspaced, if-unspaced, decimal-unspaced, with_fraction-unspaced) depth 12

set_if_positive_dur-IsWhole :
    (k : Text) (n : ℤ) (m : GoMap Text) → IsKey k → IsWhole m → IsWhole (set_if_positive_dur k n m)
unfolding set_if_positive_dur
set_if_positive_dur-IsWhole k (pos zero) m hk h = h
set_if_positive_dur-IsWhole k (pos (suc n)) m hk h =
    put-IsWhole k (duration_string (suc n)) m hk (duration_string-unspaced (suc n)) h
set_if_positive_dur-IsWhole k (negsuc n) m hk h = h

dsn_map-IsWhole : (c : Config) → HasNoSpaces c → IsWhole (dsn_map (some c))
unfolding dsn_map
dsn_map-IsWhole c h =
    search
      (
        set_if_positive_dur-IsWhole, set_if_positive-IsWhole, set_unless_blank-IsWhole, h.0, h.1,
        h.2, h.3, h.4,
      )
      depth 20

-- If no text of the configuration contains a space, the connection string, read word by word, has
-- the settings of dsnMap and no others, in the order in which Go visits them, whichever that is.
pub settings_of-connection_string :
    (range : GoMap Text → GoMap Text) (c : Config)
    → VisitsEach range
    → HasNoSpaces c
    → settings_of (connection_string range (some c)) ≡ range (dsn_map (some c))
unfolding connection_string join_together
settings_of-connection_string range c visits h =
    settings_of-join (range (dsn_map (some c)))
      (visits.at is_torn (dsn_map (some c)) ∙ dsn_map-IsWhole c h)
