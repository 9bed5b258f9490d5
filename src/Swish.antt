-- ===== src/Swish.antt =====
-- swish/uri.go: the links that open a payment in the Swish application.
use filmstund.Base.{ℕ, Bool, false, Option, none, some, ◌++◌, length, ltb, if◌then◌else◌}
use filmstund.Base.Int.{ℤ, pos, ltb_ℤ}
use filmstund.Base.Text.{Text, bytes}

pub record Data : Type 0 where
  pub version : ℕ
  pub payee : Text × Bool
  pub amount : ℤ × Bool
  pub message : Text × Bool

-- The packages encoding/json and net/url.
pub record Encoders : Type 0 where
  pub marshal : Data → Option Text
  pub path_escape : Text → Text

pub data Uri : Type 0 where
  uri : Text → Uri
  message_too_long amount_too_large amount_too_small marshal_failed : Uri

abbrev pub message_max_len : ℕ
message_max_len = 50

abbrev pub amount_max : ℤ
amount_max = pos 150000

abbrev pub amount_min : ℤ
amount_min = pos 1

abbrev pub start : Text
start = bytes "swish://payment?data="

-- `Data.URI`
unfoldable pub data_uri : Encoders → Data → Uri
data_uri encoders d = elim (encoders.marshal d) [
  | none ↦ marshal_failed
  | some json ↦ uri (start ++ encoders.path_escape json)
]

abbrev pub payment : Text → ℤ → Text → Data
payment payee amount message = record {
  version = 1;
  payee = (payee, false);
  amount = (amount, false);
  message = (message, false);
}

unfoldable pub format_uri : Encoders → Text → ℤ → Text → Uri
unfolding data_uri
format_uri encoders payee amount message =
    if ltb message_max_len (length message)
    then message_too_long
    else if ltb_ℤ amount_max amount
    then amount_too_large
    else if ltb_ℤ amount amount_min
    then amount_too_small
    else data_uri encoders (payment payee amount message)
