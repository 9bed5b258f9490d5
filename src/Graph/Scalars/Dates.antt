-- ===== src/Graph/Scalars/Dates.antt =====
-- internal/graph/scalars/datetime.go: dates and times of day as GraphQL sends them.
pub mod Formats
pub mod Times
use filmstund.Base.{
  [], ℕ, zero, suc, ◌+◌, ◌-◌, ◌*◌, ◌/◌, ◌%◌, Bool, true, ◌&&◌, ◌||◌, not, Option, none, some, ◌∷◌,
  ◌++◌, nat_eq, leb, ltb, if◌then◌else◌,
}
use filmstund.Base.Text.{Text, bytes}
use filmstund.Database.{Result, ok, err}
use filmstund.Currency.Decimal.{digit, is_digit, digits_before}

-- The date and the time of day of a `time.Time`, for years from 0 on.
pub record Date : Type 0 where
  pub year : ℕ
  pub month : ℕ
  pub day : ℕ

pub record TimeOfDay : Type 0 where
  pub hour : ℕ
  pub minute : ℕ

-- A number with zeros in front, up to a width.
unfoldable pub zero_padded : ℕ → ℕ → Text → Text
unfolding digits_before
zero_padded zero n rest = if nat_eq n 0 then rest else digits_before (suc n) n rest
zero_padded (suc width) n rest = zero_padded width (n / 10) (digit n ∷ rest)

abbrev pub dash : ℕ
dash = 45

abbrev pub colon : ℕ
colon = 58

-- `t.Format("2006-01-02")`
unfoldable pub date_text : Date → Text
unfolding zero_padded
date_text d = zero_padded 4 d.year (dash ∷ zero_padded 2 d.month (dash ∷ zero_padded 2 d.day []))

-- `t.Format("15:04")`
unfoldable pub time_text : TimeOfDay → Text
unfolding zero_padded
time_text t = zero_padded 2 t.hour (colon ∷ zero_padded 2 t.minute [])

abbrev pub quoted : Text → Text
quoted t = bytes "\"" ++ t ++ bytes "\""

unfoldable pub marshal_local_date : Date → Text
unfolding date_text
marshal_local_date d = quoted (date_text d)

unfoldable pub marshal_local_time : TimeOfDay → Text
unfolding time_text
marshal_local_time t = quoted (time_text t)

abbrev pub is_leap : ℕ → Bool
is_leap year = nat_eq (year % 4) 0 && (not (nat_eq (year % 100) 0) || nat_eq (year % 400) 0)

abbrev pub days_in : ℕ → ℕ → ℕ
days_in month year =
    if nat_eq month 2
    then (if is_leap year then 29 else 28)
    else if nat_eq month 4 || (nat_eq month 6 || (nat_eq month 9 || nat_eq month 11))
    then 30
    else 31

abbrev pub are_digits : Text → Bool
are_digits [] = true
are_digits (c ∷ t) = is_digit c && are_digits t

abbrev pub number : ℕ → ℕ → ℕ
number a b = 10 * (a - 48) + (b - 48)

-- Whether there is such a day.
abbrev pub is_day : Date → Bool
is_day d = leb 1 d.month && leb d.month 12 && (leb 1 d.day && leb d.day (days_in d.month d.year))

abbrev pub if_day : Bool → Date → Option Date
if_day good d = if good && is_day d then some d else none

-- `time.Parse("2006-01-02", t)`, whose fields have fixed widths.
unfoldable pub parse_date : Text → Option Date
parse_date (a ∷ b ∷ c ∷ d ∷ s ∷ e ∷ f ∷ r ∷ g ∷ h ∷ []) =
    if_day (are_digits (a ∷ b ∷ c ∷ d ∷ e ∷ f ∷ g ∷ h ∷ []) && (nat_eq s dash && nat_eq r dash))
      (record { year = 100 * number a b + number c d; month = number e f; day = number g h })
parse_date _ = none

abbrev pub if_time : Bool → TimeOfDay → Option TimeOfDay
if_time good t = if good && (ltb t.hour 24 && ltb t.minute 60) then some t else none

-- `time.Parse("15:04", t)`, which reads an hour of one digit, too.
unfoldable pub parse_time : Text → Option TimeOfDay
parse_time (a ∷ b ∷ s ∷ c ∷ d ∷ []) =
    if_time (are_digits (a ∷ b ∷ c ∷ d ∷ []) && nat_eq s colon)
      (record { hour = number a b; minute = number c d })
parse_time (b ∷ s ∷ c ∷ d ∷ []) =
    if_time (are_digits (b ∷ c ∷ d ∷ []) && nat_eq s colon)
      (record { hour = b - 48; minute = number c d })
parse_time _ = none

-- An input value of GraphQL.
pub data Value : Type 0 where
  string : Text → Value
  string_pointer : Option Text → Value
  other_value : Value

-- Errors: the value is no string, or it does not look like what it should be.
pub data ScalarError : Type 0 where
  not_a_string : ScalarError
  no_match : Text → ScalarError

abbrev pub or_no_match : {A : Type 0} → Text → Option A → Result ScalarError A
or_no_match t none = err (no_match t)
or_no_match t (some a) = ok a

unfoldable pub unmarshal_local_date : Value → Result ScalarError Date
unfolding parse_date
unmarshal_local_date (string t) = or_no_match t (parse_date t)
unmarshal_local_date (string_pointer t) = err not_a_string
unmarshal_local_date other_value = err not_a_string

unfoldable pub unmarshal_local_time : Value → Result ScalarError TimeOfDay
unfolding parse_time
unmarshal_local_time (string t) = or_no_match t (parse_time t)
unmarshal_local_time (string_pointer t) = err not_a_string
unmarshal_local_time other_value = err not_a_string
