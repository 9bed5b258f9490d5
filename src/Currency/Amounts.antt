-- ===== src/Currency/Amounts.antt =====
-- internal/currency/sek.go: amounts as texts. A float64 holds an int32 over 100 so closely that its
-- shortest decimal is the quotient itself.
use filmstund.Base.{
  ℕ, suc, ◌/◌, ◌%◌, ◌^◌, Option, none, some, [], ◌∷◌, ◌++◌, nat_eq, leb, ltb, if◌then◌else◌,
}
use filmstund.Base.Int.{ℤ, pos, negsuc, ◌+ℤ◌, ◌*ℤ◌, to_int32}
use filmstund.Base.Text.{Text, bytes}
use filmstund.Currency.{opposite}
use filmstund.Currency.Decimal.{digit, decimal, read_digits}

-- What follows the kronor, without zeros at its end.
unfoldable pub oren_text : ℕ → Text
oren_text o =
    if nat_eq o 0
    then []
    else if nat_eq (o % 10) 0
    then bytes "." ++ digit (o / 10) ∷ []
    else bytes "." ++ digit (o / 10) ∷ digit o ∷ []

unfoldable pub amount_text : ℕ → Text
unfolding oren_text decimal
amount_text n = decimal (n / 100) ++ (oren_text (n % 100) ++ bytes " kr")

-- `SEK.String`
unfoldable pub sek_text : ℤ → Text
unfolding amount_text
sek_text (pos n) = amount_text n
sek_text (negsuc n) = bytes "-" ++ amount_text (suc n)

-- `strings.SplitN(t, sep, 2)` for a separator of one byte.
abbrev pub onto : ℕ → Text × Option Text → Text × Option Text
onto c p = (c ∷ p.0, p.1)

unfoldable pub split_first : ℕ → Text → Text × Option Text
split_first sep [] = ([], none)
split_first sep (c ∷ t) =
    let rest = split_first sep t in if nat_eq c sep then ([], some t) else onto c rest

-- `strconv.Atoi`, on 64 bits.
abbrev pub read_natural : Text → Option ℕ
read_natural [] = none
read_natural (c ∷ t) = read_digits 0 (c ∷ t)

abbrev pub positive : Option ℕ → Option ℤ
positive none = none
positive (some n) = if ltb n (2 ^ 63) then some (pos n) else none

abbrev pub negative : Option ℕ → Option ℤ
negative none = none
negative (some n) = if leb n (2 ^ 63) then some (opposite n) else none

unfoldable pub atoi : Text → Option ℤ
atoi [] = none
atoi (c ∷ t) =
    if nat_eq c 45
    then negative (read_natural t)
    else if nat_eq c 43
    then positive (read_natural t)
    else positive (read_natural (c ∷ t))

-- `SEK(rawKronor)*Kronor + SEK(rawOren)*Oren`, on int32.
abbrev pub amount_of : Option ℤ → Option ℤ → Option ℤ
amount_of none o = none
amount_of (some k) none = none
amount_of (some k) (some o) = some (to_int32 (to_int32 (to_int32 k *ℤ pos 100) +ℤ to_int32 o))

abbrev pub oren_of : Option Text → Option ℤ
oren_of none = some (pos 0)
oren_of (some t) = atoi t

-- `UnmarshalGQL`, of a string.
unfoldable pub unmarshal_sek : Text → Option ℤ
unfolding split_first atoi
unmarshal_sek t =
    let parts = split_first 46 (split_first 32 t).0 in amount_of (atoi parts.0) (oren_of parts.1)
