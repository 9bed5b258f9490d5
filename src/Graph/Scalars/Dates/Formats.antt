-- ===== src/Graph/Scalars/Dates/Formats.antt =====
-- Which texts are dates: internal/graph/scalars/datetime.go.
use filmstund.Base.{
  ℕ, ◌+◌, ◌*◌, ◌/◌, ◌<◌, ◌≡◌, ◌↔◌, refl, ap, Bool, true, false, ◌&&◌, Option, none, some, [], ◌∷◌,
  nat_eq, nat_eq_iff, if◌then◌else◌, arith, All,
}
use filmstund.Base.Text.{Text}
use filmstund.Database.{ok}
use filmstund.Currency.Decimal.{digit, is_digit}
use filmstund.Graph.Scalars.Dates.{
  Date, zero_padded, dash, date_text, is_day, number, are_digits, if_day, parse_date, string,
  or_no_match, unmarshal_local_date,
}

pub two_digits :
    (a b : ℕ) (rest : Text)
    → is_digit a ≡ true
    → is_digit b ≡ true
    → zero_padded 2 (number a b) rest ≡ a ∷ b ∷ rest
unfolding zero_padded
two_digits a b rest ha hb =
    let last : digit (number a b) ≡ b = ground arith in
    let first : digit (number a b / 10) ≡ a = ground arith in
    let over : number a b / 10 / 10 ≡ 0 = ground arith in rw (over, first, last) refl

four_digits :
    (a b c d : ℕ) (rest : Text)
    → is_digit a ≡ true
    → is_digit b ≡ true
    → is_digit c ≡ true
    → is_digit d ≡ true
    → zero_padded 4 (100 * number a b + number c d) rest ≡ a ∷ b ∷ c ∷ d ∷ rest
unfolding zero_padded
four_digits a b c d rest ha hb hc hd =
    let y = 100 * number a b + number c d in
    let first : digit (y / 10 / 10 / 10) ≡ a = ground arith in
    let second : digit (y / 10 / 10) ≡ b = ground arith in
    let third : digit (y / 10) ≡ c = ground arith in
    let fourth : digit y ≡ d = ground arith in
    let over : y / 10 / 10 / 10 / 10 ≡ 0 = ground arith in
    rw (over, first, second, third, fourth) refl

pub padded_two :
    (n : ℕ) (rest : Text) → n < 100 → zero_padded 2 n rest ≡ digit (n / 10) ∷ digit n ∷ rest
unfolding zero_padded
padded_two n rest h = let over : n / 10 / 10 ≡ 0 = omega arith in rw over refl

padded_four :
    (n : ℕ) (rest : Text)
    → n < 10000
    → zero_padded 4 n rest
      ≡ digit (n / 10 / 10 / 10) ∷ digit (n / 10 / 10) ∷ digit (n / 10) ∷ digit n ∷ rest
unfolding zero_padded
padded_four n rest h = let over : n / 10 / 10 / 10 / 10 ≡ 0 = omega arith in rw over refl

pub digit-is_digit : (n : ℕ) → is_digit (digit n) ≡ true
digit-is_digit n = ground arith

pub number-digits : (n : ℕ) → n < 100 → number (digit (n / 10)) (digit n) ≡ n
number-digits n h = ground arith

number-four :
    (n : ℕ)
    → n < 10000
    → 100 * number (digit (n / 10 / 10 / 10)) (digit (n / 10 / 10))
        + number (digit (n / 10)) (digit n)
      ≡ n
number-four n h = ground arith

small_day : (d : Date) → is_day d ≡ true → d.day < 100
small_day d h = ground arith

small_month : (d : Date) → is_day d ≡ true → d.month < 100
small_month d h = ground arith

date_text-bytes :
    (d : Date)
    → is_day d ≡ true
    → d.year < 10000
    → date_text d
      ≡ digit (d.year / 10 / 10 / 10)
        ∷ digit (d.year / 10 / 10)
        ∷ digit (d.year / 10)
        ∷ digit d.year
        ∷ dash
        ∷ digit (d.month / 10)
        ∷ digit d.month
        ∷ dash
        ∷ digit (d.day / 10)
        ∷ digit d.day
        ∷ []
unfolding date_text
date_text-bytes d day h =
    rw
      (
        padded_four d.year (dash ∷ zero_padded 2 d.month (dash ∷ zero_padded 2 d.day [])) h,
        padded_two d.month (dash ∷ zero_padded 2 d.day []) (small_month d day),
        padded_two d.day [] (small_day d day),
      )
      refl

day_read :
    (good : Bool) (x d : Date) → good ≡ true → x ≡ d → is_day d ≡ true → if_day good x ≡ some d
day_read good x d h e k = rw (h, e, k) refl

-- The texts of dates are read.
parse_date-date_text :
    (d : Date) → is_day d ≡ true → d.year < 10000 → parse_date (date_text d) ≡ some d
unfolding parse_date
parse_date-date_text d day h = rw (date_text-bytes d day h) (
    day_read
      (are_digits (
          digit (d.year / 10 / 10 / 10)
          ∷ digit (d.year / 10 / 10)
          ∷ digit (d.year / 10)
          ∷ digit d.year
          ∷ digit (d.month / 10)
          ∷ digit d.month
          ∷ digit (d.day / 10)
          ∷ digit d.day
          ∷ [])
        && (nat_eq dash dash && nat_eq dash dash))
      (record {
        year =
            100 * number (digit (d.year / 10 / 10 / 10)) (digit (d.year / 10 / 10))
            + number (digit (d.year / 10)) (digit d.year);
        month = number (digit (d.month / 10)) (digit d.month);
        day = number (digit (d.day / 10)) (digit d.day);
      })
      d
      (rw
        (
          digit-is_digit (d.year / 10 / 10 / 10),
          digit-is_digit (d.year / 10 / 10),
          digit-is_digit (d.year / 10),
          digit-is_digit d.year,
          digit-is_digit (d.month / 10),
          digit-is_digit d.month,
          digit-is_digit (d.day / 10),
          digit-is_digit d.day,
        )
        refl)
      (rw
        (
          number-four d.year h,
          number-digits d.month (small_month d day),
          number-digits d.day (small_day d day),
        )
        refl)
      day)

pub chosen :
    {A : Type 0} (b : Bool) (x y : A) → (if b then some x else none) ≡ some y → (b ≡ true) × (x ≡ y)
chosen true x y h = (refl, cc)
chosen false x y h = cc

pub both : (a b : Bool) → (a && b) ≡ true → (a ≡ true) × (b ≡ true)
both true b h = (refl, h)
both false b h = cc

pub each_digit : (t : Text) → are_digits t ≡ true → All (λ c. is_digit c ≡ true) t
each_digit [] h = tt
each_digit (c ∷ t) h = let h = both (is_digit c) (are_digits t) h in (h.0, each_digit t h.1)

number-small : (a b : ℕ) → is_digit a ≡ true → is_digit b ≡ true → number a b < 100
number-small a b h k = ground arith

-- The bytes of a date are those that were read.
ten_bytes :
    (a b c e s f g r i j : ℕ)
    → (are_digits (a ∷ b ∷ c ∷ e ∷ f ∷ g ∷ i ∷ j ∷ []) && (nat_eq s dash && nat_eq r dash)) ≡ true
    → (date_text
          (record { year = 100 * number a b + number c e; month = number f g; day = number i j })
        ≡ a ∷ b ∷ c ∷ e ∷ s ∷ f ∷ g ∷ r ∷ i ∷ j ∷ [])
      × (100 * number a b + number c e < 10000)
unfolding date_text
ten_bytes a b c e s f g r i j good =
    let good = both (are_digits (a ∷ b ∷ c ∷ e ∷ f ∷ g ∷ i ∷ j ∷ [])) _ good in
    let all_good = each_digit (a ∷ b ∷ c ∷ e ∷ f ∷ g ∷ i ∷ j ∷ []) good.0 in
    let dashes = both (nat_eq s dash) (nat_eq r dash) good.1 in
    rw
      (
        (nat_eq_iff s dash).0 dashes.0,
        (nat_eq_iff r dash).0 dashes.1,
        two_digits i j [] all_good.1.1.1.1.1.1.0 all_good.1.1.1.1.1.1.1.0,
        two_digits f g (dash ∷ i ∷ j ∷ []) all_good.1.1.1.1.0 all_good.1.1.1.1.1.0,
        four_digits a b c e (dash ∷ f ∷ g ∷ dash ∷ i ∷ j ∷ []) all_good.0 all_good.1.0
            all_good.1.1.0 all_good.1.1.1.0,
      )
      (
        refl,
        omega (
          arith,
          number-small a b all_good.0 all_good.1.0,
          number-small c e all_good.1.1.0 all_good.1.1.1.0,
        ),
      )

-- Nothing else is.
read_date :
    (t : Text) (d : Date)
    → parse_date t ≡ some d
    → (date_text d ≡ t) × (is_day d ≡ true) × (d.year < 10000)
unfolding parse_date
read_date (a ∷ b ∷ c ∷ e ∷ s ∷ f ∷ g ∷ r ∷ i ∷ j ∷ []) d h =
    let read = chosen _ _ d h in
    let good = both _ _ read.0 in
    let bytes_d = ten_bytes a b c e s f g r i j good.0 in
    rw (← read.1) (bytes_d.0, good.1, bytes_d.1)
read_date _ d h = cc

pub matched : {A : Type 0} (t : Text) (o : Option A) (a : A) → or_no_match t o ≡ ok a → o ≡ some a
matched t none a h = cc
matched t (some b) a h = ap some (cc)

-- A text is accepted as a local date exactly when it is how a day that there is, of a year of at most
-- four digits, is printed, and that day is what it gives.
pub unmarshal_local_date_iff :
    (t : Text) (d : Date)
    → (unmarshal_local_date (string t) ≡ ok d)
      ↔ ((date_text d ≡ t) × (is_day d ≡ true) × (d.year < 10000))
unfolding unmarshal_local_date
unmarshal_local_date_iff t d = (
  λ h. read_date t d (matched t (parse_date t) d h),
  λ h. rw (← h.0, parse_date-date_text d h.1 h.2) refl,
)
