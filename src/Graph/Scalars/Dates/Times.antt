-- ===== src/Graph/Scalars/Dates/Times.antt =====
-- Which texts are times of day: internal/graph/scalars/datetime.go.
use filmstund.Base.{
  ℕ, ◌-◌, ◌/◌, ◌<◌, ◌≡◌, ◌↔◌, ◌⊎◌, refl, sym, subst, ◌∙◌, Bool, true, ◌&&◌, some, [], ◌∷◌, nat_eq,
  nat_eq_iff, ltb, inl, inr, arith, ltb→lt,
}
use filmstund.Base.Text.{Text}
use filmstund.Database.{ok}
use filmstund.Currency.Decimal.{digit}
use filmstund.Graph.Scalars.Dates.{
  TimeOfDay, zero_padded, colon, time_text, number, are_digits, if_time, parse_time, string,
  unmarshal_local_time,
}
use filmstund.Graph.Scalars.Dates.Formats.{
  two_digits, padded_two, digit-is_digit, number-digits, chosen, both, each_digit, matched,
}

time_text-bytes :
    (t : TimeOfDay)
    → t.hour < 24
    → t.minute < 60
    → time_text t
      ≡ digit (t.hour / 10) ∷ digit t.hour ∷ colon ∷ digit (t.minute / 10) ∷ digit t.minute ∷ []
unfolding time_text
time_text-bytes t h m =
    rw
      (
        padded_two t.hour (colon ∷ zero_padded 2 t.minute []) (omega (arith, h)),
        padded_two t.minute [] (omega (arith, m)),
      )
      refl

halves : (c d : ℕ) (u v : Text) → c ∷ u ≡ d ∷ v → (c ≡ d) × (u ≡ v)
halves c d u v h = (cc, cc)

-- A text of a time of day, or one with a zero left out in front.
abbrev pub Spells : Text → TimeOfDay → Type 0
Spells x t = (time_text t ≡ x) ⊎ (time_text t ≡ 48 ∷ x)

time_read :
    (good : Bool) (x t : TimeOfDay)
    → good ≡ true
    → x ≡ t
    → t.hour < 24
    → t.minute < 60
    → if_time good x ≡ some t
time_read good x t h e hour minute =
    let hour_ok : ltb t.hour 24 ≡ true = ground arith in
    let minute_ok : ltb t.minute 60 ≡ true = ground arith in rw (h, e, hour_ok, minute_ok) refl

parse_time-time_text :
    (x : Text) (t : TimeOfDay) → t.hour < 24 → t.minute < 60 → Spells x t → parse_time x ≡ some t
unfolding parse_time
parse_time-time_text x t h m (inl spelt) =
    rw (← spelt, time_text-bytes t h m)
      (time_read
        (are_digits
            (digit (t.hour / 10) ∷ digit t.hour ∷ digit (t.minute / 10) ∷ digit t.minute ∷ [])
          && nat_eq colon colon)
        (record {
          hour = number (digit (t.hour / 10)) (digit t.hour);
          minute = number (digit (t.minute / 10)) (digit t.minute);
        })
        t
        (rw
          (
            digit-is_digit (t.hour / 10),
            digit-is_digit t.hour,
            digit-is_digit (t.minute / 10),
            digit-is_digit t.minute,
          )
          refl)
        (rw (number-digits t.hour (omega (arith, h)), number-digits t.minute (omega (arith, m)))
          refl)
        h m)
parse_time-time_text x t h m (inr spelt) =
    let split = halves _ 48 _ x (sym (time_text-bytes t h m) ∙ spelt) in
    let small : digit t.hour - 48 ≡ t.hour = omega (arith, split.0, h) in
    rw (← split.1) (
      time_read
        (are_digits (digit t.hour ∷ digit (t.minute / 10) ∷ digit t.minute ∷ [])
          && nat_eq colon colon)
        (record {
          hour = digit t.hour - 48;
          minute = number (digit (t.minute / 10)) (digit t.minute);
        })
        t (rw (digit-is_digit t.hour, digit-is_digit (t.minute / 10), digit-is_digit t.minute) refl)
        (rw (small, number-digits t.minute (omega (arith, m))) refl) h m)

two_times :
    (a b s c d : ℕ)
    → (are_digits (a ∷ b ∷ c ∷ d ∷ []) && nat_eq s colon) ≡ true
    → time_text (record { hour = number a b; minute = number c d }) ≡ a ∷ b ∷ s ∷ c ∷ d ∷ []
unfolding time_text
two_times a b s c d good =
    let good = both (are_digits (a ∷ b ∷ c ∷ d ∷ [])) (nat_eq s colon) good in
    let all_good = each_digit (a ∷ b ∷ c ∷ d ∷ []) good.0 in
    rw
      (
        (nat_eq_iff s colon).0 good.1,
        two_digits c d [] all_good.1.1.0 all_good.1.1.1.0,
        two_digits a b (colon ∷ c ∷ d ∷ []) all_good.0 all_good.1.0,
      )
      refl

one_digit_hour :
    (b s c d : ℕ)
    → (are_digits (b ∷ c ∷ d ∷ []) && nat_eq s colon) ≡ true
    → time_text (record { hour = b - 48; minute = number c d }) ≡ 48 ∷ b ∷ s ∷ c ∷ d ∷ []
one_digit_hour b s c d good =
    let same : number 48 b ≡ b - 48 = omega arith in
    subst (λ n. time_text (record { hour = n; minute = number c d }) ≡ 48 ∷ b ∷ s ∷ c ∷ d ∷ []) same
      (two_times 48 b s c d good)

within :
    (t : TimeOfDay) → (ltb t.hour 24 && ltb t.minute 60) ≡ true → (t.hour < 24) × (t.minute < 60)
within t h =
    let split = both (ltb t.hour 24) (ltb t.minute 60) h in
    (ltb→lt t.hour 24 split.0, ltb→lt t.minute 60 split.1)

read_time :
    (x : Text) (t : TimeOfDay)
    → parse_time x ≡ some t
    → Spells x t × (t.hour < 24) × (t.minute < 60)
unfolding parse_time
read_time (a ∷ b ∷ s ∷ c ∷ d ∷ []) t h =
    let read = chosen _ _ t h in
    let good = both _ _ read.0 in
    let bounds = within _ good.1 in
    rw (← read.1) (inl (two_times a b s c d good.0), bounds.0, bounds.1)
read_time (b ∷ s ∷ c ∷ d ∷ []) t h =
    let read = chosen _ _ t h in
    let good = both _ _ read.0 in
    let bounds = within _ good.1 in
    rw (← read.1) (inr (one_digit_hour b s c d good.0), bounds.0, bounds.1)
read_time _ t h = cc

-- A text is accepted as a local time exactly when it is how a time of day is printed, or that with
-- one zero in front left out, and that time is what it gives.
pub unmarshal_local_time_iff :
    (x : Text) (t : TimeOfDay)
    → (unmarshal_local_time (string x) ≡ ok t) ↔ (Spells x t × (t.hour < 24) × (t.minute < 60))
unfolding unmarshal_local_time
unmarshal_local_time_iff x t = (
  λ h. read_time x t (matched x (parse_time x) t h),
  λ h. rw (parse_time-time_text x t h.1 h.2 h.0) refl,
)
