-- ===== src/Currency/Decimal.antt =====
-- Decimal numbers, printed and read.
use filmstund.Base.{
  ℕ, zero, suc, ◌+◌, ◌-◌, ◌*◌, ◌/◌, ◌%◌, ◌≤◌, ◌≡◌, refl, ap, ◌∙◌, Bool, true, ◌&&◌, Option, none,
  some, [], ◌∷◌, All, nat_eq, leb, if◌then◌else◌, Bool-cases, inl, inr, arith,
}
use filmstund.Base.Text.{Text}

abbrev pub digit : ℕ → ℕ
digit n = 48 + n % 10

-- The digits of a number before a rest, on fuel.
unfoldable pub digits_before : ℕ → ℕ → Text → Text
digits_before zero n rest = rest
digits_before (suc fuel) n rest =
    let more = digits_before fuel (n / 10) (digit n ∷ rest) in
    if nat_eq (n / 10) 0 then digit n ∷ rest else more

unfoldable pub decimal : ℕ → Text
unfolding digits_before
decimal n = digits_before (suc n) n []

abbrev pub is_digit : ℕ → Bool
is_digit c = leb 48 c && leb c 57

unfoldable pub read_digits : ℕ → Text → Option ℕ
read_digits n [] = some n
read_digits n (c ∷ t) =
    let rest = read_digits (n * 10 + (c - 48)) t in if is_digit c then rest else none

pub read_digit :
    (m n : ℕ) (rest : Text) → read_digits m (digit n ∷ rest) ≡ read_digits (m * 10 + n % 10) rest
unfolding read_digits
read_digit m n rest =
    let good : is_digit (digit n) ≡ true = ground arith in
    let same : 48 + n % 10 - 48 ≡ n % 10 = omega arith in rw (good, same) refl

-- Enough fuel prints all the digits.
pub read_digits-digits_before :
    (fuel n : ℕ) (rest : Text)
    → n ≤ fuel
    → read_digits 0 (digits_before (suc fuel) n rest) ≡ read_digits n rest
unfolding digits_before
read_digits-digits_before zero n rest h =
    let none_left : n ≡ 0 = omega arith in rw none_left (read_digit 0 0 rest)
read_digits-digits_before (suc fuel) n rest h = elim (Bool-cases (nat_eq (n / 10) 0)) [
  | inl last ↦
      let small : 0 * 10 + n % 10 ≡ n = ground arith in
      rw last (read_digit 0 n rest ∙ ap (λ m. read_digits m rest) small)
  | inr more ↦
      let whole : (n / 10) * 10 + n % 10 ≡ n = omega arith in
      let less : n / 10 ≤ fuel = ground arith in
      rw more (
        read_digits-digits_before fuel (n / 10) (digit n ∷ rest) less
        ∙ read_digit (n / 10) n rest
        ∙ ap (λ m. read_digits m rest) whole)
]

pub digits_before-digits :
    (fuel n : ℕ) (rest : Text)
    → All (λ c. is_digit c ≡ true) rest
    → All (λ c. is_digit c ≡ true) (digits_before fuel n rest)
unfolding digits_before
digits_before-digits zero n rest h = h
digits_before-digits (suc fuel) n rest h = elim (Bool-cases (nat_eq (n / 10) 0)) [
  | inl last ↦ rw last (ground arith)
  | inr more ↦ rw more (digits_before-digits fuel (n / 10) (digit n ∷ rest) (ground arith))
]

-- A number has a first digit.
digits_before-first :
    (fuel n c : ℕ) (rest : Text) → (d : ℕ) × (t : Text) × (digits_before fuel n (c ∷ rest) ≡ d ∷ t)
unfolding digits_before
digits_before-first zero n c rest = (c, rest, refl)
digits_before-first (suc fuel) n c rest = elim (Bool-cases (nat_eq (n / 10) 0)) [
  | inl last ↦ rw last (digit n, c ∷ rest, refl)
  | inr more ↦ rw more (digits_before-first fuel (n / 10) (digit n) (c ∷ rest))
]

pub decimal-first : (n : ℕ) → (d : ℕ) × (t : Text) × (decimal n ≡ d ∷ t)
unfolding decimal digits_before
decimal-first n = elim (Bool-cases (nat_eq (n / 10) 0)) [
  | inl last ↦ rw last (digit n, [], refl)
  | inr more ↦ rw more (digits_before-first n (n / 10) (digit n) [])
]

pub decimal-digits : (n : ℕ) → All (λ c. is_digit c ≡ true) (decimal n)
unfolding decimal
decimal-digits n = digits_before-digits (suc n) n [] tt

pub read_digits-decimal : (n : ℕ) → read_digits 0 (decimal n) ≡ some n
unfolding decimal read_digits
read_digits-decimal n = read_digits-digits_before n n [] (omega arith)
