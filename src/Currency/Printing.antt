-- ===== src/Currency/Printing.antt =====
-- Which amounts are read back as they are printed.
use filmstund.Base.{
  ℕ, ◌+◌, ◌*◌, ◌/◌, ◌%◌, ◌^◌, ◌<◌, ◌≡◌, ◌≢◌, ◌↔◌, ◌⊎◌, refl, sym, ap, ap₂, ◌∙◌, true, false, Option,
  some, [], ◌∷◌, ◌++◌, All, nat_eq, if◌then◌else◌, Bool-cases, inl, inr, arith,
}
use filmstund.Base.Int.{pos, ◌+ℤ◌, ◌*ℤ◌, to_int32, to_int32_lem}
use filmstund.Base.Text.{Text, bytes}
use filmstund.Currency.Decimal.{
  digit, decimal, is_digit, read_digits, read_digit, read_digits-decimal, decimal-digits,
  decimal-first,
}
use filmstund.Currency.Amounts.{
  oren_text, amount_text, sek_text, split_first, atoi, positive, amount_of, oren_of, unmarshal_sek,
}

split_first-digits :
    (sep : ℕ) (xs rest : Text)
    → is_digit sep ≡ false
    → All (λ c. is_digit c ≡ true) xs
    → split_first sep (xs ++ rest) ≡ (xs ++ (split_first sep rest).0, (split_first sep rest).1)
unfolding split_first
split_first-digits sep [] rest h k = refl
split_first-digits sep (c ∷ xs) rest h k = ground (arith, split_first-digits sep xs rest)

atoi-first :
    (c : ℕ) (t : Text) → is_digit c ≡ true → atoi (c ∷ t) ≡ positive (read_digits 0 (c ∷ t))
unfolding atoi
atoi-first c t h = ground arith

-- A number of 63 bits is read as it is printed.
pub atoi-decimal : (n : ℕ) → n < 2 ^ 63 → atoi (decimal n) ≡ some (pos n)
atoi-decimal n h =
    let (c, t, e) = decimal-first n in
    let first : is_digit c ≡ true = (rw e at (decimal-digits n)).0 in
    let all : read_digits 0 (c ∷ t) ≡ some n = rw e at (read_digits-decimal n) in
    rw e (atoi-first c t first ∙ rw all (ground arith))

append_nil : (xs : Text) → xs ++ [] ≡ xs
append_nil [] = refl
append_nil (x ∷ xs) = ap (λ t. x ∷ t) (append_nil xs)

digit-is_digit : (a : ℕ) → is_digit (digit a) ≡ true
digit-is_digit a = ground arith

one_digit : (a : ℕ) → a < 10 → atoi (digit a ∷ []) ≡ some (pos a)
unfolding read_digits
one_digit a h =
    let small : 0 * 10 + a % 10 ≡ a = omega arith in
    atoi-first (digit a) [] (digit-is_digit a)
    ∙ ap positive (read_digit 0 a [])
    ∙ rw small (ground arith)

two_digits :
    (a b : ℕ)
    → a < 10
    → b % 10 + a * 10 ≡ b
    → b < 100
    → atoi (digit a ∷ digit b ∷ []) ≡ some (pos b)
unfolding read_digits
two_digits a b h e k =
    let whole : (0 * 10 + a % 10) * 10 + b % 10 ≡ b = omega arith in
    atoi-first (digit a) (digit b ∷ []) (digit-is_digit a)
    ∙ ap positive (read_digit 0 a (digit b ∷ []) ∙ read_digit (0 * 10 + a % 10) b [])
    ∙ rw whole (ground arith)

-- What is read of the ören that are printed.
abbrev pub oren_read : ℕ → ℕ
oren_read o = if nat_eq (o % 10) 0 then o / 10 else o

module _ (k o : ℕ) (small : o < 100) where
  -- The ören as they are printed, up to the space.
  oren_alone : (split_first 32 (oren_text o ++ bytes " kr")).0 ≡ oren_text o
  unfolding split_first oren_text
  oren_alone = ground arith

  -- The kronor before the point, and the ören after it.
  kronor_part : (split_first 46 (oren_text o)).0 ≡ []
  unfolding split_first oren_text
  kronor_part = ground arith

  oren_part : oren_of (split_first 46 (oren_text o)).1 ≡ some (pos (oren_read o))
  unfolding split_first oren_text
  oren_part = elim (Bool-cases (nat_eq o 0)) [
    | inl whole ↦ ground (arith, whole)
    | inr some_oren ↦ elim (Bool-cases (nat_eq (o % 10) 0)) [
      | inl tens ↦ rw (some_oren, tens) (ground (arith, one_digit (o / 10) (omega arith)))
      | inr ones ↦
          rw (some_oren, ones)
            (ground (arith, two_digits (o / 10) o (omega arith) (omega arith) small))
    ]
  ]

  parts :
      (t : Text)
      → (split_first 32 (oren_text o ++ bytes " kr")).0 ≡ t
      → split_first 46 (split_first 32 (decimal k ++ (oren_text o ++ bytes " kr"))).0
        ≡ (decimal k ++ (split_first 46 t).0, (split_first 46 t).1)
  parts t e =
      ap (λ (p : Text × Option Text). split_first 46 p.0)
        (split_first-digits 32 (decimal k) (oren_text o ++ bytes " kr") refl (decimal-digits k))
      ∙ ap (λ (u : Text). split_first 46 (decimal k ++ u)) e
      ∙ split_first-digits 46 (decimal k) t refl (decimal-digits k)

  amount_read :
      k * 100 + oren_read o < 2 ^ 31
      → amount_of (some (pos k)) (some (pos (oren_read o))) ≡ some (pos (k * 100 + oren_read o))
  unfolding ◌+ℤ◌ ◌*ℤ◌
  amount_read h =
      let kronor : to_int32 (pos k) ≡ pos k = to_int32_lem (pos k) (ground arith) in
      let times : pos k *ℤ pos 100 ≡ pos (k * 100) = ground arith in
      let hundred : to_int32 (pos (k * 100)) ≡ pos (k * 100) =
        to_int32_lem (pos (k * 100)) (ground arith) in
      let oren : to_int32 (pos (oren_read o)) ≡ pos (oren_read o) =
        to_int32_lem (pos (oren_read o)) (ground arith) in
      let both : pos (k * 100) +ℤ pos (oren_read o) ≡ pos (k * 100 + oren_read o) = ground arith in
      let all : to_int32 (pos (k * 100 + oren_read o)) ≡ pos (k * 100 + oren_read o) =
        to_int32_lem (pos (k * 100 + oren_read o)) (ground arith) in
      rw (kronor, times, hundred, oren, both, all) refl

sek_text-read :
    (n : ℕ)
    → n < 2 ^ 31
    → unmarshal_sek (sek_text (pos n)) ≡ some (pos (n / 100 * 100 + oren_read (n % 100)))
unfolding unmarshal_sek sek_text amount_text
sek_text-read n h =
    let k : ℕ = n / 100 in
    let o : ℕ = n % 100 in
    let small : o < 100 = omega arith in
    let split = parts k o small (oren_text o) (oren_alone k o small) in
    rw split (
      ap₂ amount_of
        (ap (λ t. atoi (decimal k ++ t)) (kronor_part k o small)
          ∙ ap atoi (append_nil (decimal k))
          ∙ atoi-decimal k (omega arith))
        (oren_part k o small)
      ∙ amount_read k o small (ground arith))

-- An amount that is not negative is read back exactly when it is whole kronor or its last digit is
-- not zero; of another one the tens of ören are read as single ören.
pub unmarshal_sek-sek_text :
    (n : ℕ)
    → n < 2 ^ 31
    → (unmarshal_sek (sek_text (pos n)) ≡ some (pos (n / 100 * 100 + oren_read (n % 100))))
      × ((unmarshal_sek (sek_text (pos n)) ≡ some (pos n)) ↔ ((n % 100 ≡ 0) ⊎ (n % 10 ≢ 0)))
unmarshal_sek-sek_text n h =
    let read = sek_text-read n h in (read, (λ e. exact (sym read ∙ e), λ d. read ∙ kept d))
  where
    exact :
        some (pos (n / 100 * 100 + oren_read (n % 100))) ≡ some (pos n)
        → (n % 100 ≡ 0) ⊎ (n % 10 ≢ 0)
    exact e = ground arith

    kept :
        (n % 100 ≡ 0) ⊎ (n % 10 ≢ 0)
        → some (pos (n / 100 * 100 + oren_read (n % 100))) ≡ some (pos n)
    kept d = ground arith
