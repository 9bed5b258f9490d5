-- ===== src/Currency.antt =====
-- internal/currency/sek.go: amounts of money in ören.
pub mod Decimal
pub mod Printing
pub mod Amounts
use filmstund.Base.{ℕ, ◌≡◌, refl, suc, zero, ◌+◌, ◌*◌, ◌/◌, ◌≤◌, arith}
use filmstund.Base.Int.{ℤ, pos, negsuc, pos_part, neg_part}

-- The opposite of a natural number.
abbrev pub opposite : ℕ → ℤ
opposite zero = pos 0
opposite (suc n) = negsuc n

-- `SEK.Kronor`: to the nearest krona, and away from zero between two.
unfoldable pub kronor : ℤ → ℤ
kronor (pos n) = pos ((n + 50) / 100)
kronor (negsuc n) = opposite ((n + 51) / 100)

-- Both parts of an amount are within half a krona of those of its kronor, half a krona itself is
-- rounded up, and so no sign changes.
pub kronor-nearest :
    (s : ℤ)
    → (100 * pos_part (kronor s) ≤ pos_part s + 50)
      × (pos_part s ≤ 100 * pos_part (kronor s) + 49)
      × (100 * neg_part (kronor s) ≤ neg_part s + 50)
      × (neg_part s ≤ 100 * neg_part (kronor s) + 49)
unfolding kronor
kronor-nearest (pos n) = (omega arith, omega arith, omega arith, omega arith)
kronor-nearest (negsuc n) = go ((n + 51) / 100) refl
  where
    go :
        (k : ℕ)
        → (n + 51) / 100 ≡ k
        → (100 * pos_part (opposite k) ≤ 50)
          × (0 ≤ 100 * pos_part (opposite k) + 49)
          × (100 * neg_part (opposite k) ≤ suc n + 50)
          × (suc n ≤ 100 * neg_part (opposite k) + 49)
    go zero e = (omega arith, omega arith, omega arith, omega arith)
    go (suc k) e = (omega arith, omega arith, omega arith, omega arith)
