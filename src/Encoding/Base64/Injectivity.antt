-- ===== src/Encoding/Base64/Injectivity.antt =====
-- Different bytes have different encodings.
use filmstund.Base.{
  ℕ, ◌+◌, ◌*◌, ◌/◌, ◌%◌, ◌<◌, ◌≡◌, refl, sym, ◌∙◌, ap, ap₂, zero, suc, ◌++◌, length-append, List,
  [], ◌∷◌, All, length, arith,
}
use filmstund.Base.Text.{Text}
use filmstund.Encoding.Base64.{letter, encode, be_bytes}

letter_determines : (a b : ℕ) → a < 64 → b < 64 → letter a ≡ letter b → a ≡ b
unfolding letter
letter_determines a b h k e = ground arith

abbrev head_or : ℕ → List ℕ → ℕ
head_or d [] = d
head_or d (x ∷ xs) = x

abbrev rest_of : List ℕ → List ℕ
rest_of [] = []
rest_of (x ∷ xs) = xs

uncons : (x y : ℕ) (xs ys : List ℕ) → x ∷ xs ≡ y ∷ ys → (x ≡ y) × (xs ≡ ys)
uncons x y xs ys e = (ap (head_or 0) e, ap rest_of e)

block :
    (a b c x y z : ℕ)
    → a < 256
    → b < 256
    → c < 256
    → x < 256
    → y < 256
    → z < 256
    → a / 4 ≡ x / 4
    → a % 4 * 16 + b / 16 ≡ x % 4 * 16 + y / 16
    → b % 16 * 4 + c / 64 ≡ y % 16 * 4 + z / 64
    → c % 64 ≡ z % 64
    → (a ≡ x) × (b ≡ y) × (c ≡ z)
block a b c x y z ha hb hc hx hy hz e f g h = (omega arith, omega arith, omega arith)

abbrev pub IsByte : ℕ → Type 0
IsByte b = b < 256

-- Two blocks of three bytes with the same four letters, and what follows them.
same_block :
    (a b c x y z : ℕ) (r s : Text)
    → (IsByte a × IsByte b × IsByte c)
    → (IsByte x × IsByte y × IsByte z)
    → letter (a / 4)
        ∷ letter (a % 4 * 16 + b / 16)
        ∷ letter (b % 16 * 4 + c / 64)
        ∷ letter (c % 64)
        ∷ r
      ≡ letter (x / 4)
        ∷ letter (x % 4 * 16 + y / 16)
        ∷ letter (y % 16 * 4 + z / 64)
        ∷ letter (z % 64)
        ∷ s
    → (a ≡ x) × (b ≡ y) × (c ≡ z) × (r ≡ s)
same_block a b c x y z r s (ha, hb, hc) (hx, hy, hz) e =
    let (e0, t0) = uncons _ _ _ _ e in
    let (e1, t1) = uncons _ _ _ _ t0 in
    let (e2, t2) = uncons _ _ _ _ t1 in
    let (e3, t3) = uncons _ _ _ _ t2 in
    let (p, q, o) =
      block a b c x y z ha hb hc hx hy hz (letter_determines _ _ (omega arith) (omega arith) e0)
        (letter_determines _ _ (omega arith) (omega arith) e1)
        (letter_determines _ _ (omega arith) (omega arith) e2)
        (letter_determines _ _ (omega arith) (omega arith) e3) in
    (p, q, o, t3)

-- Byte strings of the same length with the same encoding are the same.
pub encode_injective :
    (xs ys : List ℕ)
    → All IsByte xs
    → All IsByte ys
    → length xs ≡ length ys
    → encode xs ≡ encode ys
    → xs ≡ ys
unfolding encode
encode_injective [] [] h k l e = refl
encode_injective [] (y ∷ ys) h k l e = ground arith
encode_injective (a ∷ []) [] h k l e = ground arith
encode_injective (a ∷ []) (x ∷ []) h k l e =
    let (e0, t0) = uncons _ _ _ _ e in
    let (e1, t1) = uncons _ _ _ _ t0 in
    let q = letter_determines (a / 4) (x / 4) (omega (arith, h.0)) (omega (arith, k.0)) e0 in
    let r = letter_determines (a % 4 * 16) (x % 4 * 16) (omega arith) (omega arith) e1 in
    ap (λ b. b ∷ []) (omega (arith, q, r))
encode_injective (a ∷ []) (x ∷ y ∷ ys) h k l e = ground arith
encode_injective (a ∷ b ∷ []) [] h k l e = ground arith
encode_injective (a ∷ b ∷ []) (x ∷ []) h k l e = ground arith
encode_injective (a ∷ b ∷ []) (x ∷ y ∷ []) (ha, (hb, _)) (hx, (hy, _)) l e =
    let (e0, t0) = uncons _ _ _ _ e in
    let (e1, t1) = uncons _ _ _ _ t0 in
    let (e2, t2) = uncons _ _ _ _ t1 in
    let (p, q, _) =
      block a b 0 x y 0 ha hb (omega arith) hx hy (omega arith)
        (letter_determines _ _ (omega arith) (omega arith) e0)
        (letter_determines _ _ (omega arith) (omega arith) e1)
        (omega (arith, letter_determines (b % 16 * 4) (y % 16 * 4) (omega arith) (omega arith) e2))
        refl in
    ap₂ (λ u v. u ∷ v) p (ap (λ u. u ∷ []) q)
encode_injective (a ∷ b ∷ []) (x ∷ y ∷ z ∷ ys) h k l e = ground arith
encode_injective (a ∷ b ∷ c ∷ r) [] h k l e = ground arith
encode_injective (a ∷ b ∷ c ∷ r) (x ∷ []) h k l e = ground arith
encode_injective (a ∷ b ∷ c ∷ r) (x ∷ y ∷ []) h k l e = ground arith
encode_injective (a ∷ b ∷ c ∷ r) (x ∷ y ∷ z ∷ s) (ha, (hb, (hc, hr))) (hx, (hy, (hz, hs))) l e =
    let (p, q, o, t) = same_block a b c x y z _ _ (ha, hb, hc) (hx, hy, hz) e in
    ap₂ (λ u v. u ∷ v) p
      (ap₂ (λ u v. u ∷ v) q (ap₂ (λ u v. u ∷ v) o (encode_injective r s hr hs (omega arith) t)))

pub append_injective :
    (xs ys us vs : List ℕ) → length xs ≡ length ys → xs ++ us ≡ ys ++ vs → (xs ≡ ys) × (us ≡ vs)
append_injective [] [] us vs l e = (refl, e)
append_injective [] (y ∷ ys) us vs l e = ground arith
append_injective (x ∷ xs) [] us vs l e = ground arith
append_injective (x ∷ xs) (y ∷ ys) us vs l e =
    let (head_same, rest_same) = uncons x y (xs ++ us) (ys ++ vs) e in
    let (front, back) = append_injective xs ys us vs (omega arith) rest_same in
    (ap₂ (λ u v. u ∷ v) head_same front, back)

pub All-append : (xs ys : List ℕ) → All IsByte xs → All IsByte ys → All IsByte (xs ++ ys)
All-append [] ys h k = k
All-append (x ∷ xs) ys h k = (h.0, All-append xs ys h.1 k)

-- A number that fits into `k` bytes.
abbrev pub FitsBytes : ℕ → ℕ → Type 0
FitsBytes zero n = n ≡ 0
FitsBytes (suc k) n = FitsBytes k (n / 256)

pub length-be_bytes : (k n : ℕ) → length (be_bytes k n) ≡ k
unfolding be_bytes
length-be_bytes zero n = refl
length-be_bytes (suc k) n =
    omega (arith, length-append (be_bytes k (n / 256)) (n % 256 ∷ []), length-be_bytes k (n / 256))

pub be_bytes-IsByte : (k n : ℕ) → All IsByte (be_bytes k n)
unfolding be_bytes
be_bytes-IsByte zero n = tt
be_bytes-IsByte (suc k) n =
    All-append (be_bytes k (n / 256)) (n % 256 ∷ []) (be_bytes-IsByte k (n / 256)) (omega arith, tt)

pub be_bytes_injective :
    (k n m : ℕ) → FitsBytes k n → FitsBytes k m → be_bytes k n ≡ be_bytes k m → n ≡ m
unfolding be_bytes
be_bytes_injective zero n m h l e = omega arith
be_bytes_injective (suc k) n m h l e =
    let (front, back) =
      append_injective (be_bytes k (n / 256)) (be_bytes k (m / 256)) (n % 256 ∷ []) (m % 256 ∷ [])
        (length-be_bytes k (n / 256) ∙ sym (length-be_bytes k (m / 256))) e in
    omega (arith, be_bytes_injective k (n / 256) (m / 256) h l front, ap (head_or 0) back)
