-- ===== src/Base/Keys.antt =====
-- Keys of a table, which no two rows share, and properties of all rows, under the ways in which a
-- statement changes a table: a row is appended, rows are removed, rows are updated.
use mathlib.Core.Path.{◌≡◌, refl}
use mathlib.Core.Logic.{inl, inr}
use mathlib.Core.Bool.{Bool, true, false}
use mathlib.Core.List.{List, [], ◌∷◌, ◌++◌, map}
use native.Mathlib.Omega.{arith}
use filmstund.Base.Tests.{if◌then◌else◌, Bool-cases}
use filmstund.Base.Lists.{any, select, All}

module _ {ℓ} {A : Type ℓ} where
  -- No two rows clash; `clash x y` is asked of an earlier row `x` and a later row `y`.
  abbrev pub DistinctBy : (A → A → Bool) → List A → Type 0
  DistinctBy clash [] = Unit {0}
  DistinctBy clash (x ∷ xs) = (any (clash x) xs ≡ false) × DistinctBy clash xs

  any-snoc_false :
      (p : A → Bool) (xs : List A) (y : A)
      → any p xs ≡ false
      → p y ≡ false
      → any p (xs ++ y ∷ []) ≡ false
  any-snoc_false p [] y h k = ground arith
  any-snoc_false p (x ∷ xs) y h k = ground (arith, any-snoc_false p xs y)

  pub DistinctBy-snoc :
      (clash : A → A → Bool) (xs : List A) (y : A)
      → DistinctBy clash xs
      → any (λ x. clash x y) xs ≡ false
      → DistinctBy clash (xs ++ y ∷ [])
  DistinctBy-snoc clash [] y h k = (refl, tt)
  DistinctBy-snoc clash (x ∷ xs) y h k =
      ground (arith, any-snoc_false (clash x) xs y, DistinctBy-snoc clash xs y h.1)

  any-select-false : (p q : A → Bool) (xs : List A) → any p xs ≡ false → any p (select q xs) ≡ false
  any-select-false p q [] h = refl
  any-select-false p q (x ∷ xs) h = ground (arith, any-select-false p q xs)

  pub DistinctBy-select :
      (clash : A → A → Bool) (q : A → Bool) (xs : List A)
      → DistinctBy clash xs
      → DistinctBy clash (select q xs)
  DistinctBy-select clash q [] h = tt
  DistinctBy-select clash q (x ∷ xs) h =
      ground (arith, any-select-false (clash x) q xs, DistinctBy-select clash q xs h.1)

  any-map_same :
      (p q : A → Bool) (f : A → A) (xs : List A)
      → ((x : A) → p (f x) ≡ q x)
      → any p (map f xs) ≡ any q xs
  any-map_same p q f [] h = refl
  any-map_same p q f (x ∷ xs) h = ground (arith, h x, any-map_same p q f xs h)

  pub DistinctBy-map :
      (clash : A → A → Bool) (f : A → A) (xs : List A)
      → ((x y : A) → clash (f x) (f y) ≡ clash x y)
      → DistinctBy clash xs
      → DistinctBy clash (map f xs)
  DistinctBy-map clash f [] same h = tt
  DistinctBy-map clash f (x ∷ xs) same h = ground (
    arith,
    any-map_same (clash (f x)) (clash x) f xs (same x),
    DistinctBy-map clash f xs same h.1,
  )

  -- A test that an update does not change finds the same rows.
  pub any-map_kept :
      (p : A → Bool) (f : A → A) (xs : List A)
      → ((x : A) → p (f x) ≡ p x)
      → any p (map f xs) ≡ any p xs
  any-map_kept p f xs h = any-map_same p p f xs h

  pub any-snoc_true :
      (p : A → Bool) (xs : List A) (y : A) → any p xs ≡ true → any p (xs ++ y ∷ []) ≡ true
  any-snoc_true p [] y h = ground arith
  any-snoc_true p (x ∷ xs) y h = ground (arith, any-snoc_true p xs y)

  pub any-select_kept :
      (p q : A → Bool) (xs : List A)
      → ((x : A) → p x ≡ true → q x ≡ true)
      → any p xs ≡ true
      → any p (select q xs) ≡ true
  any-select_kept p q [] keep h = h
  any-select_kept p q (x ∷ xs) keep h = ground (arith, keep x, any-select_kept p q xs keep)

module _ {ℓ κ} {A : Type ℓ} (P : A → Type κ) where
  pub All-snoc : (xs : List A) (y : A) → All P xs → P y → All P (xs ++ y ∷ [])
  All-snoc [] y h k = (k, tt)
  All-snoc (x ∷ xs) y h k = (h.0, All-snoc xs y h.1 k)

  pub All-map_update :
      (f : A → A) (xs : List A) → ((x : A) → P x → P (f x)) → All P xs → All P (map f xs)
  All-map_update f [] keep h = tt
  All-map_update f (x ∷ xs) keep h = (keep x h.0, All-map_update f xs keep h.1)

  All-if : (b : Bool) (x : A) (xs : List A) → P x → All P xs → All P (if b then x ∷ xs else xs)
  All-if true x xs h k = (h, k)
  All-if false x xs h k = k

  pub All-select : (q : A → Bool) (xs : List A) → All P xs → All P (select q xs)
  All-select q [] h = tt
  All-select q (x ∷ xs) h = All-if (q x) x (select q xs) h.0 (All-select q xs h.1)

module _ {ℓ κ ι} {A : Type ℓ} (P : A → Type κ) (Q : A → Type ι) where
  pub All-mono : (xs : List A) → ((x : A) → P x → Q x) → All P xs → All Q xs
  All-mono [] imp h = tt
  All-mono (x ∷ xs) imp h = (imp x h.0, All-mono xs imp h.1)

  pub All-select_mono :
      (q : A → Bool) (xs : List A)
      → ((x : A) → q x ≡ true → P x → Q x)
      → All P xs
      → All Q (select q xs)
  All-select_mono q [] imp h = tt
  All-select_mono q (x ∷ xs) imp h = elim (Bool-cases (q x)) [
    | inl kept ↦ rw kept (imp x kept h.0, All-select_mono q xs imp h.1)
    | inr dropped ↦ rw dropped (All-select_mono q xs imp h.1)
  ]
