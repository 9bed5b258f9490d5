-- ===== src/Base/Sorting.antt =====
-- `order_by` sorts, and texts have Go's order of strings.
use Prim.Native.Nat.{◌+◌}
use mathlib.Core.Path.{◌≡◌, refl}
use mathlib.Core.Bool.{Bool, true, false, ◌||◌, ◌&&◌}
use mathlib.Core.Logic.{inl, inr}
use mathlib.Core.List.{List, [], ◌∷◌}
use native.Mathlib.Omega.{arith}
use filmstund.Base.Tests.{if◌then◌else◌, ltb, nat_eq, Bool-cases}
use filmstund.Base.Lists.{any, count, insert_by, order_by}
use filmstund.Base.Keys.{DistinctBy}
use filmstund.Base.Text.{Text}

-- A strict order up to ties.
pub record IsOrder {ℓ} {A : Type ℓ} (before : A → A → Bool) : Type ℓ where
  pub asymm : (x y : A) → before x y ≡ true → before y x ≡ false
  pub chain : (x y z : A) → before z y ≡ false → before y x ≡ false → before z x ≡ false

module _ {ℓ} {A : Type ℓ} (before : A → A → Bool) where
  -- Nothing that stands later must precede what stands earlier.
  abbrev pub IsSorted : List A → Type 0
  IsSorted xs = DistinctBy (λ x y. before y x) xs

  -- An ordered list has the elements that it was made of.
  any-insert_by :
      (p : A → Bool) (x : A) (ys : List A) → any p (insert_by before x ys) ≡ (p x || any p ys)
  unfolding insert_by
  any-insert_by p x [] = refl
  any-insert_by p x (y ∷ ys) = ground (arith, any-insert_by p x ys)

  count-insert_by :
      (p : A → Bool) (x : A) (ys : List A)
      → count p (insert_by before x ys) ≡ (if p x then 1 else 0) + count p ys
  unfolding insert_by
  count-insert_by p x [] = ground arith
  count-insert_by p x (y ∷ ys) = ground (arith, count-insert_by p x ys)

  pub count-order_by : (p : A → Bool) (xs : List A) → count p (order_by before xs) ≡ count p xs
  unfolding order_by
  count-order_by p [] = refl
  count-order_by p (x ∷ xs) =
      ground (arith, count-insert_by p x (order_by before xs), count-order_by p xs)

  module _ (order : IsOrder before) where
    none_before :
        (x y : A) (zs : List A)
        → before y x ≡ false
        → any (λ z. before z y) zs ≡ false
        → any (λ z. before z x) zs ≡ false
    none_before x y [] e h = refl
    none_before x y (z ∷ zs) e h = ground (arith, order.chain x y z, none_before x y zs e)

    insert_by-IsSorted : (x : A) (ys : List A) → IsSorted ys → IsSorted (insert_by before x ys)
    unfolding insert_by
    insert_by-IsSorted x [] h = ground arith
    insert_by-IsSorted x (y ∷ ys) h = elim (Bool-cases (before y x)) [
      | inl first ↦ rw first (
        ground (arith, any-insert_by (λ z. before z y) x ys, order.asymm y x first),
        insert_by-IsSorted x ys h.1,
      )
      | inr not_first ↦ rw not_first (ground (arith, none_before x y ys not_first h.0), h)
    ]

    pub order_by-IsSorted : (xs : List A) → IsSorted (order_by before xs)
    unfolding order_by
    order_by-IsSorted [] = tt
    order_by-IsSorted (x ∷ xs) = insert_by-IsSorted x (order_by before xs) (order_by-IsSorted xs)

-- Go's `<` on strings.
unfoldable pub text_before : Text → Text → Bool
text_before [] [] = false
text_before [] (d ∷ u) = true
text_before (c ∷ t) [] = false
text_before (c ∷ t) (d ∷ u) = ltb c d || (nat_eq c d && text_before t u)

before_asymm : (t u : Text) → text_before t u ≡ true → text_before u t ≡ false
unfolding text_before
before_asymm [] [] h = refl
before_asymm [] (d ∷ u) h = refl
before_asymm (c ∷ t) [] h = cc
before_asymm (c ∷ t) (d ∷ u) h = ground (arith, before_asymm t u)

before_chain :
    (t u v : Text) → text_before v u ≡ false → text_before u t ≡ false → text_before v t ≡ false
unfolding text_before
before_chain [] u [] h k = refl
before_chain [] u (e ∷ v) h k = refl
before_chain (c ∷ t) [] v h k = cc
before_chain (c ∷ t) (d ∷ u) [] h k = cc
before_chain (c ∷ t) (d ∷ u) (e ∷ v) h k = ground (arith, before_chain t u v)

pub text_before-IsOrder : IsOrder text_before
text_before-IsOrder = record { asymm = before_asymm; chain = before_chain }
