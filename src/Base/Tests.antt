-- ===== src/Base/Tests.antt =====
-- Boolean tests on the native numbers, equality as an interface, and the conditional.
use Prim.Native.Nat.{ℕ, ◌≤◌, ◌<◌, compare, Ordering}
use mathlib.Core.Path.{◌≡◌, refl, sym, ◌∙◌}
use mathlib.Core.Logic.{◌↔◌, ◌⊎◌, inl, inr}
use mathlib.Core.Bool.{Bool, true, false, ◌&&◌}
use mathlib.Core.List.{List, [], ◌∷◌}
use mathlib.Core.Option.{Option, none, some}
use native.Mathlib.Omega.{arith}

-- These compute to `compare`, which `ground` and `grind` read with no lemma listed.
abbrev pub ltb : ℕ → ℕ → Bool
ltb a b = elim (compare a b) [ Ordering.lt ↦ true | _ ↦ false ]

abbrev pub leb : ℕ → ℕ → Bool
leb a b = elim (compare a b) [ Ordering.gt ↦ false | _ ↦ true ]

abbrev pub nat_eq : ℕ → ℕ → Bool
nat_eq a b = elim (compare a b) [ Ordering.eq ↦ true | _ ↦ false ]

pub nat_eq_iff : (a b : ℕ) → (nat_eq a b ≡ true) ↔ (a ≡ b)
nat_eq_iff a b = ground arith

-- Equality of lists of numbers.
unfoldable pub list_eq : List ℕ → List ℕ → Bool
list_eq [] [] = true
list_eq [] (b ∷ bs) = false
list_eq (a ∷ as') [] = false
list_eq (a ∷ as') (b ∷ bs) = nat_eq a b && list_eq as' bs

list_eq_sound : (a b : List ℕ) → list_eq a b ≡ true → a ≡ b
unfolding list_eq
list_eq_sound [] [] h = refl
list_eq_sound [] (b ∷ bs) h = cc
list_eq_sound (a ∷ xs) [] h = cc
list_eq_sound (a ∷ xs) (b ∷ bs) h = ground (arith, list_eq_sound xs bs)

list_eq_self : (a : List ℕ) → list_eq a a ≡ true
unfolding list_eq
list_eq_self [] = refl
list_eq_self (a ∷ xs) = ground (arith, list_eq_self xs)

pub list_eq_iff : (a b : List ℕ) → (list_eq a b ≡ true) ↔ (a ≡ b)
list_eq_iff a b = (list_eq_sound a b, λ e. ground (arith, list_eq_self a))

-- Types whose values the database compares: identifiers and texts.
pub record Comparable {ℓ} (A : Type ℓ) : Type ℓ where
  pub same : A → A → Bool
  pub same_iff : (a b : A) → (same a b ≡ true) ↔ (a ≡ b)

instance abbrev pub ids : Comparable ℕ
ids = record { same = nat_eq; same_iff = nat_eq_iff }

instance abbrev pub texts : Comparable (List ℕ)
texts = record { same = list_eq; same_iff = list_eq_iff }

infix 50 ◌==◌
abbrev pub ◌==◌ {ℓ} : {A : Type ℓ} ⦃c : Comparable A⦄ → A → A → Bool
◌==◌ ⦃c⦄ a b = c.same a b

infix 1 if◌then◌else◌
abbrev pub if◌then◌else◌ {ℓ} : {A : Type ℓ} → Bool → A → A → A
if true then x else y = x
if false then x else y = y

-- `omega` reads a test through such lemmas.
pub ltb→lt : (a b : ℕ) → ltb a b ≡ true → a < b
ltb→lt a b h = ground arith

pub leb→le : (a b : ℕ) → leb a b ≡ true → a ≤ b
leb→le a b h = ground arith

-- To split on a computed value and keep the equation.
pub Bool-cases : (b : Bool) → (b ≡ true) ⊎ (b ≡ false)
Bool-cases true = inl refl
Bool-cases false = inr refl

pub Option-cases {ℓ} : {A : Type ℓ} (o : Option A) → (o ≡ none) ⊎ ((a : A) × (o ≡ some a))
Option-cases none = inl refl
Option-cases (some a) = inr (a, refl)

abbrev pub is_some {ℓ} : {A : Type ℓ} → Option A → Bool
is_some none = false
is_some (some a) = true

pub list_eq_swap : (a b : List ℕ) → list_eq a b ≡ list_eq b a
list_eq_swap a b = elim (Bool-cases (list_eq a b)) [
  | inl yes_ab ↦
      let e : a ≡ b = (list_eq_iff a b).0 yes_ab in yes_ab ∙ sym ((list_eq_iff b a).1 (sym e))
  | inr no_ab ↦ elim (Bool-cases (list_eq b a)) [
    | inr no_ba ↦ no_ab ∙ sym no_ba
    | inl yes_ba ↦
        let e : b ≡ a = (list_eq_iff b a).0 yes_ba in
        let k : list_eq a b ≡ true = (list_eq_iff a b).1 (sym e) in cc
  ]
]
