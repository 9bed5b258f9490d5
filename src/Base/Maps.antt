-- ===== src/Base/Maps.antt =====
-- Go maps with texts as keys: the entries, whose order nothing may depend on, and the order in which
-- `range` visits them, which is a function that visits each entry once.
use Prim.Native.Nat.{ℕ}
use mathlib.Core.Path.{◌≡◌}
use mathlib.Core.Bool.{Bool, not, ◌&&◌}
use mathlib.Core.Option.{Option, none, some}
use mathlib.Core.List.{List, [], ◌∷◌}
use native.Mathlib.Omega.{arith}
use filmstund.Base.Tests.{if◌then◌else◌, ◌==◌, texts, list_eq_iff}
use filmstund.Base.Lists.{count, select}
use filmstund.Base.Text.{Text}

abbrev pub GoMap : Type 0 → Type 0
GoMap V = List (Text × V)

-- What Go documents of `range`: each entry once, in any order.
pub record VisitsEach {V : Type 0} (range : GoMap V → GoMap V) : Type 0 where
  pub at : (p : Text × V → Bool) (m : GoMap V) → count p (range m) ≡ count p m

module _ {V : Type 0} where
  -- `m[k] = v`
  unfoldable pub put : Text → V → GoMap V → GoMap V
  put k v m = (k, v) ∷ select (λ (e : Text × V). not (e.0 == k)) m

  -- Whether a value is there and passes the test.
  abbrev pub holds : (V → Bool) → Option V → ℕ
  holds p none = 0
  holds p (some v) = if p v then 1 else 0

  abbrev pub at_key : Text → (V → Bool) → Text × V → Bool
  at_key k p e = e.0 == k && p e.1

  dropped :
      (j k : Text) (p : V → Bool) (m : GoMap V)
      → count (at_key k p) (select (λ (e : Text × V). not (e.0 == j)) m)
        ≡ (if j == k then 0 else count (at_key k p) m)
  dropped j k p [] = ground arith
  dropped j k p (e ∷ m) =
      ground (arith, list_eq_iff e.0 j, list_eq_iff e.0 k, list_eq_iff j k, dropped j k p m)

  -- A key has the value that was put last.
  pub count-put :
      (j k : Text) (v : V) (p : V → Bool) (m : GoMap V)
      → count (at_key k p) (put j v m) ≡ (if j == k then holds p (some v) else count (at_key k p) m)
  unfolding put
  count-put j k v p m = ground (arith, dropped j k p m)
