-- ===== src/Base/Splitting.antt =====
-- strings.Split and strings.Join, at a separator of one byte.
use Prim.Native.Nat.{ℕ}
use mathlib.Core.Path.{◌≡◌, refl, ◌∙◌, ap}
use mathlib.Core.Bool.{Bool, false}
use mathlib.Core.List.{List, [], ◌∷◌, ◌++◌}
use native.Mathlib.Omega.{arith}
use filmstund.Base.Tests.{nat_eq, if◌then◌else◌}
use filmstund.Base.Lists.{any, All}
use filmstund.Base.Text.{Text}

abbrev in_front : ℕ → List Text → List Text
in_front c [] = (c ∷ []) ∷ []
in_front c (part ∷ parts) = (c ∷ part) ∷ parts

-- `strings.Split`
unfoldable pub split_at : ℕ → Text → List Text
split_at sep [] = [] ∷ []
split_at sep (c ∷ t) =
    let parts = split_at sep t in if nat_eq c sep then [] ∷ parts else in_front c parts

-- `strings.Join`
unfoldable pub join : ℕ → List Text → Text
join sep [] = []
join sep (t ∷ []) = t
join sep (t ∷ u ∷ ts) = t ++ sep ∷ join sep (u ∷ ts)

abbrev pub has_byte : ℕ → Text → Bool
has_byte sep t = any (λ c. nat_eq c sep) t

-- A part does not contain the separator.
abbrev pub IsPart : ℕ → Text → Type 0
IsPart sep t = has_byte sep t ≡ false

pub split_last : (sep : ℕ) (t : Text) → IsPart sep t → split_at sep t ≡ t ∷ []
unfolding split_at
split_last sep [] h = refl
split_last sep (c ∷ t) h = ground (arith, split_last sep t)

pub split_part :
    (sep : ℕ) (t rest : Text)
    → IsPart sep t
    → split_at sep (t ++ sep ∷ rest) ≡ t ∷ split_at sep rest
unfolding split_at
split_part sep [] rest h = ground arith
split_part sep (c ∷ t) rest h = ground (arith, split_part sep t rest)

-- The parts are read back.
pub split_at-join :
    (sep : ℕ) (t : Text) (ts : List Text)
    → All (IsPart sep) (t ∷ ts)
    → split_at sep (join sep (t ∷ ts)) ≡ t ∷ ts
unfolding join
split_at-join sep t [] h = split_last sep t h.0
split_at-join sep t (u ∷ ts) h =
    split_part sep t (join sep (u ∷ ts)) h.0 ∙ ap (λ parts. t ∷ parts) (split_at-join sep u ts h.1)
