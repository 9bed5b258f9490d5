-- ===== src/Dao/Locations.antt =====
-- internal/database/dao/locations.sql.go.
use filmstund.Base.{
  ℕ, ◌≡◌, refl, ap, ◌∙◌, Bool, true, false, not, ◌&&◌, List, [], ◌∷◌, map, any, count, select,
  order_by, ltb, ◌==◌, texts, list_eq_iff, if◌then◌else◌, arith,
}
use filmstund.Base.Sorting.{IsOrder, IsSorted, order_by-IsSorted, count-order_by}
use filmstund.Base.Text.{Text}
use filmstund.Database.{Showing, Db, ok, Statement}

abbrev pub is_blank : Text → Bool
is_blank [] = true
is_blank (c ∷ t) = false

-- The `WHERE`
abbrev pub used : List Showing → List Text
used showings = select (λ t. not (is_blank t)) (map (λ (s : Showing). s.location) showings)

-- The `GROUP BY`: each location once.
unfoldable pub groups : List Text → List Text
groups [] = []
groups (t ∷ ts) = t ∷ select (λ u. not (u == t)) (groups ts)

-- `count(location)`
abbrev pub uses : List Text → Text → ℕ
uses ts t = count (λ u. u == t) ts

abbrev pub more_used : List Text → Text → Text → Bool
more_used ts t u = ltb (uses ts u) (uses ts t)

-- `grouped` is the order in which the server comes upon the groups.
unfoldable pub previously_used_locations : (List Text → List Text) → Statement (List Text)
unfolding groups
previously_used_locations grouped now db =
    let ts = used db.showings in ok (order_by (more_used ts) (grouped (groups ts)), db)

-- The groups in any order.
pub record VisitsGroups (grouped : List Text → List Text) : Type 0 where
  pub at : (p : Text → Bool) (ts : List Text) → count p (grouped ts) ≡ count p ts

more_used-IsOrder : (ts : List Text) → IsOrder (more_used ts)
more_used-IsOrder ts = record { asymm = λ t u h. ground arith; chain = λ t u v h k. ground arith }

count-dropped :
    (t u : Text) (ts : List Text)
    → count (λ k. k == t) (select (λ k. not (k == u)) ts)
      ≡ (if u == t then 0 else count (λ k. k == t) ts)
count-dropped t u [] = ground arith
count-dropped t u (k ∷ ts) =
    ground (arith, list_eq_iff k t, list_eq_iff k u, list_eq_iff u t, count-dropped t u ts)

count-groups :
    (t : Text) (ts : List Text)
    → count (λ k. k == t) (groups ts) ≡ (if any (λ k. k == t) ts then 1 else 0)
unfolding groups
count-groups t [] = refl
count-groups t (u ∷ ts) = ground (arith, count-dropped t u (groups ts), count-groups t ts)

-- A location is used if a showing has it.
abbrev pub is_at : Text → Showing → Bool
is_at t s = s.location == t

same_blank : (t u : Text) → t ≡ u → is_blank t ≡ is_blank u
same_blank t u e = ap is_blank e

any-used :
    (t : Text) (showings : List Showing)
    → any (λ k. k == t) (used showings) ≡ (not (is_blank t) && any (is_at t) showings)
any-used t [] = ground arith
any-used t (s ∷ showings) =
    ground (arith, list_eq_iff s.location t, same_blank s.location t, any-used t showings)

-- The locations that showings have, each once and without the empty one, the more used ones first, in
-- whatever order the server comes upon the groups.
pub previously_used_locations-IsSorted :
    (grouped : List Text → List Text) (now : ℕ) (db : Db)
    → VisitsGroups grouped
    → (ts : List Text) × (previously_used_locations grouped now db ≡ ok (ts, db))
      × IsSorted (more_used (used db.showings)) ts
      × ((t : Text)
          → count (λ k. k == t) ts
            ≡ (if not (is_blank t) && any (is_at t) db.showings then 1 else 0))
unfolding previously_used_locations
previously_used_locations-IsSorted grouped now db v =
    let before = more_used (used db.showings) in
    let found = grouped (groups (used db.showings)) in
    (
      order_by before found,
      refl,
      order_by-IsSorted before (more_used-IsOrder (used db.showings)) found,
      λ t.
          count-order_by before (λ k. k == t) found
          ∙ v.at (λ k. k == t) (groups (used db.showings))
          ∙ count-groups t (used db.showings)
          ∙ ap (λ b. if b then 1 else 0) (any-used t db.showings),
    )
