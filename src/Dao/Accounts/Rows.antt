-- ===== src/Dao/Accounts/Rows.antt =====
-- Rows of users that are looked for, updated and given back.
use filmstund.Base.{
  ℕ, ◌≡◌, refl, sym, ◌∙◌, Bool, true, false, ◌||◌, Option, none, some, List, [], ◌∷◌, any, find,
  ids, texts, nat_eq, if◌then◌else◌, Bool-cases, Option-cases, inl, inr, arith,
}
use filmstund.Base.Keys.{DistinctBy, any-map_kept}
use filmstund.Base.Text.{Text}
use filmstund.Database.{Uuid, User, Db}
use filmstund.Dao.Consistency.Rules.{Outcome}
use filmstund.Dao.Accounts.{is_subject, id_eq, update_subject, updated_row}
use filmstund.Dao.Accounts.Updates.{holds}
use filmstund.Dao.Accounts.Keys.{HasUsers, same_feed}

pub any_nothing : (xs : List User) → any (λ (x : User). false) xs ≡ false
any_nothing [] = refl
any_nothing (x ∷ xs) = any_nothing xs

pub any-or :
    (p q : User → Bool) (xs : List User)
    → any (λ (x : User). p x || q x) xs ≡ false
    → (any p xs ≡ false) × (any q xs ≡ false)
any-or p q [] h = (refl, refl)
any-or p q (x ∷ xs) h = ground (arith, any-or p q xs)

pub any_same :
    (p q : User → Bool) (xs : List User)
    → ((x : User) → p x ≡ q x)
    → any q xs ≡ false
    → any p xs ≡ false
any_same p q [] same h = refl
any_same p q (x ∷ xs) same h = ground (arith, same x, any_same p q xs same)

pub holds-id_eq : (o : Option Uuid) (i : Uuid) → holds nat_eq o i ≡ id_eq o i
holds-id_eq none i = refl
holds-id_eq (some j) i = refl

pub nat_eq_swap : (a b : ℕ) → nat_eq a b ≡ nat_eq b a
nat_eq_swap a b = ground arith

pub any_seen : (p : User → Bool) (xs : List User) (u : User) → find p xs ≡ some u → any p xs ≡ true
any_seen p [] u h = cc
any_seen p (x ∷ xs) u h = ground (arith, any_seen p xs u)

pub any-is_subject_update :
    (subject : Text) (f : User → User) (users : List User)
    → ((u : User) → (f u).subject_id ≡ u.subject_id)
    → any (is_subject subject) (update_subject subject f users) ≡ any (is_subject subject) users
any-is_subject_update subject f users same =
    any-map_kept (is_subject subject) (λ (u : User). if is_subject subject u then f u else u) users
      kept
  where
    kept :
        (u : User)
        → is_subject subject (if is_subject subject u then f u else u) ≡ is_subject subject u
    kept u = elim (Bool-cases (is_subject subject u)) [
      | inl mine ↦ rw (mine, same u) mine
      | inr other ↦ rw other other
    ]

pub updated_row-Keeps :
    (subject : Text) (f : User → User) (now : ℕ) (db : Db)
    → ((u : User) → (f u).subject_id ≡ u.subject_id)
    → (any (is_subject subject) db.users ≡ true
        → HasUsers (record db { users = update_subject subject f db.users }))
    → Outcome HasUsers (updated_row subject f now db)
updated_row-Keeps subject f now db same h =
    elim (Option-cases (find (is_subject subject) (update_subject subject f db.users))) [
      | inl e ↦ rw e tt
      | inr (u, e) ↦ rw e (
          h (
            sym (any-is_subject_update subject f db.users same)
            ∙ any_seen (is_subject subject) (update_subject subject f db.users) u e))
    ]

-- An update that clears the feed makes no clash.
pub DistinctBy-clear :
    (subject : Text) (users : List User)
    → DistinctBy same_feed users
    → DistinctBy same_feed
        (update_subject subject (λ u. record u { calendar_feed_id = none }) users)
DistinctBy-clear subject [] h = tt
DistinctBy-clear subject (u ∷ users) h = (cleared u users h.0, DistinctBy-clear subject users h.1)
  where
    cleared :
        (v : User) (users : List User)
        → any (same_feed v) users ≡ false
        → any
            (same_feed (if is_subject subject v then record v { calendar_feed_id = none } else v))
            (update_subject subject (λ u. record u { calendar_feed_id = none }) users)
          ≡ false
    cleared v [] h = refl
    cleared v (w ∷ users) h = ground (arith, cleared v users (ground arith))
