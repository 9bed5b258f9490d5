-- ===== src/Graph/PublicUsers.antt =====
-- `newPublicUserLoader` (internal/graph/dataloader/ctx.go): users fetched in batches.
use filmstund.Base.{
  ℕ, ◌≡◌, refl, ap, Bool, true, Option, none, some, List, [], ◌∷◌, map, any, find, select, All,
  nat_eq, ◌==◌, ids, Bool-cases, inl, inr, if◌then◌else◌, arith,
}
use filmstund.Base.Keys.{All-mono}
use filmstund.Database.{
  Uuid, User, Db, DbError, Action, World, ok, err, connection_lost, is_down, pool, exec, pure,
  ◌>>=◌,
}
use filmstund.Database.Execution.{reachable}
use filmstund.Dao.Users.{PublicUserRow, public_row, list_public_users}

-- The closure `lookup`: nothing stands for `nil`.
unfoldable pub lookup : List PublicUserRow → Uuid → Option PublicUserRow
lookup users key = find (λ (u : PublicUserRow). u.id == key) users

-- The function `fetch` of the loader; a `PublicUser` has the columns of the row.
unfoldable pub fetch : List Uuid → Action DbError (List (Option PublicUserRow))
unfolding lookup
fetch keys = do users ← exec pool (list_public_users keys); pure (map (lookup users) keys)

-- The user that a query for this key alone would find.
abbrev pub shown : Option User → Option PublicUserRow
shown none = none
shown (some u) = some (public_row u)

abbrev pub user_for : Db → Uuid → Option PublicUserRow
user_for db key = shown (find (λ (u : User). u.id == key) db.users)

abbrev is_wanted : List Uuid → Uuid → Bool
is_wanted wanted k = any (λ (i : Uuid). k == i) wanted

same_wanted :
    (wanted : List Uuid) (a b : Uuid)
    → nat_eq a b ≡ true
    → is_wanted wanted b ≡ true
    → is_wanted wanted a ≡ true
same_wanted [] a b e h = h
same_wanted (k ∷ wanted) a b e h = ground (arith, same_wanted wanted a b)

wanted_found :
    (wanted : List Uuid) (key : Uuid) (users : List User)
    → is_wanted wanted key ≡ true
    → lookup (map public_row (select (λ (u : User). is_wanted wanted u.id) users)) key
      ≡ shown (find (λ (u : User). u.id == key) users)
unfolding lookup
wanted_found wanted key [] h = refl
wanted_found wanted key (u ∷ users) h = elim (Bool-cases (nat_eq u.id key)) [
  | inl here ↦ rw (here, same_wanted wanted u.id key here h, here) refl
  | inr elsewhere ↦ elim (Bool-cases (is_wanted wanted u.id)) [
    | inl also ↦ rw (also, elsewhere) (wanted_found wanted key users h)
    | inr skipped ↦ rw (skipped, elsewhere) (wanted_found wanted key users h)
  ]
]

keys_found :
    (wanted keys : List Uuid) (users : List User)
    → All (λ k. is_wanted wanted k ≡ true) keys
    → map (lookup (map public_row (select (λ (u : User). is_wanted wanted u.id) users))) keys
      ≡ map (λ key. shown (find (λ (u : User). u.id == key) users)) keys
keys_found wanted [] users h = refl
keys_found wanted (k ∷ keys) users h =
    rw (wanted_found wanted k users h.0, keys_found wanted keys users h.1) refl

each_wanted : (wanted : List Uuid) → All (λ k. is_wanted wanted k ≡ true) wanted
each_wanted [] = tt
each_wanted (k ∷ wanted) = (
  ground arith,
  All-mono (λ x. is_wanted wanted x ≡ true) (λ x. is_wanted (k ∷ wanted) x ≡ true) wanted
      (λ x h. ground arith) (each_wanted wanted),
)

-- What a batch gets from a database in any state.
pub fetch-run :
    (keys : List Uuid) (w : World)
    → (fetch keys w).0
      ≡ (if is_down w.faults then err connection_lost else ok (map (user_for w.db) keys))
unfolding fetch exec list_public_users pure ◌>>=◌
fetch-run keys w = ground (arith, keys_found keys keys w.db.users (each_wanted keys))

-- A batch answers each key, in the order of the keys, as a query for that key alone would, also
-- where a key is repeated or unknown, if the database answers.
fetch-user_for :
    (keys : List Uuid) (db : Db) (now : ℕ)
    → fetch keys (reachable db now) ≡ (ok (map (user_for db) keys), reachable db now)
unfolding fetch exec list_public_users pure ◌>>=◌
fetch-user_for keys db now =
    ap (λ models. (ok models, reachable db now)) (keys_found keys keys db.users (each_wanted keys))
