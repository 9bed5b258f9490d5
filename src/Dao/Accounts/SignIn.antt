-- ===== src/Dao/Accounts/SignIn.antt =====
-- `CreateUpdateUser` gives a subject one row and one identifier.
use mathlib.Core.List.{append-nil}
use filmstund.Base.{
  ℕ, ◌+◌, ◌<◌, ◌≤◌, count, select, not, select-append, count_of_none, false, ◌≡◌, refl, sym, ap,
  ◌∙◌, ◌⊎◌, inl, inr, Bool, true, ◌||◌, Option, none, some, List, [], ◌∷◌, ◌++◌, any, find, ◌==◌,
  ids, texts, list_eq_iff, Bool-cases, arith,
}
use filmstund.Base.Text.{Text}
use filmstund.Database.{Uuid, User, Db, ok}
use filmstund.Dao.Accounts.{
  is_subject, id_eq, update_subject, CreateUpdateUserParams, new_user, signed_in, login_row,
  create_update_user,
}

find-append :
    (p : User → Bool) (xs : List User) (y : User)
    → find p xs ≡ none
    → p y ≡ true
    → find p (xs ++ y ∷ []) ≡ some y
find-append p [] y h k = rw k refl
find-append p (x ∷ xs) y h k = elim (Bool-cases (p x)) [
  | inl here ↦ ground (arith, here)
  | inr there ↦ rw there (find-append p xs y (rw there at h) k)
]

find-update_subject :
    (subject : Text) (f : User → User) (xs : List User) (u : User)
    → ((v : User) → (f v).subject_id ≡ v.subject_id)
    → find (is_subject subject) xs ≡ some u
    → find (is_subject subject) (update_subject subject f xs) ≡ some (f u)
find-update_subject subject f [] u same h = cc
find-update_subject subject f (x ∷ xs) u same h = elim (Bool-cases (is_subject subject x)) [
  | inl here ↦
      let e : x ≡ u = ground (arith, here) in
      let still : is_subject subject (f x) ≡ true =
        ap (λ (t : Text). t == subject) (same x) ∙ here in
      rw (here, still) (ap (λ (v : User). some (f v)) e)
  | inr there ↦ rw (there, there) (find-update_subject subject f xs u same (rw there at h))
]

-- What a login leaves in the row of its subject, for a new user and for one who comes back.
abbrev pub Remembers : CreateUpdateUserParams → ℕ → Db → User → Type 0
Remembers p now db v =
    (v.email ≡ p.email)
    × (v.avatar ≡ p.avatar)
    × (v.last_login_time ≡ now)
    × (((find (is_subject p.subject) db.users ≡ none)
          × (v.first_name ≡ p.first_name)
          × (v.last_name ≡ p.last_name)
          × (v.nick ≡ p.nick)
          × (v.signup_time ≡ now))
        ⊎ ((u : User) × (find (is_subject p.subject) db.users ≡ some u)
            × (v.id ≡ u.id)
            × (v.first_name ≡ u.first_name)
            × (v.last_name ≡ u.last_name)
            × (v.nick ≡ u.nick)
            × (v.phone ≡ u.phone)
            × (v.filmstaden_membership_id ≡ u.filmstaden_membership_id)
            × (v.calendar_feed_id ≡ u.calendar_feed_id)
            × (v.signup_time ≡ u.signup_time)))

abbrev Logged : CreateUpdateUserParams → ℕ → Db → Uuid → Db → Type 0
Logged p now db i db' =
    (v : User) × (find (is_subject p.subject) db'.users ≡ some v)
    × (v.id ≡ i)
    × Remembers p now db v

module _ (p : CreateUpdateUserParams) (id feed : Uuid) (now : ℕ) (db db' : Db) (i : Uuid) where
  row_left :
      (o : Option User)
      → find (is_subject p.subject) db.users ≡ o
      → login_row o p id feed now db ≡ ok (i, db')
      → Logged p now db i db'
  row_left none absent e =
      elim (Bool-cases (any (λ (u : User). u.id == id || id_eq u.calendar_feed_id feed) db.users)) [
        | inl clash ↦ ground (arith, clash, e)
        | inr free ↦
            let same : record db { users = db.users ++ new_user p id feed now ∷ [] } ≡ db' =
              ground (arith, free, e) in
            let own : id ≡ i = ground (arith, free, e) in
            (
              new_user p id feed now,
              ap (λ (d : Db). find (is_subject p.subject) d.users) (sym same)
                  ∙ find-append (is_subject p.subject) db.users (new_user p id feed now) absent
                      ((list_eq_iff p.subject p.subject).1 refl),
              own,
              (refl, refl, refl, inl (absent, refl, refl, refl, refl)),
            )
      ]
  row_left (some u) present e =
      let same : record db { users = update_subject p.subject (signed_in p now) db.users } ≡ db' =
        ground (arith, e) in
      let own : u.id ≡ i = ground (arith, e) in
      (
        signed_in p now u,
        ap (λ (d : Db). find (is_subject p.subject) d.users) (sym same)
            ∙ find-update_subject p.subject (signed_in p now) db.users u (λ v. refl) present,
        own,
        (refl, refl, refl, inr (u, present, refl, refl, refl, refl, refl, refl, refl, refl)),
      )

count_found : (p : User → Bool) (xs : List User) (u : User) → find p xs ≡ some u → 0 < count p xs
count_found p [] u h = cc
count_found p (x ∷ xs) u h = ground (arith, count_found p xs u)

any_of_unfound : (p : User → Bool) (xs : List User) → find p xs ≡ none → any p xs ≡ false
any_of_unfound p [] h = refl
any_of_unfound p (x ∷ xs) h = ground (arith, any_of_unfound p xs)

count-append : (p : User → Bool) (xs ys : List User) → count p (xs ++ ys) ≡ count p xs + count p ys
count-append p [] ys = omega arith
count-append p (x ∷ xs) ys = ground (arith, count-append p xs ys)

count-update_subject :
    (subject : Text) (f : User → User) (xs : List User)
    → ((v : User) → (f v).subject_id ≡ v.subject_id)
    → count (is_subject subject) (update_subject subject f xs) ≡ count (is_subject subject) xs
count-update_subject subject f [] same = refl
count-update_subject subject f (x ∷ xs) same = elim (Bool-cases (is_subject subject x)) [
  | inl here ↦
      let still : is_subject subject (f x) ≡ true =
        ap (λ (t : Text). t == subject) (same x) ∙ here in
      rw (here, still) (omega (arith, count-update_subject subject f xs same))
  | inr there ↦ rw (there, there) (count-update_subject subject f xs same)
]

others-update_subject :
    (subject : Text) (f : User → User) (xs : List User)
    → ((v : User) → (f v).subject_id ≡ v.subject_id)
    → select (λ u. not (is_subject subject u)) (update_subject subject f xs)
      ≡ select (λ u. not (is_subject subject u)) xs
others-update_subject subject f [] same = refl
others-update_subject subject f (x ∷ xs) same = elim (Bool-cases (is_subject subject x)) [
  | inl here ↦
      let still : is_subject subject (f x) ≡ true =
        ap (λ (t : Text). t == subject) (same x) ∙ here in
      rw (here, still) (others-update_subject subject f xs same)
  | inr there ↦ rw (there, there) (ap (◌∷◌ x) (others-update_subject subject f xs same))
]

-- One row is the subject's, and the rows of the others and the other tables are as before.
abbrev pub IsOnly : Text → Db → Db → Type 0
IsOnly subject db db' =
    (count (is_subject subject) db'.users ≡ 1)
    × (select (λ u. not (is_subject subject u)) db'.users
        ≡ select (λ u. not (is_subject subject u)) db.users)
    × (db' ≡ record db { users = db'.users })

module _ (p : CreateUpdateUserParams) (id feed : Uuid) (now : ℕ) (db : Db) where
  own_subject : is_subject p.subject (new_user p id feed now) ≡ true
  own_subject = (list_eq_iff p.subject p.subject).1 refl

  inserted_alone :
      find (is_subject p.subject) db.users ≡ none
      → IsOnly p.subject db (record db { users = db.users ++ new_user p id feed now ∷ [] })
  inserted_alone absent =
      let free = any_of_unfound (is_subject p.subject) db.users absent in
      (
        rw (count-append (is_subject p.subject) db.users (new_user p id feed now ∷ []), own_subject)
            (omega (arith, count_of_none (is_subject p.subject) db.users free)),
        rw
            (
              select-append (λ u. not (is_subject p.subject u)) db.users
                  (new_user p id feed now ∷ []),
              own_subject,
            )
            (append-nil _),
        refl,
      )

  updated_alone :
      (u : User)
      → find (is_subject p.subject) db.users ≡ some u
      → count (is_subject p.subject) db.users ≤ 1
      → IsOnly p.subject db
          (record db { users = update_subject p.subject (signed_in p now) db.users })
  updated_alone u present unique = (
    rw (count-update_subject p.subject (signed_in p now) db.users (λ v. refl))
        (omega (arith, unique, count_found (is_subject p.subject) db.users u present)),
    others-update_subject p.subject (signed_in p now) db.users (λ v. refl),
    refl,
  )

  alone_left :
      (db' : Db) (i : Uuid) (o : Option User)
      → find (is_subject p.subject) db.users ≡ o
      → count (is_subject p.subject) db.users ≤ 1
      → login_row o p id feed now db ≡ ok (i, db')
      → IsOnly p.subject db db'
  alone_left db' i none absent unique e =
      elim (Bool-cases (any (λ (u : User). u.id == id || id_eq u.calendar_feed_id feed) db.users)) [
        | inl clash ↦ ground (arith, clash, e)
        | inr free ↦
            let same : record db { users = db.users ++ new_user p id feed now ∷ [] } ≡ db' =
              ground (arith, free, e) in
            rw (sym same) (inserted_alone absent)
      ]
  alone_left db' i (some u) present unique e =
      let same : record db { users = update_subject p.subject (signed_in p now) db.users } ≡ db' =
        ground (arith, e) in
      rw (sym same) (updated_alone u present unique)

pub create_update_user-Remembers :
    (p : CreateUpdateUserParams) (id feed : Uuid) (now : ℕ) (db db' : Db) (i : Uuid)
    → create_update_user p id feed now db ≡ ok (i, db')
    → (v : User) × (find (is_subject p.subject) db'.users ≡ some v)
      × (v.id ≡ i)
      × Remembers p now db v
unfolding create_update_user
create_update_user-Remembers p id feed now db db' i e =
    row_left p id feed now db db' i (find (is_subject p.subject) db.users) refl e

-- If no two rows are of its subject, a login that succeeds leaves one row of its subject, with
-- the identifier that it returns, the new email, avatar and time, and otherwise what was known of
-- the user; the rows of the other subjects and the other tables are as before; and a later login
-- of this subject succeeds with the same identifier.
pub create_update_user-identity :
    (p q : CreateUpdateUserParams) (id feed other_id other_feed : Uuid) (now later : ℕ)
    (db db' : Db) (i : Uuid)
    → q.subject ≡ p.subject
    → count (is_subject p.subject) db.users ≤ 1
    → create_update_user p id feed now db ≡ ok (i, db')
    → ((v : User) × (find (is_subject p.subject) db'.users ≡ some v)
        × (v.id ≡ i)
        × Remembers p now db v)
      × IsOnly p.subject db db'
      × ((db'' : Db) × (create_update_user q other_id other_feed later db' ≡ ok (i, db'')))
unfolding create_update_user
create_update_user-identity p q id feed other_id other_feed now later db db' i same unique e =
    let first = create_update_user-Remembers p id feed now db db' i e in
    (
      first,
      alone_left p id feed now db db' i (find (is_subject p.subject) db.users) refl unique e,
      (
        record db' { users = update_subject q.subject (signed_in q later) db'.users },
        rw (same, first.1)
            (ap
              (λ (j : Uuid).
                ok (
                  j,
                  record db' { users = update_subject p.subject (signed_in q later) db'.users },
                ))
              first.2),
      ),
    )
