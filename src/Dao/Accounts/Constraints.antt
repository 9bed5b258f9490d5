-- ===== src/Dao/Accounts/Constraints.antt =====
-- Every statement on users keeps the constraints of the tables.
use filmstund.Base.{
  any_unfound, ◌⊎◌, ℕ, ◌≡◌, refl, ap, false, ◌&&◌, ◌||◌, not, Option, none, some, List, [], ◌∷◌,
  ◌++◌, any, find, ◌==◌, ids, texts, list_eq, list_eq_swap, nat_eq, Option-cases, inl, inr, arith,
}
use filmstund.Base.Keys.{All-mono, DistinctBy, DistinctBy-snoc, any-snoc_true}
use filmstund.Base.Text.{Text}
use filmstund.Database.{Uuid, User, Db, unique_violation}
use filmstund.Dao.Attendees.{option_eq}
use filmstund.Dao.Consistency.Rules.{Keeps, Outcome, checked}
use filmstund.Dao.Accounts.{
  is_subject, id_eq, update_subject, CreateUpdateUserParams, new_user, signed_in, insert_user,
  login_row, create_update_user, disable_calendar_feed, randomize_calendar_feed, UpdateUserParams,
  trim, new_details, membership_taken, update_user,
}
use filmstund.Dao.Accounts.Updates.{
  same_subject, holds, update_subject-DistinctBy_same, update_subject-DistinctBy_set,
}
use filmstund.Dao.Accounts.Keys.{
  OwnerIn, HasUsers, same_user, same_feed, same_membership, users_kept-IsConsistent,
  update_subject-HasUsers,
}
use filmstund.Dao.Accounts.Rows.{
  any_nothing, any-or, any_same, holds-id_eq, nat_eq_swap, updated_row-Keeps, DistinctBy-clear,
}

insert_user-Keeps :
    (p : CreateUpdateUserParams) (id feed : Uuid) (now : ℕ) (db : Db)
    → any (is_subject p.subject) db.users ≡ false
    → HasUsers db
    → Outcome HasUsers (insert_user p id feed now db)
insert_user-Keeps p id feed now db fresh h =
    checked HasUsers (any (λ (u : User). u.id == id || id_eq u.calendar_feed_id feed) db.users)
      unique_violation _
      λ free.
        let both =
          any-or (λ (u : User). u.id == id) (λ (u : User). id_eq u.calendar_feed_id feed) db.users
            free in
        record {
          user_pk = DistinctBy-snoc same_user db.users (new_user p id feed now) h.user_pk both.0;
          user_ids_subjct_uniq =
              DistinctBy-snoc same_subject db.users (new_user p id feed now) h.user_ids_subjct_uniq
                fresh;
          user_ids_fsid_uniq =
              DistinctBy-snoc same_membership db.users (new_user p id feed now) h.user_ids_fsid_uniq
                (any_nothing db.users);
          user_calendarfeedid_unique =
              DistinctBy-snoc same_feed db.users (new_user p id feed now)
                h.user_calendarfeedid_unique
                (any_same (λ (u : User). holds nat_eq u.calendar_feed_id feed)
                  (λ (u : User). id_eq u.calendar_feed_id feed) db.users
                  (λ u. holds-id_eq u.calendar_feed_id feed) both.1);
          giftcert_number_unique = h.giftcert_number_unique;
          giftcert_user_fk =
              All-mono (OwnerIn db)
                (OwnerIn (record db { users = db.users ++ new_user p id feed now ∷ [] }))
                db.gift_certificates
                (λ g k.
                  any-snoc_true (λ (x : User). x.id == g.user_id) db.users (new_user p id feed now)
                    k)
                h.giftcert_user_fk;
          consistent =
              users_kept-IsConsistent db (db.users ++ new_user p id feed now ∷ [])
                (λ i k. any-snoc_true (λ (x : User). x.id == i) db.users (new_user p id feed now) k)
                h.consistent;
        }

pub create_update_user-Keeps :
    (p : CreateUpdateUserParams) (id feed : Uuid) → Keeps HasUsers (create_update_user p id feed)
unfolding create_update_user
create_update_user-Keeps p id feed = record {
  at = λ now db h. login now db h (Option-cases (find (is_subject p.subject) db.users));
}
  where
    login :
        (now : ℕ) (db : Db)
        → HasUsers db
        → (find (is_subject p.subject) db.users ≡ none)
          ⊎ ((u : User) × (find (is_subject p.subject) db.users ≡ some u))
        → Outcome HasUsers (login_row (find (is_subject p.subject) db.users) p id feed now db)
    login now db h (inl e) =
        rw e (insert_user-Keeps p id feed now db (any_unfound (is_subject p.subject) db.users e) h)
    login now db h (inr (u, e)) = rw e (
        update_subject-HasUsers p.subject (signed_in p now) (λ u. refl) (λ u. refl) db h
          (update_subject-DistinctBy_same same_membership p.subject (signed_in p now) db.users
            (λ u v. refl) (λ u v. refl) h.user_ids_fsid_uniq)
          (update_subject-DistinctBy_same same_feed p.subject (signed_in p now) db.users
            (λ u v. refl) (λ u v. refl) h.user_calendarfeedid_unique))

pub disable_calendar_feed-Keeps : (subject : Text) → Keeps HasUsers (disable_calendar_feed subject)
unfolding disable_calendar_feed
disable_calendar_feed-Keeps subject = record {
  at = λ now db h.
      updated_row-Keeps subject (λ u. record u { calendar_feed_id = none }) now db (λ u. refl)
        (λ found.
          update_subject-HasUsers subject (λ u. record u { calendar_feed_id = none }) (λ u. refl)
            (λ u. refl) db h
            (update_subject-DistinctBy_same same_membership subject
              (λ u. record u { calendar_feed_id = none }) db.users (λ u v. refl) (λ u v. refl)
              h.user_ids_fsid_uniq)
            (DistinctBy-clear subject db.users h.user_calendarfeedid_unique));
}

pub randomize_calendar_feed-Keeps :
    (subject : Text) (feed : Uuid) → Keeps HasUsers (randomize_calendar_feed subject feed)
unfolding randomize_calendar_feed
randomize_calendar_feed-Keeps subject feed = record {
  at = λ now db h.
      checked HasUsers
        (any (is_subject subject) db.users
          && any (λ (u : User). not (is_subject subject u) && id_eq u.calendar_feed_id feed)
              db.users)
        unique_violation _
        λ free.
          updated_row-Keeps subject (λ u. record u { calendar_feed_id = some feed }) now db
            (λ u. refl)
            (λ found.
              update_subject-HasUsers subject (λ u. record u { calendar_feed_id = some feed })
                (λ u. refl) (λ u. refl) db h
                (update_subject-DistinctBy_same same_membership subject
                  (λ u. record u { calendar_feed_id = some feed }) db.users (λ u v. refl)
                  (λ u v. refl) h.user_ids_fsid_uniq)
                (update_subject-DistinctBy_set nat_eq (λ (u : User). u.calendar_feed_id) subject
                  (λ u. record u { calendar_feed_id = some feed }) feed nat_eq_swap (λ u. refl)
                  db.users h.user_ids_subjct_uniq h.user_calendarfeedid_unique
                  (any_same _
                    (λ (u : User). not (is_subject subject u) && id_eq u.calendar_feed_id feed)
                    db.users
                    (λ u.
                      ap (λ b. not (is_subject subject u) && b)
                        (holds-id_eq u.calendar_feed_id feed))
                    (ground arith))));
}

holds-option_eq : (o : Option Text) (t : Text) → holds list_eq o t ≡ option_eq o t
holds-option_eq none t = refl
holds-option_eq (some s) t = refl

module _ (p : UpdateUserParams) (now : ℕ) (users : List User) where
  details_membership :
      (t : Text)
      → trim p.filmstaden_membership_id ≡ t
      → membership_taken p.subject_id t users ≡ false
      → DistinctBy same_subject users
      → DistinctBy same_membership users
      → DistinctBy same_membership (update_subject p.subject_id (new_details p now) users)
  unfolding new_details
  details_membership [] e free once h =
      update_subject-DistinctBy_same same_membership p.subject_id (new_details p now) users
        (λ u v. rw e refl) (λ u v. rw e refl) h
  details_membership (c ∷ t) e free once h =
      update_subject-DistinctBy_set list_eq (λ (u : User). u.filmstaden_membership_id) p.subject_id
        (new_details p now) (c ∷ t) list_eq_swap (λ u. rw e refl) users once h
        (any_same _
          (λ (u : User).
            not (is_subject p.subject_id u) && option_eq u.filmstaden_membership_id (c ∷ t))
          users
          (λ u.
            ap (λ b. not (is_subject p.subject_id u) && b)
              (holds-option_eq u.filmstaden_membership_id (c ∷ t)))
          free)

  details_feed :
      DistinctBy same_feed users
      → DistinctBy same_feed (update_subject p.subject_id (new_details p now) users)
  unfolding new_details
  details_feed h =
      update_subject-DistinctBy_same same_feed p.subject_id (new_details p now) users (λ u v. refl)
        (λ u v. refl) h

new_details-same :
    (p : UpdateUserParams) (now : ℕ) (u : User)
    → ((new_details p now u).id ≡ u.id) × ((new_details p now u).subject_id ≡ u.subject_id)
unfolding new_details
new_details-same p now u = (refl, refl)

pub update_user-Keeps : (p : UpdateUserParams) → Keeps HasUsers (update_user p)
unfolding update_user
update_user-Keeps p = record {
  at = λ now db h.
      checked HasUsers
        (any (is_subject p.subject_id) db.users
          && membership_taken p.subject_id (trim p.filmstaden_membership_id) db.users)
        unique_violation _
        λ free.
          updated_row-Keeps p.subject_id (new_details p now) now db
            (λ u. (new_details-same p now u).1)
            (λ found.
              update_subject-HasUsers p.subject_id (new_details p now)
                (λ u. (new_details-same p now u).0) (λ u. (new_details-same p now u).1) db h
                (details_membership p now db.users (trim p.filmstaden_membership_id) refl
                  (ground arith) h.user_ids_subjct_uniq h.user_ids_fsid_uniq)
                (details_feed p now db.users h.user_calendarfeedid_unique));
}
