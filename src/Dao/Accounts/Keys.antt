-- ===== src/Dao/Accounts/Keys.antt =====
-- The unique columns of the table `users`, and the references to its rows, under its statements.
use filmstund.Base.{
  ◌≡◌, refl, ◌∙◌, Bool, true, List, All, ◌==◌, ids, texts, list_eq, nat_eq, if◌then◌else◌,
  Bool-cases, inl, inr, arith,
}
use filmstund.Base.Keys.{DistinctBy, any-map_kept, All-mono}
use filmstund.Base.Text.{Text}
use filmstund.Database.{Uuid, User, GiftCertificate, Db}
use filmstund.Dao.Showings.{has_user}
use filmstund.Dao.Consistency.{IsConsistent, ShowingFits, AttendeeFits, TicketFits}
use filmstund.Dao.Accounts.{is_subject, update_subject}
use filmstund.Dao.Accounts.Updates.{same_subject, clashes, update_subject-DistinctBy_same}

abbrev pub same_user : User → User → Bool
same_user u v = u.id == v.id

abbrev pub same_feed : User → User → Bool
same_feed u v = clashes nat_eq u.calendar_feed_id v.calendar_feed_id

abbrev pub same_membership : User → User → Bool
same_membership u v = clashes list_eq u.filmstaden_membership_id v.filmstaden_membership_id

abbrev pub same_number : GiftCertificate → GiftCertificate → Bool
same_number g h = g.number == h.number

abbrev pub OwnerIn : Db → GiftCertificate → Type 0
OwnerIn db g = has_user g.user_id db ≡ true

-- `user_pk`, `user_ids_subjct_uniq`, `user_ids_fsid_uniq`, `user_calendarfeedid_unique`,
-- `giftcert_number_unique`, which implies `giftcert_pk`, `giftcert_user_fk`, and the constraints of
-- the other tables that refer to users.
pub record HasUsers (db : Db) : Type 0 where
  pub user_pk : DistinctBy same_user db.users
  pub user_ids_subjct_uniq : DistinctBy same_subject db.users
  pub user_ids_fsid_uniq : DistinctBy same_membership db.users
  pub user_calendarfeedid_unique : DistinctBy same_feed db.users
  pub giftcert_number_unique : DistinctBy same_number db.gift_certificates
  pub giftcert_user_fk : All (OwnerIn db) db.gift_certificates
  pub consistent : IsConsistent db

-- No user that a row refers to goes away.
pub users_kept-IsConsistent :
    (db : Db) (users : List User)
    → ((id : Uuid) → has_user id db ≡ true → has_user id (record db { users = users }) ≡ true)
    → IsConsistent db
    → IsConsistent (record db { users = users })
users_kept-IsConsistent db users keep c = record {
  showing_pk = c.showing_pk;
  showing_webid_uniq = c.showing_webid_uniq;
  showings_fit =
      All-mono (ShowingFits db) (ShowingFits db') db.showings
        (λ s f. ground (arith, keep s.admin, keep s.pay_to_user)) c.showings_fit;
  attendee_pk = c.attendee_pk;
  attendee_giftcert_unique = c.attendee_giftcert_unique;
  attendees_fit =
      All-mono (AttendeeFits db) (AttendeeFits db') db.attendees
        (λ a f. ground (arith, keep a.user_id)) c.attendees_fit;
  ticket_pk = c.ticket_pk;
  tickets_fit =
      All-mono (TicketFits db) (TicketFits db') db.tickets
        (λ t f. ground (arith, keep t.assigned_to_user)) c.tickets_fit;
  cinema_screen_pk = c.cinema_screen_pk;
}
  where
    db' : Db
    db' = record db { users = users }

update_subject-has_user :
    (subject : Text) (f : User → User) (db : Db)
    → ((u : User) → (f u).id ≡ u.id)
    → (id : Uuid) → has_user id db ≡ true
    → has_user id (record db { users = update_subject subject f db.users }) ≡ true
update_subject-has_user subject f db same id h =
    any-map_kept (λ (x : User). x.id == id) (λ (u : User). if is_subject subject u then f u else u)
      db.users kept
    ∙ h
  where
    kept : (u : User) → nat_eq (if is_subject subject u then f u else u).id id ≡ nat_eq u.id id
    kept u = elim (Bool-cases (is_subject subject u)) [
      | inl mine ↦ rw (mine, same u) refl
      | inr other ↦ rw other refl
    ]

-- What an update may not change, and the columns that are still unique after it.
module _ (subject : Text) (f : User → User) (same_id : (u : User) → (f u).id ≡ u.id)
    (same_sub : (u : User) → (f u).subject_id ≡ u.subject_id) where
  pub update_subject-HasUsers :
      (db : Db)
      → HasUsers db
      → DistinctBy same_membership (update_subject subject f db.users)
      → DistinctBy same_feed (update_subject subject f db.users)
      → HasUsers (record db { users = update_subject subject f db.users })
  update_subject-HasUsers db h m c = record {
    user_pk =
        update_subject-DistinctBy_same same_user subject f db.users (λ u v. rw (same_id u) refl)
          (λ u v. rw (same_id v) refl) h.user_pk;
    user_ids_subjct_uniq =
        update_subject-DistinctBy_same same_subject subject f db.users (λ u v. rw (same_sub u) refl)
          (λ u v. rw (same_sub v) refl) h.user_ids_subjct_uniq;
    user_ids_fsid_uniq = m;
    user_calendarfeedid_unique = c;
    giftcert_number_unique = h.giftcert_number_unique;
    giftcert_user_fk =
        All-mono (OwnerIn db) (OwnerIn (record db { users = update_subject subject f db.users }))
          db.gift_certificates (λ g k. update_subject-has_user subject f db same_id g.user_id k)
          h.giftcert_user_fk;
    consistent =
        users_kept-IsConsistent db (update_subject subject f db.users)
          (update_subject-has_user subject f db same_id) h.consistent;
  }
