-- ===== src/Dao/Accounts/Certificates.antt =====
-- The statements on gift certificates keep the constraints of the tables.
use filmstund.Base.{
  Bool-cases, inl, inr, ◌≡◌, refl, true, false, ◌&&◌, not, Option, none, some, List, [], ◌∷◌, ◌++◌,
  any, select, All, ◌==◌, list_eq_swap, ids, texts, arith,
}
use filmstund.Base.Keys.{
  any-snoc_true, DistinctBy, DistinctBy-snoc, DistinctBy-select, All-snoc, All-select,
}
use filmstund.Base.Text.{Text}
use filmstund.Database.{
  Uuid, GiftCertificate, Attendee, Db, not_null_violation, unique_violation, foreign_key_violation,
}
use filmstund.Dao.Attendees.{has_certificate, option_eq}
use filmstund.Dao.Showings.{has_user}
use filmstund.Dao.Users.{
  AddGiftCertificateParams, new_certificate, add_gift_certificate, DeleteGiftCertificateParams,
  to_delete, is_nulled, delete_gift_certificate, has_number,
}
use filmstund.Dao.Consistency.{AttendeeFits}
use filmstund.Dao.Consistency.Rules.{Keeps, checked}
use filmstund.Dao.Accounts.Keys.{HasUsers, OwnerIn, same_number}

-- The certificates that attendees use are still there.
abbrev pub KeepsUsed : Db → List GiftCertificate → Type 0
KeepsUsed db gs =
    All
      (λ (a : Attendee).
        has_certificate a.user_id a.gift_certificate_used db.gift_certificates ≡ true
        → has_certificate a.user_id a.gift_certificate_used gs ≡ true)
      db.attendees

module _ (db : Db) (gs : List GiftCertificate) where
  fits :
      (rows : List Attendee)
      → All
          (λ (a : Attendee).
            has_certificate a.user_id a.gift_certificate_used db.gift_certificates ≡ true
            → has_certificate a.user_id a.gift_certificate_used gs ≡ true)
          rows
      → All (AttendeeFits db) rows
      → All (AttendeeFits (record db { gift_certificates = gs })) rows
  fits [] keep h = tt
  fits (a ∷ rows) keep h = ((h.0.0, h.0.1, keep.0 h.0.2), fits rows keep.1 h.1)

  replace-HasUsers :
      DistinctBy same_number gs
      → All (OwnerIn db) gs
      → KeepsUsed db gs
      → HasUsers db
      → HasUsers (record db { gift_certificates = gs })
  replace-HasUsers unique owned keep h = record {
    user_pk = h.user_pk;
    user_ids_subjct_uniq = h.user_ids_subjct_uniq;
    user_ids_fsid_uniq = h.user_ids_fsid_uniq;
    user_calendarfeedid_unique = h.user_calendarfeedid_unique;
    giftcert_number_unique = unique;
    giftcert_user_fk = owned;
    consistent = record {
      showing_pk = h.consistent.showing_pk;
      showing_webid_uniq = h.consistent.showing_webid_uniq;
      showings_fit = h.consistent.showings_fit;
      attendee_pk = h.consistent.attendee_pk;
      attendee_giftcert_unique = h.consistent.attendee_giftcert_unique;
      attendees_fit = fits db.attendees keep h.consistent.attendees_fit;
      ticket_pk = h.consistent.ticket_pk;
      tickets_fit = h.consistent.tickets_fit;
      cinema_screen_pk = h.consistent.cinema_screen_pk;
    };
  }

each_row : {P : Attendee → Type 0} → ((a : Attendee) → P a) → (rows : List Attendee) → All P rows
each_row h [] = tt
each_row h (a ∷ rows) = (h a, each_row h rows)

certificate-snoc :
    (user : Uuid) (o : Option Text) (gs : List GiftCertificate) (g : GiftCertificate)
    → has_certificate user o gs ≡ true
    → has_certificate user o (gs ++ g ∷ []) ≡ true
certificate-snoc user none gs g h = refl
certificate-snoc user (some n) gs g h =
    any-snoc_true (λ (g : GiftCertificate). g.user_id == user && g.number == n) gs g h

pub add_gift_certificate-Keeps :
    (p : AddGiftCertificateParams) → Keeps HasUsers (add_gift_certificate p)
unfolding add_gift_certificate
add_gift_certificate-Keeps p = record {
  at = λ now db h.
      checked HasUsers (has_number p.number db.gift_certificates) unique_violation _ λ fresh.
        checked HasUsers (not (has_user p.user_id db)) foreign_key_violation _ λ known.
          replace-HasUsers db (db.gift_certificates ++ new_certificate p now ∷ [])
            (DistinctBy-snoc same_number db.gift_certificates (new_certificate p now)
              h.giftcert_number_unique fresh)
            (All-snoc (OwnerIn db) db.gift_certificates (new_certificate p now) h.giftcert_user_fk
              (ground arith))
            (each_row
              (λ a.
                certificate-snoc a.user_id a.gift_certificate_used db.gift_certificates
                  (new_certificate p now))
              db.attendees)
            h;
}

module _ (p : DeleteGiftCertificateParams) (a : Attendee) where
  used_kept :
      (o : Option Text) (gs : List GiftCertificate)
      → any
          (λ (g : GiftCertificate).
            to_delete p g && (a.user_id == g.user_id && option_eq o g.number))
          gs
        ≡ false
      → has_certificate a.user_id o gs ≡ true
      → has_certificate a.user_id o (select (λ (g : GiftCertificate). not (to_delete p g)) gs)
        ≡ true
  used_kept none gs free h = refl
  used_kept (some n) [] free h = h
  used_kept (some n) (g ∷ gs) free h =
      ground (arith, list_eq_swap n g.number, used_kept (some n) gs)

  row_kept :
      (gs : List GiftCertificate)
      → is_nulled p gs a ≡ false
      → has_certificate a.user_id a.gift_certificate_used gs ≡ true
      → has_certificate a.user_id a.gift_certificate_used
          (select (λ (g : GiftCertificate). not (to_delete p g)) gs)
        ≡ true
  row_kept gs kept h = used_kept a.gift_certificate_used gs (ground arith) h

pub delete_gift_certificate-Keeps :
    (p : DeleteGiftCertificateParams) → Keeps HasUsers (delete_gift_certificate p)
unfolding delete_gift_certificate
delete_gift_certificate-Keeps p = record {
  at = λ now db h.
      checked HasUsers (any (is_nulled p db.gift_certificates) db.attendees) not_null_violation _
        λ free.
          replace-HasUsers db
            (select (λ (g : GiftCertificate). not (to_delete p g)) db.gift_certificates)
            (DistinctBy-select same_number _ db.gift_certificates h.giftcert_number_unique)
            (All-select (OwnerIn db) _ db.gift_certificates h.giftcert_user_fk)
            (all_used p db.gift_certificates db.attendees free) h;
}
  where
    all_used :
        (p : DeleteGiftCertificateParams) (gs : List GiftCertificate) (rows : List Attendee)
        → any (is_nulled p gs) rows ≡ false
        → All
            (λ (a : Attendee).
              has_certificate a.user_id a.gift_certificate_used gs ≡ true
              → has_certificate a.user_id a.gift_certificate_used
                  (select (λ (g : GiftCertificate). not (to_delete p g)) gs)
                ≡ true)
            rows
    all_used p gs [] free = tt
    all_used p gs (a ∷ rows) free = elim (Bool-cases (is_nulled p gs a)) [
      | inl nulled ↦ ground (arith, nulled, free)
      | inr kept ↦ (row_kept p a gs kept, all_used p gs rows (rw kept at free))
    ]
