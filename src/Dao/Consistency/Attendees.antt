-- ===== src/Dao/Consistency/Attendees.antt =====
-- The statements on the table `attendees` keep the constraints.
use filmstund.Base.{
  ◌≡◌, refl, ap₂, Bool, false, ◌&&◌, not, Option, none, some, List, [], ◌∷◌, ◌++◌, map, any, nat_eq,
  ids, texts, if◌then◌else◌, arith, All, select,
}
use filmstund.Base.Int.{ℤ}
use filmstund.Base.Keys.{
  DistinctBy, DistinctBy-snoc, DistinctBy-map, DistinctBy-select, All-snoc, All-map_update,
  All-select,
}
use filmstund.Base.Text.{Text}
use filmstund.Database.{Uuid, Attendee, Db}
use filmstund.Dao.Showings.{has_user, has_showing}
use filmstund.Dao.Attendees.{
  AddAttendeeParams, new_attendee, add_attendee, delete_attendee, is_attendee, certificate_taken,
  has_certificate, update_where, mark_gc_attendees_as_having_paid, pays_by_certificate, settled,
  update_amount_owed_for_swish_attendees, pays_by_swish, owing, UpdateAttendeePaymentParams,
  update_attendee_payment, repaid,
}
use filmstund.Dao.Consistency.{
  IsConsistent, AttendeeFits, same_attendee, same_certificate, clash_of,
}
use filmstund.Dao.Consistency.Rules.{Keeps, checked}

-- Other attendees, with the constraints of their own table; the rest refers to none of them.
module _ (db : Db) (rows : List Attendee) where
  replace-IsConsistent :
      DistinctBy same_attendee rows
      → DistinctBy same_certificate rows
      → All (AttendeeFits db) rows
      → IsConsistent db
      → IsConsistent (record db { attendees = rows })
  replace-IsConsistent pk unique fit c = record {
    showing_pk = c.showing_pk;
    showing_webid_uniq = c.showing_webid_uniq;
    showings_fit = c.showings_fit;
    attendee_pk = pk;
    attendee_giftcert_unique = unique;
    attendees_fit = fit;
    ticket_pk = c.ticket_pk;
    tickets_fit = c.tickets_fit;
    cinema_screen_pk = c.cinema_screen_pk;
  }

-- An update that touches neither the keys nor the certificate.
update_where-IsConsistent :
    (p : Attendee → Bool) (f : Attendee → Attendee) (db : Db)
    → ((a : Attendee) → (f a).user_id ≡ a.user_id)
    → ((a : Attendee) → (f a).showing_id ≡ a.showing_id)
    → ((a : Attendee) → (f a).gift_certificate_used ≡ a.gift_certificate_used)
    → IsConsistent db
    → IsConsistent (record db { attendees = update_where p f db.attendees })
unfolding update_where
update_where-IsConsistent p f db u s g c =
    replace-IsConsistent db (map (λ a. if p a then f a else a) db.attendees)
      (DistinctBy-map same_attendee h db.attendees
        (λ a b.
          ap₂ ◌&&◌ (ap₂ nat_eq (user_of a) (user_of b)) (ap₂ nat_eq (showing_of a) (showing_of b)))
        c.attendee_pk)
      (DistinctBy-map same_certificate h db.attendees (λ a b. ap₂ clash_of (gift_of a) (gift_of b))
        c.attendee_giftcert_unique)
      (All-map_update (AttendeeFits db) h db.attendees
        (λ a k. rw (user_of a, showing_of a, gift_of a) k) c.attendees_fit)
      c
  where
    h : Attendee → Attendee
    h a = if p a then f a else a

    user_of : (a : Attendee) → (h a).user_id ≡ a.user_id
    user_of a = ground (arith, u a)

    showing_of : (a : Attendee) → (h a).showing_id ≡ a.showing_id
    showing_of a = ground (arith, s a)

    gift_of : (a : Attendee) → (h a).gift_certificate_used ≡ a.gift_certificate_used
    gift_of a = ground (arith, g a)

pub mark_gc_attendees_as_having_paid-Keeps :
    (admin showing : Uuid) → Keeps IsConsistent (mark_gc_attendees_as_having_paid admin showing)
unfolding mark_gc_attendees_as_having_paid
mark_gc_attendees_as_having_paid-Keeps admin showing = record {
  at = λ now db c.
      update_where-IsConsistent (pays_by_certificate admin showing db.showings) (settled now) db
        (λ a. refl) (λ a. refl) (λ a. refl) c;
}

pub update_amount_owed_for_swish_attendees-Keeps :
    (amount : ℤ) (admin showing : Uuid)
    → Keeps IsConsistent (update_amount_owed_for_swish_attendees amount admin showing)
unfolding update_amount_owed_for_swish_attendees
update_amount_owed_for_swish_attendees-Keeps amount admin showing = record {
  at = λ now db c.
      update_where-IsConsistent (pays_by_swish admin showing db.showings) (owing amount now) db
        (λ a. refl) (λ a. refl) (λ a. refl) c;
}

pub update_attendee_payment-Keeps :
    (p : UpdateAttendeePaymentParams) → Keeps IsConsistent (update_attendee_payment p)
unfolding update_attendee_payment
update_attendee_payment-Keeps p = record {
  at = λ now db c.
      update_where-IsConsistent (is_attendee p.user_id p.showing_id) (repaid p now) db (λ a. refl)
        (λ a. refl) (λ a. refl) c;
}

pub delete_attendee-Keeps :
    (user showing : Uuid) → Keeps IsConsistent (delete_attendee user showing)
unfolding delete_attendee
delete_attendee-Keeps user showing = record {
  at = λ now db c.
      replace-IsConsistent db (select (λ a. not (is_attendee user showing a)) db.attendees)
        (DistinctBy-select same_attendee _ db.attendees c.attendee_pk)
        (DistinctBy-select same_certificate _ db.attendees c.attendee_giftcert_unique)
        (All-select (AttendeeFits db) _ db.attendees c.attendees_fit) c;
}

never_clashes : (rows : List Attendee) → any (λ (a : Attendee). false) rows ≡ false
never_clashes [] = refl
never_clashes (a ∷ rows) = never_clashes rows

certificate_free :
    (g : Option Text) (rows : List Attendee)
    → certificate_taken g rows ≡ false
    → any (λ (a : Attendee). clash_of a.gift_certificate_used g) rows ≡ false
certificate_free none rows h = never_clashes rows
certificate_free (some n) rows h = h

pub add_attendee-Keeps : (p : AddAttendeeParams) → Keeps IsConsistent (add_attendee p)
unfolding add_attendee
add_attendee-Keeps p = record {
  at = λ now db c.
      checked IsConsistent (any (is_attendee p.user_id p.showing_id) db.attendees) _ _ λ new_key.
        checked IsConsistent (certificate_taken p.gift_certificate_used db.attendees) _ _ λ unused.
          checked IsConsistent
            (not (
              has_user p.user_id db
              && (has_showing p.showing_id db
                  && has_certificate p.user_id p.gift_certificate_used db.gift_certificates)))
            _ _
            λ known.
              replace-IsConsistent db (db.attendees ++ new_attendee p now ∷ [])
                (DistinctBy-snoc same_attendee db.attendees (new_attendee p now) c.attendee_pk
                  new_key)
                (DistinctBy-snoc same_certificate db.attendees (new_attendee p now)
                  c.attendee_giftcert_unique
                  (certificate_free p.gift_certificate_used db.attendees unused))
                (All-snoc (AttendeeFits db) db.attendees (new_attendee p now) c.attendees_fit
                  (ground arith, ground arith, ground arith))
                c;
}
