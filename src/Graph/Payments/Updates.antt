-- ===== src/Graph/Payments/Updates.antt =====
-- `UpdateAttendeePaymentInfo` and `AdminPaymentDetails` on the tables.
use filmstund.Base.{
  ℕ, ◌≡◌, refl, ap, Bool, false, ◌&&◌, Option, none, some, List, [], ◌∷◌, map, select, ◌==◌, ids,
  Bool-cases, inl, inr, arith,
}
use filmstund.Base.Text.{Text}
use filmstund.Database.{
  Uuid, World, Db, Attendee, Result, ok, err, exec, attempt, or_return, pure, is_down, ◌>>=◌,
}
use filmstund.Dao.Attendees.{
  UpdateAttendeePaymentParams, update_where, repaid, is_attendee, attendee_row, AttendeeRow,
  list_attendees, is_admin_of,
}
use filmstund.Graph.Model.{GraphError, GraphShowing}
use filmstund.Graph.Payments.{
  GraphAttendee, admin_payment_details, details_with, AdminPaymentDetails, buy_link,
}

-- The tables with the new payment information.
abbrev paid_up : UpdateAttendeePaymentParams → ℕ → Db → Db
paid_up p now db = record db {
  attendees = update_where (is_attendee p.user_id p.showing_id) (repaid p now) db.attendees;
}

abbrev repaid_one : UpdateAttendeePaymentParams → ℕ → Option Attendee → Option Attendee
repaid_one p now none = none
repaid_one p now (some a) = some (repaid p now a)

-- What the answer shows of an attendee: what the request says of the payment, and else what is known.
abbrev pub Shows : UpdateAttendeePaymentParams → Attendee → GraphAttendee → Type 0
Shows p a g =
    (g.user_id ≡ a.user_id)
    × (g.showing_id ≡ a.showing_id)
    × (g.attendee_type ≡ a.attendee_type)
    × (g.has_paid ≡ p.has_paid)
    × (g.amount_owed ≡ p.amount_owed)

-- The attendees that an answer shows: none, if there is an answer.
abbrev pub ShowsNobody : Result GraphError AdminPaymentDetails → Type 0
ShowsNobody (ok d) = d.attendees ≡ []
ShowsNobody (err _) = Unit

select_if_false :
    (p : Attendee → Bool) (b : Bool) (rows : List Attendee)
    → b ≡ false
    → select (λ a. p a && b) rows ≡ []
select_if_false p b [] h = refl
select_if_false p b (a ∷ rows) h = ground (arith, select_if_false p b rows)

shown :
    (id movie : Uuid) (link : Option Text) (rows : List AttendeeRow) (w : World)
    → rows ≡ []
    → ShowsNobody ((buy_link movie link >>= details_with id rows) w).0
unfolding buy_link ◌>>=◌ attempt pure
shown id movie none rows w e = rw e refl
shown id movie (some t) rows w e = rw e refl

-- Who is not the admin of a showing sees no attendee in its payment details, whichever calls to the
-- database fail.
pub admin_payment_details-ShowsNobody :
    (me : Uuid) (s : GraphShowing) (w : World)
    → is_admin_of me s.id w.db.showings ≡ false
    → ShowsNobody (admin_payment_details me s w).0
unfolding admin_payment_details list_attendees or_return exec ◌>>=◌
admin_payment_details-ShowsNobody me s w h = elim (Bool-cases (is_down w.faults)) [
  | inl down ↦ rw (down, ShowsNobody) tt
  | inr up ↦
      rw (up, ShowsNobody)
        (shown s.id s.movie_id s.filmstaden_showing_id _ _ (
          ap (map (attendee_row w.db))
            (select_if_false (λ a. a.showing_id == s.id) _ w.db.attendees h)))
]
