-- ===== src/Dao/Consistency.antt =====
-- The constraints that configs/database/migrations declare, as an invariant of the tables.
pub mod Rules
pub mod Reads
pub mod Showings
pub mod Attendees
pub mod Tickets
use filmstund.Base.{
  ℕ, ◌≡◌, Bool, true, false, ◌&&◌, Option, none, some, List, All, any, leb, ◌==◌, ids, texts,
}
use filmstund.Base.Int.{pos, ◌≤ℤ◌}
use filmstund.Base.Keys.{DistinctBy}
use filmstund.Base.Text.{char_length, Text}
use filmstund.Database.{CinemaScreen, Showing, Attendee, Ticket, Db}
use filmstund.Dao.Showings.{has_user, has_movie, has_screen, has_showing}
use filmstund.Dao.Attendees.{has_certificate, is_attendee, option_eq}

-- When two rows of a table would clash.
abbrev pub same_showing : Showing → Showing → Bool
same_showing s t = s.id == t.id

abbrev pub same_web_id : Showing → Showing → Bool
same_web_id s t = s.web_id == t.web_id

abbrev pub same_attendee : Attendee → Attendee → Bool
same_attendee a b = a.user_id == b.user_id && a.showing_id == b.showing_id

abbrev pub clash_of : Option Text → Option Text → Bool
clash_of g none = false
clash_of g (some n) = option_eq g n

abbrev pub same_certificate : Attendee → Attendee → Bool
same_certificate a b = clash_of a.gift_certificate_used b.gift_certificate_used

abbrev pub same_ticket : Ticket → Ticket → Bool
same_ticket s t = s.id == t.id

abbrev pub same_screen : CinemaScreen → CinemaScreen → Bool
same_screen s t = s.id == t.id

-- The checks and foreign keys of a row.
abbrev pub ShowingFits : Db → Showing → Type 0
ShowingFits db s =
    (char_length s.web_id ≡ 10)
    × (pos 0 ≤ℤ s.price)
    × (has_movie s.movie_id db ≡ true)
    × (has_screen s.cinema_screen_id db.cinema_screens ≡ true)
    × (has_user s.admin db ≡ true)
    × (has_user s.pay_to_user db ≡ true)
    × (leb 2 (char_length s.slug) ≡ true)

abbrev pub AttendeeFits : Db → Attendee → Type 0
AttendeeFits db a =
    (has_user a.user_id db ≡ true)
    × (has_showing a.showing_id db ≡ true)
    × (has_certificate a.user_id a.gift_certificate_used db.gift_certificates ≡ true)

abbrev pub TicketFits : Db → Ticket → Type 0
TicketFits db t =
    (pos 0 ≤ℤ t.seat_row)
    × (pos 0 ≤ℤ t.seat_number)
    × (has_showing t.showing_id db ≡ true)
    × (has_user t.assigned_to_user db ≡ true)

-- `showing_pk`, `showing_webid_uniq`, `attendee_pk`, `attendee_giftcert_unique`, `ticket_pk`,
-- `cinema_screen_pk`, and the checks and foreign keys of showings, attendees and tickets.
pub record IsConsistent (db : Db) : Type 0 where
  pub showing_pk : DistinctBy same_showing db.showings
  pub showing_webid_uniq : DistinctBy same_web_id db.showings
  pub showings_fit : All (ShowingFits db) db.showings
  pub attendee_pk : DistinctBy same_attendee db.attendees
  pub attendee_giftcert_unique : DistinctBy same_certificate db.attendees
  pub attendees_fit : All (AttendeeFits db) db.attendees
  pub ticket_pk : DistinctBy same_ticket db.tickets
  pub tickets_fit : All (TicketFits db) db.tickets
  pub cinema_screen_pk : DistinctBy same_screen db.cinema_screens
