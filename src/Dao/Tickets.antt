-- ===== src/Dao/Tickets.antt =====
-- internal/database/dao/tickets.sql.go, with the constraints on the table `tickets`.
use filmstund.Base.{
  ℕ, Bool, ◌&&◌, not, Option, none, some, List, [], ◌∷◌, ◌++◌, map, any, find, select, order_by,
  ◌==◌, ids, texts, if◌then◌else◌,
}
use filmstund.Base.Int.{ℤ, pos, leb_ℤ, ltb_ℤ}
use filmstund.Base.Text.{Text}
use filmstund.Database.{
  Uuid, User, Showing, Attendee, Ticket, unique_violation, foreign_key_violation, check_violation,
  ok, err, Statement,
}
use filmstund.Dao.Showings.{one, has_user, has_showing}
use filmstund.Dao.Attendees.{membership_of}

pub record AddTicketParams : Type 0 where
  pub id : Text
  pub showing_id : Uuid
  pub assigned_to_user : Uuid
  pub profile_id : Option Text
  pub barcode : Text
  pub customer_type : Text
  pub customer_type_definition : Text
  pub cinema : Text
  pub cinema_city : Option Text
  pub screen : Text
  pub seat_row : ℤ
  pub seat_number : ℤ
  pub date : ℕ
  pub time : ℕ
  pub movie_name : Text
  pub movie_rating : Text

unfoldable pub new_ticket : AddTicketParams → ℕ → Ticket
new_ticket p now = record {
  id = p.id;
  showing_id = p.showing_id;
  assigned_to_user = p.assigned_to_user;
  profile_id = p.profile_id;
  barcode = p.barcode;
  customer_type = p.customer_type;
  customer_type_definition = p.customer_type_definition;
  cinema = p.cinema;
  cinema_city = p.cinema_city;
  screen = p.screen;
  seat_row = p.seat_row;
  seat_number = p.seat_number;
  date = p.date;
  time = p.time;
  movie_name = p.movie_name;
  movie_rating = p.movie_rating;
  attributes = [];
  update_time = now;
  create_time = now;
}

unfoldable pub add_ticket : AddTicketParams → Statement (Unit {0})
unfolding new_ticket
add_ticket p now db =
    if not (leb_ℤ (pos 0) p.seat_row && leb_ℤ (pos 0) p.seat_number)
    then err check_violation
    else if any (λ (t : Ticket). t.id == p.id) db.tickets
    then err unique_violation
    else if not (has_showing p.showing_id db && has_user p.assigned_to_user db)
    then err foreign_key_violation
    else ok (tt, record db { tickets = db.tickets ++ new_ticket p now ∷ [] })

pub record AttendeesIncludingTicketsRow : Type 0 where
  pub showing_id : Uuid
  pub user_id : Uuid
  pub ticket_id : Option Text
  pub filmstaden_membership_id : Option Text

abbrev pub holds : Attendee → Ticket → Bool
holds a t = a.showing_id == t.showing_id && t.assigned_to_user == a.user_id

abbrev pub assignment_row : List User → Attendee → Option Text → AttendeesIncludingTicketsRow
assignment_row users a t = record {
  showing_id = a.showing_id;
  user_id = a.user_id;
  ticket_id = t;
  filmstaden_membership_id = membership_of (find (λ (u : User). u.id == a.user_id) users);
}

-- The left outer join: a row for each ticket of the attendee, or one row without a ticket.
abbrev pub assignment_rows : List User → Attendee → List Ticket → List AttendeesIncludingTicketsRow
assignment_rows users a [] = assignment_row users a none ∷ []
assignment_rows users a (t ∷ ts) = map (λ (x : Ticket). assignment_row users a (some x.id)) (t ∷ ts)

unfoldable pub joined_rows :
    List User → List Ticket → List Attendee → List AttendeesIncludingTicketsRow
joined_rows users ts [] = []
joined_rows users ts (a ∷ rest) =
    assignment_rows users a (select (holds a) ts) ++ joined_rows users ts rest

-- `ORDER BY random()`: `shuffle` is the order that the server chose.
unfoldable pub attendees_including_tickets :
    (List AttendeesIncludingTicketsRow → List AttendeesIncludingTicketsRow)
    → Uuid
    → Statement (List AttendeesIncludingTicketsRow)
unfolding joined_rows
attendees_including_tickets shuffle showing now db = ok (
  shuffle (
      joined_rows db.users db.tickets
        (select (λ (a : Attendee). a.showing_id == showing) db.attendees)),
  db,
)

unfoldable pub my_tickets : Uuid → Uuid → Statement (List Ticket)
my_tickets showing user now db =
    ok (
      select (λ (t : Ticket). t.showing_id == showing && t.assigned_to_user == user) db.tickets,
      db,
    )

unfoldable pub showing_tickets_bought : Uuid → Statement (Bool × ℤ)
showing_tickets_bought id now db =
    one (find (λ (s : Showing). s.id == id) db.showings) (λ s. ok ((s.tickets_bought, s.price), db))
      (λ e. err e)

pub record TicketSeatingsRow : Type 0 where
  pub id : Text
  pub seat_row : ℤ
  pub seat_number : ℤ

abbrev pub seating : Ticket → TicketSeatingsRow
seating t = record { id = t.id; seat_row = t.seat_row; seat_number = t.seat_number }

unfoldable pub ticket_seatings : Uuid → Statement (List TicketSeatingsRow)
ticket_seatings showing now db = ok (
  map seating (
      order_by (λ (s t : Ticket). ltb_ℤ s.seat_row t.seat_row)
        (select (λ (t : Ticket). t.showing_id == showing) db.tickets)),
  db,
)
