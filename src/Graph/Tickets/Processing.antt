-- ===== src/Graph/Tickets/Processing.antt =====
-- `ProcessTicketUrls` (internal/graph/ticket.resolvers.go) and what it calls of
-- internal/graph/ticket.helpers.go.
pub mod Atomicity
pub mod Consistency
use filmstund.Base.{
  ℕ, Bool, true, false, ◌&&◌, not, Option, none, some, List, [], ◌∷◌, map, find, ◌==◌, ids, is_some,
  ◌/◌, ◌%◌, zero, suc, if◌then◌else◌,
}
use filmstund.Base.Int.{ℤ, pos, negsuc, ◌*ℤ◌, to_int32}
use filmstund.Base.Text.{Text}
use filmstund.Database.{
  Uuid, in_tx, pool, exec, begin, commit, rollback, attempt, or_return, or_rollback, pure, raise,
  ◌>>=◌, ◌>>◌,
}
use filmstund.Dao.Showings.{update_showing}
use filmstund.Dao.CinemaScreens.{add_cinema_screen}
use filmstund.Dao.Tickets.{
  AddTicketParams, add_ticket, AttendeesIncludingTicketsRow, attendees_including_tickets,
}
use filmstund.Graph.Model.{
  GraphShowing, SingleShow, internal_server_error, fetch_show_failed, insert_screen_failed,
  update_to_match_failed, invalid_ticket_url, commit_changes_failed, panicked,
}
use filmstund.Graph.Showings.{Handler, showing}
use filmstund.Graph.Tickets.Urls.{split_ticket_ids}

-- What the source reads of `filmstaden.Ticket`.
pub record FilmstadenTicket : Type 0 where
  pub id : Text
  pub profile_id : Text
  pub qr_code : Text
  pub customer_type : Text
  pub customer_type_definition : Text
  pub cinema_title : Text
  pub cinema_city : Text
  pub screen_title : Text
  pub seat_row : ℤ
  pub seat_number : ℤ
  pub show_date : Text
  pub show_time : Text
  pub movie_title : Text
  pub movie_rating : Text

-- The entries of the map from attendees to whether they have a ticket.
abbrev pub Assignments : Type 0
Assignments = List (Uuid × Bool)

-- What a request brings: the principal, Filmstaden's answers, the packages regexp and time, the
-- order that PostgreSQL chose for `random()` and the order in which Go visits a map.
pub record TicketEnv : Type 0 where
  pub me : Uuid
  pub matches_ticket_url : Text → Bool
  pub show : Text → Option SingleShow
  pub tickets : Text → Text → Text → Option (List FilmstadenTicket)
  pub barcode : Text → Option Text
  pub parse_time : Text → Option ℕ
  pub parse_date : Text → Option ℕ
  pub random : List AttendeesIncludingTicketsRow → List AttendeesIncludingTicketsRow
  pub range : Assignments → Assignments

-- The whole kronor of a price in hundredths: the conversion of the float.
abbrev pub whole_kronor : ℤ → ℤ
whole_kronor (pos n) = pos (n / 100)
whole_kronor (negsuc n) = elim (suc n / 100) [ zero ↦ pos 0 | suc m ↦ negsuc m ]

-- `int32(currency.SEK(fsShow.MovieVersionPrice) * currency.Kronor)`
unfoldable pub show_price : ℤ → ℤ
show_price price = to_int32 (to_int32 (whole_kronor price) *ℤ pos 100)

-- `validateTicketURL` of each URL.
abbrev pub all_valid : TicketEnv → List Text → Bool
all_valid env [] = true
all_valid env (url ∷ rest) = env.matches_ticket_url url && all_valid env rest

-- `updateShowingToMatchTicket`, from the answer of `r.filmstaden.Show` on. The columns `date` and
-- `time` keep the day and the minute of the day of its time.
unfoldable pub match_show : TicketEnv → Uuid → Text → Option SingleShow → Handler (Unit {0})
unfolding show_price
match_show env id show_id none = rollback >> raise fetch_show_failed
match_show env id show_id (some s) = do
  or_rollback (exec in_tx (add_cinema_screen s.screen_ncg_id (some s.screen_title)))
      insert_screen_failed
  or_rollback
      (exec in_tx (
        update_showing (record {
          price = show_price s.movie_version_price;
          pay_to_user = env.me;
          location = s.cinema_title;
          filmstaden_showing_id = some show_id;
          cinema_screen_id = some s.screen_ncg_id;
          date = s.time / 1440;
          time = s.time % 1440;
          showing_id = id;
          admin_id = env.me;
        })))
      update_to_match_failed

abbrev pub match_ids : TicketEnv → Uuid → Option (Text × Text × Text) → Handler (Unit {0})
match_ids env id none = raise panicked
match_ids env id (some (_, show_id, _)) = match_show env id show_id (env.show show_id)

-- `updateShowingToMatchTicket`
unfoldable pub update_showing_to_match_ticket : TicketEnv → Uuid → Text → Handler (Unit {0})
unfolding match_show
update_showing_to_match_ticket env id url = match_ids env id (split_ticket_ids url)

-- `nextTicketless`
unfoldable pub next_ticketless : Assignments → Option Uuid
next_ticketless [] = none
next_ticketless ((user, has_ticket) ∷ rest) =
    let later = next_ticketless rest in if has_ticket then later else some user

-- `assignmentStatus[user] = has_ticket`
unfoldable pub set_status : Uuid → Bool → Assignments → Assignments
set_status user has_ticket [] = (user, has_ticket) ∷ []
set_status user has_ticket ((u, b) ∷ rest) =
    let others = set_status user has_ticket rest in
    if u == user then (user, has_ticket) ∷ rest else (u, b) ∷ others

unfoldable pub assignments_from : Assignments → List AttendeesIncludingTicketsRow → Assignments
assignments_from status [] = status
assignments_from status (row ∷ rows) =
    assignments_from (set_status row.user_id (is_some row.ticket_id) status) rows

-- `fetchTicketAssignments`
unfoldable pub fetch_ticket_assignments : TicketEnv → Uuid → Handler Assignments
unfolding assignments_from
fetch_ticket_assignments env id = do
  rows ← or_rollback (exec in_tx (attendees_including_tickets env.random id)) internal_server_error
  pure (assignments_from [] rows)

-- `assignToUser`: without a ticketless attendee it is the principal.
unfoldable pub assignee : TicketEnv → Assignments → Uuid
assignee env status = elim (next_ticketless (env.range status)) [ none ↦ env.me | some u ↦ u ]

abbrev pub ticket_params : FilmstadenTicket → Uuid → Uuid → ℕ → ℕ → Text → AddTicketParams
ticket_params t id user time date barcode = record {
  id = t.id;
  showing_id = id;
  assigned_to_user = user;
  profile_id = some t.profile_id;
  barcode = barcode;
  customer_type = t.customer_type;
  customer_type_definition = t.customer_type_definition;
  cinema = t.cinema_title;
  cinema_city = some t.cinema_city;
  screen = t.screen_title;
  seat_row = to_int32 t.seat_row;
  seat_number = to_int32 t.seat_number;
  date = date;
  time = time;
  movie_name = t.movie_title;
  movie_rating = t.movie_rating;
}

-- From the parsed time and date and the barcode on; the error of `AddTicket` is only logged.
unfoldable pub add_assigned :
    FilmstadenTicket
    → Uuid
    → Uuid
    → Assignments
    → Option ℕ
    → Option ℕ
    → Option Text
    → Handler Assignments
add_assigned t id user status none date barcode = rollback >> raise internal_server_error
add_assigned t id user status (some time) none barcode = rollback >> raise internal_server_error
add_assigned t id user status (some time) (some date) none = raise panicked
add_assigned t id user status (some time) (some date) (some barcode) = do
  _ ← attempt (exec in_tx (add_ticket (ticket_params t id user time date barcode)))
  pure (set_status user true status)

-- One round of the inner loop of `assignTickets`.
unfoldable pub assign_ticket :
    TicketEnv → Uuid → FilmstadenTicket → Assignments → Handler Assignments
unfolding add_assigned assignee
assign_ticket env id t status =
    add_assigned t id (assignee env status) status (env.parse_time t.show_time)
      (env.parse_date t.show_date) (env.barcode t.qr_code)

unfoldable pub assign_fetched :
    TicketEnv → Uuid → List FilmstadenTicket → Assignments → Handler Assignments
unfolding assign_ticket
assign_fetched env id [] status = pure status
assign_fetched env id (t ∷ ts) status = do
  status' ← assign_ticket env id t status
  assign_fetched env id ts status'

-- Tickets that Filmstaden does not return are skipped.
abbrev pub assign_answer :
    TicketEnv → Uuid → Option (List FilmstadenTicket) → Assignments → Handler Assignments
assign_answer env id none status = pure status
assign_answer env id (some ts) status = assign_fetched env id ts status

abbrev pub assign_ids :
    TicketEnv → Uuid → Option (Text × Text × Text) → Assignments → Handler Assignments
assign_ids env id none status = raise panicked
assign_ids env id (some (sys, show, ticket)) status =
    assign_answer env id (env.tickets sys show ticket) status

-- The outer loop of `assignTickets`.
unfoldable pub assign_urls : TicketEnv → Uuid → List Text → Assignments → Handler Assignments
unfolding assign_fetched
assign_urls env id [] status = pure status
assign_urls env id (url ∷ rest) status = do
  status' ← assign_ids env id (split_ticket_ids url) status
  assign_urls env id rest status'

-- `mutationResolver.ProcessTicketUrls`, for URLs that are all valid.
unfoldable pub process_valid : TicketEnv → Uuid → List Text → Handler GraphShowing
unfolding update_showing_to_match_ticket fetch_ticket_assignments assign_urls showing
process_valid env id [] = showing (some id) none
process_valid env id (url ∷ rest) = do
  or_return begin internal_server_error
  update_showing_to_match_ticket env id url
  status ← fetch_ticket_assignments env id
  assign_urls env id (url ∷ rest) status
  or_return commit commit_changes_failed
  showing (some id) none

-- `mutationResolver.ProcessTicketUrls`
unfoldable pub process_ticket_urls : TicketEnv → Uuid → List Text → Handler GraphShowing
unfolding process_valid
process_ticket_urls env id urls =
    if all_valid env urls then process_valid env id urls else raise invalid_ticket_url
