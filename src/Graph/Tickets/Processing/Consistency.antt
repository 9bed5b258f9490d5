-- ===== src/Graph/Tickets/Processing/Consistency.antt =====
-- `ProcessTicketUrls` keeps the constraints of the tables.
use filmstund.Base.{ℕ, Option, none, some, List, [], ◌∷◌, Bool-cases, inl, inr}
use filmstund.Base.Text.{Text}
use filmstund.Database.{Uuid, World}
use filmstund.Dao.Consistency.{IsConsistent}
use filmstund.Dao.Consistency.Rules.{
  Preserves, Holds, preserve_rules, bind-Preserves, raise-Preserves,
}
use filmstund.Dao.Consistency.Reads.{read_rules}
use filmstund.Dao.Consistency.Showings.{update_showing-Keeps}
use filmstund.Dao.Consistency.Tickets.{add_ticket-Keeps, add_cinema_screen-Keeps}
use filmstund.Graph.Model.{SingleShow}
use filmstund.Graph.Showings.Consistency.{statements}
use filmstund.Graph.Showings.Preserving.{showing-Preserves}
use filmstund.Graph.Tickets.Urls.{split_ticket_ids}
use filmstund.Graph.Tickets.Processing.{
  TicketEnv, FilmstadenTicket, Assignments, match_show, match_ids, update_showing_to_match_ticket,
  fetch_ticket_assignments, add_assigned, assign_ticket, assign_fetched, assign_answer, assign_ids,
  assign_urls, process_valid, process_ticket_urls, all_valid,
}

ruleset rules =
    (preserve_rules, read_rules, update_showing-Keeps, add_ticket-Keeps, add_cinema_screen-Keeps)

match_show-Preserves :
    (env : TicketEnv) (id : Uuid) (show_id : Text) (s : Option SingleShow)
    → Preserves IsConsistent (match_show env id show_id s)
unfolding match_show
match_show-Preserves env id show_id none = search rules depth 12
match_show-Preserves env id show_id (some s) = search rules depth 12

match_ids-Preserves :
    (env : TicketEnv) (id : Uuid) (ids : Option (Text × Text × Text))
    → Preserves IsConsistent (match_ids env id ids)
match_ids-Preserves env id none = search rules depth 12
match_ids-Preserves env id (some (sys, show_id, ticket)) =
    match_show-Preserves env id show_id (env.show show_id)

update_showing_to_match_ticket-Preserves :
    (env : TicketEnv) (id : Uuid) (url : Text)
    → Preserves IsConsistent (update_showing_to_match_ticket env id url)
unfolding update_showing_to_match_ticket
update_showing_to_match_ticket-Preserves env id url =
    match_ids-Preserves env id (split_ticket_ids url)

fetch_ticket_assignments-Preserves :
    (env : TicketEnv) (id : Uuid) → Preserves IsConsistent (fetch_ticket_assignments env id)
unfolding fetch_ticket_assignments
fetch_ticket_assignments-Preserves env id = search rules depth 12

add_assigned-Preserves :
    (t : FilmstadenTicket) (id user : Uuid) (status : Assignments) (time date : Option ℕ)
    (barcode : Option Text)
    → Preserves IsConsistent (add_assigned t id user status time date barcode)
unfolding add_assigned
add_assigned-Preserves t id user status none date barcode = search rules depth 12
add_assigned-Preserves t id user status (some time) none barcode = search rules depth 12
add_assigned-Preserves t id user status (some time) (some date) none = search rules depth 12
add_assigned-Preserves t id user status (some time) (some date) (some barcode) =
    search rules depth 12

assign_fetched-Preserves :
    (env : TicketEnv) (id : Uuid) (ts : List FilmstadenTicket) (status : Assignments)
    → Preserves IsConsistent (assign_fetched env id ts status)
unfolding assign_fetched assign_ticket
assign_fetched-Preserves env id [] status = search rules depth 12
assign_fetched-Preserves env id (t ∷ ts) status =
    bind-Preserves IsConsistent _ _
      (add_assigned-Preserves t id _ status (env.parse_time t.show_time)
        (env.parse_date t.show_date) (env.barcode t.qr_code))
      λ status'. assign_fetched-Preserves env id ts status'

assign_answer-Preserves :
    (env : TicketEnv) (id : Uuid) (answer : Option (List FilmstadenTicket)) (status : Assignments)
    → Preserves IsConsistent (assign_answer env id answer status)
assign_answer-Preserves env id none status = search rules depth 12
assign_answer-Preserves env id (some ts) status = assign_fetched-Preserves env id ts status

assign_ids-Preserves :
    (env : TicketEnv) (id : Uuid) (ids : Option (Text × Text × Text)) (status : Assignments)
    → Preserves IsConsistent (assign_ids env id ids status)
assign_ids-Preserves env id none status = search rules depth 12
assign_ids-Preserves env id (some (sys, show, ticket)) status =
    assign_answer-Preserves env id (env.tickets sys show ticket) status

assign_urls-Preserves :
    (env : TicketEnv) (id : Uuid) (urls : List Text) (status : Assignments)
    → Preserves IsConsistent (assign_urls env id urls status)
unfolding assign_urls
assign_urls-Preserves env id [] status = search rules depth 12
assign_urls-Preserves env id (url ∷ rest) status =
    bind-Preserves IsConsistent _ _ (assign_ids-Preserves env id (split_ticket_ids url) status)
      λ status'. assign_urls-Preserves env id rest status'

process_valid-Preserves :
    (env : TicketEnv) (id : Uuid) (urls : List Text)
    → Preserves IsConsistent (process_valid env id urls)
unfolding process_valid
process_valid-Preserves env id [] = showing-Preserves statements id
process_valid-Preserves env id (url ∷ rest) =
    search
      (
        rules,
        update_showing_to_match_ticket-Preserves,
        fetch_ticket_assignments-Preserves,
        assign_urls-Preserves,
        showing-Preserves statements,
      )
      depth 20

-- From tables that satisfy the constraints of the migrations on showings, attendees, tickets and
-- cinema screens, except the lengths of varchar columns, and with no open transaction or one
-- whose view satisfies them, ProcessTicketUrls leaves tables that satisfy them, whatever
-- Filmstaden answers, whichever calls to the database fail, and where the handler panics.
pub process_ticket_urls-IsConsistent :
    (env : TicketEnv) (id : Uuid) (urls : List Text) (w : World)
    → Holds IsConsistent w
    → Holds IsConsistent (process_ticket_urls env id urls w).1
unfolding process_ticket_urls
process_ticket_urls-IsConsistent env id urls w h = elim (Bool-cases (all_valid env urls)) [
  | inl valid ↦ rw valid ((process_valid-Preserves env id urls).at w h)
  | inr invalid ↦ rw invalid ((raise-Preserves IsConsistent _).at w h)
]
