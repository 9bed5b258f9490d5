-- ===== src/Graph/Tickets/Processing/Atomicity.antt =====
-- `ProcessTicketUrls` and its transaction.
use filmstund.Base.{
  ℕ, ◌≡◌, refl, true, Option, none, some, List, [], ◌∷◌, is_some, Bool-cases, inl, inr, arith,
}
use filmstund.Base.Text.{Text}
use filmstund.Database.{Uuid, World, raise}
use filmstund.Database.Atomicity.{
  AllOrNothing, Handles, IsStep, atomic_rules, begin-Handles, bind-Ends, commit-Ends, commit-Closes,
  bind-IsStep, Afterwards-Handles,
}
use filmstund.Graph.Model.{SingleShow}
use filmstund.Graph.Showings.Atomicity.{is_late, showing-Afterwards}
use filmstund.Graph.Tickets.Urls.{split_ticket_ids}
use filmstund.Graph.Tickets.Processing.{
  TicketEnv, FilmstadenTicket, Assignments, match_show, match_ids, update_showing_to_match_ticket,
  fetch_ticket_assignments, add_assigned, assign_ticket, assign_fetched, assign_answer, assign_ids,
  assign_urls, process_valid, process_ticket_urls, all_valid,
}

-- What keeps `ProcessTicketUrls` from a panic: a URL that the pattern accepts has the folder of the
-- tickets in it, as the pattern spells it out, and the barcode of every ticket can be fetched.
pub record IsDependable (env : TicketEnv) : Type 0 where
  pub has_folder :
      (url : Text) → env.matches_ticket_url url ≡ true → is_some (split_ticket_ids url) ≡ true
  pub has_barcode : (code : Text) → is_some (env.barcode code) ≡ true

match_show-IsStep :
    (env : TicketEnv) (id : Uuid) (show_id : Text) (s : Option SingleShow)
    → IsStep (match_show env id show_id s)
unfolding match_show
match_show-IsStep env id show_id none = search atomic_rules
match_show-IsStep env id show_id (some s) = search atomic_rules

match_ids-IsStep :
    (env : TicketEnv) (id : Uuid) (ids : Option (Text × Text × Text))
    → is_some ids ≡ true
    → IsStep (match_ids env id ids)
match_ids-IsStep env id none h = cc
match_ids-IsStep env id (some (sys, show_id, ticket)) h =
    match_show-IsStep env id show_id (env.show show_id)

fetch_ticket_assignments-IsStep :
    (env : TicketEnv) (id : Uuid) → IsStep (fetch_ticket_assignments env id)
unfolding fetch_ticket_assignments
fetch_ticket_assignments-IsStep env id = search atomic_rules

add_assigned-IsStep :
    (t : FilmstadenTicket) (id user : Uuid) (status : Assignments) (time date : Option ℕ)
    (barcode : Option Text)
    → is_some barcode ≡ true
    → IsStep (add_assigned t id user status time date barcode)
unfolding add_assigned
add_assigned-IsStep t id user status none date barcode h = search atomic_rules
add_assigned-IsStep t id user status (some time) none barcode h = search atomic_rules
add_assigned-IsStep t id user status (some time) (some date) none h = cc
add_assigned-IsStep t id user status (some time) (some date) (some barcode) h = search atomic_rules

assign_fetched-IsStep :
    (env : TicketEnv) (id : Uuid) (ts : List FilmstadenTicket) (status : Assignments)
    → IsDependable env
    → IsStep (assign_fetched env id ts status)
unfolding assign_fetched assign_ticket
assign_fetched-IsStep env id [] status h = search atomic_rules
assign_fetched-IsStep env id (t ∷ ts) status h =
    bind-IsStep _ _
      (add_assigned-IsStep t id _ status (env.parse_time t.show_time) (env.parse_date t.show_date)
        (env.barcode t.qr_code) (h.has_barcode t.qr_code))
      λ status'. assign_fetched-IsStep env id ts status' h

assign_answer-IsStep :
    (env : TicketEnv) (id : Uuid) (answer : Option (List FilmstadenTicket)) (status : Assignments)
    → IsDependable env
    → IsStep (assign_answer env id answer status)
assign_answer-IsStep env id none status h = search atomic_rules
assign_answer-IsStep env id (some ts) status h = assign_fetched-IsStep env id ts status h

assign_ids-IsStep :
    (env : TicketEnv) (id : Uuid) (ids : Option (Text × Text × Text)) (status : Assignments)
    → IsDependable env
    → is_some ids ≡ true
    → IsStep (assign_ids env id ids status)
assign_ids-IsStep env id none status h k = cc
assign_ids-IsStep env id (some (sys, show, ticket)) status h k =
    assign_answer-IsStep env id (env.tickets sys show ticket) status h

assign_urls-IsStep :
    (env : TicketEnv) (id : Uuid) (urls : List Text) (status : Assignments)
    → IsDependable env
    → all_valid env urls ≡ true
    → IsStep (assign_urls env id urls status)
unfolding assign_urls
assign_urls-IsStep env id [] status h v = search atomic_rules
assign_urls-IsStep env id (url ∷ rest) status h v =
    bind-IsStep _ _
      (assign_ids-IsStep env id (split_ticket_ids url) status h (h.has_folder url (ground arith)))
      λ status'. assign_urls-IsStep env id rest status' h (ground arith)

process_valid-Handles :
    (env : TicketEnv) (id : Uuid) (urls : List Text)
    → IsDependable env
    → all_valid env urls ≡ true
    → Handles is_late (process_valid env id urls)
unfolding process_valid update_showing_to_match_ticket
process_valid-Handles env id [] h v = Afterwards-Handles _ (showing-Afterwards id)
process_valid-Handles env id (url ∷ rest) h v = begin-Handles _ _ λ _.
    bind-Ends _ _ (match_ids-IsStep env id (split_ticket_ids url) (h.has_folder url (ground arith)))
      λ _. bind-Ends _ _ (fetch_ticket_assignments-IsStep env id) λ status.
        bind-Ends _ _ (assign_urls-IsStep env id (url ∷ rest) status h v)
          λ _. commit-Ends _ _ (commit-Closes _) λ _. showing-Afterwards id

-- `ProcessTicketUrls` leaves no transaction open, and if it returns an error other than that of
-- the query after its commit the committed tables are as they were, where none was open before
-- and it does not panic for want of a folder in a URL or of a barcode.
pub process_ticket_urls-AllOrNothing :
    (env : TicketEnv) (id : Uuid) (urls : List Text) (w : World)
    → IsDependable env
    → w.tx ≡ none
    → AllOrNothing is_late w (process_ticket_urls env id urls w)
unfolding process_ticket_urls raise
process_ticket_urls-AllOrNothing env id urls w h closed = elim (Bool-cases (all_valid env urls)) [
  | inl valid ↦ rw valid ((process_valid-Handles env id urls h valid).at w closed)
  | inr invalid ↦ rw invalid (closed, λ l. refl)
]
