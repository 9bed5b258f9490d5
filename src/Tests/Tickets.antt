-- ===== src/Tests/Tickets.antt =====
-- The theorems on tickets at concrete URLs and tickets.
use filmstund.Base.{◌≡◌, refl, some, List, [], ◌∷◌, is_some}
use filmstund.Base.Int.{ℤ, pos, to_int32, ◌*ℤ◌}
use filmstund.Base.Text.{Text, bytes}
use filmstund.Dao.Consistency.{IsConsistent}
use filmstund.Dao.Consistency.Rules.{Holds}
use filmstund.Dao.Tickets.{TicketSeatingsRow}
use filmstund.Database.Atomicity.{AllOrNothing}
use filmstund.Graph.Model.{SingleShow}
use filmstund.Graph.Showings.Atomicity.{is_late}
use filmstund.Graph.Tickets.Urls.{split_ticket_ids, ticket_url}
use filmstund.Graph.Tickets.Processing
use filmstund.Graph.Tickets.Processing.{TicketEnv, FilmstadenTicket, process_ticket_urls}
use filmstund.Graph.Tickets.Processing.Atomicity.{process_ticket_urls-AllOrNothing}
use filmstund.Graph.Tickets.Processing.Consistency.{process_ticket_urls-IsConsistent}
use filmstund.Tests.Histories.{flaky, flaky-IsConsistent}

abbrev url : Text
url = ticket_url (bytes "Sys99-SE") (bytes "20211220") (bytes "5BZZ")

abbrev seat : ℤ → ℤ → TicketSeatingsRow
seat row number = record { id = bytes "t"; seat_row = row; seat_number = number }

abbrev seats : List TicketSeatingsRow
seats = seat (pos 3) (pos 7) ∷ seat (pos 4) (pos 1) ∷ seat (pos 3) (pos 8) ∷ []

abbrev filmstaden_ticket : Text → FilmstadenTicket
filmstaden_ticket id = record {
  id = id;
  profile_id = bytes "p";
  qr_code = bytes "qr";
  customer_type = bytes "c";
  customer_type_definition = bytes "d";
  cinema_title = bytes "Royal";
  cinema_city = bytes "Malm";
  screen_title = bytes "Salong 1";
  seat_row = pos 3;
  seat_number = pos 7;
  show_date = bytes "2021-12-20";
  show_time = bytes "18:10";
  movie_title = bytes "Dune";
  movie_rating = bytes "11";
}

abbrev fetched : List FilmstadenTicket
fetched = filmstaden_ticket (bytes "t1") ∷ filmstaden_ticket (bytes "t2") ∷ []

abbrev matched_show : SingleShow
matched_show = record {
  time = 27333850;
  movie_version_price = pos 12050;
  cinema_title = bytes "Royal";
  screen_ncg_id = bytes "NCG1";
  screen_title = bytes "Salong 1";
}

-- Filmstaden answers every question.
abbrev open_filmstaden : TicketEnv
open_filmstaden = record {
  me = 1;
  matches_ticket_url = λ url. is_some (split_ticket_ids url);
  show = λ id. some matched_show;
  tickets = λ sys show ticket. some fetched;
  barcode = λ code. some (bytes "barcode");
  parse_time = λ t. some 1090;
  parse_date = λ d. some 18981;
  random = λ rows. rows;
  range = λ m. m;
}

process_ticket_urls-AllOrNothing_example :
    AllOrNothing is_late flaky (process_ticket_urls open_filmstaden 10 (url ∷ []) flaky)
process_ticket_urls-AllOrNothing_example =
    process_ticket_urls-AllOrNothing open_filmstaden 10 (url ∷ []) flaky
      (record { has_folder = λ url h. h; has_barcode = λ code. refl }) refl

process_ticket_urls-IsConsistent_example :
    Holds IsConsistent (process_ticket_urls open_filmstaden 10 (url ∷ []) flaky).1
process_ticket_urls-IsConsistent_example =
    process_ticket_urls-IsConsistent open_filmstaden 10 (url ∷ []) flaky flaky-IsConsistent

-- A price of 120.50 kr loses its ören.
lost_oren : Processing.show_price (pos 12050) ≡ pos 12000
unfolding Processing.show_price to_int32 ◌*ℤ◌
lost_oren = refl
