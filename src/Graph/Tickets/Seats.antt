-- ===== src/Graph/Tickets/Seats.antt =====
-- `groupRows`, `distinctRows`, `mapToSeatRange` (internal/graph/ticket.helpers.go) and the resolver
-- `TicketRange` (internal/graph/ticket.resolvers.go).
use mathlib.Core.List.{append-nil, append_assoc}
use filmstund.Base.{
  ℕ, ◌+◌, ◌≡◌, refl, ◌∙◌, sym, ap, Bool, true, false, not, ◌&&◌, Option, none, some, List, [], ◌∷◌,
  ◌++◌, map, select, length, length-append, order_by, nat_eq, if◌then◌else◌, arith,
}
use filmstund.Base.Int.{ℤ, pos_part, neg_part, ltb_ℤ}
use filmstund.Database.{DbError, no_rows, Result, ok, err, pool, exec, attempt, pure, raise, ◌>>=◌}
use filmstund.Dao.Tickets.{TicketSeatingsRow, ticket_seatings}
use filmstund.Graph.Model.{GraphShowing, fetch_seatings_failed}
use filmstund.Graph.Showings.{Handler}

-- A Go map from rows to the seats on them, as the list of its entries.
abbrev pub Rows : Type 0
Rows = List (ℤ × List ℤ)

abbrev pub same_row : ℤ → ℤ → Bool
same_row a b = nat_eq (pos_part a) (pos_part b) && nat_eq (neg_part a) (neg_part b)

-- `set[row] = append(set[row], seat)`
unfoldable add_seat : ℤ → ℤ → Rows → Rows
add_seat row seat [] = (row, seat ∷ []) ∷ []
add_seat row seat ((r, seats) ∷ rest) =
    let others = add_seat row seat rest in
    if same_row r row then (r, seats ++ seat ∷ []) ∷ rest else (r, seats) ∷ others

unfoldable group_from : Rows → List TicketSeatingsRow → Rows
unfolding add_seat
group_from set [] = set
group_from set (t ∷ ts) = group_from (add_seat t.seat_row t.seat_number set) ts

-- `groupRows`
unfoldable pub group_rows : List TicketSeatingsRow → Rows
unfolding group_from
group_rows = group_from []

abbrev row_of : ℤ × List ℤ → ℤ
row_of (row, _) = row

-- `distinctRows`, with the order in which Go visits the map.
unfoldable pub distinct_rows : (Rows → Rows) → Rows → List ℤ
distinct_rows range set = order_by ltb_ℤ (map row_of (range set))

pub record SeatRange : Type 0 where
  pub row : ℤ
  pub numbers : List ℤ

abbrev seat_range : ℤ × List ℤ → SeatRange
seat_range (row, seats) = record { row = row; numbers = seats }

-- `mapToSeatRange`
unfoldable pub map_to_seat_range : (Rows → Rows) → Rows → List SeatRange
map_to_seat_range range set = map seat_range (range set)

pub record TicketRange : Type 0 where
  pub rows : List ℤ
  pub seatings : List SeatRange
  pub total_count : ℕ

unfoldable pub range_of : (Rows → Rows) → List TicketSeatingsRow → TicketRange
unfolding group_rows distinct_rows map_to_seat_range
range_of range ts = record {
  rows = distinct_rows range (group_rows ts);
  seatings = map_to_seat_range range (group_rows ts);
  total_count = length ts;
}

unfoldable range_answer :
    (Rows → Rows) → Result DbError (List TicketSeatingsRow) → Handler (Option TicketRange)
unfolding range_of
range_answer range (ok ts) = pure (some (range_of range ts))
range_answer range (err no_rows) = pure none
range_answer range (err _) = raise fetch_seatings_failed

-- `showingResolver.TicketRange`
unfoldable pub ticket_range : (Rows → Rows) → GraphShowing → Handler (Option TicketRange)
unfolding range_answer
ticket_range range s =
    if not s.tickets_bought
    then pure none
    else attempt (exec pool (ticket_seatings s.id)) >>= range_answer range

-- What the map holds for a row.
abbrev pub seats_on : ℤ → Rows → List ℤ
seats_on row [] = []
seats_on row ((r, seats) ∷ rest) = if same_row r row then seats else seats_on row rest

abbrev pub seats_of : ℤ → List TicketSeatingsRow → List ℤ
seats_of row ts =
    map (λ (t : TicketSeatingsRow). t.seat_number)
      (select (λ (t : TicketSeatingsRow). same_row t.seat_row row) ts)

added :
    (row r seat : ℤ) (set : Rows)
    → seats_on r (add_seat row seat set)
      ≡ (if same_row row r then seats_on r set ++ seat ∷ [] else seats_on r set)
unfolding add_seat
added row r seat [] = ground arith
added row r seat ((x, seats) ∷ set) = ground (arith, added row r seat set)

abbrev numbers_of : List TicketSeatingsRow → List ℤ
numbers_of = map (λ (t : TicketSeatingsRow). t.seat_number)

moved :
    (b : Bool) (seats : List ℤ) (t : TicketSeatingsRow) (ts : List TicketSeatingsRow)
    → (if b then seats ++ t.seat_number ∷ [] else seats) ++ numbers_of ts
      ≡ seats ++ numbers_of (if b then t ∷ ts else ts)
moved true seats t ts = append_assoc seats (t.seat_number ∷ []) (numbers_of ts)
moved false seats t ts = refl

grouped :
    (r : ℤ) (set : Rows) (ts : List TicketSeatingsRow)
    → seats_on r (group_from set ts) ≡ seats_on r set ++ seats_of r ts
unfolding group_from
grouped r set [] = sym (append-nil (seats_on r set))
grouped r set (t ∷ ts) =
    grouped r (add_seat t.seat_row t.seat_number set) ts
    ∙ ap (λ seats. seats ++ seats_of r ts) (added t.seat_row r t.seat_number set)
    ∙ moved (same_row t.seat_row r) (seats_on r set) t (select (λ t. same_row t.seat_row r) ts)

-- The seats that `groupRows` finds on a row are those of the tickets for that row, in their order:
-- none is lost, none is repeated and none strays to another row.
group_rows-seats_of :
    (r : ℤ) (ts : List TicketSeatingsRow) → seats_on r (group_rows ts) ≡ seats_of r ts
unfolding group_rows
group_rows-seats_of r ts = grouped r [] ts

-- The number of seats in the map.
abbrev pub seat_count : Rows → ℕ
seat_count [] = 0
seat_count ((_, seats) ∷ rest) = length seats + seat_count rest

one_more : (row seat : ℤ) (set : Rows) → seat_count (add_seat row seat set) ≡ 1 + seat_count set
unfolding add_seat
one_more row seat [] = refl
one_more row seat ((r, seats) ∷ set) =
    ground (arith, one_more row seat set, length-append seats (seat ∷ []))

counted :
    (set : Rows) (ts : List TicketSeatingsRow)
    → seat_count (group_from set ts) ≡ seat_count set + length ts
unfolding group_from
counted set [] = omega arith
counted set (t ∷ ts) = omega (
  arith,
  counted (add_seat t.seat_row t.seat_number set) ts,
  one_more t.seat_row t.seat_number set,
)

-- The seats of the ranges are as many as `TotalCount`.
pub seat_count-group_rows : (ts : List TicketSeatingsRow) → seat_count (group_rows ts) ≡ length ts
unfolding group_rows
seat_count-group_rows ts = omega (arith, counted [] ts)
