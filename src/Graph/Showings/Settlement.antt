-- ===== src/Graph/Showings/Settlement.antt =====
-- What `MarkAsBought` (internal/graph/showing.resolvers.go) makes of the showing and its attendees.
use filmstund.Base.{ℕ, ◌≡◌, false, not, List, [], ◌∷◌, map, any, ◌==◌, ids, if◌then◌else◌, is_some}
use filmstund.Base.Int.{ℤ}
use filmstund.Database.{Uuid, Db, Showing, Attendee}
use filmstund.Dao.Showings
use filmstund.Dao.Showings.{MarkShowingAsBoughtParams, marked}
use filmstund.Dao.Attendees
use filmstund.Dao.Attendees.{settled, owing}

-- The primary key of the table `showings`.
abbrev pub DistinctIds : List Showing → Type 0
DistinctIds [] = Unit {0}
DistinctIds (s ∷ ss) = (any (λ (t : Showing). t.id == s.id) ss ≡ false) × DistinctIds ss

-- One attendee after the purchase: the admin and who pays by a gift certificate have paid, who has
-- paid already is left alone, and everybody else owes the price.
abbrev pub settle : Uuid → Uuid → ℤ → ℕ → Attendee → Attendee
settle me id price now a =
    if not (a.showing_id == id)
    then a
    else if is_some a.gift_certificate_used
    then settled now a
    else if a.user_id == me
    then settled now a
    else if a.has_paid
    then a
    else owing price now a

-- The tables after the purchase.
abbrev pub bought : Uuid → Uuid → ℤ → ℕ → Db → Db
bought me id price now db = record db {
  showings = map (λ (s : Showing). if s.id == id then marked price now s else s) db.showings;
  attendees = map (settle me id price now) db.attendees;
}

abbrev purchase : Uuid → Uuid → ℤ → MarkShowingAsBoughtParams
purchase me id price = record { price = price; showing_id = id; admin_id = me }
