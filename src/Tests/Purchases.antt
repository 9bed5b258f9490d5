-- ===== src/Tests/Purchases.antt =====
-- The theorems on `CreateShowing` and `MarkAsBought` at the sample tables.
use filmstund.Base.{◌≡◌, refl, true, false, none, [], ◌∷◌, map}
use filmstund.Base.Int.{pos}
use filmstund.Base.Text.{bytes}
use filmstund.Database.{World, Attendee}
use filmstund.Database.Atomicity.{AllOrNothing}
use filmstund.Graph.Model.{CreateShowingInput}
use filmstund.Graph.Showings.{create_showing, mark_as_bought}
use filmstund.Graph.Showings.Atomicity.{
  never, is_late, create_showing-AllOrNothing, mark_as_bought-AllOrNothing,
}
use filmstund.Graph.Showings.Settlement.{bought}
use filmstund.Tests.Samples.{club, env}

abbrev evening : CreateShowingInput
evening = record {
  date = 19100;
  time = 1100;
  movie_id = 70;
  location = bytes "Royal";
  filmstaden_remote_entity_id = none;
}

-- The server goes away at the third call.
abbrev failing : World
failing = record { db = club; tx = none; faults = false ∷ false ∷ true ∷ []; now = 5 }

create_showing-AllOrNothing_example :
    AllOrNothing never failing (create_showing env evening failing)
create_showing-AllOrNothing_example = create_showing-AllOrNothing env evening failing refl

mark_as_bought-AllOrNothing_example :
    AllOrNothing is_late failing (mark_as_bought 1 10 (pos 12000) failing)
mark_as_bought-AllOrNothing_example = mark_as_bought-AllOrNothing 1 10 (pos 12000) failing refl

-- User 2 owes the price; the admin and user 3 owe nothing; the other showing's attendee is as before.
debts_after_purchase :
    map (λ (a : Attendee). a.amount_owed) (bought 1 10 (pos 12000) 5 club).attendees
    ≡ pos 0 ∷ pos 12000 ∷ pos 0 ∷ pos 9000 ∷ []
debts_after_purchase = refl
