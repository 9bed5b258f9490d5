-- ===== src/Tests/Histories.antt =====
-- The theorems on whole requests, with failures of the server, at the sample tables.
use filmstund.Base.{some, Bool, nat_eq, refl, true, false, none, List, [], ◌∷◌, list_eq, arith}
use filmstund.Base.Int.{pos}
use filmstund.Base.Text.{bytes}
use filmstund.Database.{World, Uuid}
use filmstund.Dao.Consistency.{IsConsistent}
use filmstund.Dao.Consistency.Rules.{Holds}
use filmstund.Graph.Model.{Env, PaymentOption, swish, UpdateShowingInput}
use filmstund.Graph.Showings.{mark_as_bought, update_showing_by_id, promote_to_admin}
use filmstund.Graph.Showings.Authority.{Unchanged, stranger-Unchanged}
use filmstund.Graph.Showings.Consistency.{
  Mutation, attend, update, buy, delete, unattend, promote, serve_all, serve_all-IsConsistent,
}
use filmstund.Graph.Showings.Permanence.{serve_all-IsClosed}
use filmstund.Graph.Showings.Permanence.Statements.{IsClosed}
use filmstund.Tests.Samples.{club, env}

abbrev pub flaky : World
flaky = record { db = club; tx = none; faults = false ∷ true ∷ []; now = 5 }

pub flaky-IsConsistent : Holds IsConsistent flaky
unfolding list_eq
flaky-IsConsistent = (
  record {
    showing_pk = (refl, (refl, tt));
    showing_webid_uniq = (refl, (refl, tt));
    showings_fit = (
      (refl, omega arith, refl, refl, refl, refl, refl),
      ((refl, omega arith, refl, refl, refl, refl, refl), tt),
    );
    attendee_pk = (refl, (refl, (refl, (refl, tt))));
    attendee_giftcert_unique = (refl, (refl, (refl, (refl, tt))));
    attendees_fit =
        ((refl, refl, refl), ((refl, refl, refl), ((refl, refl, refl), ((refl, refl, refl), tt))));
    ticket_pk = tt;
    tickets_fit = tt;
    cinema_screen_pk = tt;
  },
  tt,
)

abbrev season : List (Env × Mutation)
season =
    (env, buy 10 (pos 12000)) ∷ (env, promote 10 2) ∷ (env, unattend 10) ∷ (env, delete 11) ∷ []

serve_all-IsConsistent_example : Holds IsConsistent (serve_all season flaky)
serve_all-IsConsistent_example = serve_all-IsConsistent season flaky flaky-IsConsistent

abbrev moved : UpdateShowingInput
moved = record {
  price = pos 100;
  pay_to_user = 1;
  location = bytes "Royal";
  filmstaden_remote_entity_id = none;
  date = 19001;
  time = 1000;
}

-- User 1 is not the admin of showing 11.
stranger-Unchanged_example :
    Unchanged flaky (mark_as_bought 1 11 (pos 12000) flaky).1
    × Unchanged flaky (update_showing_by_id env 11 (some moved) flaky).1
    × Unchanged flaky (promote_to_admin 1 11 3 flaky).1
stranger-Unchanged_example = stranger-Unchanged env 11 3 (pos 12000) (some moved) flaky refl refl

-- Showing 11 is bought, and only user 2, its admin, attends it.
abbrev only_admin : Uuid → Bool
only_admin u = nat_eq u 2

abbrev latecomer : Env
latecomer = record env { me = 4 }

abbrev by_swish : PaymentOption
by_swish = record { kind = swish; ticket_number = none }

abbrev late : List (Env × Mutation)
late =
    (latecomer, attend 11 by_swish)
    ∷ (env, update 11 (some moved))
    ∷ (env, promote 11 1)
    ∷ (env, unattend 11)
    ∷ []

serve_all-IsClosed_example : Holds (IsClosed 11 2 only_admin) (serve_all late flaky)
serve_all-IsClosed_example =
    serve_all-IsClosed 11 2 only_admin late flaky (refl, (refl, (refl, (refl, tt))))
      (((refl, (refl, tt)), (refl, (refl, (refl, (refl, tt))))), tt)
