-- ===== src/Tests/Payments.antt =====
-- The theorems on payments and on the directive for showing admins at concrete inputs.
use filmstund.Base.{refl, true, false, none, some, [], ◌∷◌, ids, list_eq, ◌≤◌, ◌+◌, ◌*◌}
use filmstund.Base.Int.{pos, negsuc, pos_part, neg_part}
use filmstund.Base.Text.{bytes}
use filmstund.Currency.{kronor, kronor-nearest}
use filmstund.Swish.{Encoders}
use filmstund.Database.{Uuid}
use filmstund.Dao.Attendees.{AttendeePaymentDetailsRow, UpdateAttendeePaymentParams}
use filmstund.Graph.Model.{type_name, showing_model}
use filmstund.Graph.Showings.{delete_showing_by_id}
use filmstund.Graph.Authorization.{
  showing_admin, Arguments, uuid_argument, Refused, verify_showing_admin, by_argument,
  verify_showing_admin-refuses,
}
use filmstund.Graph.Payments.{admin_payment_details}
use filmstund.Graph.Payments.Links.{IsPayable}
use filmstund.Graph.Payments.Updates.{ShowsNobody, admin_payment_details-ShowsNobody}
use filmstund.Tests.Histories.{flaky}
use filmstund.Tests.Samples.{bought_showing}

-- -150 ören are -2 kr.
kronor-nearest_example :
    (100 * pos_part (kronor (negsuc 149)) ≤ 0 + 50)
    × (0 ≤ 100 * pos_part (kronor (negsuc 149)) + 49)
    × (100 * neg_part (kronor (negsuc 149)) ≤ 150 + 50)
    × (150 ≤ 100 * neg_part (kronor (negsuc 149)) + 49)
kronor-nearest_example = kronor-nearest (negsuc 149)

abbrev encoders : Encoders
encoders = record { marshal = λ d. some (bytes "json"); path_escape = λ t. t }

abbrev debt : AttendeePaymentDetailsRow
debt = record {
  user_id = 2;
  showing_id = 11;
  has_paid = false;
  amount_owed = pos 12050;
  attendee_type = bytes "SWISH";
  pay_to_user = 1;
  pay_to_phone = some (bytes "123");
  movie_title = bytes "Dune";
}

debt-IsPayable : IsPayable debt
unfolding list_eq kronor type_name
debt-IsPayable = record {
  has_phone = refl;
  not_paid = refl;
  by_swish = refl;
  owes = refl;
  enough = refl;
  not_too_much = refl;
  short = refl;
}

abbrev settled_by_hand : UpdateAttendeePaymentParams
settled_by_hand = record { has_paid = true; amount_owed = pos 0; user_id = 2; showing_id = 11 }

admin_payment_details-ShowsNobody_example :
    ShowsNobody (admin_payment_details 1 (showing_model bought_showing) flaky).0
unfolding showing_model
admin_payment_details-ShowsNobody_example =
    admin_payment_details-ShowsNobody 1 (showing_model bought_showing) flaky refl

abbrev removal : Uuid → Arguments
removal id = (bytes "showingID", uuid_argument id) ∷ []

verify_showing_admin-refuses_example : Refused 1 (delete_showing_by_id 11) flaky (
    verify_showing_admin (λ m. m) 1 none (removal 11) (delete_showing_by_id 11) showing_admin flaky)
unfolding verify_showing_admin list_eq
verify_showing_admin-refuses_example =
    verify_showing_admin-refuses (λ m. m) 1 none (removal 11) (some 11) (delete_showing_by_id 11)
      flaky (by_argument (bytes "showingID") 11 (removal 11) refl) refl
