-- ===== src/Graph/Payments.antt =====
-- internal/graph/payment.resolvers.go: who has paid and who owes what.
pub mod Links
pub mod Updates
pub mod Identifiers
use filmstund.Base.{
  ℕ, Bool, true, false, not, ◌&&◌, Option, none, some, List, ◌++◌, map, ◌==◌, texts, is_some,
  if◌then◌else◌,
}
use filmstund.Base.Int.{ℤ, pos, ltb_ℤ}
use filmstund.Base.Text.{Text, bytes}
use filmstund.Currency.{kronor}
use filmstund.Encoding.Base64.{encode, be_bytes}
use filmstund.Swish.{Encoders, Uri, uri, format_uri}
use filmstund.Database.{
  Uuid, DbError, no_rows, Result, ok, err, pool, exec, attempt, or_return, pure, raise, ◌>>=◌, ◌>>◌,
}
use filmstund.Dao.Attendees.{
  AttendeeRow, AttendeePaymentDetailsRow, UpdateAttendeePaymentParams, attendee, list_attendees,
  attendee_payment_details, update_attendee_payment,
}
use filmstund.Dao.Movies.{lookup_slug_and_fsid}
use filmstund.Graph.Model.{
  GraphShowing, GraphError, swish, type_name, update_payment_failed, fetch_attendee_failed,
  list_payments_failed, lookup_payment_failed,
}
use filmstund.Graph.Showings.{Handler}

-- `combineIDs` (internal/graph/payment.helpers.go).
unfoldable pub combine_ids : Uuid → Uuid → Text
combine_ids first second = encode (be_bytes 16 first ++ be_bytes 16 second)

-- `model.GiftCertificate`, whose status is unknown here. The zero time is 0.
pub record GraphCertificate : Type 0 where
  pub number : Text
  pub expire_time : ℕ

-- `model.Attendee`, without the user, which is another resolver's.
pub record GraphAttendee : Type 0 where
  pub id : Text
  pub user_id : Uuid
  pub showing_id : Uuid
  pub has_paid : Bool
  pub amount_owed : ℤ
  pub attendee_type : Text
  pub gift_certificate_used : Option GraphCertificate
  pub filmstaden_membership_id : Option Text

abbrev time_of : Option ℕ → ℕ
time_of none = 0
time_of (some t) = t

unfoldable pub certificate_used : Option Text → Option ℕ → Option GraphCertificate
certificate_used none expire_time = none
certificate_used (some n) expire_time =
    some (record { number = n; expire_time = time_of expire_time })

unfoldable pub attendee_model : AttendeeRow → GraphAttendee
unfolding certificate_used combine_ids
attendee_model a = record {
  id = combine_ids a.user_id a.showing_id;
  user_id = a.user_id;
  showing_id = a.showing_id;
  has_paid = a.has_paid;
  amount_owed = a.amount_owed;
  attendee_type = a.attendee_type;
  gift_certificate_used = certificate_used a.gift_certificate_number a.gift_certificate_expire_time;
  filmstaden_membership_id = a.filmstaden_membership_id;
}

-- `mutationResolver.UpdateAttendeePaymentInfo`; the input has the fields of the parameters.
unfoldable pub update_attendee_payment_info : UpdateAttendeePaymentParams → Handler GraphAttendee
unfolding attendee_model
update_attendee_payment_info info = do
  or_return (exec pool (update_attendee_payment info)) update_payment_failed
  row ← or_return (exec pool (attendee info.showing_id info.user_id)) fetch_attendee_failed
  pure (attendee_model row)

pub record AdminPaymentDetails : Type 0 where
  pub filmstaden_buy_link : Text
  pub showing_id : Uuid
  pub attendees : List GraphAttendee

abbrev movie_link : Result DbError (Text × Text) → Text
movie_link (ok (slug, filmstaden_id)) =
    bytes "https://www.filmstaden.se/film/" ++ filmstaden_id ++ bytes "/" ++ slug
movie_link (err _) = bytes ""

-- The link: to the showing where it is known, else to the movie, else empty.
unfoldable pub buy_link : Uuid → Option Text → Handler Text
buy_link movie (some id) = pure (bytes "https://www.filmstaden.se/bokning/kop/Sys99-SE/" ++ id)
buy_link movie none = do
  found ← attempt (exec pool (lookup_slug_and_fsid movie))
  pure (movie_link found)

abbrev pub details_with : Uuid → List AttendeeRow → Text → Handler AdminPaymentDetails
details_with id rows link =
    pure
      (record { filmstaden_buy_link = link; showing_id = id; attendees = map attendee_model rows })

-- `showingResolver.AdminPaymentDetails`
unfoldable pub admin_payment_details : Uuid → GraphShowing → Handler AdminPaymentDetails
unfolding attendee_model buy_link
admin_payment_details me s = do
  rows ← or_return (exec pool (list_attendees s.id me)) list_payments_failed
  buy_link s.movie_id s.filmstaden_showing_id >>= details_with s.id rows

-- `model.AttendeePaymentDetails`
pub record AttendeePaymentDetails : Type 0 where
  pub has_paid : Bool
  pub amount_owed : ℤ
  pub pay_to : Uuid
  pub payer : Uuid
  pub swish_link : Text

-- When `AttendeePaymentDetails` asks for a link.
abbrev pub wants_link : AttendeePaymentDetailsRow → Bool
wants_link a = ltb_ℤ (pos 0) a.amount_owed && (not a.has_paid && a.attendee_type == type_name swish)

abbrev pub link_of : Uri → Text
link_of (uri u) = u
link_of _ = bytes ""

abbrev pub link_to : Encoders → AttendeePaymentDetailsRow → Option Text → Text
link_to encoders a none = bytes ""
link_to encoders a (some phone) =
    if wants_link a
    then link_of (format_uri encoders phone (kronor a.amount_owed) a.movie_title)
    else bytes ""

unfoldable pub swish_link : Encoders → AttendeePaymentDetailsRow → Text
swish_link encoders a = link_to encoders a a.pay_to_phone

abbrev details_answer :
    Encoders
    → GraphShowing
    → Result DbError AttendeePaymentDetailsRow
    → Handler (Option AttendeePaymentDetails)
details_answer encoders s (err no_rows) = pure none
details_answer encoders s (err _) = raise lookup_payment_failed
details_answer encoders s (ok a) = pure (
    some (record {
      has_paid = a.has_paid;
      amount_owed = a.amount_owed;
      pay_to = s.pay_to_user;
      payer = a.user_id;
      swish_link = swish_link encoders a;
    }))

-- `showingResolver.AttendeePaymentDetails`
unfoldable pub payment_details_of :
    Encoders → Uuid → GraphShowing → Handler (Option AttendeePaymentDetails)
unfolding swish_link
payment_details_of encoders me s =
    attempt (exec pool (attendee_payment_details s.id me)) >>= details_answer encoders s
