-- ===== src/Graph/Model.antt =====
-- What the resolvers return and take (internal/graph/model/models_gen.go), the errors that they
-- return, and what a request brings with it.
use filmstund.Base.{ℕ, Bool, Option, List, map, texts}
use filmstund.Base.Int.{ℤ}
use filmstund.Base.Text.{Text, bytes}
use filmstund.Database.{Uuid, Showing}

pub data PaymentType : Type 0 where
  swish gift_certificate : PaymentType

-- `PaymentType.String`
unfoldable pub type_name : PaymentType → Text
type_name swish = bytes "SWISH"
type_name gift_certificate = bytes "GIFT_CERTIFICATE"

-- `PaymentOption`, an input.
pub record PaymentOption : Type 0 where
  pub kind : PaymentType
  pub ticket_number : Option Text

-- `model.Showing`. What the source leaves to separate resolvers holds an id only, or nothing.
pub record GraphShowing : Type 0 where
  pub id : Uuid
  pub web_id : Text
  pub filmstaden_showing_id : Option Text
  pub slug : Text
  pub date : ℕ
  pub time : ℕ
  pub movie_id : Uuid
  pub location : Text
  pub cinema_screen : Option Text
  pub price : ℤ
  pub tickets_bought : Bool
  pub admin : Uuid
  pub private : Bool
  pub pay_to_user : Uuid
  pub update_time : ℕ
  pub create_time : ℕ

-- `Showing.GraphModel` (internal/database/dao/mapper_showings.go).
unfoldable pub showing_model : Showing → GraphShowing
showing_model s = record {
  id = s.id;
  web_id = s.web_id;
  filmstaden_showing_id = s.filmstaden_showing_id;
  slug = s.slug;
  date = s.date;
  time = s.time;
  movie_id = s.movie_id;
  location = s.location;
  cinema_screen = s.cinema_screen_id;
  price = s.price;
  tickets_bought = s.tickets_bought;
  admin = s.admin;
  private = s.private;
  pay_to_user = s.pay_to_user;
  update_time = s.update_time;
  create_time = s.create_time;
}

-- `Showings.GraphModel`
unfoldable pub showing_models : List Showing → List GraphShowing
unfolding showing_model
showing_models = map showing_model

pub record CreateShowingInput : Type 0 where
  pub date : ℕ
  pub time : ℕ
  pub movie_id : Uuid
  pub location : Text
  pub filmstaden_remote_entity_id : Option Text

pub record UpdateShowingInput : Type 0 where
  pub price : ℤ
  pub pay_to_user : Uuid
  pub location : Text
  pub filmstaden_remote_entity_id : Option Text
  pub date : ℕ
  pub time : ℕ

-- The messages of the errors that the resolvers return; `panicked` stands for a panic.
pub data GraphError : Type 0 where
  internal_server_error already_bought_on_attend add_attendee_failed : GraphError
  delete_attendee_failed not_an_attendee : GraphError
  lookup_movie_failed insert_screen_failed add_showing_failed add_you_failed : GraphError
  insert_showing_failed : GraphError
  delete_showing_failed showing_already_removed : GraphError
  tickets_already_bought mark_as_bought_failed : GraphError
  update_showing_failed promote_failed : GraphError
  find_showing_failed no_showing_id fetch_public_showings_failed : GraphError
  fetch_attendees_failed : GraphError
  must_be_showing_admin : GraphError
  fetch_show_failed update_to_match_failed invalid_ticket_url commit_changes_failed : GraphError
  fetch_seatings_failed fetch_my_tickets_failed : GraphError
  panicked : GraphError
  update_payment_failed fetch_attendee_failed list_payments_failed : GraphError
  lookup_payment_failed : GraphError
  user_does_not_exist fetch_user_failed insert_certificate_failed : GraphError
  delete_certificates_failed get_certificates_failed : GraphError
  update_user_failed invalidate_feed_failed disable_feed_failed : GraphError
  fetch_current_failed no_movies_found setup_db_failed insert_movies_failed : GraphError
  fetch_movies_failed fetch_movie_failed : GraphError

-- What the resolvers read of Filmstaden's `SingleShow`. The price is a float in the source; here it
-- is a number of hundredths of a krona. The time is in minutes since the epoch.
pub record SingleShow : Type 0 where
  pub time : ℕ
  pub movie_version_price : ℤ
  pub cinema_title : Text
  pub screen_ncg_id : Text
  pub screen_title : Text

-- What a request brings: the principal, Filmstaden's answers, the UUID that `uuid.New` makes and
-- the third-party slug of a title.
pub record Env : Type 0 where
  pub me : Uuid
  pub show : Text → Option SingleShow
  pub new_uuid : Uuid
  pub make_slug : Text → Text
