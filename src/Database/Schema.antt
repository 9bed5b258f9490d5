-- ===== src/Database/Schema.antt =====
-- The rows of internal/database/dao/models.go, one record for each struct, and the tables that the
-- migrations create. A UUID is a number, which is only compared. A nullable column is an Option.
-- A date is a day number, a time of day a number of minutes, a timestamp a number of seconds.
use filmstund.Base.{ℕ, Bool, Option, List}
use filmstund.Base.Int.{ℤ}
use filmstund.Base.Text.{Text}

abbrev pub Uuid : Type 0
Uuid = ℕ

pub record User : Type 0 where
  pub id : Uuid
  pub subject_id : Text
  pub filmstaden_membership_id : Option Text
  pub first_name : Text
  pub last_name : Text
  pub nick : Option Text
  pub email : Text
  pub phone : Option Text
  pub avatar : Option Text
  pub calendar_feed_id : Option Uuid
  pub last_login_time : ℕ
  pub signup_time : ℕ
  pub update_time : ℕ

pub record GiftCertificate : Type 0 where
  pub user_id : Uuid
  pub number : Text
  pub expire_time : ℕ
  pub create_time : ℕ

-- `popularity` is a float in the source, which is only compared with 0 and stored: here a number of
-- thousandths.
pub record Movie : Type 0 where
  pub id : Uuid
  pub filmstaden_id : Text
  pub imdb_id : Option Text
  pub tmdb_id : Option ℤ
  pub slug : Text
  pub title : Text
  pub release_date : Option ℕ
  pub production_year : ℤ
  pub runtime : ℤ
  pub poster : Option Text
  pub genres : List Text
  pub popularity : ℤ
  pub popularity_update_time : ℕ
  pub archived : Bool
  pub update_time : ℕ
  pub create_time : ℕ

pub record CinemaScreen : Type 0 where
  pub id : Text
  pub name : Option Text
  pub create_time : ℕ

pub record Showing : Type 0 where
  pub id : Uuid
  pub web_id : Text
  pub slug : Text
  pub date : ℕ
  pub time : ℕ
  pub movie_id : Uuid
  pub location : Text
  pub cinema_screen_id : Option Text
  pub filmstaden_showing_id : Option Text
  pub price : ℤ
  pub tickets_bought : Bool
  pub admin : Uuid
  pub pay_to_user : Uuid
  pub private : Bool
  pub update_time : ℕ
  pub create_time : ℕ

pub record Attendee : Type 0 where
  pub user_id : Uuid
  pub showing_id : Uuid
  pub attendee_type : Text
  pub has_paid : Bool
  pub amount_owed : ℤ
  pub gift_certificate_used : Option Text
  pub update_time : ℕ
  pub create_time : ℕ

pub record Ticket : Type 0 where
  pub id : Text
  pub showing_id : Uuid
  pub assigned_to_user : Uuid
  pub profile_id : Option Text
  pub barcode : Text
  pub customer_type : Text
  pub customer_type_definition : Text
  pub cinema : Text
  pub cinema_city : Option Text
  pub screen : Text
  pub seat_row : ℤ
  pub seat_number : ℤ
  pub date : ℕ
  pub time : ℕ
  pub movie_name : Text
  pub movie_rating : Text
  pub attributes : List Text
  pub update_time : ℕ
  pub create_time : ℕ

pub record Commandment : Type 0 where
  pub number : ℤ
  pub phrase : Text
  pub create_time : ℕ

-- The tables, each in the order in which its rows were inserted.
pub record Db : Type 0 where
  pub users : List User
  pub gift_certificates : List GiftCertificate
  pub movies : List Movie
  pub cinema_screens : List CinemaScreen
  pub showings : List Showing
  pub attendees : List Attendee
  pub tickets : List Ticket
  pub commandments : List Commandment
