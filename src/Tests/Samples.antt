-- ===== src/Tests/Samples.antt =====
-- A small cinema club: two showings, three users, one gift certificate.
use filmstund.Base.{Bool, true, false, Option, none, some, [], ◌∷◌}
use filmstund.Base.Int.{ℤ, pos}
use filmstund.Base.Text.{Text, bytes}
use filmstund.Database.{Uuid, User, GiftCertificate, Movie, Showing, Attendee, Db}
use filmstund.Graph.Model.{Env}

abbrev pub user : Uuid → Option Text → User
user id phone = record {
  id = id;
  subject_id = bytes "auth0|";
  filmstaden_membership_id = none;
  first_name = bytes "Anna";
  last_name = bytes "Berg";
  nick = none;
  email = bytes "a@b.se";
  phone = phone;
  avatar = none;
  calendar_feed_id = none;
  last_login_time = 0;
  signup_time = 0;
  update_time = 0;
}

abbrev pub certificate : GiftCertificate
certificate = record { user_id = 3; number = bytes "GC1"; expire_time = 20000; create_time = 0 }

abbrev pub dune : Movie
dune = record {
  id = 70;
  filmstaden_id = bytes "NCG70";
  imdb_id = none;
  tmdb_id = none;
  slug = bytes "dune";
  title = bytes "Dune";
  release_date = some 18900;
  production_year = pos 2021;
  runtime = pos 155;
  poster = none;
  genres = [];
  popularity = pos 0;
  popularity_update_time = 0;
  archived = false;
  update_time = 0;
  create_time = 0;
}

abbrev pub showing_of : Uuid → Text → Uuid → Bool → Showing
showing_of id web admin bought = record {
  id = id;
  web_id = web;
  slug = bytes "dune";
  date = 19000;
  time = 1080;
  movie_id = 70;
  location = bytes "Bergakungen";
  cinema_screen_id = none;
  filmstaden_showing_id = none;
  price = pos 0;
  tickets_bought = bought;
  admin = admin;
  pay_to_user = admin;
  private = false;
  update_time = 0;
  create_time = 0;
}

abbrev pub attendee_of : Uuid → Uuid → Bool → ℤ → Option Text → Attendee
attendee_of user showing paid owes gift = record {
  user_id = user;
  showing_id = showing;
  attendee_type = bytes "SWISH";
  has_paid = paid;
  amount_owed = owes;
  gift_certificate_used = gift;
  update_time = 0;
  create_time = 0;
}

abbrev pub open_showing : Showing
open_showing = showing_of 10 (bytes "aaaaaaaaaa") 1 false

abbrev pub bought_showing : Showing
bought_showing = showing_of 11 (bytes "bbbbbbbbbb") 2 true

-- User 1 is the admin of showing 10, which users 2 and 3 attend; 3 pays by a certificate.
abbrev pub club : Db
club = record {
  users = user 1 (some (bytes "123")) ∷ user 2 none ∷ user 3 none ∷ user 4 none ∷ [];
  gift_certificates = certificate ∷ [];
  movies = dune ∷ [];
  cinema_screens = [];
  showings = open_showing ∷ bought_showing ∷ [];
  attendees =
      attendee_of 1 10 true (pos 0) none
      ∷ attendee_of 2 10 false (pos 0) none
      ∷ attendee_of 3 10 false (pos 0) (some (bytes "GC1"))
      ∷ attendee_of 2 11 false (pos 9000) none
      ∷ [];
  tickets = [];
  commandments = [];
}

abbrev pub env : Env
env = record { me = 1; show = λ id. none; new_uuid = 99; make_slug = λ title. bytes "slug" }
