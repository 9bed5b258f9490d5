-- ===== src/Tests/Accounts.antt =====
-- The theorems on users and on the login callback at concrete inputs.
use filmstund.Base.{arith, ◌≡◌, refl, none, some, [], ◌∷◌, find, list_eq}
use filmstund.Base.Text.{bytes}
use filmstund.Database.{Db, User, ok}
use filmstund.Database.Execution.{reachable}
use filmstund.Dao.Accounts.{CreateUpdateUserParams, create_update_user, is_subject}
use filmstund.Dao.Accounts.Keys.{HasUsers}
use filmstund.Dao.Accounts.SignIn.{Remembers, IsOnly, create_update_user-identity}
use filmstund.Dao.Consistency.Rules.{Holds}
use filmstund.Graph.Users.{SiteConfig}
use filmstund.Graph.Users.Requests.{login, new_feed, no_feed, serve_users, serve_users-HasUsers}
use filmstund.Graph.Scalars.{KeepsCodes}
use filmstund.Tests.Samples.{user}

abbrev pub site : SiteConfig
site = record { trim_space = λ t. t; calendar_url = λ feed. bytes "https://" }

abbrev anna : CreateUpdateUserParams
anna = record {
  subject = bytes "auth0|";
  first_name = bytes "Anna";
  last_name = bytes "Berg";
  nick = none;
  email = bytes "anna@b.se";
  avatar = none;
}

abbrev bo : CreateUpdateUserParams
bo = record anna { subject = bytes "auth0|bo" }

-- One user.
abbrev small_club : Db
small_club = record {
  users = user 3 none ∷ [];
  gift_certificates = [];
  movies = [];
  cinema_screens = [];
  showings = [];
  attendees = [];
  tickets = [];
  commandments = [];
}

small_club-HasUsers : HasUsers small_club
small_club-HasUsers = record {
  user_pk = (refl, tt);
  user_ids_subjct_uniq = (refl, tt);
  user_ids_fsid_uniq = (refl, tt);
  user_calendarfeedid_unique = (refl, tt);
  giftcert_number_unique = tt;
  giftcert_user_fk = tt;
  consistent = record {
    showing_pk = tt;
    showing_webid_uniq = tt;
    showings_fit = tt;
    attendee_pk = tt;
    attendee_giftcert_unique = tt;
    attendees_fit = tt;
    ticket_pk = tt;
    tickets_fit = tt;
    cinema_screen_pk = tt;
  };
}

serve_users-HasUsers_example : Holds HasUsers (
    serve_users site
      (login bo 4 90 ∷ new_feed (bytes "auth0|bo") 91 ∷ no_feed (bytes "auth0|") ∷ [])
      (reachable small_club 5))
serve_users-HasUsers_example =
    serve_users-HasUsers site
      (login bo 4 90 ∷ new_feed (bytes "auth0|bo") 91 ∷ no_feed (bytes "auth0|") ∷ [])
      (reachable small_club 5) (small_club-HasUsers, tt)

abbrev signed_up : Db
signed_up = record small_club {
  users =
      user 3 none
      ∷ record (user 4 none) {
        subject_id = bytes "auth0|bo";
        email = bytes "anna@b.se";
        calendar_feed_id = some 90;
        last_login_time = 5;
        signup_time = 5;
        update_time = 5;
      }
      ∷ [];
}

bo_signs_up : create_update_user bo 4 90 5 small_club ≡ ok (4, signed_up)
unfolding create_update_user list_eq
bo_signs_up = refl

create_update_user-identity_example :
    ((v : User) × (find (is_subject (bytes "auth0|bo")) signed_up.users ≡ some v)
      × (v.id ≡ 4)
      × Remembers bo 5 small_club v)
    × IsOnly (bytes "auth0|bo") small_club signed_up
    × ((db : Db) × (create_update_user bo 77 78 9 signed_up ≡ ok (4, db)))
unfolding list_eq
create_update_user-identity_example =
    create_update_user-identity bo bo 4 90 77 78 5 9 small_club signed_up 4 refl (omega arith)
      bo_signs_up

same-KeepsCodes : KeepsCodes (λ t. t)
same-KeepsCodes = record { keeps = λ t h. refl }
