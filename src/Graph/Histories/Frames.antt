-- ===== src/Graph/Histories/Frames.antt =====
-- The statements of internal/database/dao that leave users or movies as they are.
use filmstund.Base.{ℕ, ◌≡◌, Bool, true, false, Option, none, some, List, texts, if◌then◌else◌}
use filmstund.Base.Int.{ℤ}
use filmstund.Base.Text.{Text}
use filmstund.Database.{Uuid, Db, DbError, Statement, Result, ok, err, User, Movie}
use filmstund.Dao.Showings.{
  one, AddShowingParams, add_showing, delete_showing, MarkShowingAsBoughtParams,
  mark_showing_as_bought, PromoteNewUserToShowingAdminParams, promote_new_user_to_showing_admin,
  UpdateShowingParams, update_showing,
}
use filmstund.Dao.Attendees.{
  AddAttendeeParams, add_attendee, delete_attendee, mark_gc_attendees_as_having_paid,
  update_amount_owed_for_swish_attendees,
}
use filmstund.Dao.CinemaScreens.{add_cinema_screen}
use filmstund.Dao.Users.{
  AddGiftCertificateParams, add_gift_certificate, DeleteGiftCertificateParams,
  delete_gift_certificate,
}
use filmstund.Dao.Accounts.{
  CreateUpdateUserParams, login_row, create_update_user, updated_row, UpdateUserParams, update_user,
  randomize_calendar_feed, disable_calendar_feed,
}
use filmstund.Dao.Movies.{
  UpsertMovieParams, upsert_row, upsert_movie, UpdateMoviePopularityParams, update_movie_popularity,
  disable_movie_popularity, scanned, OutdatedMoviesRow, outdated_movies,
}
use filmstund.Dao.Consistency.Rules.{Outcome}

-- The users and their certificates.
abbrev pub SameUsers : Db → Db → Type 0
SameUsers db db' = (db'.users ≡ db.users) × (db'.gift_certificates ≡ db.gift_certificates)

abbrev pub SameMovies : Db → Db → Type 0
SameMovies db db' = db'.movies ≡ db.movies

-- What holds of the tables after a statement.
pub record After {A : Type 0} (P : Db → Type 0) (r : Result DbError (A × Db)) : Type 0 where
  pub holds_after : Outcome P r

module _ {A : Type 0} (P : Db → Type 0) where
  refused : (e : DbError) → After {A = A} P (err e)
  refused e = record { holds_after = tt }

  done : (a : A) (db : Db) → P db → After P (ok (a, db))
  done a db h = record { holds_after = h }

  either :
      (b : Bool) (x y : Result DbError (A × Db))
      → After P x
      → After P y
      → After P (if b then x else y)
  either true x y h k = h
  either false x y h k = k

one_of :
    {A B : Type 0} (P : Db → Type 0) (o : Option B) (f : B → A) (db : Db)
    → P db
    → After P (one o (λ b. ok (f b, db)) (λ e. err e))
one_of P none f db h = refused P _
one_of P (some b) f db h = done P (f b) db h

ruleset frames = (refused, done, either)

-- A statement leaves what `Same` compares.
pub record Leaves {A : Type 0} (Same : Db → Db → Type 0) (s : Statement A) : Type 0 where
  pub at : (now : ℕ) (db : Db) → After (Same db) (s now db)

abbrev pub Accounts : Db → Db → Type 0
Accounts db db' = SameUsers db db' × SameMovies db db'

pub add_showing-Leaves : (p : AddShowingParams) → Leaves Accounts (add_showing p)
unfolding add_showing
add_showing-Leaves p = record { at = λ now db. search frames depth 8 }

pub delete_showing-Leaves : (id : Uuid) → Leaves Accounts (delete_showing id)
unfolding delete_showing
delete_showing-Leaves id = record { at = λ now db. search frames depth 8 }

pub mark-Leaves : (p : MarkShowingAsBoughtParams) → Leaves Accounts (mark_showing_as_bought p)
unfolding mark_showing_as_bought
mark-Leaves p = record { at = λ now db. search frames depth 8 }

pub promote-Leaves :
    (p : PromoteNewUserToShowingAdminParams) → Leaves Accounts (promote_new_user_to_showing_admin p)
unfolding promote_new_user_to_showing_admin
promote-Leaves p = record { at = λ now db. search frames depth 8 }

pub update_showing-Leaves : (p : UpdateShowingParams) → Leaves Accounts (update_showing p)
unfolding update_showing
update_showing-Leaves p = record { at = λ now db. search frames depth 8 }

pub add_attendee-Leaves : (p : AddAttendeeParams) → Leaves Accounts (add_attendee p)
unfolding add_attendee
add_attendee-Leaves p = record { at = λ now db. search frames depth 8 }

pub delete_attendee-Leaves : (me id : Uuid) → Leaves Accounts (delete_attendee me id)
unfolding delete_attendee
delete_attendee-Leaves me id = record { at = λ now db. search frames depth 8 }

pub gc-Leaves : (me id : Uuid) → Leaves Accounts (mark_gc_attendees_as_having_paid me id)
unfolding mark_gc_attendees_as_having_paid
gc-Leaves me id = record { at = λ now db. search frames depth 8 }

pub swish-Leaves :
    (price : ℤ) (me id : Uuid)
    → Leaves Accounts (update_amount_owed_for_swish_attendees price me id)
unfolding update_amount_owed_for_swish_attendees
swish-Leaves price me id = record { at = λ now db. search frames depth 8 }

pub screen-Leaves : (id : Text) (name : Option Text) → Leaves Accounts (add_cinema_screen id name)
unfolding add_cinema_screen
screen-Leaves id name = record { at = λ now db. search frames depth 8 }

-- Users and their certificates, beside movies.
updated_row-SameMovies :
    (subject : Text) (f : User → User) (now : ℕ) (db : Db)
    → After (SameMovies db) (updated_row subject f now db)
updated_row-SameMovies subject f now db = search (frames, one_of)

login_row-SameMovies :
    (o : Option User) (p : CreateUpdateUserParams) (id feed : Uuid) (now : ℕ) (db : Db)
    → After (SameMovies db) (login_row o p id feed now db)
login_row-SameMovies none p id feed now db = search frames depth 8
login_row-SameMovies (some u) p id feed now db = search frames

pub login-Leaves :
    (p : CreateUpdateUserParams) (id feed : Uuid) → Leaves SameMovies (create_update_user p id feed)
unfolding create_update_user
login-Leaves p id feed = record { at = λ now db. login_row-SameMovies _ p id feed now db }

pub update_user-Leaves : (p : UpdateUserParams) → Leaves SameMovies (update_user p)
unfolding update_user
update_user-Leaves p = record { at = λ now db. search (frames, updated_row-SameMovies) depth 8 }

pub randomize-Leaves :
    (subject : Text) (feed : Uuid) → Leaves SameMovies (randomize_calendar_feed subject feed)
unfolding randomize_calendar_feed
randomize-Leaves subject feed = record {
  at = λ now db. search (frames, updated_row-SameMovies) depth 8;
}

pub disable_feed-Leaves : (subject : Text) → Leaves SameMovies (disable_calendar_feed subject)
unfolding disable_calendar_feed
disable_feed-Leaves subject = record {
  at = λ now db. search (frames, updated_row-SameMovies) depth 8;
}

pub add_certificate-Leaves :
    (p : AddGiftCertificateParams) → Leaves SameMovies (add_gift_certificate p)
unfolding add_gift_certificate
add_certificate-Leaves p = record { at = λ now db. search frames depth 8 }

pub delete_certificate-Leaves :
    (p : DeleteGiftCertificateParams) → Leaves SameMovies (delete_gift_certificate p)
unfolding delete_gift_certificate
delete_certificate-Leaves p = record { at = λ now db. search frames depth 8 }

-- Movies, beside users.
upsert_row-SameUsers :
    (o : Option Movie) (p : UpsertMovieParams) (now : ℕ) (db : Db)
    → After (SameUsers db) (upsert_row o p now db)
upsert_row-SameUsers (some m) p now db = search frames
upsert_row-SameUsers none p now db = search frames depth 8

pub upsert-Leaves : (p : UpsertMovieParams) → Leaves SameUsers (upsert_movie p)
unfolding upsert_movie
upsert-Leaves p = record { at = λ now db. search (frames, upsert_row-SameUsers) depth 8 }

pub rate-Leaves : (p : UpdateMoviePopularityParams) → Leaves SameUsers (update_movie_popularity p)
unfolding update_movie_popularity
rate-Leaves p = record { at = λ now db. search frames depth 8 }

pub disable-Leaves : (id : Uuid) → Leaves SameUsers (disable_movie_popularity id)
unfolding disable_movie_popularity
disable-Leaves id = record { at = λ now db. search frames depth 8 }

scanned-SameUsers :
    (rows : Option (List OutdatedMoviesRow)) (now : ℕ) (db : Db)
    → After (SameUsers db) (scanned rows now db)
scanned-SameUsers none now db = search frames
scanned-SameUsers (some rows) now db = search frames

pub outdated-Leaves :
    (shuffled : List Movie → List Movie) (year_of : ℕ → ℤ)
    → Leaves SameUsers (outdated_movies shuffled year_of)
unfolding outdated_movies
outdated-Leaves shuffled year_of = record { at = λ now db. scanned-SameUsers _ now db }
