-- ===== src/Graph/Histories.antt =====
-- Requests of every kind, in any order: to internal/graph/showing.resolvers.go and users.resolvers.go,
-- logins, imports of movies and runs of the popularity command.
mod Frames
use filmstund.Base.{[], sym, subst, List, ◌∷◌, All}
use filmstund.Base.Keys.{DistinctBy, All-mono}
use filmstund.Database.{Db, DbError, World, Statement, Result, ok, err}
use filmstund.Dao.Consistency.{IsConsistent}
use filmstund.Dao.Consistency.Rules.{Keeps, Outcome, Holds}
use filmstund.Dao.Accounts.Updates.{same_subject}
use filmstund.Dao.Accounts.Keys.{
  HasUsers, same_user, same_feed, same_membership, same_number, OwnerIn,
}
use filmstund.Dao.Movies.Constraints.{HasMovies, same_movie, same_filmstaden, MovieFits}
use filmstund.Dao.Movies.{all_movies}
use filmstund.Graph.Model.{Env}
use filmstund.Graph.Users.{SiteConfig}
use filmstund.Graph.Users.Requests as UserRequests
use filmstund.Graph.Users.Requests.{Request, serve_user}
use filmstund.Graph.Movies.Requests as MovieRequests
use filmstund.Graph.Movies.Requests.{Change, change_movies}
use filmstund.Graph.Showings.Preserving
use filmstund.Graph.Showings.Preserving.{attend_showing-Preserves}
use filmstund.Graph.Showings.Consistency
use filmstund.Graph.Showings.Consistency.{Mutation, serve, serve-Holds}
use filmstund.Graph.Histories.Frames
use filmstund.Graph.Histories.Frames.{SameUsers, SameMovies, Accounts, Leaves, After}

-- The constraints of all tables.
abbrev pub IsSound : Db → Type 0
IsSound db = HasUsers db × HasMovies db

users_carried : (db db' : Db) → SameUsers db db' → HasUsers db → IsConsistent db' → HasUsers db'
users_carried db db' same h c = record {
  user_pk = subst (DistinctBy same_user) (sym same.0) h.user_pk;
  user_ids_subjct_uniq = subst (DistinctBy same_subject) (sym same.0) h.user_ids_subjct_uniq;
  user_ids_fsid_uniq = subst (DistinctBy same_membership) (sym same.0) h.user_ids_fsid_uniq;
  user_calendarfeedid_unique =
      subst (DistinctBy same_feed) (sym same.0) h.user_calendarfeedid_unique;
  giftcert_number_unique = subst (DistinctBy same_number) (sym same.1) h.giftcert_number_unique;
  giftcert_user_fk = rw (same.1) (
      All-mono (OwnerIn db) (OwnerIn db') db.gift_certificates (λ g k. rw (same.0) k)
        h.giftcert_user_fk);
  consistent = c;
}

movies_carried : (db db' : Db) → SameMovies db db' → HasMovies db → IsConsistent db' → HasMovies db'
movies_carried db db' same h c = record {
  movies_pk = subst (DistinctBy same_movie) (sym same) h.movies_pk;
  fs_id_uniq = subst (DistinctBy same_filmstaden) (sym same) h.fs_id_uniq;
  movies_fit = subst (All MovieFits) (sym same) h.movies_fit;
  consistent = c;
}

-- What one part of the constraints and what is left alone give together.
after_both :
    {A : Type 0} (P Q R : Db → Type 0) (r : Result DbError (A × Db))
    → ((db : Db) → P db → Q db → R db)
    → Outcome P r
    → After Q r
    → Outcome R r
after_both P Q R (ok (a, db)) both p q = both db p q.holds_after
after_both P Q R (err e) both p q = tt

module _ {A : Type 0} {s : Statement A} where
  on_showings : Leaves Accounts s → Keeps IsConsistent s → Keeps IsSound s
  on_showings left k = record {
    at = λ now db h.
        after_both IsConsistent (Accounts db) IsSound (s now db)
          (λ db' c same. (users_carried db db' same.0 h.0 c, movies_carried db db' same.1 h.1 c))
          (k.at now db h.0.consistent) (left.at now db);
  }

  on_users : Leaves SameMovies s → Keeps HasUsers s → Keeps IsSound s
  on_users left k = record {
    at = λ now db h.
        after_both HasUsers (SameMovies db) IsSound (s now db)
          (λ db' u same. (u, movies_carried db db' same h.1 u.consistent)) (k.at now db h.0)
          (left.at now db);
  }

  on_movies : Leaves SameUsers s → Keeps HasMovies s → Keeps IsSound s
  on_movies left k = record {
    at = λ now db h.
        after_both HasMovies (SameUsers db) IsSound (s now db)
          (λ db' m same. (users_carried db db' same h.0 m.consistent, m)) (k.at now db h.1)
          (left.at now db);
  }

showing_statements : Preserving.KeptByStatements IsSound (λ id. Unit {0})
showing_statements =
    let k = Consistency.statements in
    record {
      adding = λ p any_id. on_showings (Frames.add_showing-Leaves p) (k.adding p tt);
      deleting = λ id. on_showings (Frames.delete_showing-Leaves id) (k.deleting id);
      buying = λ p. on_showings (Frames.mark-Leaves p) (k.buying p);
      promoting = λ p. on_showings (Frames.promote-Leaves p) (k.promoting p);
      updating = λ p. on_showings (Frames.update_showing-Leaves p) (k.updating p);
      joining = λ p any_id. on_showings (Frames.add_attendee-Leaves p) (k.joining p tt);
      leaving = λ me id. on_showings (Frames.delete_attendee-Leaves me id) (k.leaving me id);
      settling = λ me id. on_showings (Frames.gc-Leaves me id) (k.settling me id);
      charging =
          λ price me id. on_showings (Frames.swish-Leaves price me id) (k.charging price me id);
      screening = λ id name. on_showings (Frames.screen-Leaves id name) (k.screening id name);
    }

user_statements : UserRequests.KeptByStatements IsSound
user_statements =
    let k = UserRequests.statements in
    record {
      logging = λ p id feed. on_users (Frames.login-Leaves p id feed) (k.logging p id feed);
      updating = λ p. on_users (Frames.update_user-Leaves p) (k.updating p);
      randomizing = λ subject feed.
          on_users (Frames.randomize-Leaves subject feed) (k.randomizing subject feed);
      stopping = λ subject. on_users (Frames.disable_feed-Leaves subject) (k.stopping subject);
      adding = λ p. on_users (Frames.add_certificate-Leaves p) (k.adding p);
      dropping = λ p. on_users (Frames.delete_certificate-Leaves p) (k.dropping p);
    }

movie_statements : MovieRequests.KeptByStatements IsSound
unfolding all_movies
movie_statements =
    let k = MovieRequests.statements in
    record {
      importing = λ p. on_movies (Frames.upsert-Leaves p) (k.importing p);
      listing = λ archived. record { at = λ now db h. h };
      selecting = λ shuffled year_of.
          on_movies (Frames.outdated-Leaves shuffled year_of) (k.selecting shuffled year_of);
      rating = λ p. on_movies (Frames.rate-Leaves p) (k.rating p);
      disabling = λ id. on_movies (Frames.disable-Leaves id) (k.disabling id);
    }

-- One request or one run of the command.
pub data Event : Type 0 where
  of_showings : Env → Mutation → Event
  of_users : SiteConfig → Request → Event
  of_movies : Change → Event

-- The world after it, whatever it returns.
unfoldable pub happen : Event → World → World
unfolding serve serve_user change_movies
happen (of_showings env m) w = serve env m w
happen (of_users cfg r) w = serve_user cfg r w
happen (of_movies c) w = change_movies c w

unfoldable pub happen_all : List Event → World → World
happen_all [] w = w
happen_all (e ∷ rest) w = happen_all rest (happen e w)

happen-IsSound : (e : Event) (w : World) → Holds IsSound w → Holds IsSound (happen e w)
unfolding happen
happen-IsSound (of_showings env m) w h =
    serve-Holds showing_statements env tt m w
      (λ me id option. attend_showing-Preserves showing_statements me id option tt) h
happen-IsSound (of_users cfg r) w h = UserRequests.serve_user-Holds user_statements cfg r w h
happen-IsSound (of_movies c) w h = MovieRequests.change_movies-Holds movie_statements c w h

-- If the tables, and an open transaction if there is one, satisfy the constraints of the
-- migrations on users, gift certificates, movies, showings, attendees, tickets and cinema
-- screens, except the lengths of varchar columns, then they do after every history of requests
-- about showings, of logins and of requests of users about themselves, of imports of movies and
-- of runs of the popularity command, in any order, whatever each of them returns and whichever
-- calls to the database fail.
pub happen_all-IsSound :
    (history : List Event) (w : World) → Holds IsSound w → Holds IsSound (happen_all history w)
unfolding happen_all
happen_all-IsSound [] w h = h
happen_all-IsSound (e ∷ rest) w h = happen_all-IsSound rest (happen e w) (happen-IsSound e w h)
