-- ===== src/Dao/Movies/Constraints.antt =====
-- Every statement on movies (internal/database/dao/movies.sql.go) keeps the constraints of the tables.
use filmstund.Base.{
  ℕ, select, ◌≡◌, refl, ◌∙◌, true, false, Bool, ◌&&◌, not, Option, none, some, List, [], ◌∷◌, ◌++◌,
  map, any, find, All, ◌==◌, ids, texts, any_unfound, if◌then◌else◌, Bool-cases, inl, inr, arith,
}
use filmstund.Base.Int.{ℤ, pos, ◌≤ℤ◌, leb_ℤ}
use filmstund.Base.Keys.{
  DistinctBy, DistinctBy-snoc, DistinctBy-map, any-snoc_true, any-map_kept, All-snoc,
  All-map_update, All-mono,
}
use filmstund.Database.{Uuid, Movie, Db, unique_violation, check_violation, string_too_long}
use filmstund.Dao.Showings.{has_movie}
use filmstund.Dao.Consistency.{IsConsistent, ShowingFits}
use filmstund.Dao.Consistency.Rules.{Keeps, Outcome, checked}
use filmstund.Dao.Movies.{
  disable_movie_popularity, UpdateMoviePopularityParams, update_movie_popularity, OutdatedMoviesRow,
  fits_imdb, rated, is_outdated, UpsertMovieParams, new_movie, refreshed, is_filmstaden, upsert_row,
  upsert_movie, scanned, outdated_rows, outdated_movies, all_movies,
}

abbrev pub same_movie : Movie → Movie → Bool
same_movie m n = m.id == n.id

abbrev pub same_filmstaden : Movie → Movie → Bool
same_filmstaden m n = m.filmstaden_id == n.filmstaden_id

abbrev pub MovieFits : Movie → Type 0
MovieFits m = (pos 1900 ≤ℤ m.production_year) × (pos 0 ≤ℤ m.runtime)

-- `movies_pk`, `fsId_uniq`, `productionyear_nonneg` and `runtime_nonneg`, and what other tables need of
-- the movies.
pub record HasMovies (db : Db) : Type 0 where
  pub movies_pk : DistinctBy same_movie db.movies
  pub fs_id_uniq : DistinctBy same_filmstaden db.movies
  pub movies_fit : All MovieFits db.movies
  pub consistent : IsConsistent db

-- No movie that a showing refers to goes away.
movies_kept-IsConsistent :
    (db : Db) (movies : List Movie)
    → ((id : Uuid) → has_movie id db ≡ true → has_movie id (record db { movies = movies }) ≡ true)
    → IsConsistent db
    → IsConsistent (record db { movies = movies })
movies_kept-IsConsistent db movies keep c = record {
  showing_pk = c.showing_pk;
  showing_webid_uniq = c.showing_webid_uniq;
  showings_fit =
      All-mono (ShowingFits db) (ShowingFits (record db { movies = movies })) db.showings
        (λ s f. ground (arith, keep s.movie_id)) c.showings_fit;
  attendee_pk = c.attendee_pk;
  attendee_giftcert_unique = c.attendee_giftcert_unique;
  attendees_fit = c.attendees_fit;
  ticket_pk = c.ticket_pk;
  tickets_fit = c.tickets_fit;
  cinema_screen_pk = c.cinema_screen_pk;
}

-- An update that leaves the keys and the checked columns of every movie as they are.
module _ (f : Movie → Movie) (same_id : (m : Movie) → (f m).id ≡ m.id)
    (same_fs : (m : Movie) → (f m).filmstaden_id ≡ m.filmstaden_id)
    (same_year : (m : Movie) → (f m).production_year ≡ m.production_year)
    (same_runtime : (m : Movie) → (f m).runtime ≡ m.runtime) where
  map-HasMovies : (db : Db) → HasMovies db → HasMovies (record db { movies = map f db.movies })
  map-HasMovies db h = record {
    movies_pk =
        DistinctBy-map same_movie f db.movies (λ m n. rw (same_id m, same_id n) refl) h.movies_pk;
    fs_id_uniq =
        DistinctBy-map same_filmstaden f db.movies (λ m n. rw (same_fs m, same_fs n) refl)
          h.fs_id_uniq;
    movies_fit =
        All-map_update MovieFits f db.movies (λ m k. rw (same_year m, same_runtime m) k)
          h.movies_fit;
    consistent =
        movies_kept-IsConsistent db (map f db.movies)
          (λ id k.
            any-map_kept (λ (m : Movie). m.id == id) f db.movies (λ m. rw (same_id m) refl) ∙ k)
          h.consistent;
  }

-- The same, where only some movies are updated.
module _ (p : Movie → Bool) (f : Movie → Movie) (same_id : (m : Movie) → (f m).id ≡ m.id)
    (same_fs : (m : Movie) → (f m).filmstaden_id ≡ m.filmstaden_id)
    (same_year : (m : Movie) → (f m).production_year ≡ m.production_year)
    (same_runtime : (m : Movie) → (f m).runtime ≡ m.runtime) where
  unchanged :
      {B : Type 0} (g : Movie → B) (m : Movie) → g (f m) ≡ g m → g (if p m then f m else m) ≡ g m
  unchanged g m e = elim (Bool-cases (p m)) [ inl mine ↦ rw mine e | inr other ↦ rw other refl ]

  some_updated-HasMovies :
      (db : Db)
      → HasMovies db
      → HasMovies (record db { movies = map (λ (m : Movie). if p m then f m else m) db.movies })
  some_updated-HasMovies db h =
      map-HasMovies (λ (m : Movie). if p m then f m else m)
        (λ m. unchanged (λ (n : Movie). n.id) m (same_id m))
        (λ m. unchanged (λ (n : Movie). n.filmstaden_id) m (same_fs m))
        (λ m. unchanged (λ (n : Movie). n.production_year) m (same_year m))
        (λ m. unchanged (λ (n : Movie). n.runtime) m (same_runtime m)) db h

pub disable_movie_popularity-Keeps : (id : Uuid) → Keeps HasMovies (disable_movie_popularity id)
unfolding disable_movie_popularity
disable_movie_popularity-Keeps id = record {
  at = λ now db h. some_updated-HasMovies _ _ (λ m. refl) (λ m. refl) (λ m. refl) (λ m. refl) db h;
}

pub update_movie_popularity-Keeps :
    (p : UpdateMoviePopularityParams) → Keeps HasMovies (update_movie_popularity p)
unfolding update_movie_popularity
update_movie_popularity-Keeps p = record {
  at = λ now db h.
      checked HasMovies
        (any (λ (m : Movie). m.id == p.movie_id) db.movies && not (fits_imdb p.imdb_id))
        string_too_long _
        λ fits.
          some_updated-HasMovies (λ (m : Movie). m.id == p.movie_id) (rated p now) (λ m. refl)
            (λ m. refl) (λ m. refl) (λ m. refl) db h;
}

scanned-HasMovies :
    (rows : Option (List OutdatedMoviesRow)) (now : ℕ) (db : Db)
    → HasMovies db
    → Outcome HasMovies (scanned rows now db)
scanned-HasMovies none now db h = tt
scanned-HasMovies (some rows) now db h = h

pub outdated_movies-Keeps :
    (shuffled : List Movie → List Movie) (year_of : ℕ → ℤ)
    → Keeps HasMovies (outdated_movies shuffled year_of)
unfolding outdated_movies
outdated_movies-Keeps shuffled year_of = record {
  at = λ now db h.
      scanned-HasMovies (outdated_rows year_of (shuffled (select (is_outdated now) db.movies))) now
        db h;
}

pub all_movies-Keeps : (archived : Bool) → Keeps HasMovies (all_movies archived)
unfolding all_movies
all_movies-Keeps archived = record { at = λ now db h. h }

upsert_row-HasMovies :
    (o : Option Movie) (p : UpsertMovieParams) (now : ℕ) (db : Db)
    → (o ≡ none → any (is_filmstaden p.filmstaden_id) db.movies ≡ false)
    → MovieFits (new_movie p now)
    → HasMovies db
    → Outcome HasMovies (upsert_row o p now db)
upsert_row-HasMovies (some m) p now db fresh fits h =
    some_updated-HasMovies (is_filmstaden p.filmstaden_id) (refreshed p now) (λ m. refl) (λ m. refl)
      (λ m. refl) (λ m. refl) db h
upsert_row-HasMovies none p now db fresh fits h =
    checked HasMovies (any (λ (m : Movie). m.id == p.id) db.movies) unique_violation _ λ free.
      record {
        movies_pk = DistinctBy-snoc same_movie db.movies (new_movie p now) h.movies_pk free;
        fs_id_uniq =
            DistinctBy-snoc same_filmstaden db.movies (new_movie p now) h.fs_id_uniq (fresh refl);
        movies_fit = All-snoc MovieFits db.movies (new_movie p now) h.movies_fit fits;
        consistent =
            movies_kept-IsConsistent db (db.movies ++ new_movie p now ∷ [])
              (λ id k. any-snoc_true (λ (m : Movie). m.id == id) db.movies (new_movie p now) k)
              h.consistent;
      }

pub upsert_movie-Keeps : (p : UpsertMovieParams) → Keeps HasMovies (upsert_movie p)
unfolding upsert_movie
upsert_movie-Keeps p = record {
  at = λ now db h.
      checked HasMovies (not (leb_ℤ (pos 1900) p.production_year && leb_ℤ (pos 0) p.runtime))
        check_violation _
        λ fits.
          upsert_row-HasMovies (find (is_filmstaden p.filmstaden_id) db.movies) p now db
            (any_unfound (is_filmstaden p.filmstaden_id) db.movies) (ground arith, ground arith) h;
}
