-- ===== src/Dao/Movies.antt =====
-- internal/database/dao/movies.sql.go, with the constraints on the table `movies`.
pub mod Constraints
use filmstund.Base.{
  ◌+◌, ℕ, Bool, true, false, ◌&&◌, not, Option, none, some, List, [], ◌∷◌, ◌++◌, map, find, any,
  select, order_by, ltb, leb, ◌==◌, ids, texts, if◌then◌else◌,
}
use filmstund.Base.Int.{ℤ, pos, negsuc, leb_ℤ}
use filmstund.Base.Text.{Text, char_length}
use filmstund.Database.{
  Uuid, Movie, check_violation, unique_violation, string_too_long, bad_scan, ok, err, Statement,
}
use filmstund.Dao.Showings.{one}

unfoldable pub lookup_filmstaden_id : Uuid → Statement Text
lookup_filmstaden_id id now db =
    one (find (λ (m : Movie). m.id == id) db.movies) (λ m. ok (m.filmstaden_id, db)) (λ e. err e)

unfoldable pub lookup_movie_title : Uuid → Statement Text
lookup_movie_title id now db =
    one (find (λ (m : Movie). m.id == id) db.movies) (λ m. ok (m.title, db)) (λ e. err e)

unfoldable pub lookup_slug_and_fsid : Uuid → Statement (Text × Text)
lookup_slug_and_fsid id now db =
    one (find (λ (m : Movie). m.id == id) db.movies) (λ m. ok ((m.slug, m.filmstaden_id), db))
      (λ e. err e)

abbrev pub date_before : Option ℕ → Option ℕ → Bool
date_before none o = false
date_before (some d) none = true
date_before (some d) (some e) = ltb d e

-- By release date, and nulls last.
abbrev pub released_before : Movie → Movie → Bool
released_before m n = date_before m.release_date n.release_date

abbrev pub same_flag : Bool → Bool → Bool
same_flag true b = b
same_flag false b = not b

unfoldable pub all_movies : Bool → Statement (List Movie)
all_movies archived now db =
    ok (
      order_by released_before (select (λ (m : Movie). same_flag m.archived archived) db.movies),
      db,
    )

unfoldable pub movie : Uuid → Statement Movie
movie id now db =
    one (find (λ (m : Movie). m.id == id && not m.archived) db.movies) (λ m. ok (m, db))
      (λ e. err e)

abbrev pub update_movie : Uuid → (Movie → Movie) → List Movie → List Movie
update_movie id f movies = map (λ (m : Movie). if m.id == id then f m else m) movies

unfoldable pub disable_movie_popularity : Uuid → Statement (Unit {0})
disable_movie_popularity id now db = ok (
  tt,
  record db {
    movies =
        update_movie id
          (λ m. record m {
            popularity = negsuc 999;
            popularity_update_time = now;
            update_time = now;
          })
          db.movies;
  },
)

pub record UpdateMoviePopularityParams : Type 0 where
  pub popularity : ℤ
  pub tmdb_id : Option ℤ
  pub imdb_id : Option Text
  pub movie_id : Uuid

abbrev pub rated : UpdateMoviePopularityParams → ℕ → Movie → Movie
rated p now m = record m {
  popularity = p.popularity;
  popularity_update_time = now;
  tmdb_id = p.tmdb_id;
  imdb_id = p.imdb_id;
  update_time = now;
}

-- `imdb_id` is a varchar(20).
abbrev pub fits_imdb : Option Text → Bool
fits_imdb none = true
fits_imdb (some t) = leb (char_length t) 20

unfoldable pub update_movie_popularity : UpdateMoviePopularityParams → Statement (Unit {0})
update_movie_popularity p now db =
    if any (λ (m : Movie). m.id == p.movie_id) db.movies && not (fits_imdb p.imdb_id)
    then err string_too_long
    else ok (tt, record db { movies = update_movie p.movie_id (rated p now) db.movies })

pub record UpsertMovieParams : Type 0 where
  pub id : Uuid
  pub filmstaden_id : Text
  pub slug : Text
  pub title : Text
  pub release_date : Option ℕ
  pub production_year : ℤ
  pub runtime : ℤ
  pub poster : Option Text
  pub genres : List Text

abbrev pub new_movie : UpsertMovieParams → ℕ → Movie
new_movie p now = record {
  id = p.id;
  filmstaden_id = p.filmstaden_id;
  imdb_id = none;
  tmdb_id = none;
  slug = p.slug;
  title = p.title;
  release_date = p.release_date;
  production_year = p.production_year;
  runtime = p.runtime;
  poster = p.poster;
  genres = p.genres;
  popularity = pos 0;
  popularity_update_time = 0;
  archived = false;
  update_time = now;
  create_time = now;
}

abbrev pub refreshed : UpsertMovieParams → ℕ → Movie → Movie
refreshed p now m = record m { update_time = now; poster = p.poster; release_date = p.release_date }

abbrev pub is_filmstaden : Text → Movie → Bool
is_filmstaden fs m = m.filmstaden_id == fs

abbrev pub upsert_row : Option Movie → UpsertMovieParams → Statement Movie
upsert_row (some m) p now db = ok (
  refreshed p now m,
  record db {
    movies =
        map (λ (m : Movie). if is_filmstaden p.filmstaden_id m then refreshed p now m else m)
          db.movies;
  },
)
upsert_row none p now db =
    if any (λ (m : Movie). m.id == p.id) db.movies
    then err unique_violation
    else ok (new_movie p now, record db { movies = db.movies ++ new_movie p now ∷ [] })

-- `productionyear_nonneg` and `runtime_nonneg` are checked of the new row also where a row with the
-- identifier of Filmstaden is there and is updated.
unfoldable pub upsert_movie : UpsertMovieParams → Statement Movie
upsert_movie p now db =
    if not (leb_ℤ (pos 1900) p.production_year && leb_ℤ (pos 0) p.runtime)
    then err check_violation
    else upsert_row (find (is_filmstaden p.filmstaden_id) db.movies) p now db

pub record OutdatedMoviesRow : Type 0 where
  pub id : Uuid
  pub tmdb_id : Option ℤ
  pub title : Text
  pub production_year : ℤ
  pub release_year : ℤ
  pub popularity : ℤ
  pub popularity_update_time : ℕ

-- The `WHERE` of `OutdatedMovies`; seven days have 604800 seconds.
unfoldable pub is_outdated : ℕ → Movie → Bool
is_outdated now m =
    not m.archived && (leb_ℤ (pos 0) m.popularity && ltb (m.popularity_update_time + 604800) now)

-- A movie without a release date has no year, which cannot be scanned.
abbrev pub outdated_row : (ℕ → ℤ) → Movie → Option ℕ → Option OutdatedMoviesRow
outdated_row year_of m none = none
outdated_row year_of m (some day) = some (record {
  id = m.id;
  tmdb_id = m.tmdb_id;
  title = m.title;
  production_year = m.production_year;
  release_year = year_of day;
  popularity = m.popularity;
  popularity_update_time = m.popularity_update_time;
})

abbrev pub with_row :
    Option OutdatedMoviesRow → Option (List OutdatedMoviesRow) → Option (List OutdatedMoviesRow)
with_row none rows = none
with_row (some r) none = none
with_row (some r) (some rows) = some (r ∷ rows)

unfoldable pub outdated_rows : (ℕ → ℤ) → List Movie → Option (List OutdatedMoviesRow)
outdated_rows year_of [] = some []
outdated_rows year_of (m ∷ ms) =
    with_row (outdated_row year_of m m.release_date) (outdated_rows year_of ms)

abbrev pub scanned : Option (List OutdatedMoviesRow) → Statement (List OutdatedMoviesRow)
scanned none now db = err bad_scan
scanned (some rows) now db = ok (rows, db)

-- `shuffled` is the order that the server chooses, `year_of` the year of a day.
unfoldable pub outdated_movies :
    (List Movie → List Movie) → (ℕ → ℤ) → Statement (List OutdatedMoviesRow)
unfolding is_outdated outdated_rows
outdated_movies shuffled year_of now db =
    scanned (outdated_rows year_of (shuffled (select (is_outdated now) db.movies))) now db
