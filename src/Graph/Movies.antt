-- ===== src/Graph/Movies.antt =====
-- internal/graph/movies.resolvers.go: the movies of Filmstaden.
pub mod Import
pub mod Fetching
pub mod Requests
use filmstund.Base.{ℕ, Bool, true, false, Option, none, some, List, [], ◌∷◌, nat_eq}
use filmstund.Base.Int.{ℤ, to_int32}
use filmstund.Base.Text.{Text}
use filmstund.Database.{
  Uuid, Movie, DbError, no_rows, Result, ok, err, in_tx, pool, exec, begin, commit, attempt,
  or_return, pure, raise, raise_if, ◌>>=◌, ◌>>◌,
}
use filmstund.Dao.Movies.{UpsertMovieParams, upsert_movie, all_movies, movie}
use filmstund.Graph.Model.{
  GraphError, fetch_current_failed, no_movies_found, setup_db_failed, insert_movies_failed,
  fetch_movies_failed, fetch_movie_failed, panicked,
}
use filmstund.Filmstaden.Movies.{FilmstadenMovie}
use filmstund.Graph.Showings.{Handler}

-- `time.Parse`, which gives the day or that of the zero time; and `strings.TrimSpace`.
pub record Formats : Type 0 where
  pub parse_day : Text → ℕ
  pub trim_space : Text → Text

abbrev pub release_of : Formats → Option Text → Text → ℕ
release_of formats (some again) first = formats.parse_day again
release_of formats none first = formats.parse_day first

-- A movie with the UUID that is made for it.
abbrev pub upsert_params : Formats → Uuid → FilmstadenMovie → UpsertMovieParams
upsert_params formats id m = record {
  id = id;
  filmstaden_id = m.ncg_id;
  slug = m.slug;
  title = formats.trim_space m.original_title;
  release_date = some (release_of formats m.re_release_date m.release_date);
  production_year = to_int32 m.production_year;
  runtime = to_int32 m.length;
  poster = some m.poster_url;
  genres = m.genres;
}

-- The loop of the import; an error is logged, and the loop goes on.
unfoldable pub import_each : Formats → List (Uuid × FilmstadenMovie) → Handler (Unit {0})
import_each formats [] = pure tt
import_each formats ((id, m) ∷ rest) =
    attempt (exec in_tx (upsert_movie (upsert_params formats id m))) >>= λ _.
    import_each formats rest

unfoldable pub current_movies : Handler (List Movie)
current_movies = or_return (exec pool (all_movies false)) fetch_movies_failed

unfoldable pub archived_movies : Handler (List Movie)
archived_movies = or_return (exec pool (all_movies true)) fetch_movies_failed

-- What `CurrentMovies` of the client returns: an error, `nil`, or a count and the movies.
pub data Fetched : Type 0 where
  not_fetched nothing : Fetched
  movies : ℕ → List (Uuid × FilmstadenMovie) → Fetched

-- `mutationResolver.FetchNewMoviesFromFilmstaden`; the rollback that `TX` returns is not used.
unfoldable pub fetch_new_movies : Formats → Fetched → Handler (List Movie)
unfolding import_each current_movies
fetch_new_movies formats not_fetched = raise fetch_current_failed
fetch_new_movies formats nothing = raise panicked
fetch_new_movies formats (movies count items) = do
  raise_if (nat_eq count 0) no_movies_found
  or_return begin setup_db_failed
  import_each formats items
  or_return commit insert_movies_failed
  current_movies

abbrev pub movie_answer : Result DbError Movie → Handler (Option Movie)
movie_answer (ok m) = pure (some m)
movie_answer (err no_rows) = pure none
movie_answer (err _) = raise fetch_movie_failed

-- `queryResolver.Movie`
unfoldable pub movie_by_id : Uuid → Handler (Option Movie)
movie_by_id id = attempt (exec pool (movie id)) >>= movie_answer
