-- ===== src/Popularity.antt =====
-- cmd/popularity/updater.go: what TMDB knows of the movies. Its answers are parameters.
pub mod Freshness
use filmstund.Base.{
  ℕ, zero, Bool, true, false, ◌&&◌, Option, none, some, List, [], ◌∷◌, nat_eq, ◌==◌, texts,
  if◌then◌else◌,
}
use filmstund.Base.Int.{ℤ, pos, ltb_ℤ}
use filmstund.Base.Text.{Text}
use filmstund.Database.{
  Uuid, Movie, World, Result, ok, err, Action, pool, exec, attempt, or_return, pure, raise, ◌>>=◌,
  ◌>>◌,
}
use filmstund.Dao.Movies.{
  OutdatedMoviesRow, UpdateMoviePopularityParams, update_movie_popularity, disable_movie_popularity,
  outdated_movies,
}

pub record Hit : Type 0 where
  pub id : ℤ
  pub original_title : Text
  pub popularity : ℤ

pub record SearchResult : Type 0 where
  pub total_results : ℕ
  pub results : List Hit

-- The client of TMDB. A search and the details may fail; the external identifiers are the pointer that
-- comes back, also beside an error, which is only logged.
pub record Tmdb : Type 0 where
  pub search_movie : Text → ℤ → Option SearchResult
  pub movie_details : ℤ → Option (Text × ℤ)
  pub movie_external_ids : ℤ → Option (Option Text)

pub data UpdateError : Type 0 where
  fetch_outdated_failed details_failed search_failed disable_failed update_panic : UpdateError

abbrev pub Update : Type 0 → Type 0
Update A = Action UpdateError A

-- What a search finds: the identifier and the popularity of a movie, or neither.
abbrev pub Match : Type 0
Match = Option (ℤ × ℤ)

-- The first hit of this title that is popular at all.
abbrev pub first_match : Text → List Hit → Match
first_match title [] = none
first_match title (h ∷ hits) =
    if h.original_title == title && ltb_ℤ (pos 0) h.popularity
    then some (h.id, h.popularity)
    else first_match title hits

-- A single hit is taken whatever its title.
abbrev pub single : List Hit → Update Match
single [] = raise update_panic
single (h ∷ hits) = pure (some (h.id, h.popularity))

abbrev pub best_match : Text → SearchResult → Update Match
best_match title r =
    if nat_eq r.total_results 1 then single r.results else pure (first_match title r.results)

abbrev pub searched : Option SearchResult → Update SearchResult
searched none = raise search_failed
searched (some r) = pure r

-- `searchForMovie`
unfoldable pub search_for_movie : Tmdb → OutdatedMoviesRow → Update Match
search_for_movie tmdb m = do
  r ← searched (tmdb.search_movie m.title m.release_year)
  r' ←
      (if nat_eq r.total_results 0
        then searched (tmdb.search_movie m.title m.production_year)
        else pure r)
  best_match m.title r'

-- `nullInt64`
abbrev pub null_int64 : ℤ → Option ℤ
null_int64 (pos zero) = none
null_int64 i = some i

abbrev pub external : Option (Option Text) → Update (Option Text)
external none = raise update_panic
external (some imdb) = pure imdb

-- Reading the field of a nil pointer panics.
abbrev pub with_imdb : Tmdb → ℤ → Option Text → Update (Option Text)
with_imdb tmdb i (some imdb) = pure (some imdb)
with_imdb tmdb i none = external (tmdb.movie_external_ids i)

-- What was found of a movie is stored; an error of the statement is only logged.
unfoldable pub store : Tmdb → Uuid → ℤ → Option Text → ℤ → Update (Unit {0})
store tmdb id i imdb popularity = do
  imdb' ← with_imdb tmdb i imdb
  attempt (
      exec pool (
        update_movie_popularity (record {
          popularity = popularity;
          tmdb_id = null_int64 i;
          imdb_id = imdb';
          movie_id = id;
        })))
  pure tt

abbrev pub store_match : Tmdb → Uuid → Match → Update (Unit {0})
store_match tmdb id none = or_return (exec pool (disable_movie_popularity id)) disable_failed
store_match tmdb id (some (i, popularity)) = store tmdb id i none popularity

abbrev pub store_details : Tmdb → Uuid → ℤ → Option (Text × ℤ) → Update (Unit {0})
store_details tmdb id i none = raise details_failed
store_details tmdb id i (some (imdb, popularity)) = store tmdb id i (some imdb) popularity

unfoldable pub refresh : Tmdb → OutdatedMoviesRow → Option ℤ → Update (Unit {0})
unfolding search_for_movie store
refresh tmdb m (some i) = store_details tmdb m.id i (tmdb.movie_details i)
refresh tmdb m none = search_for_movie tmdb m >>= store_match tmdb m.id

-- `updateMoviePopularity`
unfoldable pub refresh_popularity : Tmdb → OutdatedMoviesRow → Update (Unit {0})
unfolding refresh
refresh_popularity tmdb m = refresh tmdb m m.tmdb_id

-- The loop of `updateMoviePopularities`, without the end of its context: an error of a movie is
-- logged, a panic is not caught.
abbrev pub go_on :
    (Unit {0} → Update (Unit {0}))
    → Result UpdateError (Unit {0}) × World
    → Result UpdateError (Unit {0}) × World
go_on rest (err update_panic, w) = (err update_panic, w)
go_on rest (r, w) = rest tt w

unfoldable pub refresh_each : Tmdb → List OutdatedMoviesRow → Update (Unit {0})
unfolding refresh_popularity
refresh_each tmdb [] w = pure tt w
refresh_each tmdb (m ∷ ms) w = go_on (λ _. refresh_each tmdb ms) (refresh_popularity tmdb m w)

-- `updateMoviePopularities`
unfoldable pub update_movie_popularities :
    Tmdb → (List Movie → List Movie) → (ℕ → ℤ) → Update (Unit {0})
unfolding refresh_each
update_movie_popularities tmdb shuffled year_of = do
  outdated ← or_return (exec pool (outdated_movies shuffled year_of)) fetch_outdated_failed
  refresh_each tmdb outdated
