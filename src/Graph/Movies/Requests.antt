-- ===== src/Graph/Movies/Requests.antt =====
-- Imports of movies (internal/graph/movies.resolvers.go) and runs of the popularity command
-- (cmd/popularity/updater.go), in any order.
use filmstund.Base.{ℕ, Option, none, some, List, [], ◌∷◌, Bool, true, false, if◌then◌else◌}
use filmstund.Base.Int.{ℤ}
use filmstund.Base.Text.{Text}
use filmstund.Database.{Db, Uuid, Movie, World, Result, err, pure}
use filmstund.Dao.Movies.{
  OutdatedMoviesRow, UpsertMovieParams, upsert_movie, all_movies, outdated_movies,
  UpdateMoviePopularityParams, update_movie_popularity, disable_movie_popularity,
}
use filmstund.Dao.Movies.Constraints.{
  HasMovies, upsert_movie-Keeps, all_movies-Keeps, outdated_movies-Keeps,
  update_movie_popularity-Keeps, disable_movie_popularity-Keeps,
}
use filmstund.Dao.Consistency.Rules.{Keeps, Preserves, Holds, preserve_rules, bind-Preserves}
use filmstund.Filmstaden.Movies.{FilmstadenMovie}
use filmstund.Graph.Movies.{
  Formats, Fetched, not_fetched, nothing, movies, import_each, current_movies, fetch_new_movies,
}
use filmstund.Popularity.{
  Hit, SearchResult, Tmdb, Update, UpdateError, update_panic, Match, single, searched,
  search_for_movie, external, with_imdb, store, store_match, store_details, refresh,
  refresh_popularity, go_on, refresh_each, update_movie_popularities,
}

-- `P` is kept by every statement on movies.
pub record KeptByStatements (P : Db → Type 0) : Type 0 where
  pub importing : (p : UpsertMovieParams) → Keeps P (upsert_movie p)
  pub listing : (archived : Bool) → Keeps P (all_movies archived)
  pub selecting :
      (shuffled : List Movie → List Movie) (year_of : ℕ → ℤ)
      → Keeps P (outdated_movies shuffled year_of)
  pub rating : (p : UpdateMoviePopularityParams) → Keeps P (update_movie_popularity p)
  pub disabling : (id : Uuid) → Keeps P (disable_movie_popularity id)

ruleset rules = (preserve_rules)

-- What changes movies: an import, and a run of the popularity command.
pub data Change : Type 0 where
  import_movies : Formats → Fetched → Change
  rate_movies : Tmdb → (List Movie → List Movie) → (ℕ → ℤ) → Change

-- The world after a change, whatever it returns.
unfoldable pub change_movies : Change → World → World
change_movies (import_movies formats fetched) w = (fetch_new_movies formats fetched w).1
change_movies (rate_movies tmdb shuffled year_of) w =
    (update_movie_popularities tmdb shuffled year_of w).1

module _ {P : Db → Type 0} (s : KeptByStatements P) where
  import_each-Preserves :
      (formats : Formats) (items : List (Uuid × FilmstadenMovie))
      → Preserves P (import_each formats items)
  unfolding import_each
  import_each-Preserves formats [] = search rules depth 12
  import_each-Preserves formats ((id, m) ∷ rest) =
      bind-Preserves P _ _ (search (rules, s.importing) depth 12)
        λ _. import_each-Preserves formats rest

  fetch_new_movies-Preserves :
      (formats : Formats) (fetched : Fetched) → Preserves P (fetch_new_movies formats fetched)
  unfolding fetch_new_movies current_movies
  fetch_new_movies-Preserves formats not_fetched = search rules depth 12
  fetch_new_movies-Preserves formats nothing = search rules depth 12
  fetch_new_movies-Preserves formats (movies count items) =
      search (rules, s.listing, import_each-Preserves) depth 12

  searched-Preserves : (r : Option SearchResult) → Preserves P (searched r)
  searched-Preserves none = search rules
  searched-Preserves (some r) = search rules

  second-Preserves :
      (b : Bool) (r : SearchResult) (again : Option SearchResult)
      → Preserves P (if b then searched again else pure r)
  second-Preserves true r again = searched-Preserves again
  second-Preserves false r again = search rules

  single-Preserves : (hits : List Hit) → Preserves P (single hits)
  single-Preserves [] = search rules
  single-Preserves (h ∷ hits) = search rules

  choice-Preserves :
      (b : Bool) (hits : List Hit) (match : Match)
      → Preserves P (if b then single hits else pure match)
  choice-Preserves true hits match = single-Preserves hits
  choice-Preserves false hits match = search rules

  search_for_movie-Preserves :
      (tmdb : Tmdb) (m : OutdatedMoviesRow) → Preserves P (search_for_movie tmdb m)
  unfolding search_for_movie
  search_for_movie-Preserves tmdb m =
      search (rules, searched-Preserves, second-Preserves, choice-Preserves) depth 12

  external-Preserves : (o : Option (Option Text)) → Preserves P (external o)
  external-Preserves none = search rules
  external-Preserves (some imdb) = search rules

  with_imdb-Preserves :
      (tmdb : Tmdb) (i : ℤ) (imdb : Option Text) → Preserves P (with_imdb tmdb i imdb)
  with_imdb-Preserves tmdb i none = external-Preserves (tmdb.movie_external_ids i)
  with_imdb-Preserves tmdb i (some imdb) = search rules

  store-Preserves :
      (tmdb : Tmdb) (id : Uuid) (i : ℤ) (imdb : Option Text) (popularity : ℤ)
      → Preserves P (store tmdb id i imdb popularity)
  unfolding store
  store-Preserves tmdb id i imdb popularity = search (rules, s.rating, with_imdb-Preserves) depth 12

  store_match-Preserves :
      (tmdb : Tmdb) (id : Uuid) (match : Match) → Preserves P (store_match tmdb id match)
  store_match-Preserves tmdb id none = search (rules, s.disabling) depth 12
  store_match-Preserves tmdb id (some (i, popularity)) = store-Preserves tmdb id i none popularity

  store_details-Preserves :
      (tmdb : Tmdb) (id : Uuid) (i : ℤ) (details : Option (Text × ℤ))
      → Preserves P (store_details tmdb id i details)
  store_details-Preserves tmdb id i none = search rules depth 12
  store_details-Preserves tmdb id i (some (imdb, popularity)) =
      store-Preserves tmdb id i (some imdb) popularity

  refresh-Preserves :
      (tmdb : Tmdb) (m : OutdatedMoviesRow) (i : Option ℤ) → Preserves P (refresh tmdb m i)
  unfolding refresh
  refresh-Preserves tmdb m (some i) = store_details-Preserves tmdb m.id i (tmdb.movie_details i)
  refresh-Preserves tmdb m none =
      search (rules, search_for_movie-Preserves, store_match-Preserves) depth 12

  go_on-Holds :
      (rest : Unit {0} → Update (Unit {0})) (x : Result UpdateError (Unit {0}) × World)
      → Preserves P (rest tt)
      → Holds P x.1
      → Holds P (go_on rest x).1
  go_on-Holds rest (err update_panic, w) k h = h
  go_on-Holds rest (r, w) k h = k.at w h

  refresh_each-Preserves :
      (tmdb : Tmdb) (ms : List OutdatedMoviesRow) → Preserves P (refresh_each tmdb ms)
  unfolding refresh_each refresh_popularity pure
  refresh_each-Preserves tmdb [] = record { at = λ w h. h }
  refresh_each-Preserves tmdb (m ∷ ms) = record {
    at = λ w h.
        go_on-Holds (λ _. refresh_each tmdb ms) (refresh_popularity tmdb m w)
          (refresh_each-Preserves tmdb ms) ((refresh-Preserves tmdb m m.tmdb_id).at w h);
  }

  update_movie_popularities-Preserves :
      (tmdb : Tmdb) (shuffled : List Movie → List Movie) (year_of : ℕ → ℤ)
      → Preserves P (update_movie_popularities tmdb shuffled year_of)
  unfolding update_movie_popularities
  update_movie_popularities-Preserves tmdb shuffled year_of =
      search (rules, s.selecting, refresh_each-Preserves) depth 12

  pub change_movies-Holds : (c : Change) (w : World) → Holds P w → Holds P (change_movies c w)
  unfolding change_movies
  change_movies-Holds (import_movies formats fetched) w h =
      (fetch_new_movies-Preserves formats fetched).at w h
  change_movies-Holds (rate_movies tmdb shuffled year_of) w h =
      (update_movie_popularities-Preserves tmdb shuffled year_of).at w h

pub statements : KeptByStatements HasMovies
statements = record {
  importing = upsert_movie-Keeps;
  listing = all_movies-Keeps;
  selecting = outdated_movies-Keeps;
  rating = update_movie_popularity-Keeps;
  disabling = disable_movie_popularity-Keeps;
}
