-- ===== src/Graph/Movies/Fetching.antt =====
-- `FetchNewMoviesFromFilmstaden` (internal/graph/movies.resolvers.go) together with the requests of
-- the Filmstaden client.
use filmstund.Base.{ℕ, ◌+◌, suc, Option, none, some, List, [], ◌∷◌}
use filmstund.Base.Int.{pos_part, neg_part}
use filmstund.Base.Text.{Text}
use filmstund.Database.{Uuid, Movie, World, Result}
use filmstund.Filmstaden.Client.{Outside}
use filmstund.Filmstaden.Movies.{FilmstadenMovie, Movies, Decoders, Ranges, current_movies}
use filmstund.Graph.Model.{GraphError}
use filmstund.Graph.Movies.{Formats, Fetched, not_fetched, nothing, movies, fetch_new_movies}

-- The `i`-th movie gets the `i`-th new UUID.
abbrev pub with_uuids : (ℕ → Uuid) → ℕ → List FilmstadenMovie → List (Uuid × FilmstadenMovie)
with_uuids new_uuid i [] = []
with_uuids new_uuid i (m ∷ ms) = (new_uuid i, m) ∷ with_uuids new_uuid (suc i) ms

-- Of the count it is only asked whether it is zero.
abbrev pub fetched_of : (ℕ → Uuid) → Option (Option Movies) → Fetched
fetched_of new_uuid none = not_fetched
fetched_of new_uuid (some none) = nothing
fetched_of new_uuid (some (some m)) =
    movies (pos_part m.total_count + neg_part m.total_count) (with_uuids new_uuid 0 m.items)

-- The whole handler, for a city.
unfoldable pub fetch_from_filmstaden :
    {S : Type 0}
    → Outside S
    → Text
    → Decoders
    → Ranges
    → Formats
    → (ℕ → Uuid)
    → Text
    → World × S
    → Result GraphError (List Movie) × World × S
fetch_from_filmstaden outside base_url decode ranges formats new_uuid city_alias (w, s) =
    let (found, s') = current_movies outside base_url decode ranges city_alias s in
    let (r, w') = fetch_new_movies formats (fetched_of new_uuid found) w in (r, w', s')
