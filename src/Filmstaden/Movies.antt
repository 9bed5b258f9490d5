-- ===== src/Filmstaden/Movies.antt =====
-- filmstaden/get_movies.go: the movies, of which those fields stand here that are read. A JSON number
-- is an integer.
use filmstund.Base.{
  Bool, true, false, ◌||◌, zero, Option, none, some, List, [], ◌∷◌, ◌++◌, map, length, texts,
  if◌then◌else◌,
}
use filmstund.Base.Int.{ℤ, pos}
use filmstund.Base.Splitting.{join}
use filmstund.Base.Text.{Text, bytes}
use filmstund.Base.Maps.{GoMap, put}
use filmstund.Filmstaden.Client.{Outside, decoded_get}
use filmstund.Filmstaden.Shows.{Shows, shows, unique_movie_ids}

pub record FilmstadenMovie : Type 0 where
  pub ncg_id : Text
  pub original_title : Text
  pub slug : Text
  pub production_year : ℤ
  pub release_date : Text
  pub re_release_date : Option Text
  pub genres : List Text
  pub length : ℤ
  pub poster_url : Text

pub record Movies : Type 0 where
  pub total_count : ℤ
  pub items : List FilmstadenMovie

-- The loops of `Merge` over the items.
unfoldable pub put_movies : List FilmstadenMovie → GoMap FilmstadenMovie → GoMap FilmstadenMovie
put_movies [] set = set
put_movies (m ∷ ms) set = put_movies ms (put m.ncg_id m set)

-- The loop over the map.
abbrev pub values : GoMap FilmstadenMovie → List FilmstadenMovie
values set = map (λ (e : Text × FilmstadenMovie). e.1) set

abbrev pub merged : List FilmstadenMovie → Movies
merged items = record { total_count = pos (length items); items = items }

-- `Merge`, with the order in which the map is visited; nothing is a nil pointer.
unfoldable pub merge :
    (GoMap FilmstadenMovie → GoMap FilmstadenMovie) → Option Movies → Option Movies → Option Movies
unfolding put_movies
merge range none (some other) = some other
merge range none none = none
merge range (some movies) none = some movies
merge range (some movies) (some other) =
    some (merged (values (range (put_movies other.items (put_movies movies.items [])))))

-- What `UpcomingMovies` reads of the first answer.
pub record Upcoming : Type 0 where
  pub total_nbr_of_items : ℤ
  pub ids : List Text

-- `json.Unmarshal` into the three types.
pub record Decoders : Type 0 where
  pub shows : Text → Option Shows
  pub movies : Text → Option Movies
  pub upcoming : Text → Option Upcoming

-- The orders in which Go visits the two maps.
pub record Ranges : Type 0 where
  pub movies : GoMap FilmstadenMovie → GoMap FilmstadenMovie
  pub ids : GoMap (Unit {0}) → GoMap (Unit {0})

abbrev pub is_zero : ℤ → Bool
is_zero (pos zero) = true
is_zero _ = false

abbrev pub is_empty : List Text → Bool
is_empty [] = true
is_empty (id ∷ ids) = false

module _ {S : Type 0} (outside : Outside S) (base_url : Text) (decode : Decoders) where
  -- `Movies`
  unfoldable pub movies_by_id : List Text → S → Option Movies × S
  unfolding join
  movies_by_id movie_ids =
      decoded_get outside decode.movies
        (base_url ++ bytes "/movie/sv?movieNcgIds=" ++ join 44 movie_ids)

  abbrev pub detailed : Option Upcoming × S → Option Movies × S
  detailed (none, s) = (none, s)
  detailed (some u, s) =
      if is_zero u.total_nbr_of_items || is_empty u.ids
      then (some (record { total_count = pos 0; items = [] }), s)
      else movies_by_id u.ids s

  -- `UpcomingMovies`
  unfoldable pub upcoming_movies : Text → S → Option Movies × S
  unfolding movies_by_id
  upcoming_movies city_alias s = detailed (
      decoded_get outside decode.upcoming
        (base_url
          ++ bytes "/movie/bytype/sv/1/1024/Upcoming/true?filter.cityAlias="
          ++ city_alias
          ++ bytes "&countryAlias=se")
        s)

  -- An error of either request for movies is only logged, and leaves a nil pointer.
  abbrev pub with_upcoming : Ranges → Text → Option Movies × S → Option Movies × S
  with_upcoming ranges city_alias (movies, s) =
      let (upcoming, s') = upcoming_movies city_alias s in (merge ranges.movies movies upcoming, s')

  abbrev pub with_shows : Ranges → Text → Option Shows × S → Option (Option Movies) × S
  with_shows ranges city_alias (none, s) = (none, s)
  with_shows ranges city_alias (some found, s) =
      let (movies, s') =
        with_upcoming ranges city_alias
          (movies_by_id (unique_movie_ids ranges.ids found.items) s) in
      (some movies, s')

  -- `CurrentMovies`: an error, a nil pointer or the movies.
  unfoldable pub current_movies : Ranges → Text → S → Option (Option Movies) × S
  unfolding upcoming_movies
  current_movies ranges city_alias s =
      with_shows ranges city_alias (shows outside base_url decode.shows 1 city_alias s)
