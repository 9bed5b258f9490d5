-- ===== src/Filmstaden/Shows.antt =====
-- filmstaden/get_shows.go, and the requests of get_show.go, get_tickets.go, get_screen_layout.go and
-- get_barcode.go. Times are in nanoseconds since the zero time of Go.
use filmstund.Base.{
  ℕ, ◌+◌, ◌-◌, ◌%◌, ◌≡◌, refl, ◌∙◌, Bool, true, Option, List, [], ◌∷◌, ◌++◌, map, any, count, ltb,
  ◌==◌, texts, if◌then◌else◌, arith,
}
use filmstund.Base.Int.{ℤ}
use filmstund.Base.Text.{Text, bytes}
use filmstund.Base.Maps.{GoMap, VisitsEach, put, at_key, count-put}
use filmstund.Base.Sorting.{
  IsSorted, text_before, text_before-IsOrder, order_by-IsSorted, count-order_by,
}
use filmstund.Base.{order_by}
use filmstund.Currency.Decimal.{decimal}
use filmstund.Filmstaden.Client.{Outside, decoded_get}

-- An item of `Shows`, those fields that are read.
pub record ShowItem : Type 0 where
  pub remote_entity_id : Text
  pub movie_id : Text
  pub cinema_id : Text
  pub cinema_title : Text
  pub screen_id : Text
  pub screen_title : Text
  pub screen_attributes : List Text
  pub utc : ℕ

pub record Shows : Type 0 where
  pub total_count : ℤ
  pub items : List ShowItem

-- The first loop of `UniqueMovieIDs`; the values of the map are empty structs.
unfoldable pub put_ids : List ShowItem → GoMap (Unit {0}) → GoMap (Unit {0})
put_ids [] ids = ids
put_ids (s ∷ shows) ids = put_ids shows (put s.movie_id tt ids)

-- The second loop.
abbrev pub keys : GoMap (Unit {0}) → List Text
keys ids = map (λ (e : Text × Unit {0}). e.0) ids

-- `UniqueMovieIDs`, with the order in which the map is visited.
unfoldable pub unique_movie_ids : (GoMap (Unit {0}) → GoMap (Unit {0})) → List ShowItem → List Text
unfolding put_ids
unique_movie_ids range items = order_by text_before (keys (range (put_ids items [])))

-- `truncateTimeToHour`: `Round` goes to the nearest multiple, and up from the middle.
unfoldable pub truncate_time_to_hour : ℕ → ℕ
truncate_time_to_hour t =
    let r = t % 900000000000 in if ltb (r + r) 900000000000 then t - r else t + (900000000000 - r)

-- A seat of `ScreenLayout`; its coordinates and dimensions are texts of floats.
pub record LayoutSeat : Type 0 where
  pub row : ℤ
  pub number : ℤ
  pub seat_type : Text
  pub x : Text
  pub y : Text
  pub width : Text
  pub height : Text

pub record ScreenLayout : Type 0 where
  pub auditorium_layout_id : Text
  pub seats : List LayoutSeat

module _ {S : Type 0} (outside : Outside S) (base_url : Text) where
  -- `Shows`
  unfoldable pub shows : (Text → Option Shows) → ℕ → Text → S → Option Shows × S
  shows decode page city_alias = decoded_get outside decode (
      base_url
      ++ bytes "/show/stripped/sv/"
      ++ decimal page
      ++ bytes "/1024?filter.countryAlias=se&filter.cityAlias="
      ++ city_alias)

  -- `ShowsForMovie`; `format` is that of the layout `2006-01-02T15:04`.
  unfoldable pub shows_for_movie :
      (Text → Option Shows) → (ℕ → Text) → ℕ → Text → Text → ℕ → S → Option Shows × S
  unfolding truncate_time_to_hour
  shows_for_movie decode format page city_alias movie_id after = decoded_get outside decode (
      base_url
      ++ bytes "/show/stripped/sv/"
      ++ decimal page
      ++ bytes "/1024?filter.countryAlias=se&filter.cityAlias="
      ++ city_alias
      ++ bytes "&filter.movieNcgId="
      ++ movie_id
      ++ bytes "&filter.timeUtc.greaterThanOrEqualTo="
      ++ format (truncate_time_to_hour after))

  -- `Show`, `Tickets`, `ScreenLayout` and `Barcode`
  unfoldable pub show {ℓ} : {A : Type ℓ} → (Text → Option A) → Text → S → Option A × S
  show decode show_id =
      decoded_get outside decode (base_url ++ bytes "/show/Sys99-SE/" ++ show_id ++ bytes "/sv")

  unfoldable pub tickets {ℓ} :
      {A : Type ℓ} → (Text → Option (List A)) → Text → Text → Text → S → Option (List A) × S
  tickets decode sys_id showing_id ticket_id =
      decoded_get outside decode (
        base_url ++ bytes "/ticket/" ++ sys_id ++ bytes "/" ++ showing_id ++ bytes "/" ++ ticket_id)

  unfoldable pub screen_layout : (Text → Option ScreenLayout) → Text → S → Option ScreenLayout × S
  screen_layout decode layout_id =
      decoded_get outside decode (base_url ++ bytes "/screen/layout/sv/" ++ layout_id)

  unfoldable pub barcode : (Text → Option Text) → Text → S → Option Text × S
  barcode decode ticket_id =
      decoded_get outside decode (base_url ++ bytes "/barcode/" ++ ticket_id ++ bytes "/128/128")

-- Whether a show of this movie is among them.
abbrev pub shown_in : Text → List ShowItem → Bool
shown_in id items = any (λ (s : ShowItem). s.movie_id == id) items

abbrev once_if : Bool → ℕ
once_if b = if b then 1 else 0

count-keys :
    (id : Text) (ids : GoMap (Unit {0}))
    → count (λ k. k == id) (keys ids) ≡ count (at_key id (λ u. true)) ids
count-keys id [] = refl
count-keys id (e ∷ ids) = ground (arith, count-keys id ids)

count-put_ids :
    (id : Text) (items : List ShowItem) (ids : GoMap (Unit {0}))
    → count (at_key id (λ u. true)) (put_ids items ids)
      ≡ (if shown_in id items then 1 else count (at_key id (λ u. true)) ids)
unfolding put_ids
count-put_ids id [] ids = refl
count-put_ids id (s ∷ items) ids = ground (
  arith,
  count-put_ids id items (put s.movie_id tt ids),
  count-put s.movie_id id tt (λ u. true) ids,
)

-- In whatever order Go visits the map, UniqueMovieIDs gives the identifiers in ascending order, and
-- each identifier of a movie once if there is a show of it and not at all if there is none.
unique_movie_ids-IsSorted :
    (range : GoMap (Unit {0}) → GoMap (Unit {0})) (items : List ShowItem)
    → VisitsEach range
    → IsSorted text_before (unique_movie_ids range items)
      × ((id : Text)
          → count (λ k. k == id) (unique_movie_ids range items) ≡ once_if (shown_in id items))
unfolding unique_movie_ids
unique_movie_ids-IsSorted range items v = (
  order_by-IsSorted text_before text_before-IsOrder (keys (range (put_ids items []))),
  λ id.
      count-order_by text_before (λ k. k == id) (keys (range (put_ids items [])))
      ∙ count-keys id (range (put_ids items []))
      ∙ v.at (at_key id (λ u. true)) (put_ids items [])
      ∙ count-put_ids id items [],
)
