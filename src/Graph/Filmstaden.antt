-- ===== src/Graph/Filmstaden.antt =====
-- internal/graph/filmstaden.resolvers.go: the shows and the seats of Filmstaden.
use filmstund.Base.{
  ℕ, zero, suc, ◌≡◌, refl, ap, ◌∙◌, Bool, true, false, Option, none, some, List, [], ◌∷◌, ◌++◌, map,
  any, nat_eq, arith,
}
use filmstund.Base.Int.{ℤ}
use filmstund.Base.Text.{Text, bytes}
use filmstund.Database.{Uuid, World, Result, ok, err, DbError, pool, exec}
use filmstund.Dao.Movies.{lookup_filmstaden_id}
use filmstund.Filmstaden.Client.{Outside}
use filmstund.Filmstaden.Shows.{
  ShowItem, Shows, LayoutSeat, ScreenLayout, shows_for_movie, screen_layout,
}

pub data FilmstadenError : Type 0 where
  lookup_movie_failed fetch_shows_failed unknown_showing_format fetch_layout_failed :
      FilmstadenError

pub record FilmstadenCinema : Type 0 where
  pub filmstaden_id : Text
  pub name : Text

pub record FilmstadenScreen : Type 0 where
  pub filmstaden_id : Text
  pub name : Text

pub record FilmstadenShowing : Type 0 where
  pub id : Text
  pub cinema : FilmstadenCinema
  pub screen : FilmstadenScreen
  pub time_utc : ℕ
  pub tags : List Text

-- Numbers of type float64 stay the texts that they were.
pub record FilmstadenSeatMap : Type 0 where
  pub row : ℤ
  pub number : ℤ
  pub seat_type : Text
  pub coordinates : Text × Text
  pub dimensions : Text × Text

abbrev pub showing_of_item : ShowItem → FilmstadenShowing
showing_of_item s = record {
  id = s.remote_entity_id;
  cinema = record { filmstaden_id = s.cinema_id; name = s.cinema_title };
  screen = record { filmstaden_id = s.screen_id; name = s.screen_title };
  time_utc = s.utc;
  tags = s.screen_attributes;
}

abbrev pub seat_of_layout : LayoutSeat → FilmstadenSeatMap
seat_of_layout s = record {
  row = s.row;
  number = s.number;
  seat_type = s.seat_type;
  coordinates = (s.x, s.y);
  dimensions = (s.width, s.height);
}

-- `time.Unix(0, 0)`, in nanoseconds since the zero time.
abbrev pub unix_epoch : ℕ
unix_epoch = 62135596800000000000

abbrev pub or_else {ℓ} : {A : Type ℓ} → Option A → A → A
or_else none a = a
or_else (some b) a = b

abbrev dash : ℕ
dash = 45

abbrev pub onto_part : ℕ → List Text → List Text
onto_part c [] = (c ∷ []) ∷ []
onto_part c (part ∷ parts) = (c ∷ part) ∷ parts

-- `strings.SplitN(t, "-", n + 1)`
unfoldable pub split_dashes : ℕ → Text → List Text
split_dashes zero t = t ∷ []
split_dashes (suc n) [] = [] ∷ []
split_dashes (suc n) (c ∷ t) = elim (nat_eq c dash) [
  | true ↦ [] ∷ split_dashes n t
  | false ↦ onto_part c (split_dashes (suc n) t)
]

module _ {S : Type 0} (outside : Outside S) (base_url : Text) where
  abbrev pub shows_answer :
      World → Option Shows × S → Result FilmstadenError (List FilmstadenShowing) × World × S
  shows_answer w (none, s) = (err fetch_shows_failed, w, s)
  shows_answer w (some shows, s) = (ok (map showing_of_item shows.items), w, s)

  abbrev pub shows_of :
      (Text → Option Shows)
      → (ℕ → Text)
      → Text
      → ℕ
      → Result DbError Text × World
      → S
      → Result FilmstadenError (List FilmstadenShowing) × World × S
  shows_of decode format city_alias after (err e, w) s = (err lookup_movie_failed, w, s)
  shows_of decode format city_alias after (ok fs_movie_id, w) s =
      shows_answer w
        (shows_for_movie outside base_url decode format 1 city_alias fs_movie_id after s)

  -- `queryResolver.FilmstadenShowings`
  unfoldable pub filmstaden_showings :
      (Text → Option Shows)
      → (ℕ → Text)
      → Uuid
      → Option Text
      → Option ℕ
      → World
      → S
      → Result FilmstadenError (List FilmstadenShowing) × World × S
  filmstaden_showings decode format movie_id city after_date w s =
      shows_of decode format (or_else city (bytes "GB")) (or_else after_date unix_epoch)
        (exec pool (lookup_filmstaden_id movie_id) w) s

  abbrev pub layout_answer :
      Option ScreenLayout × S → Result FilmstadenError (Option (List FilmstadenSeatMap)) × S
  layout_answer (none, s) = (err fetch_layout_failed, s)
  layout_answer (some layout, s) = (ok (some (map seat_of_layout layout.seats)), s)

  abbrev pub layout_of :
      (Text → Option ScreenLayout)
      → List Text
      → S
      → Result FilmstadenError (Option (List FilmstadenSeatMap)) × S
  layout_of decode (date ∷ time ∷ layout ∷ []) s =
      layout_answer (screen_layout outside base_url decode layout s)
  layout_of decode _ s = (err unknown_showing_format, s)

  -- `showingResolver.FilmstadenSeatMap`, of the showing's identifier at Filmstaden.
  unfoldable pub filmstaden_seat_map :
      (Text → Option ScreenLayout)
      → Option Text
      → S
      → Result FilmstadenError (Option (List FilmstadenSeatMap)) × S
  unfolding split_dashes
  filmstaden_seat_map decode none s = (ok none, s)
  filmstaden_seat_map decode (some id) s = layout_of decode (split_dashes 2 id) s

-- No part of an identifier but the last has a dash.
abbrev pub has_dash : Text → Bool
has_dash t = any (λ c. nat_eq c dash) t

split_dashes-part :
    (n : ℕ) (a t : Text)
    → has_dash a ≡ false
    → split_dashes (suc n) (a ++ dash ∷ t) ≡ a ∷ split_dashes n t
unfolding split_dashes
split_dashes-part n [] t h = refl
split_dashes-part n (c ∷ a) t h = ground (arith, split_dashes-part n a t)

-- The seat map of a showing is that of the layout which the third part of its identifier names,
-- whatever that part is: its seats in their order, or an error if Filmstaden does not give it.
pub filmstaden_seat_map-layout :
    {S : Type 0} (outside : Outside S) (base_url : Text) (decode : Text → Option ScreenLayout)
    (date time layout : Text) (s : S)
    → has_dash date ≡ false
    → has_dash time ≡ false
    → filmstaden_seat_map outside base_url decode (some (date ++ dash ∷ (time ++ dash ∷ layout))) s
      ≡ layout_answer outside base_url (screen_layout outside base_url decode layout s)
unfolding filmstaden_seat_map
filmstaden_seat_map-layout outside base_url decode date time layout s h k =
    ap (λ parts. layout_of outside base_url decode parts s)
      (split_dashes-part 1 date (time ++ dash ∷ layout) h
        ∙ ap (◌∷◌ date) (split_dashes-part 0 time layout k ∙ ap (◌∷◌ time) refl))
