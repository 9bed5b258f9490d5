-- ===== src/Tests/Filmstaden.antt =====
-- The client of Filmstaden at concrete inputs.
use filmstund.Base.{
  ℕ, ◌≡◌, refl, inl, true, Bool, texts, Option, none, some, List, [], ◌∷◌, ◌++◌, map, any, count,
  length, arith,
}
use filmstund.Base.Int.{pos}
use filmstund.Base.Text.{Text, bytes}
use filmstund.Base.Maps.{VisitsEach, holds}
use filmstund.Filmstaden.Client.{Outside, do_request, decoded_get}
use filmstund.Filmstaden.Recent.{
  twelve_hours, IsCache, left_after, is_recent, unknown, pause, look_up, noted,
  decoded_get-IsRecent, IsUp, look_ups, waits, look_ups-same,
}
use filmstund.Filmstaden.Shows.{ShowItem, ScreenLayout, screen_layout}
use filmstund.Filmstaden.Movies.{FilmstadenMovie, Movies, merge}
use filmstund.Filmstaden.Merging.{with_id, last_of, merge-last_of}
use filmstund.Graph.Filmstaden.{filmstaden_seat_map, layout_answer, filmstaden_seat_map-layout}

-- One key of redis, and a server that answers every request with `[]`.
abbrev Key : Type 0
Key = Option (Text × ℕ)

abbrev stored : Key → Option Text
stored none = none
stored (some (v, t)) = some v

abbrev site : Outside Key
site = record {
  get = λ url s. stored s;
  set = λ url v n s. (true, some (v, n));
  send = λ url s. (some (record { status = 200; body = some (bytes "[]") }), s);
  wait = λ n s. left_after n s;
}

stored_reads : (v : Text) (s : Key) → stored s ≡ some v → (t : ℕ) × (s ≡ some (v, t))
stored_reads v none e = cc
stored_reads v (some (u, t)) e = (t, cc)

stored_answers : (v : Text) (t : ℕ) (s : Key) → s ≡ some (v, t) → stored s ≡ some v
stored_answers v t none e = cc
stored_answers v t (some (u, n)) e = cc

abbrev movies_url : Text
movies_url = bytes "/movie/sv"

abbrev site-IsCache : IsCache site movies_url
site-IsCache = record {
  view = λ s. s;
  get_reads = stored_reads;
  set_stores = λ v n s. inl refl;
  send_leaves = λ s. refl;
  wait_counts = λ n s. refl;
}

abbrev site-IsUp : IsUp site movies_url site-IsCache
site-IsUp = record { get_answers = stored_answers; set_done = λ v n s. refl }

-- A JSON array, and a decoder that refuses everything.
abbrev arrays : Text → Option ℕ
arrays body = some 0

abbrev nothing_decodes : Text → Option ℕ
nothing_decodes body = none

abbrev an_hour_later : Key
an_hour_later = some (bytes "[]", 39600)

-- The answer after an hour.
decoded_get-IsRecent_example :
    (body : Text) × (arrays body ≡ some 0)
    × (any (is_recent body twelve_hours) (
          noted site movies_url site-IsCache
            (some (bytes "[]"))
            an_hour_later
            ((bytes "[]", 3600) ∷ []))
        ≡ true)
unfolding decoded_get do_request
decoded_get-IsRecent_example =
    decoded_get-IsRecent site movies_url site-IsCache arrays 0
      (pause 3600 (look_up (unknown none refl))) refl

look_ups-same_example :
    ((decoded_get site nothing_decodes movies_url none).0 ≡ none)
    × (look_ups site nothing_decodes movies_url
          (60 ∷ 3600 ∷ [])
          (decoded_get site nothing_decodes movies_url none).1
        ≡ (
          map (λ (n : ℕ). none) (60 ∷ 3600 ∷ []),
          waits site nothing_decodes movies_url
              (60 ∷ 3600 ∷ [])
              (decoded_get site nothing_decodes movies_url none).1,
        ))
unfolding do_request
look_ups-same_example =
    look_ups-same site nothing_decodes movies_url site-IsCache site-IsUp (bytes "[]")
      (60 ∷ 3600 ∷ []) none refl refl (omega arith)

abbrev show_of : Text → ShowItem
show_of id = record {
  remote_entity_id = bytes "20220109-1700-1572";
  movie_id = id;
  cinema_id = bytes "NCG1";
  cinema_title = bytes "Bergakungen";
  screen_id = bytes "S1";
  screen_title = bytes "Salong 1";
  screen_attributes = [];
  utc = 0;
}

abbrev programme : List ShowItem
programme = show_of (bytes "B") ∷ show_of (bytes "A") ∷ show_of (bytes "B") ∷ []

abbrev as_stored : {V : Type 0} → VisitsEach {V = V} (λ m. m)
as_stored = record { at = λ p m. refl }

abbrev movie_of : Text → Text → FilmstadenMovie
movie_of id title = record {
  ncg_id = id;
  original_title = title;
  slug = title;
  production_year = pos 2021;
  release_date = bytes "2021-09-15T00:00:00";
  re_release_date = none;
  genres = [];
  length = pos 155;
  poster_url = [];
}

-- The second list has a newer version of the movie A.
abbrev running : Movies
running = record {
  total_count = pos 2;
  items = movie_of (bytes "A") (bytes "Dune") ∷ movie_of (bytes "B") (bytes "Tenet") ∷ [];
}

abbrev upcoming : Movies
upcoming = record {
  total_count = pos 1;
  items = movie_of (bytes "A") (bytes "Dune: Part One") ∷ [];
}

merge-last_of_example :
    (m : Movies) × (merge (λ set. set) (some running) (some upcoming) ≡ some m)
    × (m.total_count ≡ pos (length m.items))
    × ((id : Text) (p : FilmstadenMovie → Bool)
        → count (with_id id p) m.items
          ≡ holds p (last_of id (running.items ++ upcoming.items) none))
merge-last_of_example = merge-last_of (λ set. set) running upcoming as_stored

abbrev no_layout : Text → Option ScreenLayout
no_layout body = none

seat_map_of_showing :
    filmstaden_seat_map site [] no_layout (some (bytes "20220109-1700-1572")) none
    ≡ layout_answer site [] (screen_layout site [] no_layout (bytes "1572") none)
seat_map_of_showing =
    filmstaden_seat_map-layout site [] no_layout (bytes "20220109") (bytes "1700") (bytes "1572")
      none refl refl
