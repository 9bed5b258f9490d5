-- ===== src/Tests/Movies.antt =====
-- The import of movies, and amounts as texts, at concrete inputs.
use filmstund.Base.{
  list_eq, ℕ, ◌+◌, ◌*◌, ◌/◌, ◌%◌, ◌≡◌, ◌≢◌, ◌⊎◌, ◌↔◌, refl, none, some, ids, List, [], ◌∷◌, arith,
}
use filmstund.Base.Int.{pos}
use filmstund.Base.Text.{Text, bytes}
use filmstund.Database.{Db, Uuid, World}
use filmstund.Database.Execution.{reachable}
use filmstund.Filmstaden.Movies.{FilmstadenMovie}
use filmstund.Graph.Movies.{Formats, movies, fetch_new_movies}
use filmstund.Graph.Movies.Import.{imported, answer, fetch_new_movies-imported}
use filmstund.Currency.Amounts.{sek_text, unmarshal_sek}
use filmstund.Currency.Printing.{oren_read, unmarshal_sek-sek_text}
use filmstund.Dao.Movies.{OutdatedMoviesRow}
use filmstund.Popularity.{Tmdb, refresh_popularity}
use filmstund.Dao.Consistency.Rules.{Holds}
use filmstund.Dao.Consistency.{IsConsistent}
use filmstund.Graph.Movies.Requests.{import_movies, rate_movies}
use filmstund.Graph.Users.Requests.{new_feed}
use filmstund.Graph.Showings.Consistency.{buy}
use filmstund.Graph.Histories.{
  IsSound, Event, of_showings, of_users, of_movies, happen_all, happen_all-IsSound,
}
use filmstund.Tests.Accounts.{site}
use filmstund.Tests.Histories.{flaky, flaky-IsConsistent}
use filmstund.Tests.Samples.{club, user, env}

abbrev formats : Formats
formats = record { parse_day = λ t. 19000; trim_space = λ t. t }

abbrev film : Text → FilmstadenMovie
film id = record {
  ncg_id = id;
  original_title = bytes "Dune";
  slug = bytes "dune";
  production_year = pos 2021;
  release_date = bytes "2021-09-15T00:00:00";
  re_release_date = none;
  genres = [];
  length = pos 155;
  poster_url = bytes "https://";
}

-- The second film is too old for the table.
abbrev programme : List (Uuid × FilmstadenMovie)
programme =
    (81, film (bytes "NCG81"))
    ∷ (82, record (film (bytes "NCG82")) { production_year = pos 1895 })
    ∷ []

fetch_new_movies-imported_example :
    fetch_new_movies formats (movies 2 programme) (reachable club 5)
    ≡ answer formats club 5 (imported formats programme 5 club)
fetch_new_movies-imported_example = fetch_new_movies-imported formats 2 programme club 5 refl

-- 12.50 kr.
unmarshal_sek-sek_text_example :
    (unmarshal_sek (sek_text (pos 1250)) ≡ some (pos (1250 / 100 * 100 + oren_read (1250 % 100))))
    × ((unmarshal_sek (sek_text (pos 1250)) ≡ some (pos 1250))
        ↔ ((◌≡◌ {A = ℕ} (1250 % 100) 0) ⊎ (◌≢◌ {A = ℕ} (1250 % 10) 0)))
unmarshal_sek-sek_text_example = unmarshal_sek-sek_text 1250 (omega arith)

-- One film of the title, without an identifier at IMDb.
abbrev tmdb : Tmdb
tmdb = record {
  search_movie = λ t y. some (record {
    total_results = 1;
    results = record { id = pos 438631; original_title = bytes "Dune"; popularity = pos 98 } ∷ [];
  });
  movie_details = λ i. none;
  movie_external_ids = λ i. some none;
}

abbrev dune_row : OutdatedMoviesRow
dune_row = record {
  id = 70;
  tmdb_id = none;
  title = bytes "Dune";
  production_year = pos 2021;
  release_year = pos 2021;
  popularity = pos 0;
  popularity_update_time = 0;
}

abbrev refreshed_club : World
unfolding refresh_popularity
refreshed_club = (refresh_popularity tmdb dune_row (reachable club 700000)).1

-- The club, whose users have subjects of their own, on a server that fails once.
abbrev town : Db
town = record club {
  users =
      record (user 1 none) { subject_id = bytes "auth0|anna" }
      ∷ record (user 2 none) { subject_id = bytes "auth0|bo" }
      ∷ record (user 3 none) { subject_id = bytes "auth0|eva" }
      ∷ [];
}

abbrev town_at_night : World
town_at_night = record flaky { db = town; now = 700000 }

town-IsConsistent : IsConsistent town
town-IsConsistent =
    let c = flaky-IsConsistent.0 in
    record {
      showing_pk = c.showing_pk;
      showing_webid_uniq = c.showing_webid_uniq;
      showings_fit = c.showings_fit;
      attendee_pk = c.attendee_pk;
      attendee_giftcert_unique = c.attendee_giftcert_unique;
      attendees_fit = c.attendees_fit;
      ticket_pk = c.ticket_pk;
      tickets_fit = c.tickets_fit;
      cinema_screen_pk = c.cinema_screen_pk;
    }

town-IsSound : IsSound town
unfolding list_eq
town-IsSound = (
  record {
    user_pk = (refl, (refl, (refl, tt)));
    user_ids_subjct_uniq = (refl, (refl, (refl, tt)));
    user_ids_fsid_uniq = (refl, (refl, (refl, tt)));
    user_calendarfeedid_unique = (refl, (refl, (refl, tt)));
    giftcert_number_unique = (refl, tt);
    giftcert_user_fk = (refl, tt);
    consistent = town-IsConsistent;
  },
  record {
    movies_pk = (refl, tt);
    fs_id_uniq = (refl, tt);
    movies_fit = ((omega arith, omega arith), tt);
    consistent = town-IsConsistent;
  },
)

-- The tickets of showing 10 are bought, a feed is made, films are imported, and the popularity of the
-- movies is asked for.
abbrev evening : List Event
evening =
    of_showings env (buy 10 (pos 12000))
    ∷ of_users site (new_feed (bytes "auth0|bo") 91)
    ∷ of_movies (import_movies formats (movies 2 programme))
    ∷ of_movies (rate_movies tmdb (λ ms. ms) (λ day. pos 2021))
    ∷ []

happen_all-IsSound_example : Holds IsSound (happen_all evening town_at_night)
happen_all-IsSound_example = happen_all-IsSound evening town_at_night (town-IsSound, tt)
