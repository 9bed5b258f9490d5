-- ===== src/Popularity/Freshness.antt =====
-- When cmd/popularity/updater.go has refreshed a movie, it is not outdated for seven days.
use filmstund.Base.{◌≡◌, ℕ, Bool, true, false, ◌&&◌, Option, some, List, any, ◌==◌, ids}
use filmstund.Base.Int.{ℤ}
use filmstund.Base.Text.{Text}
use filmstund.Database.{Uuid, Movie, World, Result, ok, err}
use filmstund.Dao.Movies.{fits_imdb, is_outdated}
use filmstund.Popularity.{UpdateError, Tmdb}

-- No movie with this identifier is outdated at that time.
abbrev pub outdated_at : ℕ → Uuid → List Movie → Bool
outdated_at later id ms = any (λ (m : Movie). m.id == id && is_outdated later m) ms

-- The identifiers at IMDb that TMDB gives have at most 20 characters.
pub record HasShortIds (tmdb : Tmdb) : Type 0 where
  pub details_fit :
      (i : ℤ) (imdb : Text) (popularity : ℤ)
      → tmdb.movie_details i ≡ some (imdb, popularity)
      → fits_imdb (some imdb) ≡ true
  pub external_fit :
      (i : ℤ) (imdb : Option Text) → tmdb.movie_external_ids i ≡ some imdb → fits_imdb imdb ≡ true

-- Whatever ends well leaves the movie fresh.
abbrev pub LeavesFresh : ℕ → Uuid → Result UpdateError (Unit {0}) × World → Type 0
LeavesFresh later id (ok _, w) = outdated_at later id w.db.movies ≡ false
LeavesFresh later id (err _, w) = Unit
