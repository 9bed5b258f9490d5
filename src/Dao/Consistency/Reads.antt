-- ===== src/Dao/Consistency/Reads.antt =====
-- The statements that only read leave every property of the tables as it is.
use filmstund.Base.{ℕ, Option, none, some, List}
use filmstund.Base.Text.{Text}
use filmstund.Database.{Uuid, Db, ok, err}
use filmstund.Dao.Showings.{
  one, admin_on_showing, public_showings, showing_by_id, showing_by_web_id, showings_by_movie,
}
use filmstund.Dao.Movies.{lookup_movie_title}
use filmstund.Dao.Tickets.{
  showing_tickets_bought, AttendeesIncludingTicketsRow, attendees_including_tickets,
  ticket_seatings,
}
use filmstund.Dao.Consistency.Rules.{Keeps, Outcome}

module _ (P : Db → Type 0) where
  pub one_row :
      {A B : Type 0} (o : Option A) (f : A → B) (db : Db)
      → P db
      → Outcome P (one o (λ a. ok (f a, db)) (λ e. err e))
  one_row none f db h = tt
  one_row (some a) f db h = h

  pub showing_by_id-Keeps : (id : Uuid) → Keeps P (showing_by_id id)
  unfolding showing_by_id
  showing_by_id-Keeps id = record { at = λ now db h. one_row _ (λ s. s) db h }

  pub showing_by_web_id-Keeps : (web : Text) → Keeps P (showing_by_web_id web)
  unfolding showing_by_web_id
  showing_by_web_id-Keeps web = record { at = λ now db h. one_row _ (λ s. s) db h }

  pub lookup_movie_title-Keeps : (id : Uuid) → Keeps P (lookup_movie_title id)
  unfolding lookup_movie_title
  lookup_movie_title-Keeps id = record { at = λ now db h. one_row _ (λ m. m.title) db h }

  pub showing_tickets_bought-Keeps : (id : Uuid) → Keeps P (showing_tickets_bought id)
  unfolding showing_tickets_bought
  showing_tickets_bought-Keeps id = record {
    at = λ now db h. one_row _ (λ s. (s.tickets_bought, s.price)) db h;
  }

  pub public_showings-Keeps : (after : ℕ) → Keeps P (public_showings after)
  unfolding public_showings
  public_showings-Keeps after = record { at = λ now db h. h }

  pub showings_by_movie-Keeps : (movie : Uuid) → Keeps P (showings_by_movie movie)
  unfolding showings_by_movie
  showings_by_movie-Keeps movie = record { at = λ now db h. h }

  pub admin_on_showing-Keeps : (user id : Uuid) → Keeps P (admin_on_showing user id)
  unfolding admin_on_showing
  admin_on_showing-Keeps user id = record { at = λ now db h. h }

  pub attendees_including_tickets-Keeps :
      (order : List AttendeesIncludingTicketsRow → List AttendeesIncludingTicketsRow) (id : Uuid)
      → Keeps P (attendees_including_tickets order id)
  unfolding attendees_including_tickets
  attendees_including_tickets-Keeps order id = record { at = λ now db h. h }

  pub ticket_seatings-Keeps : (id : Uuid) → Keeps P (ticket_seatings id)
  unfolding ticket_seatings
  ticket_seatings-Keeps id = record { at = λ now db h. h }

pub ruleset read_rules = (
  showing_by_id-Keeps, showing_by_web_id-Keeps, lookup_movie_title-Keeps,
  showing_tickets_bought-Keeps, public_showings-Keeps, showings_by_movie-Keeps,
  admin_on_showing-Keeps, attendees_including_tickets-Keeps, ticket_seatings-Keeps,
)
