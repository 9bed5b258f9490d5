-- ===== src/Graph/Showings/Permanence.antt =====
-- Once the tickets of a showing are bought it stays bought, under the same admin, and nobody joins:
-- internal/graph/showing.resolvers.go.
pub mod Statements
use filmstund.Base.{
  [], ◌≡◌, refl, sym, Bool, true, false, some, List, ◌∷◌, All, find, nat_eq, nat_eq_iff, subst,
  ◌==◌, ids, Bool-cases, Option-cases, inl, inr, arith,
}
use filmstund.Base.Int.{ℤ}
use filmstund.Database.{
  Uuid, World, Db, Showing, Result, ok, err, pool, exec, or_return, raise_if, raise, ◌>>=◌, ◌>>◌,
}
use filmstund.Dao.Tickets.{showing_tickets_bought}
use filmstund.Dao.Consistency.Rules.{Preserves, Holds, or_return-Preserves, exec-Preserves}
use filmstund.Dao.Consistency.Reads.{showing_tickets_bought-Keeps}
use filmstund.Graph.Model.{Env, PaymentOption, GraphError}
use filmstund.Graph.Showings.{attend_showing, Handler}
use filmstund.Graph.Showings.Consistency.{Mutation, serve, serve_all, serve-Holds}
use filmstund.Graph.Showings.Preserving
use filmstund.Graph.Showings.Preserving.{KeptByStatements}
use filmstund.Graph.Showings.Permanence.Statements.{
  IsSettled, IsClosed, add_showing-Keeps, delete_showing-Keeps, mark-Keeps, promote-Keeps,
  update-Keeps, add_attendee-Keeps, delete_attendee-Keeps, gc-Keeps, swish-Keeps, screen-Keeps,
}

module _ (id admin : Uuid) (members : Uuid → Bool) where
  abbrev P : Db → Type 0
  P = IsClosed id admin members

  -- Showings and attendees are added to other showings.
  abbrev Other : Uuid → Type 0
  Other i = nat_eq i id ≡ false

  statements : KeptByStatements P Other
  statements = record {
    adding = add_showing-Keeps id admin members;
    deleting = delete_showing-Keeps id admin members;
    buying = mark-Keeps id admin members;
    promoting = promote-Keeps id admin members;
    updating = update-Keeps id admin members;
    joining = add_attendee-Keeps id admin members;
    leaving = delete_attendee-Keeps id admin members;
    settling = gc-Keeps id admin members;
    charging = swish-Keeps id admin members;
    screening = screen-Keeps id admin members;
  }

  found_bought :
      (ss : List Showing) (s : Showing)
      → All (IsSettled id admin members) ss
      → find (λ (s : Showing). s.id == id) ss ≡ some s
      → s.tickets_bought ≡ true
  found_bought [] s h e = cc
  found_bought (x ∷ ss) s h e = elim (Bool-cases (nat_eq x.id id)) [
    | inl here ↦ let x_s : x ≡ s = ground arith in rw (← x_s) (ground arith)
    | inr there ↦ found_bought ss s h.1 (ground arith)
  ]

  read_bought :
      (e : GraphError) (w : World) (found : Bool × ℤ)
      → All (IsSettled id admin members) w.db.showings
      → (or_return (exec pool (showing_tickets_bought id)) e w).0 ≡ ok found
      → found.0 ≡ true
  unfolding or_return exec showing_tickets_bought
  read_bought e w found h k =
      elim (Option-cases (find (λ (s : Showing). s.id == id) w.db.showings)) [
        | inl missing ↦ ground (arith, missing)
        | inr (s, there) ↦ ground (arith, there, found_bought w.db.showings s h there)
      ]

  bought_continued :
      {B : Type 0} (f : Bool × ℤ → Handler B) (x : Result GraphError (Bool × ℤ) × World)
      → ((found : Bool × ℤ) → x.0 ≡ ok found → found.0 ≡ true)
      → ((price : ℤ) → Preserves P (f (true, price)))
      → Holds P x.1
      → Holds P
          (elim x.0 as (λ _. Result GraphError B × World) [
            | ok a ↦ f a x.1
            | err e ↦ (err e, x.1)
          ]).1
  bought_continued f (ok (b, price), w) told k h = rw (told (b, price) refl) ((k price).at w h)
  bought_continued f (err e, w) told k h = h

  -- After a read of the showing it is known that it is bought.
  bought-Preserves :
      {B : Type 0} (e : GraphError) (f : Bool × ℤ → Handler B)
      → ((price : ℤ) → Preserves P (f (true, price)))
      → Preserves P (or_return (exec pool (showing_tickets_bought id)) e >>= f)
  unfolding ◌>>=◌
  bought-Preserves e f k = record {
    at = λ w h.
        bought_continued f (or_return (exec pool (showing_tickets_bought id)) e w)
          (λ found told. read_bought e w found h.0.0 told) k
          ((or_return-Preserves P (exec pool (showing_tickets_bought id)) e (
              exec-Preserves P pool (showing_tickets_bought id)
                (showing_tickets_bought-Keeps P id))).at
            w h);
  }

  refused-Preserves :
      {B : Type 0} (e : GraphError) (m : Handler B) → Preserves P (raise_if true e >> m)
  unfolding raise_if raise ◌>>=◌
  refused-Preserves e m = record { at = λ w h. h }

  attend_closed : (me : Uuid) (option : PaymentOption) → Preserves P (attend_showing me id option)
  unfolding attend_showing
  attend_closed me option = bought-Preserves _ _ λ price. refused-Preserves _ _

  attend_showing-Preserves :
      (me i : Uuid) (option : PaymentOption) → Preserves P (attend_showing me i option)
  attend_showing-Preserves me i option = elim (Bool-cases (nat_eq i id)) [
    | inl same ↦
        subst (λ j. Preserves P (attend_showing me j option)) (sym ((nat_eq_iff i id).0 same))
          (attend_closed me option)
    | inr other ↦ Preserving.attend_showing-Preserves statements me i option other
  ]

  -- From tables, and an open transaction if there is one, in which a showing is bought and attended
  -- by members only, every history of requests whose new showings get other identifiers leaves it
  -- bought, under the same admin and attended by members only, or deleted, whatever each request
  -- returns and whichever calls to the database fail.
  pub serve_all-IsClosed :
      (history : List (Env × Mutation)) (w : World)
      → All (λ (r : Env × Mutation). nat_eq r.0.new_uuid id ≡ false) history
      → Holds (IsClosed id admin members) w
      → Holds (IsClosed id admin members) (serve_all history w)
  unfolding serve_all
  serve_all-IsClosed [] w others h = h
  serve_all-IsClosed ((env, m) ∷ rest) w others h =
      serve_all-IsClosed rest (serve env m w) others.1
        (serve-Holds statements env others.0 m w attend_showing-Preserves h)
