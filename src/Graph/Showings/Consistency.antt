-- ===== src/Graph/Showings/Consistency.antt =====
-- Whatever is requested of internal/graph/showing.resolvers.go, and whichever calls to the database
-- fail, the constraints of the tables hold.
use filmstund.Base.{Option, List, [], ◌∷◌}
use filmstund.Base.Int.{ℤ}
use filmstund.Database.{Uuid, World, Db}
use filmstund.Dao.Consistency.{IsConsistent}
use filmstund.Dao.Consistency.Rules.{Preserves, Holds}
use filmstund.Dao.Consistency.Showings.{
  add_showing-Keeps, delete_showing-Keeps, mark_showing_as_bought-Keeps,
  promote_new_user_to_showing_admin-Keeps, update_showing-Keeps,
}
use filmstund.Dao.Consistency.Attendees.{
  add_attendee-Keeps, delete_attendee-Keeps, mark_gc_attendees_as_having_paid-Keeps,
  update_amount_owed_for_swish_attendees-Keeps,
}
use filmstund.Dao.Consistency.Tickets.{add_cinema_screen-Keeps}
use filmstund.Graph.Model.{Env, PaymentOption, CreateShowingInput, UpdateShowingInput}
use filmstund.Graph.Showings.{
  attend_showing, unattend_showing, create_showing, delete_showing_by_id, mark_as_bought,
  update_showing_by_id, promote_to_admin,
}
use filmstund.Graph.Showings.Preserving
use filmstund.Graph.Showings.Preserving.{KeptByStatements}

-- Showings and attendees may be added anywhere.
pub statements : KeptByStatements IsConsistent (λ id. Unit {0})
statements = record {
  adding = λ p any_id. add_showing-Keeps p;
  deleting = delete_showing-Keeps;
  buying = mark_showing_as_bought-Keeps;
  promoting = promote_new_user_to_showing_admin-Keeps;
  updating = update_showing-Keeps;
  joining = λ p any_id. add_attendee-Keeps p;
  leaving = delete_attendee-Keeps;
  settling = mark_gc_attendees_as_having_paid-Keeps;
  charging = update_amount_owed_for_swish_attendees-Keeps;
  screening = add_cinema_screen-Keeps;
}

-- The mutations of this file, as requests.
pub data Mutation : Type 0 where
  attend : Uuid → PaymentOption → Mutation
  unattend : Uuid → Mutation
  create : CreateShowingInput → Mutation
  delete : Uuid → Mutation
  buy : Uuid → ℤ → Mutation
  update : Uuid → Option UpdateShowingInput → Mutation
  promote : Uuid → Uuid → Mutation

-- The world after a mutation that `env` requests, whatever is returned.
unfoldable pub serve : Env → Mutation → World → World
serve env (attend id option) w = (attend_showing env.me id option w).1
serve env (unattend id) w = (unattend_showing env.me id w).1
serve env (create input) w = (create_showing env input w).1
serve env (delete id) w = (delete_showing_by_id id w).1
serve env (buy id price) w = (mark_as_bought env.me id price w).1
serve env (update id input) w = (update_showing_by_id env id input w).1
serve env (promote id user) w = (promote_to_admin env.me id user w).1

-- A request keeps what the statements keep, where it adds showings and attendees at open identifiers.
module _ {P : Db → Type 0} {Open : Uuid → Type 0} (s : KeptByStatements P Open) (env : Env)
    (fresh : Open env.new_uuid) where
  pub serve-Holds :
      (m : Mutation) (w : World)
      → ((me id : Uuid) (option : PaymentOption) → Preserves P (attend_showing me id option))
      → Holds P w
      → Holds P (serve env m w)
  unfolding serve
  serve-Holds (attend id option) w joins h = (joins env.me id option).at w h
  serve-Holds (unattend id) w joins h = (Preserving.unattend_showing-Preserves s env.me id).at w h
  serve-Holds (create input) w joins h =
      (Preserving.create_showing-Preserves s env input fresh).at w h
  serve-Holds (delete id) w joins h = (Preserving.delete_showing_by_id-Preserves s id).at w h
  serve-Holds (buy id price) w joins h =
      (Preserving.mark_as_bought-Preserves s env.me id price).at w h
  serve-Holds (update id input) w joins h =
      (Preserving.update_showing_by_id-Preserves s env id input).at w h
  serve-Holds (promote id user) w joins h =
      (Preserving.promote_to_admin-Preserves s env.me id user).at w h

-- A history of requests, each with the principal, the answers and the new UUID of its own.
unfoldable pub serve_all : List (Env × Mutation) → World → World
serve_all [] w = w
serve_all ((env, m) ∷ rest) w = serve_all rest (serve env m w)

-- From tables that satisfy the constraints of the migrations on showings, attendees, tickets and
-- cinema screens, except the lengths of varchar columns, and with no open transaction or one
-- whose view satisfies them, any history of the mutations of showing.resolvers.go leaves tables
-- that satisfy them, whatever each request returns and whichever calls to the database fail.
pub serve_all-IsConsistent :
    (history : List (Env × Mutation)) (w : World)
    → Holds IsConsistent w
    → Holds IsConsistent (serve_all history w)
unfolding serve_all
serve_all-IsConsistent [] w h = h
serve_all-IsConsistent ((env, m) ∷ rest) w h = serve_all-IsConsistent rest (serve env m w) (
    serve-Holds statements env tt m w
      (λ me id option. Preserving.attend_showing-Preserves statements me id option tt) h)
