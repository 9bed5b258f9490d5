-- ===== src/Graph/Showings/Preserving.antt =====
-- What the statements behind internal/graph/showing.resolvers.go keep, its resolvers keep.
use filmstund.Base.{ℕ, Bool, true, false, Option, none, some}
use filmstund.Base.Int.{ℤ}
use filmstund.Base.Text.{Text}
use filmstund.Database.{Uuid, Db}
use filmstund.Dao.Showings.{
  AddShowingParams, add_showing, delete_showing, MarkShowingAsBoughtParams, mark_showing_as_bought,
  PromoteNewUserToShowingAdminParams, promote_new_user_to_showing_admin, UpdateShowingParams,
  update_showing,
}
use filmstund.Dao.Attendees.{
  AddAttendeeParams, add_attendee, delete_attendee, mark_gc_attendees_as_having_paid,
  update_amount_owed_for_swish_attendees,
}
use filmstund.Dao.CinemaScreens.{add_cinema_screen}
use filmstund.Dao.Consistency.Rules.{Keeps, Preserves, preserve_rules}
use filmstund.Dao.Consistency.Reads.{read_rules}
use filmstund.Graph.Model.{Env, PaymentOption, CreateShowingInput, UpdateShowingInput, SingleShow}
use filmstund.Graph.Showings.{
  showing, public_showings_after, attend_showing, unattend_showing, insert_screen, create_screen,
  create_showing, delete_showing_by_id, refuse_if_bought, mark_as_bought, update_screen_of,
  update_screen, update_showing_by_id, promote_to_admin,
}

-- `P` is kept by every statement, where showings and attendees are added to a showing with an
-- identifier that is `Open`.
pub record KeptByStatements (P : Db → Type 0) (Open : Uuid → Type 0) : Type 0 where
  pub adding : (p : AddShowingParams) → Open p.id → Keeps P (add_showing p)
  pub deleting : (id : Uuid) → Keeps P (delete_showing id)
  pub buying : (p : MarkShowingAsBoughtParams) → Keeps P (mark_showing_as_bought p)
  pub promoting :
      (p : PromoteNewUserToShowingAdminParams) → Keeps P (promote_new_user_to_showing_admin p)
  pub updating : (p : UpdateShowingParams) → Keeps P (update_showing p)
  pub joining : (p : AddAttendeeParams) → Open p.showing_id → Keeps P (add_attendee p)
  pub leaving : (me id : Uuid) → Keeps P (delete_attendee me id)
  pub settling : (me id : Uuid) → Keeps P (mark_gc_attendees_as_having_paid me id)
  pub charging :
      (price : ℤ) (me id : Uuid) → Keeps P (update_amount_owed_for_swish_attendees price me id)
  pub screening : (id : Text) (name : Option Text) → Keeps P (add_cinema_screen id name)

-- Reads and the calls that handlers are made of keep every `P`.
ruleset rules = (preserve_rules, read_rules)

module _ {P : Db → Type 0} {Open : Uuid → Type 0} (s : KeptByStatements P Open) where
  pub showing-Preserves : (id : Uuid) → Preserves P (showing (some id) none)
  unfolding showing
  showing-Preserves id = search rules depth 12

  public_showings_after-Preserves : (after : Option ℕ) → Preserves P (public_showings_after after)
  unfolding public_showings_after
  public_showings_after-Preserves after = search rules depth 12

  pub attend_showing-Preserves :
      (me id : Uuid) (option : PaymentOption) → Open id → Preserves P (attend_showing me id option)
  unfolding attend_showing
  attend_showing-Preserves me id option free =
      search (rules, s.joining, free, showing-Preserves) depth 20

  pub unattend_showing-Preserves : (me id : Uuid) → Preserves P (unattend_showing me id)
  unfolding unattend_showing
  unattend_showing-Preserves me id = search (rules, s.leaving, showing-Preserves) depth 12

  insert_screen-Preserves : (show : Option SingleShow) → Preserves P (insert_screen show)
  unfolding insert_screen
  insert_screen-Preserves none = search rules depth 12
  insert_screen-Preserves (some show) = search (rules, s.screening) depth 12

  create_screen-Preserves : (env : Env) (id : Option Text) → Preserves P (create_screen env id)
  unfolding create_screen
  create_screen-Preserves env none = search rules depth 12
  create_screen-Preserves env (some id) = insert_screen-Preserves (env.show id)

  pub create_showing-Preserves :
      (env : Env) (input : CreateShowingInput)
      → Open env.new_uuid
      → Preserves P (create_showing env input)
  unfolding create_showing
  create_showing-Preserves env input free =
      search (rules, create_screen-Preserves, s.adding, s.joining, free) depth 20

  pub delete_showing_by_id-Preserves : (id : Uuid) → Preserves P (delete_showing_by_id id)
  unfolding delete_showing_by_id
  delete_showing_by_id-Preserves id =
      search (rules, s.deleting, public_showings_after-Preserves) depth 12

  refuse_if_bought-Preserves : (b : Bool) → Preserves P (refuse_if_bought b)
  refuse_if_bought-Preserves true = search rules depth 12
  refuse_if_bought-Preserves false = search rules depth 12

  pub mark_as_bought-Preserves :
      (me id : Uuid) (price : ℤ) → Preserves P (mark_as_bought me id price)
  unfolding mark_as_bought
  mark_as_bought-Preserves me id price =
      search
        (rules, s.buying, s.settling, s.charging, refuse_if_bought-Preserves, showing-Preserves)
        depth 20

  update_screen_of-Preserves : (show : Option SingleShow) → Preserves P (update_screen_of show)
  unfolding update_screen_of
  update_screen_of-Preserves none = search rules depth 12
  update_screen_of-Preserves (some show) = search (rules, s.screening) depth 12

  update_screen-Preserves : (env : Env) (id : Option Text) → Preserves P (update_screen env id)
  unfolding update_screen
  update_screen-Preserves env none = search rules depth 12
  update_screen-Preserves env (some id) = update_screen_of-Preserves (env.show id)

  pub update_showing_by_id-Preserves :
      (env : Env) (id : Uuid) (input : Option UpdateShowingInput)
      → Preserves P (update_showing_by_id env id input)
  unfolding update_showing_by_id
  update_showing_by_id-Preserves env id none = search rules depth 12
  update_showing_by_id-Preserves env id (some input) =
      search (rules, s.updating, update_screen-Preserves, showing-Preserves) depth 12

  pub promote_to_admin-Preserves : (me id user : Uuid) → Preserves P (promote_to_admin me id user)
  unfolding promote_to_admin
  promote_to_admin-Preserves me id user = search (rules, s.promoting, showing-Preserves) depth 12
