-- ===== src/Graph/Showings/Authority.antt =====
-- Who is not the admin of a showing changes nothing of it: the `WHERE … admin = …` of the statements
-- behind `MarkAsBought`, `UpdateShowing` and `PromoteToAdmin` (internal/graph/showing.resolvers.go).
use filmstund.Base.{
  ◌≡◌, refl, ◌∙◌, Bool, true, false, ◌&&◌, Option, none, some, List, [], ◌∷◌, any, ◌==◌, ids, texts,
  sym, not, arith, Bool-cases, inl, inr,
}
use filmstund.Base.Int.{ℤ, pos, leb_ℤ}
use filmstund.Base.Text.{Text}
use filmstund.Database.{Uuid, World, pool, Db, Showing, Attendee, CinemaScreen}
use filmstund.Dao.Showings
use filmstund.Dao.Showings.{
  MarkShowingAsBoughtParams, has_user, has_screen, to_mark, marked, promoted, updated,
  mark_showing_as_bought, PromoteNewUserToShowingAdminParams, to_promote,
  promote_new_user_to_showing_admin, UpdateShowingParams, to_update, update_showing,
}
use filmstund.Dao.Attendees
use filmstund.Dao.Attendees.{
  is_admin_of, mark_gc_attendees_as_having_paid, update_amount_owed_for_swish_attendees,
}
use filmstund.Dao.CinemaScreens.{add_cinema_screen}
use filmstund.Dao.Consistency.Rules.{
  Preserves, Keeps, checked, preserve_rules, bind-Preserves, or_return-Preserves, exec-Preserves,
}
use filmstund.Dao.Consistency.Reads.{read_rules}
use filmstund.Graph.Model.{Env, UpdateShowingInput, SingleShow}
use filmstund.Graph.Showings.{
  showing, refuse_if_bought, mark_as_bought, update_screen_of, update_screen, update_showing_by_id,
  promote_to_admin, changes,
}

any_weaker :
    (p q : Showing → Bool) (ss : List Showing)
    → ((s : Showing) → p s ≡ true → q s ≡ true)
    → any q ss ≡ false
    → any p ss ≡ false
any_weaker p q [] imp h = refl
any_weaker p q (s ∷ ss) imp h = ground (arith, imp s, any_weaker p q ss imp)

same_showings :
    (p : Showing → Bool) (f : Showing → Showing) (ss : List Showing)
    → any p ss ≡ false
    → Showings.update_where p f ss ≡ ss
unfolding Showings.update_where
same_showings p f [] h = refl
same_showings p f (s ∷ ss) h = ground (arith, same_showings p f ss)

same_attendees :
    (p : Attendee → Bool) (f : Attendee → Attendee) (rows : List Attendee)
    → ((a : Attendee) → p a ≡ false)
    → Attendees.update_where p f rows ≡ rows
unfolding Attendees.update_where
same_attendees p f [] h = refl
same_attendees p f (a ∷ rows) h = ground (arith, h a, same_attendees p f rows h)

module _ (me id : Uuid) (ss : List Showing) (rows : List Attendee)
    (stranger : is_admin_of me id ss ≡ false) where
  -- The showings and the attendees are these.
  abbrev As : Db → Type 0
  As db = (db.showings ≡ ss) × (db.attendees ≡ rows)

  no_row :
      (p : Showing → Bool) (f : Showing → Showing) (db : Db)
      → ((s : Showing) → p s ≡ true → (s.id == id && s.admin == me) ≡ true)
      → As db
      → As (record db { showings = Showings.update_where p f db.showings })
  no_row p f db imp (e, a) = (
    rw e (same_showings p f ss (any_weaker p (λ s. s.id == id && s.admin == me) ss imp stranger)),
    a,
  )

  mark-Keeps :
      (price : ℤ)
      → Keeps As (mark_showing_as_bought (record { price = price; showing_id = id; admin_id = me }))
  unfolding mark_showing_as_bought
  mark-Keeps price =
      let p : MarkShowingAsBoughtParams = record {
        price = price;
        showing_id = id;
        admin_id = me;
      } in
      record {
        at = λ now db h.
            checked As (any (to_mark p) db.showings && not (leb_ℤ (pos 0) price)) _ _
              λ _. no_row (to_mark p) (marked price now) db (λ s k. ground arith) h;
      }

  promote-Keeps :
      (user : Uuid)
      → Keeps As (
          promote_new_user_to_showing_admin
            (record { new_admin_id = user; showing_id = id; admin_id = me }))
  unfolding promote_new_user_to_showing_admin
  promote-Keeps user =
      let p : PromoteNewUserToShowingAdminParams = record {
        new_admin_id = user;
        showing_id = id;
        admin_id = me;
      } in
      record {
        at = λ now db h.
            checked As (any (to_promote p) db.showings && not (has_user user db)) _ _
              λ _. no_row (to_promote p) (promoted user now) db (λ s k. ground arith) h;
      }

  update-Keeps :
      (p : UpdateShowingParams) → p.showing_id ≡ id → p.admin_id ≡ me → Keeps As (update_showing p)
  unfolding update_showing
  update-Keeps p i m = record {
    at = λ now db h.
        checked As (any (to_update p) db.showings && not (leb_ℤ (pos 0) p.price)) _ _ λ _.
          checked As
            (any (to_update p) db.showings
              && not (has_user p.pay_to_user db && has_screen p.cinema_screen_id db.cinema_screens))
            _ _ λ _. no_row (to_update p) (updated p now) db (λ s k. rw (sym i, sym m) k) h;
  }

  no_admin : (db : Db) → As db → is_admin_of me id db.showings ≡ false
  no_admin db (e, a) = rw e stranger

  gc-Keeps : Keeps As (mark_gc_attendees_as_having_paid me id)
  unfolding mark_gc_attendees_as_having_paid
  gc-Keeps = record {
    at = λ now db h. (
      h.0,
      same_attendees (Attendees.pays_by_certificate me id db.showings) (Attendees.settled now)
            db.attendees (λ a. ground (arith, no_admin db h))
          ∙ h.1,
    );
  }

  swish-Keeps : (amount : ℤ) → Keeps As (update_amount_owed_for_swish_attendees amount me id)
  unfolding update_amount_owed_for_swish_attendees
  swish-Keeps amount = record {
    at = λ now db h. (
      h.0,
      same_attendees (Attendees.pays_by_swish me id db.showings) (Attendees.owing amount now)
            db.attendees (λ a. ground (arith, no_admin db h))
          ∙ h.1,
    );
  }

  screen-Keeps : (c : Text) (name : Option Text) → Keeps As (add_cinema_screen c name)
  unfolding add_cinema_screen
  screen-Keeps c name = record {
    at = λ now db h. elim (Bool-cases (any (λ (x : CinemaScreen). x.id == c) db.cinema_screens)) [
      | inl there ↦ rw there h
      | inr absent ↦ rw absent h
    ];
  }

  showing-Preserves : Preserves As (showing (some id) none)
  unfolding showing
  showing-Preserves = search (preserve_rules, read_rules) depth 12

  refuse_if_bought-Preserves : (b : Bool) → Preserves As (refuse_if_bought b)
  refuse_if_bought-Preserves true = search preserve_rules depth 12
  refuse_if_bought-Preserves false = search preserve_rules depth 12

  mark_as_bought-Preserves : (price : ℤ) → Preserves As (mark_as_bought me id price)
  unfolding mark_as_bought
  mark_as_bought-Preserves price =
      search
        (
          preserve_rules, read_rules, mark-Keeps, gc-Keeps, swish-Keeps, refuse_if_bought-Preserves,
          showing-Preserves,
        )
        depth 20

  promote_to_admin-Preserves : (user : Uuid) → Preserves As (promote_to_admin me id user)
  unfolding promote_to_admin
  promote_to_admin-Preserves user =
      search (preserve_rules, promote-Keeps, showing-Preserves) depth 12

  update_screen_of-Preserves : (s : Option SingleShow) → Preserves As (update_screen_of s)
  unfolding update_screen_of
  update_screen_of-Preserves none = search preserve_rules depth 12
  update_screen_of-Preserves (some s) = search (preserve_rules, screen-Keeps) depth 12

  update_screen-Preserves : (env : Env) (c : Option Text) → Preserves As (update_screen env c)
  unfolding update_screen
  update_screen-Preserves env none = search preserve_rules depth 12
  update_screen-Preserves env (some c) = update_screen_of-Preserves (env.show c)

  update_showing_by_id-Preserves :
      (env : Env) (input : Option UpdateShowingInput)
      → env.me ≡ me
      → Preserves As (update_showing_by_id env id input)
  unfolding update_showing_by_id
  update_showing_by_id-Preserves env none mine = search preserve_rules depth 12
  update_showing_by_id-Preserves env (some input) mine =
      bind-Preserves As _ _ (update_screen-Preserves env input.filmstaden_remote_entity_id)
        λ screen.
          bind-Preserves As _ _
            (or_return-Preserves As _ _
              (exec-Preserves As pool _ (update-Keeps (changes env id input screen) refl mine)))
            λ _. showing-Preserves

-- What stays when a request that does not come from the admin is served, whatever it returns and
-- whichever calls to the database fail.
abbrev pub Unchanged : World → World → Type 0
Unchanged w w' = (w'.db.showings ≡ w.db.showings) × (w'.db.attendees ≡ w.db.attendees)

-- Requests to buy, to update or to promote that do not come from the showing's admin change no
-- showing and no attendee.
pub stranger-Unchanged :
    (env : Env) (id user : Uuid) (price : ℤ) (input : Option UpdateShowingInput) (w : World)
    → w.tx ≡ none
    → is_admin_of env.me id w.db.showings ≡ false
    → Unchanged w (mark_as_bought env.me id price w).1
      × Unchanged w (update_showing_by_id env id input w).1
      × Unchanged w (promote_to_admin env.me id user w).1
stranger-Unchanged env id user price input w closed stranger =
    let ss = w.db.showings in
    let rows = w.db.attendees in
    (
      ((mark_as_bought-Preserves env.me id ss rows stranger price).at w
          ((refl, refl), rw closed tt)).0,
      ((update_showing_by_id-Preserves env.me id ss rows stranger env input refl).at w
          ((refl, refl), rw closed tt)).0,
      ((promote_to_admin-Preserves env.me id ss rows stranger user).at w
          ((refl, refl), rw closed tt)).0,
    )
