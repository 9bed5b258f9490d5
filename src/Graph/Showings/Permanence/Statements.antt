-- ===== src/Graph/Showings/Permanence/Statements.antt =====
-- The statements behind internal/graph/showing.resolvers.go keep a showing that is bought.
use filmstund.Base.{
  ◌≡◌, refl, Bool, true, false, ◌&&◌, not, Option, List, All, any, nat_eq, ◌==◌, ids, texts,
  Bool-cases, inl, inr, if◌then◌else◌, leb, arith,
}
use filmstund.Base.Int.{ℤ, pos, leb_ℤ}
use filmstund.Base.Text.{char_length, Text}
use filmstund.Base.Keys.{All-snoc, All-map_update, All-select}
use filmstund.Database.{Uuid, Db, Showing, Attendee, CinemaScreen}
use filmstund.Dao.Showings
use filmstund.Dao.Showings.{
  AddShowingParams, new_showing, add_showing, delete_showing, to_mark, marked,
  MarkShowingAsBoughtParams, mark_showing_as_bought, to_promote, promoted,
  PromoteNewUserToShowingAdminParams, promote_new_user_to_showing_admin, to_update, updated,
  UpdateShowingParams, update_showing, has_user, has_movie, has_screen, has_showing,
}
use filmstund.Dao.Attendees
use filmstund.Dao.Attendees.{
  AddAttendeeParams, new_attendee, add_attendee, delete_attendee, is_attendee,
  mark_gc_attendees_as_having_paid, update_amount_owed_for_swish_attendees, certificate_taken,
  has_certificate,
}
use filmstund.Dao.CinemaScreens.{add_cinema_screen}
use filmstund.Dao.Consistency.Rules.{Keeps, checked}

module _ (id admin : Uuid) (members : Uuid → Bool) where
  -- A row of the showing is bought and has this admin.
  abbrev pub IsSettled : Showing → Type 0
  IsSettled s = (s.id == id && not (s.tickets_bought && s.admin == admin)) ≡ false

  -- Who attends the showing is one of the members.
  abbrev pub IsMember : Attendee → Type 0
  IsMember a = (a.showing_id == id && not (members a.user_id)) ≡ false

  abbrev pub IsClosed : Db → Type 0
  IsClosed db = All IsSettled db.showings × All IsMember db.attendees

  showings-IsClosed :
      (db : Db) (ss : List Showing)
      → All IsSettled ss
      → IsClosed db
      → IsClosed (record db { showings = ss })
  showings-IsClosed db ss k h = (k, h.1)

  attendees-IsClosed :
      (db : Db) (rows : List Attendee)
      → All IsMember rows
      → IsClosed db
      → IsClosed (record db { attendees = rows })
  attendees-IsClosed db rows k h = (h.0, k)

  pub add_showing-Keeps :
      (p : AddShowingParams) → nat_eq p.id id ≡ false → Keeps IsClosed (add_showing p)
  unfolding add_showing new_showing
  add_showing-Keeps p other = record {
    at = λ now db h.
        checked IsClosed (not (char_length p.web_id == 10 && leb 2 (char_length p.slug))) _ _ λ _.
          checked IsClosed (any (λ (s : Showing). s.id == p.id) db.showings) _ _ λ _.
            checked IsClosed (any (λ (s : Showing). s.web_id == p.web_id) db.showings) _ _ λ _.
              checked IsClosed
                (not (
                  has_movie p.movie_id db
                  && (has_screen p.cinema_screen_id db.cinema_screens
                      && (has_user p.admin db && has_user p.pay_to_user db))))
                _ _
                λ _.
                  showings-IsClosed db _
                    (All-snoc IsSettled db.showings (new_showing p now) h.0 (ground arith)) h;
  }

  pub delete_showing-Keeps : (i : Uuid) → Keeps IsClosed (delete_showing i)
  unfolding delete_showing
  delete_showing-Keeps i = record {
    at = λ now db h. (
      All-select IsSettled (λ (s : Showing). not (s.id == i)) db.showings h.0,
      All-select IsMember (λ (a : Attendee). not (a.showing_id == i)) db.attendees h.1,
    );
  }

  updated_rows :
      (p : Showing → Bool) (f : Showing → Showing) (ss : List Showing)
      → ((s : Showing) → p s ≡ true → IsSettled s → IsSettled (f s))
      → All IsSettled ss
      → All IsSettled (Showings.update_where p f ss)
  unfolding Showings.update_where
  updated_rows p f ss keep h =
      All-map_update IsSettled (λ s. if p s then f s else s) ss (λ s k. ground (arith, keep s)) h

  pub mark-Keeps : (p : MarkShowingAsBoughtParams) → Keeps IsClosed (mark_showing_as_bought p)
  unfolding mark_showing_as_bought
  mark-Keeps p = record {
    at = λ now db h.
        checked IsClosed (any (to_mark p) db.showings && not (leb_ℤ (pos 0) p.price)) _ _ λ _.
          showings-IsClosed db _
            (updated_rows (to_mark p) (marked p.price now) db.showings (λ s t k. ground arith) h.0)
            h;
  }

  pub promote-Keeps :
      (p : PromoteNewUserToShowingAdminParams)
      → Keeps IsClosed (promote_new_user_to_showing_admin p)
  unfolding promote_new_user_to_showing_admin
  promote-Keeps p = record {
    at = λ now db h.
        checked IsClosed (any (to_promote p) db.showings && not (has_user p.new_admin_id db)) _ _
          λ _.
            showings-IsClosed db _
              (updated_rows (to_promote p) (promoted p.new_admin_id now) db.showings
                (λ s t k. ground arith) h.0)
              h;
  }

  pub update-Keeps : (p : UpdateShowingParams) → Keeps IsClosed (update_showing p)
  unfolding update_showing
  update-Keeps p = record {
    at = λ now db h.
        checked IsClosed (any (to_update p) db.showings && not (leb_ℤ (pos 0) p.price)) _ _ λ _.
          checked IsClosed
            (any (to_update p) db.showings
              && not (has_user p.pay_to_user db && has_screen p.cinema_screen_id db.cinema_screens))
            _ _
            λ _.
              showings-IsClosed db _
                (updated_rows (to_update p) (updated p now) db.showings (λ s t k. k) h.0) h;
  }

  pub add_attendee-Keeps :
      (p : AddAttendeeParams) → nat_eq p.showing_id id ≡ false → Keeps IsClosed (add_attendee p)
  unfolding add_attendee new_attendee
  add_attendee-Keeps p other = record {
    at = λ now db h.
        checked IsClosed (any (is_attendee p.user_id p.showing_id) db.attendees) _ _ λ _.
          checked IsClosed (certificate_taken p.gift_certificate_used db.attendees) _ _ λ _.
            checked IsClosed
              (not (
                has_user p.user_id db
                && (has_showing p.showing_id db
                    && has_certificate p.user_id p.gift_certificate_used db.gift_certificates)))
              _ _
              λ _.
                attendees-IsClosed db _
                  (All-snoc IsMember db.attendees (new_attendee p now) h.1 (ground arith)) h;
  }

  pub delete_attendee-Keeps : (user showing : Uuid) → Keeps IsClosed (delete_attendee user showing)
  unfolding delete_attendee
  delete_attendee-Keeps user showing = record {
    at = λ now db h.
        (h.0, All-select IsMember (λ a. not (is_attendee user showing a)) db.attendees h.1);
  }

  paid_rows :
      (p : Attendee → Bool) (f : Attendee → Attendee) (rows : List Attendee)
      → ((a : Attendee) → (f a).user_id ≡ a.user_id)
      → ((a : Attendee) → (f a).showing_id ≡ a.showing_id)
      → All IsMember rows
      → All IsMember (Attendees.update_where p f rows)
  unfolding Attendees.update_where
  paid_rows p f rows u s h =
      All-map_update IsMember (λ a. if p a then f a else a) rows (λ a k. ground (arith, u a, s a)) h

  pub gc-Keeps : (me i : Uuid) → Keeps IsClosed (mark_gc_attendees_as_having_paid me i)
  unfolding mark_gc_attendees_as_having_paid
  gc-Keeps me i = record {
    at = λ now db h. (
      h.0,
      paid_rows (Attendees.pays_by_certificate me i db.showings) (Attendees.settled now)
          db.attendees (λ a. refl) (λ a. refl) h.1,
    );
  }

  pub swish-Keeps :
      (amount : ℤ) (me i : Uuid)
      → Keeps IsClosed (update_amount_owed_for_swish_attendees amount me i)
  unfolding update_amount_owed_for_swish_attendees
  swish-Keeps amount me i = record {
    at = λ now db h. (
      h.0,
      paid_rows (Attendees.pays_by_swish me i db.showings) (Attendees.owing amount now) db.attendees
          (λ a. refl) (λ a. refl) h.1,
    );
  }

  pub screen-Keeps : (c : Text) (name : Option Text) → Keeps IsClosed (add_cinema_screen c name)
  unfolding add_cinema_screen
  screen-Keeps c name = record {
    at = λ now db h. elim (Bool-cases (any (λ (x : CinemaScreen). x.id == c) db.cinema_screens)) [
      | inl there ↦ rw there h
      | inr absent ↦ rw absent h
    ];
  }
