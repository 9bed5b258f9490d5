-- ===== src/Dao/Consistency/Showings.antt =====
-- The statements on the table `showings` keep the constraints.
use filmstund.Base.{
  ◌≡◌, refl, ap₂, Bool, true, false, ◌&&◌, not, List, [], ◌∷◌, ◌++◌, map, any, nat_eq, list_eq,
  ◌==◌, ids, texts, if◌then◌else◌, arith, leb, Bool-cases, inl, inr, select,
}
use filmstund.Base.Int.{pos, leb_ℤ}
use filmstund.Base.Keys.{
  DistinctBy-snoc, DistinctBy-map, DistinctBy-select, any-map_kept, any-snoc_true, any-select_kept,
  All-snoc, All-map_update, All-select, All-select_mono, All-mono,
}
use filmstund.Base.Text.{char_length}
use filmstund.Database.{Uuid, Showing, Attendee, Ticket, Db}
use filmstund.Dao.Showings.{
  has_user, has_movie, has_screen, has_showing, AddShowingParams, new_showing, add_showing,
  delete_showing, update_where, MarkShowingAsBoughtParams, to_mark, marked, mark_showing_as_bought,
  PromoteNewUserToShowingAdminParams, to_promote, promoted, promote_new_user_to_showing_admin,
  UpdateShowingParams, to_update, updated, update_showing,
}
use filmstund.Dao.Consistency.{
  IsConsistent, ShowingFits, AttendeeFits, TicketFits, same_showing, same_web_id, same_attendee,
  same_certificate, same_ticket,
}
use filmstund.Dao.Consistency.Rules.{Keeps, checked}

-- An update that keeps the keys and the constraints of each row.
module _ (db : Db) (g : Showing → Showing) (same_id : (s : Showing) → (g s).id ≡ s.id)
    (same_web : (s : Showing) → (g s).web_id ≡ s.web_id)
    (fits : (s : Showing) → ShowingFits db s → ShowingFits db (g s)) where
  abbrev after_update : Db
  after_update = record db { showings = map g db.showings }

  still_there : (i : Uuid) → has_showing i after_update ≡ has_showing i db
  still_there i =
      any-map_kept (λ (s : Showing). s.id == i) g db.showings (λ s. ap₂ nat_eq (same_id s) refl)

  update-IsConsistent : IsConsistent db → IsConsistent after_update
  update-IsConsistent c = record {
    showing_pk =
        DistinctBy-map same_showing g db.showings (λ s t. ap₂ nat_eq (same_id s) (same_id t))
          c.showing_pk;
    showing_webid_uniq =
        DistinctBy-map same_web_id g db.showings (λ s t. ap₂ list_eq (same_web s) (same_web t))
          c.showing_webid_uniq;
    showings_fit = All-map_update (ShowingFits after_update) g db.showings fits c.showings_fit;
    attendee_pk = c.attendee_pk;
    attendee_giftcert_unique = c.attendee_giftcert_unique;
    attendees_fit =
        All-mono (AttendeeFits db) (AttendeeFits after_update) db.attendees
          (λ a h. (h.0, rw (still_there a.showing_id) h.1, h.2)) c.attendees_fit;
    ticket_pk = c.ticket_pk;
    tickets_fit =
        All-mono (TicketFits db) (TicketFits after_update) db.tickets
          (λ t h. (h.0, h.1, rw (still_there t.showing_id) h.2, h.3)) c.tickets_fit;
    cinema_screen_pk = c.cinema_screen_pk;
  }

update_none :
    (p : Showing → Bool) (f : Showing → Showing) (ss : List Showing)
    → any p ss ≡ false
    → update_where p f ss ≡ ss
unfolding update_where
update_none p f [] h = refl
update_none p f (s ∷ ss) h = ground (arith, update_none p f ss)

-- An `UPDATE` whose new values are legal, or that finds no row.
update_where-IsConsistent :
    (p : Showing → Bool) (f : Showing → Showing) (db : Db)
    → ((s : Showing) → (f s).id ≡ s.id)
    → ((s : Showing) → (f s).web_id ≡ s.web_id)
    → (any p db.showings ≡ true → (s : Showing) → ShowingFits db s → ShowingFits db (f s))
    → IsConsistent db
    → IsConsistent (record db { showings = update_where p f db.showings })
update_where-IsConsistent p f db i w fits c = elim (Bool-cases (any p db.showings)) [
  | inl found ↦
      unfold update_where in
      update-IsConsistent db (λ s. if p s then f s else s) (λ s. ground (arith, i s))
        (λ s. ground (arith, w s)) (λ s h. if_fits (p s) s (fits found s h) h) c
  | inr none_there ↦ rw (update_none p f db.showings none_there) c
]
  where
    if_fits :
        (b : Bool) (s : Showing)
        → ShowingFits db (f s)
        → ShowingFits db s
        → ShowingFits db (if b then f s else s)
    if_fits true s h k = h
    if_fits false s h k = k

pub mark_showing_as_bought-Keeps :
    (p : MarkShowingAsBoughtParams) → Keeps IsConsistent (mark_showing_as_bought p)
unfolding mark_showing_as_bought
mark_showing_as_bought-Keeps p = record {
  at = λ now db c.
      checked IsConsistent (any (to_mark p) db.showings && not (leb_ℤ (pos 0) p.price)) _ _ λ fair.
        update_where-IsConsistent (to_mark p) (marked p.price now) db (λ s. refl) (λ s. refl)
          (λ found s h. (h.0, ground arith, h.2, h.3, h.4, h.5, h.6)) c;
}

pub promote_new_user_to_showing_admin-Keeps :
    (p : PromoteNewUserToShowingAdminParams)
    → Keeps IsConsistent (promote_new_user_to_showing_admin p)
unfolding promote_new_user_to_showing_admin
promote_new_user_to_showing_admin-Keeps p = record {
  at = λ now db c.
      checked IsConsistent (any (to_promote p) db.showings && not (has_user p.new_admin_id db)) _ _
        λ fair.
          update_where-IsConsistent (to_promote p) (promoted p.new_admin_id now) db (λ s. refl)
            (λ s. refl) (λ found s h. (h.0, h.1, h.2, h.3, ground arith, ground arith, h.6)) c;
}

pub update_showing-Keeps : (p : UpdateShowingParams) → Keeps IsConsistent (update_showing p)
unfolding update_showing
update_showing-Keeps p = record {
  at = λ now db c.
      checked IsConsistent (any (to_update p) db.showings && not (leb_ℤ (pos 0) p.price)) _ _
        λ fair.
          checked IsConsistent
            (any (to_update p) db.showings
              && not (has_user p.pay_to_user db && has_screen p.cinema_screen_id db.cinema_screens))
            _ _
            λ known.
              update_where-IsConsistent (to_update p) (updated p now) db (λ s. refl) (λ s. refl)
                (λ found s h. (h.0, ground arith, h.2, ground arith, h.4, ground arith, h.6)) c;
}

-- A new row whose keys are new and whose references are known.
module _ (db : Db) (s : Showing) (new_id : any (λ (t : Showing). t.id == s.id) db.showings ≡ false)
    (new_web : any (λ (t : Showing). t.web_id == s.web_id) db.showings ≡ false)
    (fits : ShowingFits db s) where
  abbrev with_showing : Db
  with_showing = record db { showings = db.showings ++ s ∷ [] }

  more_showings : (i : Uuid) → has_showing i db ≡ true → has_showing i with_showing ≡ true
  more_showings i = any-snoc_true (λ (t : Showing). t.id == i) db.showings s

  with_showing-IsConsistent : IsConsistent db → IsConsistent with_showing
  with_showing-IsConsistent c = record {
    showing_pk = DistinctBy-snoc same_showing db.showings s c.showing_pk new_id;
    showing_webid_uniq = DistinctBy-snoc same_web_id db.showings s c.showing_webid_uniq new_web;
    showings_fit = All-snoc (ShowingFits with_showing) db.showings s c.showings_fit fits;
    attendee_pk = c.attendee_pk;
    attendee_giftcert_unique = c.attendee_giftcert_unique;
    attendees_fit =
        All-mono (AttendeeFits db) (AttendeeFits with_showing) db.attendees
          (λ a h. (h.0, more_showings a.showing_id h.1, h.2)) c.attendees_fit;
    ticket_pk = c.ticket_pk;
    tickets_fit =
        All-mono (TicketFits db) (TicketFits with_showing) db.tickets
          (λ t h. (h.0, h.1, more_showings t.showing_id h.2, h.3)) c.tickets_fit;
    cinema_screen_pk = c.cinema_screen_pk;
  }

pub add_showing-Keeps : (p : AddShowingParams) → Keeps IsConsistent (add_showing p)
unfolding add_showing
add_showing-Keeps p = record {
  at = λ now db c.
      checked IsConsistent (not (char_length p.web_id == 10 && leb 2 (char_length p.slug))) _ _
        λ sized.
          checked IsConsistent (any (λ (s : Showing). s.id == p.id) db.showings) _ _ λ new_id.
            checked IsConsistent (any (λ (s : Showing). s.web_id == p.web_id) db.showings) _ _
              λ new_web.
                checked IsConsistent
                  (not (
                    has_movie p.movie_id db
                    && (has_screen p.cinema_screen_id db.cinema_screens
                        && (has_user p.admin db && has_user p.pay_to_user db))))
                  _ _
                  λ known.
                    with_showing-IsConsistent db (new_showing p now) new_id new_web
                      (
                        ground arith,
                        omega arith,
                        ground arith,
                        ground arith,
                        ground arith,
                        ground arith,
                        ground arith,
                      )
                      c;
}

-- A showing goes with its attendees and tickets.
module _ (db : Db) (i : Uuid) where
  abbrev without : Db
  without = record db {
    showings = select (λ (s : Showing). not (s.id == i)) db.showings;
    attendees = select (λ (a : Attendee). not (a.showing_id == i)) db.attendees;
    tickets = select (λ (t : Ticket). not (t.showing_id == i)) db.tickets;
  }

  others_stay :
      (j : Uuid) → not (j == i) ≡ true → has_showing j db ≡ true → has_showing j without ≡ true
  others_stay j other =
      any-select_kept (λ (s : Showing). s.id == j) (λ (s : Showing). not (s.id == i)) db.showings
        (λ s h. ground arith)

  without-IsConsistent : IsConsistent db → IsConsistent without
  without-IsConsistent c = record {
    showing_pk = DistinctBy-select same_showing _ db.showings c.showing_pk;
    showing_webid_uniq = DistinctBy-select same_web_id _ db.showings c.showing_webid_uniq;
    showings_fit = All-select (ShowingFits without) _ db.showings c.showings_fit;
    attendee_pk = DistinctBy-select same_attendee _ db.attendees c.attendee_pk;
    attendee_giftcert_unique =
        DistinctBy-select same_certificate _ db.attendees c.attendee_giftcert_unique;
    attendees_fit =
        All-select_mono (AttendeeFits db) (AttendeeFits without) _ db.attendees
          (λ a kept h. (h.0, others_stay a.showing_id kept h.1, h.2)) c.attendees_fit;
    ticket_pk = DistinctBy-select same_ticket _ db.tickets c.ticket_pk;
    tickets_fit =
        All-select_mono (TicketFits db) (TicketFits without) _ db.tickets
          (λ t kept h. (h.0, h.1, others_stay t.showing_id kept h.2, h.3)) c.tickets_fit;
    cinema_screen_pk = c.cinema_screen_pk;
  }

pub delete_showing-Keeps : (i : Uuid) → Keeps IsConsistent (delete_showing i)
unfolding delete_showing
delete_showing-Keeps i = record { at = λ now db c. without-IsConsistent db i c }
