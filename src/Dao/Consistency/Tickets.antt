-- ===== src/Dao/Consistency/Tickets.antt =====
-- The statements on the tables `tickets` and `cinema_screens` keep the constraints.
use filmstund.Base.{
  ◌≡◌, refl, true, false, ◌&&◌, not, Option, none, some, List, [], ◌∷◌, ◌++◌, any, Bool-cases, inl,
  inr, ◌==◌, ids, texts, arith,
}
use filmstund.Base.Int.{pos, leb_ℤ}
use filmstund.Base.Keys.{DistinctBy-snoc, All-snoc, All-mono, any-snoc_true}
use filmstund.Base.Text.{Text}
use filmstund.Database.{CinemaScreen, Ticket, Db}
use filmstund.Dao.Showings.{has_user, has_showing, has_screen}
use filmstund.Dao.Tickets.{AddTicketParams, new_ticket, add_ticket}
use filmstund.Dao.CinemaScreens.{add_cinema_screen}
use filmstund.Dao.Consistency.{IsConsistent, ShowingFits, TicketFits, same_ticket, same_screen}
use filmstund.Dao.Consistency.Rules.{Keeps, checked}

pub add_ticket-Keeps : (p : AddTicketParams) → Keeps IsConsistent (add_ticket p)
unfolding add_ticket
add_ticket-Keeps p = record {
  at = λ now db c.
      checked IsConsistent (not (leb_ℤ (pos 0) p.seat_row && leb_ℤ (pos 0) p.seat_number)) _ _
        λ seated. checked IsConsistent (any (λ (t : Ticket). t.id == p.id) db.tickets) _ _ λ new_id.
          checked IsConsistent (not (has_showing p.showing_id db && has_user p.assigned_to_user db))
            _ _
            λ known. record {
              showing_pk = c.showing_pk;
              showing_webid_uniq = c.showing_webid_uniq;
              showings_fit = c.showings_fit;
              attendee_pk = c.attendee_pk;
              attendee_giftcert_unique = c.attendee_giftcert_unique;
              attendees_fit = c.attendees_fit;
              ticket_pk =
                  DistinctBy-snoc same_ticket db.tickets (new_ticket p now) c.ticket_pk new_id;
              tickets_fit =
                  All-snoc (TicketFits db) db.tickets (new_ticket p now) c.tickets_fit
                    (ground arith, ground arith, ground arith, ground arith);
              cinema_screen_pk = c.cinema_screen_pk;
            };
}

more_screens :
    (g : Option Text) (screens : List CinemaScreen) (s : CinemaScreen)
    → has_screen g screens ≡ true
    → has_screen g (screens ++ s ∷ []) ≡ true
more_screens none screens s h = refl
more_screens (some n) screens s h = any-snoc_true (λ (x : CinemaScreen). x.id == n) screens s h

with_screen-IsConsistent :
    (db : Db) (s : CinemaScreen)
    → any (λ (x : CinemaScreen). x.id == s.id) db.cinema_screens ≡ false
    → IsConsistent db
    → IsConsistent (record db { cinema_screens = db.cinema_screens ++ s ∷ [] })
with_screen-IsConsistent db s new_id c = record {
  showing_pk = c.showing_pk;
  showing_webid_uniq = c.showing_webid_uniq;
  showings_fit =
      All-mono (ShowingFits db)
        (ShowingFits (record db { cinema_screens = db.cinema_screens ++ s ∷ [] })) db.showings
        (λ t h.
          (h.0, h.1, h.2, more_screens t.cinema_screen_id db.cinema_screens s h.3, h.4, h.5, h.6))
        c.showings_fit;
  attendee_pk = c.attendee_pk;
  attendee_giftcert_unique = c.attendee_giftcert_unique;
  attendees_fit = c.attendees_fit;
  ticket_pk = c.ticket_pk;
  tickets_fit = c.tickets_fit;
  cinema_screen_pk = DistinctBy-snoc same_screen db.cinema_screens s c.cinema_screen_pk new_id;
}

pub add_cinema_screen-Keeps :
    (id : Text) (name : Option Text) → Keeps IsConsistent (add_cinema_screen id name)
unfolding add_cinema_screen
add_cinema_screen-Keeps id name = record {
  at = λ now db c. elim (Bool-cases (any (λ (x : CinemaScreen). x.id == id) db.cinema_screens)) [
    | inl there ↦ rw there c
    | inr absent ↦
        rw absent (
          with_screen-IsConsistent db (record { id = id; name = name; create_time = now }) absent c)
  ];
}
