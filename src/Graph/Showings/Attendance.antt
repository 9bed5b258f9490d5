-- ===== src/Graph/Showings/Attendance.antt =====
-- `AttendShowing` and `UnattendShowing` (internal/graph/showing.resolvers.go) on every branch, and
-- that one undoes the other.
use mathlib.Core.List.{append-nil}
use filmstund.Base.{
  ℕ, ◌+◌, ◌≡◌, refl, ◌∙◌, Bool, true, false, not, none, some, List, [], ◌∷◌, ◌++◌, any, find, count,
  select-append, select_of_none, count_of_none, ◌==◌, ids, arith, ◌⊎◌, inl, inr, Option, Bool-cases,
}
use filmstund.Base.Int.{ℤ, pos}
use filmstund.Base.Text.{Text, bytes}
use filmstund.Database.{
  Uuid, Db, Showing, Attendee, DbError, ok, err, unique_violation, foreign_key_violation, pure,
}
use filmstund.Database.Execution.{reachable, pool-run, pool-fails, raise_if-passes, raise_if-stops}
use filmstund.Dao.Showings
use filmstund.Dao.Showings.{has_user, has_showing, showing_by_id}
use filmstund.Dao.Attendees.{
  AddAttendeeParams, new_attendee, add_attendee, delete_attendee, is_attendee, certificate_taken,
  has_certificate,
}
use filmstund.Dao.Tickets.{showing_tickets_bought}
use filmstund.Graph.Model.{
  PaymentType, swish, gift_certificate, PaymentOption, GraphError, type_name, showing_model,
  already_bought_on_attend, add_attendee_failed, not_an_attendee,
}
use filmstund.Graph.Showings.{attend_showing, unattend_showing, showing, owed, paid_by}

-- What `AttendShowing` inserts for a showing with this price.
abbrev pub attendance : Uuid → Uuid → PaymentOption → ℤ → AddAttendeeParams
attendance me id option price = record {
  user_id = me;
  showing_id = id;
  attendee_type = type_name option.kind;
  has_paid = paid_by option.kind;
  amount_owed = owed option.kind price;
  gift_certificate_used = option.ticket_number;
}

-- The tables with the new attendee.
abbrev pub attended : Uuid → Uuid → PaymentOption → ℤ → ℕ → Db → Db
attended me id option price now db = record db {
  attendees = db.attendees ++ new_attendee (attendance me id option price) now ∷ [];
}

-- What lets a user attend: the showing is there and not bought, the user is known and no attendee
-- yet, and the gift certificate, if any, is the user's own and not used.
pub record MayAttend (me id : Uuid) (option : PaymentOption) (db : Db) (s : Showing) : Type 0 where
  pub found : find (λ (t : Showing). t.id == id) db.showings ≡ some s
  pub not_bought : s.tickets_bought ≡ false
  pub is_new : any (is_attendee me id) db.attendees ≡ false
  pub known : has_user me db ≡ true
  pub unused : certificate_taken option.ticket_number db.attendees ≡ false
  pub owned : has_certificate me option.ticket_number db.gift_certificates ≡ true

any_of_find :
    (p : Showing → Bool) (ss : List Showing) (s : Showing) → find p ss ≡ some s → any p ss ≡ true
any_of_find p [] s h = cc
any_of_find p (t ∷ ss) s h = ground (arith, any_of_find p ss s)

add_accepts :
    (me id : Uuid) (option : PaymentOption) (db : Db) (s : Showing) (now : ℕ)
    → MayAttend me id option db s
    → add_attendee (attendance me id option s.price) now db
      ≡ ok (tt, attended me id option s.price now db)
unfolding add_attendee
add_accepts me id option db s now h =
    rw
      (
        h.is_new,
        h.unused,
        h.known,
        any_of_find (λ (t : Showing). t.id == id) db.showings s h.found,
        h.owned,
      )
      refl

bought_read :
    (id : Uuid) (db : Db) (now : ℕ) {s : Showing}
    → find (λ (t : Showing). t.id == id) db.showings ≡ some s
    → showing_tickets_bought id now db ≡ ok ((s.tickets_bought, s.price), db)
unfolding showing_tickets_bought
bought_read id db now h = rw (h, Showings.one)

showing_read :
    (id : Uuid) (db : Db) (now : ℕ) {s : Showing}
    → find (λ (t : Showing). t.id == id) db.showings ≡ some s
    → showing (some id) none (reachable db now) ≡ (ok (showing_model s), reachable db now)
unfolding showing showing_by_id pure
showing_read id db now {s} h = pool-run _ _ _ db db now s (rw (h, Showings.one))

attend_showing-attended :
    (me id : Uuid) (option : PaymentOption) (db : Db) (s : Showing) (now : ℕ)
    → MayAttend me id option db s
    → attend_showing me id option (reachable db now)
      ≡ (ok (showing_model s), reachable (attended me id option s.price now db) now)
unfolding attend_showing
attend_showing-attended me id option db s now h =
    pool-run _ _ _ db db now _ (bought_read id db now h.found)
    ∙ raise_if-passes s.tickets_bought _ _ _ h.not_bought
    ∙ pool-run _ _ _ db _ now _ (add_accepts me id option db s now h)
    ∙ showing_read id (attended me id option s.price now db) now h.found

-- The debt of a new attendee for a showing with this price.
abbrev pub Charges : PaymentType → ℤ → Attendee → Type 0
Charges swish price a =
    (a.attendee_type ≡ bytes "SWISH") × (a.has_paid ≡ false) × (a.amount_owed ≡ price)
Charges gift_certificate price a =
    (a.attendee_type ≡ bytes "GIFT_CERTIFICATE") × (a.has_paid ≡ true) × (a.amount_owed ≡ pos 0)

charged :
    (me id : Uuid) (kind : PaymentType) (number : Option Text) (price : ℤ) (now : ℕ)
    → Charges kind price
        (new_attendee (attendance me id (record { kind = kind; ticket_number = number }) price) now)
unfolding new_attendee type_name
charged me id swish number price now = (refl, refl, refl)
charged me id gift_certificate number price now = (refl, refl, refl)

-- The attendee that `a` is: of this user and this showing, with this means of payment.
abbrev pub IsNew : Uuid → Uuid → PaymentOption → ℕ → Attendee → Type 0
IsNew me id option now a =
    (a.user_id ≡ me)
    × (a.showing_id ≡ id)
    × (a.gift_certificate_used ≡ option.ticket_number)
    × (a.create_time ≡ now)

-- Nobody attends a showing that is bought: where no call to the server fails, the request is
-- refused for that reason, and nothing changes.
attend_showing-refused :
    (me id : Uuid) (option : PaymentOption) (db : Db) (s : Showing) (now : ℕ)
    → find (λ (t : Showing). t.id == id) db.showings ≡ some s
    → s.tickets_bought ≡ true
    → attend_showing me id option (reachable db now)
      ≡ (err already_bought_on_attend, reachable db now)
unfolding attend_showing
attend_showing-refused me id option db s now found bought =
    pool-run _ _ _ db db now _ (bought_read id db now found)
    ∙ raise_if-stops s.tickets_bought _ _ _ bought

add_refuses :
    (p : AddAttendeeParams) (db : Db) (now : ℕ)
    → any (is_attendee p.user_id p.showing_id) db.attendees ≡ true
    → add_attendee p now db ≡ err unique_violation
unfolding add_attendee
add_refuses p db now there = rw there

-- Whoever attends a showing that is not bought cannot attend it again: where no call to the server
-- fails, the request is refused by the insertion, and nothing changes.
attend_showing-twice :
    (me id : Uuid) (option : PaymentOption) (db : Db) (s : Showing) (now : ℕ)
    → find (λ (t : Showing). t.id == id) db.showings ≡ some s
    → s.tickets_bought ≡ false
    → any (is_attendee me id) db.attendees ≡ true
    → attend_showing me id option (reachable db now) ≡ (err add_attendee_failed, reachable db now)
unfolding attend_showing
attend_showing-twice me id option db s now found not_bought there =
    pool-run _ _ _ db db now _ (bought_read id db now found)
    ∙ raise_if-passes s.tickets_bought _ _ _ not_bought
    ∙ pool-fails _ _ _ db now unique_violation
        (add_refuses (attendance me id option s.price) db now there)

attend_showing-not_added :
    (me id : Uuid) (option : PaymentOption) (db : Db) (s : Showing) (now : ℕ) (d : DbError)
    → find (λ (t : Showing). t.id == id) db.showings ≡ some s
    → s.tickets_bought ≡ false
    → add_attendee (attendance me id option s.price) now db ≡ err d
    → attend_showing me id option (reachable db now) ≡ (err add_attendee_failed, reachable db now)
unfolding attend_showing
attend_showing-not_added me id option db s now d found not_bought refusal =
    pool-run _ _ _ db db now _ (bought_read id db now found)
    ∙ raise_if-passes s.tickets_bought _ _ _ not_bought
    ∙ pool-fails _ _ _ db now d refusal

abbrev Refusal : Uuid → Uuid → PaymentOption → Db → Showing → ℕ → Type 0
Refusal me id option db s now =
    (cannot : ¬ (MayAttend me id option db s)) × (d : DbError) × (add_attendee
        (attendance me id option s.price) now db
      ≡ err d)

add_decides :
    (me id : Uuid) (option : PaymentOption) (db : Db) (s : Showing) (now : ℕ)
    → find (λ (t : Showing). t.id == id) db.showings ≡ some s
    → s.tickets_bought ≡ false
    → MayAttend me id option db s ⊎ Refusal me id option db s now
unfolding add_attendee
add_decides me id option db s now found not_bought =
    elim (Bool-cases (any (is_attendee me id) db.attendees)) [
      | inl there ↦ inr (λ h. ground (arith, there, h.is_new), unique_violation, rw there refl)
      | inr is_new ↦ elim (Bool-cases (certificate_taken option.ticket_number db.attendees)) [
        | inl taken ↦
            inr (λ h. ground (arith, taken, h.unused), unique_violation, rw (is_new, taken) refl)
        | inr unused ↦ elim (Bool-cases (has_user me db)) [
          | inr unknown ↦ inr (
            λ h. ground (arith, unknown, h.known),
            foreign_key_violation,
            rw (is_new, unused, unknown) refl,
          )
          | inl known ↦
              elim (Bool-cases (has_certificate me option.ticket_number db.gift_certificates)) [
                | inr foreign ↦ inr (
                  λ h. ground (arith, foreign, h.owned),
                  foreign_key_violation,
                  rw
                      (
                        is_new,
                        unused,
                        known,
                        any_of_find (λ (t : Showing). t.id == id) db.showings s found,
                        foreign,
                      )
                      refl,
                )
                | inl owned ↦ inl (record {
                  found = found;
                  not_bought = not_bought;
                  is_new = is_new;
                  known = known;
                  unused = unused;
                  owned = owned;
                })
              ]
        ]
      ]
    ]

-- For a showing that is there, and where no call to the server fails: a user who may attend
-- becomes an attendee, one who pays by Swish owes the price and has not paid, one who pays by
-- gift certificate has paid and owes nothing, the showing comes back, and no other row changes;
-- if the user may not attend, the request is refused and nothing changes.
pub attend_showing-decides :
    (me id : Uuid) (option : PaymentOption) (db : Db) (s : Showing) (now : ℕ)
    → find (λ (t : Showing). t.id == id) db.showings ≡ some s
    → ((may : MayAttend me id option db s) × (a : Attendee) × (attend_showing me id option
            (reachable db now)
          ≡ (
            ok (showing_model s),
            reachable (record db { attendees = db.attendees ++ a ∷ [] }) now,
          ))
        × Charges option.kind s.price a
        × IsNew me id option now a)
      ⊎ ((cannot : ¬ (MayAttend me id option db s)) × (e : GraphError) × (attend_showing me id
              option
              (reachable db now)
            ≡ (err e, reachable db now)))
unfolding new_attendee
attend_showing-decides me id option db s now found = elim (Bool-cases s.tickets_bought) [
  | inl bought ↦ inr (
    λ h. ground (arith, bought, h.not_bought),
    already_bought_on_attend,
    attend_showing-refused me id option db s now found bought,
  )
  | inr not_bought ↦ elim (add_decides me id option db s now found not_bought) [
    | inl may ↦ inl (
      may,
      new_attendee (attendance me id option s.price) now,
      attend_showing-attended me id option db s now may,
      charged me id option.kind option.ticket_number s.price now,
      (refl, refl, refl, refl),
    )
    | inr (cannot, d, refusal) ↦ inr (
      cannot,
      add_attendee_failed,
      attend_showing-not_added me id option db s now d found not_bought refusal,
    )
  ]
]

count-append :
    (p : Attendee → Bool) (xs ys : List Attendee) → count p (xs ++ ys) ≡ count p xs + count p ys
count-append p [] ys = omega arith
count-append p (x ∷ xs) ys = ground (arith, count-append p xs ys)

new_is_attendee :
    (me id : Uuid) (p : AddAttendeeParams) (now : ℕ)
    → p.user_id ≡ me
    → p.showing_id ≡ id
    → is_attendee me id (new_attendee p now) ≡ true
unfolding new_attendee
new_is_attendee me id p now u s = ground arith

delete_last :
    (me id : Uuid) (option : PaymentOption) (price : ℤ) (now : ℕ) (db : Db)
    → any (is_attendee me id) db.attendees ≡ false
    → delete_attendee me id now (attended me id option price now db) ≡ ok (1, db)
unfolding delete_attendee new_attendee
delete_last me id option price now db is_new =
    rw
      (
        count-append (is_attendee me id) db.attendees _,
        select-append (λ a. not (is_attendee me id a)) db.attendees _,
        count_of_none (is_attendee me id) db.attendees is_new,
        select_of_none (is_attendee me id) db.attendees is_new,
      )
      (rw (new_is_attendee me id (attendance me id option price) now refl refl, append-nil))

-- Where no call to the server fails, a user who may attend, attends and then unattends gets the
-- showing, and the tables are as they were.
pub attend_then_unattend :
    (me id : Uuid) (option : PaymentOption) (db : Db) (s : Showing) (now : ℕ)
    → MayAttend me id option db s
    → unattend_showing me id (attend_showing me id option (reachable db now)).1
      ≡ (ok (showing_model s), reachable db now)
unfolding unattend_showing
attend_then_unattend me id option db s now h =
    rw (attend_showing-attended me id option db s now h) (
      pool-run _ _ _ _ db now 1 (delete_last me id option s.price now db h.is_new)
      ∙ raise_if-passes false _ _ _ refl
      ∙ showing_read id db now h.found)

delete_nobody :
    (me id : Uuid) (now : ℕ) (db : Db)
    → any (is_attendee me id) db.attendees ≡ false
    → delete_attendee me id now db ≡ ok (0, db)
unfolding delete_attendee
delete_nobody me id now db absent =
    rw
      (
        count_of_none (is_attendee me id) db.attendees absent,
        select_of_none (is_attendee me id) db.attendees absent,
      )
      refl

-- Who does not attend cannot unattend: where no call to the server fails, the request is refused for
-- that reason, and nothing changes.
pub unattend_showing-refused :
    (me id : Uuid) (db : Db) (now : ℕ)
    → any (is_attendee me id) db.attendees ≡ false
    → unattend_showing me id (reachable db now) ≡ (err not_an_attendee, reachable db now)
unfolding unattend_showing
unattend_showing-refused me id db now absent =
    pool-run _ _ _ db db now 0 (delete_nobody me id now db absent) ∙ raise_if-stops true _ _ _ refl
