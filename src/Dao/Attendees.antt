-- ===== src/Dao/Attendees.antt =====
-- internal/database/dao/attendees.sql.go, with the constraints on the table `attendees`.
use filmstund.Base.{
  ℕ, Bool, true, false, ◌&&◌, ◌||◌, not, Option, none, some, List, [], ◌∷◌, ◌++◌, map, any, find,
  select, count, ◌==◌, ids, texts, if◌then◌else◌, is_some,
}
use filmstund.Base.Int.{ℤ, pos}
use filmstund.Base.Text.{Text}
use filmstund.Database.{
  Uuid, User, Showing, Attendee, GiftCertificate, Movie, Db, DbError, unique_violation,
  foreign_key_violation, bad_scan, Result, ok, err, Statement,
}
use filmstund.Dao.Showings.{one, has_user, has_showing}

pub record AddAttendeeParams : Type 0 where
  pub user_id : Uuid
  pub showing_id : Uuid
  pub attendee_type : Text
  pub has_paid : Bool
  pub amount_owed : ℤ
  pub gift_certificate_used : Option Text

unfoldable pub new_attendee : AddAttendeeParams → ℕ → Attendee
new_attendee p now = record {
  user_id = p.user_id;
  showing_id = p.showing_id;
  attendee_type = p.attendee_type;
  has_paid = p.has_paid;
  amount_owed = p.amount_owed;
  gift_certificate_used = p.gift_certificate_used;
  update_time = now;
  create_time = now;
}

-- The row with this primary key.
abbrev pub is_attendee : Uuid → Uuid → Attendee → Bool
is_attendee user showing a = a.user_id == user && a.showing_id == showing

abbrev pub option_eq : Option Text → Text → Bool
option_eq none t = false
option_eq (some s) t = s == t

-- `attendee_giftcert_unique`: nulls do not clash.
abbrev pub certificate_taken : Option Text → List Attendee → Bool
certificate_taken none as' = false
certificate_taken (some n) as' = any (λ a. option_eq a.gift_certificate_used n) as'

abbrev pub has_certificate : Uuid → Option Text → List GiftCertificate → Bool
has_certificate user none gs = true
has_certificate user (some n) gs =
    any (λ (g : GiftCertificate). g.user_id == user && g.number == n) gs

unfoldable pub add_attendee : AddAttendeeParams → Statement (Unit {0})
unfolding new_attendee
add_attendee p now db =
    if any (is_attendee p.user_id p.showing_id) db.attendees
    then err unique_violation
    else if certificate_taken p.gift_certificate_used db.attendees
    then err unique_violation
    else if not (
        has_user p.user_id db
        && (has_showing p.showing_id db
            && has_certificate p.user_id p.gift_certificate_used db.gift_certificates))
    then err foreign_key_violation
    else ok (tt, record db { attendees = db.attendees ++ new_attendee p now ∷ [] })

-- A row of `Attendee` and of `ListAttendees`, which select the same columns.
pub record AttendeeRow : Type 0 where
  pub user_id : Uuid
  pub showing_id : Uuid
  pub has_paid : Bool
  pub amount_owed : ℤ
  pub attendee_type : Text
  pub gift_certificate_used : Option Text
  pub filmstaden_membership_id : Option Text
  pub gift_certificate_number : Option Text
  pub gift_certificate_expire_time : Option ℕ

-- What the left joins add to an attendee: nulls where nothing joins.
abbrev pub membership_of : Option User → Option Text
membership_of none = none
membership_of (some u) = u.filmstaden_membership_id

abbrev pub number_of : Option GiftCertificate → Option Text
number_of none = none
number_of (some g) = some g.number

abbrev pub expire_time_of : Option GiftCertificate → Option ℕ
expire_time_of none = none
expire_time_of (some g) = some g.expire_time

abbrev pub certificate_of : Attendee → List GiftCertificate → Option GiftCertificate
certificate_of a gs =
    find
      (λ (g : GiftCertificate).
        g.user_id == a.user_id && option_eq a.gift_certificate_used g.number)
      gs

unfoldable pub attendee_row : Db → Attendee → AttendeeRow
attendee_row db a = record {
  user_id = a.user_id;
  showing_id = a.showing_id;
  has_paid = a.has_paid;
  amount_owed = a.amount_owed;
  attendee_type = a.attendee_type;
  gift_certificate_used = a.gift_certificate_used;
  filmstaden_membership_id = membership_of (find (λ (u : User). u.id == a.user_id) db.users);
  gift_certificate_number = number_of (certificate_of a db.gift_certificates);
  gift_certificate_expire_time = expire_time_of (certificate_of a db.gift_certificates);
}

unfoldable pub attendee : Uuid → Uuid → Statement AttendeeRow
unfolding attendee_row
attendee showing user now db =
    one (find (is_attendee user showing) db.attendees) (λ a. ok (attendee_row db a, db))
      (λ e. err e)

pub record AttendeePaymentDetailsRow : Type 0 where
  pub user_id : Uuid
  pub showing_id : Uuid
  pub has_paid : Bool
  pub amount_owed : ℤ
  pub attendee_type : Text
  pub pay_to_user : Uuid
  pub pay_to_phone : Option Text
  pub movie_title : Text

abbrev pub phone_of : Option User → Option Text
phone_of none = none
phone_of (some u) = u.phone

-- Without a showing or a movie a column that is read into a plain value is null.
unfoldable pub payment_row :
    Db → Attendee → Option Showing → Result DbError AttendeePaymentDetailsRow
payment_row db a none = err bad_scan
payment_row db a (some s) = elim (find (λ (m : Movie). m.id == s.movie_id) db.movies) [
  | none ↦ err bad_scan
  | some m ↦ ok (record {
    user_id = a.user_id;
    showing_id = a.showing_id;
    has_paid = a.has_paid;
    amount_owed = a.amount_owed;
    attendee_type = a.attendee_type;
    pay_to_user = s.pay_to_user;
    pay_to_phone = phone_of (find (λ (u : User). u.id == s.pay_to_user) db.users);
    movie_title = m.title;
  })
]

unfoldable pub attendee_payment_details : Uuid → Uuid → Statement AttendeePaymentDetailsRow
unfolding payment_row
attendee_payment_details showing user now db =
    one (find (is_attendee user showing) db.attendees)
      (λ a. elim (payment_row db a (find (λ (s : Showing). s.id == a.showing_id) db.showings)) [
        | ok row ↦ ok (row, db)
        | err e ↦ err e
      ])
      (λ e. err e)

unfoldable pub delete_attendee : Uuid → Uuid → Statement ℕ
delete_attendee user showing now db = ok (
  count (is_attendee user showing) db.attendees,
  record db { attendees = select (λ a. not (is_attendee user showing a)) db.attendees },
)

-- `WHERE … s.admin = @admin_id` over the joined showing.
abbrev pub is_admin_of : Uuid → Uuid → List Showing → Bool
is_admin_of admin showing ss = any (λ (s : Showing). s.id == showing && s.admin == admin) ss

unfoldable pub list_attendees : Uuid → Uuid → Statement (List AttendeeRow)
unfolding attendee_row
list_attendees showing admin now db = ok (
  map (attendee_row db) (
      select (λ (a : Attendee). a.showing_id == showing && is_admin_of admin showing db.showings)
        db.attendees),
  db,
)

-- `UPDATE attendees SET … WHERE …`
unfoldable pub update_where :
    (Attendee → Bool) → (Attendee → Attendee) → List Attendee → List Attendee
update_where p f = map (λ a. if p a then f a else a)

abbrev pub pays_by_certificate : Uuid → Uuid → List Showing → Attendee → Bool
pays_by_certificate admin showing ss a =
    is_admin_of admin showing ss
    && (a.showing_id == showing && (is_some a.gift_certificate_used || a.user_id == admin))

abbrev pub settled : ℕ → Attendee → Attendee
settled now a = record a { has_paid = true; amount_owed = pos 0; update_time = now }

unfoldable pub mark_gc_attendees_as_having_paid : Uuid → Uuid → Statement ℕ
unfolding update_where
mark_gc_attendees_as_having_paid admin showing now db = ok (
  count (pays_by_certificate admin showing db.showings) db.attendees,
  record db {
    attendees =
        update_where (pays_by_certificate admin showing db.showings) (settled now) db.attendees;
  },
)

abbrev pub pays_by_swish : Uuid → Uuid → List Showing → Attendee → Bool
pays_by_swish admin showing ss a =
    is_admin_of admin showing ss
    && (a.showing_id == showing && (not (is_some a.gift_certificate_used) && not a.has_paid))

abbrev pub owing : ℤ → ℕ → Attendee → Attendee
owing amount now a = record a { amount_owed = amount; update_time = now }

unfoldable pub update_amount_owed_for_swish_attendees : ℤ → Uuid → Uuid → Statement ℕ
unfolding update_where
update_amount_owed_for_swish_attendees amount admin showing now db = ok (
  count (pays_by_swish admin showing db.showings) db.attendees,
  record db {
    attendees =
        update_where (pays_by_swish admin showing db.showings) (owing amount now) db.attendees;
  },
)

pub record UpdateAttendeePaymentParams : Type 0 where
  pub has_paid : Bool
  pub amount_owed : ℤ
  pub user_id : Uuid
  pub showing_id : Uuid

abbrev pub repaid : UpdateAttendeePaymentParams → ℕ → Attendee → Attendee
repaid p now a = record a { has_paid = p.has_paid; amount_owed = p.amount_owed; update_time = now }

unfoldable pub update_attendee_payment : UpdateAttendeePaymentParams → Statement (Unit {0})
unfolding update_where
update_attendee_payment p now db = ok (
  tt,
  record db {
    attendees = update_where (is_attendee p.user_id p.showing_id) (repaid p now) db.attendees;
  },
)
