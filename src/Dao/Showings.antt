-- ===== src/Dao/Showings.antt =====
-- internal/database/dao/showings.sql.go, with the constraints on the table `showings`.
use filmstund.Base.{
  ℕ, Bool, true, false, ◌&&◌, not, Option, none, some, List, [], ◌∷◌, ◌++◌, map, any, find, select,
  count, order_by, ltb, leb, ◌==◌, ids, texts, if◌then◌else◌,
}
use filmstund.Base.Int.{ℤ, pos, leb_ℤ}
use filmstund.Base.Text.{char_length, Text, bytes}
use filmstund.Database.{
  Uuid, Showing, Attendee, Ticket, User, Movie, CinemaScreen, Db, DbError, no_rows,
  unique_violation, foreign_key_violation, check_violation, bad_scan, Result, ok, err, Statement,
}

-- The foreign keys of a showing.
abbrev pub has_user : Uuid → Db → Bool
has_user u db = any (λ (x : User). x.id == u) db.users

abbrev pub has_movie : Uuid → Db → Bool
has_movie m db = any (λ (x : Movie). x.id == m) db.movies

abbrev pub has_screen : Option Text → List CinemaScreen → Bool
has_screen none screens = true
has_screen (some c) screens = any (λ (x : CinemaScreen). x.id == c) screens

abbrev pub has_showing : Uuid → Db → Bool
has_showing s db = any (λ (x : Showing). x.id == s) db.showings

pub record AddShowingParams : Type 0 where
  pub id : Uuid
  pub web_id : Text
  pub slug : Text
  pub date : ℕ
  pub time : ℕ
  pub movie_id : Uuid
  pub location : Text
  pub cinema_screen_id : Option Text
  pub filmstaden_showing_id : Option Text
  pub admin : Uuid
  pub pay_to_user : Uuid

-- The row that `insert` adds, with the columns' defaults.
unfoldable pub new_showing : AddShowingParams → ℕ → Showing
new_showing p now = record {
  id = p.id;
  web_id = p.web_id;
  slug = p.slug;
  date = p.date;
  time = p.time;
  movie_id = p.movie_id;
  location = p.location;
  cinema_screen_id = p.cinema_screen_id;
  filmstaden_showing_id = p.filmstaden_showing_id;
  price = pos 0;
  tickets_bought = false;
  admin = p.admin;
  pay_to_user = p.pay_to_user;
  private = false;
  update_time = now;
  create_time = now;
}

unfoldable pub add_showing : AddShowingParams → Statement Showing
unfolding new_showing
add_showing p now db =
    if not (char_length p.web_id == 10 && leb 2 (char_length p.slug))
    then err check_violation
    else if any (λ (s : Showing). s.id == p.id) db.showings
    then err unique_violation
    else if any (λ (s : Showing). s.web_id == p.web_id) db.showings
    then err unique_violation
    else if not (
        has_movie p.movie_id db
        && (has_screen p.cinema_screen_id db.cinema_screens
            && (has_user p.admin db && has_user p.pay_to_user db)))
    then err foreign_key_violation
    else ok (new_showing p now, record db { showings = db.showings ++ new_showing p now ∷ [] })

unfoldable pub admin_on_showing : Uuid → Uuid → Statement Bool
admin_on_showing user id now db =
    ok (any (λ (s : Showing). s.admin == user && s.id == id) db.showings, db)

-- The rows of the attendees and of the tickets go with their showing (`on delete cascade`).
unfoldable pub delete_showing : Uuid → Statement ℕ
delete_showing id now db = ok (
  count (λ (s : Showing). s.id == id) db.showings,
  record db {
    showings = select (λ (s : Showing). not (s.id == id)) db.showings;
    attendees = select (λ (a : Attendee). not (a.showing_id == id)) db.attendees;
    tickets = select (λ (t : Ticket). not (t.showing_id == id)) db.tickets;
  },
)

-- `UPDATE showings SET … WHERE …`
unfoldable pub update_where : (Showing → Bool) → (Showing → Showing) → List Showing → List Showing
update_where p f = map (λ s. if p s then f s else s)

pub record MarkShowingAsBoughtParams : Type 0 where
  pub price : ℤ
  pub showing_id : Uuid
  pub admin_id : Uuid

abbrev pub to_mark : MarkShowingAsBoughtParams → Showing → Bool
to_mark p s = s.id == p.showing_id && (not s.tickets_bought && s.admin == p.admin_id)

abbrev pub marked : ℤ → ℕ → Showing → Showing
marked price now s = record s { tickets_bought = true; price = price; update_time = now }

unfoldable pub mark_showing_as_bought : MarkShowingAsBoughtParams → Statement (Unit {0})
unfolding update_where
mark_showing_as_bought p now db =
    if any (to_mark p) db.showings && not (leb_ℤ (pos 0) p.price)
    then err check_violation
    else ok (tt, record db { showings = update_where (to_mark p) (marked p.price now) db.showings })

pub record PromoteNewUserToShowingAdminParams : Type 0 where
  pub new_admin_id : Uuid
  pub showing_id : Uuid
  pub admin_id : Uuid

abbrev pub to_promote : PromoteNewUserToShowingAdminParams → Showing → Bool
to_promote p s = s.id == p.showing_id && (s.admin == p.admin_id && not s.tickets_bought)

abbrev pub promoted : Uuid → ℕ → Showing → Showing
promoted u now s = record s { admin = u; pay_to_user = u; update_time = now }

unfoldable pub promote_new_user_to_showing_admin :
    PromoteNewUserToShowingAdminParams → Statement (Unit {0})
unfolding update_where
promote_new_user_to_showing_admin p now db =
    if any (to_promote p) db.showings && not (has_user p.new_admin_id db)
    then err foreign_key_violation
    else ok (
      tt,
      record db {
        showings = update_where (to_promote p) (promoted p.new_admin_id now) db.showings;
      },
    )

pub record PublicAttendeesRow : Type 0 where
  pub user_id : Uuid
  pub showing_id : Uuid
  pub name : Text
  pub first_name : Text
  pub last_name : Text
  pub nick : Option Text
  pub phone : Option Text
  pub avatar_url : Option Text

abbrev pub public_attendee : Attendee → User → PublicAttendeesRow
public_attendee a u = record {
  user_id = a.user_id;
  showing_id = a.showing_id;
  name = u.first_name ++ bytes " " ++ u.last_name;
  first_name = u.first_name;
  last_name = u.last_name;
  nick = u.nick;
  phone = u.phone;
  avatar_url = u.avatar;
}

-- The left join. Without a user its columns are null, which cannot be read into a string.
unfoldable pub public_attendee_rows :
    List User → List Attendee → Result DbError (List PublicAttendeesRow)
public_attendee_rows users [] = ok []
public_attendee_rows users (a ∷ rest) = elim (find (λ (u : User). u.id == a.user_id) users) [
  | none ↦ err bad_scan
  | some u ↦ elim (public_attendee_rows users rest) [
    | err e ↦ err e
    | ok rows ↦ ok (public_attendee a u ∷ rows)
  ]
]

unfoldable pub public_attendees : Uuid → Statement (List PublicAttendeesRow)
unfolding public_attendee_rows
public_attendees id now db =
    elim (public_attendee_rows db.users
      (select (λ (a : Attendee). a.showing_id == id) db.attendees)) [
        | err e ↦ err e
        | ok rows ↦ ok (rows, db)
      ]

-- `ORDER BY date DESC`
abbrev pub date_desc : Showing → Showing → Bool
date_desc s t = ltb t.date s.date

unfoldable pub public_showings : ℕ → Statement (List Showing)
public_showings after now db = ok (
  order_by date_desc (select (λ (s : Showing). ltb after s.date && not s.private) db.showings),
  db,
)

abbrev pub one {ℓ} : {A : Type 0} {B : Type ℓ} → Option A → (A → B) → (DbError → B) → B
one none f g = g no_rows
one (some a) f g = f a

unfoldable pub showing_by_id : Uuid → Statement Showing
showing_by_id id now db =
    one (find (λ (s : Showing). s.id == id) db.showings) (λ s. ok (s, db)) (λ e. err e)

unfoldable pub showing_by_web_id : Text → Statement Showing
showing_by_web_id web now db =
    one (find (λ (s : Showing). s.web_id == web) db.showings) (λ s. ok (s, db)) (λ e. err e)

unfoldable pub showings_by_movie : Uuid → Statement (List Showing)
showings_by_movie movie now db = ok (
  order_by date_desc (select (λ (s : Showing). s.movie_id == movie && not s.private) db.showings),
  db,
)

pub record UpdateShowingParams : Type 0 where
  pub price : ℤ
  pub pay_to_user : Uuid
  pub location : Text
  pub filmstaden_showing_id : Option Text
  pub cinema_screen_id : Option Text
  pub date : ℕ
  pub time : ℕ
  pub showing_id : Uuid
  pub admin_id : Uuid

abbrev pub to_update : UpdateShowingParams → Showing → Bool
to_update p s = s.id == p.showing_id && s.admin == p.admin_id

abbrev pub updated : UpdateShowingParams → ℕ → Showing → Showing
updated p now s = record s {
  price = p.price;
  pay_to_user = p.pay_to_user;
  location = p.location;
  filmstaden_showing_id = p.filmstaden_showing_id;
  cinema_screen_id = p.cinema_screen_id;
  date = p.date;
  time = p.time;
  update_time = now;
}

unfoldable pub update_showing : UpdateShowingParams → Statement (Unit {0})
unfolding update_where
update_showing p now db =
    if any (to_update p) db.showings && not (leb_ℤ (pos 0) p.price)
    then err check_violation
    else if any (to_update p) db.showings
        && not (has_user p.pay_to_user db && has_screen p.cinema_screen_id db.cinema_screens)
    then err foreign_key_violation
    else ok (tt, record db { showings = update_where (to_update p) (updated p now) db.showings })
