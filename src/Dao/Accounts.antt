-- ===== src/Dao/Accounts.antt =====
-- internal/database/dao/users.sql.go: signing in, the details of a user and the calendar feed, with
-- the constraints on the table `users`. A UUID that the database generates is an argument.
pub mod Updates
pub mod SignIn
pub mod Certificates
pub mod Constraints
pub mod Rows
pub mod Keys
use filmstund.Base.{
  ℕ, Bool, true, false, ◌&&◌, ◌||◌, not, Option, none, some, List, [], ◌∷◌, ◌++◌, map, any, find,
  nat_eq, ◌==◌, ids, texts, if◌then◌else◌,
}
use filmstund.Base.Text.{Text}
use filmstund.Database.{Uuid, User, Db, no_rows, unique_violation, ok, err, Statement}
use filmstund.Dao.Showings.{one}
use filmstund.Dao.Attendees.{option_eq}

abbrev pub is_subject : Text → User → Bool
is_subject subject u = u.subject_id == subject

abbrev pub id_eq : Option Uuid → Uuid → Bool
id_eq none i = false
id_eq (some j) i = nat_eq j i

-- `update users set … where subject_id = …`
abbrev pub update_subject : Text → (User → User) → List User → List User
update_subject subject f users = map (λ (u : User). if is_subject subject u then f u else u) users

-- The tables after it, and the row that `returning` gives back.
abbrev pub updated_row : Text → (User → User) → Statement User
updated_row subject f now db =
    one (find (is_subject subject) (update_subject subject f db.users))
      (λ u. ok (u, record db { users = update_subject subject f db.users })) (λ e. err e)

pub record CreateUpdateUserParams : Type 0 where
  pub subject : Text
  pub first_name : Text
  pub last_name : Text
  pub nick : Option Text
  pub email : Text
  pub avatar : Option Text

abbrev pub new_user : CreateUpdateUserParams → Uuid → Uuid → ℕ → User
new_user p id feed now = record {
  id = id;
  subject_id = p.subject;
  filmstaden_membership_id = none;
  first_name = p.first_name;
  last_name = p.last_name;
  nick = p.nick;
  email = p.email;
  phone = none;
  avatar = p.avatar;
  calendar_feed_id = some feed;
  last_login_time = now;
  signup_time = now;
  update_time = now;
}

abbrev pub signed_in : CreateUpdateUserParams → ℕ → User → User
signed_in p now u = record u {
  last_login_time = now;
  email = p.email;
  avatar = p.avatar;
  update_time = now;
}

abbrev pub insert_user : CreateUpdateUserParams → Uuid → Uuid → Statement Uuid
insert_user p id feed now db =
    if any (λ (u : User). u.id == id || id_eq u.calendar_feed_id feed) db.users
    then err unique_violation
    else ok (id, record db { users = db.users ++ new_user p id feed now ∷ [] })

abbrev pub login_row : Option User → CreateUpdateUserParams → Uuid → Uuid → Statement Uuid
login_row none p id feed now db = insert_user p id feed now db
login_row (some u) p id feed now db =
    ok (u.id, record db { users = update_subject p.subject (signed_in p now) db.users })

-- `on conflict (subject_id) do update`; `id` and `feed` are the defaults of a new row.
unfoldable pub create_update_user : CreateUpdateUserParams → Uuid → Uuid → Statement Uuid
create_update_user p id feed now db =
    login_row (find (is_subject p.subject) db.users) p id feed now db

unfoldable pub disable_calendar_feed : Text → Statement User
disable_calendar_feed subject now db =
    updated_row subject (λ u. record u { calendar_feed_id = none }) now db

-- `uuid_generate_v4()` is `feed`. A subject without a row updates nothing, and so nothing clashes.
unfoldable pub randomize_calendar_feed : Text → Uuid → Statement User
randomize_calendar_feed subject feed now db =
    if any (is_subject subject) db.users
      && any (λ (u : User). not (is_subject subject u) && id_eq u.calendar_feed_id feed) db.users
    then err unique_violation
    else updated_row subject (λ u. record u { calendar_feed_id = some feed }) now db

pub record UpdateUserParams : Type 0 where
  pub filmstaden_membership_id : Text
  pub phone_number : Text
  pub first_name : Text
  pub last_name : Text
  pub nick : Text
  pub subject_id : Text

-- `TRIM`, which takes spaces away at both ends.
abbrev pub trim_start : Text → Text
trim_start [] = []
trim_start (c ∷ t) = if nat_eq c 32 then trim_start t else c ∷ t

abbrev pub cons_trimmed : ℕ → Text → Text
cons_trimmed c [] = if nat_eq c 32 then [] else c ∷ []
cons_trimmed c (d ∷ t) = c ∷ d ∷ t

abbrev pub trim_end : Text → Text
trim_end [] = []
trim_end (c ∷ t) = cons_trimmed c (trim_end t)

unfoldable pub trim : Text → Text
trim t = trim_end (trim_start t)

-- `COALESCE(NULLIF(t, ''), old)`
abbrev pub unless_empty : Text → Option Text → Option Text
unless_empty [] old = old
unless_empty (c ∷ t) old = some (c ∷ t)

abbrev pub unless_empty_text : Text → Text → Text
unless_empty_text [] old = old
unless_empty_text (c ∷ t) old = c ∷ t

unfoldable pub new_details : UpdateUserParams → ℕ → User → User
unfolding trim
new_details p now u = record u {
  filmstaden_membership_id =
      unless_empty (trim p.filmstaden_membership_id) u.filmstaden_membership_id;
  phone = unless_empty (trim p.phone_number) u.phone;
  first_name = unless_empty_text (trim p.first_name) u.first_name;
  last_name = unless_empty_text (trim p.last_name) u.last_name;
  nick = unless_empty (trim p.nick) u.nick;
  update_time = now;
}

-- `user_ids_fsid_uniq`: the membership belongs to a user of another subject.
abbrev pub membership_taken : Text → Text → List User → Bool
membership_taken subject [] users = false
membership_taken subject (c ∷ t) users =
    any (λ (u : User). not (is_subject subject u) && option_eq u.filmstaden_membership_id (c ∷ t))
      users

unfoldable pub update_user : UpdateUserParams → Statement User
unfolding trim new_details
update_user p now db =
    if any (is_subject p.subject_id) db.users
      && membership_taken p.subject_id (trim p.filmstaden_membership_id) db.users
    then err unique_violation
    else updated_row p.subject_id (new_details p now) now db
