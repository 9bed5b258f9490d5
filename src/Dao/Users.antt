-- ===== src/Dao/Users.antt =====
-- internal/database/dao/users.sql.go: gift certificates and the look-ups of users, with the
-- constraints on the table `gift_certificate`.
use filmstund.Base.{
  ℕ, Bool, ◌&&◌, not, Option, List, [], ◌∷◌, ◌++◌, map, any, find, select, ◌==◌, ids, texts,
  if◌then◌else◌, none, some, is_some,
}
use filmstund.Base.Text.{Text, bytes}
use filmstund.Database.{
  Uuid, User, GiftCertificate, Attendee, unique_violation, foreign_key_violation,
  not_null_violation, ok, err, Statement,
}
use filmstund.Dao.Showings.{one, has_user}
use filmstund.Dao.Attendees.{option_eq}

pub record AddGiftCertificateParams : Type 0 where
  pub user_id : Uuid
  pub number : Text
  pub expire_time : ℕ

abbrev pub new_certificate : AddGiftCertificateParams → ℕ → GiftCertificate
new_certificate p now = record {
  user_id = p.user_id;
  number = p.number;
  expire_time = p.expire_time;
  create_time = now;
}

-- `giftcert_number_unique`, which implies `giftcert_pk`.
abbrev pub has_number : Text → List GiftCertificate → Bool
has_number number gs = any (λ (g : GiftCertificate). g.number == number) gs

unfoldable pub add_gift_certificate : AddGiftCertificateParams → Statement (Unit {0})
add_gift_certificate p now db =
    if has_number p.number db.gift_certificates
    then err unique_violation
    else if not (has_user p.user_id db)
    then err foreign_key_violation
    else ok
        (tt, record db { gift_certificates = db.gift_certificates ++ new_certificate p now ∷ [] })

pub record DeleteGiftCertificateParams : Type 0 where
  pub user_id : Uuid
  pub number : Text
  pub expire_time : ℕ

-- The `WHERE` of the deletion.
abbrev pub to_delete : DeleteGiftCertificateParams → GiftCertificate → Bool
to_delete p g = g.user_id == p.user_id && (g.number == p.number && g.expire_time == p.expire_time)

-- An attendee whose gift certificate this is.
abbrev pub uses : Attendee → GiftCertificate → Bool
uses a g = a.user_id == g.user_id && option_eq a.gift_certificate_used g.number

-- `attendee_giftcert_fk` is `on delete set null` over both of its columns: what the deletion from
-- these certificates leaves in them.
abbrev pub key_left :
    DeleteGiftCertificateParams → List GiftCertificate → Attendee → Option Uuid × Option Text
key_left p gs a =
    if any (λ (g : GiftCertificate). to_delete p g && uses a g) gs
    then (none, none)
    else (some a.user_id, a.gift_certificate_used)

-- The user of an attendee is part of the primary key and cannot be null.
abbrev pub is_nulled : DeleteGiftCertificateParams → List GiftCertificate → Attendee → Bool
is_nulled p gs a = not (is_some (key_left p gs a).0)

unfoldable pub delete_gift_certificate : DeleteGiftCertificateParams → Statement (Unit {0})
delete_gift_certificate p now db =
    if any (is_nulled p db.gift_certificates) db.attendees
    then err not_null_violation
    else ok (
      tt,
      record db {
        gift_certificates =
            select (λ (g : GiftCertificate). not (to_delete p g)) db.gift_certificates;
      },
    )

unfoldable pub get_gift_certificates : Uuid → Statement (List GiftCertificate)
get_gift_certificates user now db =
    ok (select (λ (g : GiftCertificate). g.user_id == user) db.gift_certificates, db)

unfoldable pub get_user : Uuid → Statement User
get_user id now db = one (find (λ (u : User). u.id == id) db.users) (λ u. ok (u, db)) (λ e. err e)

pub record PublicUserRow : Type 0 where
  pub id : Uuid
  pub name : Text
  pub first_name : Text
  pub last_name : Text
  pub nick : Option Text
  pub phone : Option Text
  pub avatar_url : Option Text

abbrev pub public_row : User → PublicUserRow
public_row u = record {
  id = u.id;
  name = u.first_name ++ bytes " " ++ u.last_name;
  first_name = u.first_name;
  last_name = u.last_name;
  nick = u.nick;
  phone = u.phone;
  avatar_url = u.avatar;
}

unfoldable pub public_user : Uuid → Statement PublicUserRow
public_user id now db =
    one (find (λ (u : User). u.id == id) db.users) (λ u. ok (public_row u, db)) (λ e. err e)

-- `WHERE id = ANY(…)`
unfoldable pub list_public_users : List Uuid → Statement (List PublicUserRow)
list_public_users wanted now db =
    ok (map public_row (select (λ (u : User). any (λ (i : Uuid). u.id == i) wanted) db.users), db)

unfoldable pub user_exists_by_subject : Text → Statement Bool
user_exists_by_subject subject now db =
    ok (any (λ (u : User). u.subject_id == subject) db.users, db)
