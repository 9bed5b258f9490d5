-- ===== src/Graph/GiftCertificates/Deletion.antt =====
-- `DeleteGiftCertificate` on the tables.
use filmstund.Base.{
  ℕ, ◌≡◌, refl, ◌∙◌, false, not, ◌&&◌, some, List, [], ◌∷◌, any, find, select, select_of_none, ◌==◌,
  ids, texts, arith,
}
use filmstund.Database.{Uuid, User, GiftCertificate, Attendee, Db, ok, pure, exec, attempt, ◌>>=◌}
use filmstund.Database.Execution.{reachable, pool-run}
use filmstund.Dao.Users.{
  DeleteGiftCertificateParams, delete_gift_certificate, to_delete, uses, is_nulled, get_user,
}
use filmstund.Graph.GiftCertificates.{
  GiftCertificateInput, delete_gift_certificate_of, fetch_user, expires,
}

abbrev pub deletion : Uuid → ℕ → GiftCertificateInput → DeleteGiftCertificateParams
deletion me today c = record {
  user_id = me;
  number = c.number;
  expire_time = expires c.expire_time today;
}

-- The tables without the certificate.
abbrev pub without : DeleteGiftCertificateParams → Db → Db
without p db = record db {
  gift_certificates = select (λ (g : GiftCertificate). not (to_delete p g)) db.gift_certificates;
}

none_of_both :
    (p : DeleteGiftCertificateParams) (a : Attendee) (gs : List GiftCertificate)
    → any (to_delete p) gs ≡ false
    → any (λ (x : GiftCertificate). to_delete p x && uses a x) gs ≡ false
none_of_both p a [] h = refl
none_of_both p a (x ∷ gs) h = ground (arith, none_of_both p a gs)

none_nulled :
    (p : DeleteGiftCertificateParams) (gs : List GiftCertificate) (rows : List Attendee)
    → any (to_delete p) gs ≡ false
    → any (is_nulled p gs) rows ≡ false
none_nulled p gs [] h = refl
none_nulled p gs (a ∷ rows) h = rw (none_of_both p a gs h) (none_nulled p gs rows h)

deleted :
    (p : DeleteGiftCertificateParams) (db : Db) (now : ℕ)
    → any (to_delete p) db.gift_certificates ≡ false
    → delete_gift_certificate p now db ≡ ok (tt, db)
unfolding delete_gift_certificate
deleted p db now h =
    rw
      (
        none_nulled p db.gift_certificates db.attendees h,
        select_of_none (to_delete p) db.gift_certificates h,
      )
      refl

user_read :
    (me : Uuid) (db : Db) (u : User) (now : ℕ)
    → find (λ (x : User). x.id == me) db.users ≡ some u
    → fetch_user me (reachable db now) ≡ (ok u, reachable db now)
unfolding fetch_user get_user attempt exec ◌>>=◌ pure
user_read me db u now h = rw h refl

-- Where the day of a certificate is not the one that the request gives, or today if it gives none,
-- nothing is deleted, and still the request returns the user, where no call to the server fails.
delete_gift_certificate_of-misses :
    (me : Uuid) (today : ℕ) (c : GiftCertificateInput) (db : Db) (u : User) (now : ℕ)
    → find (λ (x : User). x.id == me) db.users ≡ some u
    → any (to_delete (deletion me today c)) db.gift_certificates ≡ false
    → delete_gift_certificate_of me today c (reachable db now) ≡ (ok u, reachable db now)
unfolding delete_gift_certificate_of
delete_gift_certificate_of-misses me today c db u now h k =
    pool-run _ _ _ db db now tt (deleted (deletion me today c) db now k) ∙ user_read me db u now h
