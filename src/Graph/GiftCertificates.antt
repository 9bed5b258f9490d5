-- ===== src/Graph/GiftCertificates.antt =====
-- The gift certificates of internal/graph/users.resolvers.go.
pub mod Atomicity
pub mod Deletion
use filmstund.Base.{ℕ, ◌+◌, Option, none, some, List, [], ◌∷◌}
use filmstund.Base.Text.{Text}
use filmstund.Database.{
  Uuid, User, GiftCertificate, World, DbError, no_rows, Result, ok, err, in_tx, pool, exec, begin,
  commit, attempt, or_return, or_rollback, pure, raise, ◌>>=◌, ◌>>◌,
}
use filmstund.Dao.Users.{
  add_gift_certificate, delete_gift_certificate, get_gift_certificates, get_user,
}
use filmstund.Graph.Model.{
  GraphError, internal_server_error, user_does_not_exist, fetch_user_failed,
  insert_certificate_failed, delete_certificates_failed, get_certificates_failed,
}
use filmstund.Graph.Showings.{Handler}

-- `model.GiftCertificateInput`
pub record GiftCertificateInput : Type 0 where
  pub number : Text
  pub expire_time : Option ℕ

abbrev pub user_answer : Result DbError User → Handler User
user_answer (ok u) = pure u
user_answer (err no_rows) = raise user_does_not_exist
user_answer (err _) = raise fetch_user_failed

-- `fetchUser` (internal/graph/users.go), whose row `ToGraphUser` turns into the answer.
unfoldable pub fetch_user : Uuid → Handler User
fetch_user me = attempt (exec pool (get_user me)) >>= user_answer

-- The day of an input, or else another.
abbrev pub expires : Option ℕ → ℕ → ℕ
expires none other = other
expires (some t) other = t

-- The loop of `AddGiftCertificates`; `next_year` is `time.Now().AddDate(1, 0, 0)`.
unfoldable pub add_each : Uuid → ℕ → List GiftCertificateInput → Handler (Unit {0})
add_each me next_year [] = pure tt
add_each me next_year (c ∷ rest) = do
  or_rollback
      (exec in_tx (
        add_gift_certificate (record {
          user_id = me;
          number = c.number;
          expire_time = expires c.expire_time next_year;
        })))
      insert_certificate_failed
  add_each me next_year rest

-- `mutationResolver.AddGiftCertificates`
unfoldable pub add_gift_certificates : Uuid → ℕ → List GiftCertificateInput → Handler User
unfolding add_each fetch_user
add_gift_certificates me next_year inputs = do
  or_return begin internal_server_error
  add_each me next_year inputs
  or_return commit insert_certificate_failed
  fetch_user me

-- `mutationResolver.DeleteGiftCertificate`; `today` is the day of `time.Now()`.
unfoldable pub delete_gift_certificate_of : Uuid → ℕ → GiftCertificateInput → Handler User
unfolding fetch_user
delete_gift_certificate_of me today c = do
  or_return
      (exec pool (
        delete_gift_certificate
          (record { user_id = me; number = c.number; expire_time = expires c.expire_time today })))
      delete_certificates_failed
  fetch_user me

-- `userResolver.GiftCertificates`, without the status, which is unknown.
unfoldable pub gift_certificates_of : Uuid → Handler (List GiftCertificate)
gift_certificates_of user =
    or_return (exec pool (get_gift_certificates user)) get_certificates_failed
