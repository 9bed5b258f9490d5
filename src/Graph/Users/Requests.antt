-- ===== src/Graph/Users/Requests.antt =====
-- What users ask for about themselves, logging in included, keeps the constraints of the tables.
use filmstund.Base.{ℕ, List, [], ◌∷◌}
use filmstund.Base.Text.{Text}
use filmstund.Database.{Db, Uuid, User, World, DbError, no_rows, Result, ok, err, pool, exec}
use filmstund.Dao.Users.{
  get_user, AddGiftCertificateParams, add_gift_certificate, DeleteGiftCertificateParams,
  delete_gift_certificate,
}
use filmstund.Dao.Accounts.{
  CreateUpdateUserParams, create_update_user, UpdateUserParams, update_user,
  randomize_calendar_feed, disable_calendar_feed,
}
use filmstund.Dao.Accounts.Keys.{HasUsers}
use filmstund.Dao.Accounts.Constraints.{
  create_update_user-Keeps, disable_calendar_feed-Keeps, randomize_calendar_feed-Keeps,
  update_user-Keeps,
}
use filmstund.Dao.Accounts.Certificates.{add_gift_certificate-Keeps, delete_gift_certificate-Keeps}
use filmstund.Dao.Consistency.Rules.{
  Keeps, Preserves, Holds, preserve_rules, bind-Preserves, exec-Preserves,
}
use filmstund.Dao.Consistency.Reads.{one_row}
use filmstund.Graph.GiftCertificates.{
  GiftCertificateInput, user_answer, fetch_user, add_each, add_gift_certificates,
  delete_gift_certificate_of,
}
use filmstund.Graph.Users.{
  SiteConfig, UserDetailsInput, update_details, invalidate_calendar_feed, stop_calendar_feed,
}

-- `P` is kept by every statement on users and gift certificates.
pub record KeptByStatements (P : Db → Type 0) : Type 0 where
  pub logging :
      (p : CreateUpdateUserParams) (id feed : Uuid) → Keeps P (create_update_user p id feed)
  pub updating : (p : UpdateUserParams) → Keeps P (update_user p)
  pub randomizing : (subject : Text) (feed : Uuid) → Keeps P (randomize_calendar_feed subject feed)
  pub stopping : (subject : Text) → Keeps P (disable_calendar_feed subject)
  pub adding : (p : AddGiftCertificateParams) → Keeps P (add_gift_certificate p)
  pub dropping : (p : DeleteGiftCertificateParams) → Keeps P (delete_gift_certificate p)

ruleset rules = (preserve_rules)

-- The requests of a principal, and the login, which inserts or updates a user.
pub data Request : Type 0 where
  login : CreateUpdateUserParams → Uuid → Uuid → Request
  change_details : Text → UserDetailsInput → Request
  new_feed : Text → Uuid → Request
  no_feed : Text → Request
  add_certificates : Uuid → ℕ → List GiftCertificateInput → Request
  drop_certificate : Uuid → ℕ → GiftCertificateInput → Request

-- The world after a request, whatever is returned.
unfoldable pub serve_user : SiteConfig → Request → World → World
serve_user cfg (login p id feed) w = (exec pool (create_update_user p id feed) w).1
serve_user cfg (change_details subject input) w = (update_details cfg subject input w).1
serve_user cfg (new_feed subject feed) w = (invalidate_calendar_feed cfg subject feed w).1
serve_user cfg (no_feed subject) w = (stop_calendar_feed cfg subject w).1
serve_user cfg (add_certificates me next_year inputs) w =
    (add_gift_certificates me next_year inputs w).1
serve_user cfg (drop_certificate me today c) w = (delete_gift_certificate_of me today c w).1

unfoldable pub serve_users : SiteConfig → List Request → World → World
serve_users cfg [] w = w
serve_users cfg (r ∷ rest) w = serve_users cfg rest (serve_user cfg r w)

module _ {P : Db → Type 0} (s : KeptByStatements P) where
  get_user-Keeps : (id : Uuid) → Keeps P (get_user id)
  unfolding get_user
  get_user-Keeps id = record { at = λ now db h. one_row P _ (λ u. u) db h }

  user_answer-Preserves : (r : Result DbError User) → Preserves P (user_answer r)
  user_answer-Preserves (ok u) = search preserve_rules
  user_answer-Preserves (err no_rows) = search preserve_rules
  user_answer-Preserves (err e) = search preserve_rules

  fetch_user-Preserves : (me : Uuid) → Preserves P (fetch_user me)
  unfolding fetch_user
  fetch_user-Preserves me = search (rules, get_user-Keeps, user_answer-Preserves) depth 12

  add_each-Preserves :
      (me : Uuid) (next_year : ℕ) (inputs : List GiftCertificateInput)
      → Preserves P (add_each me next_year inputs)
  unfolding add_each
  add_each-Preserves me next_year [] = search rules depth 12
  add_each-Preserves me next_year (c ∷ rest) =
      bind-Preserves P _ _ (search (rules, s.adding) depth 12)
        λ _. add_each-Preserves me next_year rest

  add_gift_certificates-Preserves :
      (me : Uuid) (next_year : ℕ) (inputs : List GiftCertificateInput)
      → Preserves P (add_gift_certificates me next_year inputs)
  unfolding add_gift_certificates
  add_gift_certificates-Preserves me next_year inputs =
      search (rules, add_each-Preserves, fetch_user-Preserves) depth 12

  delete_gift_certificate_of-Preserves :
      (me : Uuid) (today : ℕ) (c : GiftCertificateInput)
      → Preserves P (delete_gift_certificate_of me today c)
  unfolding delete_gift_certificate_of
  delete_gift_certificate_of-Preserves me today c =
      search (rules, s.dropping, fetch_user-Preserves) depth 12

  update_details-Preserves :
      (cfg : SiteConfig) (subject : Text) (input : UserDetailsInput)
      → Preserves P (update_details cfg subject input)
  unfolding update_details
  update_details-Preserves cfg subject input = search (rules, s.updating) depth 12

  invalidate_calendar_feed-Preserves :
      (cfg : SiteConfig) (subject : Text) (feed : Uuid)
      → Preserves P (invalidate_calendar_feed cfg subject feed)
  unfolding invalidate_calendar_feed
  invalidate_calendar_feed-Preserves cfg subject feed = search (rules, s.randomizing) depth 12

  stop_calendar_feed-Preserves :
      (cfg : SiteConfig) (subject : Text) → Preserves P (stop_calendar_feed cfg subject)
  unfolding stop_calendar_feed
  stop_calendar_feed-Preserves cfg subject = search (rules, s.stopping) depth 12

  pub serve_user-Holds :
      (cfg : SiteConfig) (r : Request) (w : World) → Holds P w → Holds P (serve_user cfg r w)
  unfolding serve_user
  serve_user-Holds cfg (login p id feed) w h =
      (exec-Preserves P pool _ (s.logging p id feed)).at w h
  serve_user-Holds cfg (change_details subject input) w h =
      (update_details-Preserves cfg subject input).at w h
  serve_user-Holds cfg (new_feed subject feed) w h =
      (invalidate_calendar_feed-Preserves cfg subject feed).at w h
  serve_user-Holds cfg (no_feed subject) w h = (stop_calendar_feed-Preserves cfg subject).at w h
  serve_user-Holds cfg (add_certificates me next_year inputs) w h =
      (add_gift_certificates-Preserves me next_year inputs).at w h
  serve_user-Holds cfg (drop_certificate me today c) w h =
      (delete_gift_certificate_of-Preserves me today c).at w h

pub statements : KeptByStatements HasUsers
statements = record {
  logging = create_update_user-Keeps;
  updating = update_user-Keeps;
  randomizing = randomize_calendar_feed-Keeps;
  stopping = disable_calendar_feed-Keeps;
  adding = add_gift_certificate-Keeps;
  dropping = delete_gift_certificate-Keeps;
}

-- If, in the tables and in the view of an open transaction if there is one, no two users share an
-- identifier, a subject, a membership or a calendar feed, no two gift certificates share a
-- number, every gift certificate belongs to a user who is there, and the showings, attendees,
-- tickets and cinema screens satisfy the constraints of the migrations except the lengths of
-- varchar columns, then this stays so whatever users ask for about themselves, logins included,
-- in any order and whichever calls to the database fail.
pub serve_users-HasUsers :
    (cfg : SiteConfig) (requests : List Request) (w : World)
    → Holds HasUsers w
    → Holds HasUsers (serve_users cfg requests w)
unfolding serve_users
serve_users-HasUsers cfg [] w h = h
serve_users-HasUsers cfg (r ∷ rest) w h =
    serve_users-HasUsers cfg rest (serve_user cfg r w) (serve_user-Holds statements cfg r w h)
