-- ===== src/Auth/Handlers.antt =====
-- internal/auth0/handlers.go: logging in and out.
pub mod Callback
use filmstund.Base.{
  ℕ, Bool, true, false, ◌&&◌, not, Option, none, some, List, [], ◌∷◌, ◌++◌, nat_eq, if◌then◌else◌,
}
use filmstund.Base.Text.{Text, bytes}
use filmstund.Database.{Uuid, World, DbError, Result, ok, err, pool, exec}
use filmstund.Dao.Accounts.{CreateUpdateUserParams, create_update_user}
use filmstund.Session.Client.{
  Principal, Redis, Gob, Config, Cookie, Ended, done, failed, Found, no_session, found, start,
  lookup, invalidate,
}
use filmstund.Auth.State.{Aead}
use filmstund.Auth.Flow.{
  Claims, IdToken, TokenAnswer, Provider, CallbackQuery, FlowError, flow_panic, Flow, accepted,
  refused, Login, exchange_code,
}

-- What is written as the status of a response; where two are written the first one counts.
pub data Reply : Type 0 where
  redirect : Text → Reply
  bad_request : Text → Reply
  internal_server_error unauthorized service_unavailable panicked : Reply

pub record Response : Type 0 where
  pub cookies : List Cookie
  pub replies : List Reply

-- What the handlers act on: the database and redis.
pub record Site (S : Type 0) : Type 0 where
  pub world : World
  pub store : S

-- The identifiers that are made up on the way: of the session, and by the database of a new user
-- and a new calendar feed.
pub record Ids : Type 0 where
  pub session : Text
  pub user : Uuid
  pub feed : Uuid

-- `strings.Split(s, " ")`
abbrev pub onto_first : ℕ → List Text → List Text
onto_first c [] = (c ∷ []) ∷ []
onto_first c (word ∷ words) = (c ∷ word) ∷ words

unfoldable pub split_spaces : Text → List Text
split_spaces [] = [] ∷ []
split_spaces (c ∷ t) =
    let rest = split_spaces t in if nat_eq c 32 then [] ∷ rest else onto_first c rest

abbrev pub user_params : IdToken → Claims → CreateUpdateUserParams
user_params t c = record {
  subject = t.subject;
  first_name = c.given_name;
  last_name = c.family_name;
  nick = some c.nickname;
  email = c.email;
  avatar = some c.picture;
}

abbrev pub principal_of : Login → Text → Uuid → Principal
principal_of l scope id = record {
  id = id;
  subject = l.id_token.subject;
  scopes = split_spaces scope;
  expires_at = l.id_token.expiry;
  token = l.answer.token;
}

-- `strings.HasPrefix(s, "/")`
unfoldable pub starts_with_slash : Text → Bool
starts_with_slash [] = false
starts_with_slash (c ∷ t) = nat_eq c 47

abbrev pub only : Reply → Response
only r = record { cookies = []; replies = r ∷ [] }

abbrev pub is_empty : Text → Bool
is_empty [] = true
is_empty (c ∷ t) = false

-- The replies, of what the operations on sessions return.
module _ {S : Type 0} where
  abbrev pub welcome : Text → Ended × List Cookie × Site S → Response × Site S
  welcome url (failed, cookies, site) =
      (record { cookies = cookies; replies = internal_server_error ∷ [] }, site)
  welcome url (done, cookies, site) = (
    record {
      cookies = cookies;
      replies = redirect (if starts_with_slash url then url else bytes "/") ∷ [];
    },
    site,
  )

  abbrev pub login_reply : Text → Text → Found × S → Response × S
  login_reply to auth_url (found p id, s) = (only (redirect to), s)
  login_reply to auth_url (no_session, s) = (only (redirect auth_url), s)

  abbrev pub logout_reply : Text → Ended × List Cookie × S → Response × S
  logout_reply url (done, cookies, s) =
      (record { cookies = cookies; replies = redirect url ∷ [] }, s)
  logout_reply url (failed, cookies, s) =
      (record { cookies = cookies; replies = internal_server_error ∷ redirect url ∷ [] }, s)

module _ {S : Type 0} (redis : Redis S) (gob : Gob) (cfg : Config) where
  abbrev pub session_for :
      Login → Text → Ids → Result DbError Uuid × World → S → Ended × List Cookie × Site S
  session_for l scope ids (err e, w) s = (failed, [], record { world = w; store = s })
  session_for l scope ids (ok id, w) s =
      let (e, cookies, s') = start redis gob cfg ids.session (principal_of l scope id) s in
      (e, cookies, record { world = w; store = s' })

  abbrev pub with_claims :
      Option Claims → Option Text → Login → Ids → Site S → Ended × List Cookie × Site S
  with_claims none scope l ids site = (failed, [], site)
  with_claims (some c) none l ids site = (failed, [], site)
  with_claims (some c) (some scope) l ids site =
      session_for l scope ids
        (exec pool (create_update_user (user_params l.id_token c) ids.user ids.feed) site.world)
        site.store

  -- `startNewSession`
  unfoldable pub start_new_session : Login → Ids → Site S → Ended × List Cookie × Site S
  start_new_session l ids site = with_claims l.id_token.claims l.answer.scope l ids site

  abbrev pub logged : Flow Login → Ids → Site S → Response × Site S
  logged (refused flow_panic) ids site = (only panicked, site)
  logged (refused e) ids site = (only (bad_request (bytes "invalid data")), site)
  logged (accepted l) ids site = welcome l.redirect_url (start_new_session l ids site)

  -- `LoginCallbackHandler`
  unfoldable pub login_callback : Aead → Provider → CallbackQuery → Ids → Site S → Response × Site S
  unfolding start_new_session
  login_callback gcm provider q ids site =
      if is_empty q.error
      then logged (exchange_code gcm provider q) ids site
      else (only (bad_request q.error_description), site)

  -- `LoginHandler`, of the query's `to`, the cookie and the URL that `AuthCodeURL` makes.
  unfoldable pub login_handler : Text → Text → Option Text → S → Response × S
  login_handler to auth_url cookie s = login_reply to auth_url (lookup redis gob cfg cookie s)

  -- `LogoutHandler`, of what `logoutURL` returns.
  unfoldable pub logout_handler : Option Text → Option Text → S → Response × S
  logout_handler none cookie s = (only internal_server_error, s)
  logout_handler (some url) cookie s = logout_reply url (invalidate redis gob cfg cookie s)
