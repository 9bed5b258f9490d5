-- ===== src/Session/Client.antt =====
-- internal/session/client.go, over redis and the encoding of package gob, which are parameters.
use filmstund.Base.{ℕ, Bool, Option, none, some, List, [], ◌∷◌, any, if◌then◌else◌, ◌==◌, texts}
use filmstund.Base.Text.{Text}
use filmstund.Database.{Uuid}

-- `oauth2.Token`, its exported fields.
pub record Token : Type 0 where
  pub access_token : Text
  pub token_type : Text
  pub refresh_token : Text
  pub expiry : ℕ

-- `principal.Principal` (internal/auth0/principal).
pub record Principal : Type 0 where
  pub id : Uuid
  pub subject : Text
  pub scopes : List Text
  pub expires_at : ℕ
  pub token : Token

-- `Principal.HasScope`
unfoldable pub has_scope : Principal → Text → Bool
has_scope p scope = any (λ s. s == scope) p.scopes

-- The calls of redis that the client makes, on a state `S` of the server: whether each succeeds,
-- and what it leaves.
pub record Redis (S : Type 0) : Type 0 where
  pub set : Text → Text → ℕ → S → Bool × S
  pub get : Text → S → Option Text
  pub expire : Text → ℕ → S → Bool × S
  pub del : Text → S → Bool × S
  pub wait : ℕ → S → S

-- `gob`, for principals.
pub record Gob : Type 0 where
  pub encode : Principal → Option Text
  pub decode : Text → Option Principal

pub record Config : Type 0 where
  pub cookie_name : Text
  pub expiration_time : ℕ

-- A cookie of a response: a value for the browser, or an end to it.
pub data Cookie : Type 0 where
  session_cookie : Text → Text → Cookie
  expired_cookie : Text → Cookie

-- How an operation of the client ends.
pub data Ended : Type 0 where
  done failed : Ended

-- What `Lookup` returns.
pub data Found : Type 0 where
  no_session : Found
  found : Principal → Text → Found

module _ {S : Type 0} (redis : Redis S) (gob : Gob) (cfg : Config) where
  abbrev pub put_encoded : Option Text → Text → S → Ended × S
  put_encoded none id s = (failed, s)
  put_encoded (some marshaled) id s =
      let (succeeded, s') = redis.set id marshaled cfg.expiration_time s in
      (if succeeded then done else failed, s')

  unfoldable pub add_to_cache : Text → Principal → S → Ended × S
  add_to_cache id p s = put_encoded (gob.encode p) id s

  abbrev pub cookies_of : Ended → Text → List Cookie
  cookies_of failed id = []
  cookies_of done id = session_cookie cfg.cookie_name id ∷ []

  -- `Start`, with the new session's identifier; the cookies are those of the response.
  unfoldable pub start : Text → Principal → S → Ended × List Cookie × S
  unfolding add_to_cache
  start id p s = let (e, s') = add_to_cache id p s in (e, cookies_of e id, s')

  abbrev pub extended : Option Principal → Text → S → Found × S
  extended none id s = (no_session, s)
  extended (some p) id s =
      let (succeeded, s') = redis.expire id cfg.expiration_time s in
      (if succeeded then found p id else no_session, s')

  abbrev pub decoded : Option Text → Text → S → Found × S
  decoded none id s = (no_session, s)
  decoded (some v) id s = extended (gob.decode v) id s

  unfoldable pub get_from_cache : Text → S → Found × S
  get_from_cache id s = decoded (redis.get id s) id s

  -- `Lookup`, of the cookie of the request.
  unfoldable pub lookup : Option Text → S → Found × S
  unfolding get_from_cache
  lookup none s = (no_session, s)
  lookup (some id) s = get_from_cache id s

  -- `Invalidate`
  unfoldable pub invalidate : Option Text → S → Ended × List Cookie × S
  invalidate none s = (done, [], s)
  invalidate (some id) s =
      let (succeeded, s') = redis.del id s in
      (if succeeded then done else failed, expired_cookie cfg.cookie_name ∷ [], s')
