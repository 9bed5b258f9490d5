-- ===== src/Filmstaden/Client.antt =====
-- filmstaden/client.go and filmstaden/cache.go: requests, whose bodies are kept in redis.
use filmstund.Base.{ℕ, Bool, Option, none, some, nat_eq, if◌then◌else◌}
use filmstund.Base.Text.{Text}

-- An answer over HTTP: its status, and its body, which may not be readable to its end.
pub record HttpResponse : Type 0 where
  pub status : ℕ
  pub body : Option Text

-- What the client calls, on a state `S` of redis and of the servers of Filmstaden: `QueryCache`, and
-- the transport. `send` is nothing where the request fails or takes too long.
pub record Outside (S : Type 0) : Type 0 where
  pub get : Text → S → Option Text
  pub set : Text → Text → ℕ → S → Bool × S
  pub send : Text → S → Option HttpResponse × S
  pub wait : ℕ → S → S

-- `defaultCacheExpiration`, in seconds.
abbrev pub default_cache_expiration : ℕ
default_cache_expiration = 43200

-- The body of an answer with the status OK.
abbrev pub read_body : Option HttpResponse → Option Text
read_body none = none
read_body (some r) = if nat_eq r.status 200 then r.body else none

-- `json.Unmarshal` into a new value.
abbrev pub unmarshal {ℓ} : {A : Type ℓ} → (Text → Option A) → Option Text → Option A
unmarshal decode none = none
unmarshal decode (some body) = decode body

module _ {S : Type 0} (outside : Outside S) where
  unfoldable pub do_request : Text → S → Option Text × S
  do_request url s = let (r, s') = outside.send url s in (read_body r, s')

  -- An error of the cache is only logged.
  abbrev pub kept : Text → Option Text × S → Option Text × S
  kept url (none, s) = (none, s)
  kept url (some body, s) = (some body, (outside.set url body default_cache_expiration s).1)

  abbrev pub body_from : Option Text → Text → S → Option Text × S
  body_from (some cached) url s = (some cached, s)
  body_from none url s = kept url (do_request url s)

  -- `decodedGet`, up to the decoding of the body.
  unfoldable pub get_body : Text → S → Option Text × S
  unfolding do_request
  get_body url s = body_from (outside.get url s) url s

  -- `decodedGet`; an error is nothing.
  unfoldable pub decoded_get {ℓ} : {A : Type ℓ} → (Text → Option A) → Text → S → Option A × S
  unfolding get_body
  decoded_get decode url s = let (body, s') = get_body url s in (unmarshal decode body, s')
