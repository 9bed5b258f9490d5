-- ===== src/Tests/Sessions.antt =====
-- The theorems on sessions and on the login callback at concrete inputs, with a redis and a gob
-- that only keep what they are given.
use filmstund.Base.{
  ℕ, ◌≡◌, ◌∙◌, inr, refl, ap, true, Option, none, some, List, [], ◌∷◌, map, list_eq, list_eq_iff,
  if◌then◌else◌, arith,
}
use filmstund.Base.Text.{Text, bytes}
use filmstund.Session.Client.{Principal, Redis, Gob, Config, no_session, found, start, add_to_cache}
use filmstund.Session.Lifetime.{
  elapsed, IsRedis, IsAvailable, IsGob, visits, visited, timed_out, visits-over, visits-alive,
}

-- A server that is a map of values and times.
abbrev pub Store : Type 0
Store = Text → Option (Text × ℕ)

abbrev write : Text → Option (Text × ℕ) → Store → Store
write k o s j = if list_eq j k then o else s j

abbrev value : Option (Text × ℕ) → Option Text
value none = none
value (some (v, t)) = some v

abbrev longer : ℕ → Option (Text × ℕ) → Option (Text × ℕ)
longer n none = none
longer n (some (v, t)) = some (v, n)

abbrev pub redis : Redis Store
redis = record {
  set = λ k v n s. (true, write k (some (v, n)) s);
  get = λ k s. value (s k);
  expire = λ k n s. (true, write k (longer n (s k)) s);
  del = λ k s. (true, write k none s);
  wait = λ n s k. elapsed n (s k);
}

list_eq_own : (k : Text) → list_eq k k ≡ true
list_eq_own k = (list_eq_iff k k).1 refl

pub stored : (k : Text) (o : Option (Text × ℕ)) (s : Store) → write k o s k ≡ o
stored k o s = rw (list_eq_own k) refl

pub unread : (k : Text) (s : Store) → s k ≡ none → value (s k) ≡ none
unread k s e = ap value e

pub unmoved : (k : Text) (n : ℕ) (s : Store) → s k ≡ none → write k (longer n (s k)) s k ≡ none
unmoved k n s e = stored k (longer n (s k)) s ∙ ap (longer n) e

abbrev pub redis_law : IsRedis redis
redis_law = record {
  view = λ s k. s k;
  get_reads = unread;
  set_stores = λ k v n s h e. stored k (some (v, n)) s;
  expire_sets = λ k v t n s e. inr (stored k (longer n (s k)) s ∙ ap (longer n) e);
  expire_missing = unmoved;
  del_removes = λ k s e. stored k none s;
  wait_counts = λ n k s. refl;
}

redis-IsAvailable : IsAvailable redis redis_law
redis-IsAvailable = record {
  get_answers = λ k v t s e. ap value e;
  expire_extends = λ k v t n s e h. (refl, stored k (longer n (s k)) s ∙ ap (longer n) e);
}

abbrev encoded : List Text → Text → Text → Text → Text → Option Text
encoded [] [] [] [] t = some t
encoded _ _ _ _ t = none

abbrev decoded_principal : Text → Option Principal
decoded_principal (id ∷ expires ∷ expiry ∷ subject) = some (record {
  id = id;
  subject = subject;
  scopes = [];
  expires_at = expires;
  token = record { access_token = []; token_type = []; refresh_token = []; expiry = expiry };
})
decoded_principal _ = none

-- Only principals with no scopes and an empty token are encoded.
abbrev pub gob : Gob
gob = record {
  encode = λ p.
      encoded p.scopes p.token.access_token p.token.token_type p.token.refresh_token
        (p.id ∷ p.expires_at ∷ p.token.expiry ∷ p.subject);
  decode = decoded_principal;
}

encoded-decoded :
    (id expires expiry : ℕ) (subject v : Text) (scopes : List Text) (a b c : Text)
    → encoded scopes a b c (id ∷ expires ∷ expiry ∷ subject) ≡ some v
    → decoded_principal v
      ≡ some (record {
        id = id;
        subject = subject;
        scopes = scopes;
        expires_at = expires;
        token = record { access_token = a; token_type = b; refresh_token = c; expiry = expiry };
      })
encoded-decoded id expires expiry subject v [] [] [] [] e = ground (arith, e)
encoded-decoded id expires expiry subject v (x ∷ scopes) a b c e = cc
encoded-decoded id expires expiry subject v [] (x ∷ a) b c e = cc
encoded-decoded id expires expiry subject v [] [] (x ∷ b) c e = cc
encoded-decoded id expires expiry subject v [] [] [] (x ∷ c) e = cc

gob-IsGob : IsGob gob
gob-IsGob = record {
  round_trip = λ p v e.
      encoded-decoded p.id p.expires_at p.token.expiry p.subject v p.scopes p.token.access_token
        p.token.token_type p.token.refresh_token e;
}

abbrev pub cfg : Config
cfg = record { cookie_name = bytes "data"; expiration_time = 172800 }

abbrev pub anna : Principal
anna = record {
  id = 3;
  subject = bytes "auth0|";
  scopes = [];
  expires_at = 9;
  token = record { access_token = []; token_type = []; refresh_token = []; expiry = 9 };
}

abbrev pub empty : Store
empty = λ k. none

visits-alive_example :
    visits redis gob cfg
      (bytes "s1")
      (100000 ∷ 100000 ∷ 172799 ∷ [])
      (start redis gob cfg (bytes "s1") anna empty).2
    ≡ map (λ (n : ℕ). found anna (bytes "s1")) (100000 ∷ 100000 ∷ 172799 ∷ [])
unfolding start add_to_cache
visits-alive_example =
    visits-alive redis gob cfg redis_law (omega arith) redis-IsAvailable gob-IsGob (bytes "s1") anna
      (100000 ∷ 100000 ∷ 172799 ∷ []) empty refl (omega arith)

-- The session is used twice and then left idle.
visits-over_example :
    visits redis gob cfg (bytes "s1") (172800 ∷ 1 ∷ []) (
      visited redis gob cfg
        (bytes "s1")
        (100000 ∷ 100000 ∷ [])
        (start redis gob cfg (bytes "s1") anna empty).2)
    ≡ map (λ (n : ℕ). no_session) (172800 ∷ 1 ∷ [])
unfolding start add_to_cache
visits-over_example =
    visits-over redis gob cfg redis_law (omega arith) (bytes "s1")
      (timed_out anna (100000 ∷ 100000 ∷ []) 172800 (1 ∷ []) empty refl (omega arith))
