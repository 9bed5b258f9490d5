-- ===== src/Session/Lifetime.antt =====
-- How long a session lives: as long as it is used, and no longer.
use filmstund.Base.{
  ℕ, ◌-◌, ◌<◌, ◌≤◌, ◌≡◌, ◌⊎◌, inl, inr, Bool-cases, refl, ap, ◌∙◌, true, Option, none, some, List,
  [], ◌∷◌, map, All, ltb, if◌then◌else◌, arith,
}
use filmstund.Base.Text.{Text}
use filmstund.Session.Client.{
  Principal, Redis, Gob, Config, done, Found, no_session, found, put_encoded, add_to_cache, start,
  extended, decoded, get_from_cache, lookup, invalidate,
}

-- A key with `t` left to live, after `n`.
abbrev pub elapsed : ℕ → Option (Text × ℕ) → Option (Text × ℕ)
elapsed n none = none
elapsed n (some (v, t)) = if ltb n t then some (v, t - n) else none

-- What redis documents of its keys, whichever calls fail: `view` is the value of a key and how long
-- it has left. A time to live of 0 is none.
pub record IsRedis {S : Type 0} (redis : Redis S) : Type 0 where
  pub view : S → Text → Option (Text × ℕ)
  pub get_reads : (k : Text) (s : S) → view s k ≡ none → redis.get k s ≡ none
  pub set_stores :
      (k v : Text) (n : ℕ) (s : S)
      → 0 < n
      → (redis.set k v n s).0 ≡ true
      → view (redis.set k v n s).1 k ≡ some (v, n)
  pub expire_sets :
      (k v : Text) (t n : ℕ) (s : S)
      → view s k ≡ some (v, t)
      → (view (redis.expire k n s).1 k ≡ some (v, t))
        ⊎ (view (redis.expire k n s).1 k ≡ some (v, n))
  pub expire_missing :
      (k : Text) (n : ℕ) (s : S) → view s k ≡ none → view (redis.expire k n s).1 k ≡ none
  pub del_removes : (k : Text) (s : S) → (redis.del k s).0 ≡ true → view (redis.del k s).1 k ≡ none
  pub wait_counts : (n : ℕ) (k : Text) (s : S) → view (redis.wait n s) k ≡ elapsed n (view s k)

-- A server that answers every call.
pub record IsAvailable {S : Type 0} (redis : Redis S) (law : IsRedis redis) : Type 0 where
  pub get_answers :
      (k v : Text) (t : ℕ) (s : S) → law.view s k ≡ some (v, t) → redis.get k s ≡ some v
  pub expire_extends :
      (k v : Text) (t n : ℕ) (s : S)
      → law.view s k ≡ some (v, t)
      → 0 < n
      → ((redis.expire k n s).0 ≡ true) × (law.view (redis.expire k n s).1 k ≡ some (v, n))

-- What gob documents: a value that is encoded is decoded again.
pub record IsGob (gob : Gob) : Type 0 where
  pub round_trip : (p : Principal) (v : Text) → gob.encode p ≡ some v → gob.decode v ≡ some p

module _ {S : Type 0} (redis : Redis S) (gob : Gob) (cfg : Config) where
  -- Requests with one cookie, each after a pause.
  unfoldable pub visits : Text → List ℕ → S → List Found
  visits id [] s = []
  visits id (n ∷ ns) s =
      let (f, s') = lookup redis gob cfg (some id) (redis.wait n s) in f ∷ visits id ns s'

  -- What they leave.
  unfoldable pub visited : Text → List ℕ → S → S
  visited id [] s = s
  visited id (n ∷ ns) s = visited id ns (lookup redis gob cfg (some id) (redis.wait n s)).1

  -- After the start and any number of requests the next one comes too late, or the requests come after
  -- the logout.
  pub data Over (id : Text) : S → List ℕ → Type 0 where
    timed_out :
        (p : Principal) (before : List ℕ) (n : ℕ) (ns : List ℕ) (s : S)
        → (start redis gob cfg id p s).0 ≡ done
        → cfg.expiration_time ≤ n
        → Over id (visited id before (start redis gob cfg id p s).2) (n ∷ ns)
    logged_out :
        (ns : List ℕ) (s : S)
        → (invalidate redis gob cfg (some id) s).0 ≡ done
        → Over id (invalidate redis gob cfg (some id) s).2 ns

module _ {S : Type 0} (redis : Redis S) (gob : Gob) (cfg : Config) (law : IsRedis redis)
    (alive : 0 < cfg.expiration_time) where
  -- A key that is missing is missed, and stays so.
  lookup-missing :
      (id : Text) (s : S)
      → law.view s id ≡ none
      → ((lookup redis gob cfg (some id) s).0 ≡ no_session)
        × (law.view (lookup redis gob cfg (some id) s).1 id ≡ none)
  unfolding lookup get_from_cache
  lookup-missing id s e = rw (law.get_reads id s e) (refl, e)

  wait-missing :
      (n : ℕ) (id : Text) (s : S) → law.view s id ≡ none → law.view (redis.wait n s) id ≡ none
  wait-missing n id s e = law.wait_counts n id s ∙ ap (λ o. elapsed n o) e

  visits-missing :
      (id : Text) (ns : List ℕ) (s : S)
      → law.view s id ≡ none
      → visits redis gob cfg id ns s ≡ map (λ n. no_session) ns
  unfolding visits
  visits-missing id [] s e = refl
  visits-missing id (n ∷ ns) s e =
      let gone = lookup-missing id (redis.wait n s) (wait-missing n id s e) in
      rw (gone.0, visits-missing id ns (lookup redis gob cfg (some id) (redis.wait n s)).1 gone.1)
        refl

  put-stored :
      (o : Option Text) (id : Text) (s : S)
      → (put_encoded redis gob cfg o id s).0 ≡ done
      → (v : Text) × (o ≡ some v)
        × (law.view (put_encoded redis gob cfg o id s).1 id ≡ some (v, cfg.expiration_time))
  put-stored none id s e = cc
  put-stored (some v) id s e =
      (v, refl, law.set_stores id v cfg.expiration_time s alive (ground arith))

  start-stored :
      (id : Text) (p : Principal) (s : S)
      → (start redis gob cfg id p s).0 ≡ done
      → (v : Text) × (gob.encode p ≡ some v)
        × (law.view (start redis gob cfg id p s).2 id ≡ some (v, cfg.expiration_time))
  unfolding start add_to_cache
  start-stored id p s e = put-stored (gob.encode p) id s e

  -- No more is left to live than a session is given.
  abbrev Bounded : Option (Text × ℕ) → Type 0
  Bounded none = Unit
  Bounded (some (v, t)) = t ≤ cfg.expiration_time

  elapsed-Bounded : (n : ℕ) (o : Option (Text × ℕ)) → Bounded o → Bounded (elapsed n o)
  elapsed-Bounded n none h = tt
  elapsed-Bounded n (some (v, t)) h = elim (Bool-cases (ltb n t)) [
    | inl early ↦ rw early (omega (arith, h))
    | inr late ↦ rw late tt
  ]

  expire-Bounded :
      (id : Text) (s : S) (o : Option (Text × ℕ))
      → law.view s id ≡ o
      → Bounded o
      → Bounded (law.view (redis.expire id cfg.expiration_time s).1 id)
  expire-Bounded id s none e h = rw (law.expire_missing id cfg.expiration_time s e) tt
  expire-Bounded id s (some (v, t)) e h = elim (law.expire_sets id v t cfg.expiration_time s e) [
    | inl left ↦ rw left h
    | inr renewed ↦ rw renewed (omega arith)
  ]

  extended-Bounded :
      (o : Option Principal) (id : Text) (s : S)
      → Bounded (law.view s id)
      → Bounded (law.view (extended redis gob cfg o id s).1 id)
  extended-Bounded none id s h = h
  extended-Bounded (some p) id s h = expire-Bounded id s (law.view s id) refl h

  decoded-Bounded :
      (o : Option Text) (id : Text) (s : S)
      → Bounded (law.view s id)
      → Bounded (law.view (decoded redis gob cfg o id s).1 id)
  decoded-Bounded none id s h = h
  decoded-Bounded (some v) id s h = extended-Bounded (gob.decode v) id s h

  visited-Bounded :
      (id : Text) (before : List ℕ) (s : S)
      → Bounded (law.view s id)
      → Bounded (law.view (visited redis gob cfg id before s) id)
  unfolding visited lookup get_from_cache
  visited-Bounded id [] s h = h
  visited-Bounded id (n ∷ ns) s h = visited-Bounded id ns _ (
      decoded-Bounded (redis.get id (redis.wait n s)) id (redis.wait n s)
        (rw (law.wait_counts n id s) (elapsed-Bounded n (law.view s id) h)))

  too_late :
      (n : ℕ) (o : Option (Text × ℕ)) → Bounded o → cfg.expiration_time ≤ n → elapsed n o ≡ none
  too_late n none h late = refl
  too_late n (some (v, t)) h late = ground (arith, h, late)

  expired-visits :
      (id : Text) (p : Principal) (before : List ℕ) (n : ℕ) (ns : List ℕ) (s : S)
      → (start redis gob cfg id p s).0 ≡ done
      → cfg.expiration_time ≤ n
      → visits redis gob cfg id
          (n ∷ ns)
          (visited redis gob cfg id before (start redis gob cfg id p s).2)
        ≡ map (λ n. no_session) (n ∷ ns)
  unfolding visits
  expired-visits id p before n ns s e h =
      let s' : S = visited redis gob cfg id before (start redis gob cfg id p s).2 in
      let bounded : Bounded (law.view s' id) =
        visited-Bounded id before (start redis gob cfg id p s).2
          (rw (start-stored id p s e).2 (omega arith)) in
      let over : law.view (redis.wait n s') id ≡ none =
        law.wait_counts n id s' ∙ too_late n (law.view s' id) bounded h in
      let gone = lookup-missing id (redis.wait n s') over in
      rw (gone.0, visits-missing id ns (lookup redis gob cfg (some id) (redis.wait n s')).1 gone.1)
        refl

  ended-visits :
      (id : Text) (ns : List ℕ) (s : S)
      → (invalidate redis gob cfg (some id) s).0 ≡ done
      → visits redis gob cfg id ns (invalidate redis gob cfg (some id) s).2
        ≡ map (λ n. no_session) ns
  unfolding invalidate
  ended-visits id ns s e =
      visits-missing id ns (redis.del id s).1 (law.del_removes id s (ground arith))

  -- A session is over when its time has passed since it was started and since every request with
  -- its cookie, and when it has been invalidated with success: from then on every request with
  -- its cookie is refused, whichever calls to redis fail.
  pub visits-over :
      (id : Text) {s : S} {ns : List ℕ}
      → Over redis gob cfg id s ns
      → visits redis gob cfg id ns s ≡ map (λ n. no_session) ns
  visits-over id (timed_out p before n ns s e h) = expired-visits id p before n ns s e h
  visits-over id (logged_out ns s e) = ended-visits id ns s e

  module _ (up : IsAvailable redis law) (codec : IsGob gob) where
    lookup-found :
        (id v : Text) (t : ℕ) (p : Principal) (s : S)
        → gob.encode p ≡ some v
        → law.view s id ≡ some (v, t)
        → ((lookup redis gob cfg (some id) s).0 ≡ found p id)
          × (law.view (lookup redis gob cfg (some id) s).1 id ≡ some (v, cfg.expiration_time))
    unfolding lookup get_from_cache
    lookup-found id v t p s coded e =
        let extends = up.expire_extends id v t cfg.expiration_time s e alive in
        rw (up.get_answers id v t s e, codec.round_trip p v coded) (rw extends.0 refl, extends.1)

    visits-found :
        (id v : Text) (t : ℕ) (p : Principal) (ns : List ℕ) (s : S)
        → gob.encode p ≡ some v
        → law.view s id ≡ some (v, t)
        → All (λ n. n < t) ns
        → t ≡ cfg.expiration_time
        → visits redis gob cfg id ns s ≡ map (λ n. found p id) ns
    unfolding visits
    visits-found id v t p [] s coded e h same = refl
    visits-found id v t p (n ∷ ns) s coded e h same =
        let still : law.view (redis.wait n s) id ≡ some (v, t - n) =
          law.wait_counts n id s ∙ ap (λ o. elapsed n o) e ∙ ground arith in
        let step = lookup-found id v (t - n) p (redis.wait n s) coded still in
        rw
          (
            step.0,
            visits-found id v t p ns (lookup redis gob cfg (some id) (redis.wait n s)).1 coded
                (rw same step.1) h.1 same,
          )
          refl

    -- A session that was started answers every request that comes within the time of the one before,
    -- however long it goes on, with the principal that it was started for, if redis answers.
    pub visits-alive :
        (id : Text) (p : Principal) (ns : List ℕ) (s : S)
        → (start redis gob cfg id p s).0 ≡ done
        → All (λ n. n < cfg.expiration_time) ns
        → visits redis gob cfg id ns (start redis gob cfg id p s).2 ≡ map (λ n. found p id) ns
    visits-alive id p ns s e h =
        let stored = start-stored id p s e in
        visits-found id stored.0 cfg.expiration_time p ns (start redis gob cfg id p s).2 stored.1
          stored.2 h refl
