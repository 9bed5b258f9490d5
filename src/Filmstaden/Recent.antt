-- ===== src/Filmstaden/Recent.antt =====
-- How old the answers of the Filmstaden client are.
use filmstund.Base.{
  ℕ, ◌+◌, ◌*◌, ◌≤◌, ◌<◌, ◌≡◌, ◌⊎◌, inl, inr, refl, ap, ◌∙◌, Bool, true, ◌&&◌, Option, none, some,
  List, [], ◌∷◌, map, any, leb, ltb, ◌-◌, ◌==◌, texts, list_eq_iff, if◌then◌else◌, Bool-cases,
  arith,
}
use filmstund.Base.Text.{Text}
use filmstund.Filmstaden.Client.{
  Outside, unmarshal, do_request, kept, body_from, get_body, decoded_get,
}

abbrev pub twelve_hours : ℕ
twelve_hours = 12 * 60 * 60

-- A key with `t` left to live, after `n`.
abbrev pub left_after : ℕ → Option (Text × ℕ) → Option (Text × ℕ)
left_after n none = none
left_after n (some (v, t)) = if ltb n t then some (v, t - n) else none

-- What redis documents of the key `url`, whichever calls fail: `view` is its value and how long it has
-- left. A request leaves the cache alone.
pub record IsCache {S : Type 0} (outside : Outside S) (url : Text) : Type 0 where
  pub view : S → Option (Text × ℕ)
  pub get_reads : (v : Text) (s : S) → outside.get url s ≡ some v → (t : ℕ) × (view s ≡ some (v, t))
  pub set_stores :
      (v : Text) (n : ℕ) (s : S)
      → (view (outside.set url v n s).1 ≡ some (v, n)) ⊎ (view (outside.set url v n s).1 ≡ view s)
  pub send_leaves : (s : S) → view (outside.send url s).1 ≡ view s
  pub wait_counts : (n : ℕ) (s : S) → view (outside.wait n s) ≡ left_after n (view s)

-- The bodies that Filmstaden has served for the URL, with their ages.
abbrev pub Served : Type 0
Served = List (Text × ℕ)

abbrev pub aged : ℕ → Served → Served
aged n served = map (λ (e : Text × ℕ). (e.0, e.1 + n)) served

abbrev pub with_body : Option Text → Served → Served
with_body none served = served
with_body (some body) served = (body, 0) ∷ served

abbrev pub is_recent : Text → ℕ → Text × ℕ → Bool
is_recent body age e = e.0 == body && leb e.1 age

module _ {S : Type 0} (outside : Outside S) (url : Text) (cache : IsCache outside url) where
  -- What a look-up adds.
  abbrev pub noted : Option Text → S → Served → Served
  noted (some cached) s served = served
  noted none s served = with_body (do_request outside url s).0 served

  -- What has been served when the server is in this state: time passes, the client looks the URL up,
  -- and whoever else uses redis leaves its key alone, or the key is evicted.
  pub data History : S → Served → Type 0 where
    unknown : (s : S) → cache.view s ≡ none → History s []
    pause :
        (n : ℕ) {s : S} {served : Served}
        → History s served
        → History (outside.wait n s) (aged n served)
    look_up :
        {s : S} {served : Served}
        → History s served
        → History (get_body outside url s).1 (noted (outside.get url s) s served)
    other :
        {s : S} (s' : S) {served : Served}
        → History s served
        → (cache.view s' ≡ cache.view s) ⊎ (cache.view s' ≡ none)
        → History s' served

  -- What is cached was served so long ago as its time to live has run.
  abbrev IsFresh : Option (Text × ℕ) → Served → Type 0
  IsFresh none served = Unit {0}
  IsFresh (some (v, t)) served =
      (a : ℕ) × (a + t ≤ twelve_hours) × (any (is_recent v a) served ≡ true)

  any-aged :
      (v : Text) (a n : ℕ) (served : Served)
      → any (is_recent v a) served ≡ true
      → any (is_recent v (a + n)) (aged n served) ≡ true
  any-aged v a n [] h = h
  any-aged v a n (e ∷ served) h = ground (arith, any-aged v a n served)

  IsFresh-left :
      (n : ℕ) (o : Option (Text × ℕ)) (served : Served)
      → IsFresh o served
      → IsFresh (left_after n o) (aged n served)
  IsFresh-left n none served h = tt
  IsFresh-left n (some (v, t)) served (a, small, there) = elim (Bool-cases (ltb n t)) [
    | inl lives ↦ rw lives (a + n, ground arith, any-aged v a n served there)
    | inr gone ↦ rw gone tt
  ]

  IsFresh-with_body :
      (o : Option (Text × ℕ)) (body : Option Text) (served : Served)
      → IsFresh o served
      → IsFresh o (with_body body served)
  IsFresh-with_body o none served h = h
  IsFresh-with_body none (some body) served h = tt
  IsFresh-with_body (some (v, t)) (some body) served (a, small, there) = (a, small, ground arith)

  new_body : (v : Text) (served : Served) → any (is_recent v 0) ((v, 0) ∷ served) ≡ true
  new_body v served = ground (arith, list_eq_iff v v)

  -- The answer of a look-up in the cache or of a request.
  kept-IsFresh :
      (body : Option Text) (s : S) (served : Served)
      → IsFresh (cache.view s) served
      → IsFresh (cache.view (kept outside url (body, s)).1) (with_body body served)
  kept-IsFresh none s served h = h
  kept-IsFresh (some body) s served h = elim (cache.set_stores body twelve_hours s) [
    | inl stored ↦ rw stored (0, omega arith, new_body body served)
    | inr left ↦ rw left (IsFresh-with_body (cache.view s) (some body) served h)
  ]

  get_body-IsFresh :
      (o : Option Text) (s : S) (served : Served)
      → IsFresh (cache.view s) served
      → IsFresh (cache.view (body_from outside o url s).1) (noted o s served)
  unfolding do_request
  get_body-IsFresh (some cached) s served h = h
  get_body-IsFresh none s served h =
      kept-IsFresh (do_request outside url s).0 (outside.send url s).1 served
        (rw (cache.send_leaves s) h)

  History-IsFresh : {s : S} {served : Served} → History s served → IsFresh (cache.view s) served
  unfolding get_body
  History-IsFresh (unknown s e) = rw e tt
  History-IsFresh (pause n {s} {served} h) =
      rw (cache.wait_counts n s) (IsFresh-left n (cache.view s) served (History-IsFresh h))
  History-IsFresh (look_up {s} {served} h) =
      get_body-IsFresh (outside.get url s) s served (History-IsFresh h)
  History-IsFresh (other s' h (inl same)) = rw same (History-IsFresh h)
  History-IsFresh (other s' h (inr gone)) = rw gone tt

  weaker :
      (v : Text) (a b : ℕ) (served : Served)
      → a ≤ b
      → any (is_recent v a) served ≡ true
      → any (is_recent v b) served ≡ true
  weaker v a b [] le h = h
  weaker v a b (e ∷ served) le h = ground (arith, weaker v a b served le)

  kept_body :
      (r : Option Text × S) (served : Served) (v : Text)
      → (kept outside url r).0 ≡ some v
      → any (is_recent v twelve_hours) (with_body r.0 served) ≡ true
  kept_body (none, s) served v k = cc
  kept_body (some body, s) served v k = ground (arith, list_eq_iff body v)

  cached_body :
      (cached v : Text) (o : Option (Text × ℕ)) (t : ℕ) (served : Served)
      → o ≡ some (cached, t)
      → cached ≡ v
      → IsFresh o served
      → any (is_recent v twelve_hours) served ≡ true
  cached_body cached v none t served e same h = cc
  cached_body cached v (some (u, t')) t served e same (a, small, there) =
      let u_v : u ≡ v = cc in weaker v a twelve_hours served (omega arith) (rw (← u_v) there)

  body-IsRecent :
      (o : Option Text) (s : S) (served : Served) (v : Text)
      → outside.get url s ≡ o
      → IsFresh (cache.view s) served
      → (body_from outside o url s).0 ≡ some v
      → any (is_recent v twelve_hours) (noted o s served) ≡ true
  body-IsRecent none s served v e h k = kept_body (do_request outside url s) served v k
  body-IsRecent (some cached) s served v e h k =
      let (t, there) = cache.get_reads cached s e in
      cached_body cached v (cache.view s) t served there (cc) h

unmarshalled :
    {A : Type 0} (decode : Text → Option A) (o : Option Text) (a : A)
    → unmarshal decode o ≡ some a
    → (v : Text) × (o ≡ some v) × (decode v ≡ some a)
unmarshalled decode none a h = cc
unmarshalled decode (some v) a h = (v, refl, h)

-- Whatever the client returns is decoded from a body that Filmstaden served for this URL at most
-- twelve hours before, in this look-up or in an earlier one, however many others there were and
-- whichever calls to redis and requests fail, if redis starts without the URL and only the client
-- writes it.
pub decoded_get-IsRecent :
    {S A : Type 0} (outside : Outside S) (url : Text) (cache : IsCache outside url)
    (decode : Text → Option A) (a : A) {s : S} {served : Served}
    → History outside url cache s served
    → (decoded_get outside decode url s).0 ≡ some a
    → (body : Text) × (decode body ≡ some a)
      × (any (is_recent body twelve_hours) (noted outside url cache (outside.get url s) s served)
          ≡ true)
unfolding decoded_get get_body
decoded_get-IsRecent outside url cache decode a {s} {served} h e =
    let (body, from, decoded) = unmarshalled decode (get_body outside url s).0 a e in
    (
      body,
      decoded,
      body-IsRecent outside url cache (outside.get url s) s served body refl
          (History-IsFresh outside url cache h) from,
    )

-- A redis that answers every call.
pub record IsUp {S : Type 0} (outside : Outside S) (url : Text) (cache : IsCache outside url)
    : Type 0 where
  pub get_answers :
      (v : Text) (t : ℕ) (s : S) → cache.view s ≡ some (v, t) → outside.get url s ≡ some v
  pub set_done : (v : Text) (n : ℕ) (s : S) → cache.view (outside.set url v n s).1 ≡ some (v, n)

module _ {S A : Type 0} (outside : Outside S) (decode : Text → Option A) (url : Text) where
  -- Look-ups of the URL, each after a pause.
  unfoldable pub look_ups : List ℕ → S → List (Option A) × S
  look_ups [] s = ([], s)
  look_ups (n ∷ ns) s =
      let (a, s') = decoded_get outside decode url (outside.wait n s) in
      let (others, s'') = look_ups ns s' in (a ∷ others, s'')

  abbrev pub waits : List ℕ → S → S
  waits [] s = s
  waits (n ∷ ns) s = waits ns (outside.wait n s)

  abbrev pub total : List ℕ → ℕ
  total [] = 0
  total (n ∷ ns) = n + total ns

  module _ (cache : IsCache outside url) (up : IsUp outside url cache) where
    one_look_up :
        (v : Text) (t : ℕ) (s : S)
        → cache.view s ≡ some (v, t)
        → decoded_get outside decode url s ≡ (decode v, s)
    unfolding decoded_get get_body
    one_look_up v t s e = rw (up.get_answers v t s e) refl

    look_ups-cached :
        (v : Text) (t : ℕ) (ns : List ℕ) (s : S)
        → cache.view s ≡ some (v, t)
        → total ns < t
        → look_ups ns s ≡ (map (λ n. decode v) ns, waits ns s)
    unfolding look_ups
    look_ups-cached v t [] s e h = refl
    look_ups-cached v t (n ∷ ns) s e h =
        let later : cache.view (outside.wait n s) ≡ some (v, t - n) =
          cache.wait_counts n s ∙ ap (λ o. left_after n o) e ∙ ground arith in
        rw
          (
            one_look_up v (t - n) (outside.wait n s) later,
            look_ups-cached v (t - n) ns (outside.wait n s) later (omega arith),
          )
          refl

    kept-stored :
        (r : Option Text × S) (v : Text)
        → r.0 ≡ some v
        → ((kept outside url r).0 ≡ some v)
          × (cache.view (kept outside url r).1 ≡ some (v, twelve_hours))
    kept-stored (none, s) v e = cc
    kept-stored (some body, s) v e = let stored = up.set_done body twelve_hours s in (e, cc)

    served-stored :
        (v : Text) (s : S)
        → outside.get url s ≡ none
        → (do_request outside url s).0 ≡ some v
        → ((get_body outside url s).0 ≡ some v)
          × (cache.view (get_body outside url s).1 ≡ some (v, twelve_hours))
    unfolding get_body
    served-stored v s missed served = rw missed (kept-stored (do_request outside url s) v served)

    -- A body that Filmstaden has served is the answer of every look-up of its URL for the next
    -- twelve hours, with no request, if redis answers: also where it cannot be decoded, so that each of
    -- them fails.
    pub look_ups-same :
        (v : Text) (ns : List ℕ) (s : S)
        → outside.get url s ≡ none
        → (do_request outside url s).0 ≡ some v
        → total ns < twelve_hours
        → (let s' = (decoded_get outside decode url s).1 in
            ((decoded_get outside decode url s).0 ≡ decode v)
            × (look_ups ns s' ≡ (map (λ n. decode v) ns, waits ns s')))
    unfolding decoded_get
    look_ups-same v ns s missed served short =
        let (body, stored) = served-stored v s missed served in
        (
          ap (unmarshal decode) body,
          look_ups-cached v twelve_hours ns (get_body outside url s).1 stored short,
        )
