-- ===== src/Http/Guarding.antt =====
-- What the middleware makes sure of, whatever the handlers behind it do.
use filmstund.Base.{
  ℕ, ◌<◌, ◌≡◌, refl, ap, ◌∙◌, true, false, not, Option, none, some, List, [], ◌∷◌, ◌++◌, map, All,
  select, ◌==◌, texts,
}
use filmstund.Base.Text.{Text, bytes}
use filmstund.Session.Client.{Found, no_session, found, lookup}
use filmstund.Session.Lifetime.{IsRedis, visits, Over, visits-over}
use filmstund.Auth.Handlers.{Site}
use filmstund.Http.Writer.{
  Headers, Writer, fresh, first_sent, set_header, write_header, write, http_error,
}
use filmstund.Http.Errors.{unauthorized}
use filmstund.Http.Replies.{send_error-Sends}
use filmstund.Http.Middleware.{
  Request, Ran, returned, panicked, HttpHandler, recovered, recover_panic, maintenance_message,
  process_maintenance, admitted, authorize_session,
}
use filmstund.Http.Server.{
  Route, graphql_route, calendar_route, Server, calendar_feed_handler, authorized, routed, serve,
}

-- The status that the client gets, if one was sent.
abbrev pub status_sent : Option (ℕ × Headers) → Option ℕ
status_sent none = none
status_sent (some (code, headers)) = some code

module _ {S : Type 0} (server : Server S) where
  -- In maintenance mode every request that the router has a route for gets the status 503 and the
  -- message as JSON, and neither the database nor redis is touched, whatever the handlers do.
  pub serve-maintenance :
      (r : Request) (route : Route) (headers : Headers) (s : Site S)
      → server.router r ≡ some route
      → server.maintenance ≡ true
      → (status_sent (serve server r (fresh headers) s).1.sent ≡ some 503)
        × ((serve server r (fresh headers) s).1.body ≡ maintenance_message)
        × ((serve server r (fresh headers) s).2 ≡ s)
  unfolding serve recover_panic process_maintenance set_header write_header write
  serve-maintenance r route headers s e on = rw (e, on) (refl, refl, refl)

  -- What the client gets after a handler: a panic is answered, if nothing was sent before it.
  abbrev pub status_after : Ran → Option (ℕ × Headers) → Option ℕ
  status_after returned sent = status_sent sent
  status_after panicked none = some 500
  status_after panicked (some (code, headers)) = some code

  -- The handler of a route without the recovery from panics.
  abbrev pub exposed : Route → HttpHandler S
  exposed route = process_maintenance server.maintenance (server.cors (routed server route))

  -- The text that answers a panic.
  abbrev pub apology : Text
  apology = bytes "{\"error\": \"an unexpected error occurred\"}" ++ 10 ∷ []

  abbrev but : Text → Headers → Headers
  but k headers = select (λ (h : Text × Text). not (h.0 == k)) headers

  -- These headers for a plain text whose type no browser guesses.
  abbrev pub plain_text : Headers → Headers
  plain_text headers =
      (bytes "X-Content-Type-Options", bytes "nosniff")
      ∷ but (bytes "X-Content-Type-Options") (
          (bytes "Content-Type", bytes "text/plain; charset=utf-8")
          ∷ but (bytes "Content-Type") headers)

  abbrev pub sent_or : Option (ℕ × Headers) → ℕ × Headers → ℕ × Headers
  sent_or none default = default
  sent_or (some before) default = before

  -- The response after a handler: that of the handler where it returns, and else its body with the
  -- apology behind it and, if it had sent nothing, the status 500 and a plain text.
  abbrev pub Answers : Ran → Writer → Writer → Type 0
  Answers returned w v = v ≡ w
  Answers panicked w v =
      (v.body ≡ w.body ++ apology) × (v.sent ≡ some (sent_or w.sent (500, plain_text w.headers)))

  first_answer :
      (sent : Option (ℕ × Headers)) (h h' : Headers)
      → first_sent (first_sent sent 500 h) 200 h' ≡ some (sent_or sent (500, h))
  first_answer none h h' = refl
  first_answer (some before) h h' = refl

  first_status :
      (sent : Option (ℕ × Headers)) (h h' : Headers)
      → status_sent (first_sent (first_sent sent 500 h) 200 h') ≡ status_after panicked sent
  first_status none h h' = refl
  first_status (some (code, headers)) h h' = refl

  recovered-Answers :
      (x : Ran × Writer × Site S)
      → ((recovered x).0 ≡ returned)
        × Answers x.0 x.1 (recovered x).1
        × (status_sent (recovered x).1.sent ≡ status_after x.0 x.1.sent)
        × ((recovered x).2 ≡ x.2)
  unfolding http_error set_header write_header write
  recovered-Answers (returned, w, s) = (refl, refl, refl, refl)
  recovered-Answers (panicked, w, s) =
      (refl, (refl, first_answer w.sent _ _), first_status w.sent _ _, refl)

  -- A request that the router has a route for never ends in a panic. If its handler returns the
  -- response is what it made it. If it panics the status and the headers are those that it had
  -- sent or, if it had sent none, the status 500 and its headers with those of a plain text, and
  -- the body is what it had written and then the apology. What it did to the database and to
  -- redis stays.
  pub serve-returned :
      (r : Request) (route : Route) (w : Writer) (s : Site S)
      → server.router r ≡ some route
      → ((serve server r w s).0 ≡ returned)
        × Answers (exposed route r w s).0 (exposed route r w s).1 (serve server r w s).1
        × (status_sent (serve server r w s).1.sent
            ≡ status_after (exposed route r w s).0 (exposed route r w s).1.sent)
        × ((serve server r w s).2 ≡ (exposed route r w s).2)
  unfolding serve recover_panic
  serve-returned r route w s e = rw e (recovered-Answers (exposed route r w s))

  -- The package for CORS lets the request through, perhaps with more headers.
  pub record Passes (r : Request) : Type 0 where
    pub headed : Headers → Headers
    pub at :
        (next : HttpHandler S) (headers : Headers) (s : Site S)
        → server.cors next r (fresh headers) s ≡ next r (fresh (headed headers)) s

  -- A request to the API or to a calendar with this cookie.
  pub data NeedsSession (id : Text) (r : Request) : Type 0 where
    to_api : server.router r ≡ some graphql_route → r.cookie ≡ some id → NeedsSession id r
    to_calendar :
        (feed : Text)
        → server.router r ≡ some (calendar_route feed)
        → r.cookie ≡ some id
        → NeedsSession id r

  -- Requests that each come after a pause, and what was sent to each of them.
  unfoldable pub requests : List (ℕ × Request) → Site S → List (Option ℕ) × Site S
  requests [] s = ([], s)
  requests ((n, r) ∷ rest) s =
      let (ran, w, s') =
        serve server r (fresh []) (record s { store = server.redis.wait n s.store }) in
      let (others, s'') = requests rest s' in (status_sent w.sent ∷ others, s'')

  unauthorized-sent :
      (headers : Headers)
      → (unauthorized server.marshal server.now (fresh headers)).sent ≡ some (401, headers)
  unfolding unauthorized
  unauthorized-sent headers =
      (send_error-Sends server.marshal server.now 401 _ (401, headers) [] (fresh headers) refl
        refl).0

  abbrev look_at : Option Text → Site S → Found × S
  look_at cookie s = lookup server.redis server.gob server.session_config cookie s.store

  abbrev judged : HttpHandler S → Request → Writer → Site S → Found × S → Ran × Writer × Site S
  judged next r w s x =
      admitted server.redis server.gob server.session_config server.marshal server.now next r w s x

  judged-missing :
      (next : HttpHandler S) (r : Request) (w : Writer) (s : Site S) (x : Found × S)
      → x.0 ≡ no_session
      → recovered (judged next r w s x)
        ≡ (returned, unauthorized server.marshal server.now w, record s { store = x.1 })
  judged-missing next r w s (no_session, store) e = refl
  judged-missing next r w s (found p id, store) e = cc

  module _ (working : server.maintenance ≡ false) where
    -- A guarded handler does not run without a session.
    guarded :
        (next : HttpHandler S) (id : Text) (r : Request) (passes : Passes r) (s : Site S)
        → r.cookie ≡ some id
        → (look_at (some id) s).0 ≡ no_session
        → recover_panic
            (process_maintenance server.maintenance (server.cors (authorized server next)))
            r
            (fresh [])
            s
          ≡ (
            returned,
            unauthorized server.marshal server.now (fresh (passes.headed [])),
            record s { store = (look_at (some id) s).1 },
          )
    unfolding recover_panic process_maintenance authorize_session
    guarded next id r passes s cookie missing = rw working (
        ap (λ (x : Ran × Writer × Site S). recovered x) (passes.at (authorized server next) [] s)
        ∙ ap
            (λ (c : Option Text).
              recovered (judged next r (fresh (passes.headed [])) s (look_at c s)))
            cookie
        ∙ judged-missing next r (fresh (passes.headed [])) s (look_at (some id) s) missing)

    one_refused :
        (id : Text) (r : Request) (s : Site S)
        → NeedsSession id r
        → Passes r
        → (look_at (some id) s).0 ≡ no_session
        → (status_sent (serve server r (fresh []) s).1.sent ≡ some 401)
          × ((serve server r (fresh []) s).2 ≡ record s { store = (look_at (some id) s).1 })
    unfolding serve
    one_refused id r s (to_api e cookie) passes missing =
        let x = guarded server.handlers.graphql id r passes s cookie missing in
        rw (e, x) (ap status_sent (unauthorized-sent (passes.headed [])), refl)
    one_refused id r s (to_calendar feed e cookie) passes missing =
        let x = guarded (calendar_feed_handler feed) id r passes s cookie missing in
        rw (e, x) (ap status_sent (unauthorized-sent (passes.headed [])), refl)

    each_refused :
        (id : Text) (calls : List (ℕ × Request)) (s : Site S)
        → All (λ (c : ℕ × Request). NeedsSession id c.1 × Passes c.1) calls
        → visits server.redis server.gob server.session_config id
            (map (λ (c : ℕ × Request). c.0) calls)
            s.store
          ≡ map (λ n. no_session) (map (λ (c : ℕ × Request). c.0) calls)
        → ((requests calls s).0 ≡ map (λ c. some 401) calls)
          × ((requests calls s).1.world ≡ s.world)
    unfolding requests visits
    each_refused id [] s h e = (refl, refl)
    each_refused id ((n, r) ∷ rest) s (((needs, passes), h)) e =
        let s' : Site S = record s { store = server.redis.wait n s.store } in
        let (status, site) = one_refused id r s' needs passes (cc) in
        let (others, world) =
          each_refused id rest (record s { store = (look_at (some id) s').1 }) h (cc) in
        rw (status, site) (ap (◌∷◌ (some 401)) others, world)

    -- When a session is over, since its time has passed since its start and its last use or its
    -- user has logged out, no request to the API or to a calendar with its cookie gets further
    -- than the middleware: each is answered with the status 401 and the database stays as it is,
    -- however many there are and whichever calls to redis fail, if the server is not in
    -- maintenance mode and the package for CORS lets the requests through.
    pub requests-refused :
        (law : IsRedis server.redis) (id : Text) (calls : List (ℕ × Request)) (s : Site S)
        → 0 < server.session_config.expiration_time
        → Over server.redis server.gob server.session_config id s.store
            (map (λ (c : ℕ × Request). c.0) calls)
        → All (λ (c : ℕ × Request). NeedsSession id c.1 × Passes c.1) calls
        → ((requests calls s).0 ≡ map (λ c. some 401) calls)
          × ((requests calls s).1.world ≡ s.world)
    requests-refused law id calls s alive over h =
        each_refused id calls s h
          (visits-over server.redis server.gob server.session_config law alive id over)
