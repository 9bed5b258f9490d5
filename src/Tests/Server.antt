-- ===== src/Tests/Server.antt =====
-- The HTTP server, and the query for locations, at concrete inputs.
use filmstund.Base.{
  ℕ, ◌≡◌, ◌↔◌, refl, Bool, true, false, not, ◌&&◌, Option, none, some, List, [], ◌∷◌, ◌++◌, any,
  count, list_eq, ◌==◌, texts, if◌then◌else◌, arith,
}
use filmstund.Base.Text.{Text, bytes}
use filmstund.Base.Sorting.{IsSorted}
use filmstund.Database.{ok}
use filmstund.Database.Execution.{reachable}
use filmstund.Dao.Locations.{
  more_used, used, is_blank, is_at, previously_used_locations, previously_used_locations-IsSorted,
}
use filmstund.Session.Client.{start, invalidate}
use filmstund.Session.Lifetime.{logged_out}
use filmstund.Auth.Handlers.{Site}
use filmstund.Http.Writer.{fresh}
use filmstund.Http.Errors.{ErrorResponse, respond_based_on_err, extract_token_from_header}
use filmstund.Http.Replies.{
  status_of, documents, Sends, respond_based_on_err-Sends, extract_token_from_header_iff,
}
use filmstund.Http.Middleware.{
  Request, returned, panicked, HttpHandler, maintenance_message, process_maintenance,
}
use filmstund.Http.Server.{graphql_route, files_route, Server, serve}
use filmstund.Http.Guarding.{
  status_sent, Answers, Passes, to_api, requests, serve-maintenance, serve-returned,
  requests-refused,
}
use filmstund.Tests.Samples.{club}
use filmstund.Tests.Sessions.{Store, redis, redis_law, gob, cfg, anna, empty}

abbrev message : ErrorResponse → Option Text
message response = some response.error

respond_based_on_err-Sends_example :
    Sends message 5
      (status_of none, [])
      (documents message 5 none)
      (respond_based_on_err message 5 none (fresh []))
respond_based_on_err-Sends_example = respond_based_on_err-Sends message 5 none []

token_of_header :
    (extract_token_from_header (bytes "Bearer abc") ≡ some (bytes "abc"))
    ↔ (bytes "Bearer abc" ≡ bytes "Bearer " ++ bytes "abc")
token_of_header = extract_token_from_header_iff (bytes "Bearer abc") (bytes "abc")

-- A handler that panics at once.
abbrev crash : HttpHandler Store
crash r w s = (panicked, w, s)

abbrev server : Bool → Server Store
server maintenance = record {
  maintenance = maintenance;
  redis = redis;
  gob = gob;
  session_config = cfg;
  marshal = message;
  now = 5;
  router = λ r. if r.path == bytes "/api/graphql" then some graphql_route else some files_route;
  cors = λ next. next;
  handlers = record {
    graphql = crash;
    login = crash;
    callback = crash;
    logout = crash;
    files = crash;
    unrouted = crash;
  };
}

abbrev call_of : Text → Request
call_of path = record {
  method = bytes "POST";
  path = path;
  cookie = some (bytes "s1");
  session = none;
}

abbrev here : Site Store
here = record { world = reachable club 5; store = empty }

serve-maintenance_example :
    (status_sent (serve (server true) (call_of (bytes "/api/graphql")) (fresh []) here).1.sent
      ≡ some 503)
    × ((serve (server true) (call_of (bytes "/api/graphql")) (fresh []) here).1.body
        ≡ maintenance_message)
    × ((serve (server true) (call_of (bytes "/api/graphql")) (fresh []) here).2 ≡ here)
unfolding list_eq
serve-maintenance_example =
    serve-maintenance (server true) (call_of (bytes "/api/graphql")) graphql_route [] here refl refl

serve-returned_example :
    ((serve (server false) (call_of (bytes "/")) (fresh []) here).0 ≡ returned)
    × Answers
        (server false)
        panicked
        (fresh [])
        (serve (server false) (call_of (bytes "/")) (fresh []) here).1
    × (status_sent (serve (server false) (call_of (bytes "/")) (fresh []) here).1.sent ≡ some 500)
    × ((serve (server false) (call_of (bytes "/")) (fresh []) here).2 ≡ here)
unfolding list_eq process_maintenance
serve-returned_example =
    serve-returned (server false) (call_of (bytes "/")) files_route (fresh []) here refl

-- The session is ended, and used for two requests.
abbrev after_logout : Site Store
after_logout = record {
  world = reachable club 5;
  store =
      (invalidate redis gob cfg (some (bytes "s1"))
        (start redis gob cfg (bytes "s1") anna empty).2).2;
}

abbrev two_calls : List (ℕ × Request)
two_calls = (1, call_of (bytes "/api/graphql")) ∷ (60, call_of (bytes "/api/graphql")) ∷ []

abbrev passes : (r : Request) → Passes (server false) r
passes r = record { headed = λ headers. headers; at = λ next headers s. refl }

requests-refused_example :
    ((requests (server false) two_calls after_logout).0 ≡ some 401 ∷ some 401 ∷ [])
    × ((requests (server false) two_calls after_logout).1.world ≡ reachable club 5)
unfolding start invalidate list_eq
requests-refused_example =
    requests-refused (server false) refl redis_law (bytes "s1") two_calls after_logout (omega arith)
      (logged_out (1 ∷ 60 ∷ []) (start redis gob cfg (bytes "s1") anna empty).2 refl)
      ((to_api refl refl, passes _), ((to_api refl refl, passes _), tt))

locations_in_order :
    (ts : List Text) × (previously_used_locations (λ ts. ts) 5 club ≡ ok (ts, club))
    × IsSorted (more_used (used club.showings)) ts
    × ((t : Text)
        → count (λ k. k == t) ts
          ≡ (if not (is_blank t) && any (is_at t) club.showings then 1 else 0))
locations_in_order =
    previously_used_locations-IsSorted (λ ts. ts) 5 club (record { at = λ p ts. refl })
