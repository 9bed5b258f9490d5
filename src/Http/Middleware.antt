-- ===== src/Http/Middleware.antt =====
-- internal/middleware, without the logger, which only adds to the context of a request.
use filmstund.Base.{ℕ, Bool, Option, some, if◌then◌else◌}
use filmstund.Base.Text.{Text, bytes}
use filmstund.Session.Client.{Principal, Redis, Gob, Config, Found, no_session, found, lookup}
use filmstund.Auth.Handlers.{Site}
use filmstund.Http.Writer.{Writer, set_header, write_header, write, http_error}
use filmstund.Http.Errors.{ErrorResponse, unauthorized}

-- A request: its method, its path, the value of the session's cookie, and what AuthorizeSession puts
-- into its context.
pub record Request : Type 0 where
  pub method : Text
  pub path : Text
  pub cookie : Option Text
  pub session : Option (Principal × Text)

-- How a handler ends.
pub data Ran : Type 0 where
  returned panicked : Ran

-- `http.Handler`, on the database and on redis.
abbrev pub HttpHandler : Type 0 → Type 0
HttpHandler S = Request → Writer → Site S → Ran × Writer × Site S

abbrev pub maintenance_message : Text
maintenance_message = bytes "{\"error\": \"server is down for maintenance mode\"}"

module _ {S : Type 0} where
  abbrev pub recovered : Ran × Writer × Site S → Ran × Writer × Site S
  recovered (returned, w, s) = (returned, w, s)
  recovered (panicked, w, s) =
      (returned, http_error (bytes "{\"error\": \"an unexpected error occurred\"}") 500 w, s)

  -- `RecoverPanic`
  unfoldable pub recover_panic : HttpHandler S → HttpHandler S
  recover_panic next r w s = recovered (next r w s)

  -- `ProcessMaintenance`
  unfoldable pub process_maintenance : Bool → HttpHandler S → HttpHandler S
  process_maintenance maintenance next r w s =
      if maintenance
      then (
        returned,
        write maintenance_message
            (write_header 503 (set_header (bytes "Content-Type") (bytes "application/json") w)),
        s,
      )
      else next r w s

  module _ (redis : Redis S) (gob : Gob) (cfg : Config) (marshal : ErrorResponse → Option Text)
      (now : ℕ) where
    abbrev pub admitted :
        HttpHandler S → Request → Writer → Site S → Found × S → Ran × Writer × Site S
    admitted next r w s (no_session, store) =
        (returned, unauthorized marshal now w, record s { store = store })
    admitted next r w s (found p id, store) =
        next (record r { session = some (p, id) }) w (record s { store = store })

    -- `AuthorizeSession`
    unfoldable pub authorize_session : HttpHandler S → HttpHandler S
    authorize_session next r w s = admitted next r w s (lookup redis gob cfg r.cookie s.store)
