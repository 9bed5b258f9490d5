-- ===== src/Http/Server.antt =====
-- internal/cinema/cinemaserver.go and calendar_feed.go: the routes, and the middleware around them.
-- What gorilla/mux and the package for CORS do, and the handler of gqlgen, are parameters.
use filmstund.Base.{ℕ, Bool, Option, none, some, ◌++◌}
use filmstund.Base.Text.{Text, bytes}
use filmstund.Session.Client.{Redis, Gob, Config}
use filmstund.Http.Writer.{write_header, write}
use filmstund.Http.Errors.{ErrorResponse}
use filmstund.Http.Middleware.{
  Request, returned, HttpHandler, recover_panic, process_maintenance, authorize_session,
}

-- The routing table; a calendar's route has the name of its feed.
pub data Route : Type 0 where
  graphql_route login_route callback_route logout_route files_route : Route
  calendar_route : Text → Route

-- The handlers that stand in other packages, and that of the router where no route matches.
pub record Handlers (S : Type 0) : Type 0 where
  pub graphql : HttpHandler S
  pub login : HttpHandler S
  pub callback : HttpHandler S
  pub logout : HttpHandler S
  pub files : HttpHandler S
  pub unrouted : HttpHandler S

-- `calendarFeedHandler`
unfoldable pub calendar_feed_handler : {S : Type 0} → Text → HttpHandler S
calendar_feed_handler feed r w s =
    (returned, write (bytes "\"not implemented for " ++ feed ++ bytes "\"") (write_header 501 w), s)

-- The server: `Config.MaintenanceMode`, the session client, the router and the packages.
pub record Server (S : Type 0) : Type 0 where
  pub maintenance : Bool
  pub redis : Redis S
  pub gob : Gob
  pub session_config : Config
  pub marshal : ErrorResponse → Option Text
  pub now : ℕ
  pub router : Request → Option Route
  pub cors : HttpHandler S → HttpHandler S
  pub handlers : Handlers S

module _ {S : Type 0} (server : Server S) where
  abbrev pub authorized : HttpHandler S → HttpHandler S
  authorized next =
      authorize_session server.redis server.gob server.session_config server.marshal server.now next

  -- The subrouter of what needs a session, and the other routes.
  abbrev pub routed : Route → HttpHandler S
  routed graphql_route = authorized server.handlers.graphql
  routed (calendar_route feed) = authorized (calendar_feed_handler feed)
  routed login_route = server.handlers.login
  routed callback_route = server.handlers.callback
  routed logout_route = server.handlers.logout
  routed files_route = server.handlers.files

  -- The middleware runs in the order in which it was added.
  abbrev pub behind_middleware : HttpHandler S → HttpHandler S
  behind_middleware next = recover_panic (process_maintenance server.maintenance (server.cors next))

  abbrev pub answer_by : Option Route → HttpHandler S
  answer_by none = server.handlers.unrouted
  answer_by (some route) = behind_middleware (routed route)

  -- `Routes`: what the server does with a request.
  unfoldable pub serve : HttpHandler S
  unfolding recover_panic process_maintenance authorize_session calendar_feed_handler
  serve r = answer_by (server.router r) r
