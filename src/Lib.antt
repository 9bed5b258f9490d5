-- ===== src/Lib.antt =====
-- Filmstund: a verification library beside the Go backend.
--
-- The backend lets the members of a cinema club plan showings. Its clients send GraphQL requests,
-- which the resolvers of internal/graph serve. A resolver reads and writes a PostgreSQL database by
-- the statements of internal/database/dao, each on the connection pool or, where several belong
-- together, in a transaction, and asks Filmstaden, the cinema, for shows and tickets.
--
-- Which file is about which code:
-- - Base and its children: Booleans, lists, integers and texts that all modules share.
-- - Database/Schema: the rows of internal/database/dao/models.go and the tables.
-- - Database/Connection: internal/database/connections.go and internal/database/dao/queries.go. A
--   statement is a function from the time and the tables to its rows and the new tables, or to an
--   error. A handler acts on a World: the committed tables, the transaction that is open, if any,
--   and a list of which calls to the server fail. A failed statement has no effect; inside a
--   transaction it aborts the transaction, as PostgreSQL documents. Database/Atomicity has the
--   rules by which a handler is shown to use its transaction up, Database/Execution the equations
--   by which it is run.
-- - Dao/Showings, Dao/Attendees, Dao/Tickets, Dao/CinemaScreens, Dao/Movies, Dao/Commandments,
--   Dao/Locations, Dao/Users and Dao/Accounts (both users.sql.go; Accounts has the rows of users
--   themselves, Movies/Constraints what keeps those of the movies): the statements of
--   internal/database/dao/*.sql.go under their names in lower case, with the keys, checks and
--   foreign keys of configs/database/migrations. Dao/Consistency states these as an
--   invariant of the tables; its children show which statements keep it.
-- - Graph/Model: the types of internal/graph/model that the resolvers use, and their errors.
-- - Graph/Showings: internal/graph/showing.resolvers.go, one function for each resolver
--   (AttendShowing is attend_showing, MarkAsBought is mark_as_bought, UpdateShowing is
--   update_showing_by_id, DeleteShowing is delete_showing_by_id). Preserving carries over to the
--   resolvers what the statements keep; Consistency and Permanence use it.
-- - Graph/Tickets/Processing, Graph/Tickets/Urls, Graph/Tickets/Seats: ticket.resolvers.go and
--   ticket.helpers.go of internal/graph.
-- - Graph/Payments: payment.resolvers.go and payment.helpers.go of internal/graph; Swish: swish/uri.go;
--   Currency: internal/currency/sek.go; Encoding/Base64: the base64 alphabet for URLs.
-- - Graph/Authorization: internal/graph/showing_admin_auth.go.
-- - Graph/GiftCertificates and Graph/Users: internal/graph/users.resolvers.go, with
--   internal/graph/mappers; Graph/Users/Requests runs any sequence of its requests. Graph/Scalars:
--   internal/graph/scalars, its Dates datetime.go and its Uuids uuid.go.
-- - Database/Config: internal/database/config.go, the connection string of the pool.
-- - Graph/Movies: internal/graph/movies.resolvers.go; its Requests runs imports and the popularity
--   command in any order. Graph/Commandments: internal/graph/commandments.resolvers.go.
-- - Graph/PublicUsers: internal/graph/dataloader/ctx.go, the function that fetches a batch.
-- - Graph/PublicUserLoader: internal/graph/dataloader/publicuserloader_gen.go, whose maxBatch is any
--   number. State has the loader and its operations, a pointer to a batch being its place in a heap;
--   System has the steps of a program that uses it: LoadThunk, a call of a thunk, Prime and Clear,
--   and what the goroutines do, each as one step under the mutex, in any order. Phases, Soundness,
--   Runs, Growth, Answers and Invariant carry the invariant, Service and Termination the results.
-- - Filmstaden: filmstaden, the client of the cinema's API. Client: client.go, with redis and the
--   network as one state; Recent: how old its answers are; Movies and Merging: get_movies.go; Shows:
--   get_shows.go and the other requests. Graph/Filmstaden: internal/graph/filmstaden.resolvers.go.
-- - Graph/Locations: internal/graph/location.resolvers.go. Graph/Histories: requests of showings and of
--   users, imports of movies and runs of the popularity command, in any order; its Frames says which
--   statements leave which tables alone.
-- - Http: the server in front of the resolvers. Writer: http.ResponseWriter, as net/http documents it;
--   Errors and Replies: internal/httputils/httputils.go; Middleware: internal/middleware; Server:
--   internal/cinema/cinemaserver.go and calendar_feed.go; Guarding: what the middleware makes sure of.
-- - Popularity: cmd/popularity/updater.go.
-- - Session: internal/session/client.go, over redis and gob.
-- - Auth/State: internal/auth0/codeflow/state.go; Auth/Flow: internal/auth0/codeflow/flow.go;
--   Auth/Handlers: internal/auth0/handlers.go, whose callback acts on the database and on redis.
-- - Tests: sample tables, and the theorems at concrete inputs.
--
-- What stands for what: a UUID is a number, a text the list of its bytes, in a row a date is a
-- day number and a time of day a number of minutes, Filmstaden's time of a show the minutes since
-- the epoch, a price in ören an integer. int32 is written out where the code converts to it. All
-- loops are recursions over a list, so that no fuel is needed; only the digits of a number are
-- printed on fuel, of which one more than the number is enough.
--
-- What is a parameter: what Filmstaden's servers and TMDB answer, and to the ticket resolvers
-- what the client makes of it; the regular expression of ticket URLs, the reading of its dates,
-- slugs, new UUIDs, JSON and URL escaping, the cipher of the login state, the identity provider,
-- redis and gob, the case and the space of Unicode, the order that the server chooses for
-- random() and for groups, the order in which Go visits a map, the router of gorilla/mux, the
-- package for CORS and the handler of gqlgen. A theorem that needs more of them than that they
-- are functions says so in a hypothesis.
--
-- What is not modelled: the lengths of varchar columns but that of imdb_id, which the popularity
-- command can exceed, logging, the type that net/http guesses of a body without one, a commit
-- that the server makes though its call fails, requests that run at the same time as another's
-- transaction, the fields of answers that other resolvers fill in, those fields of Filmstaden's
-- answers that nothing reads, the headers of requests, the end of the popularity command's
-- context and its pauses, lists for display, how the configuration is read from the environment,
-- the connection URL for the migrations, and the generated GraphQL runtime. A panic ends a
-- handler where it stands, with its transaction as it is.
pub mod Base
pub mod Database
pub mod Dao
pub mod Encoding
pub mod Swish
pub mod Currency
pub mod Session
pub mod Auth
pub mod Graph
pub mod Filmstaden
pub mod Popularity
pub mod Http
mod Tests
