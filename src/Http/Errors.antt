-- ===== src/Http/Errors.antt =====
-- internal/httputils/httputils.go: the errors that are sent to a client.
use filmstund.Base.{ℕ, Option, none, some, [], ◌∷◌, ◌++◌, nat_eq, if◌then◌else◌}
use filmstund.Base.Text.{Text, bytes}
use filmstund.Http.Writer.{Writer, set_header, write_header, write}

-- Which of the errors of the package an error is or wraps.
pub data Kind : Type 0 where
  bad unauthorized_kind forbidden_kind internal_kind other_kind : Kind

pub record HttpError : Type 0 where
  pub kind : Kind
  pub message : Text

pub record ErrorResponse : Type 0 where
  pub error : Text
  pub details : Text
  pub time : ℕ

-- `strings.HasPrefix` and `strings.TrimPrefix`: what comes after the prefix.
unfoldable pub after_prefix : Text → Text → Option Text
after_prefix [] t = some t
after_prefix (c ∷ p) [] = none
after_prefix (c ∷ p) (d ∷ t) = let rest = after_prefix p t in if nat_eq c d then rest else none

-- An error of `json.Marshal` is only logged.
abbrev pub marshalled : Option Text → Writer → Writer
marshalled none w = w
marshalled (some json) w = write json w

-- `json.Marshal` of a response, and the time.
module _ (marshal : ErrorResponse → Option Text) (now : ℕ) where
  -- `sendError`
  unfoldable pub send_error : ℕ → ErrorResponse → Writer → Writer
  unfolding set_header write_header write
  send_error status response w =
      marshalled (marshal response)
        (set_header (bytes "Content-Type") (bytes "application/json") (write_header status w))

  abbrev pub error_of : Text → ErrorResponse
  error_of error = record { error = error; details = []; time = now }

  abbrev pub with_trailer : Option Text → Text → Text
  with_trailer (some rest) trailer = trailer
  with_trailer none [] = bytes "bad request"
  with_trailer none (c ∷ t) = bytes "bad request" ++ bytes ": " ++ c ∷ t

  -- `BadRequest`
  unfoldable pub bad_request : Text → Writer → Writer
  unfolding after_prefix send_error
  bad_request trailer w =
      send_error 400 (error_of (with_trailer (after_prefix (bytes "bad request") trailer) trailer))
        w

  -- `InternalServerError`
  unfoldable pub internal_server_error : Writer → Writer
  unfolding send_error
  internal_server_error w = send_error 500 (error_of (bytes "an unexpected error occurred")) w

  -- `Forbidden`
  unfoldable pub forbidden : Writer → Writer
  unfolding send_error
  forbidden w = send_error 403 (error_of (bytes "forbidden")) w

  -- `Unauthorized`
  unfoldable pub unauthorized : Writer → Writer
  unfolding send_error
  unauthorized w = send_error 401 (error_of (bytes "unauthorized")) w

  abbrev pub respond_to : Kind → Text → Writer → Writer
  respond_to bad message w = bad_request message w
  respond_to unauthorized_kind message w = unauthorized w
  respond_to forbidden_kind message w = forbidden w
  respond_to internal_kind message w = internal_server_error w
  respond_to other_kind message w = internal_server_error w

  -- `RespondBasedOnErr`; without an error there is no return after the first answer.
  unfoldable pub respond_based_on_err : Option HttpError → Writer → Writer
  unfolding bad_request unauthorized forbidden internal_server_error
  respond_based_on_err (some e) w = respond_to e.kind e.message w
  respond_based_on_err none w = internal_server_error (internal_server_error w)

-- `ExtractTokenFromHeader`, of the header `Authorization`.
unfoldable pub extract_token_from_header : Text → Option Text
unfolding after_prefix
extract_token_from_header header = after_prefix (bytes "Bearer ") header
