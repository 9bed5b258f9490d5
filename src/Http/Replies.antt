-- ===== src/Http/Replies.antt =====
-- What a client gets of the errors of internal/httputils/httputils.go, and which headers have a token.
use mathlib.Core.List.{append-nil}
use filmstund.Base.{ℕ, ◌≡◌, ◌↔◌, refl, sym, ap, ◌∙◌, Option, none, some, [], ◌∷◌, ◌++◌, arith}
use filmstund.Base.Text.{Text, bytes}
use filmstund.Http.Writer.{Headers, Writer, fresh, first_sent, set_header, write_header, write}
use filmstund.Http.Errors.{
  Kind, bad, unauthorized_kind, forbidden_kind, internal_kind, other_kind, HttpError, ErrorResponse,
  after_prefix, marshalled, send_error, error_of, with_trailer, bad_request, internal_server_error,
  forbidden, unauthorized, respond_to, respond_based_on_err, extract_token_from_header,
}

abbrev pub or_empty : Option Text → Text
or_empty none = []
or_empty (some t) = t

abbrev pub status_of_kind : Kind → ℕ
status_of_kind bad = 400
status_of_kind unauthorized_kind = 401
status_of_kind forbidden_kind = 403
status_of_kind internal_kind = 500
status_of_kind other_kind = 500

-- The status that stands for an error.
abbrev pub status_of : Option HttpError → ℕ
status_of none = 500
status_of (some e) = status_of_kind e.kind

module _ (marshal : ErrorResponse → Option Text) (now : ℕ) where
  -- The text of a response, if it has one.
  abbrev pub text_of : ErrorResponse → Text
  text_of response = or_empty (marshal response)

  abbrev pub response_to : Kind → Text → ErrorResponse
  response_to bad message =
      error_of marshal now
        (with_trailer marshal now (after_prefix (bytes "bad request") message) message)
  response_to unauthorized_kind message = error_of marshal now (bytes "unauthorized")
  response_to forbidden_kind message = error_of marshal now (bytes "forbidden")
  response_to internal_kind message = error_of marshal now (bytes "an unexpected error occurred")
  response_to other_kind message = error_of marshal now (bytes "an unexpected error occurred")

  -- What the client gets as the body: two documents where there is no error.
  abbrev pub documents : Option HttpError → Text
  documents none = text_of (response_to internal_kind []) ++ text_of (response_to internal_kind [])
  documents (some e) = text_of (response_to e.kind e.message)

  -- A response after another, of which the first may be none.
  abbrev pub Sends : ℕ × Headers → Text → Writer → Type 0
  Sends first body w = (w.sent ≡ some first) × (w.body ≡ body)

  marshalled-Sends :
      (o : Option Text) (first : ℕ × Headers) (body : Text) (w : Writer)
      → w.sent ≡ some first
      → w.body ≡ body
      → Sends first (body ++ or_empty o) (marshalled o w)
  unfolding write write_header
  marshalled-Sends none first body w e h = (e, h ∙ sym (append-nil body))
  marshalled-Sends (some json) first body w e h = (rw e refl, rw h refl)

  pub send_error-Sends :
      (status : ℕ) (response : ErrorResponse) (first : ℕ × Headers) (body : Text) (w : Writer)
      → first_sent w.sent status w.headers ≡ some first
      → w.body ≡ body
      → Sends first (body ++ text_of response) (send_error marshal now status response w)
  unfolding send_error set_header write_header
  send_error-Sends status response first body w e h =
      marshalled-Sends (marshal response) first body
        (set_header (bytes "Content-Type") (bytes "application/json") (write_header status w)) e h

  respond_to-Sends :
      (kind : Kind) (message : Text) (headers : Headers)
      → Sends
          (status_of_kind kind, headers)
          (text_of (response_to kind message))
          (respond_to marshal now kind message (fresh headers))
  unfolding bad_request unauthorized forbidden internal_server_error
  respond_to-Sends bad message headers = send_error-Sends 400 _ _ [] (fresh headers) refl refl
  respond_to-Sends unauthorized_kind message headers =
      send_error-Sends 401 _ _ [] (fresh headers) refl refl
  respond_to-Sends forbidden_kind message headers =
      send_error-Sends 403 _ _ [] (fresh headers) refl refl
  respond_to-Sends internal_kind message headers =
      send_error-Sends 500 _ _ [] (fresh headers) refl refl
  respond_to-Sends other_kind message headers =
      send_error-Sends 500 _ _ [] (fresh headers) refl refl

  -- The client gets the status of the error and, as the body, one document that tells it, or two that
  -- follow one another where there is no error; of the headers it gets those which were there before,
  -- since the type of the content is set only after the status.
  pub respond_based_on_err-Sends :
      (e : Option HttpError) (headers : Headers)
      → Sends
          (status_of e, headers)
          (documents e)
          (respond_based_on_err marshal now e (fresh headers))
  unfolding respond_based_on_err internal_server_error
  respond_based_on_err-Sends (some e) headers = respond_to-Sends e.kind e.message headers
  respond_based_on_err-Sends none headers =
      let (first, body) = respond_to-Sends internal_kind [] headers in
      send_error-Sends 500 _ (500, headers) _
        (respond_to marshal now internal_kind [] (fresh headers)) (rw first refl) body

after_prefix-append : (p t : Text) → after_prefix p (p ++ t) ≡ some t
unfolding after_prefix
after_prefix-append [] t = refl
after_prefix-append (c ∷ p) t = ground (arith, after_prefix-append p t)

append-after_prefix : (p h t : Text) → after_prefix p h ≡ some t → h ≡ p ++ t
unfolding after_prefix
append-after_prefix [] h t e = ground arith
append-after_prefix (c ∷ p) [] t e = cc
append-after_prefix (c ∷ p) (d ∷ h) t e = ground (arith, append-after_prefix p h t)

-- A token is found in exactly those headers that are the word Bearer, a space and that token.
pub extract_token_from_header_iff :
    (header token : Text)
    → (extract_token_from_header header ≡ some token) ↔ (header ≡ bytes "Bearer " ++ token)
unfolding extract_token_from_header
extract_token_from_header_iff header token = (
  append-after_prefix (bytes "Bearer ") header token,
  λ e. ap (after_prefix (bytes "Bearer ")) e ∙ after_prefix-append (bytes "Bearer ") token,
)
