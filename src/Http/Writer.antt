-- ===== src/Http/Writer.antt =====
-- `http.ResponseWriter`, as net/http documents it: the first status that is written sends the
-- headers of that moment, and what is set or written as a status later has no effect on them. The
-- type that it guesses for a body without a Content-Type is left out.
use filmstund.Base.{ℕ, Option, none, some, List, [], ◌∷◌, ◌++◌, select, not, ◌==◌, texts}
use filmstund.Base.Text.{Text, bytes}

abbrev pub Headers : Type 0
Headers = List (Text × Text)

pub record Writer : Type 0 where
  pub headers : Headers
  pub sent : Option (ℕ × Headers)
  pub body : Text

-- A response that has just begun.
abbrev pub fresh : Headers → Writer
fresh headers = record { headers = headers; sent = none; body = [] }

-- `w.Header().Set(k, v)`
unfoldable pub set_header : Text → Text → Writer → Writer
set_header k v w = record w {
  headers = (k, v) ∷ select (λ (h : Text × Text). not (h.0 == k)) w.headers;
}

abbrev pub first_sent : Option (ℕ × Headers) → ℕ → Headers → Option (ℕ × Headers)
first_sent none code headers = some (code, headers)
first_sent (some before) code headers = some before

unfoldable pub write_header : ℕ → Writer → Writer
write_header code w = record w { sent = first_sent w.sent code w.headers }

-- A body without a status is sent with the status OK.
unfoldable pub write : Text → Writer → Writer
unfolding write_header
write t w = let w' = write_header 200 w in record w' { body = w'.body ++ t }

-- `http.Error`
unfoldable pub http_error : Text → ℕ → Writer → Writer
unfolding set_header write_header write
http_error error code w = write (error ++ 10 ∷ []) (
    write_header code (
      set_header (bytes "X-Content-Type-Options") (bytes "nosniff")
        (set_header (bytes "Content-Type") (bytes "text/plain; charset=utf-8") w)))
