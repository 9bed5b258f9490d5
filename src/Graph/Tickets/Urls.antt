-- ===== src/Graph/Tickets/Urls.antt =====
-- `splitTicketIDs` (internal/graph/ticket.helpers.go).
use filmstund.Base.{
  ℕ, ◌≡◌, ◌∙◌, ap, Bool, true, false, ◌&&◌, Option, none, some, List, [], ◌∷◌, ◌++◌, nat_eq,
  if◌then◌else◌,
}
use filmstund.Base.Splitting.{split_at, IsPart, split_last, split_part}
use filmstund.Base.Text.{Text, bytes}

-- `strings.HasPrefix`
unfoldable starts_with : Text → Text → Bool
starts_with [] t = true
starts_with (c ∷ p) [] = false
starts_with (c ∷ p) (d ∷ t) = nat_eq c d && starts_with p t

-- `t[strings.Index(t, p):]`; nothing where `p` does not occur, where the source panics.
unfoldable pub from_index : Text → Text → Option Text
unfolding starts_with
from_index p [] = if starts_with p [] then some [] else none
from_index p (c ∷ t) =
    let rest = from_index p t in if starts_with p (c ∷ t) then some (c ∷ t) else rest

abbrev slash : ℕ
slash = 47

abbrev pub folder : Text
folder = bytes "mina-e-biljetter/"

abbrev three_ids : List Text → Text × Text × Text
three_ids (_ ∷ sys ∷ show ∷ ticket ∷ []) = (sys, show, ticket)
three_ids _ = ([], [], [])

-- `splitTicketIDs`: sysID, showID and ticketID.
unfoldable pub split_ticket_ids : Text → Option (Text × Text × Text)
unfolding from_index split_at
split_ticket_ids url = elim (from_index folder url) [
  | none ↦ none
  | some t ↦ some (three_ids (split_at slash t))
]

-- The URL that Filmstaden sends for a ticket.
abbrev pub ticket_url : Text → Text → Text → Text
ticket_url sys show ticket =
    bytes "https://www.filmstaden.se/bokning/"
    ++ (folder ++ (sys ++ slash ∷ (show ++ slash ∷ ticket)))

-- The identifiers of a ticket are read back from its URL, whatever they are, if none of them
-- contains a slash.
split_ticket_ids-ticket_url :
    (sys show ticket : Text)
    → IsPart slash sys
    → IsPart slash show
    → IsPart slash ticket
    → split_ticket_ids (ticket_url sys show ticket) ≡ some (sys, show, ticket)
unfolding split_ticket_ids
split_ticket_ids-ticket_url sys show ticket p q r =
    ap (λ parts. some (three_ids (bytes "mina-e-biljetter" ∷ parts)))
      (split_part slash sys (show ++ slash ∷ ticket) p
        ∙ ap (λ parts. sys ∷ parts)
            (split_part slash show ticket q
              ∙ ap (λ parts. show ∷ parts) (split_last slash ticket r)))
