-- ===== src/Graph/Payments/Links.antt =====
-- When an attendee gets a link to pay by Swish.
use filmstund.Base.{
  ◌≡◌, refl, true, false, Option, none, some, length, ltb, leb, ◌==◌, texts, is_some, arith,
}
use filmstund.Base.Int.{ℤ, pos, leb_ℤ, ltb_ℤ}
use filmstund.Base.Text.{Text}
use filmstund.Currency.{kronor}
use filmstund.Swish.{
  Encoders, format_uri, data_uri, amount_min, amount_max, message_max_len, payment,
}
use filmstund.Dao.Attendees.{AttendeePaymentDetailsRow}
use filmstund.Graph.Model.{swish, type_name}
use filmstund.Graph.Payments.{swish_link, link_to, link_of, wants_link}

-- What a link asks for is something that the attendee owes and that Swish accepts.
pub record IsPayable (a : AttendeePaymentDetailsRow) : Type 0 where
  pub has_phone : is_some a.pay_to_phone ≡ true
  pub not_paid : a.has_paid ≡ false
  pub by_swish : (a.attendee_type == type_name swish) ≡ true
  pub owes : ltb_ℤ (pos 0) a.amount_owed ≡ true
  pub enough : leb_ℤ amount_min (kronor a.amount_owed) ≡ true
  pub not_too_much : leb_ℤ (kronor a.amount_owed) amount_max ≡ true
  pub short : leb (length a.movie_title) message_max_len ≡ true

abbrev IsAccepted : ℤ → Text → Type 0
IsAccepted amount title =
    (leb_ℤ amount_min amount ≡ true)
    × (leb_ℤ amount amount_max ≡ true)
    × (leb (length title) message_max_len ≡ true)

accepted :
    (encoders : Encoders) (phone : Text) (amount : ℤ) (title : Text)
    → ltb 0 (length (link_of (format_uri encoders phone amount title))) ≡ true
    → IsAccepted amount title
unfolding format_uri
accepted encoders phone amount title h = (ground arith, ground arith, ground arith)

formatted :
    (encoders : Encoders) (phone : Text) (amount : ℤ) (title : Text)
    → IsAccepted amount title
    → format_uri encoders phone amount title ≡ data_uri encoders (payment phone amount title)
unfolding format_uri
formatted encoders phone amount title h = ground arith

-- Whoever gets a link has not paid, pays by Swish, and owes an amount that rounds to what Swish
-- accepts, to somebody with a phone number, for a movie whose title is short enough.
swish_link-IsPayable :
    (encoders : Encoders) (a : AttendeePaymentDetailsRow)
    → ltb 0 (length (swish_link encoders a)) ≡ true
    → IsPayable a
unfolding swish_link
swish_link-IsPayable encoders a h = go a.pay_to_phone refl h
  where
    go :
        (phone : Option Text)
        → a.pay_to_phone ≡ phone
        → ltb 0 (length (link_to encoders a phone)) ≡ true
        → IsPayable a
    go none e k = cc
    go (some phone) e k =
        let wanted : wants_link a ≡ true = ground arith in
        let (enough, not_too_much, short) =
          accepted encoders phone (kronor a.amount_owed) a.movie_title (ground arith) in
        record {
          has_phone = rw e refl;
          not_paid = ground arith;
          by_swish = ground arith;
          owes = ground arith;
          enough = enough;
          not_too_much = not_too_much;
          short = short;
        }

-- Whoever owes such an amount gets the link with that amount, the phone number and the title.
swish_link-data_uri :
    (encoders : Encoders) (a : AttendeePaymentDetailsRow) (phone : Text)
    → IsPayable a
    → a.pay_to_phone ≡ some phone
    → swish_link encoders a
      ≡ link_of (data_uri encoders (payment phone (kronor a.amount_owed) a.movie_title))
unfolding swish_link
swish_link-data_uri encoders a phone h e =
    rw
      (
        e,
        formatted encoders phone (kronor a.amount_owed) a.movie_title
            (h.enough, h.not_too_much, h.short),
        h.owes,
        h.not_paid,
        h.by_swish,
      )
      refl
