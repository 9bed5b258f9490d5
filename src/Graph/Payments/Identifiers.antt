-- ===== src/Graph/Payments/Identifiers.antt =====
-- `combineIDs` gives each attendee an identifier of its own.
use filmstund.Base.{◌≡◌, ◌∙◌, sym, ◌++◌, length-append, arith}
use filmstund.Encoding.Base64.{be_bytes}
use filmstund.Encoding.Base64.Injectivity.{
  FitsBytes, All-append, append_injective, be_bytes-IsByte, be_bytes_injective, encode_injective,
  length-be_bytes,
}
use filmstund.Database.{Uuid}
use filmstund.Graph.Payments.{combine_ids}

-- Two pairs of UUIDs of 16 bytes each with the same combined identifier are the same pair.
combine_ids_injective :
    (first second other_first other_second : Uuid)
    → FitsBytes 16 first
    → FitsBytes 16 second
    → FitsBytes 16 other_first
    → FitsBytes 16 other_second
    → combine_ids first second ≡ combine_ids other_first other_second
    → (first ≡ other_first) × (second ≡ other_second)
unfolding combine_ids
combine_ids_injective a b x y ha hb hx hy e =
    let bytes_same : be_bytes 16 a ++ be_bytes 16 b ≡ be_bytes 16 x ++ be_bytes 16 y =
      encode_injective (be_bytes 16 a ++ be_bytes 16 b) (be_bytes 16 x ++ be_bytes 16 y)
        (All-append (be_bytes 16 a) (be_bytes 16 b) (be_bytes-IsByte 16 a) (be_bytes-IsByte 16 b))
        (All-append (be_bytes 16 x) (be_bytes 16 y) (be_bytes-IsByte 16 x) (be_bytes-IsByte 16 y))
        (omega (
          arith,
          length-append (be_bytes 16 a) (be_bytes 16 b),
          length-append (be_bytes 16 x) (be_bytes 16 y),
          length-be_bytes 16 a,
          length-be_bytes 16 b,
          length-be_bytes 16 x,
          length-be_bytes 16 y,
        ))
        e in
    let (front, back) =
      append_injective (be_bytes 16 a) (be_bytes 16 x) (be_bytes 16 b) (be_bytes 16 y)
        (length-be_bytes 16 a ∙ sym (length-be_bytes 16 x)) bytes_same in
    (be_bytes_injective 16 a x ha hx front, be_bytes_injective 16 b y hb hy back)
