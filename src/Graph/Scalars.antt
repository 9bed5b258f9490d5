-- ===== src/Graph/Scalars.antt =====
-- internal/graph/scalars/filmstadenmembershipid.go: the membership number of Filmstaden.
pub mod Dates
pub mod Uuids
use filmstund.Base.{
  All, ℕ, ◌≡◌, ◌⊎◌, Bool, true, false, ◌&&◌, ◌||◌, Option, none, some, [], ◌∷◌, ◌++◌, length, leb,
  nat_eq, take, if◌then◌else◌, Bool-cases, inl, inr, arith,
}
use filmstund.Base.Text.{Text, bytes}
use filmstund.Auth.State.{drop}

-- `[A-Z0-9]`
abbrev pub is_code : ℕ → Bool
is_code c = (leb 65 c && leb c 90) || (leb 48 c && leb c 57)

-- `^[A-Z0-9]{3}-[A-Z0-9]{3}$`
unfoldable pub matches : Text → Bool
matches (a ∷ b ∷ c ∷ d ∷ e ∷ f ∷ g ∷ []) =
    is_code a && is_code b && is_code c && nat_eq d 45 && is_code e && is_code f && is_code g
matches _ = false

-- `FilmstadenMembershipID.Valid`, of a pointer.
unfoldable pub is_valid_membership : Option Text → Bool
unfolding matches
is_valid_membership none = true
is_valid_membership (some id) = matches id

-- `FilmstadenMembershipID.String`, of a pointer.
unfoldable pub membership_text : Option Text → Text
membership_text none = []
membership_text (some id) = id

-- What `UnmarshalGQL` makes of a string: a membership, the empty one that a blank leaves, or an error.
pub data Unmarshaled : Type 0 where
  membership : Text → Unmarshaled
  invalid_format : Unmarshaled

-- `str[:3] + "-" + str[3:]` for a text of six bytes.
unfoldable pub with_dash : Text → Text
unfolding drop
with_dash t = if nat_eq (length t) 6 then take 3 t ++ bytes "-" ++ drop 3 t else t

-- `strings.ToUpper` is a parameter.
module _ (to_upper : Text → Text) where
  unfoldable pub unmarshal_membership : Text → Unmarshaled
  unfolding with_dash is_valid_membership
  unmarshal_membership [] = membership []
  unmarshal_membership (c ∷ t) =
      let id = with_dash (to_upper (c ∷ t)) in
      if is_valid_membership (some id) then membership id else invalid_format

  -- What is read is empty, or a membership in its format, however it was written.
  pub unmarshal_membership-is_valid :
      (t id : Text)
      → unmarshal_membership t ≡ membership id
      → (id ≡ []) ⊎ (is_valid_membership (some id) ≡ true)
  unfolding unmarshal_membership
  unmarshal_membership-is_valid [] id e = inl (ground (arith, e))
  unmarshal_membership-is_valid (c ∷ t) id e =
      elim (Bool-cases (is_valid_membership (some (with_dash (to_upper (c ∷ t)))))) [
        | inl good ↦
            let same : with_dash (to_upper (c ∷ t)) ≡ id = ground (arith, good, e) in
            inr (rw same at good)
        | inr bad ↦ ground (arith, bad, e)
      ]

-- What the package strings documents of `ToUpper`, on capital letters, digits and the dash.
pub record KeepsCodes (to_upper : Text → Text) : Type 0 where
  pub keeps : (t : Text) → All (λ c. (is_code c || nat_eq c 45) ≡ true) t → to_upper t ≡ t

-- Six letters or digits are read as the membership that has the dash in the middle, and this
-- membership as itself, if `ToUpper` keeps capital letters, digits and the dash.
unmarshal_membership-spellings :
    (to_upper : Text → Text) (a b c d e f : ℕ)
    → KeepsCodes to_upper
    → All (λ x. is_code x ≡ true) (a ∷ b ∷ c ∷ d ∷ e ∷ f ∷ [])
    → (unmarshal_membership to_upper (a ∷ b ∷ c ∷ d ∷ e ∷ f ∷ [])
        ≡ membership (a ∷ b ∷ c ∷ 45 ∷ d ∷ e ∷ f ∷ []))
      × (unmarshal_membership to_upper (a ∷ b ∷ c ∷ 45 ∷ d ∷ e ∷ f ∷ [])
          ≡ membership (a ∷ b ∷ c ∷ 45 ∷ d ∷ e ∷ f ∷ []))
unfolding unmarshal_membership matches with_dash is_valid_membership drop
unmarshal_membership-spellings to_upper a b c d e f law codes =
    let plain = law.keeps (a ∷ b ∷ c ∷ d ∷ e ∷ f ∷ []) (ground arith) in
    let dashed = law.keeps (a ∷ b ∷ c ∷ 45 ∷ d ∷ e ∷ f ∷ []) (ground arith) in
    (rw plain (ground arith), rw dashed (ground arith))
