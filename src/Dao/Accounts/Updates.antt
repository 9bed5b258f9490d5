-- ===== src/Dao/Accounts/Updates.antt =====
-- How an update of the row of one subject keeps a column unique.
use filmstund.Base.{
  ◌≡◌, refl, sym, ◌∙◌, Bool, true, false, ◌&&◌, not, Option, none, some, List, [], ◌∷◌, any, ◌==◌,
  texts, list_eq_iff, if◌then◌else◌, Bool-cases, inl, inr, arith,
}
use filmstund.Base.Keys.{DistinctBy, DistinctBy-map}
use filmstund.Base.Text.{Text}
use filmstund.Database.{User}
use filmstund.Dao.Accounts.{is_subject, update_subject}

abbrev pub same_subject : User → User → Bool
same_subject u v = u.subject_id == v.subject_id

-- Two rows clash in a nullable column if they hold the same value.
abbrev pub holds : {V : Type 0} → (V → V → Bool) → Option V → V → Bool
holds same none v = false
holds same (some w) v = same w v

abbrev pub clashes : {V : Type 0} → (V → V → Bool) → Option V → Option V → Bool
clashes same o none = false
clashes same o (some v) = holds same o v

-- An update that leaves a column leaves its clashes.
pub update_subject-DistinctBy_same :
    (clash : User → User → Bool) (subject : Text) (f : User → User) (users : List User)
    → ((u v : User) → clash (f u) v ≡ clash u v)
    → ((u v : User) → clash u (f v) ≡ clash u v)
    → DistinctBy clash users
    → DistinctBy clash (update_subject subject f users)
update_subject-DistinctBy_same clash subject f users left right h =
    DistinctBy-map clash (λ (u : User). if is_subject subject u then f u else u) users both h
  where
    both :
        (u v : User)
        → clash (if is_subject subject u then f u else u) (if is_subject subject v then f v else v)
          ≡ clash u v
    both u v = elim (Bool-cases (is_subject subject u)) [
      | inl mine ↦ elim (Bool-cases (is_subject subject v)) [
        | inl also ↦ rw (mine, also) (left u (f v) ∙ right u v)
        | inr other ↦ rw (mine, other) (left u v)
      ]
      | inr skip ↦ elim (Bool-cases (is_subject subject v)) [
        | inl also ↦ rw (skip, also) (right u v)
        | inr other ↦ rw (skip, other) refl
      ]
    ]

-- No later row has the subject of an earlier one.
subject_once :
    (subject : Text) (u v : User)
    → is_subject subject u ≡ true
    → same_subject u v ≡ false
    → is_subject subject v ≡ false
subject_once subject u v h k = elim (Bool-cases (is_subject subject v)) [
  | inr other ↦ other
  | inl mine ↦
      let e : u.subject_id ≡ subject = (list_eq_iff u.subject_id subject).0 h in
      let g : v.subject_id ≡ subject = (list_eq_iff v.subject_id subject).0 mine in
      let same : same_subject u v ≡ true = (list_eq_iff u.subject_id v.subject_id).1 (e ∙ sym g) in
      cc
]

module _ {V : Type 0} (same : V → V → Bool) (column : User → Option V) (subject : Text)
    (f : User → User) (v : V) where
  abbrev pub taken : List User → Bool
  taken users = any (λ (u : User). not (is_subject subject u) && holds same (column u) v) users

  module _ (symmetric : (a b : V) → same a b ≡ same b a)
      (sets : (u : User) → column (f u) ≡ some v) where
    -- Against a row of another subject, earlier in the table.
    none_after_other :
        (u : User) (users : List User)
        → is_subject subject u ≡ false
        → holds same (column u) v ≡ false
        → any (λ (w : User). clashes same (column u) (column w)) users ≡ false
        → any (λ (w : User). clashes same (column u) (column w)) (update_subject subject f users)
          ≡ false
    none_after_other u [] h k c = refl
    none_after_other u (w ∷ users) h k c = elim (Bool-cases (is_subject subject w)) [
      | inl mine ↦ rw (mine, sets w) (ground (arith, k, none_after_other u users h k))
      | inr other ↦ rw other (ground (arith, none_after_other u users h k))
    ]

    apart : (o : Option V) → holds same o v ≡ false → clashes same (some v) o ≡ false
    apart none h = refl
    apart (some w) h = symmetric v w ∙ h

    -- Against the updated row, where later rows have other subjects.
    none_after_updated :
        (u : User) (users : List User)
        → any (same_subject u) users ≡ false
        → is_subject subject u ≡ true
        → taken users ≡ false
        → any (λ (w : User). clashes same (some v) (column w)) (update_subject subject f users)
          ≡ false
    none_after_updated u [] h mine k = refl
    none_after_updated u (w ∷ users) h mine k =
        let here : same_subject u w ≡ false = ground arith in
        let other = subject_once subject u w mine here in
        rw other (
          ground (
            arith,
            apart (column w),
            none_after_updated u users (ground arith) mine (ground arith),
          ))

    pub update_subject-DistinctBy_set :
        (users : List User)
        → DistinctBy same_subject users
        → DistinctBy (λ (u : User) (w : User). clashes same (column u) (column w)) users
        → taken users ≡ false
        → DistinctBy
            (λ (u : User) (w : User). clashes same (column u) (column w))
            (update_subject subject f users)
    update_subject-DistinctBy_set [] once h k = tt
    update_subject-DistinctBy_set (u ∷ users) once h k = elim (Bool-cases (is_subject subject u)) [
      | inl mine ↦
          rw (mine, sets u)
            (
              none_after_updated u users once.0 mine (ground arith),
              update_subject-DistinctBy_set users once.1 h.1 (ground arith),
            )
      | inr other ↦ rw other (
        none_after_other u users other (ground arith) h.0,
        update_subject-DistinctBy_set users once.1 h.1 (ground arith),
      )
    ]
