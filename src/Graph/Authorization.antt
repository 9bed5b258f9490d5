-- ===== src/Graph/Authorization.antt =====
-- internal/graph/showing_admin_auth.go: the directive that lets only a showing's admin pass.
use filmstund.Base.{
  ◌≡◌, refl, Bool, true, false, Option, none, some, List, [], ◌∷◌, any, ◌==◌, texts, ids,
  if◌then◌else◌, Bool-cases, inl, inr, ◌&&◌, ◌++◌, find,
}
use filmstund.Base.Text.{Text, bytes}
use filmstund.Database.{
  Uuid, World, Db, Showing, DbError, Result, ok, err, pool, exec, attempt, raise, ◌>>=◌, is_down,
  later,
}
use filmstund.Dao.Showings.{admin_on_showing}
use filmstund.Graph.Model.{GraphError, GraphShowing, must_be_showing_admin}
use filmstund.Graph.Showings.{Handler}

-- The roles of the directive.
pub data Role : Type 0 where
  showing_admin other_role : Role

-- An argument of a field, as reflection sees it: a UUID, a struct with or without a UUID in its
-- field `ShowingID`, or something else.
pub data Argument : Type 0 where
  uuid_argument : Uuid → Argument
  struct_argument : Option Uuid → Argument
  other_argument : Argument

abbrev pub Arguments : Type 0
Arguments = List (Text × Argument)

-- `fctx.Args[name]`
unfoldable pub argument : Text → Arguments → Option Argument
argument name [] = none
argument name ((n, a) ∷ rest) =
    let later = argument name rest in if n == name then some a else later

-- `showingID.(uuid.UUID)`
abbrev as_uuid : Argument → Option Uuid
as_uuid (uuid_argument id) = some id
as_uuid (struct_argument _) = none
as_uuid other_argument = none

-- The loop over the arguments, in the order in which Go visits the map.
unfoldable pub from_structs : Arguments → Option Uuid
from_structs [] = none
from_structs ((_, struct_argument (some id)) ∷ rest) = some id
from_structs ((_, struct_argument none) ∷ rest) = from_structs rest
from_structs ((_, uuid_argument _) ∷ rest) = from_structs rest
from_structs ((_, other_argument) ∷ rest) = from_structs rest

abbrev from_argument : (Arguments → Arguments) → Arguments → Option Argument → Option Uuid
from_argument range arguments (some a) = as_uuid a
from_argument range arguments none = from_structs (range arguments)

-- `extractShowingID`
unfoldable pub extract_showing_id :
    (Arguments → Arguments) → Option GraphShowing → Arguments → Option Uuid
unfolding argument from_structs
extract_showing_id range (some s) arguments = some s.id
extract_showing_id range none arguments =
    from_argument range arguments (argument (bytes "showingID") arguments)

abbrev pass_if : {A : Type 0} → Handler A → Result DbError Bool → Handler A
pass_if next (ok true) = next
pass_if next (ok false) = raise must_be_showing_admin
pass_if next (err _) = raise must_be_showing_admin

unfoldable pub pass_admin : {A : Type 0} → Uuid → Handler A → Option Uuid → Handler A
pass_admin me next none = raise must_be_showing_admin
pass_admin me next (some id) = attempt (exec pool (admin_on_showing me id)) >>= pass_if next

-- `VerifyShowingAdmin`
unfoldable pub verify_showing_admin :
    {A : Type 0}
    → (Arguments → Arguments)
    → Uuid
    → Option GraphShowing
    → Arguments
    → Handler A
    → Role
    → Handler A
unfolding pass_admin extract_showing_id
verify_showing_admin range me object arguments next showing_admin =
    pass_admin me next (extract_showing_id range object arguments)
verify_showing_admin range me object arguments next other_role = next

-- Whether `me` is the admin of the showing that the request names.
abbrev pub is_admin_for : Uuid → Option Uuid → Db → Bool
is_admin_for me none db = false
is_admin_for me (some id) db = any (λ (s : Showing). s.admin == me && s.id == id) db.showings

module _ {A : Type 0} (me : Uuid) (next : Handler A) where
  -- The tables after a refusal.
  abbrev pub Refused : World → Result GraphError A × World → Type 0
  Refused w (r, w') = (r ≡ err must_be_showing_admin) × (w'.db ≡ w.db) × (w'.tx ≡ w.tx)

  strangers_stay_out :
      (id : Option Uuid) (w : World)
      → is_admin_for me id w.db ≡ false
      → Refused w (pass_admin me next id w)
  unfolding pass_admin raise attempt exec admin_on_showing ◌>>=◌
  strangers_stay_out none w h = (refl, refl, refl)
  strangers_stay_out (some id) w h = elim (Bool-cases (is_down w.faults)) [
    | inl down ↦ rw down (refl, refl, refl)
    | inr up ↦ rw (up, h) (refl, refl, refl)
  ]

  admin_passes :
      (id : Option Uuid) (w : World)
      → is_admin_for me id w.db ≡ true
      → is_down w.faults ≡ false
      → pass_admin me next id w ≡ next (record w { faults = later w.faults })
  unfolding pass_admin raise attempt exec admin_on_showing ◌>>=◌
  admin_passes none w h up = cc
  admin_passes (some id) w h up = rw (up, h) refl

-- Whether an argument is a struct with a UUID in its field `ShowingID`.
abbrev pub has_showing_id : Text × Argument → Bool
has_showing_id (_, struct_argument (some _)) = true
has_showing_id (_, struct_argument none) = false
has_showing_id (_, uuid_argument _) = false
has_showing_id (_, other_argument) = false

abbrev pub is_showing_id : Text × Argument → Bool
is_showing_id (name, _) = name == bytes "showingID"

-- The showing that a request names: the one it is about, else the argument `showingID`, if it is a
-- UUID, else the first UUID that a struct has in its field `ShowingID`, in the order of the visit.
pub data Names (range : Arguments → Arguments)
    : Option GraphShowing → Arguments → Option Uuid → Type 0 where
  by_object :
      (s : GraphShowing) (arguments : Arguments) → Names range (some s) arguments (some s.id)
  by_argument :
      (name : Text) (id : Uuid) (arguments : Arguments)
      → find is_showing_id arguments ≡ some (name, uuid_argument id)
      → Names range none arguments (some id)
  by_no_uuid :
      (name : Text) (a : Argument) (arguments : Arguments)
      → find is_showing_id arguments ≡ some (name, a)
      → ((id : Uuid) → ¬ (a ≡ uuid_argument id))
      → Names range none arguments none
  by_struct :
      (name : Text) (id : Uuid) (before after arguments : Arguments)
      → find is_showing_id arguments ≡ none
      → range arguments ≡ before ++ (name, struct_argument (some id)) ∷ after
      → any has_showing_id before ≡ false
      → Names range none arguments (some id)
  by_nothing :
      (arguments : Arguments)
      → find is_showing_id arguments ≡ none
      → any has_showing_id (range arguments) ≡ false
      → Names range none arguments none

abbrev argument_of : Option (Text × Argument) → Option Argument
argument_of none = none
argument_of (some (_, a)) = some a

argument_found :
    (arguments : Arguments)
    → argument (bytes "showingID") arguments ≡ argument_of (find is_showing_id arguments)
unfolding argument
argument_found [] = refl
argument_found ((n, a) ∷ rest) = elim (Bool-cases (n == bytes "showingID")) [
  | inl here ↦ rw here refl
  | inr elsewhere ↦ rw elsewhere (argument_found rest)
]

first_struct :
    (name : Text) (id : Uuid) (before after : Arguments)
    → any has_showing_id before ≡ false
    → from_structs (before ++ (name, struct_argument (some id)) ∷ after) ≡ some id
unfolding from_structs
first_struct name id [] after h = refl
first_struct name id ((_, uuid_argument _) ∷ before) after h = first_struct name id before after h
first_struct name id ((_, struct_argument none) ∷ before) after h =
    first_struct name id before after h
first_struct name id ((_, other_argument) ∷ before) after h = first_struct name id before after h
first_struct name id ((_, struct_argument (some _)) ∷ before) after h = cc

no_struct : (rest : Arguments) → any has_showing_id rest ≡ false → from_structs rest ≡ none
unfolding from_structs
no_struct [] h = refl
no_struct ((_, uuid_argument _) ∷ rest) h = no_struct rest h
no_struct ((_, struct_argument none) ∷ rest) h = no_struct rest h
no_struct ((_, other_argument) ∷ rest) h = no_struct rest h
no_struct ((_, struct_argument (some _)) ∷ rest) h = cc

no_uuid : (a : Argument) → ((id : Uuid) → ¬ (a ≡ uuid_argument id)) → as_uuid a ≡ none
no_uuid (uuid_argument id) h = absurd (h id refl)
no_uuid (struct_argument _) h = refl
no_uuid other_argument h = refl

extracts :
    (range : Arguments → Arguments) (object : Option GraphShowing) (arguments : Arguments)
    (named : Option Uuid)
    → Names range object arguments named
    → extract_showing_id range object arguments ≡ named
unfolding extract_showing_id
extracts range object arguments named (by_object s _) = refl
extracts range object arguments named (by_argument name id _ e) =
    rw (argument_found arguments, e) refl
extracts range object arguments named (by_no_uuid name a _ e h) =
    rw (argument_found arguments, e) (no_uuid a h)
extracts range object arguments named (by_struct name id before after _ e split h) =
    rw (argument_found arguments, e, split) (first_struct name id before after h)
extracts range object arguments named (by_nothing _ e h) =
    rw (argument_found arguments, e) (no_struct (range arguments) h)

-- Behind the directive for showing admins, a principal who is not the admin of the showing that
-- the request names, or a request that names none, is refused with the tables and the transaction
-- as they were, whatever the resolver behind it does and whether or not the database can be
-- reached. A request about a showing names it; else the argument showingID names it, unless it is
-- no UUID; else the first struct with a ShowingID does, in the order in which Go visits the
-- arguments.
pub verify_showing_admin-refuses :
    {A : Type 0} (range : Arguments → Arguments) (me : Uuid) (object : Option GraphShowing)
    (arguments : Arguments) (named : Option Uuid) (next : Handler A) (w : World)
    → Names range object arguments named
    → is_admin_for me named w.db ≡ false
    → Refused me next w (verify_showing_admin range me object arguments next showing_admin w)
unfolding verify_showing_admin
verify_showing_admin-refuses range me object arguments named next w names h =
    strangers_stay_out me next (extract_showing_id range object arguments) w
      (rw (extracts range object arguments named names) h)

-- Behind the directive for showing admins, the resolver runs for the admin of the showing that the
-- request names, if the database answers.
verify_showing_admin-passes :
    {A : Type 0} (range : Arguments → Arguments) (me : Uuid) (object : Option GraphShowing)
    (arguments : Arguments) (next : Handler A) (w : World)
    → is_admin_for me (extract_showing_id range object arguments) w.db ≡ true
    → is_down w.faults ≡ false
    → verify_showing_admin range me object arguments next showing_admin w
      ≡ next (record w { faults = later w.faults })
unfolding verify_showing_admin
verify_showing_admin-passes range me object arguments next w h up =
    admin_passes me next (extract_showing_id range object arguments) w h up
