-- ===== src/Graph/Showings/Atomicity.antt =====
-- The handlers of internal/graph/showing.resolvers.go that use a transaction: whether it is used up
-- and what an error leaves behind.
use filmstund.Base.{◌≡◌, Bool, true, false, Option, none, some, arith}
use filmstund.Base.Int.{ℤ}
use filmstund.Base.Text.{Text}
use filmstund.Database.{Uuid, World, exec, or_return, ◌>>=◌, pure}
use filmstund.Database.Atomicity.{AllOrNothing, Handles, IsStep, Afterwards, atomic_rules}
use filmstund.Graph.Model.{Env, CreateShowingInput, GraphError, SingleShow, find_showing_failed}
use filmstund.Graph.Showings.{
  create_showing, create_screen, insert_screen, mark_as_bought, refuse_if_bought, showing,
}

abbrev pub never : GraphError → Bool
never e = false

insert_screen-IsStep : (s : Option SingleShow) → IsStep (insert_screen s)
unfolding insert_screen
insert_screen-IsStep none = search atomic_rules
insert_screen-IsStep (some s) = search atomic_rules

create_screen-IsStep : (env : Env) (id : Option Text) → IsStep (create_screen env id)
unfolding create_screen
create_screen-IsStep env none = search atomic_rules
create_screen-IsStep env (some id) = insert_screen-IsStep (env.show id)

create_showing-Handles :
    (env : Env) (input : CreateShowingInput) → Handles never (create_showing env input)
unfolding create_showing
create_showing-Handles env input = search (atomic_rules, create_screen-IsStep) depth 20

-- Where no transaction was open before, `CreateShowing` leaves none open, and if it returns an error
-- the committed tables are as they were.
pub create_showing-AllOrNothing :
    (env : Env) (input : CreateShowingInput) (w : World)
    → w.tx ≡ none
    → AllOrNothing never w (create_showing env input w)
create_showing-AllOrNothing env input w = (create_showing-Handles env input).at w

abbrev pub is_late : GraphError → Bool
is_late find_showing_failed = true
is_late _ = false

refuse_if_bought-IsStep : (b : Bool) → IsStep (refuse_if_bought b)
refuse_if_bought-IsStep true = search atomic_rules
refuse_if_bought-IsStep false = search atomic_rules

pub showing-Afterwards : (id : Uuid) → Afterwards is_late (showing (some id) none)
unfolding showing or_return exec ◌>>=◌ pure
showing-Afterwards id = record { at = λ w. ground arith }

mark_as_bought-Handles : (me id : Uuid) (price : ℤ) → Handles is_late (mark_as_bought me id price)
unfolding mark_as_bought
mark_as_bought-Handles me id price =
    search (atomic_rules, refuse_if_bought-IsStep, showing-Afterwards) depth 20

-- Where no transaction was open before, `MarkAsBought` leaves none open, and if it returns an error
-- other than that of the query after its commit the committed tables are as they were.
pub mark_as_bought-AllOrNothing :
    (me id : Uuid) (price : ℤ) (w : World)
    → w.tx ≡ none
    → AllOrNothing is_late w (mark_as_bought me id price w)
mark_as_bought-AllOrNothing me id price w = (mark_as_bought-Handles me id price).at w
