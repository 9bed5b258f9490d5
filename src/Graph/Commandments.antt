-- ===== src/Graph/Commandments.antt =====
-- internal/graph/commandments.resolvers.go.
use filmstund.Base.{List, [], ◌∷◌, ◌++◌}
use filmstund.Base.Int.{ℤ}
use filmstund.Base.Text.{Text}
use filmstund.Database.{Commandment, Action, pool, exec, or_return, pure, ◌>>=◌}
use filmstund.Dao.Commandments.{CommandmentRow, list_commandments, random_commandment}

-- `Commandments` of internal/graph/model.
pub record Commandments : Type 0 where
  pub number : ℤ
  pub phrase : Text

pub data CommandmentError : Type 0 where
  list_commandments_failed random_commandment_failed : CommandmentError

abbrev pub commandments_model : CommandmentRow → Commandments
commandments_model r = record { number = r.number; phrase = r.phrase }

-- The loop of `AllCommandments`
unfoldable pub append_commandments : List Commandments → List CommandmentRow → List Commandments
append_commandments done [] = done
append_commandments done (r ∷ rows) = append_commandments (done ++ commandments_model r ∷ []) rows

-- `queryResolver.AllCommandments`
unfoldable pub all_commandments : Action CommandmentError (List Commandments)
unfolding append_commandments
all_commandments = do
  all ← or_return (exec pool list_commandments) list_commandments_failed
  pure (append_commandments [] all)

-- `queryResolver.RandomCommandment`
unfoldable pub one_commandment :
    (List Commandment → List Commandment) → Action CommandmentError Commandments
one_commandment shuffled = do
  rnd ← or_return (exec pool (random_commandment shuffled)) random_commandment_failed
  pure (commandments_model rnd)
