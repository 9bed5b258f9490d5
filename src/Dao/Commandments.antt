-- ===== src/Dao/Commandments.antt =====
-- internal/database/dao/commandments.sql.go.
use filmstund.Base.{Bool, List, [], ◌∷◌, map, order_by}
use filmstund.Base.Int.{ℤ, ltb_ℤ}
use filmstund.Base.Text.{Text}
use filmstund.Database.{Commandment, no_rows, ok, err, Statement}

-- ListCommandmentsRow and RandomCommandmentRow have the same columns.
pub record CommandmentRow : Type 0 where
  pub number : ℤ
  pub phrase : Text

abbrev pub commandment_row : Commandment → CommandmentRow
commandment_row c = record { number = c.number; phrase = c.phrase }

abbrev pub numbered_before : Commandment → Commandment → Bool
numbered_before c d = ltb_ℤ c.number d.number

unfoldable pub list_commandments : Statement (List CommandmentRow)
list_commandments now db = ok (map commandment_row (order_by numbered_before db.commandments), db)

abbrev pub first_row : List Commandment → Statement CommandmentRow
first_row [] now db = err no_rows
first_row (c ∷ cs) now db = ok (commandment_row c, db)

-- `shuffled` is the order that the server chooses.
unfoldable pub random_commandment : (List Commandment → List Commandment) → Statement CommandmentRow
random_commandment shuffled now db = first_row (shuffled db.commandments) now db
