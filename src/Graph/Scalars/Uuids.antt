-- ===== src/Graph/Scalars/Uuids.antt =====
-- internal/graph/scalars/uuid.go. How the library for UUIDs prints and reads them is a parameter.
use filmstund.Base.{Option, none, some}
use filmstund.Base.Text.{Text}
use filmstund.Database.{Uuid, Result, ok, err}
use filmstund.Graph.Scalars.Dates.{Value, string, string_pointer, other_value, quoted}

pub data UuidError : Type 0 where
  missing_uuid : UuidError
  invalid_uuid : UuidError
  value_of_another_type : UuidError

unfoldable pub marshal_uuid : (Uuid → Text) → Uuid → Text
marshal_uuid to_text id = quoted (to_text id)

abbrev pub or_invalid : Option Uuid → Result UuidError Uuid
or_invalid none = err invalid_uuid
or_invalid (some id) = ok id

unfoldable pub unmarshal_uuid : (Text → Option Uuid) → Value → Result UuidError Uuid
unmarshal_uuid parse (string_pointer none) = err missing_uuid
unmarshal_uuid parse (string_pointer (some t)) = or_invalid (parse t)
unmarshal_uuid parse (string t) = or_invalid (parse t)
unmarshal_uuid parse other_value = err value_of_another_type
