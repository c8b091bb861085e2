-- ===== src/Json.antt =====
-- What the program asks of encoding/json, which is read as a parameter: the members of an object,
-- and the text of a list of strings.
use sounding.Prelude.{List, Option, Text, Float}

-- A member's value, as far as the program reads it.
pub data Value : Type 0 where
  null : Value
  text : Text → Value
  number : Float → Value
  other : Value

pub record Json : Type 0 where
  pub object : Text → Option (List (Text × Value))
  pub decode_list : Text → Option (List Text)
  pub encode_list : List Text → Text
