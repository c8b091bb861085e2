-- ===== src/Arithmetic.antt =====
-- What the code computes with float64: a result is the term of the operations, in their order, since each operation
-- rounds. `eval` gives its value, for any arithmetic.
use sounding.Prelude.{Float}

pub data Computed : Type 0 where
  exact : (v : Float) → Computed
  plus : (a b : Computed) → Computed
  minus : (a b : Computed) → Computed
  times : (a b : Computed) → Computed
  over : (a b : Computed) → Computed
  root_of : (a : Computed) → Computed

-- The operations of an arithmetic, `math.Sqrt` the last.
pub record Arith : Type 0 where
  pub add : Float → Float → Float
  pub subtract : Float → Float → Float
  pub multiply : Float → Float → Float
  pub divide : Float → Float → Float
  pub sqrt : Float → Float

abbrev pub eval : Arith → Computed → Float
eval ar (exact v) = v
eval ar (plus a b) = ar.add (eval ar a) (eval ar b)
eval ar (minus a b) = ar.subtract (eval ar a) (eval ar b)
eval ar (times a b) = ar.multiply (eval ar a) (eval ar b)
eval ar (over a b) = ar.divide (eval ar a) (eval ar b)
eval ar (root_of a) = ar.sqrt (eval ar a)
