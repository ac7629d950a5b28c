-- ===== src/C/Syntax.antt =====
-- The statements that the generator writes into the body of a C function. The text of a statement
-- is determined by these trees: a loop is `for (int32_t i = 0; i < n; ++i) {...}`, a call is
-- `SsPackX(&place, buffer + offset)` or `SsUnpackX(buffer + offset, &place)`.
use stuff_sack.Prelude.{ℕ, Bool, List}
use stuff_sack.Prelude.Text.{Text}

-- `0`, or `i * size + offset` with the letter of `i`
pub data Offset : Type 0 where
  at : ℕ → Offset
  scaled : ℕ → ℕ → Offset → Offset

-- `data->name[i][j]`, or `_name[i][j]` of a local copy
pub record Place : Type 0 where
  pub local : Bool
  pub name : Text
  pub indices : List ℕ

pub data Stmt : Type 0 where
  call : Text → Place → Offset → Stmt
  loop : ℕ → ℕ → Stmt → Stmt

-- The local copies of aliased fields, by the fields' names, with the type that each is declared
-- with, and the statements.
pub record Body : Type 0 where
  pub locals : List (Text × Text × Text)
  pub statements : List Stmt

-- A function: `stores` for `primitive_pack`, with the size and the shift of each byte; `widened`
-- for `enum_pack`, which hands the value over to the function for integers of its size.
pub data Function : Type 0 where
  stores : ℕ → List ℕ → Function
  widened : ℕ → Text → Function
  fields : Body → Function
  stamped : ℕ → ℕ → Body → Function
