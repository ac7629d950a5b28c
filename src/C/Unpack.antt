-- ===== src/C/Unpack.antt =====
-- The `*_unpack` functions of src/c_stuff_sack.py.
pub mod Run
pub mod Loads
pub mod Places
pub mod Frames
pub mod Spec
pub mod Calls
pub mod Arrays
pub mod Members
pub mod Structs
pub mod Bodies
pub mod Functions
pub mod Headers
pub mod Files
pub mod Located
pub mod Rejects
pub mod Exact
mod Tests
use stuff_sack.Prelude.{
  ℕ, ◌+◌, ◌*◌, Bool, true, false, List, [], ◌∷◌, ◌++◌, Option, leb, if◌then◌else◌,
}
use stuff_sack.Prelude.Text.{Text, codes, same}
use stuff_sack.Errors.{
  value_error, type_error, attribute_error, Result, ok, err, ◌>>=◌, ◌>>◌, guard,
}
use stuff_sack.Hash.Uid.{decimal}
use stuff_sack.Types.{
  SsType, primitive, bitfield, enum, struct, message, array, Fields, nil, field, root_type,
  packed_size, uid, type_name,
}
use stuff_sack.Names.{unpack_function_name}
use stuff_sack.C.Syntax.{Offset, at, scaled, Place, Stmt, call, loop}
use stuff_sack.C.Generate.{shifts, is_aliased, alias_locals}

-- The local copies of aliased fields, with the types that they are declared with, the statements,
-- and the fields whose copies are written back behind them.
pub record Body : Type 0 where
  pub locals : List (Text × Text × Text)
  pub statements : List Stmt
  pub copies : List Text

-- A function: `loads` for `primitive_unpack`, with the size and the shift of each byte; `narrowed`
-- for `enum_unpack`, with the size and the function that it calls; `checked` for `message_unpack`,
-- with the function for the header, the unique id and the packed size.
pub data Function : Type 0 where
  loads : ℕ → List ℕ → Function
  narrowed : ℕ → Text → Function
  fields : Body → Function
  checked : Text → ℕ → ℕ → Body → Function

-- `array_unpack`, at an element type and a length; `i` is the letter of the iteration variable.
unfoldable pub array_unpack : Place → SsType → ℕ → Offset → ℕ → Result Stmt
unfolding packed_size root_type
array_unpack p (array t m) n offset i = do
  guard (leb i b'z') value_error
  inner ←
      array_unpack (record p { indices = p.indices ++ i ∷ [] }) t m
        (scaled i (packed_size (array t m)) offset) (i + 1)
  ok (loop i n inner)
array_unpack p t n offset i = do
  guard (leb i b'z') value_error
  ok (
      loop i n (
        call (unpack_function_name (root_type t)) (record p { indices = p.indices ++ i ∷ [] })
          (scaled i (packed_size t) offset)))

-- `struct_unpack_alias_body`: the copies behind the statements; the declarations are those of
-- `struct_pack_alias_body`.
unfoldable pub alias_copies : Fields → List Text
unfolding is_aliased
alias_copies nil = []
alias_copies (field n t d a fs) =
    let rest = alias_copies fs in if is_aliased a then n ∷ rest else rest

-- A round of the loop of `struct_unpack_body`: a field of type `SsHeader` has no statement.
unfoldable pub field_unpack : Text → SsType → Option Text → ℕ → Result (List Stmt)
unfolding is_aliased array_unpack type_name
field_unpack n (array t m) a offset = elim (same (type_name (array t m)) (codes "SsHeader")) [
  | true ↦ ok []
  | false ↦
      array_unpack (record { local = is_aliased a; name = n; indices = [] }) t m (at offset) b'i'
      >>= λ s. ok (s ∷ [])
]
field_unpack n t a offset = ok (
    if same (type_name t) (codes "SsHeader")
    then []
    else call (unpack_function_name t) (record { local = is_aliased a; name = n; indices = [] })
        (at offset)
      ∷ [])

-- The loop of `struct_unpack_body`
unfoldable pub fields_unpack : Fields → ℕ → Result (List Stmt)
unfolding field_unpack packed_size
fields_unpack nil offset = ok []
fields_unpack (field n t d a fs) offset = do
  ss ← field_unpack n t a offset
  rest ← fields_unpack fs (offset + packed_size t)
  ok (ss ++ rest)

-- `struct_unpack_body`
unfoldable pub struct_unpack_body : Fields → Result Body
unfolding alias_locals alias_copies fields_unpack
struct_unpack_body fs = do
  ss ← fields_unpack fs 0
  ok (record { locals = alias_locals fs; statements = ss; copies = alias_copies fs })

-- `primitive_unpack`
unfoldable pub primitive_unpack : ℕ → Function
unfolding shifts
primitive_unpack bytes = loads bytes (shifts bytes)

-- `enum_unpack`
unfoldable pub enum_unpack : ℕ → Function
enum_unpack bytes = narrowed bytes (codes "SsUnpackInt" ++ decimal (bytes * 8))

-- `unpack_function_name(obj.fields[0].type)`, the call at the head of `message_unpack`
unfoldable pub header_function : Fields → Result Text
header_function nil = err attribute_error
header_function (field n t d a fs) = ok (unpack_function_name t)

-- `message_unpack`
unfoldable pub message_unpack : SsType → Fields → Result Function
unfolding header_function struct_unpack_body uid packed_size
message_unpack obj fs = do
  header ← header_function fs
  body ← struct_unpack_body fs
  ok (checked header (uid obj) (packed_size obj) body)

-- `unpack`
unfoldable pub unpack : SsType → Result Function
unfolding primitive_unpack enum_unpack struct_unpack_body message_unpack
unpack (enum n d vs b) = ok (enum_unpack b)
unpack (message n d fs) = message_unpack (message n d fs) fs
unpack (struct n d fs) = do body ← struct_unpack_body fs; ok (fields body)
unpack (primitive n b) = ok (primitive_unpack b)
unpack (bitfield n d fs b) = ok (primitive_unpack b)
unpack (array t n) = err type_error
