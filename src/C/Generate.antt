-- ===== src/C/Generate.antt =====
-- The `*_pack` functions of src/c_stuff_sack.py.
use stuff_sack.Prelude.{
  ℕ, zero, suc, ◌+◌, ◌-◌, ◌*◌, Bool, true, false, List, [], ◌∷◌, ◌++◌, Option, none, some, leb,
  if◌then◌else◌,
}
use stuff_sack.Prelude.Text.{Text, codes}
use stuff_sack.Errors.{value_error, type_error, Result, ok, err, ◌>>=◌, ◌>>◌, guard}
use stuff_sack.Hash.Uid.{decimal}
use stuff_sack.Types.{
  SsType, primitive, bitfield, enum, struct, message, array, Fields, nil, field, root_type,
  root_name, packed_size, uid,
}
use stuff_sack.Names.{c_field_name, pack_function_name}
use stuff_sack.C.Syntax.{
  Offset, at, scaled, Place, Stmt, call, loop, Body, Function, stores, widened, fields, stamped,
}

-- `(obj.bytes - i - 1) * 8` for each `i` in `range(obj.bytes)`
unfoldable pub shifts_from : ℕ → ℕ → ℕ → List ℕ
shifts_from bytes i zero = []
shifts_from bytes i (suc left) = (bytes - i - 1) * 8 ∷ shifts_from bytes (i + 1) left

unfoldable pub shifts : ℕ → List ℕ
unfolding shifts_from
shifts bytes = shifts_from bytes 0 bytes

-- `array_pack`, at an element type and a length; `i` is the letter of the iteration variable.
unfoldable pub array_pack : Place → SsType → ℕ → Offset → ℕ → Result Stmt
unfolding packed_size root_type
array_pack p (array t m) n offset i = do
  guard (leb i b'z') value_error
  inner ←
      array_pack (record p { indices = p.indices ++ i ∷ [] }) t m
        (scaled i (packed_size (array t m)) offset) (i + 1)
  ok (loop i n inner)
array_pack p t n offset i = do
  guard (leb i b'z') value_error
  ok (
      loop i n (
        call (pack_function_name (root_type t)) (record p { indices = p.indices ++ i ∷ [] })
          (scaled i (packed_size t) offset)))

-- `if f.alias`: an alias, and not the empty one
unfoldable pub is_aliased : Option Text → Bool
is_aliased none = false
is_aliased (some []) = false
is_aliased (some (c ∷ s)) = true

-- `struct_pack_alias_body`: for each aliased field its name, and the declaration of its copy
unfoldable pub alias_locals : Fields → List (Text × Text × Text)
unfolding is_aliased c_field_name
alias_locals nil = []
alias_locals (field n t d a fs) =
    let rest = alias_locals fs in
    if is_aliased a then (n, root_name t, c_field_name n t (codes "_")) ∷ rest else rest

-- A round of the loop of `struct_pack_body`
unfoldable pub field_pack : Text → SsType → Option Text → ℕ → Result Stmt
unfolding is_aliased array_pack
field_pack n (array t m) a offset =
    array_pack (record { local = is_aliased a; name = n; indices = [] }) t m (at offset) b'i'
field_pack n t a offset = ok (
    call (pack_function_name t) (record { local = is_aliased a; name = n; indices = [] })
      (at offset))

-- The loop of `struct_pack_body`
unfoldable pub fields_pack : Fields → ℕ → Result (List Stmt)
unfolding field_pack packed_size
fields_pack nil offset = ok []
fields_pack (field n t d a fs) offset = do
  s ← field_pack n t a offset
  ss ← fields_pack fs (offset + packed_size t)
  ok (s ∷ ss)

-- `struct_pack_body`
unfoldable pub struct_pack_body : Fields → Result Body
unfolding alias_locals fields_pack
struct_pack_body fs = do
  ss ← fields_pack fs 0
  ok (record { locals = alias_locals fs; statements = ss })

-- `primitive_pack`
unfoldable pub primitive_pack : ℕ → Function
unfolding shifts
primitive_pack bytes = stores bytes (shifts bytes)

-- `enum_pack`: it calls `SsPackInt8` and so on
unfoldable pub enum_pack : ℕ → Function
enum_pack bytes = widened bytes (codes "SsPackInt" ++ decimal (bytes * 8))

-- `pack`
unfoldable pub pack : SsType → Result Function
unfolding primitive_pack enum_pack struct_pack_body
pack (enum n d vs b) = ok (enum_pack b)
pack (message n d fs) = do
  body ← struct_pack_body fs
  ok (stamped (uid (message n d fs)) (packed_size (message n d fs)) body)
pack (struct n d fs) = do body ← struct_pack_body fs; ok (fields body)
pack (primitive n b) = ok (primitive_pack b)
pack (bitfield n d fs b) = ok (primitive_pack b)
pack (array t n) = err type_error
