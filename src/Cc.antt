-- ===== src/Cc.antt =====
-- The C++ code that src/cc_stuff_sack.py writes: the functions of the types, and the methods of the
-- messages.
pub mod Run
pub mod Dispatch
pub mod Received
pub mod Registered
pub mod Flat
pub mod Wire
mod Tests
use stuff_sack.Prelude.{ℕ, List, [], ◌∷◌}
use stuff_sack.Prelude.Text.{Text}
use stuff_sack.Errors.{type_error, attribute_error, Result, ok, err, ◌>>=◌}
use stuff_sack.Types.{
  SsType, primitive, bitfield, enum, struct, message, array, Fields, uid, packed_size,
}
use stuff_sack.Names.{pack_function_name, unpack_function_name}
use stuff_sack.C.Syntax
use stuff_sack.C.Syntax.{fields}
use stuff_sack.C.Generate.{primitive_pack, struct_pack_body}
use stuff_sack.C.Unpack
use stuff_sack.C.Unpack.{primitive_unpack, struct_unpack_body, header_function}

-- `packing_functions`: an enum has functions like those of an integer, and a message like those of
-- a struct.
unfoldable pub packing_functions : SsType → Result (Syntax.Function × Unpack.Function)
unfolding primitive_pack primitive_unpack struct_pack_body struct_unpack_body
packing_functions (primitive n b) = ok (primitive_pack b, primitive_unpack b)
packing_functions (bitfield n d fs b) = ok (primitive_pack b, primitive_unpack b)
packing_functions (enum n d vs b) = ok (primitive_pack b, primitive_unpack b)
packing_functions (message n d fs) = do
  packs ← struct_pack_body fs
  unpacks ← struct_unpack_body fs
  ok (fields packs, Unpack.fields unpacks)
packing_functions (struct n d fs) = do
  packs ← struct_pack_body fs
  unpacks ← struct_unpack_body fs
  ok (fields packs, Unpack.fields unpacks)
packing_functions (array t n) = err type_error

-- What `message_pack` and `message_unpack` write for a message: the functions that the methods call,
-- and the constants `kUid` and `kPackedSize`.
pub record Methods : Type 0 where
  pub pack_function : Text
  pub header_unpack : Text
  pub unpack_function : Text
  pub k_uid : ℕ
  pub k_packed_size : ℕ

unfoldable pub message_methods : SsType → Fields → Result Methods
unfolding header_function uid packed_size
message_methods msg fs = do
  header ← header_function fs
  ok record {
    pack_function = pack_function_name msg;
    header_unpack = header;
    unpack_function = unpack_function_name msg;
    k_uid = uid msg;
    k_packed_size = packed_size msg;
  }

-- The functions that `cc_source` writes, in the order of the types: those that pack, and those that
-- unpack.
unfoldable pub cc_source :
    List SsType → Result (List (Text × Syntax.Function) × List (Text × Unpack.Function))
unfolding packing_functions
cc_source [] = ok ([], [])
cc_source (t ∷ ts) = do
  fs ← packing_functions t
  rest ← cc_source ts
  ok ((pack_function_name t, fs.0) ∷ rest.0, (unpack_function_name t, fs.1) ∷ rest.1)
