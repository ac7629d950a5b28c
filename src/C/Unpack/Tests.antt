-- ===== src/C/Unpack/Tests.antt =====
-- The generated unpacking functions of the sample specification.
use stuff_sack.Prelude.{
  ◌≡◌, Option, none, some, refl, List, [], ◌∷◌, ◌++◌, ℕ, ◌<◌, ◌*◌, arith, length,
}
use stuff_sack.Prelude.Text.{Text, codes}
use stuff_sack.Errors.{Result, ok, err}
use stuff_sack.Types.{SsType}
use stuff_sack.Spec.Tests.{sample_types}
use stuff_sack.C.Generate.{shifts}
use stuff_sack.C.Memory.{Value, word, items, block, stop, more, last, member, ◌>>=◌}
use stuff_sack.C.Run.{store_bytes}
use stuff_sack.C.Unpack.{Function}
use stuff_sack.C.Unpack.Run.{
  SsStatus, success, invalid_uid, invalid_len, Unpack, program, load, get_function, load_bytes,
}
use stuff_sack.C.Unpack.Loads.{primitive_round_trip}

abbrev functions_of : Result (List (Text × Function)) → List (Text × Function)
functions_of (ok ps) = ps
functions_of (err e) = []

abbrev apply : Option Unpack → Unpack
apply none buf k v = none
apply (some f) buf k v = f buf k v

-- `SsUnpackTrack`
unfoldable unpack_track : List ℕ → Value → Option (SsStatus × Value)
unfolding program load get_function
unpack_track buf v =
    apply (get_function (codes "SsUnpackTrack") (load (functions_of (program sample_types)) [])) buf
      0 v

abbrev point_value : ℕ → ℕ → Value
point_value x mode = block (member (codes "x") (word x) (member (codes "mode") (word mode) last))

abbrev track_value : ℕ → ℕ → ℕ → ℕ → ℕ → ℕ → ℕ → Value
track_value uid len a b c d flags = block (
    member (codes "ss_header")
      (block (member (codes "uid") (word uid) (member (codes "len") (word len) last)))
      (member (codes "points") (items (more (point_value a b) (more (point_value c d) stop)))
        (member (codes "flags") (word flags) last)))

unpack-track :
    unpack_track
      (158 ∷ 208 ∷ 11 ∷ 221 ∷ 0 ∷ 14 ∷ 18 ∷ 52 ∷ 1 ∷ 171 ∷ 205 ∷ 255 ∷ 5 ∷ 165 ∷ [])
      (track_value 0 0 0 0 0 0 0)
    ≡ some (success, track_value 2664434653 14 0x1234 1 0xABCD 0xFFFFFFFF 0x5A5)
unfolding unpack_track stuff_sack.Types.append_field stuff_sack.Types.field_names
    stuff_sack.Types.root_type stuff_sack.Types.all_lengths stuff_sack.Types.bracketed
    stuff_sack.Types.root_name stuff_sack.Types.type_name stuff_sack.Types.packed_size
    stuff_sack.Types.fields_size stuff_sack.Types.uid stuff_sack.Types.field_uids
    stuff_sack.Types.is_message stuff_sack.Names.is_upper stuff_sack.Names.is_lower
    stuff_sack.Names.to_lower stuff_sack.Names.to_upper stuff_sack.Names.lstrip
    stuff_sack.Names.snake stuff_sack.Names.camel_to_snake stuff_sack.Names.split
    stuff_sack.Names.capitalise stuff_sack.Names.join stuff_sack.Names.snake_to_camel
    stuff_sack.Names.c_type_name stuff_sack.Names.c_full_type_name stuff_sack.Names.c_field_name
    stuff_sack.Names.pack_function_name stuff_sack.Names.unpack_function_name
    stuff_sack.Names.log_function_name stuff_sack.Names.packed_size_name
    stuff_sack.Names.bitfield_c_type stuff_sack.C.Generate.shifts_from stuff_sack.C.Generate.shifts
    stuff_sack.C.Generate.array_pack stuff_sack.C.Generate.is_aliased
    stuff_sack.C.Generate.alias_locals stuff_sack.C.Generate.field_pack
    stuff_sack.C.Generate.fields_pack stuff_sack.C.Generate.struct_pack_body
    stuff_sack.C.Generate.primitive_pack stuff_sack.C.Generate.enum_pack stuff_sack.C.Generate.pack
    stuff_sack.C.Unpack.array_unpack stuff_sack.C.Unpack.alias_copies
    stuff_sack.C.Unpack.field_unpack stuff_sack.C.Unpack.fields_unpack
    stuff_sack.C.Unpack.struct_unpack_body stuff_sack.C.Unpack.primitive_unpack
    stuff_sack.C.Unpack.enum_unpack stuff_sack.C.Unpack.header_function
    stuff_sack.C.Unpack.message_unpack stuff_sack.C.Unpack.unpack
    stuff_sack.C.Unpack.Run.get_function stuff_sack.C.Unpack.Run.set_index
    stuff_sack.C.Unpack.Run.set_index_all stuff_sack.C.Unpack.Run.read stuff_sack.C.Unpack.Run.write
    stuff_sack.C.Unpack.Run.repeat stuff_sack.C.Unpack.Run.exec stuff_sack.C.Unpack.Run.exec_all
    stuff_sack.C.Unpack.Run.declare_locals stuff_sack.C.Unpack.Run.copy_back
    stuff_sack.C.Unpack.Run.run_body stuff_sack.C.Unpack.Run.load_bytes
    stuff_sack.C.Unpack.Run.get_word stuff_sack.C.Unpack.Run.get_block
    stuff_sack.C.Unpack.Run.header_word stuff_sack.C.Unpack.Run.check_header
    stuff_sack.C.Unpack.Run.run_function stuff_sack.C.Unpack.Run.program
    stuff_sack.C.Unpack.Run.load stuff_sack.C.Memory.get_member stuff_sack.C.Memory.set_member
    stuff_sack.C.Memory.get_index stuff_sack.C.Memory.count stuff_sack.C.Memory.get_var
    stuff_sack.C.Memory.index_all stuff_sack.C.Memory.int_value stuff_sack.C.Memory.eval_offset
    stuff_sack.C.Memory.store stuff_sack.C.Memory.convert stuff_sack.Hash.Uid.decimal_loop
    stuff_sack.Hash.Uid.decimal stuff_sack.Hash.Uid.int_text stuff_sack.Hash.Uid.utf8
    stuff_sack.Hash.Uid.c_string stuff_sack.Hash.Uid.name_bytes stuff_sack.Hash.Uid.append_uids
    stuff_sack.Hash.Uid.named_int_hash stuff_sack.Hash.Uid.array_hash
    stuff_sack.Hash.Uid.struct_field_hash stuff_sack.Hash.Uid.named_list_hash
    stuff_sack.Hash.Crc.crc_round stuff_sack.Hash.Crc.crc_rounds stuff_sack.Hash.Crc.crc_table
    stuff_sack.Hash.Crc.crc_step stuff_sack.Hash.Crc.crc_loop stuff_sack.Hash.Crc.get_crc32
    stuff_sack.Prelude.Text.same stuff_sack.Prelude.Text.contains
unpack-track = refl

unpack-wrong_uid :
    unpack_track
      (158 ∷ 208 ∷ 11 ∷ 222 ∷ 0 ∷ 14 ∷ 18 ∷ 52 ∷ 1 ∷ 171 ∷ 205 ∷ 0 ∷ 5 ∷ 165 ∷ [])
      (track_value 0 0 0 0 0 0 0)
    ≡ some (invalid_uid, track_value 2664434654 14 0 0 0 0 0)
unfolding unpack_track stuff_sack.Types.append_field stuff_sack.Types.field_names
    stuff_sack.Types.root_type stuff_sack.Types.all_lengths stuff_sack.Types.bracketed
    stuff_sack.Types.root_name stuff_sack.Types.type_name stuff_sack.Types.packed_size
    stuff_sack.Types.fields_size stuff_sack.Types.uid stuff_sack.Types.field_uids
    stuff_sack.Types.is_message stuff_sack.Names.is_upper stuff_sack.Names.is_lower
    stuff_sack.Names.to_lower stuff_sack.Names.to_upper stuff_sack.Names.lstrip
    stuff_sack.Names.snake stuff_sack.Names.camel_to_snake stuff_sack.Names.split
    stuff_sack.Names.capitalise stuff_sack.Names.join stuff_sack.Names.snake_to_camel
    stuff_sack.Names.c_type_name stuff_sack.Names.c_full_type_name stuff_sack.Names.c_field_name
    stuff_sack.Names.pack_function_name stuff_sack.Names.unpack_function_name
    stuff_sack.Names.log_function_name stuff_sack.Names.packed_size_name
    stuff_sack.Names.bitfield_c_type stuff_sack.C.Generate.shifts_from stuff_sack.C.Generate.shifts
    stuff_sack.C.Generate.array_pack stuff_sack.C.Generate.is_aliased
    stuff_sack.C.Generate.alias_locals stuff_sack.C.Generate.field_pack
    stuff_sack.C.Generate.fields_pack stuff_sack.C.Generate.struct_pack_body
    stuff_sack.C.Generate.primitive_pack stuff_sack.C.Generate.enum_pack stuff_sack.C.Generate.pack
    stuff_sack.C.Unpack.array_unpack stuff_sack.C.Unpack.alias_copies
    stuff_sack.C.Unpack.field_unpack stuff_sack.C.Unpack.fields_unpack
    stuff_sack.C.Unpack.struct_unpack_body stuff_sack.C.Unpack.primitive_unpack
    stuff_sack.C.Unpack.enum_unpack stuff_sack.C.Unpack.header_function
    stuff_sack.C.Unpack.message_unpack stuff_sack.C.Unpack.unpack
    stuff_sack.C.Unpack.Run.get_function stuff_sack.C.Unpack.Run.set_index
    stuff_sack.C.Unpack.Run.set_index_all stuff_sack.C.Unpack.Run.read stuff_sack.C.Unpack.Run.write
    stuff_sack.C.Unpack.Run.repeat stuff_sack.C.Unpack.Run.exec stuff_sack.C.Unpack.Run.exec_all
    stuff_sack.C.Unpack.Run.declare_locals stuff_sack.C.Unpack.Run.copy_back
    stuff_sack.C.Unpack.Run.run_body stuff_sack.C.Unpack.Run.load_bytes
    stuff_sack.C.Unpack.Run.get_word stuff_sack.C.Unpack.Run.get_block
    stuff_sack.C.Unpack.Run.header_word stuff_sack.C.Unpack.Run.check_header
    stuff_sack.C.Unpack.Run.run_function stuff_sack.C.Unpack.Run.program
    stuff_sack.C.Unpack.Run.load stuff_sack.C.Memory.get_member stuff_sack.C.Memory.set_member
    stuff_sack.C.Memory.get_index stuff_sack.C.Memory.count stuff_sack.C.Memory.get_var
    stuff_sack.C.Memory.index_all stuff_sack.C.Memory.int_value stuff_sack.C.Memory.eval_offset
    stuff_sack.C.Memory.store stuff_sack.C.Memory.convert stuff_sack.Hash.Uid.decimal_loop
    stuff_sack.Hash.Uid.decimal stuff_sack.Hash.Uid.int_text stuff_sack.Hash.Uid.utf8
    stuff_sack.Hash.Uid.c_string stuff_sack.Hash.Uid.name_bytes stuff_sack.Hash.Uid.append_uids
    stuff_sack.Hash.Uid.named_int_hash stuff_sack.Hash.Uid.array_hash
    stuff_sack.Hash.Uid.struct_field_hash stuff_sack.Hash.Uid.named_list_hash
    stuff_sack.Hash.Crc.crc_round stuff_sack.Hash.Crc.crc_rounds stuff_sack.Hash.Crc.crc_table
    stuff_sack.Hash.Crc.crc_step stuff_sack.Hash.Crc.crc_loop stuff_sack.Hash.Crc.get_crc32
    stuff_sack.Prelude.Text.same stuff_sack.Prelude.Text.contains
unpack-wrong_uid = refl

unpack-wrong_len :
    unpack_track
      (158 ∷ 208 ∷ 11 ∷ 221 ∷ 0 ∷ 15 ∷ 18 ∷ 52 ∷ 1 ∷ 171 ∷ 205 ∷ 0 ∷ 5 ∷ 165 ∷ [])
      (track_value 0 0 0 0 0 0 0)
    ≡ some (invalid_len, track_value 2664434653 15 0 0 0 0 0)
unfolding unpack_track stuff_sack.Types.append_field stuff_sack.Types.field_names
    stuff_sack.Types.root_type stuff_sack.Types.all_lengths stuff_sack.Types.bracketed
    stuff_sack.Types.root_name stuff_sack.Types.type_name stuff_sack.Types.packed_size
    stuff_sack.Types.fields_size stuff_sack.Types.uid stuff_sack.Types.field_uids
    stuff_sack.Types.is_message stuff_sack.Names.is_upper stuff_sack.Names.is_lower
    stuff_sack.Names.to_lower stuff_sack.Names.to_upper stuff_sack.Names.lstrip
    stuff_sack.Names.snake stuff_sack.Names.camel_to_snake stuff_sack.Names.split
    stuff_sack.Names.capitalise stuff_sack.Names.join stuff_sack.Names.snake_to_camel
    stuff_sack.Names.c_type_name stuff_sack.Names.c_full_type_name stuff_sack.Names.c_field_name
    stuff_sack.Names.pack_function_name stuff_sack.Names.unpack_function_name
    stuff_sack.Names.log_function_name stuff_sack.Names.packed_size_name
    stuff_sack.Names.bitfield_c_type stuff_sack.C.Generate.shifts_from stuff_sack.C.Generate.shifts
    stuff_sack.C.Generate.array_pack stuff_sack.C.Generate.is_aliased
    stuff_sack.C.Generate.alias_locals stuff_sack.C.Generate.field_pack
    stuff_sack.C.Generate.fields_pack stuff_sack.C.Generate.struct_pack_body
    stuff_sack.C.Generate.primitive_pack stuff_sack.C.Generate.enum_pack stuff_sack.C.Generate.pack
    stuff_sack.C.Unpack.array_unpack stuff_sack.C.Unpack.alias_copies
    stuff_sack.C.Unpack.field_unpack stuff_sack.C.Unpack.fields_unpack
    stuff_sack.C.Unpack.struct_unpack_body stuff_sack.C.Unpack.primitive_unpack
    stuff_sack.C.Unpack.enum_unpack stuff_sack.C.Unpack.header_function
    stuff_sack.C.Unpack.message_unpack stuff_sack.C.Unpack.unpack
    stuff_sack.C.Unpack.Run.get_function stuff_sack.C.Unpack.Run.set_index
    stuff_sack.C.Unpack.Run.set_index_all stuff_sack.C.Unpack.Run.read stuff_sack.C.Unpack.Run.write
    stuff_sack.C.Unpack.Run.repeat stuff_sack.C.Unpack.Run.exec stuff_sack.C.Unpack.Run.exec_all
    stuff_sack.C.Unpack.Run.declare_locals stuff_sack.C.Unpack.Run.copy_back
    stuff_sack.C.Unpack.Run.run_body stuff_sack.C.Unpack.Run.load_bytes
    stuff_sack.C.Unpack.Run.get_word stuff_sack.C.Unpack.Run.get_block
    stuff_sack.C.Unpack.Run.header_word stuff_sack.C.Unpack.Run.check_header
    stuff_sack.C.Unpack.Run.run_function stuff_sack.C.Unpack.Run.program
    stuff_sack.C.Unpack.Run.load stuff_sack.C.Memory.get_member stuff_sack.C.Memory.set_member
    stuff_sack.C.Memory.get_index stuff_sack.C.Memory.count stuff_sack.C.Memory.get_var
    stuff_sack.C.Memory.index_all stuff_sack.C.Memory.int_value stuff_sack.C.Memory.eval_offset
    stuff_sack.C.Memory.store stuff_sack.C.Memory.convert stuff_sack.Hash.Uid.decimal_loop
    stuff_sack.Hash.Uid.decimal stuff_sack.Hash.Uid.int_text stuff_sack.Hash.Uid.utf8
    stuff_sack.Hash.Uid.c_string stuff_sack.Hash.Uid.name_bytes stuff_sack.Hash.Uid.append_uids
    stuff_sack.Hash.Uid.named_int_hash stuff_sack.Hash.Uid.array_hash
    stuff_sack.Hash.Uid.struct_field_hash stuff_sack.Hash.Uid.named_list_hash
    stuff_sack.Hash.Crc.crc_round stuff_sack.Hash.Crc.crc_rounds stuff_sack.Hash.Crc.crc_table
    stuff_sack.Hash.Crc.crc_step stuff_sack.Hash.Crc.crc_loop stuff_sack.Hash.Crc.get_crc32
    stuff_sack.Prelude.Text.same stuff_sack.Prelude.Text.contains
unpack-wrong_len = refl

primitive_round_trip_example :
    (store_bytes 0x1234 1 (shifts 2) ((9 ∷ []) ++ ((0 ∷ 0 ∷ []) ++ 8 ∷ [])) >>= λ buf.
    load_bytes (2 * 8) buf 1 (shifts 2) 0)
    ≡ some 0x1234
primitive_round_trip_example =
    primitive_round_trip 0x1234 2 (9 ∷ []) (0 ∷ 0 ∷ []) (8 ∷ []) refl (omega arith)
