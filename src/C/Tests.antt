-- ===== src/C/Tests.antt =====
-- The generated file of the sample specification.
pub mod RoundTrip
mod Enums
mod Asserts
use stuff_sack.Prelude.{
  ℕ, ◌≡◌, ◌≢◌, Option, Bool, true, false, refl, List, [], ◌∷◌, none, some, ◌++◌, length, get_elem?,
  All, arith,
}
use stuff_sack.Prelude.Text.{Text, codes, Distinct, same, contains}
use stuff_sack.Errors.{Result, ok, err}
use stuff_sack.Types.{SsType, packed_size, root_name, uid}
use stuff_sack.Names.{pack_function_name}
use stuff_sack.Spec.Build.{find}
use stuff_sack.Spec.Tests.{sample, sample_types, sample-parsed, builtins, track}
use stuff_sack.C.Syntax.{Function}
use stuff_sack.C.Memory.{Value, word, items, block, Values, stop, more, Members, last, member}
use stuff_sack.C.Run.{program, call_function, load, store_bytes}
use stuff_sack.C.Generate.{shifts}
use stuff_sack.C.Run.Bytes.{store_bytes-big_endian}
use stuff_sack.C.Run.Spec.{IsSupported, HasType, encode, big_endian}
use stuff_sack.C.Run.Files.{function_names}
use stuff_sack.C.Generated.{generated-packs}
use stuff_sack.C.Messages.{messages, get_ss_msg_type_from_uid, get_ss_msg_type_from_uid-finds}

abbrev functions_of : {F : Type 0} → Result (List (Text × F)) → List (Text × F)
functions_of (ok ps) = ps
functions_of (err e) = []

unfoldable is_ok : {F : Type 0} → Result (List (Text × F)) → Bool
is_ok (ok ps) = true
is_ok (err e) = false

unfoldable pub functions : List (Text × Function)
unfolding program
functions = functions_of (program sample_types)

functions_of-ok :
    {F : Type 0} (r : Result (List (Text × F))) → is_ok r ≡ true → r ≡ ok (functions_of r)
unfolding is_ok
functions_of-ok (ok ps) h = refl
functions_of-ok (err e) h = absurd (ground arith)

abbrev pub point_value : ℕ → ℕ → Value
point_value x mode = block (member (codes "x") (word x) (member (codes "mode") (word mode) last))

abbrev pub track_value : Value
track_value = block (
    member (codes "ss_header")
      (block (member (codes "uid") (word 0) (member (codes "len") (word 0) last)))
      (member (codes "points")
        (items (more (point_value 0x1234 1) (more (point_value 0xABCD 0) stop)))
        (member (codes "flags") (word 0x5A5) last)))

pub sample-functions : program sample_types ≡ ok functions
unfolding functions is_ok stuff_sack.Types.append_field stuff_sack.Types.field_names
    stuff_sack.Types.root_type stuff_sack.Types.all_lengths stuff_sack.Types.bracketed
    stuff_sack.Types.root_name stuff_sack.Types.type_name stuff_sack.Types.packed_size
    stuff_sack.Types.fields_size stuff_sack.Types.uid stuff_sack.Types.field_uids
    stuff_sack.Types.is_message stuff_sack.Names.is_upper stuff_sack.Names.is_lower
    stuff_sack.Names.to_lower stuff_sack.Names.to_upper stuff_sack.Names.lstrip
    stuff_sack.Names.snake stuff_sack.Names.camel_to_snake stuff_sack.Names.split
    stuff_sack.Names.capitalise stuff_sack.Names.join stuff_sack.Names.snake_to_camel
    stuff_sack.Names.c_type_name stuff_sack.Names.c_full_type_name stuff_sack.Names.c_field_name
    stuff_sack.Names.pack_function_name stuff_sack.Names.unpack_function_name
    stuff_sack.Names.log_function_name stuff_sack.Names.packed_size_name
    stuff_sack.Names.bitfield_c_type stuff_sack.C.Generate.shifts_from stuff_sack.C.Generate.shifts
    stuff_sack.C.Generate.array_pack stuff_sack.C.Generate.is_aliased
    stuff_sack.C.Generate.alias_locals stuff_sack.C.Generate.field_pack
    stuff_sack.C.Generate.fields_pack stuff_sack.C.Generate.struct_pack_body
    stuff_sack.C.Generate.primitive_pack stuff_sack.C.Generate.enum_pack stuff_sack.C.Generate.pack
    stuff_sack.Hash.Uid.decimal_loop stuff_sack.Hash.Uid.decimal stuff_sack.Hash.Uid.int_text
    stuff_sack.Hash.Uid.utf8 stuff_sack.Hash.Uid.c_string stuff_sack.Hash.Uid.name_bytes
    stuff_sack.Hash.Uid.append_uids stuff_sack.Hash.Uid.named_int_hash
    stuff_sack.Hash.Uid.array_hash stuff_sack.Hash.Uid.struct_field_hash
    stuff_sack.Hash.Uid.named_list_hash stuff_sack.Hash.Crc.crc_round stuff_sack.Hash.Crc.crc_rounds
    stuff_sack.Hash.Crc.crc_table stuff_sack.Hash.Crc.crc_step stuff_sack.Hash.Crc.crc_loop
    stuff_sack.Hash.Crc.get_crc32 stuff_sack.Prelude.Text.same stuff_sack.Prelude.Text.contains
    stuff_sack.C.Run.get_function stuff_sack.C.Run.call_function stuff_sack.C.Run.repeat
    stuff_sack.C.Run.read stuff_sack.C.Run.exec stuff_sack.C.Run.exec_all
    stuff_sack.C.Run.store_bytes stuff_sack.C.Run.copy_locals stuff_sack.C.Run.run_body
    stuff_sack.C.Run.stamp stuff_sack.C.Run.run_function stuff_sack.C.Run.program
    stuff_sack.C.Run.load
sample-functions = functions_of-ok (program sample_types) refl

pub functions-Distinct : Distinct (function_names sample_types)
unfolding stuff_sack.Types.append_field stuff_sack.Types.field_names stuff_sack.Types.root_type
    stuff_sack.Types.all_lengths stuff_sack.Types.bracketed stuff_sack.Types.root_name
    stuff_sack.Types.type_name stuff_sack.Types.packed_size stuff_sack.Types.fields_size
    stuff_sack.Types.uid stuff_sack.Types.field_uids stuff_sack.Types.is_message
    stuff_sack.Names.is_upper stuff_sack.Names.is_lower stuff_sack.Names.to_lower
    stuff_sack.Names.to_upper stuff_sack.Names.lstrip stuff_sack.Names.snake
    stuff_sack.Names.camel_to_snake stuff_sack.Names.split stuff_sack.Names.capitalise
    stuff_sack.Names.join stuff_sack.Names.snake_to_camel stuff_sack.Names.c_type_name
    stuff_sack.Names.c_full_type_name stuff_sack.Names.c_field_name
    stuff_sack.Names.pack_function_name stuff_sack.Names.unpack_function_name
    stuff_sack.Names.log_function_name stuff_sack.Names.packed_size_name
    stuff_sack.Names.bitfield_c_type stuff_sack.Hash.Uid.decimal_loop stuff_sack.Hash.Uid.decimal
    stuff_sack.Hash.Uid.int_text stuff_sack.Hash.Uid.utf8 stuff_sack.Hash.Uid.c_string
    stuff_sack.Hash.Uid.name_bytes stuff_sack.Hash.Uid.append_uids
    stuff_sack.Hash.Uid.named_int_hash stuff_sack.Hash.Uid.array_hash
    stuff_sack.Hash.Uid.struct_field_hash stuff_sack.Hash.Uid.named_list_hash
    stuff_sack.Prelude.Text.same stuff_sack.Prelude.Text.contains
functions-Distinct = (
  refl,
  (
    refl,
    (
      refl,
      (
        refl,
        (
          refl,
          (
            refl,
            (
              refl,
              (refl, (refl, (refl, (refl, (refl, (refl, (refl, (refl, (refl, (refl, tt)))))))))),
            ),
          ),
        ),
      ),
    ),
  ),
)

pub track-found : find (root_name track) sample_types ≡ some track
unfolding find root_name same
track-found = refl

pub track_value-HasType : HasType track track_value
unfolding stuff_sack.C.Memory.count
track_value-HasType = (
  refl,
  (refl, omega arith, (refl, omega arith, tt)),
  (
    refl,
    (
      refl,
      (
        (refl, omega arith, (refl, omega arith, tt)),
        ((refl, omega arith, (refl, omega arith, tt)), tt),
      ),
    ),
    (refl, omega arith, tt),
  ),
)

track-size : 14 ≡ packed_size track
unfolding packed_size
track-size = refl

abbrev zeros : List ℕ
zeros = 0 ∷ 0 ∷ 0 ∷ 0 ∷ 0 ∷ 0 ∷ 0 ∷ 0 ∷ 0 ∷ 0 ∷ 0 ∷ 0 ∷ 0 ∷ 0 ∷ []

pub sample-IsSupported : All IsSupported sample_types
unfolding stuff_sack.Types.fields_size stuff_sack.Types.packed_size stuff_sack.C.Generate.is_aliased
sample-IsSupported = (
  tt,
  (
    tt,
    (
      tt,
      (
        tt,
        (
          tt,
          (
            tt,
            (
              tt,
              (
                tt,
                (
                  tt,
                  (
                    tt,
                    (
                      tt,
                      (
                        ((tt, (tt, tt)), omega arith, (refl, (refl, tt))),
                        (
                          tt,
                          (
                            tt,
                            (
                              ((tt, (tt, tt)), omega arith, (refl, (refl, tt))),
                              (
                                (
                                  (tt, ((omega arith, tt), (tt, tt))),
                                  omega arith,
                                  (refl, (refl, (refl, tt))),
                                ),
                                (((tt, (tt, tt)), omega arith, (refl, (refl, tt))), tt),
                              ),
                            ),
                          ),
                        ),
                      ),
                    ),
                  ),
                ),
              ),
            ),
          ),
        ),
      ),
    ),
  ),
)

generated-packs_example :
    (length (encode track track_value) ≡ packed_size track)
    × (call_function
          (load functions [])
          (pack_function_name track)
          track_value
          2
          ((7 ∷ 7 ∷ []) ++ (zeros ++ 9 ∷ []))
        ≡ some ((7 ∷ 7 ∷ []) ++ (encode track track_value ++ 9 ∷ [])))
generated-packs_example =
    generated-packs sample none sample_types (record { all_types = builtins; alias_tag = none })
      functions track track_value (7 ∷ 7 ∷ []) zeros (9 ∷ []) sample-parsed functions-Distinct
      sample-IsSupported sample-functions track-found tt track_value-HasType track-size

-- The bytes are the message's unique id and its size of 14, and then its fields.
encode-track :
    encode track track_value
    ≡ 158 ∷ 208 ∷ 11 ∷ 221 ∷ 0 ∷ 14 ∷ 18 ∷ 52 ∷ 1 ∷ 171 ∷ 205 ∷ 0 ∷ 5 ∷ 165 ∷ []
unfolding stuff_sack.Types.append_field stuff_sack.Types.field_names stuff_sack.Types.root_type
    stuff_sack.Types.all_lengths stuff_sack.Types.bracketed stuff_sack.Types.root_name
    stuff_sack.Types.type_name stuff_sack.Types.packed_size stuff_sack.Types.fields_size
    stuff_sack.Types.uid stuff_sack.Types.field_uids stuff_sack.Types.is_message
    stuff_sack.C.Run.Spec.big_endian stuff_sack.C.Run.Spec.concat_values
    stuff_sack.C.Run.Spec.encode stuff_sack.C.Run.Spec.encode_fields stuff_sack.C.Memory.get_member
    stuff_sack.C.Memory.set_member stuff_sack.C.Memory.get_index stuff_sack.C.Memory.count
    stuff_sack.C.Memory.get_var stuff_sack.C.Memory.index_all stuff_sack.C.Memory.int_value
    stuff_sack.C.Memory.eval_offset stuff_sack.C.Memory.store stuff_sack.C.Memory.convert
    stuff_sack.Hash.Uid.decimal_loop stuff_sack.Hash.Uid.decimal stuff_sack.Hash.Uid.int_text
    stuff_sack.Hash.Uid.utf8 stuff_sack.Hash.Uid.c_string stuff_sack.Hash.Uid.name_bytes
    stuff_sack.Hash.Uid.append_uids stuff_sack.Hash.Uid.named_int_hash
    stuff_sack.Hash.Uid.array_hash stuff_sack.Hash.Uid.struct_field_hash
    stuff_sack.Hash.Uid.named_list_hash stuff_sack.Hash.Crc.crc_round stuff_sack.Hash.Crc.crc_rounds
    stuff_sack.Hash.Crc.crc_table stuff_sack.Hash.Crc.crc_step stuff_sack.Hash.Crc.crc_loop
    stuff_sack.Hash.Crc.get_crc32
encode-track = refl

get_ss_msg_type_from_uid-finds_example :
    ((i : ℕ) (m : SsType)
      → get_elem? (messages sample_types) i ≡ some m
      → get_ss_msg_type_from_uid sample_types (uid m) ≡ i)
    × ((u : ℕ)
        → All (λ m. u ≢ uid m) (messages sample_types)
        → get_ss_msg_type_from_uid sample_types u ≡ length (messages sample_types))
get_ss_msg_type_from_uid-finds_example =
    get_ss_msg_type_from_uid-finds sample none sample_types
      (record { all_types = builtins; alias_tag = none }) sample-parsed

store_bytes-big_endian_example :
    store_bytes 0x12345678 1 (shifts 4) ((9 ∷ []) ++ ((0 ∷ 0 ∷ 0 ∷ 0 ∷ []) ++ 8 ∷ []))
    ≡ some ((9 ∷ []) ++ (big_endian 4 0x12345678 ++ 8 ∷ []))
store_bytes-big_endian_example =
    store_bytes-big_endian 0x12345678 4 (9 ∷ []) (0 ∷ 0 ∷ 0 ∷ 0 ∷ []) (8 ∷ []) refl
