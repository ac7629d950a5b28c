-- ===== src/C/Tests/RoundTrip.antt =====
-- The packing and unpacking functions of the sample specification, together.
use stuff_sack.Prelude.{
  ℕ, ◌≡◌, ◌≢◌, ◌<◌, Bool, true, Option, none, some, refl, ap, List, [], ◌∷◌, ◌++◌, length, All,
  get_elem?, arith,
}
use stuff_sack.Prelude.Text.{Text, codes, same}
use stuff_sack.Errors.{ok}
use stuff_sack.Types.{SsType, packed_size, uid, root_name, is_message}
use stuff_sack.Types.Uids.{uid-lt}
use stuff_sack.Names.{pack_function_name, unpack_function_name}
use stuff_sack.Spec.Build.{find}
use stuff_sack.Spec.Tests.{sample, sample_types, sample-parsed, builtins, track, beat}
use stuff_sack.C.Memory.{Value, word, items, block, stop, more, Members, last, member, ◌>>=◌}
use stuff_sack.C.Run
use stuff_sack.C.Run.{call_function}
use stuff_sack.C.Run.Spec.{HasType}
use stuff_sack.C.Unpack.{Function}
use stuff_sack.C.Unpack.Run.{success, invalid_uid, program, load}
use stuff_sack.C.Unpack.Spec.{received, header_value}
use stuff_sack.C.Unpack.Functions.{IsUnpackable}
use stuff_sack.C.Unpack.Headers.{with_header}
use stuff_sack.C.Unpack.Exact.{IsListed}
use stuff_sack.C.Unpack.Rejects.{call_unpack}
use stuff_sack.C.Messages.{messages}
use stuff_sack.C.Inspect.{inspect_header, inspect_header-packed}
use stuff_sack.C.RoundTrip.{unpacks-packed, unpacks-packed_same, unpack-other_message}
use stuff_sack.C.Tests.{
  functions_of, is_ok, functions_of-ok, functions, functions-Distinct, sample-functions,
  point_value, track_value, track_value-HasType, track-found, track-size, zeros,
}

unfoldable pub readers : List (Text × Function)
unfolding program
readers = functions_of (program sample_types)

pub sample-readers : program sample_types ≡ ok readers
unfolding readers is_ok stuff_sack.Types.append_field stuff_sack.Types.field_names
    stuff_sack.Types.root_type stuff_sack.Types.all_lengths stuff_sack.Types.bracketed
    stuff_sack.Types.root_name stuff_sack.Types.type_name stuff_sack.Types.packed_size
    stuff_sack.Types.fields_size stuff_sack.Types.uid stuff_sack.Types.field_uids
    stuff_sack.Types.is_message stuff_sack.Names.is_upper stuff_sack.Names.is_lower
    stuff_sack.Names.to_lower stuff_sack.Names.to_upper stuff_sack.Names.lstrip
    stuff_sack.Names.snake stuff_sack.Names.camel_to_snake stuff_sack.Names.split
    stuff_sack.Names.capitalise stuff_sack.Names.join stuff_sack.Names.snake_to_camel
    stuff_sack.Names.c_type_name stuff_sack.Names.c_full_type_name stuff_sack.Names.c_field_name
    stuff_sack.Names.pack_function_name stuff_sack.Names.unpack_function_name
    stuff_sack.Names.log_function_name stuff_sack.Names.packed_size_name
    stuff_sack.Names.bitfield_c_type stuff_sack.C.Generate.shifts_from stuff_sack.C.Generate.shifts
    stuff_sack.C.Generate.array_pack stuff_sack.C.Generate.is_aliased
    stuff_sack.C.Generate.alias_locals stuff_sack.C.Generate.field_pack
    stuff_sack.C.Generate.fields_pack stuff_sack.C.Generate.struct_pack_body
    stuff_sack.C.Generate.primitive_pack stuff_sack.C.Generate.enum_pack stuff_sack.C.Generate.pack
    stuff_sack.C.Unpack.array_unpack stuff_sack.C.Unpack.alias_copies
    stuff_sack.C.Unpack.field_unpack stuff_sack.C.Unpack.fields_unpack
    stuff_sack.C.Unpack.struct_unpack_body stuff_sack.C.Unpack.primitive_unpack
    stuff_sack.C.Unpack.enum_unpack stuff_sack.C.Unpack.header_function
    stuff_sack.C.Unpack.message_unpack stuff_sack.C.Unpack.unpack stuff_sack.Hash.Uid.decimal_loop
    stuff_sack.Hash.Uid.decimal stuff_sack.Hash.Uid.int_text stuff_sack.Hash.Uid.utf8
    stuff_sack.Hash.Uid.c_string stuff_sack.Hash.Uid.name_bytes stuff_sack.Hash.Uid.append_uids
    stuff_sack.Hash.Uid.named_int_hash stuff_sack.Hash.Uid.array_hash
    stuff_sack.Hash.Uid.struct_field_hash stuff_sack.Hash.Uid.named_list_hash
    stuff_sack.Hash.Crc.crc_round stuff_sack.Hash.Crc.crc_rounds stuff_sack.Hash.Crc.crc_table
    stuff_sack.Hash.Crc.crc_step stuff_sack.Hash.Crc.crc_loop stuff_sack.Hash.Crc.get_crc32
    stuff_sack.Prelude.Text.same stuff_sack.Prelude.Text.contains stuff_sack.C.Unpack.Run.program
sample-readers = functions_of-ok (program sample_types) refl

pub sample-IsUnpackable : All IsUnpackable sample_types
unfolding stuff_sack.Types.append_field stuff_sack.Types.field_names stuff_sack.Types.root_type
    stuff_sack.Types.all_lengths stuff_sack.Types.bracketed stuff_sack.Types.root_name
    stuff_sack.Types.type_name stuff_sack.Types.packed_size stuff_sack.Types.fields_size
    stuff_sack.Types.uid stuff_sack.Types.field_uids stuff_sack.Types.is_message
    stuff_sack.Names.is_upper stuff_sack.Names.is_lower stuff_sack.Names.to_lower
    stuff_sack.Names.to_upper stuff_sack.Names.lstrip stuff_sack.Names.snake
    stuff_sack.Names.camel_to_snake stuff_sack.Names.split stuff_sack.Names.capitalise
    stuff_sack.Names.join stuff_sack.Names.snake_to_camel stuff_sack.Names.c_type_name
    stuff_sack.Names.c_full_type_name stuff_sack.Names.c_field_name
    stuff_sack.Names.pack_function_name stuff_sack.Names.unpack_function_name
    stuff_sack.Names.log_function_name stuff_sack.Names.packed_size_name
    stuff_sack.Names.bitfield_c_type stuff_sack.Prelude.Text.same stuff_sack.C.Generate.is_aliased
sample-IsUnpackable = (
  tt,
  (
    tt,
    (
      tt,
      (
        tt,
        (
          tt,
          (
            tt,
            (
              tt,
              (
                tt,
                (
                  tt,
                  (
                    tt,
                    (
                      tt,
                      (
                        ((refl, (refl, tt)), ((tt, (tt, tt)), omega arith, (refl, (refl, tt)))),
                        (
                          tt,
                          (
                            tt,
                            (
                              (
                                (refl, (refl, tt)),
                                ((tt, (tt, tt)), omega arith, (refl, (refl, tt))),
                              ),
                              (
                                (
                                  (refl, (refl, tt)),
                                  omega arith,
                                  (tt, ((omega arith, tt), (tt, tt))),
                                  (refl, (refl, (refl, tt))),
                                ),
                                (((refl, tt), omega arith, (tt, (tt, tt)), (refl, (refl, tt))), tt),
                              ),
                            ),
                          ),
                        ),
                      ),
                    ),
                  ),
                ),
              ),
            ),
          ),
        ),
      ),
    ),
  ),
)

-- An object that holds other values than those that are sent
abbrev before : Value
before = block (
    member (codes "ss_header")
      (block (member (codes "uid") (word 5) (member (codes "len") (word 6) last)))
      (member (codes "points") (items (more (point_value 7 1) (more (point_value 8 0) stop)))
        (member (codes "flags") (word 9) last)))

before-HasType : HasType track before
unfolding stuff_sack.C.Memory.count
before-HasType = (
  refl,
  (refl, omega arith, (refl, omega arith, tt)),
  (
    refl,
    (
      refl,
      (
        (refl, omega arith, (refl, omega arith, tt)),
        ((refl, omega arith, (refl, omega arith, tt)), tt),
      ),
    ),
    (refl, omega arith, tt),
  ),
)

unpacks-packed_example :
    (call_function
        (Run.load functions [])
        (pack_function_name track)
        track_value
        2
        ((7 ∷ 7 ∷ []) ++ (zeros ++ 9 ∷ []))
      >>= λ buf. call_unpack (load readers []) (unpack_function_name track) buf 2 before)
    ≡ some (success, received track track_value)
unpacks-packed_example =
    unpacks-packed sample none sample_types (record { all_types = builtins; alias_tag = none })
      functions readers sample-parsed functions-Distinct sample-IsUnpackable sample-functions
      sample-readers track track_value before (7 ∷ 7 ∷ []) zeros (9 ∷ []) track-found tt
      track_value-HasType before-HasType track-size

beat-found : find (codes "Beat") sample_types ≡ some beat
unfolding find root_name same
beat-found = refl

-- The object that is sent, with its header filled in
abbrev sent : Value
sent = block (
    member (codes "ss_header") (header_value (uid track) (packed_size track)) (
      member (codes "points")
        (items (more (point_value 0x1234 1) (more (point_value 0xABCD 0) stop)))
        (member (codes "flags") (word 0x5A5) last)))

sent-HasType : HasType track sent
unfolding stuff_sack.C.Memory.count packed_size
sent-HasType =
    (refl, (refl, omega (arith, uid-lt track), (refl, omega arith, tt)), track_value-HasType.2)

sent-IsListed : IsListed track sent
sent-IsListed = (refl, refl, (((tt, (omega arith, tt)), ((tt, (omega arith, tt)), tt)), (tt, tt)))

unpacks-packed_same_example :
    (call_function
        (Run.load functions [])
        (pack_function_name track)
        sent
        2
        ((7 ∷ 7 ∷ []) ++ (zeros ++ 9 ∷ []))
      >>= λ buf. call_unpack (load readers []) (unpack_function_name track) buf 2 before)
    ≡ some (success, sent)
unpacks-packed_same_example =
    unpacks-packed_same sample none sample_types (record { all_types = builtins; alias_tag = none })
      functions readers sample-parsed functions-Distinct sample-IsUnpackable sample-functions
      sample-readers track sent before (7 ∷ 7 ∷ []) zeros (9 ∷ []) track-found tt sent-HasType
      before-HasType sent-IsListed track-size

abbrev beat_before : Value
beat_before = block (
    member (codes "ss_header")
      (block (member (codes "uid") (word 5) (member (codes "len") (word 6) last)))
      (member (codes "mode") (word 1) last))

beat_before-HasType : HasType beat beat_before
beat_before-HasType = (refl, (refl, omega arith, (refl, omega arith, tt)), (refl, omega arith, tt))

track-other : track ≢ beat
track-other e = absurd (ground (arith, ap packed_size e))

unpack-other_message_example :
    (header : Value) × (behind : Members) × (beat_before
      ≡ block (member (codes "ss_header") header behind))
    × ((call_function
            (Run.load functions [])
            (pack_function_name track)
            track_value
            2
            ((7 ∷ 7 ∷ []) ++ (zeros ++ 9 ∷ []))
          >>= λ buf. call_unpack (load readers []) (unpack_function_name beat) buf 2 beat_before)
        ≡ some (invalid_uid, block (with_header (uid track) (packed_size track) behind)))
unfolding root_name
unpack-other_message_example =
    unpack-other_message sample none sample_types
      (record { all_types = builtins; alias_tag = none }) functions readers sample-parsed
      functions-Distinct sample-IsUnpackable sample-functions sample-readers (codes "Track")
      (codes "Beat") none none _ _ track_value beat_before (7 ∷ 7 ∷ []) zeros (9 ∷ []) track-found
      beat-found track-other track_value-HasType beat_before-HasType track-size

pub track-place : get_elem? (messages sample_types) 0 ≡ some track
unfolding messages is_message
track-place = refl

inspect_header-packed_example :
    (call_function
        (Run.load functions [])
        (pack_function_name track)
        track_value
        2
        ((7 ∷ 7 ∷ []) ++ (zeros ++ 9 ∷ []))
      >>= λ buf. inspect_header (load readers []) sample_types (header_value 3 4) buf 2)
    ≡ some 0
unfolding root_name
inspect_header-packed_example =
    inspect_header-packed sample none sample_types
      (record { all_types = builtins; alias_tag = none }) functions readers sample-parsed
      functions-Distinct sample-IsUnpackable sample-functions sample-readers (codes "Track") none _
      0 track_value (header_value 3 4) (7 ∷ 7 ∷ []) zeros (9 ∷ []) track-found track-place
      track_value-HasType (refl, omega arith, (refl, omega arith, tt)) track-size
