-- ===== src/C/Tests/Asserts.antt =====
-- The static assertions of the sample specification, on a common platform.
use stuff_sack.Prelude.{ℕ, ◌≡◌, refl, true, none, All, arith, if◌then◌else◌}
use stuff_sack.Prelude.Text.{Text, codes, same}
use stuff_sack.Spec.Tests.{sample, sample_types, sample-parsed, builtins}
use stuff_sack.C.Asserts.{static_assert, IsTrue, IsTrueOfSizes, IsSmall, static_assert-IsTrue}

-- The sizes of the types; enums have that of `int`.
unfoldable size_of : Text → ℕ
unfolding same
size_of s =
    if same s (codes "uint8_t")
    then 1
    else if same s (codes "uint16_t")
    then 2
    else if same s (codes "uint32_t")
    then 4
    else if same s (codes "uint64_t")
    then 8
    else if same s (codes "int8_t")
    then 1
    else if same s (codes "int16_t")
    then 2
    else if same s (codes "int32_t")
    then 4
    else if same s (codes "int64_t")
    then 8
    else if same s (codes "bool")
    then 1
    else if same s (codes "float")
    then 4
    else if same s (codes "double")
    then 8
    else if same s (codes "Flags")
    then 2
    else 4

sample-IsSmall : All IsSmall sample_types
sample-IsSmall = (
  tt,
  (
    tt,
    (
      tt,
      (
        tt,
        (tt, (tt, (tt, (tt, (tt, (tt, (tt, (tt, (omega arith, (tt, (tt, (tt, (tt, tt))))))))))))),
      ),
    ),
  ),
)

sample-sizes : All (IsTrueOfSizes size_of) (static_assert sample_types true)
unfolding size_of stuff_sack.Types.append_field stuff_sack.Types.field_names
    stuff_sack.Types.root_type stuff_sack.Types.all_lengths stuff_sack.Types.bracketed
    stuff_sack.Types.root_name stuff_sack.Types.type_name stuff_sack.Types.packed_size
    stuff_sack.Types.fields_size stuff_sack.Types.uid stuff_sack.Types.field_uids
    stuff_sack.Types.is_message stuff_sack.Names.is_upper stuff_sack.Names.is_lower
    stuff_sack.Names.to_lower stuff_sack.Names.to_upper stuff_sack.Names.lstrip
    stuff_sack.Names.snake stuff_sack.Names.camel_to_snake stuff_sack.Names.split
    stuff_sack.Names.capitalise stuff_sack.Names.join stuff_sack.Names.snake_to_camel
    stuff_sack.Names.c_type_name stuff_sack.Names.c_full_type_name stuff_sack.Names.c_field_name
    stuff_sack.Names.pack_function_name stuff_sack.Names.unpack_function_name
    stuff_sack.Names.log_function_name stuff_sack.Names.packed_size_name
    stuff_sack.Names.bitfield_c_type stuff_sack.C.Asserts.alias_asserts
    stuff_sack.C.Asserts.type_asserts stuff_sack.C.Asserts.static_assert
    stuff_sack.Prelude.Text.same stuff_sack.Prelude.Text.contains stuff_sack.C.Generate.is_aliased
sample-sizes = (
  refl,
  (
    refl,
    (
      refl,
      (refl, (refl, (refl, (refl, (refl, (refl, (refl, (refl, (refl, (tt, (refl, tt))))))))))),
    ),
  ),
)

static_assert-IsTrue_example : All (IsTrue size_of) (static_assert sample_types true)
static_assert-IsTrue_example =
    static_assert-IsTrue sample none sample_types
      (record { all_types = builtins; alias_tag = none }) size_of true sample-parsed sample-IsSmall
      sample-sizes
