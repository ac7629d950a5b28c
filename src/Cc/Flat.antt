-- ===== src/Cc/Flat.antt =====
-- The C++ functions of a type are the C functions of the type with its enums as bitfields and its
-- messages as structs.
pub mod WellFormed
pub mod Bytes
use mathlib.Core.Path.{ap₂}
use stuff_sack.Prelude.{
  ℕ, ◌+◌, ◌*◌, ◌≡◌, refl, ap, sym, ◌∙◌, List, [], ◌∷◌, ◌++◌, Option, none, some, map, arith,
}
use stuff_sack.Prelude.Text.{Text, codes}
use stuff_sack.Errors
use stuff_sack.Errors.{Result, ok}
use stuff_sack.Types.{
  BitfieldField, SsType, primitive, bitfield, enum, struct, message, array, Fields, nil, field,
  field_names, root_name, all_lengths, bracketed, type_name, root_type, packed_size, fields_size,
}
use stuff_sack.Names.{snake_to_camel, pack_function_name, unpack_function_name, c_field_name}
use stuff_sack.C.Syntax
use stuff_sack.C.Syntax.{Offset, Place}
use stuff_sack.C.Generate.{
  is_aliased, alias_locals, array_pack, field_pack, fields_pack, struct_pack_body, primitive_pack,
  pack,
}
use stuff_sack.C.Run.{program}
use stuff_sack.C.Unpack
use stuff_sack.Cc.{packing_functions, cc_source}

-- A bitfield's field that takes the whole of its bytes
abbrev pub whole_field : ℕ → List BitfieldField
whole_field b = record { name = []; bits = b * 8; description = none } ∷ []

unfoldable mutual
  pub flat : SsType → SsType
  flat (primitive n b) = primitive n b
  flat (bitfield n d fs b) = bitfield n d fs b
  flat (enum n d vs b) = bitfield n d (whole_field b) b
  flat (struct n d fs) = struct n d (flat_fields fs)
  flat (message n d fs) = struct n d (flat_fields fs)
  flat (array t m) = array (flat t) m

  pub flat_fields : Fields → Fields
  flat_fields nil = nil
  flat_fields (field n t d a fs) = field n (flat t) d a (flat_fields fs)

pub root_name-flat : (t : SsType) → root_name (flat t) ≡ root_name t
unfolding root_name flat
root_name-flat (array t m) = root_name-flat t
root_name-flat (primitive n b) = refl
root_name-flat (bitfield n d fs b) = refl
root_name-flat (enum n d vs b) = refl
root_name-flat (struct n d fs) = refl
root_name-flat (message n d fs) = refl

all_lengths-flat : (t : SsType) → all_lengths (flat t) ≡ all_lengths t
unfolding all_lengths flat
all_lengths-flat (array t m) = ap (λ ns. m ∷ ns) (all_lengths-flat t)
all_lengths-flat (primitive n b) = refl
all_lengths-flat (bitfield n d fs b) = refl
all_lengths-flat (enum n d vs b) = refl
all_lengths-flat (struct n d fs) = refl
all_lengths-flat (message n d fs) = refl

type_name-flat : (t : SsType) → type_name (flat t) ≡ type_name t
unfolding type_name
type_name-flat t = ap₂ (λ n ns. n ++ bracketed ns) (root_name-flat t) (all_lengths-flat t)

unfoldable mutual
  unfolding packed_size flat

  pub packed_size-flat : (t : SsType) → packed_size (flat t) ≡ packed_size t
  packed_size-flat (array t m) = ap (λ k. k * m) (packed_size-flat t)
  packed_size-flat (primitive n b) = refl
  packed_size-flat (bitfield n d fs b) = refl
  packed_size-flat (enum n d vs b) = refl
  packed_size-flat (struct n d fs) = fields_size-flat fs
  packed_size-flat (message n d fs) = fields_size-flat fs

  fields_size-flat : (fs : Fields) → fields_size (flat_fields fs) ≡ fields_size fs
  fields_size-flat nil = refl
  fields_size-flat (field n t d a fs) =
      ap₂ (λ (a b : ℕ). a + b) (packed_size-flat t) (fields_size-flat fs)

pub pack_function_name-flat : (t : SsType) → pack_function_name (flat t) ≡ pack_function_name t
unfolding pack_function_name
pack_function_name-flat t = ap (λ n. codes "SsPack" ++ snake_to_camel n) (type_name-flat t)

array_pack-flat :
    (p : Place) (t : SsType) (n : ℕ) (off : Offset) (i : ℕ)
    → array_pack p (flat t) n off i ≡ array_pack p t n off i
unfolding array_pack flat root_type packed_size pack_function_name type_name root_name all_lengths
array_pack-flat p (array t m) n off i =
    rw
      (
        packed_size-flat t,
        array_pack-flat (record p { indices = p.indices ++ i ∷ [] }) t m
            (Syntax.scaled i (packed_size t * m) off) (i + 1),
      )
      refl
array_pack-flat p (primitive s b) n off i = refl
array_pack-flat p (bitfield s d fs b) n off i = refl
array_pack-flat p (enum s d vs b) n off i = refl
array_pack-flat p (struct s d fs) n off i = rw (fields_size-flat fs) refl
array_pack-flat p (message s d fs) n off i = rw (fields_size-flat fs) refl

field_pack-flat :
    (n : Text) (t : SsType) (a : Option Text) (off : ℕ)
    → field_pack n (flat t) a off ≡ field_pack n t a off
unfolding field_pack flat pack_function_name type_name root_name all_lengths
field_pack-flat n (array t m) a off =
    array_pack-flat (record { local = is_aliased a; name = n; indices = [] }) t m (Syntax.at off)
      b'i'
field_pack-flat n (primitive s b) a off = refl
field_pack-flat n (bitfield s d fs b) a off = refl
field_pack-flat n (enum s d vs b) a off = refl
field_pack-flat n (struct s d fs) a off = refl
field_pack-flat n (message s d fs) a off = refl

fields_pack-flat : (fs : Fields) (off : ℕ) → fields_pack (flat_fields fs) off ≡ fields_pack fs off
unfolding fields_pack flat
fields_pack-flat nil off = refl
fields_pack-flat (field n t d a fs) off =
    rw (field_pack-flat n t a off, packed_size-flat t, fields_pack-flat fs (off + packed_size t))
      refl

alias_locals-flat : (fs : Fields) → alias_locals (flat_fields fs) ≡ alias_locals fs
unfolding alias_locals flat c_field_name
alias_locals-flat nil = refl
alias_locals-flat (field n t d a fs) =
    rw (root_name-flat t, all_lengths-flat t, alias_locals-flat fs) refl

struct_pack_body-flat : (fs : Fields) → struct_pack_body (flat_fields fs) ≡ struct_pack_body fs
unfolding struct_pack_body
struct_pack_body-flat fs = rw (fields_pack-flat fs 0, alias_locals-flat fs) refl

pack-flat :
    (t : SsType) (f : Syntax.Function) (g : Unpack.Function)
    → packing_functions t ≡ ok (f, g)
    → pack (flat t) ≡ ok f
unfolding packing_functions pack flat
pack-flat (primitive n b) f g h = cc
pack-flat (bitfield n d fs b) f g h = cc
pack-flat (enum n d vs b) f g h = cc
pack-flat (struct n d fs) f g h =
    let (packs, made, h₁) = Errors.>>=-eq-ok (struct_pack_body fs) _ h in
    let (unpacks, made', h₂) = Errors.>>=-eq-ok (Unpack.struct_unpack_body fs) _ h₁ in
    rw (struct_pack_body-flat fs, made) cc
pack-flat (message n d fs) f g h =
    let (packs, made, h₁) = Errors.>>=-eq-ok (struct_pack_body fs) _ h in
    let (unpacks, made', h₂) = Errors.>>=-eq-ok (Unpack.struct_unpack_body fs) _ h₁ in
    rw (struct_pack_body-flat fs, made) cc
pack-flat (array t m) f g h = absurd (ground arith)

-- The packing functions of the C++ file are those of a C file for the flattened types.
pub program-flat :
    (ts : List SsType) (ps : List (Text × Syntax.Function)) (us : List (Text × Unpack.Function))
    → cc_source ts ≡ ok (ps, us)
    → program (map flat ts) ≡ ok ps
unfolding cc_source program
program-flat [] ps us h = cc
program-flat (t ∷ ts) ps us h =
    let (fs, made, h₁) = Errors.>>=-eq-ok (packing_functions t) _ h in
    let (rest, looped, h₂) = Errors.>>=-eq-ok (cc_source ts) _ h₁ in
    rw (pack-flat t fs.0 fs.1 made, program-flat ts rest.0 rest.1 looped, pack_function_name-flat t)
      cc
