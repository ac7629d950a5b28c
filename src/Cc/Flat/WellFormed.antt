-- ===== src/Cc/Flat/WellFormed.antt =====
-- The flattened types of a well-formed registry are a well-formed registry.
use mathlib.Core.List.{map-append}
use mathlib.Core.Path.{ap₂}
use stuff_sack.Prelude.{
  ℕ, ◌+◌, ◌*◌, ◌≡◌, ◌<◌, refl, ap, ◌∙◌, ◌⊎◌, [], ◌∷◌, some, map, arith, All, inl, inr, Bool-cases,
}
use stuff_sack.Prelude.Text.{Text, same, contains}
use stuff_sack.Types.{
  SsType, primitive, bitfield, enum, struct, message, array, Fields, nil, field, field_names,
  root_name,
}
use stuff_sack.Types.SizeLaws.{IsWord, IsWord-ind}
use stuff_sack.Spec.Build.{Registry, find, names, total_bits}
use stuff_sack.Spec.WellFormed.{
  IsBitfield, IsFieldType, HasFieldTypes, IsFields, IsType, IsRegistry, empty, declare,
}
use stuff_sack.C.Run.Spec.{ShortArrays, ShortFields, AliasesCompile, IsSupported}
use stuff_sack.C.Run.Files.{function_names}
use stuff_sack.Cc.Flat.{
  flat, flat_fields, whole_field, fields_size-flat, root_name-flat, pack_function_name-flat,
}

abbrev pub flat_all : Registry → Registry
flat_all = map flat

pub find-flat :
    (s : Text) (reg : Registry) (t : SsType)
    → find s reg ≡ some t
    → find s (flat_all reg) ≡ some (flat t)
unfolding find
find-flat s [] t h = absurd (ground arith)
find-flat s (u ∷ reg) t h = elim (Bool-cases (same (root_name u) s)) [
  | inl here ↦ let e : u ≡ t = ground arith in rw (root_name-flat u, here, e) refl
  | inr there ↦ rw (root_name-flat u, there) (find-flat s reg t (ground arith))
]

IsFieldType-flat :
    (reg : Registry) (t : SsType) → IsFieldType reg t → IsFieldType (flat_all reg) (flat t)
unfolding flat root_name
IsFieldType-flat reg (array t m) (pos, h) = (pos, IsFieldType-flat reg t h)
IsFieldType-flat reg (primitive n b) h = find-flat n reg (primitive n b) h
IsFieldType-flat reg (bitfield n d fs b) h = find-flat n reg (bitfield n d fs b) h
IsFieldType-flat reg (enum n d vs b) h = find-flat n reg (enum n d vs b) h
IsFieldType-flat reg (struct n d fs) h = find-flat n reg (struct n d fs) h
IsFieldType-flat reg (message n d fs) h = find-flat n reg (message n d fs) h

HasFieldTypes-flat :
    (reg : Registry) (fs : Fields)
    → HasFieldTypes reg fs
    → HasFieldTypes (flat_all reg) (flat_fields fs)
unfolding flat
HasFieldTypes-flat reg nil h = tt
HasFieldTypes-flat reg (field n t d a fs) (h, hs) =
    (IsFieldType-flat reg t h, HasFieldTypes-flat reg fs hs)

ShortArrays-flat : (t : SsType) → ShortArrays t → ShortArrays (flat t)
unfolding flat
ShortArrays-flat (array t m) (lt, h) = (lt, ShortArrays-flat t h)
ShortArrays-flat (primitive n b) h = tt
ShortArrays-flat (bitfield n d fs b) h = tt
ShortArrays-flat (enum n d vs b) h = tt
ShortArrays-flat (struct n d fs) h = tt
ShortArrays-flat (message n d fs) h = tt

ShortFields-flat : (fs : Fields) → ShortFields fs → ShortFields (flat_fields fs)
unfolding flat
ShortFields-flat nil h = tt
ShortFields-flat (field n t d a fs) (h, hs) = (ShortArrays-flat t h, ShortFields-flat fs hs)

AliasesCompile-flat : (fs : Fields) → AliasesCompile fs → AliasesCompile (flat_fields fs)
unfolding flat
AliasesCompile-flat nil h = tt
AliasesCompile-flat (field n t d a fs) (h, hs) =
    (rw (root_name-flat t) h, AliasesCompile-flat fs hs)

IsSupported-flat : (t : SsType) → IsSupported t → IsSupported (flat t)
unfolding flat
IsSupported-flat (array t m) h = tt
IsSupported-flat (primitive n b) h = tt
IsSupported-flat (bitfield n d fs b) h = tt
IsSupported-flat (enum n d vs b) h = tt
IsSupported-flat (struct n d fs) (short, top, known) =
    (ShortFields-flat fs short, omega (arith, fields_size-flat fs), AliasesCompile-flat fs known)
IsSupported-flat (message n d fs) (short, top, known) =
    (ShortFields-flat fs short, omega (arith, fields_size-flat fs), AliasesCompile-flat fs known)

pub flat_all-Supported : (reg : Registry) → All IsSupported reg → All IsSupported (flat_all reg)
flat_all-Supported [] h = tt
flat_all-Supported (t ∷ reg) (h, hs) = (IsSupported-flat t h, flat_all-Supported reg hs)

field_names-flat : (fs : Fields) → field_names (flat_fields fs) ≡ field_names fs
unfolding field_names flat
field_names-flat nil = refl
field_names-flat (field n t d a fs) = ap (λ ns. n ∷ ns) (field_names-flat fs)

IsFields-flat :
    (reg : Registry) (fs : Fields) → IsFields reg fs → IsFields (flat_all reg) (flat_fields fs)
IsFields-flat reg fs h = record {
  distinct = rw (field_names-flat fs) h.distinct;
  types = HasFieldTypes-flat reg fs h.types;
}

whole_field-IsBitfield : (b : ℕ) → IsWord b → IsBitfield (whole_field b) b
unfolding total_bits contains
whole_field-IsBitfield b h = record {
  positive =
      (IsWord-ind (λ b. 0 < b * 8) (omega arith) (omega arith) (omega arith) (omega arith) b h, tt);
  distinct = (refl, tt);
  size = record {
    word = h;
    fits = omega arith;
    least =
        IsWord-ind (λ b. (b ≡ 1) ⊎ (4 * b < b * 8 + 0)) (inl refl) (inr (omega arith))
          (inr (omega arith)) (inr (omega arith)) b h;
  };
}

IsType-flat : (reg : Registry) (t : SsType) → IsType reg t → IsType (flat_all reg) (flat t)
unfolding flat
IsType-flat reg (primitive n b) h = tt
IsType-flat reg (bitfield n d fs b) h = h
IsType-flat reg (enum n d vs b) (h, builtins) = whole_field-IsBitfield b h.size.word
IsType-flat reg (struct n d fs) h = IsFields-flat reg fs h
IsType-flat reg (message n d fs) (h, starts, builtins) = IsFields-flat reg fs h
IsType-flat reg (array t m) h = absurd h

names-flat : (reg : Registry) → names (flat_all reg) ≡ names reg
names-flat [] = refl
names-flat (t ∷ reg) = ap₂ (λ (n : Text) ns. n ∷ ns) (root_name-flat t) (names-flat reg)

pub IsRegistry-flat : (reg : Registry) → IsRegistry reg → IsRegistry (flat_all reg)
IsRegistry-flat reg empty = empty
IsRegistry-flat reg (declare {reg = before} t well fresh valid e) =
    declare (flat t) (IsRegistry-flat before well) (rw (names-flat before, root_name-flat t) fresh)
      (IsType-flat before t valid) (ap flat_all e ∙ map-append flat before (t ∷ []))

pub function_names-flat : (reg : Registry) → function_names (flat_all reg) ≡ function_names reg
function_names-flat [] = refl
function_names-flat (t ∷ reg) =
    ap₂ (λ (n : Text) ns. n ∷ ns) (pack_function_name-flat t) (function_names-flat reg)
