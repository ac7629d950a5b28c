-- ===== src/Spec/WellFormed.antt =====
-- What a registry built by src/stuff_sack.py satisfies.
pub mod Lookup
pub mod Loops
pub mod Types
pub mod Declared
use stuff_sack.Prelude.{ℕ, suc, ◌+◌, ◌<◌, ◌≡◌, false, List, [], ◌∷◌, ◌++◌, none, some, length, All}
use stuff_sack.Prelude.Text.{Text, codes, contains, Distinct}
use stuff_sack.Types.{
  BitfieldField, EnumValue, SsType, primitive, bitfield, enum, struct, message, array, Fields, nil,
  field, field_names, root_name,
}
use stuff_sack.Types.SizeLaws.{IsLeastSize, IsLeastSigned}
use stuff_sack.Spec.Build.{Registry, names, find, total_bits, bit_names, value_names}

-- The fields take at least a bit each, their names differ, and the bitfield has the least size
-- that holds their bits.
pub record IsBitfield (fields : List BitfieldField) (bytes : ℕ) : Type 0 where
  pub positive : All (λ f. 0 < f.bits) fields
  pub distinct : Distinct (bit_names fields)
  pub size : IsLeastSize (total_bits fields) bytes

-- The values are numbered from `n` in order.
abbrev pub Numbered : ℕ → List EnumValue → Type 0
Numbered n [] = Unit
Numbered n (v ∷ vs) = (v.value ≡ n) × Numbered (suc n) vs

-- The values are numbered from 0, their names differ, and the enum has the least size whose signed
-- integers reach the number of values.
pub record IsEnum (values : List EnumValue) (bytes : ℕ) : Type 0 where
  pub numbered : Numbered 0 values
  pub distinct : Distinct (value_names values)
  pub size : IsLeastSigned (length values) bytes

-- A type of `reg`, or an array of positive lengths of such.
abbrev pub IsFieldType : Registry → SsType → Type 0
IsFieldType reg (array t n) = (0 < n) × IsFieldType reg t
IsFieldType reg t = find (root_name t) reg ≡ some t

abbrev pub HasFieldTypes : Registry → Fields → Type 0
HasFieldTypes reg nil = Unit
HasFieldTypes reg (field n t d a fs) = IsFieldType reg t × HasFieldTypes reg fs

-- The field names differ, and every field has a type of `reg`.
pub record IsFields (reg : Registry) (fields : Fields) : Type 0 where
  pub distinct : Distinct (field_names fields)
  pub types : HasFieldTypes reg fields

-- The first field is the header.
abbrev pub StartsWithHeader : Registry → Fields → Type 0
StartsWithHeader reg nil = ⊥
StartsWithHeader reg (field n t d a fs) =
    (n ≡ codes "ss_header") × (find (codes "SsHeader") reg ≡ some t) × (a ≡ none)

-- The struct that `reset_types` builds for the header of a message
abbrev pub header_type : SsType
header_type = struct (codes "SsHeader") (some (codes "Message header.")) (
    field (codes "uid") (primitive (codes "uint32") 4) (some (codes "Message unique id.")) none (
      field (codes "len") (primitive (codes "uint16") 2) (some (codes "Message length.")) none nil))

-- The builtin types that generated functions of enums and messages call
pub record Builtins (reg : Registry) : Type 0 where
  pub int8 : find (codes "int8") reg ≡ some (primitive (codes "int8") 1)
  pub int16 : find (codes "int16") reg ≡ some (primitive (codes "int16") 2)
  pub int32 : find (codes "int32") reg ≡ some (primitive (codes "int32") 4)
  pub int64 : find (codes "int64") reg ≡ some (primitive (codes "int64") 8)
  pub header : find (codes "SsHeader") reg ≡ some header_type

-- A type whose fields' types stand in `reg`, and so do the builtin types that it rests on.
abbrev pub IsType : Registry → SsType → Type 0
IsType reg (primitive n b) = Unit
IsType reg (bitfield n d fs b) = IsBitfield fs b
IsType reg (enum n d vs b) = IsEnum vs b × Builtins reg
IsType reg (struct n d fs) = IsFields reg fs
IsType reg (message n d fs) = IsFields reg fs × StartsWithHeader reg fs × Builtins reg
IsType reg (array t n) = ⊥

-- Each type is well formed over the types before it, and its name is new.
pub data IsRegistry : Registry → Type 0 where
  empty : IsRegistry []
  declare :
      {reg : Registry} {reg' : Registry} (t : SsType)
      → IsRegistry reg
      → contains (names reg) (root_name t) ≡ false
      → IsType reg t
      → reg' ≡ reg ++ t ∷ []
      → IsRegistry reg'
