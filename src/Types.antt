-- ===== src/Types.antt =====
-- The message types of src/stuff_sack.py: the classes under `DataType`, and `Array`.
-- An object is a value; a field holds the type object that it refers to, which the source never
-- changes once it is complete.
pub mod Sizes
pub mod SizeLaws
pub mod Uids
mod Tests
use stuff_sack.Prelude.{ℕ, ◌+◌, ◌*◌, Bool, true, false, List, [], ◌∷◌, ◌++◌, map, Option}
use stuff_sack.Prelude.Text.{Text}
use stuff_sack.Hash.Uid.{
  decimal, primitive_hash, array_hash, bitfield_field_hash, bitfield_hash, enum_value_hash,
  enum_hash, struct_field_hash, struct_hash,
}

-- `BitfieldField`
pub record BitfieldField : Type 0 where
  pub name : Text
  pub bits : ℕ
  pub description : Option Text

-- `EnumValue`, once `Enum.add_value` has numbered it
pub record EnumValue : Type 0 where
  pub name : Text
  pub description : Option Text
  pub value : ℕ

-- A constructor for each class, with its attributes; `Fields` is a list of `StructField`s, each a
-- name, a type, a description and an alias.
mutual
  pub data SsType : Type 0 where
    primitive : Text → ℕ → SsType
    bitfield : Text → Option Text → List BitfieldField → ℕ → SsType
    enum : Text → Option Text → List EnumValue → ℕ → SsType
    struct : Text → Option Text → Fields → SsType
    message : Text → Option Text → Fields → SsType
    array : SsType → ℕ → SsType

  pub data Fields : Type 0 where
    nil : Fields
    field : Text → SsType → Option Text → Option Text → Fields → Fields

-- `self.fields.append(field)`
unfoldable pub append_field : Fields → Text → SsType → Option Text → Option Text → Fields
append_field nil n t d a = field n t d a nil
append_field (field m u e b fs) n t d a = field m u e b (append_field fs n t d a)

-- `[x.name for x in self.fields]`
unfoldable pub field_names : Fields → List Text
field_names nil = []
field_names (field n t d a fs) = n ∷ field_names fs

-- `root_type`
unfoldable pub root_type : SsType → SsType
root_type (array t n) = root_type t
root_type t = t

-- `all_lengths`: the outermost dimension first
unfoldable pub all_lengths : SsType → List ℕ
all_lengths (array t n) = n ∷ all_lengths t
all_lengths _ = []

unfoldable pub bracketed : List ℕ → Text
unfolding decimal
bracketed [] = []
bracketed (n ∷ ns) = b'[' ∷ decimal n ++ b']' ∷ bracketed ns

-- The `name` of a type; of an array, that of its root type and the lengths.
unfoldable pub root_name : SsType → Text
root_name (primitive n b) = n
root_name (bitfield n d fs b) = n
root_name (enum n d vs b) = n
root_name (struct n d fs) = n
root_name (message n d fs) = n
root_name (array t n) = root_name t

unfoldable pub type_name : SsType → Text
unfolding root_name bracketed all_lengths
type_name t = root_name t ++ bracketed (all_lengths t)

-- `packed_size`
unfoldable mutual
  pub packed_size : SsType → ℕ
  packed_size (primitive n b) = b
  packed_size (bitfield n d fs b) = b
  packed_size (enum n d vs b) = b
  packed_size (struct n d fs) = fields_size fs
  packed_size (message n d fs) = fields_size fs
  packed_size (array t n) = packed_size t * n

  pub fields_size : Fields → ℕ
  fields_size nil = 0
  fields_size (field n t d a fs) = packed_size t + fields_size fs

-- `uid`
unfoldable mutual
  pub uid : SsType → ℕ
  uid (primitive n b) = primitive_hash n b
  uid (bitfield n d fs b) = bitfield_hash n (map (λ f. bitfield_field_hash f.name f.bits) fs)
  uid (enum n d vs b) = enum_hash n (map (λ v. enum_value_hash v.name v.value) vs)
  uid (struct n d fs) = struct_hash n (field_uids fs)
  uid (message n d fs) = struct_hash n (field_uids fs)
  uid (array t n) = array_hash (uid t) n

  pub field_uids : Fields → List ℕ
  field_uids nil = []
  field_uids (field n t d a fs) = struct_field_hash n (uid t) ∷ field_uids fs

-- `isinstance(t, Message)`
unfoldable pub is_message : SsType → Bool
is_message (message n d fs) = true
is_message _ = false
