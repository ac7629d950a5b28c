-- ===== src/Cc/Flat/Bytes.antt =====
-- The bytes of an object are those of the flattened type.
use mathlib.Core.Path.{ap₂}
use stuff_sack.Prelude.{ℕ, ◌*◌, ◌-◌, ◌^◌, ◌≡◌, ◌<◌, refl, ap, sym, List, ◌++◌, arith, length}
use stuff_sack.Types.{SsType, primitive, bitfield, enum, struct, message, array, Fields, nil, field}
use stuff_sack.Types.SizeLaws.{IsWord, IsWord-ind}
use stuff_sack.C.Memory.{
  Value, word, items, block, Values, stop, more, Members, last, member, convert,
}
use stuff_sack.C.Run.Spec.{
  HasType, HasFields, AllValues, encode, encode_fields, concat_values, big_endian,
}
use stuff_sack.C.Unpack.Exact.{HasEnums, HasFieldEnums}
use stuff_sack.Cc.Flat.{flat, flat_fields}

-- An object that the C and the C++ types both hold: enums have values that the specification lists
-- and an `int` reaches, and no member is a message.
abbrev mutual
  pub IsShared : SsType → Value → Type 0
  IsShared (enum n d vs b) (word w) = (w < length vs) × (w < 2 ^ 31)
  IsShared (struct n d fs) (block ms) = AreShared fs ms
  IsShared (message n d fs) v = ⊥
  IsShared (array t n) (items vs) = AllValues (IsShared t) vs
  IsShared _ _ = Unit

  pub AreShared : Fields → Members → Type 0
  AreShared (field n t d a fs) (member m v ms) = IsShared t v × AreShared fs ms
  AreShared _ _ = Unit

enum-flat :
    (b w : ℕ)
    → IsWord b
    → w < 2 ^ 31
    → w < 2 ^ (8 * b - 1)
    → (w < 256 ^ b) × (convert 32 (b * 8) w ≡ w)
unfolding convert
enum-flat b w h =
    IsWord-ind (λ b. w < 2 ^ 31 → w < 2 ^ (8 * b - 1) → (w < 256 ^ b) × (convert 32 (b * 8) w ≡ w))
      (λ lt fits. (omega arith, ground arith)) (λ lt fits. (omega arith, ground arith))
      (λ lt fits. (omega arith, ground arith)) (λ lt fits. (omega arith, ground arith)) b h

-- What is to be shown of an object of a type
abbrev AsFlat : SsType → Value → Type 0
AsFlat t v = HasType (flat t) v × (encode (flat t) v ≡ encode t v)

all-AsFlat :
    (t : SsType)
    → ((v : Value) → HasType t v → IsShared t v → AsFlat t v)
    → (vs : Values) → AllValues (HasType t) vs
    → AllValues (IsShared t) vs
    → AllValues (HasType (flat t)) vs
      × (concat_values (encode (flat t)) vs ≡ concat_values (encode t) vs)
unfolding concat_values
all-AsFlat t each stop fits shared = (tt, refl)
all-AsFlat t each (more v vs) (fit, fits) (is_shared, shared) =
    let (has, bytes) = each v fit is_shared in
    let (rest, more_bytes) = all-AsFlat t each vs fits shared in
    ((has, rest), ap₂ (λ (xs ys : List ℕ). xs ++ ys) bytes more_bytes)

mutual
  unfolding flat encode

  pub value-AsFlat : (t : SsType) (v : Value) → HasEnums t → HasType t v → IsShared t v → AsFlat t v
  value-AsFlat (primitive n b) v enums fits shared = (fits, refl)
  value-AsFlat (bitfield n d fs b) v enums fits shared = (fits, refl)
  value-AsFlat (enum n d vs b) (word w) enums fits (listed, small) =
      let (lt, same) = enum-flat b w enums.size.word small (omega (arith, enums.size.fits)) in
      (lt, ap (big_endian b) (sym same))
  value-AsFlat (enum n d vs b) _ enums fits shared = absurd fits
  value-AsFlat (struct n d fs) (block ms) enums fits shared = members-AsFlat fs ms enums fits shared
  value-AsFlat (struct n d fs) _ enums fits shared = absurd fits
  value-AsFlat (message n d fs) v enums fits shared = absurd shared
  value-AsFlat (array t n) (items vs) enums (len, fits) shared =
      let (has, bytes) = all-AsFlat t (λ v. value-AsFlat t v enums) vs fits shared in
      ((len, has), bytes)
  value-AsFlat (array t n) _ enums fits shared = absurd fits

  pub members-AsFlat :
      (fs : Fields) (ms : Members)
      → HasFieldEnums fs
      → HasFields fs ms
      → AreShared fs ms
      → HasFields (flat_fields fs) ms × (encode_fields (flat_fields fs) ms ≡ encode_fields fs ms)
  members-AsFlat nil last enums fits shared = (tt, refl)
  members-AsFlat nil (member m v ms) enums fits shared = absurd fits
  members-AsFlat (field n t d a fs) last enums fits shared = absurd fits
  members-AsFlat (field n t d a fs) (member m v ms) (enum_here, enums) (named, fit, fits)
        (is_shared, shared) =
      let (has, bytes) = value-AsFlat t v enum_here fit is_shared in
      let (rest, more_bytes) = members-AsFlat fs ms enums fits shared in
      ((named, has, rest), ap₂ (λ (xs ys : List ℕ). xs ++ ys) bytes more_bytes)
