-- ===== src/C/Unpack/Exact.antt =====
-- Objects that come back from unpacking as they were packed.
use mathlib.Core.Path.{subst, ap₂}
use stuff_sack.Prelude.{
  ℕ, ◌*◌, ◌^◌, ◌-◌, ◌≡◌, ◌<◌, refl, ap, sym, [], ◌∷◌, arith, length, All, All-append,
}
use stuff_sack.Prelude.Text.{codes}
use stuff_sack.Types.{
  SsType, primitive, bitfield, enum, struct, message, array, Fields, nil, field, packed_size, uid,
  root_name,
}
use stuff_sack.Types.SizeLaws.{IsWord, IsWord-ind}
use stuff_sack.Spec.Build.{Registry}
use stuff_sack.Spec.WellFormed.{
  IsFieldType, HasFieldTypes, IsRegistry, IsType, IsEnum, empty, declare,
}
use stuff_sack.Spec.WellFormed.Types.{find-All}
use stuff_sack.C.Memory.{
  Value, word, items, block, Values, stop, more, Members, last, member, convert,
}
use stuff_sack.C.Run.Spec.{HasType, HasFields, AllValues}
use stuff_sack.C.Unpack.Spec.{received, received_fields, map_values, header_value}

-- The enums in the type are well formed.
abbrev mutual
  pub HasEnums : SsType → Type 0
  HasEnums (enum n d vs b) = IsEnum vs b
  HasEnums (struct n d fs) = HasFieldEnums fs
  HasEnums (message n d fs) = HasFieldEnums fs
  HasEnums (array t n) = HasEnums t
  HasEnums _ = Unit

  pub HasFieldEnums : Fields → Type 0
  HasFieldEnums nil = Unit
  HasFieldEnums (field n t d a fs) = HasEnums t × HasFieldEnums fs

-- An object whose enums have values that the specification lists, and whose messages have the
-- header that they are sent with.
abbrev mutual
  pub IsListed : SsType → Value → Type 0
  IsListed (enum n d vs b) (word w) = w < length vs
  IsListed (struct n d fs) (block ms) = AreListed fs ms
  IsListed (message n d (field h t e a fs)) (block (member m v ms)) =
      (m ≡ codes "ss_header")
      × (v
          ≡ header_value (uid (message n d (field h t e a fs)))
              (packed_size (message n d (field h t e a fs))))
      × AreListed fs ms
  IsListed (array t n) (items vs) = AllValues (IsListed t) vs
  IsListed _ _ = Unit

  pub AreListed : Fields → Members → Type 0
  AreListed (field n t d a fs) (member m v ms) = IsListed t v × AreListed fs ms
  AreListed _ _ = Unit

-- A number that the enum's signed integers reach survives the two conversions.
convert-back :
    (b w : ℕ)
    → IsWord b
    → w < 2 ^ 32
    → w < 2 ^ (8 * b - 1)
    → convert (b * 8) 32 (convert 32 (b * 8) w) ≡ w
unfolding convert
convert-back b w h =
    IsWord-ind
      (λ b. w < 2 ^ 32 → w < 2 ^ (8 * b - 1) → convert (b * 8) 32 (convert 32 (b * 8) w) ≡ w)
      (λ lt fits. ground arith) (λ lt fits. ground arith) (λ lt fits. ground arith)
      (λ lt fits. ground arith) b h

received-values :
    (t : SsType)
    → ((v : Value) → HasType t v → IsListed t v → received t v ≡ v)
    → (vs : Values) → AllValues (HasType t) vs
    → AllValues (IsListed t) vs
    → map_values (received t) vs ≡ vs
unfolding map_values
received-values t same stop fits listed = refl
received-values t same (more v vs) (fit, fits) (listed, all_listed) =
    ap₂ more (same v fit listed) (received-values t same vs fits all_listed)

mutual
  unfolding received received_fields

  pub received-IsListed :
      (t : SsType) (v : Value) → HasEnums t → HasType t v → IsListed t v → received t v ≡ v
  received-IsListed (enum n d vs b) (word w) enums fits listed =
      ap word (convert-back b w enums.size.word fits (omega (arith, enums.size.fits)))
  received-IsListed (enum n d vs b) _ enums fits listed = absurd fits
  received-IsListed (struct n d fs) (block ms) enums fits listed =
      ap block (received_fields-AreListed fs ms enums fits listed)
  received-IsListed (struct n d fs) _ enums fits listed = absurd fits
  received-IsListed (message n d (field h t e a fs)) (block (member m v ms)) (enum_here, enums)
        (named, fit, fits) (is_header, is_sent, listed) =
      rw (← is_header, ← is_sent)
        (ap (λ ms. block (member m v ms)) (received_fields-AreListed fs ms enums fits listed))
  received-IsListed (message n d (field h t e a fs)) _ enums fits listed = absurd (ground arith)
  received-IsListed (message n d nil) v enums fits listed = refl
  received-IsListed (array t n) (items vs) enums (len, fits) listed =
      ap items (received-values t (λ v. received-IsListed t v enums) vs fits listed)
  received-IsListed (array t n) _ enums fits listed = absurd fits
  received-IsListed (primitive n b) v enums fits listed = refl
  received-IsListed (bitfield n d fs b) v enums fits listed = refl

  received_fields-AreListed :
      (fs : Fields) (ms : Members)
      → HasFieldEnums fs
      → HasFields fs ms
      → AreListed fs ms
      → received_fields fs ms ≡ ms
  received_fields-AreListed (field n t d a fs) (member m v ms) (enum_here, enums) (named, fit, fits)
        (is_listed, listed) =
      rw (← named, received-IsListed t v enum_here fit is_listed)
        (ap (member m v) (received_fields-AreListed fs ms enums fits listed))
  received_fields-AreListed (field n t d a fs) last enums fits listed = refl
  received_fields-AreListed nil ms enums fits listed = refl

field_type-HasEnums :
    (reg : Registry) (t : SsType) → All HasEnums reg → IsFieldType reg t → HasEnums t
unfolding root_name
field_type-HasEnums reg (array t n) all (pos, typed) = field_type-HasEnums reg t all typed
field_type-HasEnums reg _ all typed = find-All HasEnums _ reg _ all typed

HasFieldTypes-HasFieldEnums :
    (reg : Registry) (fs : Fields) → All HasEnums reg → HasFieldTypes reg fs → HasFieldEnums fs
HasFieldTypes-HasFieldEnums reg nil all typed = tt
HasFieldTypes-HasFieldEnums reg (field n t d a fs) all (t_typed, typed) =
    (field_type-HasEnums reg t all t_typed, HasFieldTypes-HasFieldEnums reg fs all typed)

IsType-HasEnums : (reg : Registry) (t : SsType) → All HasEnums reg → IsType reg t → HasEnums t
IsType-HasEnums reg (primitive n b) all valid = tt
IsType-HasEnums reg (bitfield n d fs b) all valid = tt
IsType-HasEnums reg (enum n d vs b) all (valid, builtins) = valid
IsType-HasEnums reg (struct n d fs) all valid = HasFieldTypes-HasFieldEnums reg fs all valid.types
IsType-HasEnums reg (message n d fs) all (valid, starts, builtins) =
    HasFieldTypes-HasFieldEnums reg fs all valid.types
IsType-HasEnums reg (array t n) all valid = absurd valid

-- Every enum in a type of a registry is well formed.
pub IsRegistry-HasEnums : (reg : Registry) → IsRegistry reg → All HasEnums reg
IsRegistry-HasEnums reg empty = tt
IsRegistry-HasEnums reg (declare {reg = before} t well fresh valid e) =
    let all = IsRegistry-HasEnums before well in
    subst (All HasEnums) (sym e)
      (All-append HasEnums before (t ∷ []) all (IsType-HasEnums before t all valid, tt))
