-- ===== src/Errors.antt =====
-- The exceptions that the generator raises, as values, and `do` blocks over them.
-- `SpecParseError` is src/stuff_sack.py's class; a constructor of `Complaint` stands for each place
-- that raises it, with the names its message is made of.
use stuff_sack.Prelude.{◌≡◌, refl, Bool, true, false}
use stuff_sack.Prelude.Text.{Text}

pub data Complaint : Type 0 where
  not_a_map not_a_list key_not_string many_fields bad_description bad_alias unknown_field :
      Complaint
  unknown_metadata : Text → Complaint
  missing_field : Text → Complaint
  name_not_string description_not_string unrecognized_type : Complaint
  duplicate_type : Text → Complaint
  unknown_type : Text → Complaint
  bad_array array_length bits_not_int bits_not_positive : Complaint
  bit_limit : Text → Text → Complaint
  duplicate_field : Text → Text → Complaint
  duplicate_value : Text → Text → Complaint
  value_not_null bad_field_type alias_not_string : Complaint
  recursive_use : Text → Text → Complaint

pub data Error : Type 0 where
  spec_parse_error : Complaint → Error
  value_error key_error attribute_error type_error : Error
  assertion_error : Text → Text → Error

-- What a Python function returns or raises
pub data Result {ℓ} (V : Type ℓ) : Type ℓ where
  err : Error → Result V
  ok : V → Result V

-- `if not b: raise e`.
abbrev pub guard : Bool → Error → Result (Unit {0})
guard b e = elim b [ false ↦ err e | true ↦ ok tt ]

-- `raise SpecParseError(...)` unless the test holds.
abbrev pub require : Bool → Complaint → Result (Unit {0})
require b c = guard b (spec_parse_error c)

module _ {ℓ κ} {V : Type ℓ} {W : Type κ} where
  infixl 5 ◌>>=◌
  abbrev pub ◌>>=◌ : Result V → (V → Result W) → Result W
  err e >>= next = err e
  ok v >>= next = next v

  pub >>=-eq-ok :
      (first : Result V) (next : V → Result W) {w : W}
      → (first >>= next) ≡ ok w
      → (v : V) × (first ≡ ok v) × (next v ≡ ok w)
  >>=-eq-ok (err e) next h = cc
  >>=-eq-ok (ok v) next h = (v, refl, h)

module _ {ℓ} {W : Type ℓ} where
  infixl 5 ◌>>◌
  abbrev pub ◌>>◌ : Result (Unit {0}) → Result W → Result W
  first >> next = first >>= λ _. next

  pub guard-eq-ok :
      (b : Bool) (e : Error) (next : Result W) {w : W}
      → (guard b e >> next) ≡ ok w
      → (b ≡ true) × (next ≡ ok w)
  guard-eq-ok false e next h = cc
  guard-eq-ok true e next h = (refl, h)
