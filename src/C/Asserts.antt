-- ===== src/C/Asserts.antt =====
-- The static assertions that src/c_stuff_sack.py writes into the C file.
use stuff_sack.Prelude.{
  ℕ, ◌*◌, ◌/◌, ◌-◌, ◌^◌, ◌≡◌, ◌<◌, ◌≤◌, ◌⊎◌, Bool, true, false, List, [], ◌∷◌, ◌++◌, Option, none,
  some, length, All, All-append, arith, if◌then◌else◌,
}
use stuff_sack.Prelude.Text.{Text, codes}
use stuff_sack.Errors.{ok}
use stuff_sack.Yaml.{Yaml}
use stuff_sack.Types.{SsType, primitive, bitfield, enum, struct, message, array, Fields, nil, field}
use stuff_sack.Types.SizeLaws.{IsWord-ind, IsLeastSigned}
use stuff_sack.Names.{c_type_name, c_full_type_name}
use stuff_sack.Spec.Parse.{ClassState, parse_yaml}
use stuff_sack.Spec.Parsed.{parse_yaml-IsParsed}
use stuff_sack.C.Generate.{is_aliased}
use stuff_sack.C.Unpack.Exact.{HasEnums, IsRegistry-HasEnums}

-- `sizeof(<type>) == <bytes>`, `sizeof(<enum>) == sizeof(int)`, `kNum<enum> < 256 * ... / 2`
-- with a factor for each byte, and `sizeof(<alias>) == sizeof(<type>)`
pub data Assertion : Type 0 where
  size_is : Text → ℕ → Assertion
  size_of_int : Text → Assertion
  values_below : ℕ → ℕ → Assertion
  same_size : Text → Text → Assertion

unfoldable pub alias_asserts : Fields → List Assertion
unfolding c_full_type_name is_aliased
alias_asserts nil = []
alias_asserts (field n t d none fs) = alias_asserts fs
alias_asserts (field n t d (some alias) fs) =
    let rest = alias_asserts fs in
    if is_aliased (some alias) then same_size alias (c_full_type_name t) ∷ rest else rest

-- A round of the loop of `static_assert`
unfoldable pub type_asserts : Bool → SsType → List Assertion
unfolding c_type_name alias_asserts
type_asserts include_enums (primitive n b) = size_is (c_type_name (primitive n b)) b ∷ []
type_asserts include_enums (bitfield n d fs b) = size_is (c_type_name (bitfield n d fs b)) b ∷ []
type_asserts true (enum n d vs b) = size_of_int n ∷ values_below (length vs) b ∷ []
type_asserts false (enum n d vs b) = []
type_asserts include_enums (struct n d fs) = alias_asserts fs
type_asserts include_enums (message n d fs) = alias_asserts fs
type_asserts include_enums (array t n) = []

-- `static_assert`
unfoldable pub static_assert : List SsType → Bool → List Assertion
unfolding type_asserts
static_assert [] include_enums = []
static_assert (t ∷ ts) include_enums =
    type_asserts include_enums t ++ static_assert ts include_enums

-- What the compiler finds of an assertion, with the sizes of the types. The product is one of `int`s of
-- 32 bits, which must not overflow.
abbrev pub IsTrue : (Text → ℕ) → Assertion → Type 0
IsTrue size_of (size_is s n) = size_of s ≡ n
IsTrue size_of (size_of_int s) = size_of s ≡ size_of (codes "int")
IsTrue size_of (values_below n bytes) = (256 ^ bytes < 2 ^ 31) × (n < 256 ^ bytes / 2)
IsTrue size_of (same_size s t) = size_of s ≡ size_of t

-- The assertions that are left to the platform: all but those on the number of an enum's values
abbrev pub IsTrueOfSizes : (Text → ℕ) → Assertion → Type 0
IsTrueOfSizes size_of (values_below n bytes) = Unit
IsTrueOfSizes size_of a = IsTrue size_of a

-- An enum has fewer than 32768 values.
abbrev pub IsSmall : SsType → Type 0
IsSmall (enum n d vs b) = length vs < 2 ^ 15
IsSmall _ = Unit

values-fit : (n b : ℕ) → IsLeastSigned n b → n < 2 ^ 15 → (256 ^ b < 2 ^ 31) × (n < 256 ^ b / 2)
values-fit n b h small =
    IsWord-ind
      (λ b.
        n < 2 ^ (8 * b - 1)
        → (b ≡ 1) ⊎ (2 ^ (4 * b - 1) ≤ n)
        → (256 ^ b < 2 ^ 31) × (n < 256 ^ b / 2))
      (λ lt least. (omega arith, omega arith)) (λ lt least. (omega arith, omega arith))
      (λ lt least. absurd (ground arith)) (λ lt least. absurd (ground arith)) b h.word h.fits
      h.least

alias_asserts-IsTrue :
    (size_of : Text → ℕ) (fs : Fields)
    → All (IsTrueOfSizes size_of) (alias_asserts fs)
    → All (IsTrue size_of) (alias_asserts fs)
unfolding alias_asserts is_aliased
alias_asserts-IsTrue size_of nil h = tt
alias_asserts-IsTrue size_of (field n t d none fs) h = alias_asserts-IsTrue size_of fs h
alias_asserts-IsTrue size_of (field n t d (some []) fs) h = alias_asserts-IsTrue size_of fs h
alias_asserts-IsTrue size_of (field n t d (some (c ∷ s)) fs) (here, h) =
    (here, alias_asserts-IsTrue size_of fs h)

type_asserts-IsTrue :
    (size_of : Text → ℕ) (include_enums : Bool) (t : SsType)
    → HasEnums t
    → IsSmall t
    → All (IsTrueOfSizes size_of) (type_asserts include_enums t)
    → All (IsTrue size_of) (type_asserts include_enums t)
unfolding type_asserts
type_asserts-IsTrue size_of include_enums (primitive n b) enums small h = h
type_asserts-IsTrue size_of include_enums (bitfield n d fs b) enums small h = h
type_asserts-IsTrue size_of true (enum n d vs b) enums small (int_size, h) =
    (int_size, (values-fit (length vs) b enums.size small, tt))
type_asserts-IsTrue size_of false (enum n d vs b) enums small h = tt
type_asserts-IsTrue size_of include_enums (struct n d fs) enums small h =
    alias_asserts-IsTrue size_of fs h
type_asserts-IsTrue size_of include_enums (message n d fs) enums small h =
    alias_asserts-IsTrue size_of fs h
type_asserts-IsTrue size_of include_enums (array t n) enums small h = tt

append-All :
    (P : Assertion → Type 0) (xs ys : List Assertion) → All P (xs ++ ys) → All P xs × All P ys
append-All P [] ys h = (tt, h)
append-All P (x ∷ xs) ys (h, hs) = let (front, back) = append-All P xs ys hs in ((h, front), back)

static_assert-All :
    (size_of : Text → ℕ) (include_enums : Bool) (ts : List SsType)
    → All HasEnums ts
    → All IsSmall ts
    → All (IsTrueOfSizes size_of) (static_assert ts include_enums)
    → All (IsTrue size_of) (static_assert ts include_enums)
unfolding static_assert
static_assert-All size_of include_enums [] enums small h = tt
static_assert-All size_of include_enums (t ∷ ts) (enum_here, enums) (small_here, small) h =
    let (here, rest) =
      append-All (IsTrueOfSizes size_of) (type_asserts include_enums t)
        (static_assert ts include_enums) h in
    All-append (IsTrue size_of) (type_asserts include_enums t) (static_assert ts include_enums)
      (type_asserts-IsTrue size_of include_enums t enum_here small_here here)
      (static_assert-All size_of include_enums ts enums small rest)

-- When a specification is parsed and each of its enums has fewer than 32768 values, no static
-- assertion on the number of an enum's values fails: all assertions are true when those on the sizes
-- of the platform's types are.
pub static_assert-IsTrue :
    (yaml : Yaml) (tag : Option Text) (types : List SsType) (state' : ClassState)
    (size_of : Text → ℕ) (include_enums : Bool)
    → parse_yaml yaml tag ≡ ok (types, state')
    → All IsSmall types
    → All (IsTrueOfSizes size_of) (static_assert types include_enums)
    → All (IsTrue size_of) (static_assert types include_enums)
static_assert-IsTrue yaml tag types state' size_of include_enums parsed small h =
    static_assert-All size_of include_enums types
      (IsRegistry-HasEnums types (parse_yaml-IsParsed yaml tag state' types parsed).valid) small h
