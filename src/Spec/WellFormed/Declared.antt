-- ===== src/Spec/WellFormed/Declared.antt =====
-- Each `from_yaml` method returns a new, well-formed type of the class that it belongs to.
use mathlib.Core.Path.{subst}
use stuff_sack.Prelude.{
  ◌≡◌, refl, inl, true, false, [], ◌∷◌, ◌++◌, Option, none, arith, All, All-append,
}
use stuff_sack.Prelude.Text.{Text, codes, contains}
use stuff_sack.Errors.{ok, >>=-eq-ok}
use stuff_sack.Yaml.{Yaml, check_map, is_text}
use stuff_sack.Types.{
  append_field, SsType, primitive, bitfield, enum, struct, message, array, Fields, nil, field_names,
  root_name,
}
use stuff_sack.Spec.Build.{
  Registry, names, get_type, check_new, builtin_field, message_fields, add_field, StructField,
  total_bits,
}
use stuff_sack.Spec.FromYaml.{
  get_array, get_text, bitfield_loop, enum_loop, struct_loop, bitfield_from_yaml, enum_from_yaml,
  struct_from_yaml, message_from_yaml, dispatch, description_key,
}
use stuff_sack.Spec.WellFormed.{
  IsBitfield, IsEnum, IsFields, StartsWithHeader, Builtins, IsType, IsRegistry, empty, declare,
}
use stuff_sack.Spec.WellFormed.Lookup.{get_type-find}
use stuff_sack.Spec.WellFormed.Loops.{bitfield_loop-IsBitfield, enum_loop-IsEnum}
use stuff_sack.Spec.WellFormed.Types.{
  IsNamed, find-drop, get_type-IsFieldType, add_field_cases, add_field-IsFields,
  struct_loop-IsFields, struct_loop-StartsWithHeader,
}

IsType-IsNamed : (reg : Registry) (t : SsType) → IsType reg t → IsNamed t
IsType-IsNamed reg (array t n) h = h
IsType-IsNamed reg _ h = tt

pub IsRegistry-IsNamed : (reg : Registry) → IsRegistry reg → All IsNamed reg
IsRegistry-IsNamed _ empty = tt
IsRegistry-IsNamed reg (declare {reg = before} t h fresh v e) = rw e (
    All-append IsNamed before (t ∷ []) (IsRegistry-IsNamed before h)
      (IsType-IsNamed before t v, tt))

pub check_new-fresh :
    (name : Text) (reg : Registry) (u : Unit {0})
    → check_new name reg ≡ ok u
    → contains (names reg) name ≡ false
unfolding check_new
check_new-fresh name reg u h = ground arith

-- The word that `yaml['type']` has for the class of a type.
abbrev pub class_name : SsType → Text
class_name (primitive n b) = codes "Primitive"
class_name (bitfield n d fs b) = codes "Bitfield"
class_name (enum n d vs b) = codes "Enum"
class_name (struct n d fs) = codes "Struct"
class_name (message n d fs) = codes "Message"
class_name (array t n) = codes "Array"

-- A new type `t` called `name`, of class `class`, well formed over `reg`.
pub record IsNew (reg : Registry) (name class : Text) (t : SsType) : Type 0 where
  pub called : root_name t ≡ name
  pub class_of : class_name t ≡ class
  pub fresh : contains (names reg) name ≡ false
  pub valid : IsType reg t

pub IsNew-IsRegistry :
    (reg : Registry) (name class : Text) (t : SsType)
    → IsRegistry reg
    → IsNew reg name class t
    → IsRegistry (reg ++ t ∷ [])
IsNew-IsRegistry reg name class t h v = declare t h (rw v.called v.fresh) v.valid refl

IsBitfield-empty : IsBitfield [] 1
unfolding total_bits
IsBitfield-empty = record {
  positive = tt;
  distinct = tt;
  size = record { word = inl refl; fits = omega arith; least = inl refl };
}

IsEnum-empty : IsEnum [] 1
IsEnum-empty = record {
  numbered = tt;
  distinct = tt;
  size = record { word = inl refl; fits = omega arith; least = inl refl };
}

pub IsFields-nil : (reg : Registry) → IsFields reg nil
unfolding field_names
IsFields-nil reg = record { distinct = tt; types = tt }

module _ (name : Text) (yaml : Yaml) (reg : Registry) (t : SsType) where
  bitfield_from_yaml-IsNew :
      bitfield_from_yaml name yaml reg ≡ ok t → IsNew reg name (codes "Bitfield") t
  unfolding bitfield_from_yaml root_name
  bitfield_from_yaml-IsNew h =
      let (m, checked, h₁) = >>=-eq-ok (check_map yaml _ _ true) _ h in
      let (items, got, h₂) = >>=-eq-ok (get_array (codes "fields") m) _ h₁ in
      let (u, new, h₃) = >>=-eq-ok (check_new name reg) _ h₂ in
      let ((fields, bytes), looped, h₄) = >>=-eq-ok (bitfield_loop name [] 1 items) _ h₃ in
      let made : bitfield name (get_text description_key m) fields bytes ≡ t = cc in
      subst (IsNew reg name (codes "Bitfield")) made record {
        called = refl;
        class_of = refl;
        fresh = check_new-fresh name reg u new;
        valid = bitfield_loop-IsBitfield name [] fields 1 bytes items IsBitfield-empty looped;
      }

  enum_from_yaml-IsNew :
      Builtins reg → enum_from_yaml name yaml reg ≡ ok t → IsNew reg name (codes "Enum") t
  unfolding enum_from_yaml root_name
  enum_from_yaml-IsNew builtins h =
      let (m, checked, h₁) = >>=-eq-ok (check_map yaml _ _ true) _ h in
      let (items, got, h₂) = >>=-eq-ok (get_array (codes "values") m) _ h₁ in
      let (u, new, h₃) = >>=-eq-ok (check_new name reg) _ h₂ in
      let ((values, bytes), looped, h₄) = >>=-eq-ok (enum_loop name [] 1 items) _ h₃ in
      let made : enum name (get_text description_key m) values bytes ≡ t = cc in
      subst (IsNew reg name (codes "Enum")) made record {
        called = refl;
        class_of = refl;
        fresh = check_new-fresh name reg u new;
        valid = (enum_loop-IsEnum name [] values 1 bytes items IsEnum-empty looped, builtins);
      }

  struct_from_yaml-IsNew :
      (tag : Option Text)
      → IsRegistry reg
      → struct_from_yaml tag name yaml reg ≡ ok t
      → IsNew reg name (codes "Struct") t
  unfolding struct_from_yaml root_name
  struct_from_yaml-IsNew tag r h =
      let (m, checked, h₁) = >>=-eq-ok (check_map yaml _ _ true) _ h in
      let (items, got, h₂) = >>=-eq-ok (get_array (codes "fields") m) _ h₁ in
      let (u, new, h₃) = >>=-eq-ok (check_new name reg) _ h₂ in
      let make = struct name (get_text description_key m) in
      let (fields, looped, h₄) = >>=-eq-ok (struct_loop tag reg name make nil items) _ h₃ in
      let made : make fields ≡ t = cc in
      subst (IsNew reg name (codes "Struct")) made record {
        called = refl;
        class_of = refl;
        fresh = check_new-fresh name reg u new;
        valid =
            struct_loop-IsFields reg name tag make (λ fs. refl) (λ fs. tt)
              (IsRegistry-IsNamed reg r) nil fields items (IsFields-nil reg) looped;
      }

-- The header that `Message.__init__` adds
builtin_field-type :
    (n s d : Text) (reg : Registry) (f : StructField)
    → builtin_field n s d reg ≡ ok f
    → (f.name ≡ n) × (get_type s reg ≡ ok f.type) × (f.alias ≡ none)
unfolding builtin_field
builtin_field-type n s d reg f h = ground arith

-- `u` is the struct under construction, which gets a field of a builtin type.
pub builtin_field-IsFields :
    (reg : Registry) (u : SsType) (n s d : Text) (fs fs' : Fields) (f : StructField)
    → All IsNamed (reg ++ u ∷ [])
    → IsFields reg fs
    → builtin_field n s d (reg ++ u ∷ []) ≡ ok f
    → add_field (root_name u) fs f ≡ ok fs'
    → IsFields reg fs'
builtin_field-IsFields reg u n s d fs fs' f named v made added =
    add_field-IsFields reg (root_name u) u fs fs' f refl v
      (get_type-IsFieldType s (reg ++ u ∷ []) f.type named
        (builtin_field-type n s d (reg ++ u ∷ []) f made).1)
      added

module _ (name : Text) (d : Option Text) (reg : Registry) (fs : Fields) where
  message_fields-IsFields :
      All IsNamed reg
      → message_fields name d reg ≡ ok fs
      → IsFields reg fs × StartsWithHeader reg fs
  unfolding message_fields root_name append_field
  message_fields-IsFields named h =
      let u = message name d nil in
      let (f, made, added) = >>=-eq-ok (builtin_field _ _ _ (reg ++ u ∷ [])) _ h in
      let (called, got, plain) = builtin_field-type _ _ _ (reg ++ u ∷ []) f made in
      let (fresh, other, grown) = add_field_cases name nil fs f added in
      let all_named = All-append IsNamed reg (u ∷ []) named (tt, tt) in
      (
        builtin_field-IsFields reg u _ _ _ nil fs f all_named (IsFields-nil reg) made added,
        rw grown (called, find-drop _ reg u f.type other (get_type-find _ _ _ got), plain),
      )

module _ (name : Text) (yaml : Yaml) (reg : Registry) (t : SsType) (tag : Option Text) where
  message_from_yaml-IsNew :
      IsRegistry reg
      → Builtins reg
      → message_from_yaml tag name yaml reg ≡ ok t
      → IsNew reg name (codes "Message") t
  unfolding message_from_yaml root_name
  message_from_yaml-IsNew r builtins h =
      let (m, checked, h₁) = >>=-eq-ok (check_map yaml _ _ true) _ h in
      let (items, got, h₂) = >>=-eq-ok (get_array (codes "fields") m) _ h₁ in
      let (u, new, h₃) = >>=-eq-ok (check_new name reg) _ h₂ in
      let d = get_text description_key m in
      let (header, begun, h₄) = >>=-eq-ok (message_fields name d reg) _ h₃ in
      let make = message name d in
      let (fields, looped, h₅) = >>=-eq-ok (struct_loop tag reg name make header items) _ h₄ in
      let named = IsRegistry-IsNamed reg r in
      let (valid, starts) = message_fields-IsFields name d reg header named begun in
      let made : make fields ≡ t = cc in
      subst (IsNew reg name (codes "Message")) made record {
        called = refl;
        class_of = refl;
        fresh = check_new-fresh name reg u new;
        valid = (
          struct_loop-IsFields reg name tag make (λ fs. refl) (λ fs. tt) named header fields items
              valid looped,
          struct_loop-StartsWithHeader reg name tag make (λ fs. refl) (λ fs. tt) named header fields
              items starts looped,
          builtins,
        );
      }

  pub dispatch-IsNew :
      (kind : Yaml)
      → IsRegistry reg
      → Builtins reg
      → dispatch tag name yaml reg kind ≡ ok t
      → IsNew reg name (class_name t) t × (is_text (class_name t) kind ≡ true)
  unfolding dispatch
  dispatch-IsNew kind r builtins h = ground (
    arith,
    bitfield_from_yaml-IsNew name yaml reg t,
    enum_from_yaml-IsNew name yaml reg t builtins,
    struct_from_yaml-IsNew name yaml reg t tag r,
    message_from_yaml-IsNew r builtins,
  )
