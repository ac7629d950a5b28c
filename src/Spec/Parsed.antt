-- ===== src/Spec/Parsed.antt =====
-- What `parse_yaml` returns.
use mathlib.Core.Path.{subst, subst₂}
use mathlib.Core.List.{append_assoc, append-nil}
use stuff_sack.Prelude.{
  ℕ, Bool, ◌≡◌, ◌≢◌, refl, sym, true, false, List, [], ◌∷◌, ◌++◌, Option, some, arith, All,
  All-append, ap, ◌∙◌,
}
use stuff_sack.Prelude.Text.{Text, codes, same, same→eq, contains}
use stuff_sack.Errors.{ok, guard-eq-ok, >>=-eq-ok}
use stuff_sack.Yaml.{Yaml, str, dict, Entries, end, entry, check_map, get, is_text}
use stuff_sack.Types.{
  SsType, primitive, struct, Fields, nil, field_names, append_field, root_name, uid,
}
use stuff_sack.Spec.Build.{
  Registry, find, check_new, new_primitive, new_header, builtin_field, add_field,
}
use stuff_sack.Spec.FromYaml.{dispatch, subscript, from_yaml, describes}
use stuff_sack.Spec.Parse.{
  ClassState, new_primitives, primitives, reset_types, types_loop, check_against, check_collisions,
  parse_yaml,
}
use stuff_sack.Spec.WellFormed.Lookup.{find-append_some}
use stuff_sack.Spec.WellFormed.{Builtins, IsRegistry, empty, declare}
use stuff_sack.Spec.WellFormed.Types.{IsNamed}
use stuff_sack.Spec.WellFormed.Declared.{
  class_name, check_new-fresh, IsRegistry-IsNamed, IsFields-nil, builtin_field-IsFields,
  IsNew-IsRegistry, dispatch-IsNew,
}

ok-injective {ℓ} : {A : Type ℓ} (a b : A) → ok a ≡ ok b → a ≡ b
ok-injective a b h = cc

-- The YAML value names the class of the type.
abbrev pub Declares : Yaml → SsType → Type 0
Declares (dict m) t = get (codes "type") m ≡ some (str (class_name t))
Declares _ t = ⊥

-- The types are those of the map, in its order, by the map's keys and of the classes it names.
abbrev pub Keyed : Entries → List SsType → Type 0
Keyed end [] = Unit
Keyed end (t ∷ ts) = ⊥
Keyed (entry k v m) [] = ⊥
Keyed (entry k v m) (t ∷ ts) = (k ≡ str (root_name t)) × Declares v t × Keyed m ts

is_text→eq : (s : Text) (y : Yaml) → is_text s y ≡ true → y ≡ str s
unfolding is_text
is_text→eq s (str t) h = ap str (same→eq t s h)
is_text→eq s _ h = absurd (ground arith)

check_map_cases :
    (y : Yaml) (r o : List Text) (m : Entries) (b : Bool) → check_map y r o b ≡ ok m → y ≡ dict m
unfolding check_map
check_map_cases (dict m') r o m b h = ground arith
check_map_cases _ r o m b h = absurd (ground arith)

subscript_cases :
    (key : Text) (m : Entries) (v : Yaml) → subscript key m ≡ ok v → get key m ≡ some v
unfolding subscript
subscript_cases key m v h = ground arith

pub Builtins-append : (reg more : Registry) → Builtins reg → Builtins (reg ++ more)
Builtins-append reg more b = record {
  int8 = find-append_some _ reg more _ b.int8;
  int16 = find-append_some _ reg more _ b.int16;
  int32 = find-append_some _ reg more _ b.int32;
  int64 = find-append_some _ reg more _ b.int64;
  header = find-append_some _ reg more _ b.header;
}

-- The type that `from_yaml` puts at the end of the registry.
record Declared (reg reg' : Registry) (key value : Yaml) : Type 0 where
  type : SsType
  named : key ≡ str (root_name type)
  declares : Declares value type
  added : reg' ≡ reg ++ type ∷ []
  valid : IsRegistry reg'

module _ (tag : Option Text) where
  from_yaml-Declared :
      (key value : Yaml) (reg reg' : Registry)
      → IsRegistry reg
      → Builtins reg
      → from_yaml tag key value reg ≡ ok reg'
      → Declared reg reg' key value
  unfolding from_yaml
  from_yaml-Declared (str name) value reg reg' r builtins h =
      let (m, checked, h₁) = >>=-eq-ok (check_map value _ _ false) _ h in
      let (described, h₂) = guard-eq-ok (describes m) _ _ h₁ in
      let (kind, got, h₃) = >>=-eq-ok (subscript (codes "type") m) _ h₂ in
      let (t, made, h₄) = >>=-eq-ok (dispatch tag name value reg kind) _ h₃ in
      let (new, class_of) = dispatch-IsNew name value reg t tag kind r builtins made in
      let grown : reg' ≡ reg ++ t ∷ [] = cc in
      let kind_is = is_text→eq (class_name t) kind class_of in
      record {
        type = t;
        named = ap str (sym new.called);
        declares =
            subst (λ y. Declares y t) (sym (check_map_cases value _ _ m false checked))
              (subscript_cases (codes "type") m kind got ∙ ap {B = Option Yaml} some kind_is);
        added = grown;
        valid = rw grown (IsNew-IsRegistry reg name (class_name t) t r new);
      }
  from_yaml-Declared _ value reg reg' r builtins h = absurd (ground arith)

  record Looped (reg reg' : Registry) (m : Entries) : Type 0 where
    types : List SsType
    keyed : Keyed m types
    added : reg' ≡ reg ++ types
    valid : IsRegistry reg'

  types_loop-Looped :
      (m : Entries) (reg reg' : Registry)
      → IsRegistry reg
      → Builtins reg
      → types_loop tag m reg ≡ ok reg'
      → Looped reg reg' m
  unfolding types_loop
  types_loop-Looped end reg reg' r builtins h =
      let e : reg ≡ reg' = cc in
      record {
        types = [];
        keyed = tt;
        added = sym e ∙ sym (append-nil reg);
        valid = subst IsRegistry e r;
      }
  types_loop-Looped (entry k v m) reg reg' r builtins h =
      let (reg₁, made, looped) = >>=-eq-ok (from_yaml tag k v reg) _ h in
      let first = from_yaml-Declared k v reg reg₁ r builtins made in
      let later =
        subst Builtins (sym first.added) (Builtins-append reg (first.type ∷ []) builtins) in
      let rest = types_loop-Looped m reg₁ reg' first.valid later looped in
      record {
        types = first.type ∷ rest.types;
        keyed = (first.named, first.declares, rest.keyed);
        added = cc (rest.added, first.added, append_assoc reg (first.type ∷ []) rest.types);
        valid = rest.valid;
      }

new_primitive-IsRegistry :
    (name : Text) (bytes : ℕ) (reg reg' : Registry)
    → IsRegistry reg
    → new_primitive name bytes reg ≡ ok reg'
    → IsRegistry reg'
unfolding new_primitive root_name
new_primitive-IsRegistry name bytes reg reg' r h =
    let (u, new, h₁) = >>=-eq-ok (check_new name reg) _ h in
    declare (primitive name bytes) r (check_new-fresh name reg u new) tt (cc)

new_primitives-IsRegistry :
    (ps : List (Text × ℕ)) (reg reg' : Registry)
    → IsRegistry reg
    → new_primitives ps reg ≡ ok reg'
    → IsRegistry reg'
unfolding new_primitives
new_primitives-IsRegistry [] reg reg' r h = subst IsRegistry (cc) r
new_primitives-IsRegistry ((name, bytes) ∷ ps) reg reg' r h =
    let (reg₁, made, looped) = >>=-eq-ok (new_primitive name bytes reg) _ h in
    new_primitives-IsRegistry ps reg₁ reg' (new_primitive-IsRegistry name bytes reg reg₁ r made)
      looped

new_header-IsRegistry :
    (reg reg' : Registry) → IsRegistry reg → new_header reg ≡ ok reg' → IsRegistry reg'
unfolding new_header root_name
new_header-IsRegistry reg reg' r h =
    let name = codes "SsHeader" in
    let make = struct name (some (codes "Message header.")) in
    let named =
      λ (fs : Fields). All-append IsNamed reg (make fs ∷ []) (IsRegistry-IsNamed reg r) (tt, tt) in
    let (u, new, h₁) = >>=-eq-ok (check_new name reg) _ h in
    let (f, made₁, h₂) = >>=-eq-ok (builtin_field _ _ _ (reg ++ make nil ∷ [])) _ h₁ in
    let (fs₁, added₁, h₃) = >>=-eq-ok (add_field name nil f) _ h₂ in
    let (g, made₂, h₄) = >>=-eq-ok (builtin_field _ _ _ (reg ++ make fs₁ ∷ [])) _ h₃ in
    let (fs₂, added₂, h₅) = >>=-eq-ok (add_field name fs₁ g) _ h₄ in
    let first =
      builtin_field-IsFields reg (make nil) _ _ _ nil fs₁ f (named nil) (IsFields-nil reg) made₁
        added₁ in
    let second =
      builtin_field-IsFields reg (make fs₁) _ _ _ fs₁ fs₂ g (named fs₁) first made₂ added₂ in
    declare (make fs₂) r (check_new-fresh name reg u new) second (cc)

reset_types-IsRegistry : (reg : Registry) → reset_types ≡ ok reg → IsRegistry reg
unfolding reset_types
reset_types-IsRegistry reg h =
    let (before, made, h₁) = >>=-eq-ok (new_primitives primitives []) _ h in
    new_header-IsRegistry before reg (new_primitives-IsRegistry primitives [] before empty made) h₁

pub reset_types-Builtins : (reg : Registry) → reset_types ≡ ok reg → Builtins reg
unfolding reset_types find contains same root_name field_names append_field
reset_types-Builtins reg h =
    rw (← ok-injective _ reg h)
      record { int8 = refl; int16 = refl; int32 = refl; int64 = refl; header = refl }

-- The unique ids of the types differ.
abbrev pub UidsDiffer : List SsType → Type 0
UidsDiffer [] = Unit
UidsDiffer (t ∷ ts) = All (λ u. uid t ≢ uid u) ts × UidsDiffer ts

check_against-differ :
    (name : Text) (n : ℕ) (ts : List SsType) (u : Unit {0})
    → check_against name n ts ≡ ok u
    → All (λ t. n ≢ uid t) ts
unfolding check_against
check_against-differ name n [] u h = tt
check_against-differ name n (t ∷ ts) u h =
    (ground arith, check_against-differ name n ts u (ground arith))

check_collisions-differ :
    (ts : List SsType) (u : Unit {0}) → check_collisions ts ≡ ok u → UidsDiffer ts
unfolding check_collisions
check_collisions-differ [] u h = tt
check_collisions-differ (t ∷ ts) u h =
    let (v, first, rest) = >>=-eq-ok (check_against (root_name t) (uid t) ts) _ h in
    (check_against-differ (root_name t) (uid t) ts v first, check_collisions-differ ts u rest)

-- What a successful `parse_yaml` shows of its types.
pub record IsParsed (yaml : Yaml) (types : List SsType) (fresh : Registry) : Type 0 where
  pub type_map : Entries
  pub is_map : yaml ≡ dict type_map
  pub user_types : List SsType
  pub reset : reset_types ≡ ok fresh
  pub split : types ≡ fresh ++ user_types
  pub keyed : Keyed type_map user_types
  pub valid : IsRegistry types
  pub differ : UidsDiffer types

module _ (yaml : Yaml) (tag : Option Text) (state' : ClassState) (types : List SsType) where
  steps-IsParsed :
      (m : Entries) (reg fresh all_types : Registry) (u : Unit {0})
      → yaml ≡ dict m
      → reset_types ≡ ok reg
      → types_loop tag m reg ≡ ok all_types
      → reset_types ≡ ok fresh
      → check_collisions all_types ≡ ok u
      → all_types ≡ types
      → fresh ≡ state'.all_types
      → IsParsed yaml types state'.all_types
  steps-IsParsed m reg fresh all_types u is_map made looped again collided e₁ e₂ =
      let loop =
        types_loop-Looped tag m reg all_types (reset_types-IsRegistry reg made)
          (reset_types-Builtins reg made) looped in
      subst₂ (IsParsed yaml) e₁ e₂ record {
        type_map = m;
        is_map = is_map;
        user_types = loop.types;
        reset = again;
        split = cc (loop.added, made, again);
        keyed = loop.keyed;
        valid = loop.valid;
        differ = check_collisions-differ all_types u collided;
      }

  -- When `parse_yaml` returns, the value is a map, and the types are the builtin ones that
  -- `reset_types` makes followed by one type for each entry of the map, in order, by the entry's key
  -- and of the class that it declares; each type is well formed over the types before it, with a new
  -- name, and the unique ids differ. The registry that is left is the builtin types.
  pub parse_yaml-IsParsed :
      parse_yaml yaml tag ≡ ok (types, state') → IsParsed yaml types state'.all_types
  unfolding parse_yaml
  parse_yaml-IsParsed h =
      let (m, checked, h₁) = >>=-eq-ok (check_map yaml [] [] false) _ h in
      let (reg, made, h₂) = >>=-eq-ok reset_types _ h₁ in
      let (all_types, looped, h₃) = >>=-eq-ok (types_loop tag m reg) _ h₂ in
      let (fresh, again, h₄) = >>=-eq-ok reset_types _ h₃ in
      let (u, collided, h₅) = >>=-eq-ok (check_collisions all_types) _ h₄ in
      let e = ok-injective _ _ h₅ in
      steps-IsParsed m reg fresh all_types u (check_map_cases yaml [] [] m false checked) made
        looped again collided (ap (λ r. r.0) e) (ap (λ r. r.1.all_types) e)
