-- ===== src/Spec/WellFormed/Types.antt =====
-- The types that `Array.from_yaml` and `StructField.from_yaml` find, and the loop of
-- `Struct.from_yaml`.
use stuff_sack.Prelude.{
  ℕ, ◌<◌, ◌≡◌, refl, ap, inl, inr, false, [], ◌∷◌, ◌++◌, Option, some, arith, Bool-cases, All,
  All-append,
}
use mathlib.Core.Path.{subst}
use stuff_sack.Prelude.Text.{Text, same, same_refl, same→eq, contains, Distinct-snoc}
use stuff_sack.Errors.{Result, ok, >>=-eq-ok}
use stuff_sack.Yaml.{Yaml, str, seq, Items, check_map_with_meta, get_from_map_with_meta}
use stuff_sack.Types.{SsType, array, Fields, nil, field, append_field, field_names, root_name}
use stuff_sack.Spec.Build.{Registry, find, get_type, StructField, add_field}
use stuff_sack.Spec.FromYaml.{
  counted_array, array_from_yaml, type_from_yaml, alias_from_yaml, field_from_yaml, struct_loop,
}
use stuff_sack.Spec.WellFormed.{IsFieldType, HasFieldTypes, IsFields, StartsWithHeader}
use stuff_sack.Spec.WellFormed.Lookup.{find-name, find-snoc, find-append_some, get_type-find}

-- A registry holds no arrays.
abbrev pub IsNamed : SsType → Type 0
IsNamed (array t n) = ⊥
IsNamed _ = Unit

pub find-All :
    (P : SsType → Type 0) (s : Text) (reg : Registry) (t : SsType)
    → All P reg
    → find s reg ≡ some t
    → P t
unfolding find
find-All P s [] t h e = absurd (ground arith)
find-All P s (u ∷ reg) t (h, hs) e = elim (Bool-cases (same (root_name u) s)) [
  | inl here ↦ subst P (ground arith) h
  | inr there ↦ find-All P s reg t hs (ground arith)
]

pub IsNamed-IsFieldType :
    (reg : Registry) (t : SsType) → IsNamed t → find (root_name t) reg ≡ some t → IsFieldType reg t
IsNamed-IsFieldType reg (array t n) h e = absurd h
IsNamed-IsFieldType reg _ h e = e

pub get_type-IsFieldType :
    (s : Text) (reg : Registry) (t : SsType)
    → All IsNamed reg
    → get_type s reg ≡ ok t
    → IsFieldType reg t
get_type-IsFieldType s reg t named h =
    let found = get_type-find s reg t h in
    let key = same→eq (root_name t) s (find-name s reg t found) in
    IsNamed-IsFieldType reg t (find-All IsNamed s reg t named found) (rw key found)

counted_array_cases :
    (r : Result SsType) (n : Yaml) (t : SsType)
    → counted_array r n ≡ ok t
    → (u : SsType) × (k : ℕ) × (r ≡ ok u) × (0 < k) × (t ≡ array u k)
unfolding counted_array
counted_array_cases r n t h = ground arith

counted_array-IsFieldType :
    (reg : Registry) (r : Result SsType) (n : Yaml) (t : SsType)
    → ((u : SsType) → r ≡ ok u → IsFieldType reg u)
    → counted_array r n ≡ ok t
    → IsFieldType reg t
counted_array-IsFieldType reg r n t inner h =
    let (u, k, made, pos, e) = counted_array_cases r n t h in rw e (pos, inner u made)

array_from_yaml-IsFieldType :
    (reg : Registry) (items : Items) (t : SsType)
    → All IsNamed reg
    → array_from_yaml reg items ≡ ok t
    → IsFieldType reg t
unfolding array_from_yaml
array_from_yaml-IsFieldType reg (Items.cons (str s) (Items.cons n Items.nil)) t named h =
    counted_array-IsFieldType reg (get_type s reg) n t (λ u. get_type-IsFieldType s reg u named) h
array_from_yaml-IsFieldType reg (Items.cons (seq xs) (Items.cons n Items.nil)) t named h =
    counted_array-IsFieldType reg (array_from_yaml reg xs) n t
      (λ u. array_from_yaml-IsFieldType reg xs u named) h
array_from_yaml-IsFieldType reg _ t named h = absurd (ground arith)

type_from_yaml-IsFieldType :
    (reg : Registry) (y : Yaml) (t : SsType)
    → All IsNamed reg
    → type_from_yaml reg y ≡ ok t
    → IsFieldType reg t
unfolding type_from_yaml
type_from_yaml-IsFieldType reg (seq xs) t named h = array_from_yaml-IsFieldType reg xs t named h
type_from_yaml-IsFieldType reg (str s) t named h = get_type-IsFieldType s reg t named h
type_from_yaml-IsFieldType reg _ t named h = absurd (ground arith)

field_from_yaml-IsFieldType :
    (tag : Option Text) (reg : Registry) (y : Yaml) (f : StructField)
    → All IsNamed reg
    → field_from_yaml tag reg y ≡ ok f
    → IsFieldType reg f.type
unfolding field_from_yaml
field_from_yaml-IsFieldType tag reg y f named h =
    let (m, checked, h₁) = >>=-eq-ok (check_map_with_meta y) _ h in
    let ((name, value), got, h₂) = >>=-eq-ok (get_from_map_with_meta m) _ h₁ in
    let (t, typed, h₃) = >>=-eq-ok (type_from_yaml reg value) _ h₂ in
    let (alias, aliased, h₄) = >>=-eq-ok (alias_from_yaml tag m) _ h₃ in
    subst (IsFieldType reg) (ground arith) (type_from_yaml-IsFieldType reg value t named typed)

pub find-drop :
    (s : Text) (reg : Registry) (u t : SsType)
    → same (root_name t) (root_name u) ≡ false
    → find s (reg ++ u ∷ []) ≡ some t
    → find s reg ≡ some t
find-drop s reg u t other h = elim (find-snoc s reg u t h) [
  | inl before ↦ before
  | inr last ↦ absurd (ground (arith, same_refl (root_name u), ap root_name last))
]

-- A type that is not the registry's last is one of those before it.
IsFieldType-drop :
    (reg : Registry) (u t : SsType)
    → same (root_name t) (root_name u) ≡ false
    → IsFieldType (reg ++ u ∷ []) t
    → IsFieldType reg t
unfolding root_name
IsFieldType-drop reg u (array t n) other (pos, h) = (pos, IsFieldType-drop reg u t other h)
IsFieldType-drop reg u _ other h = find-drop _ reg u _ other h

pub IsFieldType-append :
    (reg more : Registry) (t : SsType) → IsFieldType reg t → IsFieldType (reg ++ more) t
unfolding root_name
IsFieldType-append reg more (array t n) (pos, h) = (pos, IsFieldType-append reg more t h)
IsFieldType-append reg more _ h = find-append_some _ reg more _ h

HasFieldTypes-append_field :
    (reg : Registry) (fs : Fields) (n : Text) (t : SsType) (d a : Option Text)
    → HasFieldTypes reg fs
    → IsFieldType reg t
    → HasFieldTypes reg (append_field fs n t d a)
unfolding append_field
HasFieldTypes-append_field reg nil n t d a h k = (k, tt)
HasFieldTypes-append_field reg (field m u e b fs) n t d a (h, hs) k =
    (h, HasFieldTypes-append_field reg fs n t d a hs k)

field_names-append_field :
    (fs : Fields) (n : Text) (t : SsType) (d a : Option Text)
    → field_names (append_field fs n t d a) ≡ field_names fs ++ n ∷ []
unfolding append_field field_names
field_names-append_field nil n t d a = refl
field_names-append_field (field m u e b fs) n t d a =
    ap (λ ns. m ∷ ns) (field_names-append_field fs n t d a)

StartsWithHeader-append_field :
    (reg : Registry) (fs : Fields) (n : Text) (t : SsType) (d a : Option Text)
    → StartsWithHeader reg fs
    → StartsWithHeader reg (append_field fs n t d a)
unfolding append_field
StartsWithHeader-append_field reg nil n t d a h = absurd h
StartsWithHeader-append_field reg (field m u e b fs) n t d a h = h

pub add_field_cases :
    (self : Text) (fs fs' : Fields) (f : StructField)
    → add_field self fs f ≡ ok fs'
    → (contains (field_names fs) f.name ≡ false)
      × (same (root_name f.type) self ≡ false)
      × (fs' ≡ append_field fs f.name f.type f.description f.alias)
unfolding add_field
add_field_cases self fs fs' f h = ground arith

module _ (reg : Registry) (self : Text) where
  -- `u` is the struct under construction, at the end of the registry that its fields are read with.
  pub add_field-IsFields :
      (u : SsType) (fs fs' : Fields) (f : StructField)
      → root_name u ≡ self
      → IsFields reg fs
      → IsFieldType (reg ++ u ∷ []) f.type
      → add_field self fs f ≡ ok fs'
      → IsFields reg fs'
  add_field-IsFields u fs fs' f e v typed h =
      let (fresh, other, grown) = add_field_cases self fs fs' f h in
      rw grown record {
        distinct =
            rw field_names-append_field (Distinct-snoc (field_names fs) f.name v.distinct fresh);
        types =
            HasFieldTypes-append_field reg fs f.name f.type f.description f.alias v.types
              (IsFieldType-drop reg u f.type (rw e other) typed);
      }

  pub add_field-StartsWithHeader :
      (fs fs' : Fields) (f : StructField)
      → StartsWithHeader reg fs
      → add_field self fs f ≡ ok fs'
      → StartsWithHeader reg fs'
  add_field-StartsWithHeader fs fs' f v h =
      rw (add_field_cases self fs fs' f h).2 (StartsWithHeader-append_field reg fs _ _ _ _ v)

  module _ (tag : Option Text) (make : Fields → SsType)
      (called : (fs : Fields) → root_name (make fs) ≡ self)
      (is_named : (fs : Fields) → IsNamed (make fs)) (named : All IsNamed reg) where
    pub struct_loop-IsFields :
        (fs fs' : Fields) (items : Items)
        → IsFields reg fs
        → struct_loop tag reg self make fs items ≡ ok fs'
        → IsFields reg fs'
    unfolding struct_loop
    struct_loop-IsFields fs fs' Items.nil v h = subst (IsFields reg) (cc) v
    struct_loop-IsFields fs fs' (Items.cons y ys) v h =
        let (f, made, added) = >>=-eq-ok (field_from_yaml tag (reg ++ make fs ∷ []) y) _ h in
        let (fs₁, grown, looped) = >>=-eq-ok (add_field self fs f) _ added in
        let all_named = All-append IsNamed reg (make fs ∷ []) named (is_named fs, tt) in
        struct_loop-IsFields fs₁ fs' ys
          (add_field-IsFields (make fs) fs fs₁ f (called fs) v
            (field_from_yaml-IsFieldType tag _ y f all_named made) grown)
          looped

    pub struct_loop-StartsWithHeader :
        (fs fs' : Fields) (items : Items)
        → StartsWithHeader reg fs
        → struct_loop tag reg self make fs items ≡ ok fs'
        → StartsWithHeader reg fs'
    unfolding struct_loop
    struct_loop-StartsWithHeader fs fs' Items.nil v h = subst (StartsWithHeader reg) (cc) v
    struct_loop-StartsWithHeader fs fs' (Items.cons y ys) v h =
        let (f, made, added) = >>=-eq-ok (field_from_yaml tag (reg ++ make fs ∷ []) y) _ h in
        let (fs₁, grown, looped) = >>=-eq-ok (add_field self fs f) _ added in
        struct_loop-StartsWithHeader fs₁ fs' ys (add_field-StartsWithHeader fs fs₁ f v grown) looped
