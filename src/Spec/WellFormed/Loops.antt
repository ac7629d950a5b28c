-- ===== src/Spec/WellFormed/Loops.antt =====
-- The loops of `Bitfield.from_yaml` and `Enum.from_yaml` keep their types well formed.
use mathlib.Core.Path.{subst₂}
use mathlib.Core.List.{map-append}
use stuff_sack.Prelude.{
  ℕ, suc, ◌+◌, ◌<◌, ◌≡◌, true, false, List, [], ◌∷◌, ◌++◌, Option, arith, length, All-append,
}
use stuff_sack.Prelude.Text.{Text, contains, Distinct-snoc}
use stuff_sack.Errors.{ok, >>=-eq-ok}
use stuff_sack.Yaml.{Yaml, Items}
use stuff_sack.Types.{BitfieldField, EnumValue}
use stuff_sack.Prelude.Int.{pos}
use stuff_sack.Types.Sizes.{bytes_for_bits, bytes_for_value}
use stuff_sack.Types.SizeLaws.{bytes_for_bits_iff, bytes_for_value_iff}
use stuff_sack.Spec.Build.{total_bits, bit_names, value_names, add_bits, add_value}
use stuff_sack.Spec.FromYaml.{bits_from_yaml, value_from_yaml, bitfield_loop, enum_loop}
use stuff_sack.Spec.WellFormed.{IsBitfield, Numbered, IsEnum}

bits_from_yaml_pos : (y : Yaml) (f : BitfieldField) → bits_from_yaml y ≡ ok f → 0 < f.bits
unfolding bits_from_yaml
bits_from_yaml_pos y f h = ground arith

total_bits-snoc :
    (fs : List BitfieldField) (f : BitfieldField)
    → total_bits (fs ++ f ∷ []) ≡ total_bits fs + f.bits
unfolding total_bits
total_bits-snoc [] f = omega arith
total_bits-snoc (g ∷ fs) f = omega (arith, total_bits-snoc fs f)

add_bits_cases :
    (self : Text) (fs fs' : List BitfieldField) (f : BitfieldField) (b' : ℕ)
    → add_bits self fs f ≡ ok (fs', b')
    → (contains (bit_names fs) f.name ≡ false)
      × (fs' ≡ fs ++ f ∷ [])
      × (bytes_for_bits (pos (total_bits fs + f.bits)) ≡ ok b')
unfolding add_bits
add_bits_cases self fs fs' f b' h = ground arith

add_bits-IsBitfield :
    (self : Text) (fs fs' : List BitfieldField) (f : BitfieldField) (b b' : ℕ)
    → IsBitfield fs b
    → 0 < f.bits
    → add_bits self fs f ≡ ok (fs', b')
    → IsBitfield fs' b'
add_bits-IsBitfield self fs fs' f b b' v p h =
    let (fresh, grown, sized) = add_bits_cases self fs fs' f b' h in
    rw grown record {
      positive = All-append _ fs (f ∷ []) v.positive (p, tt);
      distinct = rw map-append (Distinct-snoc (bit_names fs) f.name v.distinct fresh);
      size = rw (total_bits-snoc fs f) ((bytes_for_bits_iff _ b').0.0 sized);
    }

-- From a well-formed list of fields, when the loop of `Bitfield.from_yaml` returns, the fields take at
-- least a bit each, have different names, and the bitfield has the least of 1, 2, 4 and 8 bytes that
-- hold all their bits.
pub bitfield_loop-IsBitfield :
    (name : Text) (fs fs' : List BitfieldField) (b b' : ℕ) (items : Items)
    → IsBitfield fs b
    → bitfield_loop name fs b items ≡ ok (fs', b')
    → IsBitfield fs' b'
unfolding bitfield_loop
bitfield_loop-IsBitfield name fs fs' b b' Items.nil v h = subst₂ IsBitfield (cc) (cc) v
bitfield_loop-IsBitfield name fs fs' b b' (Items.cons y ys) v h =
    let (f, made, added) = >>=-eq-ok (bits_from_yaml y) _ h in
    let ((fs₁, b₁), grown, looped) = >>=-eq-ok (add_bits name fs f) _ added in
    bitfield_loop-IsBitfield name fs₁ fs' b₁ b' ys
      (add_bits-IsBitfield name fs fs₁ f b b₁ v (bits_from_yaml_pos y f made) grown) looped

pub add_value_cases :
    (self : Text) (vs vs' : List EnumValue) (name : Text) (description : Option Text) (b' : ℕ)
    → add_value self vs name description ≡ ok (vs', b')
    → (contains (value_names vs) name ≡ false)
      × (vs' ≡ vs ++ record { name = name; description = description; value = length vs } ∷ [])
      × (bytes_for_value (pos (length vs')) true ≡ ok b')
unfolding add_value
add_value_cases self vs vs' name description b' h = ground arith

Numbered-snoc :
    (n : ℕ) (vs : List EnumValue) (v : EnumValue)
    → Numbered n vs
    → v.value ≡ n + length vs
    → Numbered n (vs ++ v ∷ [])
Numbered-snoc n [] v h e = (omega arith, tt)
Numbered-snoc n (u ∷ vs) v (first, h) e = (first, Numbered-snoc (suc n) vs v h (omega arith))

pub add_value-IsEnum :
    (self : Text) (vs vs' : List EnumValue) (name : Text) (d : Option Text) (b b' : ℕ)
    → IsEnum vs b
    → add_value self vs name d ≡ ok (vs', b')
    → IsEnum vs' b'
add_value-IsEnum self vs vs' name d b b' v h =
    let (fresh, grown, sized) = add_value_cases self vs vs' name d b' h in
    let one : EnumValue = record { name = name; description = d; value = length vs } in
    record {
      numbered = rw grown (Numbered-snoc 0 vs one v.numbered (omega arith));
      distinct = rw grown (rw map-append (Distinct-snoc (value_names vs) name v.distinct fresh));
      size = (bytes_for_value_iff _ b').0 sized;
    }

-- From a well-formed list of values, when the loop of `Enum.from_yaml` returns, the values are numbered
-- from 0 in order, have different names, and the enum has the least of 1, 2, 4 and 8 bytes whose
-- signed integers reach the number of values.
pub enum_loop-IsEnum :
    (name : Text) (vs vs' : List EnumValue) (b b' : ℕ) (items : Items)
    → IsEnum vs b
    → enum_loop name vs b items ≡ ok (vs', b')
    → IsEnum vs' b'
unfolding enum_loop
enum_loop-IsEnum name vs vs' b b' Items.nil v h = subst₂ IsEnum (cc) (cc) v
enum_loop-IsEnum name vs vs' b b' (Items.cons y ys) v h =
    let ((value, d), made, added) = >>=-eq-ok (value_from_yaml y) _ h in
    let ((vs₁, b₁), grown, looped) = >>=-eq-ok (add_value name vs value d) _ added in
    enum_loop-IsEnum name vs₁ vs' b₁ b' ys (add_value-IsEnum name vs vs₁ value d b b₁ v grown)
      looped
