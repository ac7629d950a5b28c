-- ===== src/Py/Enums.antt =====
-- The two dicts of an enum class are inverse to each other.
use mathlib.Core.Path.{subst}
use stuff_sack.Prelude.{
  ap, ◌∙◌, Bool-cases, ltb, get_elem?-some, ℕ, zero, suc, ◌+◌, ◌≡◌, ◌<◌, ◌≤◌, ◌↔◌, ◌⊎◌, refl, true,
  false, List, [], ◌∷◌, none, some, inl, inr, arith, length, get_elem?,
}
use stuff_sack.Prelude.Text.{Text, same_refl, contains, Distinct}
use stuff_sack.Prelude.Int.{pos, negsuc}
use stuff_sack.Types.{EnumValue}
use stuff_sack.Spec.Build.{value_names}
use stuff_sack.Spec.WellFormed.{Numbered, IsEnum}
use stuff_sack.Py.{value_of, name_of, enum_name, is_valid, contains_name}

value_of-absent :
    (s : Text) (vs : List EnumValue) → contains (value_names vs) s ≡ false → value_of s vs ≡ none
unfolding value_of contains
value_of-absent s [] h = refl
value_of-absent s (v ∷ vs) h = ground (arith, value_of-absent s vs)

value_of-get :
    (vs : List EnumValue) (i : ℕ) (v : EnumValue)
    → Distinct (value_names vs)
    → get_elem? vs i ≡ some v
    → value_of v.name vs ≡ some v.value
unfolding value_of
value_of-get [] i v d h = absurd (ground arith)
value_of-get (u ∷ vs) zero v (fresh, d) h =
    let first : value_of u.name (u ∷ vs) ≡ some u.value =
      ground (arith, value_of-absent u.name vs fresh, same_refl u.name) in
    let e : u ≡ v = cc in subst (λ w. value_of w.name (u ∷ vs) ≡ some w.value) e first
value_of-get (u ∷ vs) (suc i) v (fresh, d) h = ground (arith, value_of-get vs i v d h)

name_of-outside :
    (n k : ℕ) (vs : List EnumValue)
    → Numbered k vs
    → (n < k) ⊎ (k + length vs ≤ n)
    → name_of n vs ≡ none
unfolding name_of
name_of-outside n k [] h out = refl
name_of-outside n k (v ∷ vs) (e, h) (inl below) =
    ground (arith, name_of-outside n (suc k) vs h (inl (omega arith)))
name_of-outside n k (v ∷ vs) (e, h) (inr above) =
    ground (arith, name_of-outside n (suc k) vs h (inr (omega arith)))

name_of-get :
    (k i : ℕ) (vs : List EnumValue) (v : EnumValue)
    → Numbered k vs
    → get_elem? vs i ≡ some v
    → (name_of (k + i) vs ≡ some v.name) × (v.value ≡ k + i)
unfolding name_of
name_of-get k i [] v h g = absurd (ground arith)
name_of-get k zero (u ∷ vs) v (e, h) g =
    let first : (name_of (k + 0) (u ∷ vs) ≡ some u.name) × (u.value ≡ k + 0) =
      (ground (arith, name_of-outside (k + 0) (suc k) vs h (inl (omega arith))), omega arith) in
    let same_v : u ≡ v = cc in
    subst (λ w. (name_of (k + 0) (u ∷ vs) ≡ some w.name) × (w.value ≡ k + 0)) same_v first
name_of-get k (suc i) (u ∷ vs) v (e, h) g =
    let (found, value) = name_of-get (suc k) i vs v h g in
    let at_i : suc k + i ≡ k + suc i = omega arith in
    let moved : name_of (k + suc i) vs ≡ some v.name =
      subst (λ n. name_of n vs ≡ some v.name) at_i found in
    (ground arith, omega arith)

name_of-at :
    (i : ℕ) (vs : List EnumValue) (v : EnumValue)
    → Numbered 0 vs
    → get_elem? vs i ≡ some v
    → (name_of i vs ≡ some v.name) × (v.value ≡ i)
name_of-at i vs v h g =
    let at_i : 0 + i ≡ i = omega arith in
    subst (λ n. (name_of n vs ≡ some v.name) × (v.value ≡ n)) at_i (name_of-get 0 i vs v h g)

is_valid-lt :
    (n : ℕ) (vs : List EnumValue) → Numbered 0 vs → (is_valid (pos n) vs ≡ true) ↔ (n < length vs)
unfolding is_valid
is_valid-lt n vs h = (
  λ e. elim (Bool-cases (ltb n (length vs))) [
    | inl below ↦ ground arith
    | inr above ↦ let out = name_of-outside n 0 vs h (inr (ground arith)) in absurd (ground arith)
  ],
  λ lt.
      let (v, g) = get_elem?-some vs n lt in
      let (named, value) = name_of-at n vs v h g in rw (is_valid, named) refl,
)

-- In the class of a well-formed enum, the value at index `i` has the name that the specification gives
-- it, that name is in the class and looks up `i`, and the valid integers are those from 0 below the
-- number of values.
pub enum_class_lem :
    (vs : List EnumValue) (bytes : ℕ)
    → IsEnum vs bytes
    → ((i : ℕ) (v : EnumValue)
        → get_elem? vs i ≡ some v
        → (enum_name (pos i) vs ≡ v.name)
          × (contains_name v.name vs ≡ true)
          × (value_of v.name vs ≡ some i))
      × ((n : ℕ) → (is_valid (pos n) vs ≡ true) ↔ (n < length vs))
      × ((n : ℕ) → is_valid (negsuc n) vs ≡ false)
unfolding enum_name is_valid contains_name
enum_class_lem vs bytes h = (
  λ i v g.
      let (named, value) = name_of-at i vs v h.numbered g in
      let looked = value_of-get vs i v h.distinct g in
      (rw (enum_name, named) refl, rw (contains_name, looked) refl, looked ∙ ap some value),
  λ n. is_valid-lt n vs h.numbered,
  λ n. refl,
)
