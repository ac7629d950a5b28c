-- ===== src/Spec/WellFormed/Lookup.antt =====
-- Lookups in a registry.
use stuff_sack.Prelude.{◌≡◌, refl, ◌⊎◌, true, false, [], ◌∷◌, ◌++◌, none, some, arith}
use stuff_sack.Prelude.Text.{Text, same, contains}
use stuff_sack.Errors.{ok}
use stuff_sack.Types.{SsType, root_name}
use stuff_sack.Spec.Build.{Registry, names, find, get_type}

pub find-name :
    (s : Text) (reg : Registry) (t : SsType) → find s reg ≡ some t → same (root_name t) s ≡ true
unfolding find
find-name s [] t h = ground arith
find-name s (u ∷ reg) t h = ground (arith, find-name s reg t)

pub find-eq_none : (s : Text) (reg : Registry) → contains (names reg) s ≡ false → find s reg ≡ none
unfolding find contains
find-eq_none s [] h = refl
find-eq_none s (u ∷ reg) h = ground (arith, find-eq_none s reg)

pub find-append_some :
    (s : Text) (reg more : Registry) (t : SsType)
    → find s reg ≡ some t
    → find s (reg ++ more) ≡ some t
unfolding find
find-append_some s [] more t h = ground arith
find-append_some s (u ∷ reg) more t h = ground (arith, find-append_some s reg more t)

-- A type found with `u` at the end of the registry is `u`, or is found without it.
pub find-snoc :
    (s : Text) (reg : Registry) (u t : SsType)
    → find s (reg ++ u ∷ []) ≡ some t
    → (find s reg ≡ some t) ⊎ (t ≡ u)
unfolding find
find-snoc s [] u t h = ground arith
find-snoc s (v ∷ reg) u t h = ground (arith, find-snoc s reg u t)

pub get_type-find :
    (s : Text) (reg : Registry) (t : SsType) → get_type s reg ≡ ok t → find s reg ≡ some t
unfolding get_type
get_type-find s reg t h = ground arith
