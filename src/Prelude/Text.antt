-- ===== src/Prelude/Text.antt =====
-- Text: a Python `str` is the list of its code points.
use Prim.Native.Nat.{ℕ}
use Prim.Native.Char.{code}
use Prim.Native.String.{String}
use mathlib.Core.Path.{◌≡◌, refl}
use mathlib.Core.Bool.{Bool, true, false, ◌&&◌, ◌||◌}
use mathlib.Core.List.{List, [], ◌∷◌, ◌++◌}
use native.Mathlib.Omega.{arith}
use stuff_sack.Prelude.Tests.{◌==◌}

abbrev pub Text : Type 0
Text = List ℕ

-- The code points of a literal.
abbrev pub codes : String → Text
codes String.[] = []
codes (String.◌∷◌ c s) = code c ∷ codes s

-- `==` on two strings.
unfoldable pub same : Text → Text → Bool
same [] [] = true
same [] (d ∷ t) = false
same (c ∷ s) [] = false
same (c ∷ s) (d ∷ t) = c == d && same s t

pub same_refl : (s : Text) → same s s ≡ true
unfolding same
same_refl [] = refl
same_refl (c ∷ s) = ground (arith, same_refl s)

pub same→eq : (s t : Text) → same s t ≡ true → s ≡ t
unfolding same
same→eq [] [] h = refl
same→eq [] (d ∷ t) h = ground arith
same→eq (c ∷ s) [] h = ground arith
same→eq (c ∷ s) (d ∷ t) h = ground (arith, same→eq s t)

-- `x in names`, for a list of strings.
unfoldable pub contains : List Text → Text → Bool
contains [] s = false
contains (t ∷ ts) s = same t s || contains ts s

-- No string of the list stands in it twice.
abbrev pub Distinct : List Text → Type 0
Distinct [] = Unit
Distinct (s ∷ ss) = (contains ss s ≡ false) × Distinct ss

pub contains-append :
    (ss ts : List Text) (s : Text) → contains (ss ++ ts) s ≡ (contains ss s || contains ts s)
unfolding contains
contains-append [] ts s = refl
contains-append (t ∷ ss) ts s = ground (arith, contains-append ss ts s)

pub same_sym : (s t : Text) → same s t ≡ same t s
unfolding same
same_sym [] [] = refl
same_sym [] (d ∷ t) = refl
same_sym (c ∷ s) [] = refl
same_sym (c ∷ s) (d ∷ t) = ground (arith, same_sym s t)

pub Distinct-snoc :
    (ss : List Text) (s : Text) → Distinct ss → contains ss s ≡ false → Distinct (ss ++ s ∷ [])
unfolding contains
Distinct-snoc [] s d h = (refl, tt)
Distinct-snoc (t ∷ ss) s (fresh, d) h = (
  ground (arith, contains-append ss (s ∷ []) t, same_sym s t),
  Distinct-snoc ss s d (ground arith),
)

pub snoc-Distinct :
    (ss : List Text) (s : Text) → Distinct (ss ++ s ∷ []) → Distinct ss × (contains ss s ≡ false)
unfolding contains
snoc-Distinct [] s d = (tt, refl)
snoc-Distinct (t ∷ ss) s (fresh, d) =
    let (rest, absent) = snoc-Distinct ss s d in
    (
      (ground (arith, contains-append ss (s ∷ []) t), rest),
      ground (arith, contains-append ss (s ∷ []) t, same_sym s t),
    )
