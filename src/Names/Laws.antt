-- ===== src/Names/Laws.antt =====
-- What the name conversions of src/utils.py do to a name in CamelCase, in ASCII.
use mathlib.Core.List.{append-nil}
use stuff_sack.Prelude.{
  ℕ, ◌≡◌, ◌≢◌, ◌<◌, refl, ap, ◌∙◌, true, false, List, [], ◌∷◌, ◌++◌, arith, All, map,
}
use stuff_sack.Prelude.Text.{Text}
use stuff_sack.Names.{
  is_upper, is_lower, to_lower, to_upper, lstrip, snake, camel_to_snake, split, capitalise, join,
  snake_to_camel,
}

-- Words of two letters or more: the first letter, the second, and the others
abbrev pub Words : Type 0
Words = List (ℕ × ℕ × Text)

-- An ASCII character that is no capital letter and no underscore
abbrev pub IsPlain : ℕ → Type 0
IsPlain c = (is_upper c ≡ false) × (c ≢ b'_') × (c < 128)

-- Each word begins with a capital letter, and has no other.
abbrev pub AreCapitalised : Words → Type 0
AreCapitalised ws = All (λ w. (is_upper w.0 ≡ true) × IsPlain w.1 × All IsPlain w.2) ws

-- The words one after the other, as in `TwoWords`
abbrev pub camel_case : Words → Text
camel_case [] = []
camel_case ((c, d, s) ∷ ws) = c ∷ d ∷ (s ++ camel_case ws)

-- The words in small letters, each behind an underscore
abbrev pub underscored : Words → Text
underscored [] = []
underscored ((c, d, s) ∷ ws) = b'_' ∷ to_lower c ∷ d ∷ (s ++ underscored ws)

-- The words in small letters with underscores between them, as in `two_words`
abbrev pub snake_case : Words → Text
snake_case [] = []
snake_case ((c, d, s) ∷ ws) = to_lower c ∷ d ∷ (s ++ underscored ws)

snake-plain : (s t : Text) → All IsPlain s → snake (s ++ t) ≡ s ++ snake t
unfolding snake
snake-plain [] t h = refl
snake-plain (c ∷ s) t (h, hs) = ground (arith, snake-plain s t hs)

snake-camel_case : (ws : Words) → AreCapitalised ws → snake (camel_case ws) ≡ underscored ws
unfolding snake
snake-camel_case [] h = refl
snake-camel_case ((c, d, s) ∷ ws) ((upper, second, plain), hs) =
    rw (upper, second.0, snake-plain s (camel_case ws) plain, snake-camel_case ws hs) refl

lstrip-underscored : (ws : Words) → AreCapitalised ws → lstrip (underscored ws) ≡ snake_case ws
unfolding lstrip to_lower is_upper
lstrip-underscored [] h = refl
lstrip-underscored ((c, d, s) ∷ ws) ((upper, second, plain), hs) = ground arith

-- `camel_to_snake` puts the words of a name in CamelCase, of two ASCII characters or more each, into
-- small letters with underscores between them.
pub camel_to_snake_lem :
    (ws : Words) → AreCapitalised ws → camel_to_snake (camel_case ws) ≡ snake_case ws
unfolding camel_to_snake
camel_to_snake_lem ws h = ap lstrip (snake-camel_case ws h) ∙ lstrip-underscored ws h

split-plain : (s t : Text) → All IsPlain s → split (s ++ t) ≡ (s ++ (split t).0, (split t).1)
unfolding split
split-plain [] t h = refl
split-plain (c ∷ s) t (h, hs) = ground (arith, split-plain s t hs)

abbrev parts : Words → List Text
parts = map (λ w. to_lower w.0 ∷ w.1 ∷ w.2)

lower-IsPlain : (c : ℕ) → is_upper c ≡ true → IsPlain (to_lower c)
unfolding to_lower is_upper
lower-IsPlain c h = (ground arith, ground arith, ground arith)

split-word :
    (c d : ℕ) (s : Text) (ws : Words)
    → (is_upper c ≡ true) × IsPlain d × All IsPlain s
    → split (underscored ws) ≡ ([], parts ws)
    → split (to_lower c ∷ d ∷ (s ++ underscored ws)) ≡ (to_lower c ∷ d ∷ s, parts ws)
split-word c d s ws (upper, second, plain) rest =
    split-plain (to_lower c ∷ d ∷ s) (underscored ws) (lower-IsPlain c upper, (second, plain))
    ∙ rw rest (ap (λ t. (to_lower c ∷ d ∷ t, parts ws)) (append-nil s))

split-underscored : (ws : Words) → AreCapitalised ws → split (underscored ws) ≡ ([], parts ws)
unfolding split
split-underscored [] h = refl
split-underscored ((c, d, s) ∷ ws) (h, hs) =
    rw (split-word c d s ws h (split-underscored ws hs)) refl

upper-lower : (c : ℕ) → is_upper c ≡ true → to_upper (to_lower c) ≡ c
unfolding to_upper to_lower is_upper is_lower
upper-lower c h = ground arith

join-parts : (ws : Words) → AreCapitalised ws → join (map capitalise (parts ws)) ≡ camel_case ws
unfolding join capitalise
join-parts [] h = refl
join-parts ((c, d, s) ∷ ws) ((upper, second, plain), hs) =
    rw (upper-lower c upper, join-parts ws hs) refl

snake_to_camel-snake_case :
    (ws : Words) → AreCapitalised ws → snake_to_camel (snake_case ws) ≡ camel_case ws
unfolding snake_to_camel split join capitalise
snake_to_camel-snake_case [] h = refl
snake_to_camel-snake_case ((c, d, s) ∷ ws) (h, hs) =
    rw (split-word c d s ws h (split-underscored ws hs)) (join-parts ((c, d, s) ∷ ws) (h, hs))

-- A name in CamelCase whose words have two ASCII characters or more comes back from `snake_to_camel`
-- of what `camel_to_snake` returns for it.
pub snake_to_camel-camel_to_snake :
    (ws : Words)
    → AreCapitalised ws
    → snake_to_camel (camel_to_snake (camel_case ws)) ≡ camel_case ws
snake_to_camel-camel_to_snake ws h =
    ap snake_to_camel (camel_to_snake_lem ws h) ∙ snake_to_camel-snake_case ws h
