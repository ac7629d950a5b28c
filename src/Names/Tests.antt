-- ===== src/Names/Tests.antt =====
-- Conversions of some names.
use stuff_sack.Prelude.{◌≡◌, refl, arith, [], ◌∷◌}
use stuff_sack.Prelude.Text.{codes}
use stuff_sack.Names.{
  to_lower, is_upper, snake, lstrip, camel_to_snake, is_lower, to_upper, split, capitalise, join,
  snake_to_camel,
}
use stuff_sack.Names.Laws.{
  Words, AreCapitalised, snake_case, camel_to_snake_lem, snake_to_camel-camel_to_snake,
}

camel_to_snake-test : camel_to_snake (codes "SsHeader2D") ≡ codes "ss_header2_d"
unfolding camel_to_snake snake lstrip to_lower is_upper
camel_to_snake-test = refl

snake_to_camel-test : snake_to_camel (codes "ss_x_header") ≡ codes "SsxHeader"
unfolding snake_to_camel split capitalise join to_upper is_lower
snake_to_camel-test = refl

-- `SsHeader`
abbrev words : Words
words = (b'S', b's', []) ∷ (b'H', b'e', codes "ader") ∷ []

words-AreCapitalised : AreCapitalised words
unfolding is_upper
words-AreCapitalised = (
  (refl, (refl, omega arith, omega arith), tt),
  (
    (
      refl,
      (refl, omega arith, omega arith),
      (
        (refl, omega arith, omega arith),
        (
          (refl, omega arith, omega arith),
          ((refl, omega arith, omega arith), ((refl, omega arith, omega arith), tt)),
        ),
      ),
    ),
    tt,
  ),
)

camel_to_snake_lem_example : camel_to_snake (codes "SsHeader") ≡ snake_case words
camel_to_snake_lem_example = camel_to_snake_lem words words-AreCapitalised

snake_to_camel-camel_to_snake_example :
    snake_to_camel (camel_to_snake (codes "SsHeader")) ≡ codes "SsHeader"
snake_to_camel-camel_to_snake_example = snake_to_camel-camel_to_snake words words-AreCapitalised

-- A word of one letter loses its capital.
one_letter-test : snake_to_camel (camel_to_snake (codes "TwoD")) ≡ codes "Twod"
unfolding camel_to_snake snake lstrip to_lower is_upper snake_to_camel split capitalise join
    to_upper is_lower
one_letter-test = refl
