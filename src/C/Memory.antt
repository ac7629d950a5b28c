-- ===== src/C/Memory.antt =====
-- C objects and byte buffers. A `word` is the bit pattern of a scalar; a struct's members are found
-- by their names.
use stuff_sack.Prelude.{
  ℕ, zero, suc, ◌+◌, ◌-◌, ◌*◌, ◌%◌, ◌^◌, ◌≡◌, ◌<◌, arith, refl, List, [], ◌∷◌, Option, none, some,
  ltb, leb, ◌==◌, if◌then◌else◌,
}
use stuff_sack.Prelude.Text.{Text, same}
use stuff_sack.C.Syntax.{Offset, at, scaled}

mutual
  pub data Value : Type 0 where
    word : ℕ → Value
    items : Values → Value
    block : Members → Value

  pub data Values : Type 0 where
    stop : Values
    more : Value → Values → Values

  pub data Members : Type 0 where
    last : Members
    member : Text → Value → Members → Members

infixl 5 ◌>>=◌
abbrev pub ◌>>=◌ {ℓ κ} : {A : Type ℓ} {B : Type κ} → Option A → (A → Option B) → Option B
none >>= f = none
some a >>= f = f a

pub >>=-eq-some {ℓ κ} :
    {A : Type ℓ} {B : Type κ} (m : Option A) (f : A → Option B) {b : B}
    → (m >>= f) ≡ some b
    → (a : A) × (m ≡ some a) × (f a ≡ some b)
>>=-eq-some (some a) f h = (a, refl, h)
>>=-eq-some none f h = cc

unfoldable pub get_member : Text → Members → Option Value
get_member s last = none
get_member s (member n v ms) = if same n s then some v else get_member s ms

-- Assignment to a member
unfoldable pub set_member : Text → Value → Members → Members
set_member s w last = last
set_member s w (member n v ms) = if same n s then member n w ms else member n v (set_member s w ms)

unfoldable pub get_index : ℕ → Values → Option Value
get_index i stop = none
get_index zero (more v vs) = some v
get_index (suc i) (more v vs) = get_index i vs

unfoldable pub count : Values → ℕ
count stop = 0
count (more v vs) = suc (count vs)

pub get_index-lt : (i : ℕ) (vs : Values) {v : Value} → get_index i vs ≡ some v → i < count vs
unfolding get_index count
get_index-lt i stop h = absurd (ground arith)
get_index-lt zero (more v vs) h = omega arith
get_index-lt (suc i) (more v vs) h = omega (arith, get_index-lt i vs h)

-- The iteration variables in scope, the innermost first
abbrev pub Vars : Type 0
Vars = List (ℕ × ℕ)

unfoldable pub get_var : ℕ → Vars → Option ℕ
get_var i [] = none
get_var i ((j, n) ∷ vars) = if j == i then some n else get_var i vars

-- `v[i][j]`
unfoldable pub index_all : Vars → List ℕ → Value → Option Value
unfolding get_var get_index
index_all vars [] v = some v
index_all vars (i ∷ is) (items vs) = do k ← get_var i vars; w ← get_index k vs; index_all vars is w
index_all vars (i ∷ is) _ = none

-- The value of an `int` expression that is not negative; an overflow is a fault. So is a larger
-- constant, to which C gives a wider type.
unfoldable pub int_value : ℕ → Option ℕ
int_value n = if ltb n (2 ^ 31) then some n else none

pub int_value-lt : (n : ℕ) → n < 2 ^ 31 → int_value n ≡ some n
unfolding int_value
int_value-lt n h = ground arith

unfoldable pub eval_offset : Vars → Offset → Option ℕ
unfolding get_var int_value
eval_offset vars (at n) = some n
eval_offset vars (scaled i size o) = do
  k ← get_var i vars
  n ← eval_offset vars o
  int_value (k * size + n)

-- `buffer[i] = b`; a store behind the end of the buffer is a fault.
unfoldable pub store : ℕ → ℕ → List ℕ → Option (List ℕ)
store i b [] = none
store zero b (x ∷ xs) = some (b ∷ xs)
store (suc i) b (x ∷ xs) = do xs' ← store i b xs; some (x ∷ xs')

-- The conversion of a signed integer of `from` bits to one of `to` bits, on bit patterns
unfoldable pub convert : ℕ → ℕ → ℕ → ℕ
convert from to w =
    if leb to from
    then w % 2 ^ to
    else if ltb w (2 ^ (from - 1))
    then w
    else w + (2 ^ to - 2 ^ from)
