-- ===== src/Prelude/Lists.antt =====
-- Lists measured and indexed by native numbers, and predicates on lists by recursion.
use Prim.Native.Nat.{◌<◌, ℕ, zero, suc, ◌+◌}
use mathlib.Core.Path.{◌≡◌, refl, ap}
use mathlib.Core.List.{List, [], ◌∷◌, ◌++◌}
use mathlib.Core.Option.{Option, none, some}
use native.Mathlib.Omega.{arith}

module _ {ℓ} {A : Type ℓ} where
  abbrev pub length : List A → ℕ
  length [] = 0
  length (x ∷ xs) = suc (length xs)

  abbrev pub get_elem? : List A → ℕ → Option A
  get_elem? [] i = none
  get_elem? (x ∷ xs) zero = some x
  get_elem? (x ∷ xs) (suc i) = get_elem? xs i

  pub get_elem?-some : (xs : List A) (i : ℕ) → i < length xs → (x : A) × (get_elem? xs i ≡ some x)
  get_elem?-some [] i h = absurd (omega arith)
  get_elem?-some (x ∷ xs) zero h = (x, refl)
  get_elem?-some (x ∷ xs) (suc i) h = get_elem?-some xs i (omega arith)

  abbrev pub take : ℕ → List A → List A
  take zero xs = []
  take (suc n) [] = []
  take (suc n) (x ∷ xs) = x ∷ take n xs

  abbrev pub drop : ℕ → List A → List A
  drop zero xs = xs
  drop (suc n) [] = []
  drop (suc n) (x ∷ xs) = drop n xs

  pub take-append-drop : (n : ℕ) (xs : List A) → take n xs ++ drop n xs ≡ xs
  take-append-drop zero xs = refl
  take-append-drop (suc n) [] = refl
  take-append-drop (suc n) (x ∷ xs) = ap (λ ys. x ∷ ys) (take-append-drop n xs)

  pub take-get_elem? :
      (n : ℕ) (xs : List A) {x : A}
      → get_elem? xs n ≡ some x
      → take (suc n) xs ≡ take n xs ++ x ∷ []
  take-get_elem? n [] h = absurd (ground arith)
  take-get_elem? zero (y ∷ xs) h = ground arith
  take-get_elem? (suc n) (y ∷ xs) h = ap (λ ys. y ∷ ys) (take-get_elem? n xs h)

  pub length-append : (xs ys : List A) → length (xs ++ ys) ≡ length xs + length ys
  length-append [] ys = omega arith
  length-append (x ∷ xs) ys = omega (arith, length-append xs ys)

  pub length-snoc : (xs : List A) (x : A) → length (xs ++ x ∷ []) ≡ suc (length xs)
  length-snoc xs x = omega (arith, length-append xs (x ∷ []))

  -- Every element satisfies the predicate.
  abbrev pub All {κ} : (A → Type κ) → List A → Type κ
  All P [] = Unit
  All P (x ∷ xs) = P x × All P xs

  pub All-append {κ} : (P : A → Type κ) (xs ys : List A) → All P xs → All P ys → All P (xs ++ ys)
  All-append P [] ys h k = k
  All-append P (x ∷ xs) ys (h, hs) k = (h, All-append P xs ys hs k)

-- A list of `n + m` elements is `n` elements before `m`.
pub record Split {ℓ} {A : Type ℓ} (n m : ℕ) (xs : List A) : Type ℓ where
  pub front : List A
  pub back : List A
  pub whole : xs ≡ front ++ back
  pub length_front : length front ≡ n
  pub length_back : length back ≡ m

pub cut {ℓ} : {A : Type ℓ} (n m : ℕ) (xs : List A) → length xs ≡ n + m → Split n m xs
cut zero m xs h = record {
  front = [];
  back = xs;
  whole = refl;
  length_front = refl;
  length_back = omega arith;
}
cut (suc n) m [] h = absurd (omega arith)
cut (suc n) m (x ∷ xs) h =
    let rest = cut n m xs (omega arith) in
    record {
      front = x ∷ rest.front;
      back = rest.back;
      whole = ap (λ ys. x ∷ ys) rest.whole;
      length_front = omega (arith, rest.length_front);
      length_back = rest.length_back;
    }
