-- ===== src/C/Unpack/Loads.antt =====
-- `primitive_unpack` reads the bytes that `primitive_pack` stores.
use Prim.Native.Nat.{max, bit_or, bit_or-bitwise, digits}
use native.Mathlib.Nat.{
  pow-suc, div-div-eq-div-mul, mul_left_comm, mul_comm, mod-eq_of_lt, div-mul-le_self, mul_assoc,
  add-mul, div-add-mod', mul-le-mul_right, one-le-pow, div-eq_of_lt,
}
use mathlib.Core.Path.{ap₂, subst}
use mathlib.Core.List.{append_assoc}
use stuff_sack.Prelude.{
  ℕ, zero, suc, ◌+◌, ◌-◌, ◌*◌, ◌/◌, ◌%◌, ◌^◌, ◌≡◌, ◌<◌, ◌≤◌, refl, ap, sym, ◌∙◌, List, [], ◌∷◌,
  ◌++◌, some, arith, length, length-snoc, get_elem?,
}
use stuff_sack.C.Memory.{◌>>=◌}
use stuff_sack.C.Generate.{shifts, shifts_from}
use stuff_sack.C.Run.Spec.{big_endian}
use stuff_sack.C.Run.Bytes.{shifted, two-pow-bytes, big_endian-eq-shifted, store_bytes-big_endian}
use stuff_sack.C.Run.{store_bytes}
use stuff_sack.C.Unpack.Run.{load_bytes}

or_digits_zero : (f a : ℕ) → a ≤ f → digits (λ b. b) max f a 0 ≡ a
or_digits_zero zero a h = omega arith
or_digits_zero (suc f) zero h = refl
or_digits_zero (suc f) (suc a) h = omega (arith, or_digits_zero f (suc a / 2) (omega arith))

double : (k x : ℕ) → x * 2 ^ suc k ≡ 2 * (x * 2 ^ k)
double k x =
    ap (λ p. x * p) (pow-suc 2 k) ∙ omega (arith, mul_left_comm x 2 (2 ^ k), mul_comm (2 ^ k) 2)

or_digits_disjoint :
    (f k x y a : ℕ) → a ≡ x * 2 ^ k → a ≤ f → y < 2 ^ k → digits (λ b. b) max f a y ≡ a + y
or_digits_disjoint zero k x y a e h l = omega arith
or_digits_disjoint (suc f) k x y zero e h l = omega arith
or_digits_disjoint (suc f) zero x zero (suc a) e h l =
    omega (arith, or_digits_zero (suc f) (suc a) h)
or_digits_disjoint (suc f) zero x (suc y) (suc a) e h l = absurd (omega arith)
or_digits_disjoint (suc f) (suc k) x y (suc a) e h l =
    let twice = double k x in
    let half = pow-suc 2 k in
    omega (
      arith,
      or_digits_disjoint f k x (y / 2) (suc a / 2) (omega arith) (omega arith) (omega arith),
    )

-- `a | b` is `a + b` when the low `k` bits of `a` are clear and `b` has no others.
pub bit_or_disjoint : (k x y : ℕ) → y < 2 ^ k → bit_or (x * 2 ^ k) y ≡ x * 2 ^ k + y
bit_or_disjoint k x y l =
    bit_or-bitwise (x * 2 ^ k) y
    ∙ or_digits_disjoint (x * 2 ^ k) k x y (x * 2 ^ k) refl (omega arith) l

get_elem?-append : (pre post : List ℕ) (x : ℕ) → get_elem? (pre ++ x ∷ post) (length pre) ≡ some x
get_elem?-append [] post x = refl
get_elem?-append (y ∷ pre) post x = get_elem?-append pre post x

-- What is in the word when the bytes that are shifted by `n * 8` and less are missing.
abbrev cleared : ℕ → ℕ → ℕ
cleared n w = w / 2 ^ (n * 8) * 2 ^ (n * 8)

recombine : (q p : ℕ) → q / 256 * (256 * p) + q % 256 * p ≡ q * p
recombine q p =
    ap (λ a. a + q % 256 * p) (sym (mul_assoc (q / 256) 256 p))
    ∙ sym (add-mul (q / 256 * 256) (q % 256) p)
    ∙ ap (λ a. a * p) (div-add-mod' q 256)

digit-lt : (d p : ℕ) → d < 256 → 1 ≤ p → d * p < 256 * p
digit-lt d p h one = omega (arith, mul-le-mul_right p h, add-mul 1 d p)

cleared-or :
    (n w : ℕ) → bit_or (cleared (suc n) w) (w / 2 ^ (n * 8) % 256 * 2 ^ (n * 8)) ≡ cleared n w
cleared-or n w =
    let p = 2 ^ (n * 8) in
    let top : 2 ^ (suc n * 8) ≡ 256 * p = two-pow-bytes n in
    let d = w / p % 256 in
    let high : w / 2 ^ (suc n * 8) ≡ w / p / 256 =
      ap (λ k. w / k) (top ∙ mul_comm 256 p) ∙ sym (div-div-eq-div-mul w p 256) in
    let small : d * p < 2 ^ (suc n * 8) =
      omega (arith, digit-lt d p (omega arith) (one-le-pow (n * 8) 2 (omega arith))) in
    bit_or_disjoint (suc n * 8) (w / 2 ^ (suc n * 8)) (d * p) small
    ∙ ap (λ a. a + d * p) (ap₂ (λ (a b : ℕ). a * b) high top)
    ∙ recombine (w / p) p

cleared-mod : (n w k : ℕ) → w < k → cleared n w % k ≡ cleared n w
cleared-mod n w k h = mod-eq_of_lt (omega (arith, div-mul-le_self w (2 ^ (n * 8))))

load_bytes-shifted :
    (w bytes i n : ℕ) (pre post : List ℕ)
    → i + n ≡ bytes
    → w < 2 ^ (bytes * 8)
    → load_bytes
        (bytes * 8)
        (pre ++ (shifted n w ++ post))
        (length pre)
        (shifts_from bytes i n)
        (cleared n w)
      ≡ some w
unfolding load_bytes shifts_from
load_bytes-shifted w bytes i zero pre post e h = ap some (omega arith)
load_bytes-shifted w bytes i (suc n) pre post e h =
    let d = w / 2 ^ (n * 8) % 256 in
    let shift : (bytes - i - 1) * 8 ≡ n * 8 = omega arith in
    let rest = load_bytes-shifted w bytes (i + 1) n (pre ++ d ∷ []) post (omega arith) h in
    rw (shift, get_elem?-append pre (shifted n w ++ post) d, cleared-or n w, cleared-mod n w _ h)
      (simp (length-snoc, append_assoc) at rest)

pow-bytes : (n : ℕ) → 256 ^ n ≡ 2 ^ (n * 8)
pow-bytes zero = refl
pow-bytes (suc n) = omega (arith, pow-suc 256 n, two-pow-bytes n, pow-bytes n)

-- The bytes of a number that fits, in big-endian order at any place of the buffer, are loaded as the
-- number.
pub load_bytes-big_endian :
    (w bytes : ℕ) (pre post : List ℕ)
    → w < 256 ^ bytes
    → load_bytes (bytes * 8) (pre ++ (big_endian bytes w ++ post)) (length pre) (shifts bytes) 0
      ≡ some w
unfolding shifts
load_bytes-big_endian w bytes pre post h =
    let lt : w < 2 ^ (bytes * 8) = omega (arith, pow-bytes bytes) in
    let none_yet : cleared bytes w ≡ 0 =
      ap (λ q. q * 2 ^ (bytes * 8)) (div-eq_of_lt lt) ∙ omega arith in
    rw (big_endian-eq-shifted bytes w) (
      subst
        (λ raw.
          load_bytes (bytes * 8) (pre ++ (shifted bytes w ++ post)) (length pre)
            (shifts_from bytes 0 bytes) raw
          ≡ some w)
        none_yet (load_bytes-shifted w bytes 0 bytes pre post (omega arith) lt))

-- What `primitive_pack` stores of a number that fits its bytes, with room for them at the place,
-- `primitive_unpack` loads as the same number.
pub primitive_round_trip :
    (w bytes : ℕ) (pre old post : List ℕ)
    → length old ≡ bytes
    → w < 256 ^ bytes
    → (store_bytes w (length pre) (shifts bytes) (pre ++ (old ++ post)) >>= λ buf.
        load_bytes (bytes * 8) buf (length pre) (shifts bytes) 0)
      ≡ some w
primitive_round_trip w bytes pre old post h lt =
    rw (store_bytes-big_endian w bytes pre old post h) (load_bytes-big_endian w bytes pre post lt)
