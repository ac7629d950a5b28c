-- ===== src/C/Run/Bytes.antt =====
-- Stores into a buffer, and the bytes that `primitive_pack` stores.
use mathlib.Core.List.{append_assoc}
use native.Mathlib.Nat.{div-div-eq-div-mul}
use native.Mathlib.Numerals.{towards_suc}
use mathlib.Core.Path.{ap₂}
use stuff_sack.Prelude.{
  ℕ, zero, suc, ◌+◌, ◌-◌, ◌*◌, ◌/◌, ◌%◌, ◌^◌, ◌≡◌, refl, ap, sym, ◌∙◌, List, [], ◌∷◌, ◌++◌, some,
  arith, length, length-snoc,
}
use stuff_sack.C.Memory.{store}
use stuff_sack.C.Generate.{shifts_from, shifts}
use stuff_sack.C.Run.{store_bytes}
use stuff_sack.C.Run.Spec.{big_endian}

store-append :
    (b x : ℕ) (pre post : List ℕ) → store (length pre) b (pre ++ x ∷ post) ≡ some (pre ++ b ∷ post)
unfolding store
store-append b x [] post = refl
store-append b x (y ∷ pre) post = rw (store-append b x pre post)

-- The last `n` digits, by the shifts that select them.
abbrev pub shifted : ℕ → ℕ → List ℕ
shifted zero w = []
shifted (suc n) w = w / 2 ^ (n * 8) % 256 ∷ shifted n w

pub two-pow-bytes : (n : ℕ) → 2 ^ (suc n * 8) ≡ 256 * 2 ^ (n * 8)
two-pow-bytes n = ap (λ (k : ℕ). 2 ^ k) (next n) ∙ eight (n * 8)
  where
    next : (n : ℕ) → suc n * 8 ≡ n * 8 + 8
    next n = omega arith

    eight : (s : ℕ) → 2 ^ (s + 8) ≡ 256 * 2 ^ s
    eight s = simp towards_suc (omega arith)

shifted-suc : (n w : ℕ) → shifted (suc n) w ≡ shifted n (w / 256) ++ w % 256 ∷ []
shifted-suc zero w = ground arith
shifted-suc (suc n) w =
    let top : w / 2 ^ (suc n * 8) ≡ w / 256 / 2 ^ (n * 8) =
      ap (λ (k : ℕ). w / k) (two-pow-bytes n) ∙ sym (div-div-eq-div-mul w 256 (2 ^ (n * 8))) in
    ap₂ (λ (d : ℕ) ds. d % 256 ∷ ds) top (shifted-suc n w)

pub big_endian-eq-shifted : (n w : ℕ) → big_endian n w ≡ shifted n w
unfolding big_endian
big_endian-eq-shifted zero w = refl
big_endian-eq-shifted (suc n) w = rw (big_endian-eq-shifted n (w / 256)) (sym (shifted-suc n w))

store_bytes-shifted :
    (w bytes i n : ℕ) (pre old post : List ℕ)
    → i + n ≡ bytes
    → length old ≡ n
    → store_bytes w (length pre) (shifts_from bytes i n) (pre ++ (old ++ post))
      ≡ some (pre ++ (shifted n w ++ post))
unfolding store_bytes shifts_from
store_bytes-shifted w bytes i zero pre [] post e h = refl
store_bytes-shifted w bytes i zero pre (x ∷ old) post e h = absurd (omega arith)
store_bytes-shifted w bytes i (suc n) pre [] post e h = absurd (omega arith)
store_bytes-shifted w bytes i (suc n) pre (x ∷ old) post e h =
    let d = w / 2 ^ (n * 8) % 256 in
    let shift : (bytes - i - 1) * 8 ≡ n * 8 = omega arith in
    let rest =
      store_bytes-shifted w bytes (i + 1) n (pre ++ d ∷ []) old post (omega arith) (omega arith) in
    rw (shift, store-append d x pre (old ++ post)) (simp (length-snoc, append_assoc) at rest)

-- The stores of `primitive_pack`, at a place with room for them, replace the `bytes` bytes there by
-- the big-endian digits of the value and leave the bytes around them.
pub store_bytes-big_endian :
    (w bytes : ℕ) (pre old post : List ℕ)
    → length old ≡ bytes
    → store_bytes w (length pre) (shifts bytes) (pre ++ (old ++ post))
      ≡ some (pre ++ (big_endian bytes w ++ post))
unfolding shifts
store_bytes-big_endian w bytes pre old post h =
    rw big_endian-eq-shifted (store_bytes-shifted w bytes 0 bytes pre old post (omega arith) h)

pub length-big_endian : (n w : ℕ) → length (big_endian n w) ≡ n
unfolding big_endian
length-big_endian zero w = refl
length-big_endian (suc n) w = rw length-snoc (ap suc (length-big_endian n (w / 256)))
