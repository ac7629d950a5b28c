-- ===== src/C/Log/Found.antt =====
-- `SsFindLogDelimiter` on a file in memory finds the first delimiter.
use stuff_sack.Prelude.{
  ℕ, zero, suc, ◌+◌, ◌≡◌, ◌<◌, ◌≤◌, ◌⊎◌, refl, ap, sym, ◌∙◌, true, false, List, [], ◌∷◌, ◌++◌,
  Option, some, inl, inr, arith, length, length-append, take, drop, take-append-drop, Bool-cases,
  ◌==◌, ltb, ◌^◌,
}
use stuff_sack.C.Log.{
  delimiter, delim_len, Scan, found, going, scan, Outcome, place, missing, overflowed, find_loop,
  find_log_delimiter,
}
use stuff_sack.C.Log.Scans.{
  Occurs, scan-Occurs, Bounded, scan-Bounded, continue, scan-append, scan-delimiter,
}

-- A file in memory: at most as many bytes as are asked for, from its front.
abbrev pub read_bytes : ℕ → List ℕ → Option (List ℕ × List ℕ)
read_bytes n bytes = some (take n bytes, drop n bytes)

abbrev outcome : Scan → Outcome
outcome (found n) = place n
outcome (going k i) = missing

take-cases :
    (n : ℕ) (bytes : List ℕ)
    → ((length (take n bytes) ≡ n) × (length (drop n bytes) + n ≡ length bytes))
      ⊎ ((drop n bytes ≡ []) × (length (take n bytes) < n))
take-cases zero bytes = inl (refl, omega arith)
take-cases (suc n) [] = inr (refl, omega arith)
take-cases (suc n) (b ∷ bytes) = elim (take-cases n bytes) [
  | inl (full, rest) ↦ inl (omega arith, omega arith)
  | inr (ended, short) ↦ inr (ended, omega arith)
]

-- A round of the outer loop, after the inner loop has left `r` from `n` bytes
round :
    (n : ℕ) (next : ℕ → ℕ → Option Outcome) (r : Scan) (rest : List ℕ)
    → ((n == 72) ≡ true → (k i : ℕ) → r ≡ going k i → next k i ≡ some (outcome (scan k i rest)))
    → ((n == 72) ≡ false → rest ≡ [])
    → (l : ℕ) → Bounded l r
    → l < 2 ^ 31
    → elim r as (λ _. Option Outcome) [
      | found m ↦ elim (ltb m (2 ^ 31)) as (λ _. Option Outcome) [
        | true ↦ some (place m)
        | false ↦ some overflowed
      ]
      | going k i ↦ elim (ltb k (2 ^ 31)) as (λ _. Option Outcome) [
        | true ↦ elim (n == 72) as (λ _. Option Outcome) [ true ↦ next k i | false ↦ some missing ]
        | false ↦ some overflowed
      ]
    ]
      ≡ some (outcome (continue r rest))
unfolding scan
round n next (found m) rest full short l le lt =
    let small : ltb m (2 ^ 31) ≡ true = ground arith in rw small refl
round n next (going k i) rest full short l (e, inside) lt =
    let small : ltb k (2 ^ 31) ≡ true = ground arith in
    elim (Bool-cases (n == 72)) [
      | inl all ↦ rw (small, all) (full all k i refl)
      | inr few ↦ rw (small, few, short few) refl
    ]

Bounded-going : (l k i : ℕ) (r : Scan) → Bounded l r → r ≡ going k i → (k ≡ l) × (i < delim_len)
Bounded-going l k i (found n) h e = absurd (ground arith)
Bounded-going l k i (going m j) (at_m, lt) e = (ground arith, ground arith)

length-parts :
    (n : ℕ) (bytes : List ℕ) → length (take n bytes) + length (drop n bytes) ≡ length bytes
length-parts n bytes =
    sym (length-append (take n bytes) (drop n bytes)) ∙ ap length (take-append-drop n bytes)

is_full : (n : ℕ) → (n == 72) ≡ true → n ≡ 72
is_full n h = ground arith

drop-short : (bytes : List ℕ) → (length (take 72 bytes) == 72) ≡ false → drop 72 bytes ≡ []
drop-short bytes h = let sizes = take-cases 72 bytes in ground arith

find_loop-scan :
    (fuel k i : ℕ) (bytes : List ℕ)
    → length bytes < fuel
    → i < delim_len
    → k + length bytes < 2 ^ 31
    → find_loop read_bytes fuel k i bytes ≡ some (outcome (scan k i bytes))
unfolding find_loop
find_loop-scan zero k i bytes h inside top = absurd (omega arith)
find_loop-scan (suc fuel) k i bytes h inside top =
    let front = take 72 bytes in
    let rest = drop 72 bytes in
    let bounded = scan-Bounded k i front inside in
    let parts = length-parts 72 bytes in
    round (length front) (λ k i. find_loop read_bytes fuel k i rest) (scan k i front) rest
      (λ all m j e.
        let (at_m, lt) = Bounded-going (k + length front) m j (scan k i front) bounded e in
        let all_read = is_full (length front) all in
        find_loop-scan fuel m j rest (omega arith) lt (omega arith))
      (drop-short bytes) (k + length front) bounded (omega arith)
    ∙ ap (λ r. some (outcome r))
        (sym (scan-append k i front rest) ∙ ap (scan k i) (take-append-drop 72 bytes))

continue-delimiter :
    (k : ℕ) (r : Scan) (behind : List ℕ)
    → Bounded k r
    → (n : ℕ) × (continue r (delimiter ++ behind) ≡ found n) × (n ≤ k + delim_len)
continue-delimiter k (found n) behind h = (n, refl, omega arith)
continue-delimiter k (going m i) behind (e, lt) =
    (m + delim_len, scan-delimiter m i behind, omega arith)

scan-first :
    (front behind : List ℕ)
    → (n : ℕ) × (scan 0 0 (front ++ (delimiter ++ behind)) ≡ found n)
      × (n ≤ length front + delim_len)
scan-first front behind =
    let bounded = scan-Bounded 0 0 front (omega arith) in
    let (n, e, le) = continue-delimiter (0 + length front) (scan 0 0 front) behind bounded in
    (n, scan-append 0 0 front (delimiter ++ behind) ∙ e, omega arith)

outcome-place : (r : Scan) (n : ℕ) → outcome r ≡ place n → r ≡ found n
outcome-place (found m) n h = cc
outcome-place (going k i) n h = cc

-- With fuel for every byte, `SsFindLogDelimiter` returns on any file in memory that is shorter than
-- 2^31 bytes. A place that it returns is behind a delimiter, and when there is a delimiter in the file it returns a place, which
-- is not behind that delimiter's end.
pub find_log_delimiter-first :
    (bytes : List ℕ)
    → length bytes < 2 ^ 31
    → (r : Outcome) × (find_log_delimiter read_bytes (suc (length bytes)) bytes ≡ some r)
      × ((n : ℕ) → r ≡ place n → Occurs bytes n)
      × ((front behind : List ℕ)
          → bytes ≡ front ++ (delimiter ++ behind)
          → (n : ℕ) × (r ≡ place n) × (n ≤ length front + delim_len))
unfolding find_log_delimiter
find_log_delimiter-first bytes short = (
  outcome (scan 0 0 bytes),
  find_loop-scan (suc (length bytes)) 0 0 bytes (omega arith) (omega arith) (omega arith),
  λ n e. scan-Occurs 0 0 [] bytes n (omega arith) refl (outcome-place (scan 0 0 bytes) n e),
  λ front behind e.
      let (n, hit, le) = scan-first front behind in
      (n, ap (λ file. outcome (scan 0 0 file)) e ∙ ap outcome hit, le),
)
