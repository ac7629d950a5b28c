-- ===== src/C/Log/Scans.antt =====
-- The inner loop of `SsFindLogDelimiter` finds the delimiter.
use mathlib.Core.List.{append_assoc}
use mathlib.Core.Path.{subst}
use stuff_sack.Prelude.{
  ℕ, zero, suc, ◌+◌, ◌≡◌, ◌<◌, ◌≤◌, refl, ap, sym, ◌∙◌, true, false, List, [], ◌∷◌, ◌++◌, none,
  some, inl, inr, arith, length, length-snoc, length-append, get_elem?, take, take-get_elem?, All,
  Bool-cases, if◌then◌else◌, leb, ◌==◌, ◌⊎◌,
}
use stuff_sack.Prelude.Text.{codes}
use stuff_sack.C.Log.{delimiter, delim_len, at_delim, reset, Scan, found, going, scan}

-- A place behind a delimiter
pub record Occurs (file : List ℕ) (n : ℕ) : Type 0 where
  pub before : List ℕ
  pub behind : List ℕ
  pub whole : file ≡ before ++ (delimiter ++ behind)
  pub ends : n ≡ length before + delim_len

get_elem?-lt : (xs : List ℕ) (i : ℕ) {x : ℕ} → get_elem? xs i ≡ some x → i < length xs
get_elem?-lt [] i h = absurd (ground arith)
get_elem?-lt (y ∷ xs) zero h = omega arith
get_elem?-lt (y ∷ xs) (suc i) h = omega (arith, get_elem?-lt xs i h)

length-take : (n : ℕ) (xs : List ℕ) → n ≤ length xs → length (take n xs) ≡ n
length-take zero xs h = refl
length-take (suc n) [] h = absurd (omega arith)
length-take (suc n) (x ∷ xs) h = omega (arith, length-take n xs (omega arith))

at_delim-get : (b i : ℕ) → at_delim b i ≡ true → get_elem? delimiter i ≡ some b
unfolding at_delim
at_delim-get b i h = ground arith

scan-step :
    (k i b : ℕ) (bs : List ℕ) (n : ℕ)
    → i < delim_len
    → scan k i (b ∷ bs) ≡ found n
    → ((at_delim b i ≡ true) × (suc i ≡ delim_len) × (n ≡ suc k))
      ⊎ (((at_delim b i ≡ true) × (suc i < delim_len) × (scan (suc k) (suc i) bs ≡ found n))
          ⊎ (((at_delim b 0 ≡ true) × (scan (suc k) 1 bs ≡ found n))
              ⊎ (scan (suc k) 0 bs ≡ found n)))
unfolding scan reset
scan-step k i b bs n lt h = elim (Bool-cases (at_delim b i)) [
  | inl hit ↦ ground arith
  | inr miss ↦ elim (Bool-cases (at_delim b 0)) [
    | inl hit ↦ inr (inr (inl (hit, ground arith)))
    | inr miss_first ↦ inr (inr (inr (ground arith)))
  ]
]

take_delim :
    (b i : ℕ) (front bs : List ℕ)
    → at_delim b i ≡ true
    → front ++ (take i delimiter ++ b ∷ bs) ≡ front ++ (take (suc i) delimiter ++ bs)
take_delim b i front bs h =
    ap (λ file. front ++ file)
      (sym (
        ap (λ l. l ++ bs) (take-get_elem? i delimiter (at_delim-get b i h))
        ∙ append_assoc (take i delimiter) (b ∷ []) bs))

-- After `front` and the first `i` bytes of the delimiter, `k` bytes in all, a place that the loop
-- finds in the other bytes is behind a delimiter.
pub scan-Occurs :
    (k i : ℕ) (front bs : List ℕ) (n : ℕ)
    → i < delim_len
    → length front + i ≡ k
    → scan k i bs ≡ found n
    → Occurs (front ++ (take i delimiter ++ bs)) n
unfolding scan
scan-Occurs k i front [] n lt e h = absurd (ground arith)
scan-Occurs k i front (b ∷ bs) n lt e h =
    let seen = front ++ take i delimiter in
    let seen_length = length-append front (take i delimiter) in
    let taken : length (take i delimiter) ≡ i = length-take i delimiter (omega arith) in
    let snoc = length-snoc seen b in
    elim (scan-step k i b bs n lt h) [
      | inl (hit, full, at_end) ↦ record {
        before = front;
        behind = bs;
        whole = take_delim b i front bs hit ∙ ap (λ m. front ++ (take m delimiter ++ bs)) full;
        ends = omega arith;
      }
      | inr (inl (hit, more, rest)) ↦
          subst (λ file. Occurs file n) (sym (take_delim b i front bs hit))
            (scan-Occurs (suc k) (suc i) front bs n more (omega arith) rest)
      | inr (inr (inl (hit, rest))) ↦
          subst (λ file. Occurs file n)
            (sym (take_delim b 0 seen bs hit) ∙ append_assoc front (take i delimiter) (b ∷ bs))
            (scan-Occurs (suc k) 1 seen bs n (omega arith) (omega arith) rest)
      | inr (inr (inr rest)) ↦
          subst (λ file. Occurs file n)
            (append_assoc seen (b ∷ []) bs ∙ append_assoc front (take i delimiter) (b ∷ bs))
            (scan-Occurs (suc k) 0 (seen ++ b ∷ []) bs n (omega arith) (omega arith) rest)
    ]

reset-lt : (i b : ℕ) → i < delim_len → reset i b < delim_len
unfolding reset
reset-lt i b lt = ground arith

-- The loop goes on behind the bytes that it has read, with an index inside the delimiter, or it has
-- found a place among them.
abbrev pub Bounded : ℕ → Scan → Type 0
Bounded k (found n) = n ≤ k
Bounded k (going m i) = (m ≡ k) × (i < delim_len)

pub scan-Bounded : (k i : ℕ) (bs : List ℕ) → i < delim_len → Bounded (k + length bs) (scan k i bs)
unfolding scan
scan-Bounded k i [] lt = (omega arith, lt)
scan-Bounded k i (b ∷ bs) lt = elim (Bool-cases (at_delim b (reset i b))) [
  | inl hit ↦ elim (Bool-cases (leb delim_len (suc (reset i b)))) [
    | inl full ↦ rw (hit, full) (omega arith)
    | inr more ↦
        rw (hit, more)
          (subst (λ m. Bounded m (scan (suc k) (suc (reset i b)) bs)) (omega arith)
            (scan-Bounded (suc k) (suc (reset i b)) bs (ground arith)))
  ]
  | inr miss ↦ rw miss (
      subst (λ m. Bounded m (scan (suc k) (reset i b) bs)) (omega arith)
        (scan-Bounded (suc k) (reset i b) bs (reset-lt i b lt)))
]

-- The loop over two lists of bytes, one behind the other
abbrev pub continue : Scan → List ℕ → Scan
continue (found n) bs = found n
continue (going k i) bs = scan k i bs

pub scan-append : (k i : ℕ) (xs ys : List ℕ) → scan k i (xs ++ ys) ≡ continue (scan k i xs) ys
unfolding scan
scan-append k i [] ys = refl
scan-append k i (x ∷ xs) ys =
    ground
      (arith, scan-append (suc k) (suc (reset i x)) xs ys, scan-append (suc k) (reset i x) xs ys)

at_delim-of_get : (b i : ℕ) → get_elem? delimiter i ≡ some b → at_delim b i ≡ true
unfolding at_delim
at_delim-of_get b i h = rw h (ground arith)

scan-hit :
    (k i b : ℕ) (bs : List ℕ)
    → at_delim b i ≡ true
    → scan k i (b ∷ bs) ≡ (if leb delim_len (suc i) then found (suc k) else scan (suc k) (suc i) bs)
unfolding scan reset
scan-hit k i b bs h = ground arith

-- When the bytes go on from index `i` as the delimiter does, to its end, its end is found.
scan-walk :
    (k i x : ℕ) (xs rest : List ℕ)
    → ((j c : ℕ) → get_elem? (x ∷ xs) j ≡ some c → get_elem? delimiter (i + j) ≡ some c)
    → i + length (x ∷ xs) ≡ delim_len
    → scan k i (x ∷ (xs ++ rest)) ≡ found (k + length (x ∷ xs))
scan-walk k i x [] rest h e =
    let at_i : i + 0 ≡ i = omega arith in
    let here =
      at_delim-of_get x i (subst (λ m. get_elem? delimiter m ≡ some x) at_i (h 0 x refl)) in
    scan-hit k i x rest here ∙ ground arith
scan-walk k i x (y ∷ xs) rest h e =
    let at_i : i + 0 ≡ i = omega arith in
    let here =
      at_delim-of_get x i (subst (λ m. get_elem? delimiter m ≡ some x) at_i (h 0 x refl)) in
    let there : (j c : ℕ)
        → get_elem? (y ∷ xs) j ≡ some c
        → get_elem? delimiter (suc i + j) ≡ some c =
      λ j c got.
        let same_place : i + suc j ≡ suc i + j = omega arith in
        subst (λ m. get_elem? delimiter m ≡ some c) same_place (h (suc j) c got) in
    let walked = scan-walk (suc k) (suc i) y xs rest there (omega arith) in
    scan-hit k i x (y ∷ (xs ++ rest)) here ∙ ground arith

abbrev letters : List ℕ
letters = codes "sLogFileDelimiter"

differ-get :
    (c : ℕ) (xs : List ℕ) (i : ℕ)
    → All (λ x. (c == x) ≡ false) xs
    → elim (get_elem? xs i) [ none ↦ false | some x ↦ c == x ] ≡ false
differ-get c [] i h = refl
differ-get c (x ∷ xs) zero (h, hs) = h
differ-get c (x ∷ xs) (suc i) (h, hs) = differ-get c xs i hs

no_second : (i : ℕ) → at_delim 83 (suc i) ≡ false
unfolding at_delim
no_second i = differ-get 83 letters i (
  refl,
  (
    refl,
    (
      refl,
      (
        refl,
        (
          refl,
          (
            refl,
            (
              refl,
              (refl, (refl, (refl, (refl, (refl, (refl, (refl, (refl, (refl, (refl, tt)))))))))),
            ),
          ),
        ),
      ),
    ),
  ),
)

reset-first : (i : ℕ) → reset i 83 ≡ 0
unfolding reset
reset-first zero = ground arith
reset-first (suc i) = rw (no_second i) refl

first : at_delim 83 0 ≡ true
unfolding at_delim
first = refl

scan-reset :
    (k i b : ℕ) (bs : List ℕ)
    → at_delim b (reset i b) ≡ true
    → scan k i (b ∷ bs) ≡ (
        if leb delim_len (suc (reset i b))
        then found (suc k)
        else scan (suc k) (suc (reset i b)) bs)
unfolding scan
scan-reset k i b bs h = ground arith

first_letter : (k i : ℕ) (bs : List ℕ) → scan k i (83 ∷ bs) ≡ scan (suc k) 1 bs
first_letter k i bs =
    scan-reset k i 83 bs (ap (λ j. at_delim 83 j) (reset-first i) ∙ first)
    ∙ ap (λ j. if leb delim_len (suc j) then found (suc k) else scan (suc k) (suc j) bs)
        (reset-first i)

-- The delimiter is found wherever the loop stands before it, as its first letter occurs in it once.
pub scan-delimiter :
    (k i : ℕ) (rest : List ℕ) → scan k i (delimiter ++ rest) ≡ found (k + delim_len)
scan-delimiter k i rest =
    let same_places : (j c : ℕ)
        → get_elem? letters j ≡ some c
        → get_elem? delimiter (1 + j) ≡ some c =
      λ j c got.
        let same_place : suc j ≡ 1 + j = omega arith in
        subst (λ m. get_elem? delimiter m ≡ some c) same_place got in
    first_letter k i (letters ++ rest)
    ∙ scan-walk (suc k) 1 115 (codes "LogFileDelimiter") rest same_places refl
    ∙ ap found (omega arith)
