-- ===== src/C/Run/Frames.antt =====
-- Reads of nested array elements, and the loops over them.
use mathlib.Core.List.{append_assoc}
use stuff_sack.Prelude.{
  ℕ, suc, ◌+◌, ◌*◌, ◌^◌, ◌≤◌, ◌≡◌, ◌<◌, refl, ◌∙◌, List, [], ◌∷◌, ◌++◌, Option, some, arith, All,
  length, length-append, cut, if◌then◌else◌,
}
use stuff_sack.C.Syntax.{Offset, at, scaled, Place}
use stuff_sack.C.Memory.{
  Value, items, Values, stop, more, ◌>>=◌, >>=-eq-some, get_index, count, Vars, get_var, index_all,
  eval_offset, int_value-lt, get_member,
}
use stuff_sack.C.Run.{repeat, Frame, read}
use stuff_sack.C.Run.Spec.{concat_values}

-- All iteration variables of an offset or a place come before the letter `i`.
abbrev pub OffsetBelow : ℕ → Offset → Type 0
OffsetBelow i (at n) = Unit
OffsetBelow i (scaled j size o) = (j < i) × OffsetBelow i o

abbrev pub Below : ℕ → List ℕ → Type 0
Below i is = All (λ j. j < i) is

pub index_all-cons :
    (vars : Vars) (j k : ℕ) (is : List ℕ) (ws : Values) (w : Value)
    → get_var j vars ≡ some k
    → get_index k ws ≡ some w
    → index_all vars (j ∷ is) (items ws) ≡ index_all vars is w
unfolding index_all
index_all-cons vars j k is ws w h g = rw (h, g)

module _ (vars : Vars) (i k : ℕ) where
  pub get_var-below : (j : ℕ) → j < i → get_var j ((i, k) ∷ vars) ≡ get_var j vars
  unfolding get_var
  get_var-below j h = ground arith

  pub get_var-here : get_var i ((i, k) ∷ vars) ≡ some k
  unfolding get_var
  get_var-here = ground arith

  eval_offset-below :
      (o : Offset) → OffsetBelow i o → eval_offset ((i, k) ∷ vars) o ≡ eval_offset vars o
  unfolding eval_offset
  eval_offset-below (at n) h = refl
  eval_offset-below (scaled j size o) (lt, h) = rw (get_var-below j lt, eval_offset-below o h)

  pub eval_offset-scaled :
      (size n : ℕ) (o : Offset)
      → OffsetBelow i o
      → eval_offset vars o ≡ some n
      → k * size + n < 2 ^ 31
      → eval_offset ((i, k) ∷ vars) (scaled i size o) ≡ some (k * size + n)
  unfolding eval_offset
  eval_offset-scaled size n o below h lt =
      rw (get_var-here, eval_offset-below o below, h) (int_value-lt (k * size + n) lt)

  pub index_all-snoc :
      (is : List ℕ) (v u : Value) (vs : Values)
      → Below i is
      → index_all vars is v ≡ some (items vs)
      → get_index k vs ≡ some u
      → index_all ((i, k) ∷ vars) (is ++ i ∷ []) v ≡ some u
  unfolding index_all
  index_all-snoc [] v u vs below h g =
      let e : v ≡ items vs = cc in rw e (index_all-cons ((i, k) ∷ vars) i k [] vs u get_var-here g)
  index_all-snoc (j ∷ is) (items ws) u vs (lt, below) h g =
      let (n, var, h₁) = >>=-eq-some (get_var j vars) _ h in
      let (w, got, h₂) = >>=-eq-some (get_index n ws) _ h₁ in
      index_all-cons ((i, k) ∷ vars) j n (is ++ i ∷ []) ws w (get_var-below j lt ∙ var) got
      ∙ index_all-snoc is w u vs below h₂ g
  index_all-snoc (j ∷ is) _ u vs below h g = absurd (ground arith)

  pub read-snoc :
      (fr : Frame) (p : Place) (u : Value) (vs : Values)
      → Below i p.indices
      → read fr vars p ≡ some (items vs)
      → get_index k vs ≡ some u
      → read fr ((i, k) ∷ vars) (record p { indices = p.indices ++ i ∷ [] }) ≡ some u
  unfolding read
  read-snoc fr p u vs below h g =
      let (v, found, h₁) =
        >>=-eq-some (get_member p.name (if p.local then fr.locals else fr.arg)) _ h in
      rw found (index_all-snoc p.indices v u vs below h₁ g)

pub Below-snoc : (i : ℕ) (is : List ℕ) → Below i is → Below (i + 1) (is ++ i ∷ [])
Below-snoc i [] h = (omega arith, tt)
Below-snoc i (j ∷ is) (lt, h) = (omega arith, Below-snoc i is h)

pub OffsetBelow-suc : (i : ℕ) (o : Offset) → OffsetBelow i o → OffsetBelow (i + 1) o
OffsetBelow-suc i (at n) h = tt
OffsetBelow-suc i (scaled j size o) (lt, h) = (omega arith, OffsetBelow-suc i o h)

-- An element of an array ends where the array does or before.
pub element_end : (m n size : ℕ) → m < n → m * size + size ≤ size * n
element_end m n size h = grind arith

-- The code `f` replaces the `size` bytes at place `k` by `bytes` and leaves all others.
abbrev pub Writes : (List ℕ → Option (List ℕ)) → ℕ → ℕ → List ℕ → Type 0
Writes f k size bytes =
    (pre old post : List ℕ)
    → length pre ≡ k
    → length old ≡ size
    → f (pre ++ (old ++ post)) ≡ some (pre ++ (bytes ++ post))

pub some-Writes : (k : ℕ) → Writes some k 0 []
some-Writes k pre [] post at_pre at_old = refl
some-Writes k pre (x ∷ old) post at_pre at_old = absurd (omega arith)

-- One piece of code after another writes the bytes of both.
pub seq-Writes :
    (f g : List ℕ → Option (List ℕ)) (k n m : ℕ) (bs cs : List ℕ)
    → length bs ≡ n
    → Writes f k n bs
    → Writes g (k + n) m cs
    → Writes (λ buf. f buf >>= g) k (n + m) (bs ++ cs)
seq-Writes f g k n m bs cs len first second pre old post at_pre at_old =
    let s = cut n m old at_old in
    let now = first pre s.front (s.back ++ post) at_pre s.length_front in
    let after =
      second (pre ++ bs) s.back post (omega (arith, length-append pre bs)) s.length_back in
    rw (s.whole, append_assoc s.front s.back post, now, append_assoc bs cs post)
      (simp append_assoc at after)

module _ (f : ℕ → List ℕ → Option (List ℕ)) (g : Value → List ℕ) (size base : ℕ) where
  -- Round `j` writes element `j` at its place.
  abbrev Rounds : ℕ → Values → Type 0
  Rounds j vs =
      (m i : ℕ) (u : Value)
      → get_index m vs ≡ some u
      → i ≡ j + m
      → (length (g u) ≡ size) × Writes (f i) (base + i * size) size (g u)

  pub length-concat_values :
      (j : ℕ) (vs : Values) → Rounds j vs → length (concat_values g vs) ≡ size * count vs
  unfolding concat_values count get_index
  length-concat_values j stop h = omega arith
  length-concat_values j (more v vs) h = omega (
    arith,
    length-append (g v) (concat_values g vs),
    (h 0 j v refl (omega arith)).0,
    length-concat_values (suc j) vs (λ m i u got e. h (suc m) i u got (omega arith)),
  )

  pub repeat-Writes :
      (j : ℕ) (vs : Values)
      → Rounds j vs
      → Writes (repeat (count vs) j f) (base + j * size) (size * count vs) (concat_values g vs)
  unfolding repeat count concat_values get_index
  repeat-Writes j stop h pre [] post at_pre at_old = refl
  repeat-Writes j stop h pre (x ∷ old) post at_pre at_old = absurd (omega arith)
  repeat-Writes j (more v vs) h pre old post at_pre at_old =
      let (len, write) = h 0 j v refl (omega arith) in
      let rest = repeat-Writes (suc j) vs (λ m i u got e. h (suc m) i u got (omega arith)) in
      seq-Writes (f j) (repeat (count vs) (suc j) f) (base + j * size) size (size * count vs) (g v)
        (concat_values g vs) len write
        (λ pre' old' post' at_pre' at_old'. rest pre' old' post' (omega arith) at_old') pre old post
        at_pre (omega arith)
