-- ===== src/C/Run/Calls.antt =====
-- Generated statements write the bytes of the fields that they pack.
use mathlib.Core.Path.{subst}
use stuff_sack.Prelude.{
  ℕ, zero, suc, ◌+◌, ◌*◌, ◌^◌, ◌≡◌, ◌<◌, ◌∙◌, List, [], ◌∷◌, ◌++◌, some, arith, length, leb,
}
use stuff_sack.Prelude.Text.{Text}
use stuff_sack.Errors
use stuff_sack.Errors.{Result, ok, err, guard, guard-eq-ok, value_error}
use stuff_sack.Types.{SsType, array, root_type, packed_size}
use stuff_sack.Names.{pack_function_name}
use stuff_sack.Spec.Build.{Registry}
use stuff_sack.Spec.WellFormed.{IsFieldType}
use stuff_sack.Spec.WellFormed.Types.{IsNamed}
use stuff_sack.C.Syntax.{Offset, scaled, Place, Stmt, call, loop}
use stuff_sack.C.Generate.{array_pack}
use stuff_sack.C.Memory.{
  Value, items, Values, stop, more, get_index, get_index-lt, count, Vars, eval_offset, int_value-lt,
}
use stuff_sack.C.Run.{Env, call_function, Frame, read, exec}
use stuff_sack.C.Run.Spec.{ShortArrays, AllValues, HasType, encode}
use stuff_sack.C.Run.Frames.{
  OffsetBelow, Below, Below-snoc, OffsetBelow-suc, Writes, eval_offset-scaled, element_end,
  read-snoc, length-concat_values, repeat-Writes,
}

-- A call of the type's packing function writes the bytes of any value of the type.
abbrev pub PacksAs : Env → SsType → Type 0
PacksAs env t =
    (v : Value)
    → HasType t v
    → (length (encode t v) ≡ packed_size t)
      × ((k : ℕ)
          → Writes (call_function env (pack_function_name t) v k) k (packed_size t) (encode t v))

abbrev pub Callable : Env → Registry → Type 0
Callable env reg = (t : SsType) → IsNamed t → IsFieldType reg t → PacksAs env t

pub AllValues-get_index :
    (P : Value → Type 0) (m : ℕ) (vs : Values) (u : Value)
    → AllValues P vs
    → get_index m vs ≡ some u
    → P u
unfolding get_index
AllValues-get_index P m stop u h e = absurd (ground arith)
AllValues-get_index P zero (more v vs) u (h, hs) e = subst P (cc) h
AllValues-get_index P (suc m) (more v vs) u (h, hs) e = AllValues-get_index P m vs u hs e

pub named_pack-cases :
    (p : Place) (t : SsType) (n : ℕ) (off : Offset) (i : ℕ) (s : Stmt)
    → IsNamed t
    → array_pack p t n off i ≡ ok s
    → s
      ≡ loop i n (
          call
            (pack_function_name t)
            (record p { indices = p.indices ++ i ∷ [] })
            (scaled i (packed_size t) off))
unfolding array_pack root_type
named_pack-cases p (array t m) n off i s named h = absurd named
named_pack-cases p _ n off i s named h = ground arith

pub nested_pack-cases :
    (p : Place) (t : SsType) (m n : ℕ) (off : Offset) (i : ℕ) (s : Stmt)
    → array_pack p (array t m) n off i ≡ ok s
    → (inner : Stmt) × (array_pack
          (record p { indices = p.indices ++ i ∷ [] })
          t
          m
          (scaled i (packed_size (array t m)) off)
          (i + 1)
        ≡ ok inner)
      × (s ≡ loop i n inner)
unfolding array_pack
nested_pack-cases p t m n off i s h =
    let (fits, h₁) = guard-eq-ok (leb i b'z') _ _ h in
    let q = record p { indices = p.indices ++ i ∷ [] } in
    let (inner, made, h₂) =
      Errors.>>=-eq-ok (array_pack q t m (scaled i (packed_size (array t m)) off) (i + 1)) _ h₁ in
    (inner, made, cc)

module _ (env : Env) (fr : Frame) (base : ℕ) where
  pub exec-call :
      (vars : Vars) (f : Text) (p : Place) (off : Offset) (u : Value) (k : ℕ) (buf : List ℕ)
      → read fr vars p ≡ some u
      → eval_offset vars off ≡ some k
      → exec env fr base vars (call f p off) buf ≡ call_function env f u (base + k) buf
  unfolding exec
  exec-call vars f p off u k buf r e = rw (r, e)

  -- What a round of the loop over the elements of type `t` does.
  abbrev Element : SsType → ℕ → Stmt → Vars → ℕ → ℕ → Value → Type 0
  Element t i inner vars k m u =
      (length (encode t u) ≡ packed_size t)
      × Writes (exec env fr base ((i, m) ∷ vars) inner) (base + k + m * packed_size t)
          (packed_size t) (encode t u)

  loop-Writes :
      (t : SsType) (n i k : ℕ) (inner : Stmt) (vars : Vars) (vs : Values)
      → count vs ≡ n
      → n < 2 ^ 31
      → ((m : ℕ) (u : Value) → get_index m vs ≡ some u → Element t i inner vars k m u)
      → (length (encode (array t n) (items vs)) ≡ packed_size t * n)
        × Writes
            (exec env fr base vars (loop i n inner))
            (base + k)
            (packed_size t * n)
            (encode (array t n) (items vs))
  unfolding exec encode
  loop-Writes t n i k inner vars vs e short h =
      let f = λ (m : ℕ) (b : List ℕ). exec env fr base ((i, m) ∷ vars) inner b in
      let rounds : (m j : ℕ) (u : Value)
          → get_index m vs ≡ some u
          → j ≡ 0 + m
          → (length (encode t u) ≡ packed_size t)
            × Writes (f j) (base + k + j * packed_size t) (packed_size t) (encode t u) =
        λ m j u got eq. h j u (subst (λ l. get_index l vs ≡ some u) (omega arith) got) in
      rw (int_value-lt n short, ← e)
        (
          length-concat_values f (encode t) (packed_size t) (base + k) 0 vs rounds,
          λ pre old post at_pre at_old.
              repeat-Writes f (encode t) (packed_size t) (base + k) 0 vs rounds pre old post
                (omega arith) at_old,
        )

module _ (env : Env) (reg : Registry) (callable : Callable env reg) (fr : Frame) (base : ℕ) where
  -- `array_pack` at a place that holds an array writes the array's elements in order.
  abbrev pub PacksArray : SsType → Type 0
  PacksArray t =
      (p : Place) (n : ℕ) (off : Offset) (i : ℕ) (s : Stmt) (vars : Vars) (vs : Values) (k : ℕ)
      → IsFieldType reg t
      → array_pack p t n off i ≡ ok s
      → Below i p.indices
      → OffsetBelow i off
      → read fr vars p ≡ some (items vs)
      → eval_offset vars off ≡ some k
      → HasType (array t n) (items vs)
      → ShortArrays (array t n)
      → k + packed_size t * n < 2 ^ 31
      → (length (encode (array t n) (items vs)) ≡ packed_size t * n)
        × Writes (exec env fr base vars s) (base + k) (packed_size t * n)
            (encode (array t n) (items vs))

  named-PacksArray : (t : SsType) → IsNamed t → PacksArray t
  named-PacksArray t named p n off i s vars vs k typed h bi bo r e (len, all) (short, shorts) top =
      rw (named_pack-cases p t n off i s named h) (
        loop-Writes env fr base t n i k _ vars vs len short λ m u got.
          let fits = AllValues-get_index (HasType t) m vs u all got in
          let (sized, write) = callable t named typed u fits in
          let in_range =
            element_end m n (packed_size t) (omega (arith, len, get_index-lt m vs got)) in
          (
            sized,
            λ pre old post at_pre at_old.
                exec-call env fr base ((i, m) ∷ vars) _ _ _ u (m * packed_size t + k) _
                  (read-snoc vars i m fr p u vs bi r got)
                  (eval_offset-scaled vars i m (packed_size t) k off bo e (omega arith))
                ∙ write (base + (m * packed_size t + k)) pre old post (omega arith) at_old,
          ))

  nested-Element :
      (t : SsType) (m : ℕ) (p : Place) (off : Offset) (i : ℕ) (inner : Stmt) (vars : Vars)
      (vs : Values) (k l : ℕ) (u : Value)
      → PacksArray t
      → IsFieldType reg t
      → array_pack
          (record p { indices = p.indices ++ i ∷ [] })
          t
          m
          (scaled i (packed_size (array t m)) off)
          (i + 1)
        ≡ ok inner
      → Below i p.indices
      → OffsetBelow i off
      → read fr vars p ≡ some (items vs)
      → eval_offset vars off ≡ some k
      → get_index l vs ≡ some u
      → HasType (array t m) u
      → ShortArrays (array t m)
      → l * packed_size (array t m) + k + packed_size (array t m) < 2 ^ 31
      → Element env fr base (array t m) i inner vars k l u
  unfolding packed_size
  nested-Element t m p off i inner vars vs k l (items us) packs typed h bi bo r e got fits shorts
        top =
      let size = packed_size (array t m) in
      let (sized, write) =
        packs (record p { indices = p.indices ++ i ∷ [] }) m (scaled i size off) (i + 1) inner
          ((i, l) ∷ vars) us (l * size + k) typed h (Below-snoc i p.indices bi)
          (omega arith, OffsetBelow-suc i off bo) (read-snoc vars i l fr p (items us) vs bi r got)
          (eval_offset-scaled vars i l size k off bo e (omega arith)) fits shorts (omega arith) in
      (sized, λ pre old post at_pre at_old. write pre old post (omega arith) at_old)
  nested-Element t m p off i inner vars vs k l _ packs typed h bi bo r e got fits shorts top =
      absurd fits

  pub array_pack-Writes : (t : SsType) → PacksArray t
  array_pack-Writes (array t m) p n off i s vars vs k (pos, typed) h bi bo r e (len, all)
        (short, shorts) top =
      let (inner, made, same_s) = nested_pack-cases p t m n off i s h in
      rw same_s (
        loop-Writes env fr base (array t m) n i k inner vars vs len short λ l u got.
          let in_range =
            element_end l n (packed_size (array t m)) (omega (arith, len, get_index-lt l vs got)) in
          nested-Element t m p off i inner vars vs k l u (array_pack-Writes t) typed made bi bo r e
            got (AllValues-get_index (HasType (array t m)) l vs u all got) shorts (omega arith))
  array_pack-Writes _ p n off i s vars vs k typed h bi bo r e fits shorts top =
      named-PacksArray _ tt p n off i s vars vs k typed h bi bo r e fits shorts top
