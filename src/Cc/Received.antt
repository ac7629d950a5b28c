-- ===== src/Cc/Received.antt =====
-- What `UnpackMessage` of src/cc_stuff_sack.py returns.
use mathlib.Core.Path.{subst}
use stuff_sack.Prelude.{
  ℕ, zero, suc, ◌+◌, ◌≡◌, ◌≤◌, ◌↔◌, refl, ap, sym, ◌∙◌, List, [], ◌∷◌, Option, none, some, arith,
  get_elem?, Option-cases, inl, inr, ◌==◌, if◌then◌else◌,
}
use stuff_sack.Types.{SsType}
use stuff_sack.C.Memory.{Value, ◌>>=◌, >>=-eq-some}
use stuff_sack.C.Unpack.Run.{Env}
use stuff_sack.C.Inspect.{inspect_header}
use stuff_sack.Cc.Run.{
  Status, k_success, k_invalid_uid, k_invalid_len, AnyMessage, monostate, held, Class,
  unpack_method, unpack_new, fresh, hold, unpack_branches, unpack_message,
}

-- The branch of the message that is found, and what it returns
unfoldable branch : Env → ℕ → Class → List ℕ → ℕ → Option (AnyMessage × Status)
branch env i c buf len =
    if len == c.methods.k_packed_size
    then (unpack_new env c.methods c.type c.blank buf >>= hold i)
    else some (monostate, k_invalid_len)

unpack_branches-found :
    (env : Env) (k i j : ℕ) (cs : List Class) (c : Class) (buf : List ℕ) (len : ℕ)
    → j ≡ k + i
    → get_elem? cs i ≡ some c
    → unpack_branches env k cs j buf len ≡ branch env j c buf len
unfolding unpack_branches branch
unpack_branches-found env k i j [] c buf len e h = absurd (ground arith)
unpack_branches-found env k zero j (d ∷ cs) c buf len e h =
    let same_class : d ≡ c = cc in
    let at_k : k ≡ j = omega arith in rw (← same_class, at_k) (ground arith)
unpack_branches-found env k (suc i) j (d ∷ cs) c buf len e h =
    ground (arith, unpack_branches-found env (suc k) i j cs c buf len (omega arith) h)

unpack_branches-unknown :
    (env : Env) (k i j : ℕ) (cs : List Class) (buf : List ℕ) (len : ℕ)
    → j ≡ k + i
    → get_elem? cs i ≡ none
    → unpack_branches env k cs j buf len ≡ some (monostate, k_invalid_uid)
unfolding unpack_branches
unpack_branches-unknown env k i j [] buf len e h = refl
unpack_branches-unknown env k zero j (d ∷ cs) buf len e h = absurd (ground arith)
unpack_branches-unknown env k (suc i) j (d ∷ cs) buf len e h =
    ground (arith, unpack_branches-unknown env (suc k) i j cs buf len (omega arith) h)

fresh-success :
    (t : SsType) (m : Option (Status × Value)) (v : Value)
    → (m >>= fresh t ≡ some (v, k_success)) ↔ (m ≡ some (k_success, v))
unfolding fresh
fresh-success t none v = (λ h. absurd (ground arith), λ h. absurd (ground arith))
fresh-success t (some (k_success, w)) v = (λ h. ground arith, λ h. ground arith)
fresh-success t (some (k_invalid_uid, w)) v =
    (λ h. absurd (ground arith), λ h. absurd (ground arith))
fresh-success t (some (k_invalid_len, w)) v =
    (λ h. absurd (ground arith), λ h. absurd (ground arith))

hold-some :
    (i j : ℕ) (m : Option (Value × Status)) (v : Value)
    → (m >>= hold j) ≡ some (held i v, k_success)
    → (j ≡ i) × (m ≡ some (v, k_success))
hold-some i j none v h = absurd (ground arith)
hold-some i j (some (w, st)) v h = (ground arith, ground arith)

branch-success :
    (env : Env) (i j : ℕ) (c : Class) (buf : List ℕ) (len : ℕ) (v : Value)
    → (branch env j c buf len ≡ some (held i v, k_success)) ↔ (
        (j ≡ i)
        × (len ≡ c.methods.k_packed_size)
        × (unpack_method env c.methods buf 0 c.blank ≡ some (k_success, v)))
unfolding branch unpack_new
branch-success env i j c buf len v = (
  λ h.
      let sized : len ≡ c.methods.k_packed_size = ground arith in
      let (at_i, new) =
        hold-some i j (unpack_new env c.methods c.type c.blank buf) v (ground arith) in
      (at_i, sized, (fresh-success c.type (unpack_method env c.methods buf 0 c.blank) v).0 new),
  λ (at_i, sized, done).
      let new : unpack_new env c.methods c.type c.blank buf ≡ some (v, k_success) =
        (fresh-success c.type (unpack_method env c.methods buf 0 c.blank) v).1 done in
      ground (arith, new, at_i, sized),
)

-- `UnpackMessage` returns the message at place `i` with kSuccess exactly when there are the six bytes
-- of a header, `InspectHeader` finds `i`, there is a message at place `i`, the length is its
-- `kPackedSize` and its `Unpack` on a new object returns kSuccess and that object.
pub unpack_message-success_iff :
    (env : Env) (types : List SsType) (classes : List Class) (header : Value) (buf : List ℕ)
    (len i : ℕ) (v : Value)
    → (unpack_message env types classes header buf len ≡ some (held i v, k_success)) ↔ (
        (6 ≤ len)
        × (c : Class) × (inspect_header env types header buf 0 ≡ some i)
        × (get_elem? classes i ≡ some c)
        × (len ≡ c.methods.k_packed_size)
        × (unpack_method env c.methods buf 0 c.blank ≡ some (k_success, v)))
unfolding unpack_message
unpack_message-success_iff env types classes header buf len i v = (
  λ h.
      let long : 6 ≤ len = ground arith in
      let found_first : (inspect_header env types header buf 0 >>= λ j.
      unpack_branches env 0 classes j buf len)
          ≡ some (held i v, k_success) =
        ground arith in
      let (j, found, h₁) = >>=-eq-some (inspect_header env types header buf 0) _ found_first in
      elim (Option-cases (get_elem? classes j)) [
        | inl e ↦
            absurd
              (ground (arith, unpack_branches-unknown env 0 j j classes buf len (omega arith) e))
        | inr (c, e) ↦
            let (at_i, sized, done) =
              (branch-success env i j c buf len v).0
                (sym (unpack_branches-found env 0 j j classes c buf len (omega arith) e) ∙ h₁) in
            (
              long,
              c,
              found ∙ ap some at_i,
              subst (λ i. get_elem? classes i ≡ some c) at_i e,
              sized,
              done,
            )
      ],
  λ (long, c, found, at_i, sized, done).
      let taken =
        unpack_branches-found env 0 i i classes c buf len (omega arith) at_i
        ∙ (branch-success env i i c buf len v).1 (refl, sized, done) in
      ground (arith, found, taken),
)
