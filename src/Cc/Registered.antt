-- ===== src/Cc/Registered.antt =====
-- Which callbacks a `MessageDispatcher` of src/cc_stuff_sack.py calls.
use stuff_sack.Prelude.{
  ℕ, zero, suc, ◌+◌, ◌≡◌, ◌<◌, refl, ap, ◌∙◌, List, [], ◌∷◌, ◌++◌, some, arith, length, map, ◌==◌,
  Bool-cases, inl, inr, if◌then◌else◌,
}
use stuff_sack.Types.{SsType}
use stuff_sack.C.Memory.{Value, ◌>>=◌, >>=-eq-some}
use stuff_sack.C.Unpack.Run.{Env}
use stuff_sack.C.Inspect.{inspect_header}
use stuff_sack.Cc.Run.{
  Status, k_success, k_invalid_uid, k_invalid_len, AnyMessage, monostate, held, hold, Class,
  unpack_new, unpack_branches, unpack_message,
}
use stuff_sack.Cc.Dispatch.{Dispatcher, add_callback, callbacks, visit, dispatch}

-- A dispatcher of `n` messages before any callback is added
abbrev pub no_callbacks : ℕ → Dispatcher
no_callbacks zero = []
no_callbacks (suc n) = [] ∷ no_callbacks n

-- The dispatcher after callbacks were added, the first of the list last; each stands with the place
-- of its message.
abbrev pub registered : ℕ → List (ℕ × ℕ) → Dispatcher
registered n [] = no_callbacks n
registered n ((i, func) ∷ added) = add_callback i func (registered n added)

-- Those of the callbacks that were added for the message at place `i`, in the order of their adding
unfoldable pub added_for : ℕ → List (ℕ × ℕ) → List ℕ
added_for i [] = []
added_for i ((j, func) ∷ added) =
    let before = added_for i added in if i == j then before ++ func ∷ [] else before

callbacks-none : (n i : ℕ) → callbacks (no_callbacks n) i ≡ []
unfolding callbacks
callbacks-none zero i = refl
callbacks-none (suc n) zero = refl
callbacks-none (suc n) (suc i) = callbacks-none n i

callbacks-add_callback :
    (i j func : ℕ) (d : Dispatcher)
    → i < length d
    → callbacks (add_callback j func d) i
      ≡ (if i == j then callbacks d i ++ func ∷ [] else callbacks d i)
unfolding callbacks add_callback
callbacks-add_callback i j func [] h = absurd (omega arith)
callbacks-add_callback zero zero func (fs ∷ d) h = ground arith
callbacks-add_callback zero (suc j) func (fs ∷ d) h = ground arith
callbacks-add_callback (suc i) zero func (fs ∷ d) h = ground arith
callbacks-add_callback (suc i) (suc j) func (fs ∷ d) h =
    ground (arith, callbacks-add_callback i j func d (omega arith))

length-add_callback : (j func : ℕ) (d : Dispatcher) → length (add_callback j func d) ≡ length d
unfolding add_callback
length-add_callback j func [] = refl
length-add_callback zero func (fs ∷ d) = refl
length-add_callback (suc j) func (fs ∷ d) = omega (arith, length-add_callback j func d)

length-registered : (n : ℕ) (added : List (ℕ × ℕ)) → length (registered n added) ≡ n
length-registered zero [] = refl
length-registered (suc n) [] = omega (arith, length-registered n [])
length-registered n ((i, func) ∷ added) =
    length-add_callback i func (registered n added) ∙ length-registered n added

-- The callbacks of a message are those that were added for it, in order.
pub callbacks-registered :
    (n i : ℕ) (added : List (ℕ × ℕ)) → i < n → callbacks (registered n added) i ≡ added_for i added
unfolding added_for
callbacks-registered n i [] h = callbacks-none n i
callbacks-registered n i ((j, func) ∷ added) h =
    callbacks-add_callback i j func (registered n added) (omega (arith, length-registered n added))
    ∙ rw (callbacks-registered n i added h) refl

-- The calls that a message and a status should bring about: those of the callbacks that were added
-- for the message, in order, and none without kSuccess
unfoldable pub calls_for : List (ℕ × ℕ) → AnyMessage × Status → List (ℕ × Value)
unfolding added_for
calls_for added (held i v, k_success) = map (λ func. (func, v)) (added_for i added)
calls_for added _ = []

-- A message that `UnpackMessage` returns stands at a place that there is.
unpack_branches-place :
    (env : Env) (k j i : ℕ) (cs : List Class) (buf : List ℕ) (len : ℕ) (v : Value) (st : Status)
    → unpack_branches env k cs j buf len ≡ some (held i v, st)
    → i < k + length cs
unfolding unpack_branches
unpack_branches-place env k j i [] buf len v st h = absurd (ground arith)
unpack_branches-place env k j i (c ∷ cs) buf len v st h = elim (Bool-cases (j == k)) [
  | inl here ↦
      let held_here : (unpack_new env c.methods c.type c.blank buf >>= hold j)
          ≡ some (held i v, st) =
        ground arith in
      let (r, made, holds) =
        >>=-eq-some (unpack_new env c.methods c.type c.blank buf) (hold j) held_here in
      ground arith
  | inr there ↦ omega (arith, unpack_branches-place env (suc k) j i cs buf len v st (ground arith))
]

unpack_message-place :
    (env : Env) (types : List SsType) (classes : List Class) (header : Value) (buf : List ℕ)
    (len i : ℕ) (v : Value) (st : Status)
    → unpack_message env types classes header buf len ≡ some (held i v, st)
    → i < length classes
unfolding unpack_message
unpack_message-place env types classes header buf len i v st h =
    let inspected : (inspect_header env types header buf 0 >>= λ j.
    unpack_branches env 0 classes j buf len)
        ≡ some (held i v, st) =
      ground arith in
    let (j, found, taken) = >>=-eq-some (inspect_header env types header buf 0) _ inspected in
    omega (arith, unpack_branches-place env 0 j i classes buf len v st taken)

visit-registered :
    (n : ℕ) (added : List (ℕ × ℕ)) (i : ℕ) (v : Value)
    → i < n
    → visit (registered n added) (held i v) ≡ calls_for added (held i v, k_success)
unfolding visit calls_for
visit-registered n added i v h = ap (map (λ func. (func, v))) (callbacks-registered n i added h)

-- When `UnpackMessage` returns, a dispatcher to which callbacks were added in any order returns its
-- status. With kSuccess it calls the callbacks that were added for the message's type, each once with
-- the message, in the order of their adding; with another status it calls none.
pub dispatch-registered :
    (env : Env) (types : List SsType) (classes : List Class) (header : Value) (added : List (ℕ × ℕ))
    (buf : List ℕ) (len : ℕ) (r : AnyMessage × Status)
    → unpack_message env types classes header buf len ≡ some r
    → dispatch env types classes header (registered (length classes) added) buf len
      ≡ some (r.1, calls_for added r)
unfolding dispatch calls_for visit
dispatch-registered env types classes header added buf len (held i v, k_success) h =
    let place = unpack_message-place env types classes header buf len i v k_success h in
    rw (h, visit-registered (length classes) added i v place) refl
dispatch-registered env types classes header added buf len (monostate, k_success) h = rw h refl
dispatch-registered env types classes header added buf len (held i v, k_invalid_uid) h = rw h refl
dispatch-registered env types classes header added buf len (monostate, k_invalid_uid) h = rw h refl
dispatch-registered env types classes header added buf len (held i v, k_invalid_len) h = rw h refl
dispatch-registered env types classes header added buf len (monostate, k_invalid_len) h = rw h refl
