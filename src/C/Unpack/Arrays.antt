-- ===== src/C/Unpack/Arrays.antt =====
-- The loops of `array_unpack` fill an array with the elements that were packed.
use mathlib.Core.Path.{subst}
use stuff_sack.Prelude.{
  ℕ, zero, suc, ◌+◌, ◌*◌, ◌^◌, ◌≡◌, ◌<◌, refl, ap, sym, ◌∙◌, List, [], ◌∷◌, ◌++◌, Option, some,
  arith, length, length-append,
}
use stuff_sack.Errors.{ok}
use stuff_sack.Types.{SsType, primitive, bitfield, enum, struct, message, array, packed_size}
use stuff_sack.Names.{unpack_function_name}
use stuff_sack.Spec.Build.{Registry}
use stuff_sack.Spec.WellFormed.{IsFieldType}
use stuff_sack.Spec.WellFormed.Types.{IsNamed}
use stuff_sack.C.Syntax.{Offset, scaled, Place, Stmt, call, loop}
use stuff_sack.C.Memory.{
  Value, items, Values, stop, more, ◌>>=◌, >>=-eq-some, get_index, get_index-lt, count, Vars,
  eval_offset, int_value-lt,
}
use stuff_sack.C.Run.Spec.{ShortArrays, AllValues, concat_values, HasType, encode}
use stuff_sack.C.Run.Frames.{
  OffsetBelow, Below, Below-snoc, OffsetBelow-suc, eval_offset-scaled, element_end,
}
use stuff_sack.C.Run.Calls.{AllValues-get_index}
use stuff_sack.C.Unpack.{array_unpack}
use stuff_sack.C.Unpack.Run.{
  success, Env, get_function, repeat, Frame, read, write, exec, set_index,
}
use stuff_sack.C.Unpack.Spec.{received, map_values}
use stuff_sack.C.Unpack.Frames.{write-Put, write-get, write-snoc, read-snoc}
use stuff_sack.C.Unpack.Calls.{
  Holds, Holds-append, Callable, append_values, append_values-snoc, count-snoc, get_index-append,
  set_index-append, named_unpack-cases, nested_unpack-cases,
}

module _ (g : Value → List ℕ) (size : ℕ) where
  abbrev Sized : Values → Type 0
  Sized vs = (m : ℕ) (u : Value) → get_index m vs ≡ some u → length (g u) ≡ size

  pub concat_values-size : (vs : Values) → Sized vs → length (concat_values g vs) ≡ size * count vs
  unfolding concat_values count get_index
  concat_values-size stop h = omega arith
  concat_values-size (more v vs) h =
      let rest = concat_values-size vs (λ m u got. h (suc m) u got) in
      omega (arith, length-append (g v) (concat_values g vs), h 0 v refl)

  pub Holds-element :
      (buf : List ℕ) (k m : ℕ) (vs : Values) (u : Value)
      → Sized vs
      → Holds buf k (concat_values g vs)
      → get_index m vs ≡ some u
      → Holds buf (k + m * size) (g u)
  unfolding concat_values get_index
  Holds-element buf k m stop u sized h got = absurd (ground arith)
  Holds-element buf k zero (more v vs) u sized h got =
      let (here, rest) = Holds-append buf k size (g v) (concat_values g vs) (sized 0 v refl) h in
      let e : v ≡ u = cc in
      let at_k : k ≡ k + 0 * size = omega arith in
      subst (λ j. Holds buf j (g u)) at_k (subst (λ w. Holds buf k (g w)) e here)
  Holds-element buf k (suc m) (more v vs) u sized h got =
      let (here, rest) = Holds-append buf k size (g v) (concat_values g vs) (sized 0 v refl) h in
      let at_k : k + size + m * size ≡ k + suc m * size = grind arith in
      subst (λ j. Holds buf j (g u)) at_k
        (Holds-element buf (k + size) m vs u (λ m u got. sized (suc m) u got) rest got)

module _ (f : ℕ → Frame → Option Frame) (g : Value → Value) (P : Value → Type 0) (vars : Vars)
    (i : ℕ) (p : Place) (below : Below i p.indices) where
  -- Round `k` of the loop stores `g v` at element `k`.
  abbrev pub Stores : ℕ → Value → Type 0
  Stores k v =
      (fr : Frame) (u : Value)
      → P u
      → read fr ((i, k) ∷ vars) (record p { indices = p.indices ++ i ∷ [] }) ≡ some u
      → f k fr ≡ write fr ((i, k) ∷ vars) (record p { indices = p.indices ++ i ∷ [] }) (g v)

  pub repeat-Stores :
      (done olds vs : Values) (k : ℕ) (fr : Frame)
      → count done ≡ k
      → count olds ≡ count vs
      → AllValues P olds
      → ((m j : ℕ) (v : Value) → get_index m vs ≡ some v → j ≡ k + m → Stores j v)
      → read fr vars p ≡ some (items (append_values done olds))
      → repeat (count vs) k f fr ≡ write fr vars p (items (append_values done (map_values g vs)))
  unfolding repeat count map_values get_index
  repeat-Stores done stop stop k fr at_k len all rounds r = sym (write-get fr vars p _ r)
  repeat-Stores done stop (more v vs) k fr at_k len all rounds r = absurd (omega arith)
  repeat-Stores done (more u us) stop k fr at_k len all rounds r = absurd (omega arith)
  repeat-Stores done (more u us) (more v vs) k fr at_k len (fits, all) rounds r =
      let got =
        subst (λ j. get_index j (append_values done (more u us)) ≡ some u) at_k
          (get_index-append done us u) in
      let set =
        subst
          (λ j.
            set_index j (g v) (append_values done (more u us))
            ≡ some (append_values done (more (g v) us)))
          at_k (set_index-append done us u (g v)) in
      let now =
        rounds 0 k v refl (omega arith) fr u fits (read-snoc fr vars i k p u _ below r got) in
      let put = write-Put fr vars p _ (items (append_values done (more (g v) us))) r in
      let stored = now ∙ write-snoc fr vars i k p (g v) u _ _ below r got set ∙ put.written in
      let done' = append_values done (more (g v) stop) in
      let rest =
        repeat-Stores done' us vs (suc k) put.after (omega (arith, count-snoc done (g v)))
          (omega arith) all (λ m j w got e. rounds (suc m) j w got (omega arith))
          (put.read_back ∙ ap (λ ws. some (items ws)) (sym (append_values-snoc done us (g v)))) in
      rw stored (
        rest
        ∙ put.again _
        ∙ ap (λ ws. write fr vars p (items ws)) (append_values-snoc done (map_values g vs) (g v)))

count-stop : count stop ≡ 0
unfolding count
count-stop = refl

module _ (env : Env) (reg : Registry) (callable : Callable env reg) where
  pub encode-size :
      (t : SsType) (v : Value)
      → IsFieldType reg t
      → HasType t v
      → length (encode t v) ≡ packed_size t
  unfolding encode packed_size
  encode-size (array t n) (items vs) (pos, typed) (len, all) =
      let sized =
        concat_values-size (encode t) (packed_size t) vs
          (λ m u got. encode-size t u typed (AllValues-get_index (HasType t) m vs u all got)) in
      sized ∙ ap (λ k. packed_size t * k) len
  encode-size (array t n) _ typed fits = absurd fits
  encode-size (primitive n b) v typed fits = (callable (primitive n b) tt typed v fits).0
  encode-size (bitfield n d fs b) v typed fits = (callable (bitfield n d fs b) tt typed v fits).0
  encode-size (enum n d vs b) v typed fits = (callable (enum n d vs b) tt typed v fits).0
  encode-size (struct n d fs) v typed fits = (callable (struct n d fs) tt typed v fits).0
  encode-size (message n d fs) v typed fits = (callable (message n d fs) tt typed v fits).0

  module _ (buf : List ℕ) (base : ℕ) where
    pub exec-call :
        (vars : Vars) (t : SsType) (p : Place) (off : Offset) (u v : Value) (k : ℕ) (fr : Frame)
        → read fr vars p ≡ some u
        → eval_offset vars off ≡ some k
        → (get_function (unpack_function_name t) env >>= λ f. f buf (base + k) u)
          ≡ some (success, v)
        → exec env buf base vars (call (unpack_function_name t) p off) fr ≡ write fr vars p v
    unfolding exec
    exec-call vars t p off u v k fr r e h =
        let (f, found, called) = >>=-eq-some (get_function (unpack_function_name t) env) _ h in
        rw (r, e, found, called) refl

    abbrev pub UnpacksArray : SsType → Type 0
    UnpacksArray t =
        (p : Place) (n : ℕ) (off : Offset) (i : ℕ) (s : Stmt) (vars : Vars) (vs olds : Values)
        (k : ℕ) (fr : Frame)
        → IsFieldType reg t
        → array_unpack p t n off i ≡ ok s
        → Below i p.indices
        → OffsetBelow i off
        → read fr vars p ≡ some (items olds)
        → eval_offset vars off ≡ some k
        → HasType (array t n) (items vs)
        → HasType (array t n) (items olds)
        → Holds buf (base + k) (encode (array t n) (items vs))
        → ShortArrays (array t n)
        → k + packed_size t * n < 2 ^ 31
        → exec env buf base vars s fr ≡ write fr vars p (received (array t n) (items vs))

    loop-Stores :
        (t : SsType) (p : Place) (n : ℕ) (i : ℕ) (inner : Stmt) (vars : Vars) (vs olds : Values)
        (k : ℕ) (fr : Frame) (below : Below i p.indices)
        → IsFieldType reg t
        → read fr vars p ≡ some (items olds)
        → HasType (array t n) (items vs)
        → HasType (array t n) (items olds)
        → Holds buf (base + k) (encode (array t n) (items vs))
        → n < 2 ^ 31
        → ((m : ℕ) (v : Value)
            → m < n
            → HasType t v
            → Holds buf (base + k + m * packed_size t) (encode t v)
            → Stores
                (λ m fr. exec env buf base ((i, m) ∷ vars) inner fr)
                (received t)
                (HasType t)
                vars
                i
                p
                below
                m
                v)
        → exec env buf base vars (loop i n inner) fr
          ≡ write fr vars p (received (array t n) (items vs))
    unfolding exec encode received
    loop-Stores t p n i inner vars vs olds k fr below typed r (len, all) (old_len, old_all) h short
          round =
        let fits = λ (m : ℕ) (u : Value) (got : get_index m vs ≡ some u).
          AllValues-get_index (HasType t) m vs u all got in
        let sized = λ (m : ℕ) (u : Value) (got : get_index m vs ≡ some u).
          encode-size t u typed (fits m u got) in
        let f = λ (m : ℕ) (fr : Frame). exec env buf base ((i, m) ∷ vars) inner fr in
        rw (int_value-lt n short, ← len)
          (repeat-Stores f (received t) (HasType t) vars i p below stop olds vs 0 fr count-stop
            (old_len ∙ sym len) old_all
            (λ m j v got e.
              let at_j : m ≡ j = omega arith in
              round j v (omega (arith, len, get_index-lt m vs got)) (fits m v got) (
                subst (λ m. Holds buf (base + k + m * packed_size t) (encode t v)) at_j
                  (Holds-element (encode t) (packed_size t) buf (base + k) m vs v sized h got)))
            r)

    named-UnpacksArray : (t : SsType) → IsNamed t → UnpacksArray t
    named-UnpacksArray t named p n off i s vars vs olds k fr typed made below ob r e fits old_fits h
          (short, shorts) top =
        rw (named_unpack-cases p t n off i s named made) (
          loop-Stores t p n i _ vars vs olds k fr below typed r fits old_fits h short
            (λ m v lt v_fits held fr u u_fits got.
              let at_m : base + k + m * packed_size t ≡ base + (m * packed_size t + k) =
                omega arith in
              let in_range = element_end m n (packed_size t) lt in
              exec-call ((i, m) ∷ vars) t _ (scaled i (packed_size t) off) u (received t v)
                (m * packed_size t + k) fr got
                (eval_offset-scaled vars i m (packed_size t) k off ob e (omega arith))
                ((callable t named typed v v_fits).1 u buf (base + (m * packed_size t + k)) u_fits
                  (subst (λ j. Holds buf j (encode t v)) at_m held))))

    nested-Stores :
        (t : SsType) (m : ℕ) (p : Place) (off : Offset) (i j k : ℕ) (fr : Frame) (inner : Stmt)
        (vars : Vars) (v u : Value)
        → UnpacksArray t
        → IsFieldType reg t
        → array_unpack
            (record p { indices = p.indices ++ i ∷ [] })
            t
            m
            (scaled i (packed_size (array t m)) off)
            (i + 1)
          ≡ ok inner
        → Below i p.indices
        → OffsetBelow i off
        → eval_offset vars off ≡ some k
        → HasType (array t m) v
        → HasType (array t m) u
        → Holds buf (base + k + j * packed_size (array t m)) (encode (array t m) v)
        → read fr ((i, j) ∷ vars) (record p { indices = p.indices ++ i ∷ [] }) ≡ some u
        → ShortArrays (array t m)
        → j * packed_size (array t m) + k + packed_size (array t m) < 2 ^ 31
        → exec env buf base ((i, j) ∷ vars) inner fr
          ≡ write fr
              ((i, j) ∷ vars)
              (record p { indices = p.indices ++ i ∷ [] })
              (received (array t m) v)
    unfolding packed_size
    nested-Stores t m p off i j k fr inner vars (items vs) (items us) unpacks typed made below ob e
          fits old_fits held got shorts top =
        let size = packed_size (array t m) in
        let at_j : base + k + j * size ≡ base + (j * size + k) = omega arith in
        unpacks (record p { indices = p.indices ++ i ∷ [] }) m (scaled i size off) (i + 1) inner
          ((i, j) ∷ vars) vs us (j * size + k) fr typed made (Below-snoc i p.indices below)
          (omega arith, OffsetBelow-suc i off ob) got
          (eval_offset-scaled vars i j size k off ob e (omega arith)) fits old_fits
          (subst (λ l. Holds buf l (encode (array t m) (items vs))) at_j held) shorts (omega arith)
    nested-Stores t m p off i j k fr inner vars (items vs) _ unpacks typed made below ob e fits
          old_fits held got shorts top =
        absurd old_fits
    nested-Stores t m p off i j k fr inner vars _ u unpacks typed made below ob e fits old_fits held
          got shorts top =
        absurd fits

    pub array_unpack-Stores : (t : SsType) → UnpacksArray t
    array_unpack-Stores (array t m) p n off i s vars vs olds k fr (pos, typed) made below ob r e
          fits old_fits h (short, shorts) top =
        let (inner, inner_made, same_s) = nested_unpack-cases p t m n off i s made in
        rw same_s (
          loop-Stores (array t m) p n i inner vars vs olds k fr below (pos, typed) r fits old_fits h
            short
            (λ j v lt v_fits held fr u u_fits got.
              let in_range = element_end j n (packed_size (array t m)) lt in
              nested-Stores t m p off i j k fr inner vars v u (array_unpack-Stores t) typed
                inner_made below ob e v_fits u_fits held got shorts (omega arith)))
    array_unpack-Stores _ p n off i s vars vs olds k fr typed made below ob r e fits old_fits h
          short top =
        named-UnpacksArray _ tt p n off i s vars vs olds k fr typed made below ob r e fits old_fits
          h short top
