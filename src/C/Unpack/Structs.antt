-- ===== src/C/Unpack/Structs.antt =====
-- The bodies of struct unpacking functions fill the fields.
use mathlib.Core.Path.{subst, fun_ext}
use stuff_sack.Prelude.{
  ℕ, ◌+◌, ◌^◌, ◌≡◌, ◌<◌, refl, ap, ◌∙◌, true, false, List, [], ◌∷◌, ◌++◌, Option, none, some, arith,
  inl, inr, Bool-cases, if◌then◌else◌,
}
use stuff_sack.Prelude.Text.{Text, codes, same, Distinct}
use stuff_sack.Errors
use stuff_sack.Errors.{Result, ok}
use stuff_sack.Types.{
  SsType, primitive, bitfield, enum, struct, message, array, Fields, nil, field, field_names,
  packed_size, fields_size, type_name,
}
use stuff_sack.Names.{unpack_function_name}
use stuff_sack.Spec.Build.{Registry}
use stuff_sack.Spec.WellFormed.{IsFieldType, HasFieldTypes}
use stuff_sack.Spec.WellFormed.Types.{IsNamed}
use stuff_sack.C.Syntax.{at, Place, Stmt, call}
use stuff_sack.C.Generate.{is_aliased}
use stuff_sack.C.Memory.{
  Value, items, Members, last, member, ◌>>=◌, get_member, set_member, index_all, eval_offset,
}
use stuff_sack.C.Run.Spec.{ShortArrays, ShortFields, HasType, encode, encode_fields}
use stuff_sack.C.Unpack.{field_unpack, fields_unpack, array_unpack}
use stuff_sack.C.Unpack.Run.{Env, Frame, read, write, exec, exec_all, set_index_all}
use stuff_sack.C.Unpack.Spec.{received}
use stuff_sack.C.Unpack.Calls.{Holds, Holds-append, Callable}
use stuff_sack.C.Unpack.Arrays.{encode-size, exec-call, array_unpack-Stores}
use stuff_sack.C.Unpack.Members.{
  members_of, HasValues, received_values, aliased_of, merged, join, join-snoc, Absent, Absent-snoc,
  get_member-join, set_member-join,
}

-- No field has the type that `struct_unpack_body` leaves out.
abbrev pub NoHeaders : Fields → Type 0
NoHeaders nil = Unit
NoHeaders (field n t d a fs) = (same (type_name t) (codes "SsHeader") ≡ false) × NoHeaders fs

abbrev pub place_of : Text → Option Text → Place
place_of n a = record { local = is_aliased a; name = n; indices = [] }

named_field-cases :
    (n : Text) (t : SsType) (a : Option Text) (off : ℕ) (ss : List Stmt)
    → IsNamed t
    → same (type_name t) (codes "SsHeader") ≡ false
    → field_unpack n t a off ≡ ok ss
    → ss ≡ call (unpack_function_name t) (place_of n a) (at off) ∷ []
unfolding field_unpack
named_field-cases n (array t m) a off ss named plain h = absurd named
named_field-cases n _ a off ss named plain h = ground arith

array_field-cases :
    (n : Text) (t : SsType) (m : ℕ) (a : Option Text) (off : ℕ) (ss : List Stmt)
    → same (type_name (array t m)) (codes "SsHeader") ≡ false
    → field_unpack n (array t m) a off ≡ ok ss
    → (s : Stmt) × (array_unpack (place_of n a) t m (at off) b'i' ≡ ok s) × (ss ≡ s ∷ [])
unfolding field_unpack
array_field-cases n t m a off ss plain h =
    let looped : Errors.◌>>=◌ (array_unpack (place_of n a) t m (at off) b'i') (λ s. ok (s ∷ []))
        ≡ ok ss =
      rw (plain, field_unpack) at h in
    let (s, made, e) = Errors.>>=-eq-ok (array_unpack (place_of n a) t m (at off) b'i') _ looped in
    (s, made, cc)

>>=-some {ℓ} : {A : Type ℓ} (m : Option A) → (m >>= λ a. some a) ≡ m
>>=-some none = refl
>>=-some (some a) = refl

>>=-assoc {ℓ} :
    {A : Type ℓ} (m : Option A) (f g : A → Option A) → (m >>= λ a. f a >>= g) ≡ (m >>= f >>= g)
>>=-assoc none f g = refl
>>=-assoc (some a) f g = refl

module _ (arg locals : Members) (n : Text) (a : Option Text) (old w : Value) where
  read-local :
      is_aliased a ≡ true
      → get_member n locals ≡ some old
      → read (record { arg = arg; locals = locals }) [] (place_of n a) ≡ some old
  unfolding read index_all
  read-local e h = rw (e, h) refl

  read-arg :
      is_aliased a ≡ false
      → get_member n arg ≡ some old
      → read (record { arg = arg; locals = locals }) [] (place_of n a) ≡ some old
  unfolding read index_all
  read-arg e h = rw (e, h) refl

  write-local :
      is_aliased a ≡ true
      → get_member n locals ≡ some old
      → write (record { arg = arg; locals = locals }) [] (place_of n a) w
        ≡ some (record { arg = arg; locals = set_member n w locals })
  unfolding write set_index_all
  write-local e h = rw (e, h) refl

  write-arg :
      is_aliased a ≡ false
      → get_member n arg ≡ some old
      → write (record { arg = arg; locals = locals }) [] (place_of n a) w
        ≡ some (record { arg = set_member n w arg; locals = locals })
  unfolding write set_index_all
  write-arg e h = rw (e, h) refl

-- The members `da` and the copies `dl` of fields that are done, then those of `fs`
abbrev pub frame_of : Members → Members → Fields → List Value → List Value → Frame
frame_of da dl fs xs ys = record {
  arg = join da (members_of fs xs);
  locals = join dl (aliased_of fs ys);
}

-- A field that is stored, and the fields behind it
module _ (n : Text) (t : SsType) (d a : Option Text) (fs : Fields) (x old : Value)
    (zs news olds : List Value) (m : Option Frame) (k : Frame → Option Frame)
    (da dl : Members) where
  abbrev start : Frame
  start = frame_of da dl (field n t d a fs) (old ∷ olds) (old ∷ olds)

  abbrev end : Frame
  end = frame_of da dl (field n t d a fs) ((if is_aliased a then old else x) ∷ zs) (x ∷ news)

  store_local :
      is_aliased a ≡ true
      → get_member n dl ≡ none
      → (read start [] (place_of n a) ≡ some old → m ≡ write start [] (place_of n a) x)
      → k (frame_of (join da (member n old last)) (join dl (member n x last)) fs olds olds)
        ≡ some (frame_of (join da (member n old last)) (join dl (member n x last)) fs zs news)
      → (m >>= k) ≡ some end
  store_local aliased absent first rest =
      let got : get_member n start.locals ≡ some old =
        rw aliased (get_member-join n old dl (aliased_of fs olds) absent) in
      let set : set_member n x start.locals ≡ join dl (member n x (aliased_of fs olds)) =
        rw aliased (set_member-join n old x dl (aliased_of fs olds) absent) in
      rw
        (
          first (read-local start.arg start.locals n a old x aliased got),
          write-local start.arg start.locals n a old x aliased got,
          set,
          aliased,
        )
        (rw
          (
            join-snoc da (members_of fs olds) n old,
            join-snoc dl (aliased_of fs olds) n x,
            join-snoc da (members_of fs zs) n old,
            join-snoc dl (aliased_of fs news) n x,
          )
          at rest)

  store_arg :
      is_aliased a ≡ false
      → get_member n da ≡ none
      → (read start [] (place_of n a) ≡ some old → m ≡ write start [] (place_of n a) x)
      → k (frame_of (join da (member n x last)) dl fs olds olds)
        ≡ some (frame_of (join da (member n x last)) dl fs zs news)
      → (m >>= k) ≡ some end
  store_arg unaliased absent first rest =
      let got : get_member n start.arg ≡ some old =
        get_member-join n old da (members_of fs olds) absent in
      let set : set_member n x start.arg ≡ join da (member n x (members_of fs olds)) =
        set_member-join n old x da (members_of fs olds) absent in
      rw
        (
          first (read-arg start.arg start.locals n a old x unaliased got),
          write-arg start.arg start.locals n a old x unaliased got,
          set,
          unaliased,
        )
        (rw (join-snoc da (members_of fs olds) n x, join-snoc da (members_of fs zs) n x) at rest)

module _ (env : Env) (reg : Registry) (callable : Callable env reg) (buf : List ℕ) (base : ℕ) where
  exec_all-one :
      (s : Stmt) (fr : Frame) → exec_all env buf base (s ∷ []) fr ≡ exec env buf base [] s fr
  unfolding exec_all
  exec_all-one s fr = >>=-some (exec env buf base [] s fr)

  exec_all-append :
      (ss rest : List Stmt) (fr : Frame)
      → exec_all env buf base (ss ++ rest) fr
        ≡ (exec_all env buf base ss fr >>= λ fr'. exec_all env buf base rest fr')
  unfolding exec_all
  exec_all-append [] rest fr = refl
  exec_all-append (s ∷ ss) rest fr =
      ap (λ f. exec env buf base [] s fr >>= f) (fun_ext λ fr'. exec_all-append ss rest fr')
      ∙ >>=-assoc (exec env buf base [] s fr) (λ fr'. exec_all env buf base ss fr')
          (λ fr'. exec_all env buf base rest fr')

  abbrev StoresField : SsType → Type 0
  StoresField t =
      (n : Text) (a : Option Text) (off : ℕ) (ss : List Stmt) (v old : Value) (fr : Frame)
      → IsFieldType reg t
      → same (type_name t) (codes "SsHeader") ≡ false
      → field_unpack n t a off ≡ ok ss
      → read fr [] (place_of n a) ≡ some old
      → HasType t v
      → HasType t old
      → Holds buf (base + off) (encode t v)
      → ShortArrays t
      → off + packed_size t < 2 ^ 31
      → exec_all env buf base ss fr ≡ write fr [] (place_of n a) (received t v)

  eval_offset-at : (off : ℕ) → eval_offset [] (at off) ≡ some off
  unfolding eval_offset
  eval_offset-at off = refl

  named-StoresField : (t : SsType) → IsNamed t → StoresField t
  named-StoresField t named n a off ss v old fr typed plain made r fits old_fits h short top =
      rw (named_field-cases n t a off ss named plain made) (
        exec_all-one _ fr
        ∙ exec-call env reg callable buf base [] t (place_of n a) (at off) old (received t v) off fr
            r (eval_offset-at off)
            ((callable t named typed v fits).1 old buf (base + off) old_fits h))

  array-StoresField : (t : SsType) (m : ℕ) → StoresField (array t m)
  unfolding packed_size
  array-StoresField t m n a off ss (items vs) (items olds) fr (pos, typed) plain made r fits
        old_fits h short top =
      let (s, s_made, one) = array_field-cases n t m a off ss plain made in
      rw one (
        exec_all-one s fr
        ∙ array_unpack-Stores env reg callable buf base t (place_of n a) m (at off) _ s [] vs olds
            off fr typed s_made tt tt r (eval_offset-at off) fits old_fits h short top)
  array-StoresField t m n a off ss (items vs) _ fr typed plain made r fits old_fits h short top =
      absurd old_fits
  array-StoresField t m n a off ss _ old fr typed plain made r fits old_fits h short top =
      absurd fits

  field_unpack-Stores : (t : SsType) → StoresField t
  field_unpack-Stores (array t m) = array-StoresField t m
  field_unpack-Stores (primitive n b) = named-StoresField (primitive n b) tt
  field_unpack-Stores (bitfield n d fs b) = named-StoresField (bitfield n d fs b) tt
  field_unpack-Stores (enum n d vs b) = named-StoresField (enum n d vs b) tt
  field_unpack-Stores (struct n d fs) = named-StoresField (struct n d fs) tt
  field_unpack-Stores (message n d fs) = named-StoresField (message n d fs) tt

  pub fields_unpack-Stores :
      (fs : Fields) (off : ℕ) (ss : List Stmt) (da dl : Members) (vs olds : List Value)
      → HasFieldTypes reg fs
      → NoHeaders fs
      → fields_unpack fs off ≡ ok ss
      → Distinct (field_names fs)
      → Absent da fs
      → Absent dl fs
      → HasValues fs vs
      → HasValues fs olds
      → Holds buf (base + off) (encode_fields fs (members_of fs vs))
      → ShortFields fs
      → off + fields_size fs < 2 ^ 31
      → exec_all env buf base ss (frame_of da dl fs olds olds)
        ≡ some (frame_of da dl fs (merged fs olds (received_values fs vs)) (received_values fs vs))
  unfolding fields_unpack exec_all encode_fields field_names fields_size
  fields_unpack-Stores nil off ss da dl [] [] typed plain h distinct ha hl fits old_fits held shorts
        top =
      let e : [] ≡ ss = cc in rw (← e) refl
  fields_unpack-Stores nil off ss da dl (v ∷ vs) olds typed plain h distinct ha hl fits old_fits
        held shorts top =
      absurd fits
  fields_unpack-Stores nil off ss da dl [] (v ∷ olds) typed plain h distinct ha hl fits old_fits
        held shorts top =
      absurd old_fits
  fields_unpack-Stores (field n t d a fs) off ss da dl [] olds typed plain h distinct ha hl fits
        old_fits held shorts top =
      absurd fits
  fields_unpack-Stores (field n t d a fs) off ss da dl (v ∷ vs) [] typed plain h distinct ha hl fits
        old_fits held shorts top =
      absurd old_fits
  fields_unpack-Stores (field n t d a fs) off ss da dl (v ∷ vs) (old ∷ olds) (typed, types)
        (plain, plains) h (fresh, distinct) (a_here, ha) (l_here, hl) (v_fits, fits)
        (o_fits, old_fits) held (short, shorts) top =
      let (ss₁, made, h₁) = Errors.>>=-eq-ok (field_unpack n t a off) _ h in
      let (ss₂, looped, h₂) = Errors.>>=-eq-ok (fields_unpack fs (off + packed_size t)) _ h₁ in
      let e : ss₁ ++ ss₂ ≡ ss = cc in
      let sized = encode-size env reg callable t v typed v_fits in
      let (head, tail) = Holds-append buf (base + off) (packed_size t) (encode t v) _ sized held in
      let x = received t v in
      let news = received_values fs vs in
      let da' = λ (y : Value). join da (member n y last) in
      let rest = λ (y : Value) (dl : Members) (hl : Absent dl fs).
        fields_unpack-Stores fs (off + packed_size t) ss₂ (da' y) dl vs olds types plains looped
          distinct (Absent-snoc da n y fs ha fresh) hl fits old_fits
          (subst (λ k. Holds buf k (encode_fields fs (members_of fs vs))) (omega arith) tail) shorts
          (omega arith) in
      let first =
        λ (r : read (frame_of da dl (field n t d a fs) (old ∷ olds) (old ∷ olds)) [] (place_of n a)
            ≡ some old).
          field_unpack-Stores t n a off ss₁ v old _ typed plain made r v_fits o_fits head short
            (omega arith) in
      rw (← e) (
        exec_all-append ss₁ ss₂ _ ∙ elim (Bool-cases (is_aliased a)) [
          | inl aliased ↦
              store_local n t d a fs x old _ news olds _ _ da dl aliased l_here first
                (rest old (join dl (member n x last)) (Absent-snoc dl n x fs hl fresh))
          | inr unaliased ↦
              store_arg n t d a fs x old _ news olds _ _ da dl unaliased a_here first (rest x dl hl)
        ])
