-- ===== src/C/Unpack/Calls.antt =====
-- Generated statements store what they unpack at the places of the fields.
use mathlib.Core.List.{append_assoc}
use stuff_sack.Prelude.{
  ℕ, suc, ◌+◌, ◌≡◌, refl, ap, sym, ◌∙◌, List, [], ◌∷◌, ◌++◌, some, arith, length, length-append,
  leb,
}
use stuff_sack.Errors
use stuff_sack.Errors.{Result, ok, err, guard, guard-eq-ok, value_error}
use stuff_sack.Types.{SsType, array, root_type, packed_size}
use stuff_sack.Names.{unpack_function_name}
use stuff_sack.Spec.Build.{Registry}
use stuff_sack.Spec.WellFormed.{IsFieldType}
use stuff_sack.Spec.WellFormed.Types.{IsNamed}
use stuff_sack.C.Syntax.{Offset, scaled, Place, Stmt, call, loop}
use stuff_sack.C.Memory.{Value, Values, stop, more, ◌>>=◌, get_index, count}
use stuff_sack.C.Run.Spec.{HasType, encode}
use stuff_sack.C.Unpack.{array_unpack}
use stuff_sack.C.Unpack.Run.{success, Env, get_function, set_index}
use stuff_sack.C.Unpack.Spec.{received}

-- The bytes stand in the buffer at place `k`.
pub record Holds (buf : List ℕ) (k : ℕ) (bytes : List ℕ) : Type 0 where
  pub pre : List ℕ
  pub post : List ℕ
  pub whole : buf ≡ pre ++ (bytes ++ post)
  pub place : length pre ≡ k

pub Holds-append :
    (buf : List ℕ) (k n : ℕ) (xs ys : List ℕ)
    → length xs ≡ n
    → Holds buf k (xs ++ ys)
    → Holds buf k xs × Holds buf (k + n) ys
Holds-append buf k n xs ys len h = (
  record {
    pre = h.pre;
    post = ys ++ h.post;
    whole = h.whole ∙ ap (λ l. h.pre ++ l) (append_assoc xs ys h.post);
    place = h.place;
  },
  record {
    pre = h.pre ++ xs;
    post = h.post;
    whole =
        h.whole
        ∙ ap (λ l. h.pre ++ l) (append_assoc xs ys h.post)
        ∙ sym (append_assoc h.pre xs (ys ++ h.post));
    place = omega (arith, length-append h.pre xs, h.place);
  },
)

-- A call of the type's unpacking function, at the bytes of a value of the type, leaves that value in
-- any object of the type.
abbrev pub UnpacksAs : Env → SsType → Type 0
UnpacksAs env t =
    (v : Value)
    → HasType t v
    → (length (encode t v) ≡ packed_size t)
      × ((old : Value) (buf : List ℕ) (k : ℕ)
          → HasType t old
          → Holds buf k (encode t v)
          → (get_function (unpack_function_name t) env >>= λ f. f buf k old)
            ≡ some (success, received t v))

abbrev pub Callable : Env → Registry → Type 0
Callable env reg = (t : SsType) → IsNamed t → IsFieldType reg t → UnpacksAs env t

abbrev pub append_values : Values → Values → Values
append_values stop ws = ws
append_values (more v vs) ws = more v (append_values vs ws)

pub append_values-snoc :
    (vs ws : Values) (u : Value)
    → append_values (append_values vs (more u stop)) ws ≡ append_values vs (more u ws)
append_values-snoc stop ws u = refl
append_values-snoc (more v vs) ws u = ap (more v) (append_values-snoc vs ws u)

pub append_values-stop : (vs : Values) → append_values vs stop ≡ vs
append_values-stop stop = refl
append_values-stop (more v vs) = ap (more v) (append_values-stop vs)

pub count-snoc : (vs : Values) (u : Value) → count (append_values vs (more u stop)) ≡ suc (count vs)
unfolding count
count-snoc stop u = refl
count-snoc (more v vs) u = omega (arith, count-snoc vs u)

pub get_index-append :
    (vs ws : Values) (u : Value) → get_index (count vs) (append_values vs (more u ws)) ≡ some u
unfolding get_index count
get_index-append stop ws u = refl
get_index-append (more v vs) ws u = get_index-append vs ws u

pub set_index-append :
    (vs ws : Values) (u w : Value)
    → set_index (count vs) w (append_values vs (more u ws)) ≡ some (append_values vs (more w ws))
unfolding set_index count
set_index-append stop ws u w = refl
set_index-append (more v vs) ws u w = rw (set_index-append vs ws u w) refl

pub named_unpack-cases :
    (p : Place) (t : SsType) (n : ℕ) (off : Offset) (i : ℕ) (s : Stmt)
    → IsNamed t
    → array_unpack p t n off i ≡ ok s
    → s
      ≡ loop i n (
          call
            (unpack_function_name t)
            (record p { indices = p.indices ++ i ∷ [] })
            (scaled i (packed_size t) off))
unfolding array_unpack root_type
named_unpack-cases p (array t m) n off i s named h = absurd named
named_unpack-cases p _ n off i s named h = ground arith

pub nested_unpack-cases :
    (p : Place) (t : SsType) (m n : ℕ) (off : Offset) (i : ℕ) (s : Stmt)
    → array_unpack p (array t m) n off i ≡ ok s
    → (inner : Stmt) × (array_unpack
          (record p { indices = p.indices ++ i ∷ [] })
          t
          m
          (scaled i (packed_size (array t m)) off)
          (i + 1)
        ≡ ok inner)
      × (s ≡ loop i n inner)
unfolding array_unpack
nested_unpack-cases p t m n off i s h =
    let (fits, h₁) = guard-eq-ok (leb i b'z') _ _ h in
    let q = record p { indices = p.indices ++ i ∷ [] } in
    let (inner, made, h₂) =
      Errors.>>=-eq-ok (array_unpack q t m (scaled i (packed_size (array t m)) off) (i + 1)) _ h₁ in
    (inner, made, cc)
