-- ===== src/C/Unpack/Frames.antt =====
-- Reads and writes of a frame, and at the elements of an array in it.
use mathlib.Core.Path.{ap₂, fun_ext}
use stuff_sack.Prelude.{
  ℕ, ◌≡◌, refl, ap, sym, ◌∙◌, true, false, Bool, List, [], ◌∷◌, ◌++◌, some, arith,
}
use stuff_sack.Prelude.Text.{Text}
use stuff_sack.C.Syntax.{Place}
use stuff_sack.C.Memory.{
  Value, items, Values, Members, last, member, ◌>>=◌, >>=-eq-some, get_member, set_member,
  get_index, Vars, index_all,
}
use stuff_sack.C.Run.Frames.{Below, index_all-snoc, get_var-below, get_var-here}
use stuff_sack.C.Unpack.Run.{set_index, set_index_all, Frame, side, with_side, read, write}
use stuff_sack.C.Unpack.Places.{
  index_all-Step, set_index_all-cons, set_index_all-Written, set_index_all-get,
}

pub get_member-set :
    (s : Text) (v w : Value) (ms : Members)
    → get_member s ms ≡ some v
    → get_member s (set_member s w ms) ≡ some w
unfolding get_member set_member
get_member-set s v w last h = absurd (ground arith)
get_member-set s v w (member n u ms) h = ground (arith, get_member-set s v w ms)

set_member-set :
    (s : Text) (x w : Value) (ms : Members) → set_member s x (set_member s w ms) ≡ set_member s x ms
unfolding set_member
set_member-set s x w last = refl
set_member-set s x w (member n u ms) = ground (arith, set_member-set s x w ms)

set_member-get :
    (s : Text) (v : Value) (ms : Members) → get_member s ms ≡ some v → set_member s v ms ≡ ms
unfolding get_member set_member
set_member-get s v last h = refl
set_member-get s v (member n u ms) h = ground (arith, set_member-get s v ms)

side-with : (b : Bool) (fr : Frame) (ms : Members) → side b (with_side b fr ms) ≡ ms
side-with true fr ms = refl
side-with false fr ms = refl

with_side-with :
    (b : Bool) (fr : Frame) (ms ns : Members)
    → with_side b (with_side b fr ms) ns ≡ with_side b fr ns
with_side-with true fr ms ns = refl
with_side-with false fr ms ns = refl

with_side-side : (b : Bool) (fr : Frame) → with_side b fr (side b fr) ≡ fr
with_side-side true fr = refl
with_side-side false fr = refl

-- What a write of `w` at a place that can be read leaves
pub record Put (fr : Frame) (vars : Vars) (p : Place) (w : Value) : Type 0 where
  pub after : Frame
  pub written : write fr vars p w ≡ some after
  pub read_back : read after vars p ≡ some w
  pub again : (x : Value) → write after vars p x ≡ write fr vars p x

-- A read, in its two steps
read-parts :
    (fr : Frame) (vars : Vars) (p : Place) (u : Value)
    → read fr vars p ≡ some u
    → (v : Value) × (get_member p.name (side p.local fr) ≡ some v)
      × (index_all vars p.indices v ≡ some u)
unfolding read
read-parts fr vars p u h = >>=-eq-some (get_member p.name (side p.local fr)) _ h

write-of :
    (fr : Frame) (vars : Vars) (p : Place) (v x : Value)
    → get_member p.name (side p.local fr) ≡ some v
    → write fr vars p x ≡ (
        set_index_all vars p.indices x v >>= λ v'.
        some (with_side p.local fr (set_member p.name v' (side p.local fr))))
unfolding write
write-of fr vars p v x got = rw got refl

rewrite_side :
    (b : Bool) (fr : Frame) (s : Text) (w x : Value)
    → (let fr' = with_side b fr (set_member s w (side b fr)) in
        with_side b fr' (set_member s x (side b fr')))
      ≡ with_side b fr (set_member s x (side b fr))
rewrite_side true fr s w x = ap (with_side true fr) (set_member-set s x w fr.locals)
rewrite_side false fr s w x = ap (with_side false fr) (set_member-set s x w fr.arg)

module _ (fr : Frame) (vars : Vars) (p : Place) where
  pub write-get : (u : Value) → read fr vars p ≡ some u → write fr vars p u ≡ some fr
  write-get u h =
      let (v, got, indexed) = read-parts fr vars p u h in
      write-of fr vars p v u got
      ∙ rw
          (
            set_index_all-get vars p.indices v u indexed,
            set_member-get p.name v (side p.local fr) got,
          )
          (ap some (with_side-side p.local fr))

  pub write-Put : (u w : Value) → read fr vars p ≡ some u → Put fr vars p w
  unfolding read write
  write-Put u w h =
      let (v, got, indexed) = read-parts fr vars p u h in
      let inner = set_index_all-Written vars p.indices v u w indexed in
      let ms = set_member p.name inner.after (side p.local fr) in
      let now : get_member p.name (side p.local (with_side p.local fr ms)) ≡ some inner.after =
        ap (get_member p.name) (side-with p.local fr ms)
        ∙ get_member-set p.name v inner.after (side p.local fr) got in
      record {
        after = with_side p.local fr ms;
        written = write-of fr vars p v w got ∙ rw inner.written refl;
        read_back = rw now inner.read_back;
        again = λ x.
            write-of (with_side p.local fr ms) vars p inner.after x now
            ∙ ap₂ (λ o f. o >>= f) (inner.again x)
                (fun_ext λ v'. ap some (rewrite_side p.local fr p.name inner.after v'))
            ∙ sym (write-of fr vars p v x got);
      }

set_index_all-snoc :
    (vars : Vars) (i k : ℕ) (is : List ℕ) (v w u : Value) (vs us : Values)
    → Below i is
    → index_all vars is v ≡ some (items vs)
    → get_index k vs ≡ some u
    → set_index k w vs ≡ some us
    → set_index_all ((i, k) ∷ vars) (is ++ i ∷ []) w v ≡ set_index_all vars is (items us) v
unfolding set_index_all index_all
set_index_all-snoc vars i k [] v w u vs us below h got set =
    let e : v ≡ items vs = cc in
    rw e
      (set_index_all-cons ((i, k) ∷ vars) i k [] w u vs (get_var-here vars i k) got ∙ rw set refl)
set_index_all-snoc vars i k (j ∷ is) v w u vs us (lt, below) h got set =
    let s = index_all-Step vars j is v (items vs) h in
    rw s.is_items (
      set_index_all-cons ((i, k) ∷ vars) j s.index (is ++ i ∷ []) w s.element s.elements
        (get_var-below vars i k j lt ∙ s.var) s.got
      ∙ ap (λ o. o >>= λ v'. set_index s.index v' s.elements >>= λ us. some (items us))
          (set_index_all-snoc vars i k is s.element w u vs us below s.deeper got set)
      ∙ sym (set_index_all-cons vars j s.index is (items us) s.element s.elements s.var s.got))

-- A write to an element of an array is a write of the array with that element set.
pub write-snoc :
    (fr : Frame) (vars : Vars) (i k : ℕ) (p : Place) (w u : Value) (vs us : Values)
    → Below i p.indices
    → read fr vars p ≡ some (items vs)
    → get_index k vs ≡ some u
    → set_index k w vs ≡ some us
    → write fr ((i, k) ∷ vars) (record p { indices = p.indices ++ i ∷ [] }) w
      ≡ write fr vars p (items us)
write-snoc fr vars i k p w u vs us below h got set =
    let (v, found, indexed) = read-parts fr vars p (items vs) h in
    write-of fr ((i, k) ∷ vars) (record p { indices = p.indices ++ i ∷ [] }) v w found
    ∙ ap (λ o. o >>= λ v'. some (with_side p.local fr (set_member p.name v' (side p.local fr))))
        (set_index_all-snoc vars i k p.indices v w u vs us below indexed got set)
    ∙ sym (write-of fr vars p v (items us) found)

pub read-snoc :
    (fr : Frame) (vars : Vars) (i k : ℕ) (p : Place) (u : Value) (vs : Values)
    → Below i p.indices
    → read fr vars p ≡ some (items vs)
    → get_index k vs ≡ some u
    → read fr ((i, k) ∷ vars) (record p { indices = p.indices ++ i ∷ [] }) ≡ some u
unfolding read
read-snoc fr vars i k p u vs below h got =
    let (v, found, indexed) = read-parts fr vars p (items vs) h in
    rw found (index_all-snoc vars i k p.indices v u vs below indexed got)
