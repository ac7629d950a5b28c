-- ===== src/C/Unpack/Places.antt =====
-- Reads and writes at places: what is written is read back, and the last write counts.
use mathlib.Core.Path.{ap₂, fun_ext}
use stuff_sack.Prelude.{ℕ, zero, suc, ◌≡◌, refl, ap, sym, ◌∙◌, List, [], ◌∷◌, some, arith}
use stuff_sack.C.Memory.{
  Value, items, Values, stop, more, ◌>>=◌, >>=-eq-some, get_index, Vars, get_var, index_all,
}
use stuff_sack.C.Run.Frames.{index_all-cons}
use stuff_sack.C.Unpack.Run.{set_index, set_index_all}

set_index-total :
    (k : ℕ) (w u : Value) (vs : Values)
    → get_index k vs ≡ some u
    → (us : Values) × (set_index k w vs ≡ some us)
unfolding get_index set_index
set_index-total k w u stop h = absurd (ground arith)
set_index-total zero w u (more v vs) h = (more w vs, refl)
set_index-total (suc k) w u (more v vs) h =
    let (us, e) = set_index-total k w u vs h in (more v us, rw e)

get_index-set :
    (k : ℕ) (w : Value) (vs us : Values) → set_index k w vs ≡ some us → get_index k us ≡ some w
unfolding get_index set_index
get_index-set k w stop us h = absurd (ground arith)
get_index-set zero w (more v vs) us h = ground arith
get_index-set (suc k) w (more v vs) us h =
    let (vs', made, e) = >>=-eq-some (set_index k w vs) _ h in
    let e' : more v vs' ≡ us = cc in rw (← e') (get_index-set k w vs vs' made)

set_index-set :
    (k : ℕ) (w x : Value) (vs us : Values)
    → set_index k w vs ≡ some us
    → set_index k x us ≡ set_index k x vs
unfolding set_index
set_index-set k w x stop us h = absurd (ground arith)
set_index-set zero w x (more v vs) us h = ground arith
set_index-set (suc k) w x (more v vs) us h =
    let (vs', made, e) = >>=-eq-some (set_index k w vs) _ h in
    let e' : more v vs' ≡ us = cc in
    rw (← e') (ap (λ o. o >>= λ r. some (more v r)) (set_index-set k w x vs vs' made))

set_index-get :
    (k : ℕ) (u : Value) (vs : Values) → get_index k vs ≡ some u → set_index k u vs ≡ some vs
unfolding get_index set_index
set_index-get k u stop h = absurd (ground arith)
set_index-get zero u (more v vs) h = ground arith
set_index-get (suc k) u (more v vs) h = rw (set_index-get k u vs h)

module _ (vars : Vars) where
  -- One index: what it evaluates to, and the elements there
  pub record Step (i : ℕ) (is : List ℕ) (v u : Value) : Type 0 where
    pub elements : Values
    pub index : ℕ
    pub element : Value
    pub is_items : v ≡ items elements
    pub var : get_var i vars ≡ some index
    pub got : get_index index elements ≡ some element
    pub deeper : index_all vars is element ≡ some u

  pub index_all-Step :
      (i : ℕ) (is : List ℕ) (v u : Value) → index_all vars (i ∷ is) v ≡ some u → Step i is v u
  unfolding index_all
  index_all-Step i is (items vs) u h =
      let (k, var, h₁) = >>=-eq-some (get_var i vars) _ h in
      let (w, got, h₂) = >>=-eq-some (get_index k vs) _ h₁ in
      record {
        elements = vs;
        index = k;
        element = w;
        is_items = refl;
        var = var;
        got = got;
        deeper = h₂;
      }
  index_all-Step i is _ u h = absurd (ground arith)

  pub set_index_all-cons :
      (i k : ℕ) (is : List ℕ) (x v : Value) (vs : Values)
      → get_var i vars ≡ some k
      → get_index k vs ≡ some v
      → set_index_all vars (i ∷ is) x (items vs)
        ≡ (set_index_all vars is x v >>= λ v'. set_index k v' vs >>= λ us. some (items us))
  unfolding set_index_all
  set_index_all-cons i k is x v vs var got = rw (var, got) refl

  -- A place that can be read can be written, and then holds what was written.
  pub record Written (is : List ℕ) (v w : Value) : Type 0 where
    pub after : Value
    pub written : set_index_all vars is w v ≡ some after
    pub read_back : index_all vars is after ≡ some w
    pub again : (x : Value) → set_index_all vars is x after ≡ set_index_all vars is x v

  pub set_index_all-Written :
      (is : List ℕ) (v u w : Value) → index_all vars is v ≡ some u → Written is v w
  unfolding index_all set_index_all
  set_index_all-Written [] v u w h = record {
    after = w;
    written = refl;
    read_back = refl;
    again = λ x. refl;
  }
  set_index_all-Written (i ∷ is) v u w h =
      let s = index_all-Step i is v u h in
      let inner = set_index_all-Written is s.element u w s.deeper in
      let (us, set) = set_index-total s.index inner.after s.element s.elements s.got in
      let now = get_index-set s.index inner.after s.elements us set in
      record {
        after = items us;
        written = rw s.is_items (
            set_index_all-cons i s.index is w s.element s.elements s.var s.got
            ∙ rw (inner.written, set) refl);
        read_back = index_all-cons vars i s.index is us inner.after s.var now ∙ inner.read_back;
        again = λ x. rw s.is_items (
            set_index_all-cons i s.index is x inner.after us s.var now
            ∙ ap₂ (λ o f. o >>= f) (inner.again x)
                (fun_ext λ v'.
                  ap (λ o. o >>= λ r. some (items r))
                    (set_index-set s.index inner.after v' s.elements us set))
            ∙ sym (set_index_all-cons i s.index is x s.element s.elements s.var s.got));
      }

  pub set_index_all-get :
      (is : List ℕ) (v u : Value)
      → index_all vars is v ≡ some u
      → set_index_all vars is u v ≡ some v
  unfolding index_all set_index_all
  set_index_all-get [] v u h = ground arith
  set_index_all-get (i ∷ is) v u h =
      let s = index_all-Step i is v u h in
      rw s.is_items (
        set_index_all-cons i s.index is u s.element s.elements s.var s.got
        ∙ rw
            (
              set_index_all-get is s.element u s.deeper,
              set_index-get s.index s.element s.elements s.got,
            )
            refl)
