-- ===== src/C/Unpack/Files.antt =====
-- The unpacking functions of a whole generated file, in order: each calls only those above it, and
-- reads back the values of its type.
use mathlib.Core.List.{append_assoc, append-nil, map-append}
use mathlib.Core.Path.{subst, subst₂}
use stuff_sack.Prelude.{
  ◌≡◌, refl, ap, sym, ◌∙◌, true, false, List, [], ◌∷◌, ◌++◌, map, some, inl, inr, arith, All,
}
use stuff_sack.Prelude.Text.{Text, same, same_refl, contains, Distinct, snoc-Distinct}
use stuff_sack.Errors
use stuff_sack.Errors.{ok}
use stuff_sack.Types.{SsType, root_name}
use stuff_sack.Names.{unpack_function_name, pack_function_name}
use stuff_sack.Spec.Build.{Registry, find}
use stuff_sack.Spec.WellFormed.{IsRegistry, empty, declare}
use stuff_sack.Spec.WellFormed.Types.{IsNamed-IsFieldType}
use stuff_sack.C.Run.Files.{
  All-snoc, keys, function_names, find-empty, IsFieldType-snoc, IsFieldType-find, absent-same,
}
use stuff_sack.C.Unpack.{Function, unpack}
use stuff_sack.C.Unpack.Run.{Env, Unpack, get_function, run_function, program, load}
use stuff_sack.C.Unpack.Calls.{Callable, UnpacksAs}
use stuff_sack.C.Unpack.Functions.{Implements, IsUnpackable}
use stuff_sack.C.Unpack.Headers.{unpack-Implements}

abbrev pub unpack_names : Registry → List Text
unpack_names = map unpack_function_name

same-unpack_function_name :
    (t u : SsType)
    → same (unpack_function_name t) (unpack_function_name u)
      ≡ same (pack_function_name t) (pack_function_name u)
unfolding unpack_function_name pack_function_name same
same-unpack_function_name t u = refl

contains-unpack_names :
    (reg : Registry) (t : SsType)
    → contains (unpack_names reg) (unpack_function_name t)
      ≡ contains (function_names reg) (pack_function_name t)
unfolding contains
contains-unpack_names [] t = refl
contains-unpack_names (u ∷ reg) t = rw (same-unpack_function_name, contains-unpack_names reg t) refl

-- The names of the unpacking functions differ when those of the packing functions do.
pub unpack_names-Distinct :
    (reg : Registry) → Distinct (function_names reg) → Distinct (unpack_names reg)
unpack_names-Distinct [] d = tt
unpack_names-Distinct (t ∷ reg) (fresh, d) =
    (contains-unpack_names reg t ∙ fresh, unpack_names-Distinct reg d)

pub record Snoc (reg : Registry) (t : SsType) (ps : List (Text × Function)) : Type 0 where
  pub before : List (Text × Function)
  pub function : Function
  pub made_before : program reg ≡ ok before
  pub made : unpack t ≡ ok function
  pub whole : ps ≡ before ++ (unpack_function_name t, function) ∷ []

pub program-Snoc :
    (reg : Registry) (t : SsType) (ps : List (Text × Function))
    → program (reg ++ t ∷ []) ≡ ok ps
    → Snoc reg t ps
unfolding program
program-Snoc [] t ps h =
    let (f, made, h₁) = Errors.>>=-eq-ok (unpack t) _ h in
    record { before = []; function = f; made_before = refl; made = made; whole = cc }
program-Snoc (u ∷ reg) t ps h =
    let (g, first, h₁) = Errors.>>=-eq-ok (unpack u) _ h in
    let (qs, rest, h₂) = Errors.>>=-eq-ok (program (reg ++ t ∷ [])) _ h₁ in
    let s = program-Snoc reg t qs rest in
    record {
      before = (unpack_function_name u, g) ∷ s.before;
      function = s.function;
      made_before = rw (first, s.made_before);
      made = s.made;
      whole = cc s.whole;
    }

pub load-snoc :
    (ps : List (Text × Function)) (n : Text) (f : Function) (env : Env)
    → load (ps ++ (n, f) ∷ []) env ≡ load ps env ++ (n, run_function (load ps env) f) ∷ []
unfolding load
load-snoc [] n f env = refl
load-snoc ((m, g) ∷ ps) n f env = load-snoc ps n f (env ++ (m, run_function env g) ∷ [])

pub keys-load : (ps : List (Text × Function)) (env : Env) → keys (load ps env) ≡ keys env ++ keys ps
unfolding load
keys-load [] env = sym (append-nil (keys env))
keys-load ((m, g) ∷ ps) env =
    keys-load ps (env ++ (m, run_function env g) ∷ []) ∙ rw (map-append, append_assoc) refl

pub keys-program :
    (reg : Registry) (ps : List (Text × Function))
    → program reg ≡ ok ps
    → keys ps ≡ unpack_names reg
unfolding program
keys-program [] ps h = let e : [] ≡ ps = cc in rw (← e) refl
keys-program (t ∷ reg) ps h =
    let (f, made, h₁) = Errors.>>=-eq-ok (unpack t) _ h in
    let (qs, rest, h₂) = Errors.>>=-eq-ok (program reg) _ h₁ in
    let e : (unpack_function_name t, f) ∷ qs ≡ ps = cc in
    rw (← e) (ap (λ l. unpack_function_name t ∷ l) (keys-program reg qs rest))

pub get_function-other :
    (s n : Text) (f : Unpack) (env : Env)
    → same n s ≡ false
    → get_function s (env ++ (n, f) ∷ []) ≡ get_function s env
unfolding get_function
get_function-other s n f [] h = ground arith
get_function-other s n f ((m, g) ∷ env) h = ground (arith, get_function-other s n f env)

pub get_function-last :
    (s : Text) (f : Unpack) (env : Env)
    → contains (keys env) s ≡ false
    → get_function s (env ++ (s, f) ∷ []) ≡ some f
unfolding get_function contains
get_function-last s f [] h = ground (arith, same_refl s)
get_function-last s f ((m, g) ∷ env) h = ground (arith, get_function-last s f env)

pub contains-function :
    (s : Text) (reg : Registry) (t : SsType)
    → find s reg ≡ some t
    → contains (unpack_names reg) (unpack_function_name t) ≡ true
unfolding find contains
contains-function s [] t h = absurd (ground arith)
contains-function s (u ∷ reg) t h =
    ground (arith, same_refl (unpack_function_name u), contains-function s reg t)

module _ (reg : Registry) (t : SsType) (env : Env) (f : Function)
    (listed : keys env ≡ unpack_names reg)
    (absent : contains (unpack_names reg) (unpack_function_name t) ≡ false) where
  abbrev Extended : Env
  Extended = env ++ (unpack_function_name t, run_function env f) ∷ []

  earlier-UnpacksAs :
      (u : SsType) → find (root_name u) reg ≡ some u → UnpacksAs env u → UnpacksAs Extended u
  earlier-UnpacksAs u found unpacks v fits =
      let (sized, read) = unpacks v fits in
      let present = contains-function (root_name u) reg u found in
      let differ =
        absent-same (unpack_names reg) (unpack_function_name t) (unpack_function_name u) absent
          present in
      let e =
        get_function-other (unpack_function_name u) (unpack_function_name t) (run_function env f)
          env differ in
      (sized, λ old buf k old_fits h. rw e (read old buf k old_fits h))

  last-UnpacksAs : Implements env f t → UnpacksAs Extended t
  last-UnpacksAs implements v fits =
      let (sized, read) = implements v fits in
      let e =
        get_function-last (unpack_function_name t) (run_function env f) env (rw listed absent) in
      (sized, λ old buf k old_fits h. rw e (read old buf k old_fits h))

  Callable-snoc : Implements env f t → Callable env reg → Callable Extended (reg ++ t ∷ [])
  Callable-snoc implements callable u named typed = elim (IsFieldType-snoc reg t u named typed) [
    | inl found ↦
        earlier-UnpacksAs u found (callable u named (IsNamed-IsFieldType reg u named found))
    | inr e ↦ subst (UnpacksAs Extended) (sym e) (last-UnpacksAs implements)
  ]

pub program-Callable :
    (reg : Registry) (ps : List (Text × Function))
    → IsRegistry reg
    → All IsUnpackable reg
    → Distinct (unpack_names reg)
    → program reg ≡ ok ps
    → Callable (load ps []) reg
program-Callable reg ps empty plain d h =
    λ u named typed. absurd (find-empty (root_name u) u (IsFieldType-find [] u named typed))
program-Callable reg ps (declare {reg = before} t well fresh valid e) plain d h =
    let made : program (before ++ t ∷ []) ≡ ok ps = subst (λ r. program r ≡ ok ps) e h in
    let (plains, plain_t) = All-snoc IsUnpackable before t (subst (All IsUnpackable) e plain) in
    let snoc = program-Snoc before t ps made in
    let names : Distinct (unpack_names before ++ unpack_function_name t ∷ []) =
      subst Distinct (ap unpack_names e ∙ map-append unpack_function_name before (t ∷ [])) d in
    let (distinct, absent) = snoc-Distinct (unpack_names before) (unpack_function_name t) names in
    let callable = program-Callable before snoc.before well plains distinct snoc.made_before in
    let env = load snoc.before [] in
    let implements =
      unpack-Implements env before callable t snoc.function valid plain_t snoc.made in
    let listed = keys-load snoc.before [] ∙ keys-program before snoc.before snoc.made_before in
    let whole : load ps [] ≡ env ++ (unpack_function_name t, run_function env snoc.function) ∷ [] =
      rw snoc.whole (load-snoc snoc.before (unpack_function_name t) snoc.function []) in
    subst₂ Callable (sym whole) (sym e)
      (Callable-snoc before t env snoc.function listed absent implements callable)
