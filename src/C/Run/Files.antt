-- ===== src/C/Run/Files.antt =====
-- The functions of a whole generated file, in order: each calls only those above it, and packs its
-- type.
use mathlib.Core.List.{append_assoc, append-nil, map-append}
use mathlib.Core.Path.{subst, subst₂}
use stuff_sack.Prelude.{
  ℕ, ◌≡◌, refl, ap, sym, ◌∙◌, ◌⊎◌, true, false, Bool-cases, List, [], ◌∷◌, ◌++◌, map, some, inl,
  inr, arith, All,
}
use stuff_sack.Prelude.Text.{Text, same, same_refl, same→eq, contains, Distinct, snoc-Distinct}
use stuff_sack.Errors
use stuff_sack.Errors.{ok}
use stuff_sack.Types.{SsType, array, root_name}
use stuff_sack.Names.{pack_function_name}
use stuff_sack.Spec.Build.{Registry, find}
use stuff_sack.Spec.WellFormed.{IsFieldType, IsRegistry, empty, declare}
use stuff_sack.Spec.WellFormed.Types.{IsNamed, IsNamed-IsFieldType}
use stuff_sack.Spec.WellFormed.Lookup.{find-snoc}
use stuff_sack.C.Syntax.{Function}
use stuff_sack.C.Generate.{pack}
use stuff_sack.C.Memory.{Value}
use stuff_sack.C.Run.{Env, Pack, get_function, call_function, run_function, program, load}
use stuff_sack.C.Run.Spec.{IsSupported}
use stuff_sack.C.Run.Calls.{Callable, PacksAs}
use stuff_sack.C.Run.Functions.{Implements, pack-Implements}

abbrev pub keys {ℓ} : {A : Type ℓ} → List (Text × A) → List Text
keys = map (λ p. p.0)

abbrev pub function_names : Registry → List Text
function_names = map pack_function_name

record Snoc (reg : Registry) (t : SsType) (ps : List (Text × Function)) : Type 0 where
  before : List (Text × Function)
  function : Function
  made_before : program reg ≡ ok before
  made : pack t ≡ ok function
  whole : ps ≡ before ++ (pack_function_name t, function) ∷ []

program-Snoc :
    (reg : Registry) (t : SsType) (ps : List (Text × Function))
    → program (reg ++ t ∷ []) ≡ ok ps
    → Snoc reg t ps
unfolding program
program-Snoc [] t ps h =
    let (f, made, h₁) = Errors.>>=-eq-ok (pack t) _ h in
    record { before = []; function = f; made_before = refl; made = made; whole = cc }
program-Snoc (u ∷ reg) t ps h =
    let (g, first, h₁) = Errors.>>=-eq-ok (pack u) _ h in
    let (qs, rest, h₂) = Errors.>>=-eq-ok (program (reg ++ t ∷ [])) _ h₁ in
    let s = program-Snoc reg t qs rest in
    record {
      before = (pack_function_name u, g) ∷ s.before;
      function = s.function;
      made_before = rw (first, s.made_before);
      made = s.made;
      whole = cc s.whole;
    }

load-snoc :
    (ps : List (Text × Function)) (n : Text) (f : Function) (env : Env)
    → load (ps ++ (n, f) ∷ []) env ≡ load ps env ++ (n, run_function (load ps env) f) ∷ []
unfolding load
load-snoc [] n f env = refl
load-snoc ((m, g) ∷ ps) n f env = load-snoc ps n f (env ++ (m, run_function env g) ∷ [])

keys-load : (ps : List (Text × Function)) (env : Env) → keys (load ps env) ≡ keys env ++ keys ps
unfolding load
keys-load [] env = sym (append-nil (keys env))
keys-load ((m, g) ∷ ps) env =
    keys-load ps (env ++ (m, run_function env g) ∷ []) ∙ rw (map-append, append_assoc) refl

keys-program :
    (reg : Registry) (ps : List (Text × Function))
    → program reg ≡ ok ps
    → keys ps ≡ function_names reg
unfolding program
keys-program [] ps h = let e : [] ≡ ps = cc in rw (← e) refl
keys-program (t ∷ reg) ps h =
    let (f, made, h₁) = Errors.>>=-eq-ok (pack t) _ h in
    let (qs, rest, h₂) = Errors.>>=-eq-ok (program reg) _ h₁ in
    let e : (pack_function_name t, f) ∷ qs ≡ ps = cc in
    rw (← e) (ap (λ l. pack_function_name t ∷ l) (keys-program reg qs rest))

get_function-other :
    (s n : Text) (f : Pack) (env : Env)
    → same n s ≡ false
    → get_function s (env ++ (n, f) ∷ []) ≡ get_function s env
unfolding get_function
get_function-other s n f [] h = ground arith
get_function-other s n f ((m, g) ∷ env) h = ground (arith, get_function-other s n f env)

get_function-last :
    (s : Text) (f : Pack) (env : Env)
    → contains (keys env) s ≡ false
    → get_function s (env ++ (s, f) ∷ []) ≡ some f
unfolding get_function contains
get_function-last s f [] h = ground (arith, same_refl s)
get_function-last s f ((m, g) ∷ env) h = ground (arith, get_function-last s f env)

contains-function :
    (s : Text) (reg : Registry) (t : SsType)
    → find s reg ≡ some t
    → contains (function_names reg) (pack_function_name t) ≡ true
unfolding find contains
contains-function s [] t h = absurd (ground arith)
contains-function s (u ∷ reg) t h =
    ground (arith, same_refl (pack_function_name u), contains-function s reg t)

call_function-found :
    (env : Env) (s : Text) (f : Pack) (v : Value) (k : ℕ) (buf : List ℕ)
    → get_function s env ≡ some f
    → call_function env s v k buf ≡ f v k buf
unfolding call_function
call_function-found env s f v k buf h = rw h

call_function-other :
    (env env' : Env) (s : Text) (v : Value) (k : ℕ) (buf : List ℕ)
    → get_function s env ≡ get_function s env'
    → call_function env s v k buf ≡ call_function env' s v k buf
unfolding call_function
call_function-other env env' s v k buf h = rw h

pub IsFieldType-find :
    (reg : Registry) (u : SsType) → IsNamed u → IsFieldType reg u → find (root_name u) reg ≡ some u
IsFieldType-find reg (array u n) named h = absurd named
IsFieldType-find reg _ named h = h

pub find-empty : (s : Text) (u : SsType) → find s [] ≡ some u → ⊥
unfolding find
find-empty s u h = ground arith

pub IsFieldType-snoc :
    (reg : Registry) (t u : SsType)
    → IsNamed u
    → IsFieldType (reg ++ t ∷ []) u
    → (find (root_name u) reg ≡ some u) ⊎ (u ≡ t)
IsFieldType-snoc reg t u named h =
    find-snoc (root_name u) reg t u (IsFieldType-find (reg ++ t ∷ []) u named h)

pub absent-same :
    (ss : List Text) (s t : Text) → contains ss s ≡ false → contains ss t ≡ true → same s t ≡ false
absent-same ss s t h e = elim (Bool-cases (same s t)) [
  | inl equal ↦ let moved = subst (λ u. contains ss u ≡ false) (same→eq s t equal) h in ground arith
  | inr differ ↦ differ
]

module _ (reg : Registry) (t : SsType) (env : Env) (f : Function)
    (listed : keys env ≡ function_names reg)
    (absent : contains (function_names reg) (pack_function_name t) ≡ false) where
  abbrev Extended : Env
  Extended = env ++ (pack_function_name t, run_function env f) ∷ []

  earlier-PacksAs :
      (u : SsType) → find (root_name u) reg ≡ some u → PacksAs env u → PacksAs Extended u
  earlier-PacksAs u found packs v fits =
      let (sized, write) = packs v fits in
      let present = contains-function (root_name u) reg u found in
      let differ =
        absent-same (function_names reg) (pack_function_name t) (pack_function_name u) absent
          present in
      let e =
        get_function-other (pack_function_name u) (pack_function_name t) (run_function env f) env
          differ in
      (
        sized,
        λ k pre old post at_pre at_old.
            call_function-other Extended env _ v k _ e ∙ write k pre old post at_pre at_old,
      )

  last-PacksAs : Implements env f t → PacksAs Extended t
  last-PacksAs implements v fits =
      let (sized, write) = implements v fits in
      let e =
        get_function-last (pack_function_name t) (run_function env f) env (rw listed absent) in
      (
        sized,
        λ k pre old post at_pre at_old.
            call_function-found Extended _ _ v k _ e ∙ write k pre old post at_pre at_old,
      )

  Callable-snoc : Implements env f t → Callable env reg → Callable Extended (reg ++ t ∷ [])
  Callable-snoc implements callable u named typed = elim (IsFieldType-snoc reg t u named typed) [
    | inl found ↦ earlier-PacksAs u found (callable u named (IsNamed-IsFieldType reg u named found))
    | inr e ↦ subst (PacksAs Extended) (sym e) (last-PacksAs implements)
  ]

pub All-snoc {ℓ} :
    {A : Type ℓ} (P : A → Type 0) (xs : List A) (y : A) → All P (xs ++ y ∷ []) → All P xs × P y
All-snoc P [] y (h, hs) = (tt, h)
All-snoc P (x ∷ xs) y (h, hs) = let (rest, end) = All-snoc P xs y hs in ((h, rest), end)

pub program-Callable :
    (reg : Registry) (ps : List (Text × Function))
    → IsRegistry reg
    → All IsSupported reg
    → Distinct (function_names reg)
    → program reg ≡ ok ps
    → Callable (load ps []) reg
program-Callable reg ps empty ranges d h =
    λ u named typed. absurd (find-empty (root_name u) u (IsFieldType-find [] u named typed))
program-Callable reg ps (declare {reg = before} t well fresh valid e) ranges d h =
    let (earlier, range) = All-snoc IsSupported before t (subst (All IsSupported) e ranges) in
    let made : program (before ++ t ∷ []) ≡ ok ps = subst (λ r. program r ≡ ok ps) e h in
    let snoc = program-Snoc before t ps made in
    let names : Distinct (function_names before ++ pack_function_name t ∷ []) =
      subst Distinct (ap function_names e ∙ map-append pack_function_name before (t ∷ [])) d in
    let (distinct, absent) = snoc-Distinct (function_names before) (pack_function_name t) names in
    let callable = program-Callable before snoc.before well earlier distinct snoc.made_before in
    let env = load snoc.before [] in
    let implements = pack-Implements env before callable t snoc.function valid range snoc.made in
    let listed = keys-load snoc.before [] ∙ keys-program before snoc.before snoc.made_before in
    let whole : load ps [] ≡ env ++ (pack_function_name t, run_function env snoc.function) ∷ [] =
      rw snoc.whole (load-snoc snoc.before (pack_function_name t) snoc.function []) in
    subst₂ Callable (sym whole) (sym e)
      (Callable-snoc before t env snoc.function listed absent implements callable)
