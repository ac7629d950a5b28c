-- ===== src/C/Unpack/Located.antt =====
-- Where the unpacking function of a type comes from: the code generated for the type, which calls
-- the functions of the types before it.
use mathlib.Core.List.{map-append}
use mathlib.Core.Path.{subst}
use stuff_sack.Prelude.{◌≡◌, ap, sym, ◌∙◌, List, [], ◌∷◌, ◌++◌, some, inl, inr, All}
use stuff_sack.Prelude.Text.{Text, Distinct, snoc-Distinct}
use stuff_sack.Errors.{ok}
use stuff_sack.Types.{SsType, root_name}
use stuff_sack.Names.{unpack_function_name}
use stuff_sack.Spec.Build.{Registry, find}
use stuff_sack.Spec.WellFormed.{IsRegistry, IsType, empty, declare}
use stuff_sack.Spec.WellFormed.Lookup.{find-snoc}
use stuff_sack.C.Run.Files.{All-snoc, find-empty, absent-same}
use stuff_sack.C.Unpack.{Function, unpack}
use stuff_sack.C.Unpack.Run.{Env, get_function, run_function, program, load}
use stuff_sack.C.Unpack.Calls.{Callable}
use stuff_sack.C.Unpack.Functions.{IsUnpackable}
use stuff_sack.C.Unpack.Files.{
  unpack_names, program-Snoc, load-snoc, keys-load, keys-program, get_function-other,
  get_function-last, contains-function, program-Callable,
}

pub record Located (env : Env) (t : SsType) : Type 0 where
  pub before : Registry
  pub calls : Env
  pub function : Function
  pub callable : Callable calls before
  pub valid : IsType before t
  pub plain : IsUnpackable t
  pub made : unpack t ≡ ok function
  pub found : get_function (unpack_function_name t) env ≡ some (run_function calls function)

pub program-Located :
    (reg : Registry) (ps : List (Text × Function)) (u : SsType)
    → IsRegistry reg
    → All IsUnpackable reg
    → Distinct (unpack_names reg)
    → program reg ≡ ok ps
    → find (root_name u) reg ≡ some u
    → Located (load ps []) u
program-Located reg ps u empty plain d h found = absurd (find-empty (root_name u) u found)
program-Located reg ps u (declare {reg = before} t well fresh valid e) plain d h found =
    let made : program (before ++ t ∷ []) ≡ ok ps = subst (λ r. program r ≡ ok ps) e h in
    let (plains, plain_t) = All-snoc IsUnpackable before t (subst (All IsUnpackable) e plain) in
    let snoc = program-Snoc before t ps made in
    let names : Distinct (unpack_names before ++ unpack_function_name t ∷ []) =
      subst Distinct (ap unpack_names e ∙ map-append unpack_function_name before (t ∷ [])) d in
    let (distinct, absent) = snoc-Distinct (unpack_names before) (unpack_function_name t) names in
    let env = load snoc.before [] in
    let listed = keys-load snoc.before [] ∙ keys-program before snoc.before snoc.made_before in
    let whole : load ps [] ≡ env ++ (unpack_function_name t, run_function env snoc.function) ∷ [] =
      rw snoc.whole (load-snoc snoc.before (unpack_function_name t) snoc.function []) in
    elim (find-snoc (root_name u) before t u (subst (λ r. find (root_name u) r ≡ some u) e found)) [
      | inl earlier ↦
          let l =
            program-Located before snoc.before u well plains distinct snoc.made_before earlier in
          let present = contains-function (root_name u) before u earlier in
          let differ =
            absent-same (unpack_names before) (unpack_function_name t) (unpack_function_name u)
              absent present in
          record {
            before = l.before;
            calls = l.calls;
            function = l.function;
            callable = l.callable;
            valid = l.valid;
            plain = l.plain;
            made = l.made;
            found = rw whole (
                get_function-other (unpack_function_name u) (unpack_function_name t) _ env differ
                ∙ l.found);
          }
      | inr is_last ↦ subst (Located (load ps [])) (sym is_last) (record {
        before = before;
        calls = env;
        function = snoc.function;
        callable = program-Callable before snoc.before well plains distinct snoc.made_before;
        valid = valid;
        plain = plain_t;
        made = snoc.made;
        found = rw whole (get_function-last (unpack_function_name t) _ env (rw listed absent));
      })
    ]
