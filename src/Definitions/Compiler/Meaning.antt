-- ===== src/Definitions/Compiler/Meaning.antt =====
-- What a compiled condition means: the truth of its conditions on single fields, put together in
-- SQL's three values.
pub mod Leaves
pub mod Sound
pub mod Whole
use atomicbase.Prelude.{
  String, Bool, true, false, not, ◌&&◌, List, [], ◌∷◌, ◌==◌, Option, none, some, ◌||◌, ◌⊕◌,
  if◌then◌else◌,
}
use atomicbase.Result.{Error, Result, ok, err, other_error, ◌>>=◌, ◌>>◌}
use atomicbase.Tools.Validation.{Unicode, validate_identifier}
use atomicbase.Definitions.Types.{
  Value, str, arr, items, sprint, Condition, condition, Conditions, nil, cons, Negated, absent,
  present, is_nil,
}
use atomicbase.Definitions.Compiler.Leaf.{
  CompileInput, caller, is_organization, resolve_value, compare_values, split_scoped_ref,
  eval_new_leaf, is_ref,
}
use atomicbase.Definitions.Compiler.Predicate.{
  Atom, is_member, is_anonymous, role_among, role_is, role_is_field, field_is, field_is_null,
  field_among, Predicate, atom, Verdict, denied, granted, asks, Truth, holds, fails, unknown, and3,
  or3, not3, verdict_truth,
}

abbrev pub says : Bool → Result Verdict
says allowed = ok (if allowed then granted false else denied false)

abbrev pub asked : Bool → Atom → Result Verdict
asked needs a = ok (asks needs (atom a))

abbrev pub status_verdict : String → Value → CompileInput → Result Verdict
status_verdict op raw input =
    let by_value =
      says (compare_values (str input.principal.auth_status) op (resolve_value raw input)) in
    if is_organization input && sprint (resolve_value raw input) == "member"
    then asked true (is_member (caller input))
    else if is_organization input && sprint (resolve_value raw input) == "anonymous"
    then asked true (is_anonymous (caller input))
    else by_value

abbrev pub among_roles : CompileInput → List Value → Result Verdict
among_roles input [] = ok (denied true)
among_roles input (v ∷ vs) = asked true (role_among (caller input) (v ∷ vs))

abbrev pub roles_verdict : CompileInput → Value → Result Verdict
roles_verdict input (arr vs) = among_roles input (items vs)
roles_verdict input v = err (other_error "auth.role in requires array")

abbrev pub role_verdict : String → Value → CompileInput → Result Verdict
role_verdict op raw input =
    if not (is_organization input)
    then err (other_error "auth.role is only valid for organization definitions")
    else if op == "in"
    then roles_verdict input (resolve_value raw input)
    else asked true (role_is (caller input) op (resolve_value raw input))

abbrev pub among_values : String → List Value → Result Verdict
among_values f [] = says false
among_values f (v ∷ vs) = asked false (field_among f (v ∷ vs))

abbrev pub values_verdict : String → Value → Result Verdict
values_verdict f (arr vs) = among_values f (items vs)
values_verdict f v = err (other_error "in operator requires array value")

abbrev pub field_verdict : String → String → Value → CompileInput → Result Verdict
field_verdict f op raw input =
    if is_organization input && is_ref "auth.role" raw
    then asked true (role_is_field (caller input) op f)
    else if is_organization input && is_ref "auth.id" raw
    then asked false (field_is f op (caller input))
    else if op == "is" || op == "is_not"
    then asked false (field_is_null f op)
    else if op == "in"
    then values_verdict f (resolve_value raw input)
    else asked false (field_is f op (resolve_value raw input))

-- What a condition on a single field asks for.
unfoldable pub leaf_verdict : Unicode → CompileInput → String → String → Value → Result Verdict
leaf_verdict u input field op value = split_scoped_ref field >>= λ scoped.
    if scoped.0 == "auth"
    then if scoped.1 == "id"
      then says (compare_values (caller input) op (resolve_value value input))
      else if scoped.1 == "status"
      then status_verdict op value input
      else if scoped.1 == "role"
      then role_verdict op value input
      else err (other_error ("unsupported auth field " ⊕ scoped.1))
    else if scoped.0 == "new"
    then says (eval_new_leaf scoped.1 op value input)
    else if scoped.0 == "old"
    then validate_identifier u scoped.1 >> field_verdict scoped.1 op value input
    else err (other_error ("unsupported policy scope " ⊕ scoped.0))

module _ (answer : Atom → Truth) where
  abbrev pub result_truth : Result Verdict → Truth
  result_truth (err e) = unknown
  result_truth (ok v) = verdict_truth answer v

  -- A condition that the code refuses is unknown.
  unfoldable mutual
    pub condition_truth : Unicode → CompileInput → Condition → Truth
    condition_truth u input (condition field op value all_of any_of negated) =
        let conjunction = all_truth u input all_of in
        let disjunction = any_truth u input any_of in
        let negation = not_truth u input negated in
        if not (field == "")
        then result_truth (leaf_verdict u input field op value)
        else if not (is_nil all_of)
        then conjunction
        else if not (is_nil any_of)
        then disjunction
        else negation

    pub all_truth : Unicode → CompileInput → Conditions → Truth
    all_truth u input nil = holds
    all_truth u input (cons c cs) = and3 (condition_truth u input c) (all_truth u input cs)

    pub any_truth : Unicode → CompileInput → Conditions → Truth
    any_truth u input nil = fails
    any_truth u input (cons c cs) = or3 (condition_truth u input c) (any_truth u input cs)

    pub not_truth : Unicode → CompileInput → Negated → Truth
    not_truth u input absent = holds
    not_truth u input (present c) = not3 (condition_truth u input c)
