-- ===== src/Definitions/Compiler/Meaning/Leaves.antt =====
-- The compiled text of a condition on a single field is that of its verdict.
use atomicbase.Prelude.{String, Bool, true, false, not, ◌&&◌, ◌||◌, ◌==◌, inl, inr, if◌then◌else◌}
use atomicbase.Result.{Error, Result, ok, err, ◌>>◌, Result-cases}
use atomicbase.Tools.Validation.{Unicode, validate_identifier}
use atomicbase.Definitions.Types.{Value, null, bool, str, arr, obj, other, nil, cons, sprint}
use atomicbase.Definitions.Compiler.Leaf.{
  CompileInput, Compiled, is_organization, resolve_value, split_scoped_ref, is_ref, go_decides,
  role_in, field_in, compile_leaf, compile_auth_leaf, compile_auth_status, compile_auth_role,
  compile_old_leaf, compile_old_field, compile_membership_role_predicate,
}
use atomicbase.Definitions.Compiler.Predicate.{
  Verdict, denied, granted, encode, render, render_atom, predicate_args, atom_args,
}
use atomicbase.Definitions.Compiler.Meaning.{
  says, status_verdict, roles_verdict, role_verdict, values_verdict, field_verdict, leaf_verdict,
}

-- The code's result is that of the verdict.
pub data Matches : Result Compiled → Result Verdict → Type 0 where
  refuses : (e : Error) → Matches (err e) (err e)
  agrees : (v : Verdict) → Matches (ok (encode v)) (ok v)

Matches-if :
    (b : Bool) {x y : Result Compiled} {v w : Result Verdict}
    → Matches x v
    → Matches y w
    → Matches (if b then x else y) (if b then v else w)
Matches-if true h k = h
Matches-if false h k = k

says-Matches : (b : Bool) → Matches (go_decides b) (says b)
unfolding encode
says-Matches true = agrees (granted false)
says-Matches false = agrees (denied false)

roles-Matches :
    (input : CompileInput) (v : Value) → Matches (role_in input v) (roles_verdict input v)
unfolding encode render predicate_args render_atom atom_args
roles-Matches input null = refuses _
roles-Matches input (bool b) = refuses _
roles-Matches input (str s) = refuses _
roles-Matches input (other s) = refuses _
roles-Matches input (obj s es) = refuses _
roles-Matches input (arr nil) = agrees (denied true)
roles-Matches input (arr (cons v vs)) = agrees _

values-Matches : (f : String) (v : Value) → Matches (field_in f v) (values_verdict f v)
unfolding encode render predicate_args render_atom atom_args
values-Matches f null = refuses _
values-Matches f (bool b) = refuses _
values-Matches f (str s) = refuses _
values-Matches f (other s) = refuses _
values-Matches f (obj s es) = refuses _
values-Matches f (arr nil) = agrees (denied false)
values-Matches f (arr (cons v vs)) = agrees _

status-Matches :
    (op : String) (raw : Value) (input : CompileInput)
    → Matches (compile_auth_status op raw input) (status_verdict op raw input)
unfolding compile_auth_status encode render predicate_args render_atom atom_args
status-Matches op raw input =
    Matches-if (is_organization input && sprint (resolve_value raw input) == "member") (agrees _) (
      Matches-if (is_organization input && sprint (resolve_value raw input) == "anonymous")
        (agrees _) (says-Matches _))

role-Matches :
    (op : String) (raw : Value) (input : CompileInput)
    → Matches (compile_auth_role op raw input) (role_verdict op raw input)
unfolding compile_auth_role encode render predicate_args render_atom atom_args
role-Matches op raw input =
    Matches-if (not (is_organization input)) (refuses _)
      (Matches-if (op == "in") (roles-Matches input (resolve_value raw input)) (agrees _))

field-Matches :
    (f op : String) (raw : Value) (input : CompileInput)
    → Matches (compile_old_field f op raw input) (field_verdict f op raw input)
unfolding compile_old_field compile_membership_role_predicate encode render predicate_args
    render_atom atom_args
field-Matches f op raw input =
    Matches-if (is_organization input && is_ref "auth.role" raw) (agrees _) (
      Matches-if (is_organization input && is_ref "auth.id" raw) (agrees _) (
        Matches-if (op == "is" || op == "is_not") (agrees _)
          (Matches-if (op == "in") (values-Matches f (resolve_value raw input)) (agrees _))))

old-Matches :
    (u : Unicode) (f op : String) (raw : Value) (input : CompileInput)
    → Matches
        (compile_old_leaf u f op raw input)
        (validate_identifier u f >> field_verdict f op raw input)
unfolding compile_old_leaf
old-Matches u f op raw input = elim (Result-cases (validate_identifier u f)) [
  | inl (done, e) ↦ rw (e, compile_old_leaf) (field-Matches f op raw input)
  | inr (c, e) ↦ rw (e, compile_old_leaf) (refuses c)
]

pub compile_leaf-Matches :
    (u : Unicode) (input : CompileInput) (field op : String) (value : Value)
    → Matches (compile_leaf u input field op value) (leaf_verdict u input field op value)
unfolding compile_leaf leaf_verdict compile_auth_leaf
compile_leaf-Matches u input field op value = elim (Result-cases (split_scoped_ref field)) [
  | inl ((scope, name), e) ↦
      rw (e, compile_leaf, leaf_verdict)
        (Matches-if (scope == "auth")
          (Matches-if (name == "id") (says-Matches _) (
            Matches-if (name == "status") (status-Matches op value input)
              (Matches-if (name == "role") (role-Matches op value input) (refuses _))))
          (Matches-if (scope == "new") (says-Matches _)
            (Matches-if (scope == "old") (old-Matches u name op value input) (refuses _))))
  | inr (c, e) ↦ rw (e, compile_leaf, leaf_verdict) (refuses c)
]
