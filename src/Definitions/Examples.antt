-- ===== src/Definitions/Examples.antt =====
-- A policy on a member's own rows, compiled.
use atomicbase.Prelude.{
  true, false, ◌≡◌, refl, [], ◌∷◌, none, some, leb, ◌&&◌, split_dot, cut_prefix,
}
use atomicbase.Tools.Validation.{Unicode, IsPlain, validate_identifier}
use atomicbase.Definitions.Types.{
  Condition, str, condition, nil, absent, is_zero, AccessPolicy, CompiledPredicate,
}
use atomicbase.Definitions.Compiler.{compile, compile_condition}
use atomicbase.Definitions.Compiler.Leaf.{
  CompileInput, sql_operator, compile_leaf, split_scoped_ref, compile_old_leaf, compile_old_field,
  resolve_value,
}
use atomicbase.Definitions.Compiler.Leaf.{Compiled}
use atomicbase.Definitions.Compiler.Placeholders.{marks}
use atomicbase.Definitions.Compiler.Balance.{compile-placeholders}

abbrev input : CompileInput
input = record {
  principal = record {
    user_id = "u1";
    session_id = "s1";
    auth_status = "authenticated";
    is_service = false;
  };
  target = record {
    database_id = "d";
    definition_id = 1;
    definition_name = "notes";
    definition_type = "organization";
    definition_version = 1;
    auth_token = "";
  };
  table = "notes";
  operation = "select";
  new_values = none;
}

-- old.owner eq auth.id
abbrev own_row : Condition
own_row = condition "old.owner" "eq" (str "auth.id") nil nil absent

abbrev own_rows : AccessPolicy
own_rows = record {
  definition_id = 1;
  version = 1;
  table = "notes";
  operation = "select";
  condition = some own_row;
}

abbrev ascii : Unicode
ascii = record {
  is_letter = λ c. leb b'a' c && leb c b'z';
  is_digit = λ c. leb b'0' c && leb c b'9';
}

abbrev own_rows_sql : CompiledPredicate
own_rows_sql = record {
  sql = "[owner] = ?";
  args = str "u1" ∷ [];
  go_allowed = true;
  needs_membership_cte = false;
}

ascii-IsPlain : IsPlain ascii b'?'
ascii-IsPlain = record { no_letter = refl; no_digit = refl }

compile-placeholders_example : marks "[owner] = ?" ≡ 1
unfolding compile compile_condition compile_leaf split_scoped_ref compile_old_leaf compile_old_field
    validate_identifier split_dot sql_operator resolve_value cut_prefix is_zero
compile-placeholders_example =
    compile-placeholders ascii (some own_rows) input own_rows_sql ascii-IsPlain refl

abbrev own_row_compiled : Compiled
own_row_compiled = record {
  sql = "[owner] = ?";
  args = str "u1" ∷ [];
  allowed = true;
  needs_membership = false;
}
