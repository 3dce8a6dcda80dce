-- ===== src/Definitions/Compiler/Leaf.antt =====
-- api/definitions/compiler.go: the conditions on a single field.
use atomicbase.Prelude.{
  ℕ, String, Bool, true, false, not, ◌&&◌, ◌||◌, List, [], ◌∷◌, Option, none, some, ◌==◌, ◌⊕◌,
  length, split_dot, cut_prefix, repeat, trim_right_of, if◌then◌else◌,
}
use atomicbase.Result.{Result, ok, err, other_error, ◌>>=◌, ◌>>◌}
use atomicbase.Tools.Validation.{Unicode, validate_identifier}
use atomicbase.Definitions.Types.{Value, null, str, arr, items, sprint, Principal, DatabaseTarget}

-- `NewValues` is `none` for Go's nil map.
pub record CompileInput : Type 0 where
  pub principal : Principal
  pub target : DatabaseTarget
  pub table : String
  pub operation : String
  pub new_values : Option (List (String × Value))

-- The text, the arguments, `allowed` and `needsMembership` that the functions return.
pub record Compiled : Type 0 where
  pub sql : String
  pub args : List Value
  pub allowed : Bool
  pub needs_membership : Bool

unfoldable pub sql_operator : String → String
sql_operator op =
    if op == "eq"
    then "="
    else if op == "ne"
    then "!="
    else if op == "gt"
    then ">"
    else if op == "gte"
    then ">="
    else if op == "lt"
    then "<"
    else if op == "lte"
    then "<="
    else if op == "is"
    then "IS"
    else if op == "is_not"
    then "IS NOT"
    else "="

-- `values[key]`
unfoldable pub get : String → List (String × Value) → Option Value
get key [] = none
get key ((k, v) ∷ rest) = if k == key then some v else get key rest

abbrev value_or_null : Option Value → Value
value_or_null none = null
value_or_null (some v) = v

abbrev new_value : String → Option String → Option (List (String × Value)) → Value
new_value ref (some name) (some values) = value_or_null (get name values)
new_value ref _ _ = str ref

unfoldable pub resolve_value : Value → CompileInput → Value
unfolding get
resolve_value (str ref) input =
    if ref == "auth.id"
    then str input.principal.user_id
    else if ref == "auth.status"
    then str input.principal.auth_status
    else new_value ref (cut_prefix "new." ref) input.new_values
resolve_value raw input = raw

abbrev is_null : Value → Bool
is_null null = true
is_null v = false

unfoldable pub compare_values : Value → String → Value → Bool
compare_values left op right =
    if op == "eq"
    then sprint left == sprint right
    else if op == "ne"
    then not (sprint left == sprint right)
    else if op == "is"
    then is_null left && is_null right
    else if op == "is_not"
    then not (is_null left)
    else false

unfoldable pub split_scoped_ref : String → Result (String × String)
split_scoped_ref ref = elim (split_dot ref) [
  | none ↦ err (other_error ("invalid policy field " ⊕ ref))
  | some parts ↦ ok parts
]

-- A decision without SQL.
abbrev pub go_decides : Bool → Result Compiled
go_decides allowed =
    ok (record { sql = ""; args = []; allowed = allowed; needs_membership = false })

-- A predicate that SQL decides.
abbrev pub sql_decides : String → List Value → Bool → Result Compiled
sql_decides sql args needs =
    ok (record { sql = sql; args = args; allowed = true; needs_membership = needs })

abbrev pub is_organization : CompileInput → Bool
is_organization input = input.target.definition_type == "organization"

abbrev pub caller : CompileInput → Value
caller input = str input.principal.user_id

-- strings.TrimRight(strings.Repeat("?,", n), ",")
unfoldable pub placeholders : ℕ → String
placeholders n = trim_right_of b',' (repeat "?," n)

unfoldable pub compile_auth_status : String → Value → CompileInput → Result Compiled
compile_auth_status op raw input =
    let by_value =
      go_decides (compare_values (str input.principal.auth_status) op (resolve_value raw input)) in
    let want = sprint (resolve_value raw input) in
    if is_organization input && want == "member"
    then sql_decides "EXISTS (SELECT 1 FROM __ab_membership m WHERE m.user_id = ?)"
        (caller input ∷ []) true
    else if is_organization input && want == "anonymous"
    then sql_decides "NOT EXISTS (SELECT 1 FROM __ab_membership m WHERE m.user_id = ?)"
        (caller input ∷ []) true
    else by_value

-- `auth.role in [...]`
abbrev pub role_in : CompileInput → Value → Result Compiled
role_in input (arr vs) = elim (items vs) [
  | [] ↦ ok (record { sql = ""; args = []; allowed = false; needs_membership = true })
  | v ∷ rest ↦
      sql_decides
        ("EXISTS (SELECT 1 FROM __ab_membership m WHERE m.user_id = ? AND m.role IN ("
          ⊕ placeholders (length (items vs))
          ⊕ "))")
        (caller input ∷ items vs) true
]
role_in input v = err (other_error "auth.role in requires array")

unfoldable pub compile_auth_role : String → Value → CompileInput → Result Compiled
compile_auth_role op raw input =
    if not (is_organization input)
    then err (other_error "auth.role is only valid for organization definitions")
    else if op == "in"
    then role_in input (resolve_value raw input)
    else sql_decides
        ("EXISTS (SELECT 1 FROM __ab_membership m WHERE m.user_id = ? AND m.role "
          ⊕ sql_operator op
          ⊕ " ?)")
        (caller input ∷ resolve_value raw input ∷ []) true

unfoldable pub compile_auth_leaf : String → String → Value → CompileInput → Result Compiled
compile_auth_leaf field_name op raw input =
    if field_name == "id"
    then go_decides (compare_values (caller input) op (resolve_value raw input))
    else if field_name == "status"
    then compile_auth_status op raw input
    else if field_name == "role"
    then compile_auth_role op raw input
    else err (other_error ("unsupported auth field " ⊕ field_name))

abbrev pub compared : Option Value → String → Value → Bool
compared none op right = false
compared (some value) op right = compare_values value op right

unfoldable pub eval_new_leaf : String → String → Value → CompileInput → Bool
eval_new_leaf field_name op raw input = elim input.new_values [
  | none ↦ false
  | some values ↦ compared (get field_name values) op (resolve_value raw input)
]

unfoldable pub compile_membership_role_predicate : String → String → CompileInput → Result Compiled
compile_membership_role_predicate field_name op input =
    sql_decides
      ("EXISTS (SELECT 1 FROM __ab_membership m WHERE m.role "
        ⊕ sql_operator op
        ⊕ " ["
        ⊕ field_name
        ⊕ "] AND m.user_id = ?)")
      (caller input ∷ []) true

abbrev pub field_in : String → Value → Result Compiled
field_in field_name (arr vs) = elim (items vs) [
  | [] ↦ go_decides false
  | v ∷ rest ↦
      sql_decides ("[" ⊕ field_name ⊕ "] IN (" ⊕ placeholders (length (items vs)) ⊕ ")") (items vs)
        false
]
field_in field_name v = err (other_error "in operator requires array value")

-- `raw` is the text `ref`.
abbrev pub is_ref : String → Value → Bool
is_ref ref (str s) = s == ref
is_ref ref v = false

unfoldable pub compile_old_field : String → String → Value → CompileInput → Result Compiled
compile_old_field field_name op raw input =
    if is_organization input && is_ref "auth.role" raw
    then compile_membership_role_predicate field_name op input
    else if is_organization input && is_ref "auth.id" raw
    then sql_decides ("[" ⊕ field_name ⊕ "] " ⊕ sql_operator op ⊕ " ?") (caller input ∷ []) false
    else if op == "is" || op == "is_not"
    then sql_decides ("[" ⊕ field_name ⊕ "] " ⊕ sql_operator op ⊕ " NULL") [] false
    else if op == "in"
    then field_in field_name (resolve_value raw input)
    else sql_decides ("[" ⊕ field_name ⊕ "] " ⊕ sql_operator op ⊕ " ?")
        (resolve_value raw input ∷ []) false

unfoldable pub compile_old_leaf : Unicode → String → String → Value → CompileInput → Result Compiled
compile_old_leaf u field_name op raw input =
    validate_identifier u field_name >> compile_old_field field_name op raw input

unfoldable pub compile_leaf : Unicode → CompileInput → String → String → Value → Result Compiled
compile_leaf u input field op value = split_scoped_ref field >>= λ scoped.
    if scoped.0 == "auth"
    then compile_auth_leaf scoped.1 op value input
    else if scoped.0 == "new"
    then go_decides (eval_new_leaf scoped.1 op value input)
    else if scoped.0 == "old"
    then compile_old_leaf u scoped.1 op value input
    else err (other_error ("unsupported policy scope " ⊕ scoped.0))
