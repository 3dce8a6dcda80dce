-- ===== src/Definitions/Types.antt =====
-- api/definitions/types.go, and the values of Go's `any` that policies carry.
use atomicbase.Prelude.{
  ℕ, String, Bool, true, false, ◌&&◌, List, [], ◌∷◌, Option, ◌==◌, ◌⊕◌, if◌then◌else◌,
}

-- A JSON value. Numbers are only ever printed or passed on, so they are kept as the text that
-- fmt.Sprint gives for them; an object has that text too, and its members in the order in which a
-- `range` over the map meets them.
mutual
  pub data Value : Type 0 where
    null : Value
    bool : Bool → Value
    str other : String → Value
    arr : Values → Value
    obj : String → Entries → Value

  pub data Values : Type 0 where
    nil : Values
    cons : Value → Values → Values

  pub data Entries : Type 0 where
    no_entry : Entries
    entry : String → Value → Entries → Entries

abbrev pub items : Values → List Value
items nil = []
items (cons v vs) = v ∷ items vs

-- fmt.Sprint
unfoldable mutual
  pub sprint : Value → String
  sprint null = "<nil>"
  sprint (bool b) = if b then "true" else "false"
  sprint (str s) = s
  sprint (other s) = s
  sprint (obj s es) = s
  sprint (arr vs) = "[" ⊕ sprint_items vs ⊕ "]"

  pub sprint_items : Values → String
  sprint_items nil = ""
  sprint_items (cons v nil) = sprint v
  sprint_items (cons v (cons w vs)) = sprint v ⊕ " " ⊕ sprint_items (cons w vs)

-- `Condition`: field, op, value, and, or, not.
mutual
  pub data Condition : Type 0 where
    condition : String → String → Value → Conditions → Conditions → Negated → Condition

  pub data Conditions : Type 0 where
    nil : Conditions
    cons : Condition → Conditions → Conditions

  pub data Negated : Type 0 where
    absent : Negated
    present : Condition → Negated

abbrev pub is_nil : Conditions → Bool
is_nil nil = true
is_nil (cons c cs) = false

abbrev pub is_absent : Negated → Bool
is_absent absent = true
is_absent (present c) = false

unfoldable pub is_zero : Condition → Bool
is_zero (condition field op value all_of any_of negated) =
    field == "" && is_nil all_of && is_nil any_of && is_absent negated

pub record Principal : Type 0 where
  pub user_id : String
  pub session_id : String
  pub auth_status : String
  pub is_service : Bool

pub record DatabaseTarget : Type 0 where
  pub database_id : String
  pub definition_id : ℕ
  pub definition_name : String
  pub definition_type : String
  pub definition_version : ℕ
  pub auth_token : String

pub record AccessPolicy : Type 0 where
  pub definition_id : ℕ
  pub version : ℕ
  pub table : String
  pub operation : String
  pub condition : Option Condition

pub record CompiledPredicate : Type 0 where
  pub sql : String
  pub args : List Value
  pub go_allowed : Bool
  pub needs_membership_cte : Bool
