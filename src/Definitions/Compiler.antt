-- ===== src/Definitions/Compiler.antt =====
-- api/definitions/compiler.go: an access policy becomes a decision and a piece of SQL with its
-- arguments. The texts are the ones that the code builds; a message's %q is left without quotes.
pub mod Leaf
pub mod Origin
pub mod Placeholders
pub mod Balance
pub mod Predicate
pub mod Meaning
use Prim.Native.Nat.{ℕ}
use atomicbase.Prelude.{
  String, Bool, true, false, not, ◌&&◌, ◌||◌, List, [], ◌∷◌, ◌++◌, Option, none, some, ◌==◌, ◌⊕◌,
  join, if◌then◌else◌,
}
use atomicbase.Result.{Result, ok, err, invalid_request, unauthorized, ◌>>=◌}
use atomicbase.Tools.Validation.{Unicode}
use atomicbase.Definitions.Types.{
  Value, Condition, condition, Conditions, nil, cons, Negated, absent, present, is_nil, is_zero,
  AccessPolicy, CompiledPredicate,
}
use Leaf.{CompileInput, Compiled, compile_leaf}

-- The loop variables `parts`, `args` and `needsMembership`.
pub record Parts : Type 0 where
  pub parts : List String
  pub args : List Value
  pub needs_membership : Bool

abbrev pub no_parts : Parts
no_parts = record { parts = []; args = []; needs_membership = false }

-- One more compiled child; an empty text adds no part.
abbrev pub add_part : Compiled → Parts → Parts
add_part p acc =
    if p.sql == ""
    then record acc { needs_membership = acc.needs_membership || p.needs_membership }
    else (record {
      parts = acc.parts ++ p.sql ∷ [];
      args = acc.args ++ p.args;
      needs_membership = acc.needs_membership || p.needs_membership;
    })

abbrev pub decided : Bool → Bool → Compiled
decided allowed needs = record { sql = ""; args = []; allowed = allowed; needs_membership = needs }

-- The end of each loop: `empty` is the decision without parts.
abbrev pub joined_parts : String → Bool → List String → List Value → Bool → Compiled
joined_parts sep empty [] args needs = decided empty needs
joined_parts sep empty (p ∷ ps) args needs = record {
  sql = "(" ⊕ join sep (p ∷ ps) ⊕ ")";
  args = args;
  allowed = true;
  needs_membership = needs;
}

abbrev pub joined : String → Bool → Parts → Compiled
joined sep empty acc = joined_parts sep empty acc.parts acc.args acc.needs_membership

abbrev pub negate : Compiled → Compiled
negate p =
    if not p.allowed
    then decided true p.needs_membership
    else if p.sql == ""
    then decided false p.needs_membership
    else record p { sql = "(NOT " ⊕ p.sql ⊕ ")" }

unfoldable mutual
  pub compile_condition : Unicode → CompileInput → Condition → Result Compiled
  compile_condition u input (condition field op value all_of any_of negated) =
      let leaf = compile_leaf u input field op value in
      let conjunction = compile_all u input all_of no_parts in
      let disjunction = compile_any u input any_of no_parts in
      let negation = compile_not u input negated in
      if not (field == "")
      then leaf
      else if not (is_nil all_of)
      then conjunction
      else if not (is_nil any_of)
      then disjunction
      else negation

  pub compile_all : Unicode → CompileInput → Conditions → Parts → Result Compiled
  compile_all u input nil acc = ok (joined " AND " true acc)
  compile_all u input (cons child cs) acc = compile_condition u input child >>= λ p.
      let rest = compile_all u input cs (add_part p acc) in
      if not p.allowed then ok (decided false false) else rest

  pub compile_any : Unicode → CompileInput → Conditions → Parts → Result Compiled
  compile_any u input nil acc = ok (joined " OR " false acc)
  compile_any u input (cons child cs) acc = compile_condition u input child >>= λ p.
      let skipped = compile_any u input cs acc in
      let rest = compile_any u input cs (add_part p acc) in
      if not p.allowed
      then skipped
      else if p.sql == ""
      then ok (decided true (acc.needs_membership || p.needs_membership))
      else rest

  pub compile_not : Unicode → CompileInput → Negated → Result Compiled
  compile_not u input absent = ok (decided true false)
  compile_not u input (present c) = compile_condition u input c >>= λ p. ok (negate p)

abbrev pub passed : CompiledPredicate
passed = record { sql = ""; args = []; go_allowed = true; needs_membership_cte = false }

abbrev pub finish : Compiled → Result CompiledPredicate
finish p =
    if p.allowed
    then ok (record {
      sql = p.sql;
      args = p.args;
      go_allowed = true;
      needs_membership_cte = p.needs_membership;
    })
    else err (unauthorized "request does not satisfy definition policy")

abbrev pub condition_or_passed :
    Unicode → CompileInput → Option Condition → Result CompiledPredicate
condition_or_passed u input none = ok passed
condition_or_passed u input (some c) =
    if is_zero c then ok passed else compile_condition u input c >>= finish

-- `Compiler.Compile`
unfoldable pub compile : Unicode → Option AccessPolicy → CompileInput → Result CompiledPredicate
compile u policy input = if input.principal.is_service then ok passed else elim policy [
  | none ↦ err (invalid_request "operation is not allowed by definition policy")
  | some p ↦ condition_or_passed u input p.condition
]
