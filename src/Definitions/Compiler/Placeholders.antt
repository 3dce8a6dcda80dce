-- ===== src/Definitions/Compiler/Placeholders.antt =====
-- The SQL of a compiled policy has as many placeholders as it has arguments.
use atomicbase.Prelude.{
  ℕ, suc, ◌+◌, String, Bool, true, false, ◌≡◌, refl, List, ◌==◌, ◌⊕◌, length, occurs, occurs-append,
  occurs-repeat, occurs-trim_right_of, repeat, arith, inl, inr, if◌then◌else◌, if_cases,
}
use atomicbase.Result.{Error, Result, ok, err, Result-cases, ◌>>=◌}
use atomicbase.Tools.Validation.{Unicode, IsPlain, validate_identifier, occurs-validate_identifier}
use atomicbase.Definitions.Types.{Value, null, bool, str, arr, obj, other, items, nil, cons}
use atomicbase.Definitions.Compiler.Leaf.{
  CompileInput, Compiled, sql_operator, placeholders, compile_leaf, compile_auth_leaf,
  compile_auth_status, compile_auth_role, compile_old_leaf, compile_old_field,
  compile_membership_role_predicate, role_in, field_in, go_decides, sql_decides, split_scoped_ref,
}

-- How many placeholders a text has.
abbrev pub marks : String → ℕ
marks s = occurs b'?' s

abbrev pub IsBalanced : Compiled → Type 0
IsBalanced p = marks p.sql ≡ length p.args

marks-placeholders : (n : ℕ) → marks (placeholders n) ≡ n
unfolding placeholders occurs
marks-placeholders n =
    rw (occurs-trim_right_of b'?' b',' (repeat "?," n) refl) (rw occurs-repeat (omega arith))

marks-sql_operator : (op : String) → marks (sql_operator op) ≡ 0
unfolding sql_operator occurs
marks-sql_operator op =
    let P = λ (s : String). marks s ≡ 0 in
    if_cases P (op == "eq") (λ _. refl)
      λ _.
        if_cases P (op == "ne") (λ _. refl)
          λ _.
            if_cases P (op == "gt") (λ _. refl)
              λ _.
                if_cases P (op == "gte") (λ _. refl)
                  λ _.
                    if_cases P (op == "lt") (λ _. refl)
                      λ _.
                        if_cases P (op == "lte") (λ _. refl)
                          λ _.
                            if_cases P (op == "is") (λ _. refl)
                              λ _. if_cases P (op == "is_not") (λ _. refl) (λ _. refl)

-- A result is balanced if it is an error or its predicate is.
pub data Balances : Result Compiled → Type 0 where
  sent : {p : Compiled} → IsBalanced p → Balances (ok p)
  failed : {e : Error} → Balances (err e)

pub balanced : {p : Compiled} → Balances (ok p) → IsBalanced p
balanced (sent h) = h

pub Balances-if :
    (b : Bool) {x y : Result Compiled} → Balances x → Balances y → Balances (if b then x else y)
Balances-if true hx hy = hx
Balances-if false hx hy = hy

pub marks-around : (a s b : String) → marks (a ⊕ s ⊕ b) ≡ marks a + marks s + marks b
marks-around a s b = rw (occurs-append, occurs-append)

marks-operator : (a op b : String) → marks (a ⊕ sql_operator op ⊕ b) ≡ marks a + marks b
marks-operator a op b = rw marks-around (omega (arith, marks-sql_operator op))

pub go-Balances : (b : Bool) → Balances (go_decides b)
unfolding occurs
go-Balances b = sent refl

sql-Balances :
    (sql : String) (args : List Value) (needs : Bool)
    → marks sql ≡ length args
    → Balances (sql_decides sql args needs)
sql-Balances sql args needs h = sent h

auth_status-Balances :
    (op : String) (raw : Value) (input : CompileInput) → Balances (compile_auth_status op raw input)
unfolding compile_auth_status occurs
auth_status-Balances op raw input = search (Balances-if, go-Balances, sql-Balances)

role_in-Balances : (input : CompileInput) (v : Value) → Balances (role_in input v)
unfolding occurs
role_in-Balances input (arr nil) = sent refl
role_in-Balances input (arr (cons v vs)) =
    sent (rw marks-around (omega (arith, marks-placeholders (suc (length (items vs))))))
role_in-Balances input null = failed
role_in-Balances input (bool b) = failed
role_in-Balances input (str s) = failed
role_in-Balances input (other s) = failed
role_in-Balances input (obj s es) = failed

auth_role-Balances :
    (op : String) (raw : Value) (input : CompileInput) → Balances (compile_auth_role op raw input)
unfolding compile_auth_role occurs
auth_role-Balances op raw input =
    search (Balances-if, failed, role_in-Balances, sql-Balances, marks-operator)

auth_leaf-Balances :
    (name op : String) (raw : Value) (input : CompileInput)
    → Balances (compile_auth_leaf name op raw input)
unfolding compile_auth_leaf occurs
auth_leaf-Balances name op raw input =
    search (Balances-if, go-Balances, auth_status-Balances, auth_role-Balances, failed)

module _ (name : String) (clean : marks name ≡ 0) where
  marks-bracket : marks ("[" ⊕ name ⊕ "] ") ≡ 0
  unfolding occurs
  marks-bracket = rw marks-around (omega (arith, clean))

  field_op-IsBalanced :
      (op tail : String) → marks ("[" ⊕ name ⊕ "] " ⊕ sql_operator op ⊕ tail) ≡ marks tail
  field_op-IsBalanced op tail = rw marks-operator (omega (arith, marks-bracket))

  field_in-Balances : (v : Value) → Balances (field_in name v)
  unfolding occurs
  field_in-Balances (arr nil) = sent refl
  field_in-Balances (arr (cons v vs)) = sent (
      rw (occurs-append, occurs-append, marks-around)
        (omega (arith, clean, marks-placeholders (suc (length (items vs))))))
  field_in-Balances null = failed
  field_in-Balances (bool b) = failed
  field_in-Balances (str s) = failed
  field_in-Balances (other s) = failed
  field_in-Balances (obj s es) = failed

  membership_role-Balances :
      (op : String) (input : CompileInput)
      → Balances (compile_membership_role_predicate name op input)
  unfolding compile_membership_role_predicate occurs
  membership_role-Balances op input = sent (
      rw (occurs-append, occurs-append, occurs-append, occurs-append)
        (omega (arith, clean, marks-sql_operator op)))

  old_field-Balances :
      (op : String) (raw : Value) (input : CompileInput)
      → Balances (compile_old_field name op raw input)
  unfolding compile_old_field occurs
  old_field-Balances op raw input =
      search
        (
          Balances-if,
          membership_role-Balances,
          field_in-Balances,
          sql-Balances,
          field_op-IsBalanced op " ?",
          field_op-IsBalanced op " NULL",
        )
        depth 8

-- The program relies on "?" being no letter and no digit.
module _ (u : Unicode) (plain : IsPlain u b'?') where
  old_leaf-Balances :
      (name op : String) (raw : Value) (input : CompileInput)
      → Balances (compile_old_leaf u name op raw input)
  unfolding compile_old_leaf
  old_leaf-Balances name op raw input = elim (Result-cases (validate_identifier u name)) [
    | inl (done, valid) ↦
        rw (valid, ◌>>=◌)
          (old_field-Balances name (occurs-validate_identifier u b'?' plain refl name valid) op raw
            input)
    | inr (e, bad) ↦ rw (bad, ◌>>=◌) failed
  ]

  pub compile_leaf-Balances :
      (input : CompileInput) (field op : String) (value : Value)
      → Balances (compile_leaf u input field op value)
  unfolding compile_leaf
  compile_leaf-Balances input field op value = elim (Result-cases (split_scoped_ref field)) [
    | inl (scoped, split) ↦
        rw (split, ◌>>=◌)
          (search (Balances-if, auth_leaf-Balances, go-Balances, old_leaf-Balances, failed))
    | inr (e, bad) ↦ rw (bad, ◌>>=◌) failed
  ]
