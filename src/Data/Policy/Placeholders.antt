-- ===== src/Data/Policy/Placeholders.antt =====
-- What policies add to a statement keeps it with as many placeholders as arguments.
use text.Mathlib.TextLemmas.{append_assoc, append-nil}
use atomicbase.Prelude.{
  ℕ, String, Bool, not, ◌||◌, ◌≡◌, refl, sym, List, [], ◌∷◌, ◌++◌, Option, none, some, ◌==◌, ◌⊕◌,
  length, length-append, occurs, occurs-append, occurs-repeat, repeat, eqb, arith, eq_iff,
  Bool-cases, inl, inr, if_cases, All,
}
use atomicbase.Result.{Holds, Holds->>=, Holds-if, Holds-value}
use atomicbase.Tools.Validation.{Unicode, IsPlain}
use atomicbase.Definitions.Types.{CompiledPredicate}
use atomicbase.Definitions.Compiler.Placeholders.{marks, marks-around}
use atomicbase.Definitions.Compiler.Balance.{compile-placeholders}
use atomicbase.PrimaryStore.Policies.{AccessPolicyRow, Json, load_access_policy}
use atomicbase.Data.Text.Occurs.{drop_last-comma, occurs-trim_right_cutset}
use atomicbase.Data.Clean.{IsCleanName}
use atomicbase.Data.Filter.{Clause}
use atomicbase.Data.Filter.Texts.{IsBalanced}
use atomicbase.Data.Where.Placeholders.{marks-join, marks_all}
use atomicbase.Data.Policy.{
  TenantConnection, Row, compile_stored, compile_policy, append_policy_where, apply_policy_cte,
  row_args, row_placeholders, row_select, predicate_args, row_selects, rows_args, column_list,
  build_insert_select_sql,
}

abbrev pub IsBalancedPolicy : CompiledPredicate → Type 0
IsBalancedPolicy p = marks p.sql ≡ length p.args

module _ (u : Unicode) (plain : IsPlain u b'?') (json : Json) (dao : TenantConnection) where
  compile_stored-IsBalanced :
      (table operation : String) (values : Option Row) (store : Option (List AccessPolicyRow))
      → Holds IsBalancedPolicy (compile_stored u json dao table operation values store)
  unfolding occurs
  compile_stored-IsBalanced table operation values none = refl
  compile_stored-IsBalanced table operation values (some rows) =
      Holds->>= IsBalancedPolicy (load_access_policy json rows _ _ table operation) _ λ policy _.
        Holds-value IsBalancedPolicy _ (λ q e. compile-placeholders u policy _ q plain e)

  pub compile_policy-IsBalanced :
      (table operation : String) (values : Option Row)
      → Holds IsBalancedPolicy (compile_policy u json dao table operation values)
  unfolding compile_policy occurs
  compile_policy-IsBalanced table operation values =
      Holds-if IsBalancedPolicy (eqb dao.definition_id 0) _ _ refl
        (compile_stored-IsBalanced table operation values dao.primary_store)

pub append_policy_where-IsBalanced :
    (c : Clause) (policy : CompiledPredicate)
    → IsBalanced c
    → IsBalancedPolicy policy
    → IsBalanced (append_policy_where c policy)
unfolding append_policy_where occurs
append_policy_where-IsBalanced c policy hc hp =
    if_cases IsBalanced (policy.sql == "") (λ _. hc)
      λ _.
        if_cases IsBalanced (c.sql == "")
          (λ e. rw (marks-around, length-append, ← hc, (eq_iff c.sql "").0 e) (omega (arith, hp)))
          (λ _.
            rw (occurs-append, occurs-append, occurs-append, length-append) (omega (arith, hc, hp)))

pub apply_policy_cte-IsBalanced :
    (c : Clause) (dao : TenantConnection) (needs : Bool)
    → IsBalanced c
    → IsBalanced (apply_policy_cte c dao needs)
unfolding apply_policy_cte occurs
apply_policy_cte-IsBalanced c dao needs h =
    if_cases IsBalanced (not needs || not (dao.definition_type == "organization")) (λ _. h)
      (λ _. rw occurs-append (omega (arith, h)))

-- A list of items of which each ends in ", ", which the code then cuts.
abbrev pub IsListed : String → Type 0
IsListed s = (t : String) × (s ≡ t ⊕ ", ") × (marks t ≡ 0)

pub column_list-IsListed :
    (c : String) (cs : List String) → All IsCleanName (c ∷ cs) → IsListed (column_list (c ∷ cs))
unfolding column_list occurs
column_list-IsListed c [] h = (
  "[" ⊕ c ⊕ "]",
  rw append-nil (sym (append_assoc ("[" ⊕ c) "]" ", ")),
  rw marks-around (omega (arith, h.0)),
)
column_list-IsListed c (d ∷ cs) h =
    let (t, e, clean) = column_list-IsListed d cs h.1 in
    (
      "[" ⊕ c ⊕ "], " ⊕ t,
      rw e (sym (append_assoc _ _ _)),
      rw (occurs-append, marks-around) (omega (arith, h.0, clean)),
    )

length-row_args :
    (columns : List String) (row : Row) → length (row_args columns row) ≡ length columns
unfolding row_args
length-row_args [] row = refl
length-row_args (c ∷ cs) row = omega (arith, length-row_args cs row)

marks-row_placeholders : (n : ℕ) → marks (row_placeholders n) ≡ n
unfolding row_placeholders occurs
marks-row_placeholders n =
    rw (occurs-trim_right_cutset b'?' ", " (repeat "?, " n) refl) (rw occurs-repeat (omega arith))

module _ (columns : List String) (policy : CompiledPredicate)
    (balanced : IsBalancedPolicy policy) where
  marks-row_select :
      (row : Row)
      → marks (row_select columns policy) ≡ length (row_args columns row ++ predicate_args policy)
  unfolding occurs
  marks-row_select row =
      rw (length-append, length-row_args)
        (elim (Bool-cases (policy.sql == "")) [
          | inl e ↦ rw (e, occurs-append, marks-row_placeholders) (omega arith)
          | inr e ↦
              rw (e, marks-around, occurs-append, marks-row_placeholders) (omega (arith, balanced))
        ])

  marks_all-row_selects :
      (rows : List Row)
      → marks_all (row_selects columns policy rows) ≡ length (rows_args columns policy rows)
  unfolding row_selects rows_args
  marks_all-row_selects [] = refl
  marks_all-row_selects (row ∷ rows) =
      rw (length-append, marks-row_select row) (omega (arith, marks_all-row_selects rows))

pub build_insert_select-IsBalanced :
    (prefix relation c : String) (cs : List String) (rows : List Row) (policy : CompiledPredicate)
    → marks prefix ≡ 0
    → IsCleanName relation
    → All IsCleanName (c ∷ cs)
    → IsBalancedPolicy policy
    → IsBalanced (build_insert_select_sql prefix relation (c ∷ cs) rows policy)
unfolding build_insert_select_sql occurs
build_insert_select-IsBalanced prefix relation c cs rows policy hp hr hc balanced =
    let (t, e, clean) = column_list-IsListed c cs hc in
    rw (e, ← append_assoc, drop_last-comma)
      (rw
        (
          occurs-append,
          occurs-append,
          occurs-append,
          marks-join " UNION ALL " (row_selects (c ∷ cs) policy rows) refl,
          occurs-append,
          occurs-append,
          occurs-append,
          occurs-append,
        )
        (omega (arith, hp, hr, clean, marks_all-row_selects (c ∷ cs) policy balanced rows)))
