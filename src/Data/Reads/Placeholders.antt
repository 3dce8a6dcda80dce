-- ===== src/Data/Reads/Placeholders.antt =====
-- The statements of a select have as many placeholders as arguments.
use mathlib.Core.Path.{subst}
use mathlib.Core.Option.{some-injective}
use atomicbase.Prelude.{
  ℕ, String, Bool, true, false, ◌≡◌, refl, sym, ap, ◌∙◌, List, [], ◌∷◌, ◌++◌, none, some, ◌==◌, ◌⊕◌,
  length, length-append, occurs, occurs-append, arith, is_some, All, if_cases, ltb,
}
use atomicbase.Result.{ok, Holds, Holds->>=, Holds-ok, Holds-if}
use atomicbase.Tools.Validation.{Unicode, IsPlain}
use atomicbase.Definitions.Types.{Value}
use atomicbase.Definitions.Compiler.Placeholders.{marks, marks-around}
use atomicbase.Platform.Schema.{lookup}
use atomicbase.Platform.Diff.Maps.{put-All}
use atomicbase.PrimaryStore.Policies.{Json}
use atomicbase.Data.Text.{GoText}
use atomicbase.Data.Schema.{CacheTable, search_tbls, search_cols}
use atomicbase.Data.Clean.{
  IsCleanName, IsCleanTable, IsCleanSchema, search_tbls-IsClean, search_cols-IsClean,
}
use atomicbase.Data.Filter.{Clause}
use atomicbase.Data.Filter.Texts.{IsBalanced, HasCleanMembers}
use atomicbase.Data.Where.{build_where_from_json, build_order_from_json, add_orders, direction}
use atomicbase.Data.Where.Placeholders.{build_where-Balances}
use atomicbase.Data.Policy.{TenantConnection, compile_policy}
use atomicbase.Data.Policy.Placeholders.{
  IsBalancedPolicy, compile_policy-IsBalanced, apply_policy_cte-IsBalanced,
}
use atomicbase.Data.Writes.{validate_table_name}
use atomicbase.Data.Writes.Columns.{marks-separator}
use atomicbase.Data.Relation.{
  Relation, relation, Relations, no_relation, relations, parse_select_from_json,
}
use atomicbase.Data.Select.{build_select}
use atomicbase.Data.Columns.{SelectPolicySet}
use atomicbase.Data.Select.Placeholders.{build_select-placeholders}
use atomicbase.Data.Reads.{
  Config, SelectQuery, Base, Select, compile_once, walk, walk_joins, compile_select_policies,
  fk_base, base_of, count_clause, statements, select_json, page, limit_of, requested,
}

module _ (go : GoText) (numbers : (n : ℕ) → IsCleanName (go.itoa n)) where
  page-IsClean : (config : Config) (query : SelectQuery) → IsCleanName (page go config query)
  unfolding page occurs
  page-IsClean config query = rw occurs-append (
      omega (
        arith,
        if_cases IsCleanName (ltb 0 (limit_of config query.limit))
            {x = "LIMIT " ⊕ go.itoa (limit_of config query.limit) ⊕ " "} {y = ""}
            (λ _. rw marks-around (omega (arith, numbers (limit_of config query.limit))))
            (λ _. refl),
        if_cases IsCleanName (ltb 0 (requested 0 query.offset))
            {x = "OFFSET " ⊕ go.itoa (requested 0 query.offset) ⊕ " "} {y = ""}
            (λ _. rw marks-around (omega (arith, numbers (requested 0 query.offset)))) (λ _. refl),
      ))

  direction-IsClean : (dir : String) → Holds IsCleanName (direction go dir)
  unfolding direction occurs
  direction-IsClean dir =
      Holds-if IsCleanName (go.to_lower dir == "asc") _ _ refl
        (Holds-if IsCleanName (go.to_lower dir == "desc") _ _ refl tt)

  module _ (table : CacheTable) (t : IsCleanTable table) where
    add_orders-IsClean :
        (order : List (String × String)) (query : String) (first : Bool)
        → IsCleanName query
        → Holds IsCleanName (add_orders go table order query first)
    unfolding add_orders occurs
    add_orders-IsClean [] query first h = h
    add_orders-IsClean ((col, dir) ∷ order) query first h =
        Holds->>= IsCleanName (search_cols table col) _ λ _ e.
          Holds->>= IsCleanName (direction go dir) _ λ d e2. add_orders-IsClean order _ false (
            simp occurs-append (
              omega (
                arith,
                h,
                marks-separator first,
                t.0,
                search_cols-IsClean table col t e,
                Holds-ok IsCleanName (direction-IsClean dir) e2,
              )))

    build_order-IsClean :
        (order : List (String × String)) → Holds IsCleanName (build_order_from_json go table order)
    unfolding build_order_from_json occurs
    build_order-IsClean [] = refl
    build_order-IsClean (o ∷ os) =
        Holds->>= IsCleanName (add_orders go table (o ∷ os) "ORDER BY " true) _ λ q e.
          rw occurs-append (
            omega
              (arith, Holds-ok IsCleanName (add_orders-IsClean (o ∷ os) "ORDER BY " true refl) e))

abbrev AreBalanced : SelectPolicySet → Type 0
AreBalanced policies = All (λ row. IsBalancedPolicy row.1) policies

abbrev IsBalancedBase : Base → Type 0
IsBalancedBase b =
    (marks b.sql_query ≡ length b.policy_args) × (marks b.group_by ≡ 0) × (marks b.agg ≡ 0)

-- The count, if there is one, and the rows.
abbrev pub IsBalancedSelect : Select → Type 0
IsBalancedSelect s = ((c : Clause) → s.count ≡ some c → IsBalanced c) × IsBalanced s.rows

module _ (u : Unicode) (plain : IsPlain u b'?') (json : Json) (dao : TenantConnection) where
  compile_once-AreBalanced :
      (name : String) (policies : SelectPolicySet)
      → AreBalanced policies
      → Holds AreBalanced (compile_once u json dao name policies)
  unfolding compile_once
  compile_once-AreBalanced name policies h =
      Holds-if AreBalanced (is_some (lookup name policies)) _ _ h (
        Holds->>= AreBalanced (compile_policy u json dao name "select" none) _ λ p e.
          put-All IsBalancedPolicy name p policies
            (Holds-ok IsBalancedPolicy
              (compile_policy-IsBalanced u plain json dao name "select" none) e)
            h)

  mutual
    unfolding walk

    walk-AreBalanced :
        (rel : Relation) (policies : SelectPolicySet)
        → AreBalanced policies
        → Holds AreBalanced (walk u json dao rel policies)
    walk-AreBalanced (relation name alias inner columns joins) policies h =
        Holds->>= AreBalanced (compile_once u json dao name policies) _ λ next e.
          walk_joins-AreBalanced joins next
            (Holds-ok AreBalanced (compile_once-AreBalanced name policies h) e)

    walk_joins-AreBalanced :
        (rs : Relations) (policies : SelectPolicySet)
        → AreBalanced policies
        → Holds AreBalanced (walk_joins u json dao rs policies)
    walk_joins-AreBalanced no_relation policies h = h
    walk_joins-AreBalanced (relations r rs) policies h =
        Holds->>= AreBalanced (walk u json dao r policies) _ λ next e.
          walk_joins-AreBalanced rs next (Holds-ok AreBalanced (walk-AreBalanced r policies h) e)

  module _ (s : IsCleanSchema dao.schema) (go : GoText) where
    fk_base-IsBalanced :
        (config : Config) (table : String) (query : SelectQuery)
        → Holds IsBalancedBase (fk_base u json dao go config table query)
    unfolding occurs
    fk_base-IsBalanced config table query =
        Holds->>= IsBalancedBase (parse_select_from_json query.select table) _ λ rel _.
          Holds->>= IsBalancedBase (compile_select_policies u json dao rel) _ λ policies e.
            Holds->>= IsBalancedBase
              (build_select u go dao.schema policies config.max_query_depth rel) _
              λ q built.
                let (sql, agg) =
                  build_select-placeholders u go dao.schema policies config.max_query_depth rel q
                    plain s (Holds-ok AreBalanced (walk-AreBalanced rel [] tt) e) built in
                (sql, refl, agg)

  count_clause-IsBalanced :
      (include_count : Bool) (sql : String) (args : List Value)
      → marks sql ≡ length args
      → (c : Clause) → count_clause u json dao include_count sql args ≡ some c
      → IsBalanced c
  unfolding occurs
  count_clause-IsBalanced false sql args h c e = absurd (cc e)
  count_clause-IsBalanced true sql args h c e =
      subst IsBalanced (some-injective _ _ e)
        (apply_policy_cte-IsBalanced _ dao _ (rw marks-around (omega (arith, h))))

  statements-IsBalanced :
      (include_count : Bool) (base : Base) (found : Clause) (order paging : String)
      → IsBalancedBase base
      → IsBalanced found
      → IsCleanName order
      → IsCleanName paging
      → IsBalancedSelect (statements u json dao include_count base found order paging)
  unfolding occurs
  statements-IsBalanced include_count base found order paging b f o p = (
    count_clause-IsBalanced include_count (base.sql_query ⊕ found.sql ⊕ base.group_by)
        (found.args ++ base.policy_args)
        (simp (occurs-append, length-append) (omega (arith, b.0, b.1, f))),
    apply_policy_cte-IsBalanced _ dao _
        (simp (occurs-append, length-append) (omega (arith, b.0, b.1, b.2, f, o, p))),
  )

-- The statements of a select that follows foreign keys, the one that counts and the one that
-- fetches, have one placeholder for each of their arguments, as long as "?" is neither a letter nor
-- a digit nor part of a number, the schema's names and types have none, and no "is" filter of the
-- request prints one.
pub select_json-placeholders :
    (u : Unicode) (json : Json) (dao : TenantConnection) (go : GoText) (config : Config)
    (table : String) (query : SelectQuery) (include_count : Bool) (answer : Select)
    → IsPlain u b'?'
    → ((n : ℕ) → marks (go.itoa n) ≡ 0)
    → IsCleanSchema dao.schema
    → All HasCleanMembers query.conditions
    → query.join ≡ []
    → select_json u json dao go config table query include_count ≡ ok answer
    → IsBalancedSelect answer
unfolding select_json
select_json-placeholders u json dao go config table query include_count answer plain numbers s w
      no_join e =
    Holds-ok IsBalancedSelect
      (Holds->>= IsBalancedSelect (validate_table_name u table) _ λ _ _.
        Holds->>= IsBalancedSelect (search_tbls dao.schema table) _ λ tbl known.
          let (_, t) = search_tbls-IsClean dao.schema table s known in
          Holds->>= IsBalancedSelect (base_of u json dao go config table query query.join) _
            λ base based.
              Holds->>= IsBalancedSelect (build_where_from_json dao.schema tbl query.conditions) _
                λ found built.
                  Holds->>= IsBalancedSelect (build_order_from_json go tbl query.order) _
                    λ order ordered.
                      statements-IsBalanced u plain json dao include_count base found order
                        (page go config query)
                        (Holds-ok IsBalancedBase
                          (fk_base-IsBalanced u plain json dao s go config table query)
                          (ap (base_of u json dao go config table query) (sym no_join) ∙ based))
                        (Holds-ok IsBalanced
                          (build_where-Balances dao.schema tbl s t query.conditions w) built)
                        (Holds-ok IsCleanName (build_order-IsClean go numbers tbl t query.order)
                          ordered)
                        (page-IsClean go numbers config query))
      e
