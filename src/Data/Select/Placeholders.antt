-- ===== src/Data/Select/Placeholders.antt =====
-- A SELECT over nested subqueries has as many placeholders as arguments.
use atomicbase.Prelude.{
  ℕ, String, Bool, not, ◌&&◌, ◌≡◌, refl, List, Option, none, some, ◌==◌, ◌⊕◌, length, length-append,
  occurs, occurs-append, arith, inl, inr, Bool-cases, Option-cases, if_cases, All, All-append,
}
use atomicbase.Result.{ok, Holds, Holds->>=, Holds-ok, Holds-value}
use atomicbase.Tools.Validation.{Unicode, IsPlain}
use atomicbase.Definitions.Types.{CompiledPredicate}
use atomicbase.Definitions.Compiler.Placeholders.{marks, marks-around}
use atomicbase.Platform.Schema.{lookup}
use atomicbase.Data.Text.{GoText}
use atomicbase.Data.Schema.{CacheFk, SchemaCache, search_tbls, search_fks}
use atomicbase.Data.Clean.{
  IsCleanName, IsCleanFk, IsCleanSchema, lookup-All, search_tbls-IsClean, search_fks-IsClean,
}
use atomicbase.Data.Filter.{qualified}
use atomicbase.Data.Filter.Texts.{marks-qualified}
use atomicbase.Data.Aggregation.Chunks.{build_json_aggregation-IsClean}
use atomicbase.Data.Policy.Placeholders.{IsBalancedPolicy}
use atomicbase.Data.Relation.{
  Column, Relation, relation, Relations, no_relation, relations, name_of,
}
use atomicbase.Data.Select.{
  Built, built_from, Subquery, add_join, require_fk, cut, where_of, args_of, select_from,
  or_all_columns, includes, fk_column, build_sel_curr, add_joins, grouped, require_depth,
  build_select,
}
use atomicbase.Data.Columns.{find_foreign_key, SelectPolicySet, Picked, key_of, pick_columns}
use atomicbase.Data.Select.Columns.{
  IsCleanPicked, cut-IsClean, marks-pair, marks-join_keyword, key_of-IsClean, pick_columns-IsClean,
  pick_columns-Known,
}
use atomicbase.Data.Select.Group.{group_by-IsClean}

abbrev IsBalancedQuery : Subquery → Type 0
IsBalancedQuery q = (marks q.query ≡ length q.args) × IsCleanName q.agg

abbrev IsBalancedBuilt : Built → Type 0
IsBalancedBuilt b =
    IsCleanName b.sel × (marks b.joins ≡ length b.policy_args) × All IsCleanName b.agg_pairs

grouped-IsBalanced :
    (group : String) (q : Subquery)
    → IsCleanName group
    → IsBalancedQuery q
    → IsBalancedQuery (grouped group q)
grouped-IsBalanced group q g h = (rw occurs-append (omega (arith, g, h.0)), h.1)

module _ (u : Unicode) (plain : IsPlain u b'?') (go : GoText) where
  built_from-IsBalanced :
      (p : Picked) (more : String)
      → IsCleanPicked p
      → IsCleanName more
      → IsBalancedBuilt (built_from p more)
  unfolding occurs
  built_from-IsBalanced p more hp hm = (rw occurs-append (omega (arith, hp.0, hm)), refl, hp.1)

  add_join-IsBalanced :
      (name : String) (inner : Bool) (key : String) (fk : CacheFk) (q : Subquery) (acc : Built)
      → IsCleanName name
      → IsCleanName key
      → IsCleanFk fk
      → IsBalancedQuery q
      → IsBalancedBuilt acc
      → IsBalancedBuilt (add_join name inner key fk q acc)
  unfolding occurs
  add_join-IsBalanced name inner key fk q acc n k f hq h =
      let from = marks-qualified fk.table fk.from f.0 f.2 in
      (
        simp occurs-append (omega (arith, h.0, hq.1, from, n)),
        simp (occurs-append, length-append)
            (omega (
              arith,
              h.1,
              hq.0,
              from,
              marks-qualified fk.references fk.to f.1 f.3,
              n,
              marks-join_keyword inner,
            )),
        All-append IsCleanName acc.agg_pairs _ h.2
            (marks-pair key _ k (rw marks-around (omega (arith, n))), tt),
      )

  find_foreign_key-IsClean :
      (schema : SchemaCache) (table references : String)
      → IsCleanSchema schema
      → IsCleanFk (find_foreign_key schema table references)
  unfolding find_foreign_key occurs
  find_foreign_key-IsClean schema table references s =
      elim (Option-cases (search_fks schema table references)) [
        | inl e ↦ rw e (refl, refl, refl, refl)
        | inr (fk, e) ↦ rw e (search_fks-IsClean schema table references s e)
      ]

  fk_column-IsClean :
      (fk : CacheFk) (name : String) (cols : List Column)
      → IsCleanFk fk
      → IsCleanName (fk_column fk name cols)
  unfolding occurs
  fk_column-IsClean fk name cols f =
      if_cases IsCleanName (not (fk.table == "") && not (fk.table == name && includes fk.from cols))
        (λ _. rw occurs-append (omega (arith, marks-qualified fk.table fk.from f.0 f.2)))
        (λ _. refl)

  module _ (policies : SelectPolicySet)
      (balanced : All (λ row. IsBalancedPolicy row.1) policies) where
    where_of-IsBalanced :
        (o : Option CompiledPredicate)
        → ((p : CompiledPredicate) → o ≡ some p → IsBalancedPolicy p)
        → marks (where_of o) ≡ length (args_of o)
    unfolding occurs
    where_of-IsBalanced none h = refl
    where_of-IsBalanced (some p) h = elim (Bool-cases (p.sql == "")) [
      | inl e ↦ rw e refl
      | inr e ↦ rw (e, marks-around) (omega (arith, h p refl))
    ]

    select_from-IsBalanced :
        (name : String) (built : Built)
        → IsCleanName name
        → IsBalancedBuilt built
        → Holds IsBalancedQuery (select_from policies name built)
    unfolding select_from occurs
    select_from-IsBalanced name built n h = Holds->>= IsBalancedQuery (cut built.sel) _ λ sel e. (
      simp (occurs-append, length-append)
          (omega (
            arith,
            h.1,
            n,
            cut-IsClean built.sel h.0 e,
            where_of-IsBalanced (lookup name policies)
                (λ p found. lookup-All (λ name p. IsBalancedPolicy p) name policies balanced found),
          )),
      build_json_aggregation-IsClean built.agg_pairs h.2,
    )

    module _ (schema : SchemaCache) (s : IsCleanSchema schema) where
      mutual
        unfolding build_sel_curr occurs

        build_sel_curr-IsBalanced :
            (rel : Relation) (joined_on : String)
            → Holds
                (λ q. IsCleanName (name_of rel) × IsBalancedQuery q)
                (build_sel_curr u go schema policies rel joined_on)
        build_sel_curr-IsBalanced (relation name alias inner columns joins) joined_on =
            Holds->>= _ (search_tbls schema name) _ λ tbl found.
              let (n, t) = search_tbls-IsClean schema name s found in
              Holds->>= _
                (pick_columns u go (qualified name) tbl name (or_all_columns columns joins) _) _
                λ picked p.
                  let clean =
                    Holds-ok IsCleanPicked
                      (pick_columns-IsClean u plain go (qualified name)
                        (λ c h. marks-qualified name c n h) tbl t name n
                        (or_all_columns columns joins) _ (refl, tt))
                      p in
                  let start =
                    built_from-IsBalanced picked
                      (fk_column (find_foreign_key schema name joined_on) name
                        (or_all_columns columns joins))
                      clean
                      (fk_column-IsClean (find_foreign_key schema name joined_on) name
                        (or_all_columns columns joins)
                        (find_foreign_key-IsClean schema name joined_on s)) in
                  Holds->>= _ (add_joins u go schema policies name joins _) _ λ built b.
                    Holds-value _ (select_from policies name built) λ q made. (
                      n,
                      Holds-ok IsBalancedQuery
                          (select_from-IsBalanced name built n (
                            Holds-ok IsBalancedBuilt (add_joins-IsBalanced name n joins _ start) b))
                          made,
                    )

        add_joins-IsBalanced :
            (parent : String)
            → IsCleanName parent
            → (rs : Relations) (acc : Built) → IsBalancedBuilt acc
            → Holds IsBalancedBuilt (add_joins u go schema policies parent rs acc)
        add_joins-IsBalanced parent p no_relation acc h = h
        add_joins-IsBalanced parent p (relations (relation name alias inner columns joins) rs) acc
              h =
            Holds->>= IsBalancedBuilt (key_of u alias name) _ λ key k.
              Holds->>= IsBalancedBuilt
                (build_sel_curr u go schema policies (relation name alias inner columns joins)
                  parent)
                _
                λ q e.
                  let (n, sub) =
                    Holds-ok (λ q. IsCleanName name × IsBalancedQuery q)
                      (build_sel_curr-IsBalanced (relation name alias inner columns joins) parent)
                      e in
                  Holds->>= IsBalancedBuilt
                    (require_fk parent name (find_foreign_key schema name parent)) _
                    λ _ _. add_joins-IsBalanced parent p rs _ (
                      add_join-IsBalanced name inner key (find_foreign_key schema name parent) q acc
                        n (Holds-ok IsCleanName (key_of-IsClean u plain go alias name n) k)
                        (find_foreign_key-IsClean schema name parent s) sub h)

      build_select-IsBalanced :
          (max_depth : ℕ) (rel : Relation)
          → Holds IsBalancedQuery (build_select u go schema policies max_depth rel)
      unfolding build_select occurs
      build_select-IsBalanced max_depth (relation name alias inner columns joins) =
          let cols = or_all_columns columns joins in
          let ref : String → String = λ c. "[" ⊕ c ⊕ "]" in
          Holds->>= IsBalancedQuery
            (require_depth max_depth (relation name alias inner columns joins)) _
            λ _ _. Holds->>= IsBalancedQuery (search_tbls schema name) _ λ tbl found.
              let (n, t) = search_tbls-IsClean schema name s found in
              Holds->>= IsBalancedQuery (pick_columns u go ref tbl name cols _) _ λ picked p.
                let clean =
                  Holds-ok IsCleanPicked
                    (pick_columns-IsClean u plain go ref (λ c h. rw marks-around (omega (arith, h)))
                      tbl t name n cols _ (refl, tt))
                    p in
                let known =
                  Holds-ok _
                    (pick_columns-Known u plain go ref (λ c h. rw marks-around (omega (arith, h)))
                      tbl t name n cols _)
                    p in
                Holds->>= IsBalancedQuery (add_joins u go schema policies name joins _) _ λ built b.
                  Holds->>= IsBalancedQuery (select_from policies name built) _ λ q made.
                    grouped-IsBalanced _ q (group_by-IsClean tbl t name n cols joins known) (
                      Holds-ok IsBalancedQuery
                        (select_from-IsBalanced name built n (
                          Holds-ok IsBalancedBuilt
                            (add_joins-IsBalanced name n joins _
                              (built_from-IsBalanced picked "" clean refl))
                            b))
                        made)

-- Every SELECT that the code builds for a tree of tables has one placeholder for each of its
-- arguments, and none in the JSON expression that goes around it, as long as "?" is neither a letter
-- nor a digit, the schema's names and types have none and the policies are balanced themselves.
pub build_select-placeholders :
    (u : Unicode) (go : GoText) (schema : SchemaCache) (policies : SelectPolicySet) (max_depth : ℕ)
    (rel : Relation) (q : Subquery)
    → IsPlain u b'?'
    → IsCleanSchema schema
    → All (λ row. IsBalancedPolicy row.1) policies
    → build_select u go schema policies max_depth rel ≡ ok q
    → (marks q.query ≡ length q.args) × (marks q.agg ≡ 0)
build_select-placeholders u go schema policies max_depth rel q plain s balanced e =
    Holds-ok IsBalancedQuery
      (build_select-IsBalanced u plain go policies balanced schema s max_depth rel) e
