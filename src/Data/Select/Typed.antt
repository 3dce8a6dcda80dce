-- ===== src/Data/Select/Typed.antt =====
-- Only trees that the schema gives a type to become statements.
use atomicbase.Prelude.{
  ℕ, ◌≤◌, String, false, ◌≡◌, sym, ◌∙◌, List, [], ◌∷◌, ◌==◌, arith, if_false, Bool-cases, inl, inr,
  All,
}
use atomicbase.Result.{ok, >>=-eq-ok, Holds, Holds->>=, Holds-value, Holds-ok}
use atomicbase.Tools.Validation.{Unicode}
use atomicbase.Data.Text.{GoText}
use atomicbase.Data.Schema.{CacheTable, CacheFk, SchemaCache, search_tbls, search_cols}
use atomicbase.Data.Filter.{qualified}
use atomicbase.Data.Relation.{
  Column, Relation, relation, Relations, no_relation, relations, relation_depth,
}
use atomicbase.Data.Select.{
  Built, Subquery, require_fk, select_from, or_all_columns, build_sel_curr, add_joins,
  require_depth, build_select,
}
use atomicbase.Data.Columns.{
  find_foreign_key, is_no_fk, SelectPolicySet, Picked, pick_column, pick_columns, key_of,
}

require_fk-has :
    (parent name : String) (fk : CacheFk) {done : Unit {0}}
    → require_fk parent name fk ≡ ok done
    → is_no_fk fk ≡ false
require_fk-has parent name fk e = elim (Bool-cases (is_no_fk fk)) [
  | inl none_there ↦ absurd (cc (rw none_there at e))
  | inr there ↦ there
]

require_depth-le :
    (max_depth : ℕ) (rel : Relation) {done : Unit {0}}
    → require_depth max_depth rel ≡ ok done
    → relation_depth rel ≤ max_depth
require_depth-le max_depth rel e = ground (arith, e)

module _ (schema : SchemaCache) where
  -- "*", or a column of the table.
  unfoldable pub IsColumnOf : CacheTable → Column → Type 0
  IsColumnOf tbl col =
      col.name == "*" ≡ false → (type : String) × (search_cols tbl col.name ≡ ok type)

  -- The table is one of the schema's, the columns are the table's, and every add_join table has a
  -- foreign key to this one.
  unfoldable mutual
    pub IsTyped : Relation → Type 0
    IsTyped (relation name alias inner columns joins) =
        (tbl : CacheTable) × (search_tbls schema name ≡ ok tbl)
        × All (IsColumnOf tbl) (or_all_columns columns joins)
        × AreTyped name joins

    pub AreTyped : String → Relations → Type 0
    AreTyped parent no_relation = Unit
    AreTyped parent (relations (relation name alias inner columns joins) rs) =
        (is_no_fk (find_foreign_key schema name parent) ≡ false)
        × IsTyped (relation name alias inner columns joins)
        × AreTyped parent rs

  module _ (u : Unicode) (go : GoText) (policies : SelectPolicySet) where
    pick_columns-Typed :
        (ref : String → String) (tbl : CacheTable) (name : String) (cols : List Column)
        (acc : Picked)
        → Holds (λ _. All (IsColumnOf tbl) cols) (pick_columns u go ref tbl name cols acc)
    unfolding pick_columns pick_column IsColumnOf
    pick_columns-Typed ref tbl name [] acc = tt
    pick_columns-Typed ref tbl name (col ∷ cols) acc =
        Holds->>= _ (pick_column u go ref tbl name col) _ λ p e.
          Holds-value _ (pick_columns u go ref tbl name cols _) λ q rest. (
            λ not_star.
                let (type, found, _) =
                  >>=-eq-ok (search_cols tbl col.name) _
                    (sym (if_false (col.name == "*") _ _ not_star) ∙ e) in
                (type, found),
            Holds-ok _ (pick_columns-Typed ref tbl name cols _) rest,
          )

    mutual
      unfolding build_sel_curr IsTyped

      build_sel_curr-IsTyped :
          (rel : Relation) (joined_on : String)
          → Holds (λ _. IsTyped rel) (build_sel_curr u go schema policies rel joined_on)
      build_sel_curr-IsTyped (relation name alias inner columns joins) joined_on =
          Holds->>= _ (search_tbls schema name) _ λ tbl found.
            Holds->>= _
              (pick_columns u go (qualified name) tbl name (or_all_columns columns joins) _) _
              λ picked p. Holds->>= _ (add_joins u go schema policies name joins _) _ λ built b.
                Holds-value _ (select_from policies name built) λ _ _. (
                  tbl,
                  found,
                  Holds-ok _
                      (pick_columns-Typed (qualified name) tbl name (or_all_columns columns joins)
                        _)
                      p,
                  Holds-ok _ (add_joins-AreTyped name joins _) b,
                )

      add_joins-AreTyped :
          (parent : String) (rs : Relations) (acc : Built)
          → Holds (λ _. AreTyped parent rs) (add_joins u go schema policies parent rs acc)
      add_joins-AreTyped parent no_relation acc = tt
      add_joins-AreTyped parent (relations (relation name alias inner columns joins) rs) acc =
          Holds->>= _ (key_of u alias name) _ λ key _.
            Holds->>= _
              (build_sel_curr u go schema policies (relation name alias inner columns joins) parent)
              _
              λ q e.
                Holds->>= _ (require_fk parent name (find_foreign_key schema name parent)) _
                  λ _ has. Holds-value _ (add_joins u go schema policies parent rs _) λ _ rest. (
                    require_fk-has parent name (find_foreign_key schema name parent) has,
                    Holds-ok _
                        (build_sel_curr-IsTyped (relation name alias inner columns joins) parent) e,
                    Holds-ok _ (add_joins-AreTyped parent rs _) rest,
                  )

build_select-Typed :
    (u : Unicode) (go : GoText) (schema : SchemaCache) (policies : SelectPolicySet) (max_depth : ℕ)
    (rel : Relation)
    → Holds
        (λ _. IsTyped schema rel × (relation_depth rel ≤ max_depth))
        (build_select u go schema policies max_depth rel)
unfolding build_select IsTyped
build_select-Typed u go schema policies max_depth (relation name alias inner columns joins) =
    Holds->>= _ (require_depth max_depth (relation name alias inner columns joins)) _ λ _ shallow.
      Holds->>= _ (search_tbls schema name) _ λ tbl found.
        Holds->>= _ (pick_columns u go _ tbl name (or_all_columns columns joins) _) _ λ picked p.
          Holds->>= _ (add_joins u go schema policies name joins _) _ λ built b.
            Holds->>= _ (select_from policies name built) _ λ _ _. (
              (
                tbl,
                found,
                Holds-ok _
                    (pick_columns-Typed schema u go policies _ tbl name
                      (or_all_columns columns joins) _)
                    p,
                Holds-ok _ (add_joins-AreTyped schema u go policies name joins _) b,
              ),
              require_depth-le max_depth (relation name alias inner columns joins) shallow,
            )

-- A SELECT is only built for a tree whose tables and columns are the schema's, in which each add_join
-- table has a foreign key to the table above it, and which is no deeper than the configured limit.
pub build_select-IsTyped :
    (u : Unicode) (go : GoText) (schema : SchemaCache) (policies : SelectPolicySet) (max_depth : ℕ)
    (rel : Relation) (q : Subquery)
    → build_select u go schema policies max_depth rel ≡ ok q
    → IsTyped schema rel × (relation_depth rel ≤ max_depth)
build_select-IsTyped u go schema policies max_depth rel q e =
    Holds-ok _ (build_select-Typed u go schema policies max_depth rel) e
