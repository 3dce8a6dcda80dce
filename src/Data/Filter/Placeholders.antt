-- ===== src/Data/Filter/Placeholders.antt =====
-- A filter on a column has as many placeholders as arguments.
use mathlib.Core.Path.{subst}
use mathlib.Core.Option.{some-injective}
use atomicbase.Prelude.{
  sym, ◌∙◌, if_true, if_false, String, ◌≡◌, refl, [], ◌∷◌, ◌==◌, ◌⊕◌, occurs, occurs-append, arith,
  eq_iff, inl, inr, Bool-cases, Option, none, some, if◌then◌else◌, if_cases, split_dot,
}
use atomicbase.Result.{Result, ok, ok-injective, ◌>>◌, Holds, Holds->>=, Holds-ok}
use atomicbase.Definitions.Types.{
  Value, null, bool, str, other, arr, obj, Entries, no_entry, entry, sprint,
}
use atomicbase.Definitions.Compiler.Placeholders.{marks}
use atomicbase.Data.Schema.{CacheTable, SchemaCache, search_tbls, search_cols}
use atomicbase.Data.Clean.{
  IsCleanName, IsCleanTable, IsCleanSchema, search_tbls-IsClean, search_cols-IsClean,
}
use atomicbase.Data.Filter.{
  Clause, clause, as_object, qualified, matches, fts_suffix, require_index, not_operator,
  build_not_filter_clause_with_table, operator, resolve_parts, resolve_column, column_ref,
  is_column_ref, operator_or_ref, first_operator, not_or_operator, build_filter_clause, entry_of,
}
use atomicbase.Data.Filter.Texts.{
  Balances, HasCleanIs, HasCleanMembers, IsBalanced, as_array-Balances, between-Balances,
  compared_to-Balances, in_list-Balances, is_value-Balances, marks-matches, marks-op_to_sql,
  marks-qualified,
}

if_eq-Balances :
    (op name : String) (x y : Result Clause)
    → (op ≡ name → Balances x)
    → Balances y
    → Balances (if op == name then x else y)
if_eq-Balances op name x y hx hy =
    if_cases Balances (op == name) (λ e. hx ((eq_iff op name).0 e)) (λ _. hy)

module _ (table col : String) (t : IsCleanName table) (c : IsCleanName col) where
  clean_column : IsCleanName (qualified table col)
  clean_column = marks-qualified table col t c

  not_operator-Balances :
      (op : String) (val : Value)
      → (op ≡ "is" → marks (sprint val) ≡ 0)
      → Balances (not_operator (qualified table col) op val)
  unfolding not_operator occurs
  not_operator-Balances op val h =
      search
        (
          if_eq-Balances,
          compared_to-Balances (qualified table col) clean_column,
          as_array-Balances,
          in_list-Balances (qualified table col) clean_column,
          is_value-Balances (qualified table col) clean_column,
        )
        depth 8

  fts-Balances :
      (schema : SchemaCache) (val : Value)
      → Balances
          (require_index schema table >> clause (matches (table ⊕ fts_suffix) col) (val ∷ []))
  unfolding occurs
  fts-Balances schema val =
      Holds->>= IsBalanced (require_index schema table) _
        λ _ _. marks-matches (table ⊕ fts_suffix) col (rw occurs-append (omega (arith, t))) c

  operator-Balances :
      (schema : SchemaCache) (op : String) (val : Value)
      → (op ≡ "is" → marks (sprint val) ≡ 0)
      → Balances (operator schema table col op val)
  unfolding operator occurs
  operator-Balances schema op val h =
      search
        (
          if_eq-Balances,
          compared_to-Balances (qualified table col) clean_column,
          as_array-Balances,
          in_list-Balances (qualified table col) clean_column,
          is_value-Balances (qualified table col) clean_column,
          between-Balances (qualified table col) clean_column,
          fts-Balances,
        )
        depth 20

  build_not_filter_clause-Balances :
      (es : Entries)
      → HasCleanMembers es
      → Balances (build_not_filter_clause_with_table table col es)
  unfolding build_not_filter_clause_with_table HasCleanIs occurs
  build_not_filter_clause-Balances no_entry h = refl
  build_not_filter_clause-Balances (entry op val es) h = not_operator-Balances op val h.0

  module _ (schema : SchemaCache) (base : CacheTable) (b : IsCleanTable base) where
    column_ref-Balances : (op ref : String) → Balances (column_ref base table col op ref)
    unfolding occurs
    column_ref-Balances op ref = Holds->>= IsBalanced (search_cols base ref) _ λ _ e.
        rw (occurs-append, occurs-append, occurs-append, occurs-append, occurs-append)
          (omega (
            arith,
            marks-qualified base.name ref b.0 (search_cols-IsClean base ref b e),
            clean_column,
            marks-op_to_sql op,
          ))

    operator_or_ref-Balances :
        (op : String) (val : Value) (ref : Option String)
        → (op ≡ "is" → marks (sprint val) ≡ 0)
        → Balances (operator_or_ref schema base table col op val ref)
    operator_or_ref-Balances op val none h = operator-Balances schema op val h
    operator_or_ref-Balances op val (some ref) h = column_ref-Balances op ref

    first_operator-Balances :
        (es : Entries) → HasCleanMembers es → Balances (first_operator schema base table col es)
    unfolding first_operator HasCleanIs occurs
    first_operator-Balances no_entry h = refl
    first_operator-Balances (entry op val es) h =
        operator_or_ref-Balances op val (is_column_ref val) h.0

entry_of-HasCleanIs :
    (key : String) (es : Entries) {v : Value}
    → HasCleanMembers es
    → entry_of key es ≡ some v
    → HasCleanIs v
unfolding entry_of HasCleanIs
entry_of-HasCleanIs key no_entry h e = absurd (cc e)
entry_of-HasCleanIs key (entry k w es) h e = elim (Bool-cases (k == key)) [
  | inl same ↦ subst HasCleanIs (some-injective _ _ (sym (if_true (k == key) _ _ same) ∙ e)) h.1
  | inr different ↦ entry_of-HasCleanIs key es h.2 (sym (if_false (k == key) _ _ different) ∙ e)
]

pub as_object-HasCleanMembers :
    (message : String) (v : Value) {es : Entries}
    → HasCleanIs v
    → as_object message v ≡ ok es
    → HasCleanMembers es
unfolding HasCleanIs
as_object-HasCleanMembers message null h e = absurd (cc e)
as_object-HasCleanMembers message (bool b) h e = absurd (cc e)
as_object-HasCleanMembers message (str s) h e = absurd (cc e)
as_object-HasCleanMembers message (other s) h e = absurd (cc e)
as_object-HasCleanMembers message (arr vs) h e = absurd (cc e)
as_object-HasCleanMembers message (obj s es) h e = subst HasCleanMembers (ok-injective e) h

abbrev AreClean : String × String → Type 0
AreClean names = IsCleanName names.0 × IsCleanName names.1

module _ (schema : SchemaCache) (table : CacheTable) (s : IsCleanSchema schema)
    (t : IsCleanTable table) where
  resolve_parts-IsClean :
      (column : String) (parts : Option (String × String))
      → Holds AreClean (resolve_parts schema table column parts)
  resolve_parts-IsClean column none =
      Holds->>= AreClean (search_cols table column) _
        λ _ e. (t.0, search_cols-IsClean table column t e)
  resolve_parts-IsClean column (some (name, col)) =
      Holds->>= AreClean (search_tbls schema name) _ λ tbl e.
        let clean = search_tbls-IsClean schema name s e in
        Holds->>= AreClean (search_cols tbl col) _
          λ _ e2. (clean.0, search_cols-IsClean tbl col clean.1 e2)

  resolve_column-IsClean : (column : String) → Holds AreClean (resolve_column schema table column)
  unfolding resolve_column
  resolve_column-IsClean column = resolve_parts-IsClean column (split_dot column)

  not_or_operator-Balances :
      (filter : Entries) (name col : String) (negated : Option Value)
      → IsCleanName name
      → IsCleanName col
      → HasCleanMembers filter
      → ((v : Value) → negated ≡ some v → HasCleanIs v)
      → Balances (not_or_operator schema table filter name col negated)
  not_or_operator-Balances filter name col (some v) n c h m =
      Holds->>= IsBalanced (as_object "not value must be an object" v) _ λ es e.
        build_not_filter_clause-Balances name col n c es
          (as_object-HasCleanMembers _ v (m v refl) e)
  not_or_operator-Balances filter name col none n c h m =
      first_operator-Balances name col n c schema table t filter h

  pub build_filter_clause-Balances :
      (column : String) (filter : Entries)
      → HasCleanMembers filter
      → Balances (build_filter_clause schema table column filter)
  unfolding build_filter_clause
  build_filter_clause-Balances column filter h =
      Holds->>= IsBalanced (resolve_column schema table column) _ λ names e.
        let clean = Holds-ok AreClean (resolve_column-IsClean column) e in
        not_or_operator-Balances filter names.0 names.1 (entry_of "not" filter) clean.0 clean.1 h
          (λ v found. entry_of-HasCleanIs "not" filter h found)
