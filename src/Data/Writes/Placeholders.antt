-- ===== src/Data/Writes/Placeholders.antt =====
-- Every statement that writes has as many placeholders as arguments.
use mathlib.Core.Path.{subst}
use text.Mathlib.TextLemmas.{append_assoc, append-nil}
use atomicbase.Prelude.{
  suc, String, ◌≡◌, refl, sym, ap, List, [], ◌∷◌, map, Option, none, some, ◌⊕◌, length,
  length-append, occurs, occurs-append, arith, All,
}
use atomicbase.Result.{ok, Holds, Holds->>=, Holds-ok}
use atomicbase.Tools.Validation.{Unicode, IsPlain}
use atomicbase.Definitions.Types.{Value, Entries, CompiledPredicate}
use atomicbase.Definitions.Compiler.Placeholders.{marks, marks-around}
use atomicbase.PrimaryStore.Policies.{Json}
use atomicbase.Data.Text.Occurs.{drop_last-comma}
use atomicbase.Data.Schema.{CacheTable, search_tbls}
use atomicbase.Data.Clean.{IsCleanName, IsCleanTable, IsCleanSchema, search_tbls-IsClean}
use atomicbase.Data.Filter.{Clause}
use atomicbase.Data.Filter.Texts.{IsBalanced, Balances, HasCleanMembers}
use atomicbase.Data.Where.{build_where_from_json}
use atomicbase.Data.Where.Placeholders.{build_where-Balances, marks-join, marks_all}
use atomicbase.Data.Policy.{TenantConnection, Row, compile_policy, append_policy_where}
use atomicbase.Data.Policy.Placeholders.{
  IsBalancedPolicy, IsListed, compile_policy-IsBalanced, append_policy_where-IsBalanced,
  apply_policy_cte-IsBalanced, build_insert_select-IsBalanced,
}
use atomicbase.Data.Writes.{
  InsertRequest, UpdateRequest, DeleteRequest, validate_table_name, known_columns, first_row,
  excluded, conflict_target, upserted, assignments, require_columns, require_where, inserted,
  insert_json, insert_ignore_json, upsert_json, update_clause, delete_clause, update_json,
  delete_json,
}
use atomicbase.Data.Writes.Columns.{finished-Balances, known_columns-IsClean, names}

HasCell : Row → Type 0
HasCell row = (cell : String × Value) × (cells : Row) × (row ≡ cell ∷ cells)

first_row-HasCell : (verb : String) (rows : List Row) → Holds HasCell (first_row verb rows)
unfolding HasCell
first_row-HasCell verb [] = tt
first_row-HasCell verb ([] ∷ rows) = tt
first_row-HasCell verb ((cell ∷ cells) ∷ rows) = (cell, cells, refl)

-- What an upsert adds keeps the balance.
KeepsBalance : (CacheTable → List String → Clause → Clause) → Type 0
KeepsBalance more =
    (table : CacheTable) (col : String) (cols : List String) (c : Clause)
    → All IsCleanName (col ∷ cols)
    → IsCleanTable table
    → IsBalanced c
    → IsBalanced (more table (col ∷ cols) c)

excluded-IsListed :
    (c : String) (cs : List String) → All IsCleanName (c ∷ cs) → IsListed (excluded (c ∷ cs))
unfolding excluded occurs
excluded-IsListed c [] h = (
  "[" ⊕ c ⊕ "] = excluded.[" ⊕ c ⊕ "]",
  rw append-nil (sym (append_assoc ("[" ⊕ c ⊕ "] = excluded.[" ⊕ c) "]" ", ")),
  rw (marks-around, occurs-append, occurs-append) (omega (arith, h.0)),
)
excluded-IsListed c (d ∷ cs) h =
    let (t, e, clean) = excluded-IsListed d cs h.1 in
    (
      "[" ⊕ c ⊕ "] = excluded.[" ⊕ c ⊕ "], " ⊕ t,
      rw e (sym (append_assoc _ _ _)),
      rw (marks-around, occurs-append, occurs-append, occurs-append) (omega (arith, h.0, clean)),
    )

marks_all-bracketed :
    (cols : List String) → All IsCleanName cols → marks_all (map (λ col. "[" ⊕ col ⊕ "]") cols) ≡ 0
unfolding occurs
marks_all-bracketed [] h = refl
marks_all-bracketed (c ∷ cs) h = rw marks-around (omega (arith, h.0, marks_all-bracketed cs h.1))

marks-conflict_target : (pk : List String) → All IsCleanName pk → marks (conflict_target pk) ≡ 0
unfolding occurs
marks-conflict_target [] h = refl
marks-conflict_target (c ∷ cs) h =
    rw (marks-around, marks-join ", " (map (λ col. "[" ⊕ col ⊕ "]") (c ∷ cs)) refl)
      (omega (arith, marks_all-bracketed (c ∷ cs) h))

upserted-KeepsBalance : KeepsBalance upserted
unfolding KeepsBalance occurs
upserted-KeepsBalance table col cols c clean table_clean h =
    let (t, e, listed) = excluded-IsListed col cols clean in
    rw (e, ← append_assoc, drop_last-comma)
      (rw (occurs-append, occurs-append, occurs-append)
        (omega (arith, h, listed, marks-conflict_target table.pk table_clean.2)))

marks_all-assignments :
    (row : Row) → All IsCleanName (names row) → marks_all (assignments row) ≡ length row
unfolding occurs
marks_all-assignments [] h = refl
marks_all-assignments (cell ∷ row) h =
    rw marks-around (omega (arith, h.0, marks_all-assignments row h.1))

length-map : (row : Row) → length (map (λ cell. cell.1) row) ≡ length row
length-map [] = refl
length-map (cell ∷ row) = ap suc (length-map row)

update_clause-IsBalanced :
    (relation : String) (row : Row) (guarded : Clause)
    → IsCleanName relation
    → All IsCleanName (names row)
    → IsBalanced guarded
    → IsBalanced (update_clause relation row guarded)
unfolding occurs
update_clause-IsBalanced relation row guarded r clean h =
    rw
      (
        occurs-append,
        occurs-append,
        occurs-append,
        marks-around,
        marks-join ", " (assignments row) refl,
        length-append,
        length-map,
      )
      (omega (arith, r, h, marks_all-assignments row clean))

delete_clause-IsBalanced :
    (relation : String) (guarded : Clause)
    → IsCleanName relation
    → IsBalanced guarded
    → IsBalanced (delete_clause relation guarded)
unfolding occurs
delete_clause-IsBalanced relation guarded r h =
    rw (occurs-append, marks-around) (omega (arith, r, h))

module _ (u : Unicode) (plain : IsPlain u b'?') (json : Json) (dao : TenantConnection)
    (s : IsCleanSchema dao.schema) where
  inserted-Balances :
      (verb prefix relation : String) (req : InsertRequest)
      (more : CacheTable → List String → Clause → Clause)
      → marks prefix ≡ 0
      → KeepsBalance more
      → Balances (inserted u json dao verb prefix relation req more)
  unfolding KeepsBalance HasCell
  inserted-Balances verb prefix relation req more hp keeps =
      Holds->>= IsBalanced (validate_table_name u relation) _ λ _ _.
        Holds->>= IsBalanced (search_tbls dao.schema relation) _ λ table found.
          let (r, t) = search_tbls-IsClean dao.schema relation s found in
          Holds->>= IsBalanced (first_row verb req.rows) _ λ row first.
            Holds->>= IsBalanced (compile_policy u json dao relation "insert" (some row)) _
              λ policy compiled. Holds->>= IsBalanced (known_columns table row) _ λ cols known.
                let (clean, same) = Holds-ok _ (known_columns-IsClean table t row) known in
                let (cell, cells, shape) =
                  Holds-ok HasCell (first_row-HasCell verb req.rows) first in
                let clean_cells = subst (λ row. All IsCleanName (names row)) shape clean in
                finished-Balances table t dao req.returning policy _ (
                  rw (same, shape)
                    (keeps table cell.0 (names cells) _ clean_cells t (
                      build_insert_select-IsBalanced prefix relation cell.0 (names cells) req.rows
                        policy hp r clean_cells
                        (Holds-ok IsBalancedPolicy
                          (compile_policy-IsBalanced u plain json dao relation "insert" (some row))
                          compiled))))

  pub insert-Balances :
      (relation : String) (req : InsertRequest) → Balances (insert_json u json dao relation req)
  unfolding insert_json KeepsBalance occurs
  insert-Balances relation req =
      inserted-Balances "insert" "INSERT" relation req (λ table columns c. c) refl
        (λ _ _ _ _ _ _ h. h)

  insert_ignore-Balances :
      (relation : String) (req : InsertRequest)
      → Balances (insert_ignore_json u json dao relation req)
  unfolding insert_ignore_json KeepsBalance occurs
  insert_ignore-Balances relation req =
      inserted-Balances "insert" "INSERT OR IGNORE" relation req (λ table columns c. c) refl
        (λ _ _ _ _ _ _ h. h)

  pub upsert-Balances :
      (relation : String) (req : InsertRequest) → Balances (upsert_json u json dao relation req)
  unfolding upsert_json occurs
  upsert-Balances relation req =
      inserted-Balances "upsert" "INSERT" relation req _ refl upserted-KeepsBalance

  module _ (table : CacheTable) (t : IsCleanTable table) (conditions : List Entries)
      (w : All HasCleanMembers conditions) where
    guarded-IsBalanced :
        (relation operation : String) (values : Option Row) {found : Clause}
        {policy : CompiledPredicate}
        → build_where_from_json dao.schema table conditions ≡ ok found
        → compile_policy u json dao relation operation values ≡ ok policy
        → IsBalanced (append_policy_where found policy)
    guarded-IsBalanced relation operation values {found} {policy} built compiled =
        append_policy_where-IsBalanced found policy
          (Holds-ok IsBalanced (build_where-Balances dao.schema table s t conditions w) built)
          (Holds-ok IsBalancedPolicy
            (compile_policy-IsBalanced u plain json dao relation operation values) compiled)

  pub update-Balances :
      (relation : String) (req : UpdateRequest)
      → All HasCleanMembers req.conditions
      → Balances (update_json u json dao relation req)
  unfolding update_json
  update-Balances relation req w = Holds->>= IsBalanced (validate_table_name u relation) _ λ _ _.
      Holds->>= IsBalanced (search_tbls dao.schema relation) _ λ table known.
        let (r, t) = search_tbls-IsClean dao.schema relation s known in
        Holds->>= IsBalanced (require_columns req.values) _ λ _ _.
          Holds->>= IsBalanced (known_columns table req.values) _ λ cols columns.
            Holds->>= IsBalanced (build_where_from_json dao.schema table req.conditions) _
              λ found built. Holds->>= IsBalanced (require_where found) _ λ _ _.
                Holds->>= IsBalanced (compile_policy u json dao relation "update" (some req.values))
                  _
                  λ policy compiled. apply_policy_cte-IsBalanced _ dao policy.needs_membership_cte (
                    update_clause-IsBalanced relation req.values _ r
                      (Holds-ok _ (known_columns-IsClean table t req.values) columns).0
                      (guarded-IsBalanced table t req.conditions w relation "update"
                        (some req.values) built compiled))

  pub delete-Balances :
      (relation : String) (req : DeleteRequest)
      → All HasCleanMembers req.conditions
      → Balances (delete_json u json dao relation req)
  unfolding delete_json
  delete-Balances relation req w = Holds->>= IsBalanced (validate_table_name u relation) _ λ _ _.
      Holds->>= IsBalanced (search_tbls dao.schema relation) _ λ table known.
        let (r, t) = search_tbls-IsClean dao.schema relation s known in
        Holds->>= IsBalanced (build_where_from_json dao.schema table req.conditions) _
          λ found built. Holds->>= IsBalanced (require_where found) _ λ _ _.
            Holds->>= IsBalanced (compile_policy u json dao relation "delete" none) _
              λ policy compiled. apply_policy_cte-IsBalanced _ dao policy.needs_membership_cte (
                delete_clause-IsBalanced relation _ r (
                  guarded-IsBalanced table t req.conditions w relation "delete" none built
                    compiled))
