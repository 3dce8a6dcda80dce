-- ===== src/Data/Writes/Columns.antt =====
-- The columns that a write names, in its lists and in its RETURNING clause.
use atomicbase.Prelude.{
  String, Bool, true, false, ◌≡◌, refl, ap, List, [], ◌∷◌, map, ◌==◌, ◌⊕◌, occurs, occurs-append,
  arith, All,
}
use atomicbase.Result.{ok, ◌>>=◌, Holds, Holds->>=, Holds-if, Holds-ok}
use atomicbase.Definitions.Types.{CompiledPredicate}
use atomicbase.Definitions.Compiler.Placeholders.{marks, marks-around}
use atomicbase.Data.Schema.{CacheTable, search_cols}
use atomicbase.Data.Clean.{IsCleanName, IsCleanTable, search_cols-IsClean}
use atomicbase.Data.Filter.{Clause}
use atomicbase.Data.Filter.Texts.{IsBalanced, Balances}
use atomicbase.Data.Where.{build_returning_from_json, add_returning, separator}
use atomicbase.Data.Policy.{TenantConnection, Row}
use atomicbase.Data.Policy.Placeholders.{apply_policy_cte-IsBalanced}
use atomicbase.Data.Writes.{known_columns, finished}

pub marks-separator : (first : Bool) → marks (separator first) ≡ 0
unfolding occurs
marks-separator true = refl
marks-separator false = refl

abbrev pub names : Row → List String
names row = map (λ cell. cell.0) row

module _ (table : CacheTable) (t : IsCleanTable table) where
  add_returning-IsClean :
      (cols : List String) (query : String) (first : Bool)
      → marks query ≡ 0
      → Holds IsCleanName (add_returning table cols query first)
  unfolding add_returning occurs
  add_returning-IsClean [] query first h = h
  add_returning-IsClean (c ∷ cs) query first h =
      Holds->>= IsCleanName (search_cols table c) _ λ _ e. add_returning-IsClean cs _ false (
        rw (marks-around, occurs-append, occurs-append)
          (omega (arith, h, marks-separator first, search_cols-IsClean table c t e)))

  returning_columns-IsClean :
      (cols : List String)
      → Holds IsCleanName (add_returning table cols "RETURNING " true >>= λ query. ok (query ⊕ " "))
  unfolding occurs
  returning_columns-IsClean cols =
      Holds->>= IsCleanName (add_returning table cols "RETURNING " true) _ λ query e.
        rw occurs-append (
          omega (arith, Holds-ok IsCleanName (add_returning-IsClean cols "RETURNING " true refl) e))

  build_returning-IsClean :
      (cols : List String) → Holds IsCleanName (build_returning_from_json table cols)
  unfolding build_returning_from_json occurs
  build_returning-IsClean [] = refl
  build_returning-IsClean (c ∷ []) =
      Holds-if IsCleanName (c == "*") _ _ refl (returning_columns-IsClean (c ∷ []))
  build_returning-IsClean (c ∷ d ∷ cols) = returning_columns-IsClean (c ∷ d ∷ cols)

  pub known_columns-IsClean :
      (row : Row)
      → Holds (λ cols. All IsCleanName (names row) × (cols ≡ names row)) (known_columns table row)
  unfolding known_columns
  known_columns-IsClean [] = (tt, refl)
  known_columns-IsClean ((col, val) ∷ row) = Holds->>= _ (search_cols table col) _ λ _ e.
      Holds->>= _ (known_columns table row) _ λ cols es.
        let (clean, same) = Holds-ok _ (known_columns-IsClean row) es in
        ((search_cols-IsClean table col t e, clean), ap (λ cols. col ∷ cols) same)

  pub finished-Balances :
      (dao : TenantConnection) (returning : List String) (policy : CompiledPredicate) (c : Clause)
      → IsBalanced c
      → Balances (finished dao table returning policy c)
  finished-Balances dao returning policy c h =
      Holds->>= IsBalanced (build_returning_from_json table returning) _ λ ret e.
        apply_policy_cte-IsBalanced _ dao policy.needs_membership_cte (
          rw occurs-append
            (omega (arith, h, Holds-ok IsCleanName (build_returning-IsClean returning) e)))
