-- ===== src/Data/Select/Group.antt =====
-- A GROUP BY has no "?".
use atomicbase.Prelude.{String, refl, List, [], ◌∷◌, ◌==◌, ◌⊕◌, occurs, occurs-append, arith, All}
use atomicbase.Definitions.Compiler.Placeholders.{marks-around}
use atomicbase.Data.Schema.{CacheTable}
use atomicbase.Data.Clean.{IsCleanName, IsCleanTable}
use atomicbase.Data.Filter.Texts.{marks-qualified}
use atomicbase.Data.Relation.{Column, Relations, no_relation, relations}
use atomicbase.Data.Select.{types_of, group_column, group_columns, group_pk, group_key, group_by}
use atomicbase.Data.Select.Columns.{IsKnown, cut_two-IsClean, if_not_cases}

types_of-IsClean :
    (name : String) (cols : List (String × String))
    → IsCleanName name
    → All (λ col. IsCleanName col.0 × IsCleanName col.1) cols
    → IsCleanName (types_of name cols)
unfolding types_of occurs
types_of-IsClean name [] n h = refl
types_of-IsClean name ((c, t) ∷ cols) n h =
    rw (occurs-append, occurs-append)
      (omega (arith, marks-qualified name t n h.0.1, types_of-IsClean name cols n h.1))

group_pk-IsClean :
    (name : String) (cols : List String)
    → IsCleanName name
    → All IsCleanName cols
    → IsCleanName (group_pk name cols)
unfolding group_pk occurs
group_pk-IsClean name [] n h = refl
group_pk-IsClean name (c ∷ cols) n h =
    rw (occurs-append, occurs-append)
      (omega (arith, marks-qualified name c n h.0, group_pk-IsClean name cols n h.1))

group_key-IsClean :
    (name : String) (pk : List String)
    → IsCleanName name
    → All IsCleanName pk
    → IsCleanName (group_key name pk)
unfolding occurs
group_key-IsClean name [] n h =
    rw occurs-append (omega (arith, marks-qualified name "rowid" n refl))
group_key-IsClean name (c ∷ cols) n h = group_pk-IsClean name (c ∷ cols) n h

module _ (tbl : CacheTable) (t : IsCleanTable tbl) (name : String) (n : IsCleanName name) where
  group_column-IsClean : (col : Column) → IsKnown col → IsCleanName (group_column tbl name col)
  unfolding occurs
  group_column-IsClean col h =
      if_not_cases IsCleanName (col.name == "*")
        (λ e. rw occurs-append (omega (arith, marks-qualified name col.name n (h e))))
        (types_of-IsClean name tbl.columns n t.1)

  group_columns-IsClean :
      (cols : List Column) → All IsKnown cols → IsCleanName (group_columns tbl name cols)
  unfolding group_columns occurs
  group_columns-IsClean [] h = refl
  group_columns-IsClean (col ∷ cols) h =
      rw occurs-append (omega (arith, group_columns-IsClean cols h.1, group_column-IsClean col h.0))

  pub group_by-IsClean :
      (cols : List Column) (joins : Relations)
      → All IsKnown cols
      → IsCleanName (group_by tbl name cols joins)
  unfolding occurs
  group_by-IsClean cols no_relation h = refl
  group_by-IsClean cols (relations r rs) h = rw marks-around (
      omega (
        arith,
        cut_two-IsClean (group_columns tbl name cols ⊕ group_key name tbl.pk) (
            rw occurs-append
              (omega (arith, group_columns-IsClean cols h, group_key-IsClean name tbl.pk n t.2))),
      ))
