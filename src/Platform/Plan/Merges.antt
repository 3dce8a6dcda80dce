-- ===== src/Platform/Plan/Merges.antt =====
-- What GenerateMigrationPlan makes of merges and of modified columns.
use atomicbase.Prelude.{
  ℤ, pos, negsuc, ℕ, String, Bool, true, false, ◌&&◌, List, [], ◌∷◌, Option, none, some, ◌==◌, ◌≡◌,
  refl, arith, eq_iff, eq_refl, eq_bool_refl, if_cases, Option-cases, inl, inr, get_elem?, All,
  All-append,
}
use atomicbase.Platform.Schema.{
  Go, Default, Generated, Col, Schema, SchemaDiff, Merge, at, table_of, column_of,
}
use atomicbase.Platform.Plan.{
  Rename, rename_table, rename_column, apply_merges, requires_mirror_table, generate_migration_plan,
  modify_column, generated_differ, merged_pair, is_kept, phase, unmerged, is_merged,
}
use atomicbase.Platform.Diff.{change, column_modified, equal_generated}

generated_differ-equal :
    (g h : Option Generated) → generated_differ g h ≡ true → equal_generated g h ≡ false
unfolding equal_generated
generated_differ-equal none none e = absurd (cc e)
generated_differ-equal none (some h) e = refl
generated_differ-equal (some g) none e = refl
generated_differ-equal (some g) (some h) e = ground arith

-- A column that needs its table rebuilt is one that the difference of the schemas reports.
pub requires_mirror_table-column_modified :
    (go : Go Default) (old new : Col)
    → requires_mirror_table old new ≡ true
    → column_modified go old new ≡ true
unfolding requires_mirror_table column_modified
requires_mirror_table-column_modified go old new e = ground (
  arith,
  generated_differ-equal old.generated new.generated,
  eq_iff old.references new.references,
  eq_iff old.references "",
  eq_iff new.references "",
)

both_true : (a b : Bool) → a && b ≡ true → (a ≡ true) × (b ≡ true)
both_true true b e = (refl, e)
both_true false b e = absurd (cc e)

-- Where a rename comes from.
pub data IsMergeOf (changes : List SchemaDiff) : Rename → Type 0 where
  of_tables :
      (i j : ℕ) (drop add : SchemaDiff)
      → get_elem? changes i ≡ some drop
      → get_elem? changes j ≡ some add
      → drop.type ≡ "drop_table"
      → add.type ≡ "add_table"
      → IsMergeOf changes (rename_table drop.table add.table)
  of_columns :
      (i j : ℕ) (drop add : SchemaDiff)
      → get_elem? changes i ≡ some drop
      → get_elem? changes j ≡ some add
      → drop.type ≡ "drop_column"
      → add.type ≡ "add_column"
      → drop.table ≡ add.table
      → IsMergeOf changes (rename_column drop.table drop.column add.column)

pair-IsMergeOf :
    (changes : List SchemaDiff) (i j : ℕ) (o p : Option SchemaDiff)
    → get_elem? changes i ≡ o
    → get_elem? changes j ≡ p
    → All (IsMergeOf changes) (merged_pair o p)
pair-IsMergeOf changes i j none p eo ep = tt
pair-IsMergeOf changes i j (some d) none eo ep = tt
pair-IsMergeOf changes i j (some d) (some a) eo ep =
    if_cases (All (IsMergeOf changes)) (d.type == "drop_table" && a.type == "add_table")
      (λ e.
        let (x, y) = both_true _ _ e in
        (of_tables i j d a eo ep ((eq_iff _ _).0 x) ((eq_iff _ _).0 y), tt))
      (λ n.
        if_cases (All (IsMergeOf changes))
          ((d.type == "drop_column" && a.type == "add_column") && d.table == a.table)
          (λ e.
            let (xy, z) = both_true _ _ e in
            let (x, y) = both_true _ _ xy in
            (of_columns i j d a eo ep ((eq_iff _ _).0 x) ((eq_iff _ _).0 y) ((eq_iff _ _).0 z), tt))
          (λ e. tt))

merged_pair-IsMergeOf :
    (changes : List SchemaDiff) (i j : ℤ)
    → All (IsMergeOf changes) (merged_pair (at changes i) (at changes j))
merged_pair-IsMergeOf changes (pos i) (pos j) = pair-IsMergeOf changes i j _ _ refl refl
merged_pair-IsMergeOf changes (pos i) (negsuc j) = elim (Option-cases (get_elem? changes i)) [
  | inl e ↦ rw (e) tt
  | inr (d, e) ↦ rw (e) tt
]
merged_pair-IsMergeOf changes (negsuc i) j = tt

-- Every rename joins a dropped and an added item of the changes: two tables, or two columns of one
-- table.
pub apply_merges-IsMergeOf :
    (changes : List SchemaDiff) (merges : List Merge)
    → All (IsMergeOf changes) (apply_merges changes merges)
unfolding apply_merges
apply_merges-IsMergeOf changes [] = tt
apply_merges-IsMergeOf changes (m ∷ ms) =
    All-append (IsMergeOf changes) _ _ (merged_pair-IsMergeOf changes m.old m.new)
      (apply_merges-IsMergeOf changes ms)

abbrev pub first_two : List Merge
first_two = record { old = pos 0; new = pos 1 } ∷ []

-- Merging a dropped column of one table with an added column of another leaves both out of the
-- plan: no statement drops the one, adds the other or renames.
pub generate_migration_plan_lost :
    (go : Go Default) (old new : Schema) (t u c d : String)
    → (t == u) ≡ false
    → generate_migration_plan go old new
        (change "drop_column" t c ∷ change "add_column" u d ∷ [])
        first_two
      ≡ some []
unfolding generate_migration_plan phase is_kept unmerged is_merged apply_merges
generate_migration_plan_lost go old new t u c d e = rw (e, apply_merges) refl

becomes_not_null :
    (go : Go Default) (c : Col)
    → c.not_null ≡ false
    → column_modified go c (record c { not_null = true }) ≡ true
unfolding column_modified
becomes_not_null go c e = ground (arith, e)

generated_differ_same : (g : Option Generated) → generated_differ g g ≡ false
generated_differ_same none = refl
generated_differ_same (some g) = rw (eq_refl, eq_bool_refl) refl

needs_no_mirror : (c : Col) → requires_mirror_table c (record c { not_null = true }) ≡ false
unfolding requires_mirror_table
needs_no_mirror c = ground (
  arith,
  generated_differ_same c.generated,
  eq_refl c.references,
  eq_refl c.on_delete,
  eq_refl c.on_update,
  eq_refl c.check,
  eq_refl c.collate,
)

-- A column that only becomes NOT NULL is reported as modified, and the plan for that change has
-- no statement.
pub generate_migration_plan_not_null :
    (go : Go Default) (old new : Schema) (t c : String)
    → (column_of (table_of old t) c).not_null ≡ false
    → column_of (table_of new t) c ≡ record (column_of (table_of old t) c) { not_null = true }
    → (column_modified go (column_of (table_of old t) c) (column_of (table_of new t) c) ≡ true)
      × (generate_migration_plan go old new (change "modify_column" t c ∷ []) [] ≡ some [])
unfolding generate_migration_plan modify_column phase is_kept unmerged is_merged apply_merges
generate_migration_plan_not_null go old new t c nullable same =
    rw same
      (becomes_not_null go _ nullable, rw (needs_no_mirror (column_of (table_of old t) c)) refl)
