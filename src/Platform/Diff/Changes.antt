-- ===== src/Platform/Diff/Changes.antt =====
-- What diffSchemas reports.
use atomicbase.Prelude.{
  ℕ, String, Bool, true, false, List, [], ◌∷◌, Option, none, some, all, eqb, eq_bool_refl, length,
  ◌≡◌, refl, arith, eq_refl, All,
}
use atomicbase.Platform.Schema.{Go, Default, Generated, Col, Table, Schema, SchemaDiff, lookup}
use atomicbase.Platform.Diff.Maps.{
  IsKeyed, IsHeldBy, IsKeyed-IsHeldBy, put-IsKeyed, by_name-IsKeyed, by_name-All,
}
use atomicbase.Platform.Diff.{
  change, missing, equal_generated, equal_defaults, column_modified, added_columns, diff_columns,
  diff_indexes, name_set, equal_string_maps, is_in, diff_fts, type_differs, keys_differ,
  pk_type_changed, diff_table, added_tables, diff_schemas,
}

module _ {ℓ} {A : Type ℓ} where
  missing-held :
      (to : String → SchemaDiff) (m xs : List (String × A)) → IsHeldBy m xs → missing to xs m ≡ []
  unfolding missing
  missing-held to m [] h = refl
  missing-held to m (x ∷ xs) h = rw (h.0, missing) (missing-held to m xs h.1)

equal_generated_refl : (g : Option Generated) → equal_generated g g ≡ true
unfolding equal_generated
equal_generated_refl none = refl
equal_generated_refl (some g) = rw (eq_refl, eq_bool_refl) refl

module _ (go : Go Default) where
  equal_defaults_refl : (d : Option Default) → equal_defaults go d d ≡ true
  unfolding equal_defaults
  equal_defaults_refl none = refl
  equal_defaults_refl (some d) = eq_refl _

  pub column_modified_refl : (c : Col) → column_modified go c c ≡ false
  unfolding column_modified
  column_modified_refl c = simp (eq_refl, eq_bool_refl, equal_defaults_refl, equal_generated_refl)

  added_columns-held :
      (table : String) (m xs : List (String × Col))
      → IsHeldBy m xs
      → added_columns go table m xs ≡ []
  unfolding added_columns
  added_columns-held table m [] h = refl
  added_columns-held table m (x ∷ xs) h =
      rw (h.0, added_columns, column_modified_refl x.1) (added_columns-held table m xs h.1)

  diff_columns_same :
      (name : String) (t : Table) → IsKeyed t.columns → diff_columns go name t t ≡ []
  unfolding diff_columns
  diff_columns_same name t keyed =
      let held = IsKeyed-IsHeldBy t.columns keyed in
      rw (missing-held (change "drop_column" name) t.columns t.columns held)
        (added_columns-held name t.columns t.columns held)

diff_indexes_same : (name : String) (t : Table) → diff_indexes name t t ≡ []
unfolding diff_indexes
diff_indexes_same name t =
    let held = IsKeyed-IsHeldBy _ (by_name-IsKeyed (λ i. i.name) t.indexes [] tt) in
    rw (missing-held (change "drop_index" name) _ _ held)
      (missing-held (change "add_index" name) _ _ held)

all_held : (m xs : List (String × Bool)) → IsHeldBy m xs → all (is_in m) xs ≡ true
all_held m [] h = refl
all_held m (x ∷ xs) h = rw (h.0) (all_held m xs h.1)

pub name_set-IsKeyed : (xs : List String) → IsKeyed (name_set xs)
name_set-IsKeyed [] = tt
name_set-IsKeyed (x ∷ xs) = put-IsKeyed x true (name_set xs) (name_set-IsKeyed xs)

eqb_refl : (n : ℕ) → eqb n n ≡ true
eqb_refl n = ground arith

pub equal_string_maps_same : (m : List (String × Bool)) → IsKeyed m → equal_string_maps m m ≡ true
unfolding equal_string_maps
equal_string_maps_same m keyed = rw (eqb_refl (length m)) (all_held m m (IsKeyed-IsHeldBy m keyed))

diff_fts_same : (name : String) (t : Table) → diff_fts name t t ≡ []
unfolding diff_fts
diff_fts_same name t =
    ground (arith, equal_string_maps_same (name_set t.fts_columns) (name_set-IsKeyed t.fts_columns))

type_differs_same : (c : Option Col) → type_differs c c ≡ false
type_differs_same none = refl
type_differs_same (some c) = rw eq_refl refl

keys_differ_same : (t : Table) (ps : List String) → keys_differ t t ps ps ≡ false
keys_differ_same t [] = refl
keys_differ_same t (p ∷ ps) =
    rw (eq_refl, type_differs_same (lookup p t.columns)) (keys_differ_same t ps)

diff_table_same :
    (go : Go Default) (name : String) (t : Table) → IsKeyed t.columns → diff_table go name t t ≡ []
unfolding diff_table pk_type_changed
diff_table_same go name t keyed =
    rw
      (
        diff_columns_same go name t keyed,
        diff_indexes_same name t,
        diff_fts_same name t,
        keys_differ_same t t.pk,
      )
      refl

added_tables-held :
    (go : Go Default) (m xs : List (String × Table))
    → IsHeldBy m xs
    → All (λ e. IsKeyed e.1.columns) xs
    → added_tables go m xs ≡ []
unfolding added_tables
added_tables-held go m [] h keyed = refl
added_tables-held go m ((name, t) ∷ xs) h keyed =
    rw (h.0, added_tables, diff_table_same go name t keyed.0)
      (added_tables-held go m xs h.1 keyed.1)

-- A schema whose tables hold each column once has no changes against itself, whatever JSON text
-- the defaults have.
pub diff_schemas_same :
    (go : Go Default) (s : Schema)
    → All (λ t. IsKeyed t.columns) s.tables
    → diff_schemas go s s ≡ []
unfolding diff_schemas
diff_schemas_same go s keyed =
    let held = IsKeyed-IsHeldBy _ (by_name-IsKeyed (λ t. t.name) s.tables [] tt) in
    rw (missing-held (λ name. change "drop_table" name "") _ _ held) (
      added_tables-held go _ _ held
        (by_name-All (λ t. IsKeyed t.columns) (λ t. t.name) s.tables [] keyed tt))
