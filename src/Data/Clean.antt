-- ===== src/Data/Clean.antt =====
-- Names without a "?", which is what the program relies on when it writes them into a statement.
use mathlib.Core.Path.{subst}
use mathlib.Core.Option.{some-injective}
use atomicbase.Prelude.{
  ap, sym, ◌∙◌, eq_iff, String, Bool, ◌≡◌, refl, List, [], ◌∷◌, ◌==◌, Option, none, some, inl, inr,
  Bool-cases, if_true, if_false, All, find?,
}
use atomicbase.Result.{ok, ok-injective}
use atomicbase.Definitions.Compiler.Placeholders.{marks}
use atomicbase.Platform.Schema.{lookup}
use atomicbase.Data.Schema.{
  CacheTable, CacheFk, SchemaCache, search_tbls, search_cols, search_fks, fk_among, ok_or,
}

abbrev pub IsCleanName : String → Type 0
IsCleanName name = marks name ≡ 0

abbrev pub IsCleanTable : CacheTable → Type 0
IsCleanTable table =
    IsCleanName table.name
    × All (λ col. IsCleanName col.0 × IsCleanName col.1) table.columns
    × All IsCleanName table.pk

abbrev pub IsCleanFk : CacheFk → Type 0
IsCleanFk fk =
    IsCleanName fk.table × IsCleanName fk.references × IsCleanName fk.from × IsCleanName fk.to

abbrev pub IsCleanSchema : SchemaCache → Type 0
IsCleanSchema schema =
    All (λ row. IsCleanName row.0 × IsCleanTable row.1) schema.tables
    × All (λ row. All IsCleanFk row.1) schema.fks

-- What holds of every row holds of the row that is found, under its key.
pub lookup-All {ℓ κ} :
    {A : Type ℓ} (P : String → A → Type κ) (key : String) (rows : List (String × A)) {a : A}
    → All (λ row. P row.0 row.1) rows
    → lookup key rows ≡ some a
    → P key a
unfolding lookup
lookup-All P key [] h e = absurd (cc e)
lookup-All P key ((k, v) ∷ rows) {a} h e = elim (Bool-cases (k == key)) [
  | inl same ↦
      subst (λ key. P key a) ((eq_iff k key).0 same)
        (subst (P k) (some-injective _ _ (sym (if_true (k == key) _ _ same) ∙ e)) h.0)
  | inr other ↦ lookup-All P key rows h.1 (sym (if_false (k == key) _ _ other) ∙ e)
]

ok_or-some :
    {A : Type 0} (message : String) (o : Option A) {a : A} → ok_or message o ≡ ok a → o ≡ some a
ok_or-some message none e = absurd (cc e)
ok_or-some message (some b) e = ap some (ok-injective e)

pub search_tbls-IsClean :
    (schema : SchemaCache) (name : String) {table : CacheTable}
    → IsCleanSchema schema
    → search_tbls schema name ≡ ok table
    → IsCleanName name × IsCleanTable table
unfolding search_tbls
search_tbls-IsClean schema name h e =
    lookup-All (λ name table. IsCleanName name × IsCleanTable table) name schema.tables h.0
      (ok_or-some _ _ e)

pub search_cols-IsClean :
    (table : CacheTable) (col : String) {type : String}
    → IsCleanTable table
    → search_cols table col ≡ ok type
    → IsCleanName col
unfolding search_cols
search_cols-IsClean table col h e =
    (lookup-All (λ col type. IsCleanName col × IsCleanName type) col table.columns h.1
      (ok_or-some _ _ e)).0

find-All :
    (p : CacheFk → Bool) (fks : List CacheFk) {fk : CacheFk}
    → All IsCleanFk fks
    → find? p fks ≡ some fk
    → IsCleanFk fk
find-All p [] h e = absurd (cc e)
find-All p (fk ∷ fks) h e = elim (Bool-cases (p fk)) [
  | inl hit ↦ subst IsCleanFk (some-injective _ _ (sym (if_true (p fk) _ _ hit) ∙ e)) h.0
  | inr miss ↦ find-All p fks h.1 (sym (if_false (p fk) _ _ miss) ∙ e)
]

fk_among-IsClean :
    (references : String) (fks : Option (List CacheFk)) {fk : CacheFk}
    → ((rows : List CacheFk) → fks ≡ some rows → All IsCleanFk rows)
    → fk_among references fks ≡ some fk
    → IsCleanFk fk
fk_among-IsClean references none h e = absurd (cc e)
fk_among-IsClean references (some rows) h e = find-All _ rows (h rows refl) e

pub search_fks-IsClean :
    (schema : SchemaCache) (table references : String) {fk : CacheFk}
    → IsCleanSchema schema
    → search_fks schema table references ≡ some fk
    → IsCleanFk fk
unfolding search_fks
search_fks-IsClean schema table references h e =
    fk_among-IsClean references (lookup table schema.fks)
      (λ rows found. lookup-All (λ table fks. All IsCleanFk fks) table schema.fks h.1 found) e
