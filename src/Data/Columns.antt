-- ===== src/Data/Columns.antt =====
-- api/data/build_query.go: the keys, foreign keys and columns of a table in a SELECT.
use atomicbase.Prelude.{
  String, Bool, not, ◌&&◌, List, [], ◌∷◌, ◌++◌, ◌==◌, ◌⊕◌, double_quotes, if◌then◌else◌,
}
use atomicbase.Result.{other_error, Result, ok, err, ◌>>=◌, ◌>>◌}
use atomicbase.Tools.Validation.{Unicode, validate_identifier}
use atomicbase.Definitions.Types.{CompiledPredicate}
use atomicbase.Platform.Schema.{or_else}
use atomicbase.Data.Text.{GoText}
use atomicbase.Data.Schema.{CacheTable, CacheFk, SchemaCache, search_cols, search_fks}
use atomicbase.Data.Filter.{qualified}
use atomicbase.Data.Relation.{Column}

abbrev pub prefixed_error : String → Result (Unit {0}) → Result (Unit {0})
prefixed_error prefix (err (other_error e)) = err (other_error (prefix ⊕ e))
prefixed_error prefix r = r

unfoldable pub sanitize_json_key : Unicode → String → Result String
sanitize_json_key u key =
    if key == ""
    then ok ""
    else (prefixed_error "invalid alias: " (validate_identifier u key) >> ok (double_quotes key))

abbrev pub no_fk : CacheFk
no_fk = record { table = ""; references = ""; from = ""; to = "" }

unfoldable pub find_foreign_key : SchemaCache → String → String → CacheFk
find_foreign_key schema table references = or_else no_fk (search_fks schema table references)

abbrev pub is_no_fk : CacheFk → Bool
is_no_fk fk = fk.table == "" && fk.references == "" && fk.from == "" && fk.to == ""

-- `selectPolicySet`
abbrev pub SelectPolicySet : Type 0
SelectPolicySet = List (String × CompiledPredicate)

-- "'key', value"
unfoldable pub pair : String → String → String
pair key value = "'" ⊕ key ⊕ "', " ⊕ value

-- The loop variables `sel` and `aggPairs`.
pub record Picked : Type 0 where
  pub sel : String
  pub agg_pairs : List String

abbrev pub is_blob : GoText → String → Bool
is_blob go type = go.equal_fold type "BLOB"

-- `for c, t := range tbl.Columns`; `ref` writes a column of the table.
unfoldable pub star_pairs : GoText → (String → String) → List (String × String) → List String
star_pairs go ref [] = []
star_pairs go ref ((c, t) ∷ cols) =
    let rest = star_pairs go ref cols in if is_blob go t then rest else pair c (ref c) ∷ rest

-- The key of a column or of a add_join table: its alias, if it has one.
unfoldable pub key_of : Unicode → String → String → Result String
key_of u alias name = if not (alias == "") then sanitize_json_key u alias else ok name

-- A round of the loop over `rel.columns`: what it appends.
abbrev pub named_column :
    Unicode → GoText → (String → String) → CacheTable → String → Column → Result Picked
named_column u go ref tbl name col = search_cols tbl col.name >>= λ type.
    if is_blob go type
    then ok (record { sel = ""; agg_pairs = [] })
    else (key_of u col.alias col.name >>= λ key.
        ok (record {
          sel = qualified name col.name ⊕ ", ";
          agg_pairs = pair key (ref col.name) ∷ [];
        }))

unfoldable pub pick_column :
    Unicode → GoText → (String → String) → CacheTable → String → Column → Result Picked
pick_column u go ref tbl name col =
    if col.name == "*"
    then ok (record { sel = "*, "; agg_pairs = star_pairs go ref tbl.columns })
    else named_column u go ref tbl name col

unfoldable pub pick_columns :
    Unicode
    → GoText
    → (String → String)
    → CacheTable
    → String
    → List Column
    → Picked
    → Result Picked
pick_columns u go ref tbl name [] acc = ok acc
pick_columns u go ref tbl name (col ∷ cols) acc = pick_column u go ref tbl name col >>= λ p.
    pick_columns u go ref tbl name cols
      (record { sel = acc.sel ⊕ p.sel; agg_pairs = acc.agg_pairs ++ p.agg_pairs })
