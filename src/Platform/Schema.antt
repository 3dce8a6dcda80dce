-- ===== src/Platform/Schema.antt =====
-- api/schema/types.go, and the changes and merges of api/platform/types.go.
use atomicbase.Prelude.{
  ℤ, pos, negsuc, String, Bool, false, List, [], ◌∷◌, Option, none, some, ◌==◌, get_elem?,
  if◌then◌else◌,
}

-- What the code takes from Go's library: strings.ToUpper and json.Marshal.
pub record Go (D : Type 0) : Type 0 where
  pub to_upper : String → String
  pub marshal : D → String

-- A default that is not nil: a text, a Boolean, an object with its text "sql" if it has one, or
-- another JSON value; the last two with the text that %v gives.
pub data Default : Type 0 where
  text : String → Default
  bool : Bool → Default
  object : Option String → String → Default
  other : String → Default

pub record Generated : Type 0 where
  pub expr : String
  pub stored : Bool

pub record Col : Type 0 where
  pub name : String
  pub type : String
  pub not_null : Bool
  pub unique : Bool
  pub default : Option Default
  pub collate : String
  pub check : String
  pub generated : Option Generated
  pub references : String
  pub on_delete : String
  pub on_update : String

-- Go's zero `Col`.
abbrev pub no_col : Col
no_col = record {
  name = "";
  type = "";
  not_null = false;
  unique = false;
  default = none;
  collate = "";
  check = "";
  generated = none;
  references = "";
  on_delete = "";
  on_update = "";
}

pub record Index : Type 0 where
  pub name : String
  pub columns : List String
  pub unique : Bool

-- `columns` is the Go map, in the order in which a `range` meets it.
pub record Table : Type 0 where
  pub name : String
  pub pk : List String
  pub columns : List (String × Col)
  pub indexes : List Index
  pub fts_columns : List String

abbrev pub no_table : Table
no_table = record { name = ""; pk = []; columns = []; indexes = []; fts_columns = [] }

pub record Schema : Type 0 where
  pub tables : List Table

pub record SchemaDiff : Type 0 where
  pub type : String
  pub table : String
  pub column : String

pub record Merge : Type 0 where
  pub old : ℤ
  pub new : ℤ

module _ {ℓ} {A : Type ℓ} where
  -- `m[key]` with its second result.
  unfoldable pub lookup : String → List (String × A) → Option A
  lookup key [] = none
  lookup key ((k, v) ∷ rest) = let later = lookup key rest in if k == key then some v else later

  -- `m[key] = v`
  unfoldable pub put : String → A → List (String × A) → List (String × A)
  put key v [] = (key, v) ∷ []
  put key v ((k, w) ∷ rest) =
      let later = put key v rest in if k == key then (k, v) ∷ rest else (k, w) ∷ later

  -- A map filled by a loop: the last item of a name stays.
  unfoldable pub by_name : (A → String) → List A → List (String × A) → List (String × A)
  by_name name [] m = m
  by_name name (x ∷ xs) m = by_name name xs (put (name x) x m)

  abbrev pub or_else : A → Option A → A
  or_else a none = a
  or_else a (some b) = b

  -- `xs[i]`, if the index is in range.
  abbrev pub at : List A → ℤ → Option A
  at xs (pos i) = get_elem? xs i
  at xs (negsuc i) = none

abbrev pub tables_by_name : Schema → List (String × Table)
tables_by_name s = by_name (λ t. t.name) s.tables []

abbrev pub table_of : Schema → String → Table
table_of s name = or_else no_table (lookup name (tables_by_name s))

abbrev pub column_of : Table → String → Col
column_of t name = or_else no_col (lookup name t.columns)
