-- ===== src/Platform/Sql/Mirror/Columns.antt =====
-- The columns that a rebuilt table copies: INSERT INTO new (insert_columns) SELECT select_columns.
use text.Mathlib.TextLemmas.{append_cancel_left, append_cancel_right}
use atomicbase.Prelude.{
  String, true, false, not, ◌&&◌, leads, leads-append-left, leads-append-right, leads-str_ltb, List,
  [], ◌∷◌, some, is_some, any-sort_by, eq_iff, arith, ◌∙◌, ◌==◌, ◌⊕◌, ◌≡◌, refl, ap, eq_refl, any,
  sort_by, str_ltb, All, Option-cases, inl, inr, if◌then◌else◌,
}
use atomicbase.Platform.Schema.{Col, Table, lookup}
use atomicbase.Platform.Sql.{bracket}
use atomicbase.Platform.Sql.Mirror.{copied, firsts, seconds, insert_columns, select_columns}

-- The column keeps its type in the new table, or is no key of it.
abbrev pub KeepsType : Table → Table → String × Col → Type 0
KeepsType old new (name, col) =
    (old_col : Col)
    → lookup name old.columns ≡ some old_col
    → any (λ pk. pk == name) new.pk && not (old_col.type == col.type) ≡ false

copied_same :
    (old new : Table) (cols : List (String × Col))
    → All (KeepsType old new) cols
    → firsts (copied old new cols) ≡ seconds (copied old new cols)
unfolding copied
copied_same old new [] h = refl
copied_same old new ((name, col) ∷ cols) h = elim (Option-cases (lookup name old.columns)) [
  | inl e ↦ rw (e, copied) (copied_same old new cols h.1)
  | inr (old_col, e) ↦
      rw (e, copied)
        (rw (h.0 old_col e) (ap (λ xs. bracket name ∷ xs) (copied_same old new cols h.1)))
]

bracket-injective : (s t : String) → bracket s ≡ bracket t → s ≡ t
bracket-injective s t e = append_cancel_left "[" s t (append_cancel_right ("[" ⊕ s) ("[" ⊕ t) "]" e)

bracket-eq : (s t : String) → (bracket s == bracket t) ≡ (s == t)
bracket-eq s t = ground (
  arith,
  eq_iff s t,
  eq_iff (bracket s) (bracket t),
  bracket-injective s t,
  λ (e : s ≡ t). ap bracket e,
)

-- The names that both tables have.
any-copied :
    (old new : Table) (name : String) (cols : List (String × Col))
    → any (λ c. c == bracket name) (firsts (copied old new cols))
      ≡ (is_some (lookup name old.columns) && is_some (lookup name cols))
unfolding copied lookup
any-copied old new name [] = ground arith
any-copied old new name ((n, col) ∷ cols) =
    let there : n ≡ name → lookup n old.columns ≡ lookup name old.columns =
      λ e. ap (λ k. lookup k old.columns) e in
    elim (Option-cases (lookup n old.columns)) [
      | inl e ↦
          rw (e, copied) (ground (arith, any-copied old new name cols, there, eq_iff n name, e))
      | inr (old_col, e) ↦
          rw (e, copied)
            (ground
              (arith, any-copied old new name cols, there, eq_iff n name, e, bracket-eq n name))
    ]

-- If no key column changes its type, each column is copied into itself: the two lists agree, and a
-- column is in them exactly if both tables have it.
pub insert_columns-select_columns :
    (old new : Table) (name : String)
    → All (KeepsType old new) new.columns
    → (insert_columns old new ≡ select_columns old new)
      × (any (λ c. c == bracket name) (insert_columns old new)
          ≡ (is_some (lookup name old.columns) && is_some (lookup name new.columns)))
unfolding insert_columns select_columns
insert_columns-select_columns old new name h = (
  ap (sort_by str_ltb) (copied_same old new new.columns h),
  any-sort_by (λ c. c == bracket name) str_ltb (firsts (copied old new new.columns))
      ∙ any-copied old new name new.columns,
)

sort_two :
    (x y : String) → sort_by str_ltb (x ∷ y ∷ []) ≡ (if str_ltb y x then y ∷ x ∷ [] else x ∷ y ∷ [])
unfolding sort_by
sort_two x y = refl

cast_text : String → String → String
cast_text key type = "CAST([" ⊕ key ⊕ "] AS " ⊕ type ⊕ ")"

cast_first : (key type a : String) → str_ltb (cast_text key type) (bracket a) ≡ true
unfolding cast_text leads
cast_first key type a =
    let start =
      leads-append-right "CAST([" ("[" ⊕ a) "]" (leads-append-right "CAST([" "[" a refl) in
    let opened = leads-append-left "CAST([" key (bracket a) start in
    let typed = leads-append-left ("CAST([" ⊕ key) "] AS " (bracket a) opened in
    let named = leads-append-left ("CAST([" ⊕ key ⊕ "] AS ") type (bracket a) typed in
    leads-str_ltb (cast_text key type) (bracket a)
      (leads-append-left ("CAST([" ⊕ key ⊕ "] AS " ⊕ type) ")" (bracket a) named)

copied_pair :
    (old new : Table) (key a : String) (old_key new_key old_a new_a : Col)
    → new.pk ≡ key ∷ []
    → lookup a old.columns ≡ some old_a
    → lookup key old.columns ≡ some old_key
    → (old_key.type == new_key.type) ≡ false
    → (key == a) ≡ false
    → copied old new ((a, new_a) ∷ (key, new_key) ∷ [])
      ≡ (bracket a, bracket a) ∷ (bracket key, cast_text key new_key.type) ∷ []
unfolding copied cast_text
copied_pair old new key a old_key new_key old_a new_a pk ha hk ht hn =
    rw (ha, hk, pk, hn, ht, eq_refl key, copied) refl

-- A table with a key column whose type changes and one more column whose name comes first: the two
-- lists are sorted apart, and the text CAST(...) comes before every bracket. So the key is copied
-- into the other column, and the other column into the key.
pub select_columns_swapped :
    (old new : Table) (key a : String) (old_key new_key old_a new_a : Col)
    → new.columns ≡ (a, new_a) ∷ (key, new_key) ∷ []
    → new.pk ≡ key ∷ []
    → lookup a old.columns ≡ some old_a
    → lookup key old.columns ≡ some old_key
    → (old_key.type == new_key.type) ≡ false
    → (key == a) ≡ false
    → str_ltb (bracket key) (bracket a) ≡ false
    → (insert_columns old new ≡ bracket a ∷ bracket key ∷ [])
      × (select_columns old new ≡ ("CAST([" ⊕ key ⊕ "] AS " ⊕ new_key.type ⊕ ")") ∷ bracket a ∷ [])
unfolding insert_columns select_columns cast_text sort_by copied
select_columns_swapped old new key a old_key new_key old_a new_a cols pk ha hk ht hn lt =
    let pairs = copied_pair old new key a old_key new_key old_a new_a pk ha hk ht hn in
    (
      rw (cols, pairs, sort_two, lt) refl,
      rw (cols, pairs, sort_two, cast_first key new_key.type a) refl,
    )
