-- ===== src/Data/Select/Columns.antt =====
-- What the loops over columns append has no "?".
use atomicbase.Prelude.{
  ℕ, ◌≤◌, String, Bool, true, false, not, ◌≡◌, refl, sym, ◌∙◌, List, [], ◌∷◌, ◌==◌, occurs,
  occurs-append, arith, eqb, if◌then◌else◌, if_false, if_cases, All, All-append, double_quotes,
}
use atomicbase.Result.{
  other_error, unauthorized, invalid_request, database_not_found, Result, ok, err, Holds, Holds->>=,
  Holds-if, Holds-ok, Holds-value, >>=-eq-ok,
}
use atomicbase.Tools.Validation.{Unicode, IsPlain, validate_identifier, occurs-validate_identifier}
use atomicbase.Definitions.Compiler.Placeholders.{marks-around}
use atomicbase.Data.Text.{GoText, drop_last}
use atomicbase.Data.Schema.{CacheTable, search_cols}
use atomicbase.Data.Clean.{IsCleanName, IsCleanTable, search_cols-IsClean}
use atomicbase.Data.Filter.Texts.{marks-qualified}
use atomicbase.Data.Relation.{Column}
use atomicbase.Data.Select.{join_keyword, cut}
use atomicbase.Data.Columns.{
  prefixed_error, sanitize_json_key, pair, Picked, is_blob, star_pairs, key_of, named_column,
  pick_column, pick_columns,
}

occurs-double_quotes :
    (k : ℕ) (s : String) → eqb 39 k ≡ false → occurs k (double_quotes s) ≡ occurs k s
unfolding double_quotes occurs
occurs-double_quotes k String.[] h = refl
occurs-double_quotes k (String.◌∷◌ c s) h = ground (arith, occurs-double_quotes k s h)

prefixed_error-eq-ok :
    (prefix : String) (r : Result (Unit {0})) {done : Unit {0}}
    → prefixed_error prefix r ≡ ok done
    → r ≡ ok done
prefixed_error-eq-ok prefix (ok done) e = e
prefixed_error-eq-ok prefix (err (other_error m)) e = absurd (cc e)
prefixed_error-eq-ok prefix (err (unauthorized m)) e = absurd (cc e)
prefixed_error-eq-ok prefix (err (invalid_request m)) e = absurd (cc e)
prefixed_error-eq-ok prefix (err database_not_found) e = absurd (cc e)

occurs-drop_last : (k : ℕ) (s : String) → occurs k (drop_last s) ≤ occurs k s
unfolding drop_last occurs
occurs-drop_last k String.[] = omega arith
occurs-drop_last k (String.◌∷◌ c s) =
    if_cases (λ t. occurs k t ≤ occurs k (String.◌∷◌ c s)) (s == "") (λ _. omega arith)
      (λ _. ground (arith, occurs-drop_last k s))

-- The code cuts two bytes off a text without a "?".
pub cut_two-IsClean : (s : String) → IsCleanName s → IsCleanName (drop_last (drop_last s))
cut_two-IsClean s h = omega (arith, h, occurs-drop_last b'?' s, occurs-drop_last b'?' (drop_last s))

pub cut-IsClean : (s : String) {t : String} → IsCleanName s → cut s ≡ ok t → IsCleanName t
unfolding occurs
cut-IsClean s h e =
    Holds-ok IsCleanName (Holds-if IsCleanName (s == "") _ _ tt (cut_two-IsClean s h)) e

pub marks-join_keyword : (inner : Bool) → IsCleanName (join_keyword inner)
unfolding occurs
marks-join_keyword true = refl
marks-join_keyword false = refl

pub if_not_cases :
    (P : String → Type 0) (b : Bool) {x y : String}
    → (b ≡ false → P x)
    → P y
    → P (if not b then x else y)
if_not_cases P true hx hy = hy
if_not_cases P false hx hy = hx refl

pub marks-pair :
    (key value : String) → IsCleanName key → IsCleanName value → IsCleanName (pair key value)
unfolding pair occurs
marks-pair key value k v = rw (occurs-append, marks-around) (omega (arith, k, v))

abbrev pub IsCleanPicked : Picked → Type 0
IsCleanPicked p = IsCleanName p.sel × All IsCleanName p.agg_pairs

-- A column that is not "*" was found in its table.
abbrev pub IsKnown : Column → Type 0
IsKnown col = col.name == "*" ≡ false → IsCleanName col.name

module _ (u : Unicode) (plain : IsPlain u b'?') (go : GoText) where
  sanitize_json_key-IsClean : (key : String) → Holds IsCleanName (sanitize_json_key u key)
  unfolding sanitize_json_key occurs
  sanitize_json_key-IsClean key = Holds-if IsCleanName (key == "") _ _ refl (
      Holds->>= IsCleanName (prefixed_error "invalid alias: " (validate_identifier u key)) _ λ _ e.
        rw (occurs-double_quotes b'?' key refl) (
          occurs-validate_identifier u b'?' plain refl key
            (prefixed_error-eq-ok _ (validate_identifier u key) e)))

  pub key_of-IsClean :
      (alias name : String) → IsCleanName name → Holds IsCleanName (key_of u alias name)
  unfolding key_of
  key_of-IsClean alias name h =
      Holds-if IsCleanName (not (alias == "")) _ _ (sanitize_json_key-IsClean alias) h

  module _ (ref : String → String)
      (ref_clean : (c : String) → IsCleanName c → IsCleanName (ref c)) where
    star_pairs-IsClean :
        (cols : List (String × String))
        → All (λ col. IsCleanName col.0 × IsCleanName col.1) cols
        → All IsCleanName (star_pairs go ref cols)
    unfolding star_pairs
    star_pairs-IsClean [] h = tt
    star_pairs-IsClean ((c, t) ∷ cols) h =
        if_cases (All IsCleanName) (is_blob go t) (λ _. star_pairs-IsClean cols h.1)
          (λ _. (marks-pair c (ref c) h.0.0 (ref_clean c h.0.0), star_pairs-IsClean cols h.1))

    module _ (tbl : CacheTable) (t : IsCleanTable tbl) (name : String) (n : IsCleanName name) where
      named_column-IsClean :
          (col : Column) → Holds IsCleanPicked (named_column u go ref tbl name col)
      unfolding occurs
      named_column-IsClean col = Holds->>= IsCleanPicked (search_cols tbl col.name) _ λ type e.
          let c = search_cols-IsClean tbl col.name t e in
          Holds-if IsCleanPicked (is_blob go type) _ _ (refl, tt)
            (Holds->>= IsCleanPicked (key_of u col.alias col.name) _ λ key k. (
              rw occurs-append (omega (arith, marks-qualified name col.name n c)),
              (
                marks-pair key (ref col.name)
                    (Holds-ok IsCleanName (key_of-IsClean col.alias col.name c) k)
                    (ref_clean col.name c),
                tt,
              ),
            ))

      pick_column-IsClean : (col : Column) → Holds IsCleanPicked (pick_column u go ref tbl name col)
      unfolding pick_column occurs
      pick_column-IsClean col =
          Holds-if IsCleanPicked (col.name == "*") _ _ (refl, star_pairs-IsClean tbl.columns t.1)
            (named_column-IsClean col)

      pub pick_columns-IsClean :
          (cols : List Column) (acc : Picked)
          → IsCleanPicked acc
          → Holds IsCleanPicked (pick_columns u go ref tbl name cols acc)
      unfolding pick_columns
      pick_columns-IsClean [] acc h = h
      pick_columns-IsClean (col ∷ cols) acc h =
          Holds->>= IsCleanPicked (pick_column u go ref tbl name col) _ λ p e.
            let (sel, pairs) = Holds-ok IsCleanPicked (pick_column-IsClean col) e in
            pick_columns-IsClean cols _ (
              rw occurs-append (omega (arith, h.0, sel)),
              All-append IsCleanName acc.agg_pairs p.agg_pairs h.1 pairs,
            )

      pub pick_columns-Known :
          (cols : List Column) (acc : Picked)
          → Holds (λ _. All IsKnown cols) (pick_columns u go ref tbl name cols acc)
      unfolding pick_columns pick_column
      pick_columns-Known [] acc = tt
      pick_columns-Known (col ∷ cols) acc = Holds->>= _ (pick_column u go ref tbl name col) _ λ p e.
          Holds-value _ (pick_columns u go ref tbl name cols _) λ q rest. (
            λ not_star.
                let (type, found, _) =
                  >>=-eq-ok (search_cols tbl col.name) _
                    (sym (if_false (col.name == "*") _ _ not_star) ∙ e) in
                search_cols-IsClean tbl col.name t found,
            Holds-ok _ (pick_columns-Known cols _) rest,
          )
