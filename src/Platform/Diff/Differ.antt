-- ===== src/Platform/Diff/Differ.antt =====
-- What the tests of the schema difference find to differ.
use mathlib.Core.Path.{subst}
use mathlib.Core.Option.{some-injective}
use atomicbase.Prelude.{
  String, Bool, true, false, not, Option, eq_iff, ◌&&◌, List, [], ◌∷◌, none, some, ◌==◌, ◌≡◌, ◌≢◌,
  arith, refl, sym, ◌∙◌, if_cases, if_true, if_false, Bool-cases, Option-cases, inl, inr, All,
  if◌then◌else◌,
}
use atomicbase.Platform.Schema.{Go, Default, Col, Table, SchemaDiff, lookup}
use atomicbase.Platform.Diff.Maps.{IsKeyed, IsHeldBy}
use atomicbase.Platform.Diff.{
  missing, column_modified, name_set, equal_string_maps, has_any, type_differs,
}
use atomicbase.Platform.Diff.Changes.{column_modified_refl, equal_string_maps_same}

pub column_modified-differ :
    (go : Go Default) (old new : Col) → column_modified go old new ≡ true → old ≢ new
column_modified-differ go old new e same =
    cc (subst (λ c. column_modified go old c ≡ true) (sym same) e, column_modified_refl go old)

pub missing-All {ℓ κ} :
    {A : Type ℓ} {B : Type κ} (P : SchemaDiff → Type 0) (to : String → SchemaDiff)
    (m xs : List (String × A)) (other : List (String × B))
    → IsHeldBy m xs
    → ((name : String) (a : A) → lookup name m ≡ some a → lookup name other ≡ none → P (to name))
    → All P (missing to xs other)
unfolding missing
missing-All P to m [] other h p = tt
missing-All P to m ((name, a) ∷ xs) other h p = elim (Option-cases (lookup name other)) [
  | inl e ↦ rw (e, missing) (p name a h.0 e, missing-All P to m xs other h.1 p)
  | inr (b, e) ↦ rw (e, missing) (missing-All P to m xs other h.1 p)
]

pub All-weaken :
    {P Q : SchemaDiff → Type 0} (xs : List SchemaDiff)
    → ((c : SchemaDiff) → P c → Q c)
    → All P xs
    → All Q xs
All-weaken [] f h = tt
All-weaken (x ∷ xs) f h = (f x h.0, All-weaken xs f h.1)

pub set_of-none : (names : List String) → has_any (name_set names) ≡ true → names ≢ []
set_of-none [] e same = absurd (cc e)
set_of-none (n ∷ names) e same = absurd (cc same)

-- Neither map is empty, where the two differ and are both empty or both not.
both_any :
    (olds news : List (String × Bool))
    → not (has_any olds) && has_any news ≡ false
    → has_any olds && not (has_any news) ≡ false
    → equal_string_maps olds news ≡ false
    → (has_any olds ≡ true) × (has_any news ≡ true)
unfolding equal_string_maps
both_any [] [] e₁ e₂ h = absurd (cc h)
both_any [] (n ∷ news) e₁ e₂ h = absurd (cc e₁)
both_any (o ∷ olds) [] e₁ e₂ h = absurd (cc e₂)
both_any (o ∷ olds) (n ∷ news) e₁ e₂ h = (refl, refl)

pub type_differs-some :
    (a b : Option Col)
    → type_differs a b ≡ true
    → (x : Col) × (y : Col) × (a ≡ some x) × (b ≡ some y) × (x.type ≢ y.type)
type_differs-some none b e = absurd (cc e)
type_differs-some (some x) none e = absurd (cc e)
type_differs-some (some x) (some y) e =
    (x, y, refl, refl, λ same. ground (arith, e, (eq_iff x.type y.type).1 same))

module _ (P : SchemaDiff → Type 0) (drop add : SchemaDiff) (olds news : List (String × Bool))
    (keyed : IsKeyed olds) where
  pub fts_cases :
      (has_any olds ≡ true → olds ≢ news → P drop)
      → (has_any news ≡ true → olds ≢ news → P add)
      → All P (
          if not (has_any olds) && has_any news
          then add ∷ []
          else if has_any olds && not (has_any news)
          then drop ∷ []
          else if not (equal_string_maps olds news)
          then drop ∷ add ∷ []
          else [])
  fts_cases d a =
      if_cases (All P) (not (has_any olds) && has_any news)
        (λ e. (a (ground (arith, e)) (λ same. ground (arith, e, rw (← same) at e)), tt))
        λ e₁.
          if_cases (All P) (has_any olds && not (has_any news))
            (λ e. (d (ground (arith, e)) (λ same. ground (arith, e, rw (← same) at e)), tt))
            λ e₂.
              if_cases (All P) (not (equal_string_maps olds news))
                (λ e.
                  let unequal : equal_string_maps olds news ≡ false = ground (arith, e) in
                  let (some_old, some_new) = both_any olds news e₁ e₂ unequal in
                  let differ : olds ≢ news =
                    λ same. cc (rw (← same) at unequal, equal_string_maps_same olds keyed) in
                  (d some_old differ, (a some_new differ, tt)))
                (λ e. tt)

pub lookup-All :
    (P : Table → Type 0) (m : List (String × Table)) (name : String) {t : Table}
    → lookup name m ≡ some t
    → All (λ e. P e.1) m
    → P t
unfolding lookup
lookup-All P [] name e h = absurd (cc e)
lookup-All P ((k, v) ∷ m) name e h = elim (Bool-cases (k == name)) [
  | inl same ↦ subst P (some-injective _ _ (sym (if_true (k == name) _ _ same) ∙ e)) h.0
  | inr other ↦ lookup-All P m name (sym (if_false (k == name) _ _ other) ∙ e) h.1
]
