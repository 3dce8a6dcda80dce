-- ===== src/Definitions/Compiler/Predicate.antt =====
-- What a compiled policy says: a predicate over the caller's membership and the row at hand, its
-- SQL text with its arguments, and its truth in SQL's three values.
use atomicbase.Prelude.{
  String, Bool, true, false, ◌≡◌, refl, List, [], ◌∷◌, ◌++◌, ◌==◌, ◌⊕◌, length, join,
  append-ne-empty,
}
use atomicbase.Definitions.Types.{Value}
use atomicbase.Definitions.Compiler.Leaf.{Compiled, sql_operator, placeholders}

-- The questions that a policy leaves to the database. The first value is always the caller.
pub data Atom : Type 0 where
  -- the caller has, or has no, membership row
  is_member is_anonymous : Value → Atom
  -- the caller's row has one of these roles; a role in this relation to a value
  role_among : Value → List Value → Atom
  role_is : Value → String → Value → Atom
  -- the caller's role is in this relation to a column
  role_is_field : Value → String → String → Atom
  -- a column against a value, against NULL, among values
  field_is : String → String → Value → Atom
  field_is_null : String → String → Atom
  field_among : String → List Value → Atom

mutual
  pub data Predicate : Type 0 where
    atom : Atom → Predicate
    all_of any_of : Predicates → Predicate
    negation : Predicate → Predicate

  -- At least one predicate.
  pub data Predicates : Type 0 where
    one : Predicate → Predicates
    more : Predicates → Predicate → Predicates

unfoldable pub render_atom : Atom → String
render_atom (is_member uid) = "EXISTS (SELECT 1 FROM __ab_membership m WHERE m.user_id = ?)"
render_atom (is_anonymous uid) = "NOT EXISTS (SELECT 1 FROM __ab_membership m WHERE m.user_id = ?)"
render_atom (role_among uid vs) =
    "EXISTS (SELECT 1 FROM __ab_membership m WHERE m.user_id = ? AND m.role IN ("
    ⊕ placeholders (length vs)
    ⊕ "))"
render_atom (role_is uid op v) =
    "EXISTS (SELECT 1 FROM __ab_membership m WHERE m.user_id = ? AND m.role "
    ⊕ sql_operator op
    ⊕ " ?)"
render_atom (role_is_field uid op f) =
    "EXISTS (SELECT 1 FROM __ab_membership m WHERE m.role "
    ⊕ sql_operator op
    ⊕ " ["
    ⊕ f
    ⊕ "] AND m.user_id = ?)"
render_atom (field_is f op v) = "[" ⊕ f ⊕ "] " ⊕ sql_operator op ⊕ " ?"
render_atom (field_is_null f op) = "[" ⊕ f ⊕ "] " ⊕ sql_operator op ⊕ " NULL"
render_atom (field_among f vs) = "[" ⊕ f ⊕ "] IN (" ⊕ placeholders (length vs) ⊕ ")"

unfoldable pub atom_args : Atom → List Value
atom_args (is_member uid) = uid ∷ []
atom_args (is_anonymous uid) = uid ∷ []
atom_args (role_among uid vs) = uid ∷ vs
atom_args (role_is uid op v) = uid ∷ v ∷ []
atom_args (role_is_field uid op f) = uid ∷ []
atom_args (field_is f op v) = v ∷ []
atom_args (field_is_null f op) = []
atom_args (field_among f vs) = vs

unfoldable mutual
  pub render : Predicate → String
  render (atom a) = render_atom a
  render (all_of ps) = "(" ⊕ join " AND " (render_each ps) ⊕ ")"
  render (any_of ps) = "(" ⊕ join " OR " (render_each ps) ⊕ ")"
  render (negation p) = "(NOT " ⊕ render p ⊕ ")"

  pub render_each : Predicates → List String
  render_each (one p) = render p ∷ []
  render_each (more ps p) = render_each ps ++ render p ∷ []

unfoldable mutual
  pub predicate_args : Predicate → List Value
  predicate_args (atom a) = atom_args a
  predicate_args (all_of ps) = each_args ps
  predicate_args (any_of ps) = each_args ps
  predicate_args (negation p) = predicate_args p

  pub each_args : Predicates → List Value
  each_args (one p) = predicate_args p
  each_args (more ps p) = each_args ps ++ predicate_args p

-- What compiling a condition decides; each carries `needsMembership`.
pub data Verdict : Type 0 where
  denied granted : Bool → Verdict
  asks : Bool → Predicate → Verdict

-- The code's four values for a verdict.
unfoldable pub encode : Verdict → Compiled
encode (denied needs) = record { sql = ""; args = []; allowed = false; needs_membership = needs }
encode (granted needs) = record { sql = ""; args = []; allowed = true; needs_membership = needs }
encode (asks needs p) = record {
  sql = render p;
  args = predicate_args p;
  allowed = true;
  needs_membership = needs;
}

pub data Truth : Type 0 where
  holds fails unknown : Truth

unfoldable pub and3 : Truth → Truth → Truth
and3 fails t = fails
and3 holds t = t
and3 unknown fails = fails
and3 unknown t = unknown

unfoldable pub or3 : Truth → Truth → Truth
or3 holds t = holds
or3 fails t = t
or3 unknown holds = holds
or3 unknown t = unknown

unfoldable pub not3 : Truth → Truth
not3 holds = fails
not3 fails = holds
not3 unknown = unknown

module _ (answer : Atom → Truth) where
  unfoldable mutual
    pub truth : Predicate → Truth
    truth (atom a) = answer a
    truth (all_of ps) = truth_all ps
    truth (any_of ps) = truth_any ps
    truth (negation p) = not3 (truth p)

    pub truth_all : Predicates → Truth
    truth_all (one p) = truth p
    truth_all (more ps p) = and3 (truth_all ps) (truth p)

    pub truth_any : Predicates → Truth
    truth_any (one p) = truth p
    truth_any (more ps p) = or3 (truth_any ps) (truth p)

  unfoldable pub verdict_truth : Verdict → Truth
  verdict_truth (denied needs) = fails
  verdict_truth (granted needs) = holds
  verdict_truth (asks needs p) = truth p

bracketed : (s : String) → (("[" ⊕ s) == "") ≡ false
bracketed s = append-ne-empty "[" s refl

render_atom-ne-empty : (a : Atom) → (render_atom a == "") ≡ false
unfolding render_atom
render_atom-ne-empty (is_member uid) = refl
render_atom-ne-empty (is_anonymous uid) = refl
render_atom-ne-empty (role_among uid vs) = append-ne-empty _ _ (append-ne-empty _ _ refl)
render_atom-ne-empty (role_is uid op v) = append-ne-empty _ _ (append-ne-empty _ _ refl)
render_atom-ne-empty (role_is_field uid op f) =
    append-ne-empty _ _ (append-ne-empty _ _ (append-ne-empty _ _ (append-ne-empty _ _ refl)))
render_atom-ne-empty (field_is f op v) =
    append-ne-empty _ _ (append-ne-empty _ _ (append-ne-empty _ _ (bracketed f)))
render_atom-ne-empty (field_is_null f op) =
    append-ne-empty _ _ (append-ne-empty _ _ (append-ne-empty _ _ (bracketed f)))
render_atom-ne-empty (field_among f vs) =
    append-ne-empty _ _ (append-ne-empty _ _ (append-ne-empty _ _ (bracketed f)))

-- Every predicate has a text.
pub render-ne-empty : (p : Predicate) → (render p == "") ≡ false
unfolding render
render-ne-empty (atom a) = render_atom-ne-empty a
render-ne-empty (all_of ps) = append-ne-empty _ _ (append-ne-empty _ _ refl)
render-ne-empty (any_of ps) = append-ne-empty _ _ (append-ne-empty _ _ refl)
render-ne-empty (negation p) = append-ne-empty _ _ (append-ne-empty _ _ refl)
