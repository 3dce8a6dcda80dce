-- ===== src/Data/Reads/Coverage.antt =====
-- No table of a select goes without the policy that was compiled for it.
use mathlib.Core.Option.{some-injective}
use atomicbase.Prelude.{
  String, ◌≡◌, sym, ◌∙◌, ap, [], none, some, ◌==◌, eq_iff, Option-cases, Bool-cases, inl, inr,
}
use atomicbase.Result.{ok, Holds, Holds->>=, Holds-value, Holds-ok}
use atomicbase.Tools.Validation.{Unicode}
use atomicbase.Definitions.Types.{CompiledPredicate}
use atomicbase.Platform.Schema.{lookup, put}
use atomicbase.Platform.Diff.Maps.{lookup-put, lookup-put-other}
use atomicbase.PrimaryStore.Policies.{Json}
use atomicbase.Data.Policy.{TenantConnection, compile_policy}
use atomicbase.Data.Relation.{Relation, relation, Relations, no_relation, relations}
use atomicbase.Data.Columns.{SelectPolicySet}
use atomicbase.Data.Reads.{compile_once, walk, walk_joins, compile_select_policies}

-- What holds of the name of every table in a tree.
unfoldable mutual
  pub EveryTable : (String → Type 0) → Relation → Type 0
  EveryTable P (relation name alias inner columns joins) = P name × EveryJoin P joins

  pub EveryJoin : (String → Type 0) → Relations → Type 0
  EveryJoin P no_relation = Unit
  EveryJoin P (relations r rs) = EveryTable P r × EveryJoin P rs

module _ {P Q : String → Type 0} (f : (name : String) → P name → Q name) where
  mutual
    unfolding EveryTable

    EveryTable-map : (rel : Relation) → EveryTable P rel → EveryTable Q rel
    EveryTable-map (relation name alias inner columns joins) h =
        (f name h.0, EveryJoin-map joins h.1)

    EveryJoin-map : (rs : Relations) → EveryJoin P rs → EveryJoin Q rs
    EveryJoin-map no_relation h = tt
    EveryJoin-map (relations r rs) h = (EveryTable-map r h.0, EveryJoin-map rs h.1)

module _ (u : Unicode) (json : Json) (dao : TenantConnection) where
  -- The set holds the policy that was compiled for selects from this table.
  unfoldable pub Covered : SelectPolicySet → String → Type 0
  Covered policies name =
      (p : CompiledPredicate) × (lookup name policies ≡ some p)
      × (compile_policy u json dao name "select" none ≡ ok p)

  IsCompiled : SelectPolicySet → Type 0
  IsCompiled policies =
      (name : String) (p : CompiledPredicate)
      → lookup name policies ≡ some p
      → compile_policy u json dao name "select" none ≡ ok p

  Extends : SelectPolicySet → SelectPolicySet → Type 0
  Extends before after = (name : String) → Covered before name → Covered after name

  -- A compiled set grows by a table that it lacks.
  put-IsCompiled :
      (policies : SelectPolicySet) (table : String) (p : CompiledPredicate)
      → IsCompiled policies
      → compile_policy u json dao table "select" none ≡ ok p
      → IsCompiled (put table p policies)
  unfolding IsCompiled
  put-IsCompiled policies table p h compiled name q found = elim (Bool-cases (table == name)) [
    | inl same ↦
        let e = (eq_iff table name).0 same in
        let value = some-injective _ _ (
          sym (lookup-put table p policies)
          ∙ ap (λ n. lookup n (put table p policies)) e
          ∙ found) in
        ap (λ n. compile_policy u json dao n "select" none) (sym e) ∙ compiled ∙ ap ok value
    | inr different ↦ h name q (sym (lookup-put-other name table p policies different) ∙ found)
  ]

  put-Extends :
      (policies : SelectPolicySet) (table : String) (p : CompiledPredicate)
      → lookup table policies ≡ none
      → Extends policies (put table p policies)
  unfolding Extends Covered
  put-Extends policies table p fresh name (q, found, compiled) = elim (Bool-cases (table == name)) [
    | inl same ↦
        absurd (cc (ap (λ n. lookup n policies) ((eq_iff table name).0 same), fresh, found))
    | inr different ↦ (q, lookup-put-other name table p policies different ∙ found, compiled)
  ]

  -- What a step does to the set: it stays compiled, keeps what it covered and covers more.
  abbrev Grows : SelectPolicySet → (SelectPolicySet → Type 0) → SelectPolicySet → Type 0
  Grows before More after = IsCompiled after × Extends before after × More after

  compile_once-Grows :
      (name : String) (policies : SelectPolicySet)
      → IsCompiled policies
      → Holds (Grows policies (λ after. Covered after name)) (compile_once u json dao name policies)
  unfolding compile_once IsCompiled Extends Covered
  compile_once-Grows name policies h = elim (Option-cases (lookup name policies)) [
    | inl fresh ↦ rw fresh (
        Holds->>= _ (compile_policy u json dao name "select" none) _ λ p e. (
          put-IsCompiled policies name p h e,
          put-Extends policies name p fresh,
          (p, lookup-put name p policies, e),
        ))
    | inr (p, found) ↦ rw found (h, λ _ c. c, (p, found, h name p found))
  ]

  mutual
    unfolding walk EveryTable IsCompiled Extends

    walk-Grows :
        (rel : Relation) (policies : SelectPolicySet)
        → IsCompiled policies
        → Holds
            (Grows policies (λ after. EveryTable (Covered after) rel))
            (walk u json dao rel policies)
    walk-Grows (relation name alias inner columns joins) policies h =
        Holds->>= _ (compile_once u json dao name policies) _ λ next e.
          let (compiled, kept, covered) = Holds-ok _ (compile_once-Grows name policies h) e in
          Holds-value _ (walk_joins u json dao joins next) λ after e2.
            let (compiled2, kept2, covered2) =
              Holds-ok _ (walk_joins-Grows joins next compiled) e2 in
            (compiled2, λ n c. kept2 n (kept n c), (kept2 name covered, covered2))

    walk_joins-Grows :
        (rs : Relations) (policies : SelectPolicySet)
        → IsCompiled policies
        → Holds
            (Grows policies (λ after. EveryJoin (Covered after) rs))
            (walk_joins u json dao rs policies)
    walk_joins-Grows no_relation policies h = (h, λ n c. c, tt)
    walk_joins-Grows (relations r rs) policies h =
        Holds->>= _ (walk u json dao r policies) _ λ next e.
          let (compiled, kept, covered) = Holds-ok _ (walk-Grows r policies h) e in
          Holds-value _ (walk_joins u json dao rs next) λ after e2.
            let (compiled2, kept2, covered2) = Holds-ok _ (walk_joins-Grows rs next compiled) e2 in
            (compiled2, λ n c. kept2 n (kept n c), (EveryTable-map kept2 r covered, covered2))

-- If the policies of a select compile, then every table of its tree, at any depth, has in the set
-- the policy that was compiled for selects from that table.
pub compile_select_policies-Covered :
    (u : Unicode) (json : Json) (dao : TenantConnection) (rel : Relation)
    (policies : SelectPolicySet)
    → compile_select_policies u json dao rel ≡ ok policies
    → EveryTable (Covered u json dao policies) rel
unfolding IsCompiled lookup
compile_select_policies-Covered u json dao rel policies e =
    (Holds-ok _ (walk-Grows u json dao rel [] (λ name p found. absurd (cc found))) e).2
