-- ===== src/PrimaryStore/Migrations/Chain.antt =====
-- Migrations that lead from one version to another without a gap.
use mathlib.Core.Path.{subst}
use atomicbase.Prelude.{◌∙◌, ℕ, true, ◌≡◌, refl, ◌↔◌, List, [], ◌∷◌, eqb, arith}
use atomicbase.Result.{ok, require, >>=-eq-ok, ok-injective}
use atomicbase.PrimaryStore.Policies.{Json}
use atomicbase.PrimaryStore.Migrations.{
  MigrationRow, DefinitionMigration, rows_between, decode_all, check_chain, get_migrations_between,
}

eqb_same : (a b : ℕ) → a ≡ b → eqb a b ≡ true
eqb_same a b e = ground (arith, e)

-- Each migration starts at the version that the one before it ends at.
pub data Chain : ℕ → List DefinitionMigration → ℕ → Type 0 where
  here : {v w : ℕ} → v ≡ w → Chain v [] w
  step :
      {m : DefinitionMigration} {ms : List DefinitionMigration} {v w : ℕ}
      → m.from_version ≡ v
      → Chain m.to_version ms w
      → Chain v (m ∷ ms) w

check_chain-Chain :
    (ms : List DefinitionMigration) (expected to_version : ℕ) {done : Unit {0}}
    → check_chain expected to_version ms ≡ ok done
    → Chain expected ms to_version
unfolding check_chain
check_chain-Chain [] expected to_version e = here (ground (arith, e))
check_chain-Chain (m ∷ ms) expected to_version e =
    let (_, same, rest) = >>=-eq-ok (require (eqb m.from_version expected) _) _ e in
    step (ground (arith, same)) (check_chain-Chain ms m.to_version to_version rest)

Chain-check_chain :
    (ms : List DefinitionMigration) (expected to_version : ℕ)
    → Chain expected ms to_version
    → check_chain expected to_version ms ≡ ok tt
unfolding check_chain
Chain-check_chain [] expected to_version (here e) = rw (eqb_same expected to_version e) refl
Chain-check_chain (m ∷ ms) expected to_version (step e c) =
    rw (eqb_same m.from_version expected e) (Chain-check_chain ms m.to_version to_version c)

-- The migrations from one version to another are those of the definition between them, ordered by
-- the version they start at: the call succeeds with them exactly when their texts decode and they
-- lead from the one version to the other, each starting where the one before it ended.
pub get_migrations_between-Chain :
    (json : Json) (rows : List MigrationRow) (definition_id from_version to_version : ℕ)
    (ms : List DefinitionMigration)
    → (get_migrations_between json rows definition_id from_version to_version ≡ ok ms) ↔ (
        (decode_all json (rows_between definition_id from_version to_version rows) ≡ ok ms)
        × Chain from_version ms to_version)
unfolding get_migrations_between
get_migrations_between-Chain json rows definition_id from_version to_version ms = (
  λ e.
      let (found, decoded, rest) =
        >>=-eq-ok (decode_all json (rows_between definition_id from_version to_version rows)) _ e in
      let (_, checked, same) = >>=-eq-ok (check_chain from_version to_version found) _ rest in
      (
        decoded ∙ same,
        subst (λ ms. Chain from_version ms to_version) (ok-injective same)
            (check_chain-Chain found from_version to_version checked),
      ),
  λ h. rw (h.0, Chain-check_chain ms from_version to_version h.1) refl,
)
