-- ===== src/Data/Migration/Attempts.antt =====
-- The loop over the attempts to run a migration, and what is written after it.
use mathlib.Core.Option
use atomicbase.Prelude.{
  ℕ, zero, suc, ◌+◌, ◌≤◌, ◌<◌, String, Bool, true, false, ◌&&◌, ◌==◌, eq_iff, [], ◌∷◌,
  if◌then◌else◌, ◌≡◌, refl, sym, ◌∙◌, ◌⊎◌, inl, inr, ap, List, Option, some, eqb, arith, Bool-cases,
  if_true, if_false,
}
use atomicbase.Result.{Error, Result, ok, err, Result-cases}
use atomicbase.Platform.Schema.{lookup, put}
use atomicbase.Platform.Diff.Maps.{lookup-put, lookup-put-other}
use atomicbase.Data.Text.{GoText}
use atomicbase.Data.Batch.{Driver}
use atomicbase.Data.Migration.{
  set_version, failure, is_retryable_migration_error, execute_migration_batch, attempts, or_again,
}

err-injective : {S : Type 0} {a b : Error} → ◌≡◌ {A = Result S} (err a) (err b) → a ≡ b
err-injective e = cc

if_same : {S : Type 0} (b : Bool) (x : Result S) → (if b then x else x) ≡ x
if_same true x = refl
if_same false x = refl

-- Writing a version changes it where there is one.
pub lookup-set_version :
    (id key : String) (version : ℕ) (rows : List (String × ℕ))
    → lookup key (set_version id version rows)
      ≡ (if id == key then Option.map (λ old. version) (lookup key rows) else lookup key rows)
unfolding lookup set_version
lookup-set_version id key version [] = ground arith
lookup-set_version id key version ((k, v) ∷ rows) =
    ground (arith, lookup-set_version id key version rows, eq_iff k id, eq_iff k key, eq_iff id key)

pub lookup-put-both :
    {A : Type 0} (id key : String) (a : A) (m : List (String × A))
    → lookup key (put id a m) ≡ (if id == key then some a else lookup key m)
lookup-put-both id key a m = elim (Bool-cases (id == key)) [
  | inl same ↦ rw same (rw ((eq_iff id key).0 same) (lookup-put key a m))
  | inr other ↦ rw other (lookup-put-other key id a m other)
]

-- A map that is written on a condition, at a key.
pub chosen :
    {A : Type 0} (key : String) (m written : List (String × A)) (hit : Bool) (there : Option A)
    (b : Bool)
    → lookup key written ≡ (if hit then there else lookup key m)
    → lookup key (if b then written else m) ≡ (if b && hit then there else lookup key m)
chosen key m written hit there true e = e
chosen key m written hit there false e = refl

module _ {S A : Type 0} (go : GoText) (drivers : ℕ → Driver S A) where
  -- An attempt that fails in a way that another one may not.
  unfoldable pub FailsForNow : List String → S → ℕ → Type 0
  FailsForNow statements s k =
      (e : Error) × (execute_migration_batch go (drivers k) statements s ≡ err e)
      × (is_retryable_migration_error go e ≡ true)

  -- One of the attempts succeeded, after others that failed for now.
  pub attempts-eq-ok :
      (left attempt : ℕ) (last : Error) (statements : List String) (s : S) {after : S}
      → attempts go drivers left attempt last statements s ≡ ok after
      → (k : ℕ) × (attempt ≤ k)
        × (k < attempt + left)
        × (execute_migration_batch go (drivers k) statements s ≡ ok after)
  unfolding attempts
  attempts-eq-ok zero attempt last statements s e = absurd (cc e)
  attempts-eq-ok (suc left) attempt last statements s e =
      let later : Error → Result S = λ e. attempts go drivers left (suc attempt) e statements s in
      elim (Result-cases
        (execute_migration_batch {S = S} {A = A} go (drivers attempt) statements s)) [
          | inl (now, done) ↦ (
            attempt,
            omega arith,
            omega arith,
            done ∙ sym (ap (λ r. or_again go r later) done) ∙ e,
          )
          | inr (failure, failed) ↦
              let stop = sym (ap (λ r. or_again go r later) failed) ∙ e in
              elim (Bool-cases (is_retryable_migration_error go failure)) [
                | inl again ↦
                    let (k, from, to, done) =
                      attempts-eq-ok left (suc attempt) failure statements s (
                        sym (
                          if_true (is_retryable_migration_error go failure) (later failure)
                            (err failure) again)
                        ∙ stop) in
                    (k, omega (arith, from), omega (arith, to), done)
                | inr never ↦ absurd (
                    cc (
                      if_false (is_retryable_migration_error go failure) (later failure)
                          (err failure) never,
                      stop,
                    ))
              ]
        ]

  -- The error of the attempt after which the loop ended: no other was to be made.
  pub attempts-eq-err :
      (left attempt : ℕ) (last : Error) (statements : List String) (s : S) {e : Error}
      → 0 < left
      → attempts go drivers left attempt last statements s ≡ err e
      → (k : ℕ) × (k < attempt + left)
        × (execute_migration_batch go (drivers k) statements s ≡ err e)
        × ((is_retryable_migration_error go e ≡ false) ⊎ (suc k ≡ attempt + left))
  unfolding attempts
  attempts-eq-err zero attempt last statements s some_left e = absurd (omega (arith, some_left))
  attempts-eq-err (suc zero) attempt last statements s {e} some_left h =
      let later : Error → Result S = λ e. attempts go drivers zero (suc attempt) e statements s in
      elim (Result-cases
        (execute_migration_batch {S = S} {A = A} go (drivers attempt) statements s)) [
          | inl (now, done) ↦ absurd (cc (sym (ap (λ r. or_again go r later) done) ∙ h))
          | inr (failure, failed) ↦
              let stop = sym (ap (λ r. or_again go r later) failed) ∙ h in
              let same : failure ≡ e =
                err-injective
                  (sym (if_same (is_retryable_migration_error go failure) (err failure)) ∙ stop) in
              (attempt, omega arith, failed ∙ ap err same, inr (omega arith))
        ]
  attempts-eq-err (suc (suc left)) attempt last statements s {e} some_left h =
      let later : Error → Result S =
        λ e. attempts go drivers (suc left) (suc attempt) e statements s in
      elim (Result-cases
        (execute_migration_batch {S = S} {A = A} go (drivers attempt) statements s)) [
          | inl (now, done) ↦ absurd (cc (sym (ap (λ r. or_again go r later) done) ∙ h))
          | inr (failure, failed) ↦
              let stop = sym (ap (λ r. or_again go r later) failed) ∙ h in
              elim (Bool-cases (is_retryable_migration_error go failure)) [
                | inl again ↦
                    let (k, few, there, why) =
                      attempts-eq-err (suc left) (suc attempt) failure statements s (omega arith) (
                        sym (
                          if_true (is_retryable_migration_error go failure) (later failure)
                            (err failure) again)
                        ∙ stop) in
                    (
                      k,
                      omega (arith, few),
                      there,
                      elim why [
                        | inl never ↦ inl never
                        | inr last_one ↦ inr (omega (arith, last_one))
                      ],
                    )
                | inr never ↦
                    let same : failure ≡ e = err-injective (
                      sym (
                        if_false (is_retryable_migration_error go failure) (later failure)
                          (err failure) never)
                      ∙ stop) in
                    (attempt, omega arith, failed ∙ ap err same, inl (rw (← same) never))
              ]
        ]

  -- The attempt that succeeds ends the loop, if those before it failed for now.
  pub attempts-success :
      (left attempt : ℕ) (last : Error) (statements : List String) (s : S) (k : ℕ) {after : S}
      → attempt ≤ k
      → k < attempt + left
      → ((j : ℕ) → attempt ≤ j → j < k → FailsForNow statements s j)
      → execute_migration_batch go (drivers k) statements s ≡ ok after
      → attempts go drivers left attempt last statements s ≡ ok after
  unfolding attempts FailsForNow
  attempts-success zero attempt last statements s k from to fails e =
      absurd (omega (arith, from, to))
  attempts-success (suc left) attempt last statements s k from to fails e =
      let later : Error → Result S = λ e. attempts go drivers left (suc attempt) e statements s in
      elim (Bool-cases (eqb attempt k)) [
        | inl same ↦
            let here : attempt ≡ k = ground (arith, same) in
            ap (λ r. or_again go r later)
              (ap (λ k. execute_migration_batch go (drivers k) statements s) here ∙ e)
        | inr different ↦
            let past : suc attempt ≤ k = ground (arith, different, from) in
            let (failure, failed, again) = fails attempt (omega arith) (omega (arith, past)) in
            ap (λ r. or_again go r later) failed
            ∙ if_true (is_retryable_migration_error go failure) (later failure) (err failure) again
            ∙ attempts-success left (suc attempt) failure statements s k past (omega (arith, to))
                (λ j j_from. fails j (omega (arith, j_from))) e
      ]
