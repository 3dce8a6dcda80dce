-- ===== src/Definitions/Compiler/Origin.antt =====
-- The three ways in which `Compile` accepts a request.
use atomicbase.Prelude.{
  true, ◌≡◌, refl, sym, ◌∙◌, if_false, Option, none, some, Bool-cases, inl, inr, ◌⊎◌,
}
use atomicbase.Result.{ok, >>=-eq-ok, ok-injective}
use atomicbase.Tools.Validation.{Unicode}
use atomicbase.Definitions.Types.{Condition, AccessPolicy, CompiledPredicate, is_zero}
use atomicbase.Definitions.Compiler.Leaf.{CompileInput, Compiled}
use atomicbase.Definitions.Compiler.{
  compile_condition, compile, finish, passed, condition_or_passed,
}

-- No condition, or the zero condition.
abbrev pub IsUnconditional : Option Condition → Type 0
IsUnconditional none = Unit
IsUnconditional (some c) = is_zero c ≡ true

pub data Origin (u : Unicode) (policy : Option AccessPolicy) (input : CompileInput)
    (q : CompiledPredicate) : Type 0 where
  by_service : input.principal.is_service ≡ true → q ≡ passed → Origin u policy input q
  unconditional :
      (p : AccessPolicy)
      → policy ≡ some p
      → IsUnconditional p.condition
      → q ≡ passed
      → Origin u policy input q
  conditional :
      (p : AccessPolicy) (c : Condition) (r : Compiled)
      → policy ≡ some p
      → p.condition ≡ some c
      → compile_condition u input c ≡ ok r
      → finish r ≡ ok q
      → Origin u policy input q

condition_or_passed-cases :
    (u : Unicode) (input : CompileInput) (o : Option Condition) {q : CompiledPredicate}
    → condition_or_passed u input o ≡ ok q
    → (IsUnconditional o × (q ≡ passed))
      ⊎ ((c : Condition) × (r : Compiled) × (o ≡ some c)
          × (compile_condition u input c ≡ ok r)
          × (finish r ≡ ok q))
condition_or_passed-cases u input none e = inl (tt, ok-injective (sym e))
condition_or_passed-cases u input (some c) e = elim (Bool-cases (is_zero c)) [
  | inl zero ↦ inl (zero, ok-injective (sym (rw (zero, condition_or_passed) at e)))
  | inr more ↦
      let (r, compiled, done) =
        >>=-eq-ok (compile_condition u input c) finish (rw (more, condition_or_passed) at e) in
      inr (c, r, refl, compiled, done)
]

-- A request that a policy lets through comes from the service and runs without a predicate, or the
-- policy has no condition and it runs without one, or it runs with what the condition compiles to.
pub compile-Origin :
    (u : Unicode) (policy : Option AccessPolicy) (input : CompileInput) {q : CompiledPredicate}
    → compile u policy input ≡ ok q
    → Origin u policy input q
unfolding compile
compile-Origin u none input e = elim (Bool-cases input.principal.is_service) [
  | inl service ↦ by_service service (ok-injective (sym (rw (service, compile) at e)))
  | inr user ↦ absurd (cc (rw (user, compile) at e))
]
compile-Origin u (some p) input e = elim (Bool-cases input.principal.is_service) [
  | inl service ↦ by_service service (ok-injective (sym (rw (service, compile) at e)))
  | inr user ↦
      elim (condition_or_passed-cases u input p.condition (
        sym (
          if_false input.principal.is_service (ok passed) (condition_or_passed u input p.condition)
            user)
        ∙ e)) [
          | inl (none_given, same) ↦ unconditional p refl none_given same
          | inr (c, r, given, compiled, done) ↦ conditional p c r refl given compiled done
        ]
]
