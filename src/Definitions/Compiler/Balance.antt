-- ===== src/Definitions/Compiler/Balance.antt =====
-- Placeholders and arguments through the Boolean structure of a policy.
use mathlib.Core.Path.{subst}
use atomicbase.Prelude.{
  ℕ, ◌+◌, String, Bool, true, false, not, ◌≡◌, refl, List, [], ◌∷◌, ◌++◌, ◌==◌, Option, length,
  length-append, join, occurs, arith, Bool-cases, inl, inr,
}
use atomicbase.Result.{Result, ok, err, ◌>>=◌}
use atomicbase.Tools.Validation.{Unicode, IsPlain}
use atomicbase.Definitions.Types.{
  Value, Condition, condition, Conditions, nil, cons, Negated, absent, present, AccessPolicy,
  CompiledPredicate, is_nil,
}
use atomicbase.Definitions.Compiler.Leaf.{CompileInput, Compiled}
use atomicbase.Definitions.Compiler.{
  Parts, no_parts, add_part, joined, joined_parts, negate, compile_condition, compile_all,
  compile_any, compile_not, compile, finish,
}
use atomicbase.Definitions.Compiler.Origin.{compile-Origin, by_service, unconditional, conditional}
use atomicbase.Definitions.Compiler.Placeholders.{
  marks, marks-around, IsBalanced, Balances, sent, failed, balanced, Balances-if,
  compile_leaf-Balances,
}

total : List String → ℕ
total [] = 0
total (s ∷ ss) = marks s + total ss

total-append : (ss : List String) (s : String) → total (ss ++ s ∷ []) ≡ total ss + marks s
unfolding total
total-append [] s = omega arith
total-append (t ∷ ss) s = omega (arith, total-append ss s)

marks-join : (sep : String) (ss : List String) → marks sep ≡ 0 → marks (join sep ss) ≡ total ss
unfolding join total occurs
marks-join sep [] h = refl
marks-join sep (s ∷ []) h = omega arith
marks-join sep (s ∷ t ∷ ss) h = rw marks-around (omega (arith, marks-join sep (t ∷ ss) h))

abbrev AreBalanced : Parts → Type 0
AreBalanced acc = total acc.parts ≡ length acc.args

add_part-AreBalanced :
    (p : Compiled) (acc : Parts) → IsBalanced p → AreBalanced acc → AreBalanced (add_part p acc)
add_part-AreBalanced p acc hp h = elim (Bool-cases (p.sql == "")) [
  | inl empty ↦ rw (empty, add_part) h
  | inr full ↦ rw (full, add_part) (rw (total-append, length-append) (omega arith))
]

joined_parts-Balances :
    (sep : String) (empty : Bool) (parts : List String) (args : List Value) (needs : Bool)
    → marks sep ≡ 0
    → total parts ≡ length args
    → Balances (ok (joined_parts sep empty parts args needs))
unfolding occurs
joined_parts-Balances sep empty [] args needs hs h = sent refl
joined_parts-Balances sep empty (p ∷ ps) args needs hs h =
    sent (rw marks-around (omega (arith, marks-join sep (p ∷ ps) hs)))

joined-Balances :
    (sep : String) (empty : Bool) (acc : Parts)
    → marks sep ≡ 0
    → AreBalanced acc
    → Balances (ok (joined sep empty acc))
joined-Balances sep empty acc =
    joined_parts-Balances sep empty acc.parts acc.args acc.needs_membership

negate-Balances : (p : Compiled) → IsBalanced p → Balances (ok (negate p))
unfolding occurs
negate-Balances p h = elim (Bool-cases p.allowed) [
  | inr denied ↦ rw (denied, negate) (sent refl)
  | inl allowed ↦ elim (Bool-cases (p.sql == "")) [
    | inl empty ↦ rw (allowed, empty, negate) (sent refl)
    | inr full ↦ rw (allowed, full, negate) (sent (rw marks-around (omega (arith, h))))
  ]
]

bind-Balances :
    (m : Result Compiled) (f : Compiled → Result Compiled)
    → Balances m
    → ((p : Compiled) → IsBalanced p → Balances (f p))
    → Balances (m >>= f)
bind-Balances (ok p) f h k = k p (balanced h)
bind-Balances (err e) f h k = failed

module _ (u : Unicode) (plain : IsPlain u b'?') (input : CompileInput) where
  mutual
    unfolding compile_condition compile_all compile_any compile_not occurs total

    condition-Balances : (c : Condition) → Balances (compile_condition u input c)
    condition-Balances (condition field op value all_of any_of negated) =
        Balances-if (not (field == "")) (compile_leaf-Balances u plain input field op value) (
          Balances-if (not (is_nil all_of)) (all-Balances all_of no_parts refl) (
            Balances-if (not (is_nil any_of)) (any-Balances any_of no_parts refl)
              (not-Balances negated)))

    all-Balances :
        (cs : Conditions) (acc : Parts) → AreBalanced acc → Balances (compile_all u input cs acc)
    all-Balances nil acc h = joined-Balances " AND " true acc refl h
    all-Balances (cons c cs) acc h =
        bind-Balances (compile_condition u input c) _ (condition-Balances c) λ p hp.
          Balances-if (not p.allowed) (sent refl)
            (all-Balances cs (add_part p acc) (add_part-AreBalanced p acc hp h))

    any-Balances :
        (cs : Conditions) (acc : Parts) → AreBalanced acc → Balances (compile_any u input cs acc)
    any-Balances nil acc h = joined-Balances " OR " false acc refl h
    any-Balances (cons c cs) acc h =
        bind-Balances (compile_condition u input c) _ (condition-Balances c) λ p hp.
          Balances-if (not p.allowed) (any-Balances cs acc h) (
            Balances-if (p.sql == "") (sent refl)
              (any-Balances cs (add_part p acc) (add_part-AreBalanced p acc hp h)))

    not-Balances : (n : Negated) → Balances (compile_not u input n)
    not-Balances absent = sent refl
    not-Balances (present c) =
        bind-Balances (compile_condition u input c) _ (condition-Balances c) negate-Balances

-- The compiled condition is passed on as it is.
finish-eq-ok :
    (p : Compiled) {q : CompiledPredicate} → finish p ≡ ok q → (q.sql ≡ p.sql) × (q.args ≡ p.args)
finish-eq-ok p e = (ground arith, ground arith)

-- The SQL of every compiled policy has one placeholder for each argument, as long as "?" is neither
-- a letter nor a digit of the identifiers that the code accepts as field names.
pub compile-placeholders :
    (u : Unicode) (policy : Option AccessPolicy) (input : CompileInput) (q : CompiledPredicate)
    → IsPlain u b'?'
    → compile u policy input ≡ ok q
    → marks q.sql ≡ length q.args
unfolding compile occurs
compile-placeholders u policy input q plain e = elim (compile-Origin u policy input e) [
  | by_service service same ↦ rw same
  | unconditional policy' known nothing same ↦ rw same
  | conditional policy' c p known given compiled done ↦
      let (sql, args) = finish-eq-ok p done in
      rw (sql, args) (balanced (subst Balances compiled (condition-Balances u plain input c)))
]
