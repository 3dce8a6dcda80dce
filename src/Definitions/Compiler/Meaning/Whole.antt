-- ===== src/Definitions/Compiler/Meaning/Whole.antt =====
-- A compiled condition has the truth of the condition.
use atomicbase.Prelude.{
  Bool, true, false, not, ◌||◌, [], ◌==◌, ◌≡◌, refl, sym, ap, ◌∙◌, Option, none, some, ◌⊎◌,
  if◌then◌else◌,
}
use mathlib.Core.Path.{subst}
use atomicbase.Result.{ok, >>=-eq-ok, ok-injective}
use atomicbase.Tools.Validation.{Unicode}
use atomicbase.Definitions.Types.{
  Condition, condition, Conditions, nil, cons, Negated, absent, present, is_nil, CompiledPredicate,
}
use atomicbase.Definitions.Compiler.Leaf.{CompileInput}
use atomicbase.Definitions.Compiler.{
  add_part, decided, negate, compile_condition, compile_all, compile_any, compile_not,
}
use atomicbase.Definitions.Compiler.Predicate.{
  Atom, Predicate, Predicates, Verdict, denied, granted, asks, encode, Truth, holds, and3, or3,
  not3, truth, verdict_truth, render, predicate_args, render-ne-empty,
}
use atomicbase.Definitions.Compiler.Meaning.{condition_truth, all_truth, any_truth, not_truth}
use atomicbase.Definitions.Compiler.Meaning.Leaves.{compile_leaf-Matches}
use atomicbase.Definitions.Compiler.Meaning.Sound.{
  and3_holds, and3_fails, and3_assoc, or3_fails, or3_holds, or3_assoc, parts_of, snoc,
  add_part-asks, add_part-granted, all_verdict, any_verdict, joined-all, joined-any, negated,
  negate-encode, Means, Sound, Sound-if, Matches-Sound, all_acc, any_acc, all_acc-snoc,
  any_acc-snoc,
}

module _ (answer : Atom → Truth) (u : Unicode) (input : CompileInput) where
  all_verdict-truth :
      (a : Option Predicates) (n : Bool) → verdict_truth answer (all_verdict a n) ≡ all_acc answer a
  unfolding all_verdict all_acc verdict_truth truth
  all_verdict-truth none n = refl
  all_verdict-truth (some ps) n = refl

  any_verdict-truth :
      (a : Option Predicates) (n : Bool) → verdict_truth answer (any_verdict a n) ≡ any_acc answer a
  unfolding any_verdict any_acc verdict_truth truth
  any_verdict-truth none n = refl
  any_verdict-truth (some ps) n = refl

  negated-truth : (v : Verdict) → verdict_truth answer (negated v) ≡ not3 (verdict_truth answer v)
  unfolding negated verdict_truth truth not3
  negated-truth (denied m) = refl
  negated-truth (granted m) = refl
  negated-truth (asks m p) = refl

  no_negation :
      (decided true false ≡ encode (granted false)) × (verdict_truth answer (granted false) ≡ holds)
  unfolding encode verdict_truth
  no_negation = (refl, refl)

  -- One more child of a conjunction, if the rest is sound from there on.
  all_step :
      (cs : Conditions) (t : Truth)
      → ((a : Option Predicates) (n : Bool)
          → Sound answer (compile_all u input cs (parts_of a n)) (and3 (all_acc answer a) t))
      → (v : Verdict) (a : Option Predicates) (n : Bool)
      → Sound answer
          (if not (encode v).allowed
            then ok (decided false false)
            else compile_all u input cs (add_part (encode v) (parts_of a n)))
          (and3 (all_acc answer a) (and3 (verdict_truth answer v) t))
  unfolding encode verdict_truth and3 all_acc
  all_step cs t ih (denied m) a n =
      λ r e. (denied false, sym (ok-injective e), sym (and3_fails (all_acc answer a)))
  all_step cs t ih (granted m) a n = rw (add_part-granted a n m) (ih a (n || m))
  all_step cs t ih (asks m p) a n =
      let same =
        ap (λ s. and3 s t) (all_acc-snoc answer a p)
        ∙ and3_assoc (all_acc answer a) (truth answer p) t in
      rw (add_part-asks a n m p) (
        subst (Sound answer (compile_all u input cs (parts_of (some (snoc a p)) (n || m)))) same
          (ih (some (snoc a p)) (n || m)))

  any_step :
      (cs : Conditions) (t : Truth)
      → ((a : Option Predicates) (n : Bool)
          → Sound answer (compile_any u input cs (parts_of a n)) (or3 (any_acc answer a) t))
      → (v : Verdict) (a : Option Predicates) (n : Bool)
      → Sound answer
          (if not (encode v).allowed
            then compile_any u input cs (parts_of a n)
            else if (encode v).sql == ""
            then ok (decided true ((parts_of a n).needs_membership || (encode v).needs_membership))
            else compile_any u input cs (add_part (encode v) (parts_of a n)))
          (or3 (any_acc answer a) (or3 (verdict_truth answer v) t))
  unfolding encode verdict_truth or3 any_acc
  any_step cs t ih (denied m) a n = ih a n
  any_step cs t ih (granted m) a n = λ r e. (
    granted ((parts_of a n).needs_membership || m),
    sym (ok-injective e),
    sym (or3_holds (any_acc answer a)),
  )
  any_step cs t ih (asks m p) a n =
      let same =
        ap (λ s. or3 s t) (any_acc-snoc answer a p)
        ∙ or3_assoc (any_acc answer a) (truth answer p) t in
      rw (add_part-asks a n m p, render-ne-empty p)
        (subst (Sound answer (compile_any u input cs (parts_of (some (snoc a p)) (n || m)))) same
          (ih (some (snoc a p)) (n || m)))

  mutual
    unfolding compile_condition condition_truth all_acc any_acc and3 or3

    condition-Sound :
        (c : Condition)
        → Sound answer (compile_condition u input c) (condition_truth answer u input c)
    condition-Sound (condition field op value cs ds negated') =
        Sound-if answer (not (field == ""))
          (Matches-Sound answer (compile_leaf-Matches u input field op value))
          (Sound-if answer (not (is_nil cs)) (all-Sound cs none false)
            (Sound-if answer (not (is_nil ds)) (any-Sound ds none false) (not-Sound negated')))

    all-Sound :
        (cs : Conditions) (a : Option Predicates) (n : Bool)
        → Sound answer
            (compile_all u input cs (parts_of a n))
            (and3 (all_acc answer a) (all_truth answer u input cs))
    all-Sound nil a n = λ r e. (
      all_verdict a n,
      sym (ok-injective e) ∙ joined-all a n,
      all_verdict-truth a n ∙ sym (and3_holds (all_acc answer a)),
    )
    all-Sound (cons c cs) a n = λ r e.
        let (p, compiled, e₁) = >>=-eq-ok (compile_condition u input c) _ e in
        let (v, same, known) = condition-Sound c p compiled in
        let taken =
          subst
            (λ q.
              (if not q.allowed
                then ok (decided false false)
                else compile_all u input cs (add_part q (parts_of a n)))
              ≡ ok r)
            same e₁ in
        subst (λ t. Means answer r (and3 (all_acc answer a) (and3 t (all_truth answer u input cs))))
          known (all_step cs (all_truth answer u input cs) (all-Sound cs) v a n r taken)

    any-Sound :
        (cs : Conditions) (a : Option Predicates) (n : Bool)
        → Sound answer
            (compile_any u input cs (parts_of a n))
            (or3 (any_acc answer a) (any_truth answer u input cs))
    any-Sound nil a n = λ r e. (
      any_verdict a n,
      sym (ok-injective e) ∙ joined-any a n,
      any_verdict-truth a n ∙ sym (or3_fails (any_acc answer a)),
    )
    any-Sound (cons c cs) a n = λ r e.
        let (p, compiled, e₁) = >>=-eq-ok (compile_condition u input c) _ e in
        let (v, same, known) = condition-Sound c p compiled in
        let taken =
          subst
            (λ q.
              (if not q.allowed
                then compile_any u input cs (parts_of a n)
                else if q.sql == ""
                then ok (decided true ((parts_of a n).needs_membership || q.needs_membership))
                else compile_any u input cs (add_part q (parts_of a n)))
              ≡ ok r)
            same e₁ in
        subst (λ t. Means answer r (or3 (any_acc answer a) (or3 t (any_truth answer u input cs))))
          known (any_step cs (any_truth answer u input cs) (any-Sound cs) v a n r taken)

    not-Sound :
        (negated' : Negated)
        → Sound answer (compile_not u input negated') (not_truth answer u input negated')
    not-Sound absent = λ r e.
        let (same, known) = no_negation in (granted false, sym (ok-injective e) ∙ same, known)
    not-Sound (present c) = λ r e.
        let (p, compiled, e₁) = >>=-eq-ok (compile_condition u input c) _ e in
        let (v, same, known) = condition-Sound c p compiled in
        (
          negated v,
          sym (ok-injective e₁) ∙ ap negate same ∙ negate-encode v,
          negated-truth v ∙ ap not3 known,
        )

-- What a request runs with: no predicate if the condition holds, or one with its truth.
abbrev pub Enforces : (Atom → Truth) → CompiledPredicate → Truth → Type 0
Enforces answer q t =
    ((q.sql ≡ "") × (q.args ≡ []) × (t ≡ holds))
    ⊎ ((p : Predicate) × (q.sql ≡ render p) × (q.args ≡ predicate_args p) × (truth answer p ≡ t))
