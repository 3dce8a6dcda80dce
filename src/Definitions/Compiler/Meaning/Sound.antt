-- ===== src/Definitions/Compiler/Meaning/Sound.antt =====
-- The loops of compileCondition as verdicts, and their truth.
use atomicbase.Prelude.{
  String, Bool, true, false, ◌||◌, List, [], ◌∷◌, ◌++◌, ◌⊕◌, join, ◌≡◌, refl, sym, Option, none,
  some, if◌then◌else◌,
}
use atomicbase.Result.{Result, ok, ok-injective}
use atomicbase.Definitions.Types.{Value}
use atomicbase.Definitions.Compiler.Leaf.{Compiled}
use atomicbase.Definitions.Compiler.{Parts, add_part, joined_parts, joined, negate}
use atomicbase.Definitions.Compiler.Predicate.{
  Atom, Predicate, all_of, any_of, negation, Predicates, one, more, render, render_each,
  predicate_args, each_args, Verdict, denied, granted, asks, encode, Truth, holds, fails, unknown,
  and3, or3, truth, truth_all, truth_any, verdict_truth, render-ne-empty,
}
use atomicbase.Definitions.Compiler.Meaning.{result_truth}
use atomicbase.Definitions.Compiler.Meaning.Leaves.{Matches, refuses, agrees}

pub and3_holds : (t : Truth) → and3 t holds ≡ t
unfolding and3
and3_holds holds = refl
and3_holds fails = refl
and3_holds unknown = refl

pub and3_fails : (t : Truth) → and3 t fails ≡ fails
unfolding and3
and3_fails holds = refl
and3_fails fails = refl
and3_fails unknown = refl

pub and3_assoc : (s t w : Truth) → and3 (and3 s t) w ≡ and3 s (and3 t w)
unfolding and3
and3_assoc holds t w = refl
and3_assoc fails t w = refl
and3_assoc unknown holds w = refl
and3_assoc unknown fails w = refl
and3_assoc unknown unknown holds = refl
and3_assoc unknown unknown fails = refl
and3_assoc unknown unknown unknown = refl

pub or3_fails : (t : Truth) → or3 t fails ≡ t
unfolding or3
or3_fails holds = refl
or3_fails fails = refl
or3_fails unknown = refl

pub or3_holds : (t : Truth) → or3 t holds ≡ holds
unfolding or3
or3_holds holds = refl
or3_holds fails = refl
or3_holds unknown = refl

pub or3_assoc : (s t w : Truth) → or3 (or3 s t) w ≡ or3 s (or3 t w)
unfolding or3
or3_assoc holds t w = refl
or3_assoc fails t w = refl
or3_assoc unknown holds w = refl
or3_assoc unknown fails w = refl
or3_assoc unknown unknown holds = refl
or3_assoc unknown unknown fails = refl
or3_assoc unknown unknown unknown = refl

-- The loop variables after these children.
abbrev pub parts_of : Option Predicates → Bool → Parts
parts_of none n = record { parts = []; args = []; needs_membership = n }
parts_of (some ps) n = record { parts = render_each ps; args = each_args ps; needs_membership = n }

abbrev pub snoc : Option Predicates → Predicate → Predicates
snoc none p = one p
snoc (some ps) p = more ps p

pub add_part-asks :
    (a : Option Predicates) (n m : Bool) (p : Predicate)
    → add_part (encode (asks m p)) (parts_of a n) ≡ parts_of (some (snoc a p)) (n || m)
unfolding encode render_each each_args
add_part-asks none n m p = rw (render-ne-empty p) refl
add_part-asks (some ps) n m p = rw (render-ne-empty p) refl

pub add_part-granted :
    (a : Option Predicates) (n m : Bool)
    → add_part (encode (granted m)) (parts_of a n) ≡ parts_of a (n || m)
unfolding encode
add_part-granted none n m = refl
add_part-granted (some ps) n m = refl

joined_parts-append :
    (sep : String) (empty : Bool) (xs : List String) (x : String) (args : List Value) (n : Bool)
    → joined_parts sep empty (xs ++ x ∷ []) args n ≡ record {
      sql = "(" ⊕ join sep (xs ++ x ∷ []) ⊕ ")";
      args = args;
      allowed = true;
      needs_membership = n;
    }
joined_parts-append sep empty [] x args n = refl
joined_parts-append sep empty (y ∷ ys) x args n = refl

unfoldable pub all_verdict : Option Predicates → Bool → Verdict
all_verdict none n = granted n
all_verdict (some ps) n = asks n (all_of ps)

unfoldable pub any_verdict : Option Predicates → Bool → Verdict
any_verdict none n = denied n
any_verdict (some ps) n = asks n (any_of ps)

pub joined-all :
    (a : Option Predicates) (n : Bool)
    → joined " AND " true (parts_of a n) ≡ encode (all_verdict a n)
unfolding encode render render_each predicate_args all_verdict
joined-all none n = refl
joined-all (some (one p)) n = refl
joined-all (some (more ps p)) n = joined_parts-append " AND " true (render_each ps) (render p) _ n

pub joined-any :
    (a : Option Predicates) (n : Bool)
    → joined " OR " false (parts_of a n) ≡ encode (any_verdict a n)
unfolding encode render render_each predicate_args any_verdict
joined-any none n = refl
joined-any (some (one p)) n = refl
joined-any (some (more ps p)) n = joined_parts-append " OR " false (render_each ps) (render p) _ n

unfoldable pub negated : Verdict → Verdict
negated (denied m) = granted m
negated (granted m) = denied m
negated (asks m p) = asks m (negation p)

pub negate-encode : (v : Verdict) → negate (encode v) ≡ encode (negated v)
unfolding encode negated render predicate_args
negate-encode (denied m) = refl
negate-encode (granted m) = refl
negate-encode (asks m p) = rw (render-ne-empty p) refl

module _ (answer : Atom → Truth) where
  -- The result is a verdict with this truth.
  abbrev pub Means : Compiled → Truth → Type 0
  Means r t = (v : Verdict) × (r ≡ encode v) × (verdict_truth answer v ≡ t)

  abbrev pub Sound : Result Compiled → Truth → Type 0
  Sound x t = (r : Compiled) → x ≡ ok r → Means r t

  pub Sound-if :
      (b : Bool) {x y : Result Compiled} {t s : Truth}
      → Sound x t
      → Sound y s
      → Sound (if b then x else y) (if b then t else s)
  Sound-if true h k = h
  Sound-if false h k = k

  pub Matches-Sound :
      {x : Result Compiled} {w : Result Verdict} → Matches x w → Sound x (result_truth answer w)
  Matches-Sound (refuses e) = λ r bad. absurd (cc bad)
  Matches-Sound (agrees v) = λ r e. (v, sym (ok-injective e), refl)

  unfoldable pub all_acc : Option Predicates → Truth
  all_acc none = holds
  all_acc (some ps) = truth_all answer ps

  unfoldable pub any_acc : Option Predicates → Truth
  any_acc none = fails
  any_acc (some ps) = truth_any answer ps

  pub all_acc-snoc :
      (a : Option Predicates) (p : Predicate)
      → truth_all answer (snoc a p) ≡ and3 (all_acc a) (truth answer p)
  unfolding all_acc truth and3
  all_acc-snoc none p = refl
  all_acc-snoc (some ps) p = refl

  pub any_acc-snoc :
      (a : Option Predicates) (p : Predicate)
      → truth_any answer (snoc a p) ≡ or3 (any_acc a) (truth answer p)
  unfolding any_acc truth or3
  any_acc-snoc none p = refl
  any_acc-snoc (some ps) p = refl
