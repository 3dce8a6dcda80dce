-- ===== src/Data/Aggregation/Chunks.antt =====
-- Grouping loses no pair and fills no group beyond the limit.
use mathlib.Core.Path.{subst}
use mathlib.Core.List.{append-nil, append_assoc}
use atomicbase.Prelude.{
  ℕ, zero, suc, ◌≤◌, String, ◌≡◌, refl, sym, List, [], ◌∷◌, ◌++◌, ◌⊕◌, join, length, leb, arith,
  inl, inr, Bool-cases, if_true, if_false, All, occurs, occurs-append,
}
use atomicbase.Definitions.Compiler.Placeholders.{marks-around}
use atomicbase.Data.Clean.{IsCleanName}
use atomicbase.Data.Where.Placeholders.{marks-join, marks_all}
use atomicbase.Data.Aggregation.{
  max_select_columns, first_of, rest_of, chunks, json_object, patched, patched_chunks,
  build_json_aggregation,
}

module _ {ℓ} {A : Type ℓ} where
  abbrev pub flat : List (List A) → List A
  flat [] = []
  flat (xs ∷ xss) = xs ++ flat xss

  first_of-rest_of : (n : ℕ) (xs : List A) → first_of n xs ++ rest_of n xs ≡ xs
  unfolding first_of rest_of
  first_of-rest_of zero xs = refl
  first_of-rest_of (suc n) [] = refl
  first_of-rest_of (suc n) (x ∷ xs) = rw (first_of-rest_of n xs) refl

  length-first_of : (n : ℕ) (xs : List A) → length (first_of n xs) ≤ n
  unfolding first_of
  length-first_of zero xs = omega arith
  length-first_of (suc n) [] = omega arith
  length-first_of (suc n) (x ∷ xs) = omega (arith, length-first_of n xs)

  length-rest_of : (n : ℕ) (xs : List A) → length (rest_of n xs) ≤ length xs
  unfolding rest_of
  length-rest_of zero xs = omega arith
  length-rest_of (suc n) [] = omega arith
  length-rest_of (suc n) (x ∷ xs) = omega (arith, length-rest_of n xs)

  -- As many rounds as pairs are enough.
  flat-chunks : (fuel : ℕ) (xs : List A) → length xs ≤ fuel → flat (chunks fuel xs) ≡ xs
  unfolding chunks rest_of
  flat-chunks fuel [] h = refl
  flat-chunks zero (x ∷ xs) h = absurd (omega (arith, h))
  flat-chunks (suc fuel) (x ∷ xs) h =
      rw
        (flat-chunks fuel (rest_of max_select_columns (x ∷ xs))
          (omega (arith, h, length-rest_of 49 xs)))
        (first_of-rest_of max_select_columns (x ∷ xs))

  length-chunks :
      (fuel : ℕ) (xs : List A) → All (λ chunk. length chunk ≤ max_select_columns) (chunks fuel xs)
  unfolding chunks
  length-chunks fuel [] = tt
  length-chunks zero (x ∷ xs) = tt
  length-chunks (suc fuel) (x ∷ xs) = (
    length-first_of max_select_columns (x ∷ xs),
    length-chunks fuel (rest_of max_select_columns (x ∷ xs)),
  )

-- A JSON expression: an object of pairs, or one that another is merged into.
pub data Expression : Type 0 where
  object : List String → Expression
  patch : Expression → Expression → Expression

abbrev pub sql_of : Expression → String
sql_of (object pairs) = "json_object(" ⊕ join ", " pairs ⊕ ")"
sql_of (patch a b) = "json_patch(" ⊕ sql_of a ⊕ ", " ⊕ sql_of b ⊕ ")"

abbrev pub pairs_of : Expression → List String
pairs_of (object pairs) = pairs
pairs_of (patch a b) = pairs_of a ++ pairs_of b

-- No call has more pairs than SQLite accepts.
abbrev pub IsSmall : Expression → Type 0
IsSmall (object pairs) = length pairs ≤ max_select_columns
IsSmall (patch a b) = IsSmall a × IsSmall b

-- An expression with these texts and pairs.
pub record Prints (sql : String) (pairs : List String) : Type 0 where
  pub json : Expression
  pub printed : sql ≡ sql_of json
  pub kept : pairs_of json ≡ pairs
  pub small : IsSmall json

patched-Prints :
    (groups : List (List String)) (json : Expression)
    → IsSmall json
    → All (λ group. length group ≤ max_select_columns) groups
    → Prints (patched (sql_of json) groups) (pairs_of json ++ flat groups)
unfolding patched json_object
patched-Prints [] json s h = record {
  json = json;
  printed = refl;
  kept = sym (append-nil (pairs_of json));
  small = s;
}
patched-Prints (group ∷ groups) json s h =
    rw (← append_assoc (pairs_of json) group (flat groups))
      (patched-Prints groups (patch json (object group)) (s, h.0) h.1)

patched_chunks-Prints :
    (groups : List (List String))
    → All (λ group. length group ≤ max_select_columns) groups
    → Prints (patched_chunks groups) (flat groups)
unfolding json_object join
patched_chunks-Prints [] h = record {
  json = object [];
  printed = refl;
  kept = refl;
  small = omega arith;
}
patched_chunks-Prints (group ∷ groups) h = patched-Prints groups (object group) h.0 h.1

-- The expression for a list of pairs is the text of calls of json_object, merged by json_patch, that
-- hold all the pairs in their order, each call at most 50.
pub build_json_aggregation-Prints :
    (pairs : List String) → Prints (build_json_aggregation pairs) pairs
unfolding build_json_aggregation json_object join
build_json_aggregation-Prints [] = record {
  json = object [];
  printed = refl;
  kept = refl;
  small = omega arith;
}
build_json_aggregation-Prints (p ∷ ps) =
    elim (Bool-cases (leb (length (p ∷ ps)) max_select_columns)) [
      | inl small ↦ rw (if_true _ _ _ small) (record {
        json = object (p ∷ ps);
        printed = refl;
        kept = refl;
        small = ground (arith, small);
      })
      | inr large ↦ rw (if_false _ _ _ large) (
          subst (λ xs. Prints (patched_chunks (chunks (length (p ∷ ps)) (p ∷ ps))) xs)
            (flat-chunks _ (p ∷ ps) (omega arith))
            (patched_chunks-Prints _ (length-chunks _ (p ∷ ps))))
    ]

-- Pairs without a "?" make an expression without one.
All-first_of : (n : ℕ) (xs : List String) → All IsCleanName xs → All IsCleanName (first_of n xs)
unfolding first_of
All-first_of zero xs h = tt
All-first_of (suc n) [] h = tt
All-first_of (suc n) (x ∷ xs) h = (h.0, All-first_of n xs h.1)

All-rest_of : (n : ℕ) (xs : List String) → All IsCleanName xs → All IsCleanName (rest_of n xs)
unfolding rest_of
All-rest_of zero xs h = h
All-rest_of (suc n) [] h = tt
All-rest_of (suc n) (x ∷ xs) h = All-rest_of n xs h.1

All-chunks :
    (fuel : ℕ) (xs : List String) → All IsCleanName xs → All (All IsCleanName) (chunks fuel xs)
unfolding chunks
All-chunks fuel [] h = tt
All-chunks zero (x ∷ xs) h = tt
All-chunks (suc fuel) (x ∷ xs) h = (
  All-first_of max_select_columns (x ∷ xs) h,
  All-chunks fuel _ (All-rest_of max_select_columns (x ∷ xs) h),
)

marks_all-IsClean : (ss : List String) → All IsCleanName ss → marks_all ss ≡ 0
marks_all-IsClean [] h = refl
marks_all-IsClean (s ∷ ss) h = omega (arith, h.0, marks_all-IsClean ss h.1)

json_object-IsClean :
    (pairs : List String) → All IsCleanName pairs → IsCleanName (json_object pairs)
unfolding json_object occurs
json_object-IsClean pairs h =
    rw (marks-around, marks-join ", " pairs refl) (omega (arith, marks_all-IsClean pairs h))

patched-IsClean :
    (groups : List (List String)) (result : String)
    → IsCleanName result
    → All (All IsCleanName) groups
    → IsCleanName (patched result groups)
unfolding patched occurs
patched-IsClean [] result r h = r
patched-IsClean (group ∷ groups) result r h =
    patched-IsClean groups _
      (rw (occurs-append, occurs-append, marks-around)
        (omega (arith, r, json_object-IsClean group h.0)))
      h.1

patched_chunks-IsClean :
    (groups : List (List String))
    → All (All IsCleanName) groups
    → IsCleanName (patched_chunks groups)
unfolding occurs
patched_chunks-IsClean [] h = refl
patched_chunks-IsClean (group ∷ groups) h =
    patched-IsClean groups _ (json_object-IsClean group h.0) h.1

pub build_json_aggregation-IsClean :
    (pairs : List String) → All IsCleanName pairs → IsCleanName (build_json_aggregation pairs)
unfolding build_json_aggregation occurs
build_json_aggregation-IsClean [] h = refl
build_json_aggregation-IsClean (p ∷ ps) h =
    elim (Bool-cases (leb (length (p ∷ ps)) max_select_columns)) [
      | inl small ↦ rw (if_true _ _ _ small) (json_object-IsClean (p ∷ ps) h)
      | inr large ↦
          rw (if_false _ _ _ large)
            (patched_chunks-IsClean _ (All-chunks (length (p ∷ ps)) (p ∷ ps) h))
    ]
