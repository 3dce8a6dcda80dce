-- ===== src/Data/Aggregation.antt =====
-- api/data/build_query.go: pairs of a JSON object, in calls that SQLite accepts.
pub mod Chunks
use atomicbase.Prelude.{
  ℕ, zero, suc, String, Bool, List, [], ◌∷◌, ◌==◌, ◌⊕◌, leb, join, length, if◌then◌else◌,
}

abbrev pub max_select_columns : ℕ
max_select_columns = 50

module _ {ℓ} {A : Type ℓ} where
  -- xs[:n], with n cut to the length
  unfoldable pub first_of : ℕ → List A → List A
  first_of zero xs = []
  first_of (suc n) [] = []
  first_of (suc n) (x ∷ xs) = x ∷ first_of n xs

  -- xs[n:], likewise
  unfoldable pub rest_of : ℕ → List A → List A
  rest_of zero xs = xs
  rest_of (suc n) [] = []
  rest_of (suc n) (x ∷ xs) = rest_of n xs

  -- pairs[i:end] for i = 0, 50, 100, ...; the first number bounds the rounds.
  unfoldable pub chunks : ℕ → List A → List (List A)
  unfolding first_of rest_of
  chunks fuel [] = []
  chunks zero (x ∷ xs) = []
  chunks (suc fuel) (x ∷ xs) =
      first_of max_select_columns (x ∷ xs) ∷ chunks fuel (rest_of max_select_columns (x ∷ xs))

unfoldable pub json_object : List String → String
json_object pairs = "json_object(" ⊕ join ", " pairs ⊕ ")"

-- json_patch(json_patch(a, b), c)
unfoldable pub patched : String → List (List String) → String
patched result [] = result
patched result (chunk ∷ rest) =
    patched ("json_patch(" ⊕ result ⊕ ", " ⊕ json_object chunk ⊕ ")") rest

abbrev pub patched_chunks : List (List String) → String
patched_chunks [] = "json_object()"
patched_chunks (chunk ∷ rest) = patched (json_object chunk) rest

unfoldable pub build_json_aggregation : List String → String
build_json_aggregation [] = "json_object()"
build_json_aggregation (p ∷ ps) =
    if leb (length (p ∷ ps)) max_select_columns
    then json_object (p ∷ ps)
    else patched_chunks (chunks (length (p ∷ ps)) (p ∷ ps))
