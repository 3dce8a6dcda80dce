-- ===== src/Prelude/Lists.antt =====
-- Lists measured by native numbers, Boolean searches, and a predicate on every item.
use Prim.Native.Nat.{ℕ, zero, suc, ◌+◌, ◌≤◌}
use mathlib.Core.Path.{◌≡◌, refl}
use mathlib.Core.Bool.{Bool, true, false, ◌||◌, ◌&&◌}
use mathlib.Core.List.{List, [], ◌∷◌, ◌++◌}
use mathlib.Core.Option.{Option, none, some}
use native.Mathlib.Omega.{arith}
use atomicbase.Prelude.Tests.{if◌then◌else◌}

module _ {ℓ} {A : Type ℓ} where
  abbrev pub length : List A → ℕ
  length [] = 0
  length (x ∷ xs) = suc (length xs)

  abbrev pub get_elem? : List A → ℕ → Option A
  get_elem? [] i = none
  get_elem? (x ∷ xs) zero = some x
  get_elem? (x ∷ xs) (suc i) = get_elem? xs i

  abbrev pub any : (A → Bool) → List A → Bool
  any p [] = false
  any p (x ∷ xs) = p x || any p xs

  abbrev pub all : (A → Bool) → List A → Bool
  all p [] = true
  all p (x ∷ xs) = p x && all p xs

  abbrev pub find? : (A → Bool) → List A → Option A
  find? p [] = none
  find? p (x ∷ xs) = if p x then some x else find? p xs

  -- The rows that pass a test, in order.
  abbrev pub select : (A → Bool) → List A → List A
  select p [] = []
  select p (x ∷ xs) = if p x then x ∷ select p xs else select p xs

  -- The rows that fail a test, in order.
  abbrev pub reject : (A → Bool) → List A → List A
  reject p [] = []
  reject p (x ∷ xs) = let rest = reject p xs in if p x then rest else x ∷ rest

  insert_by : (A → A → Bool) → A → List A → List A
  insert_by lt a [] = a ∷ []
  insert_by lt a (x ∷ xs) = if lt x a then x ∷ insert_by lt a xs else a ∷ x ∷ xs

  -- ORDER BY, and sort.Strings
  unfoldable pub sort_by : (A → A → Bool) → List A → List A
  unfolding insert_by
  sort_by lt [] = []
  sort_by lt (x ∷ xs) = insert_by lt x (sort_by lt xs)

  any-insert_by :
      (p : A → Bool) (lt : A → A → Bool) (a : A) (xs : List A)
      → any p (insert_by lt a xs) ≡ (p a || any p xs)
  unfolding insert_by
  any-insert_by p lt a [] = refl
  any-insert_by p lt a (x ∷ xs) = ground (arith, any-insert_by p lt a xs)

  pub any-sort_by :
      (p : A → Bool) (lt : A → A → Bool) (xs : List A) → any p (sort_by lt xs) ≡ any p xs
  unfolding sort_by
  any-sort_by p lt [] = refl
  any-sort_by p lt (x ∷ xs) =
      ground (arith, any-insert_by p lt x (sort_by lt xs), any-sort_by p lt xs)

  -- How many rows pass a test.
  abbrev pub count_by : (A → Bool) → List A → ℕ
  count_by p [] = 0
  count_by p (x ∷ xs) = if p x then suc (count_by p xs) else count_by p xs

  pub length-append : (xs ys : List A) → length (xs ++ ys) ≡ length xs + length ys
  length-append [] ys = omega arith
  length-append (x ∷ xs) ys = omega (arith, length-append xs ys)

  pub count_by-append :
      (p : A → Bool) (xs ys : List A) → count_by p (xs ++ ys) ≡ count_by p xs + count_by p ys
  count_by-append p [] ys = omega arith
  count_by-append p (x ∷ xs) ys = ground (arith, count_by-append p xs ys)

  pub count_by-le-length : (p : A → Bool) (xs : List A) → count_by p xs ≤ length xs
  count_by-le-length p [] = omega arith
  count_by-le-length p (x ∷ xs) = ground (arith, count_by-le-length p xs)

module _ {ℓ κ} {A : Type ℓ} (P : A → Type κ) where
  abbrev pub All : List A → Type κ
  All [] = Unit
  All (x ∷ xs) = P x × All xs

  pub All-append : (xs ys : List A) → All xs → All ys → All (xs ++ ys)
  All-append [] ys hx hy = hy
  All-append (x ∷ xs) ys hx hy = (hx.0, All-append xs ys hx.1 hy)
