-- ===== src/Auth/Membership/Rows.antt =====
-- Counting rows through the statements of the membership table.
use atomicbase.Prelude.{
  ◌+◌, ◌≤◌, String, Bool, true, false, ◌≡◌, refl, List, [], ◌∷◌, ◌==◌, any, reject, count_by, arith,
}
use atomicbase.Auth.Types.{OrganizationMember}
use atomicbase.Auth.Membership.{Members, update_rows}

-- `user_id = ?`
abbrev pub has_id : String → OrganizationMember → Bool
has_id uid m = m.user_id == uid

-- `user_id` is a primary key: no two rows share it.
pub record IsKeyed (rows : Members) : Type 0 where
  pub at_most_one : (uid : String) → count_by (has_id uid) rows ≤ 1

pub any-eq-false {ℓ} :
    {A : Type ℓ} (p : A → Bool) (xs : List A) → any p xs ≡ false → count_by p xs ≡ 0
any-eq-false p [] h = refl
any-eq-false p (x ∷ xs) h = ground (arith, any-eq-false p xs)

module _ {ℓ} {A : Type ℓ} (p hit : A → Bool) where
  -- Taking rows away takes at most the rows hit from a count.
  pub count_by-reject : (xs : List A) → count_by p xs ≤ count_by p (reject hit xs) + count_by hit xs
  count_by-reject [] = omega arith
  count_by-reject (x ∷ xs) = ground (arith, count_by-reject xs)

  pub count_by-reject_le : (xs : List A) → count_by p (reject hit xs) ≤ count_by p xs
  count_by-reject_le [] = omega arith
  count_by-reject_le (x ∷ xs) = ground (arith, count_by-reject_le xs)

  -- Rows that the count does not see may go.
  pub count_by-reject_disjoint :
      ((x : A) → hit x ≡ true → p x ≡ false)
      → (xs : List A) → count_by p (reject hit xs) ≡ count_by p xs
  count_by-reject_disjoint h [] = refl
  count_by-reject_disjoint h (x ∷ xs) = ground (arith, count_by-reject_disjoint h xs, h x)

  -- A test that implies another counts no more rows.
  pub count_by_mono :
      ((x : A) → hit x ≡ true → p x ≡ true) → (xs : List A) → count_by hit xs ≤ count_by p xs
  count_by_mono h [] = omega arith
  count_by_mono h (x ∷ xs) = ground (arith, count_by_mono h xs, h x)

module _ (p hit : OrganizationMember → Bool)
    (change : OrganizationMember → OrganizationMember) where
  pub count_by-update_rows :
      (xs : Members) → count_by p xs ≤ count_by p (update_rows hit change xs) + count_by hit xs
  count_by-update_rows [] = omega arith
  count_by-update_rows (x ∷ xs) = ground (arith, count_by-update_rows xs)

  -- A change that keeps every counted row counted loses none.
  pub count_by-update_rows_keep :
      ((x : OrganizationMember) → hit x ≡ true → p x ≡ true → p (change x) ≡ true)
      → (xs : Members) → count_by p xs ≤ count_by p (update_rows hit change xs)
  count_by-update_rows_keep h [] = omega arith
  count_by-update_rows_keep h (x ∷ xs) = ground (arith, count_by-update_rows_keep h xs, h x)

  pub count_by-update_rows_same :
      ((x : OrganizationMember) → p (change x) ≡ p x)
      → (xs : Members) → count_by p (update_rows hit change xs) ≡ count_by p xs
  count_by-update_rows_same h [] = refl
  count_by-update_rows_same h (x ∷ xs) = ground (arith, count_by-update_rows_same h xs, h x)
