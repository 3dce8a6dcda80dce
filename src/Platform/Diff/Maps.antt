-- ===== src/Platform/Diff/Maps.antt =====
-- Go maps as lists of pairs: keys that occur once.
use atomicbase.Prelude.{
  String, false, List, [], ◌∷◌, none, some, ◌==◌, ◌≡◌, refl, ◌∙◌, if_cases, arith, eq_iff, eq_refl,
  All,
}
use atomicbase.Platform.Schema.{lookup, put, by_name}

-- No key occurs twice.
abbrev pub IsKeyed {ℓ} : {A : Type ℓ} → List (String × A) → Type ℓ
IsKeyed [] = Unit
IsKeyed ((k, v) ∷ m) = (lookup k m ≡ none) × IsKeyed m

-- Each of these items is what the map holds under its key.
abbrev pub IsHeldBy {ℓ} : {A : Type ℓ} → List (String × A) → List (String × A) → Type ℓ
IsHeldBy m xs = All (λ e. lookup e.0 m ≡ some e.1) xs

eq_flip : (s t : String) → (s == t) ≡ false → (t == s) ≡ false
eq_flip s t e = ground (arith, eq_iff s t, eq_iff t s)

module _ {ℓ} {A : Type ℓ} where
  held_behind :
      (k : String) (v : A) (m xs : List (String × A))
      → lookup k m ≡ none
      → IsHeldBy m xs
      → IsHeldBy ((k, v) ∷ m) xs
  unfolding lookup
  held_behind k v m [] fresh h = tt
  held_behind k v m ((j, w) ∷ xs) fresh h =
      (ground (arith, eq_iff k j, h.0), held_behind k v m xs fresh h.1)

  pub IsKeyed-IsHeldBy : (m : List (String × A)) → IsKeyed m → IsHeldBy m m
  unfolding lookup
  IsKeyed-IsHeldBy [] h = tt
  IsKeyed-IsHeldBy ((k, v) ∷ m) h =
      (rw eq_refl refl, held_behind k v m m h.0 (IsKeyed-IsHeldBy m h.1))

  pub lookup-put : (k : String) (v : A) (m : List (String × A)) → lookup k (put k v m) ≡ some v
  unfolding lookup put
  lookup-put k v [] = rw eq_refl refl
  lookup-put k v ((i, w) ∷ m) = ground (arith, lookup-put k v m)

  pub lookup-put-other :
      (j k : String) (v : A) (m : List (String × A))
      → (k == j) ≡ false
      → lookup j (put k v m) ≡ lookup j m
  unfolding lookup put
  lookup-put-other j k v [] h = ground arith
  lookup-put-other j k v ((i, w) ∷ m) h =
      ground (arith, lookup-put-other j k v m h, eq_iff i k, eq_iff i j, eq_iff k j)

  pub put-IsKeyed : (k : String) (v : A) (m : List (String × A)) → IsKeyed m → IsKeyed (put k v m)
  unfolding lookup put
  put-IsKeyed k v [] h = (refl, tt)
  put-IsKeyed k v ((j, w) ∷ m) h =
      if_cases IsKeyed (j == k) (λ e. h)
        (λ e. (lookup-put-other j k v m (eq_flip j k e) ∙ h.0, put-IsKeyed k v m h.1))

  pub by_name-IsKeyed :
      (name : A → String) (xs : List A) (m : List (String × A))
      → IsKeyed m
      → IsKeyed (by_name name xs m)
  unfolding by_name
  by_name-IsKeyed name [] m h = h
  by_name-IsKeyed name (x ∷ xs) m h = by_name-IsKeyed name xs _ (put-IsKeyed (name x) x m h)

module _ {ℓ κ} {A : Type ℓ} (P : A → Type κ) where
  pub put-All :
      (k : String) (v : A) (m : List (String × A))
      → P v
      → All (λ e. P e.1) m
      → All (λ e. P e.1) (put k v m)
  unfolding put
  put-All k v [] p h = (p, tt)
  put-All k v ((j, w) ∷ m) p h =
      if_cases (All (λ e. P e.1)) (j == k) (λ e. (p, h.1)) (λ e. (h.0, put-All k v m p h.1))

  pub by_name-All :
      (name : A → String) (xs : List A) (m : List (String × A))
      → All P xs
      → All (λ e. P e.1) m
      → All (λ e. P e.1) (by_name name xs m)
  unfolding by_name
  by_name-All name [] m h held = held
  by_name-All name (x ∷ xs) m h held = by_name-All name xs _ h.1 (put-All (name x) x m h.0 held)
