-- ===== src/Result.antt =====
-- api/tools/errors.go: the errors that the modelled operations return, and Go's pair of a value
-- and an error as one type.
use mathlib.Core.Path.{subst}
use atomicbase.Prelude.{
  Option, none, some, String, Bool, true, false, ◌≡◌, refl, ◌⊎◌, inl, inr, if◌then◌else◌,
}

pub data Error : Type 0 where
  -- tools.UnauthorizedErr, tools.InvalidRequestErr
  unauthorized invalid_request : String → Error
  -- tools.ErrDatabaseNotFound
  database_not_found : Error
  -- an error of a driver, of the network or of fmt.Errorf
  other_error : String → Error

pub data Result {ℓ} (A : Type ℓ) : Type ℓ where
  err : Error → Result A
  ok : A → Result A

-- The error that a call answers with.
abbrev pub error_of {ℓ} : {A : Type ℓ} → Result A → Option Error
error_of (err e) = some e
error_of (ok a) = none

-- `if !b { return e }`
abbrev pub require : Bool → Error → Result (Unit {0})
require b e = if b then ok tt else err e

pub Result-cases {ℓ} :
    {A : Type ℓ} (r : Result A) → ((a : A) × (r ≡ ok a)) ⊎ ((e : Error) × (r ≡ err e))
Result-cases (err e) = inr (e, refl)
Result-cases (ok a) = inl (a, refl)

infixl 5 ◌>>=◌ ◌>>◌
-- `if err != nil { return err }` between two calls.
abbrev pub ◌>>=◌ {ℓ κ} : {A : Type ℓ} {B : Type κ} → Result A → (A → Result B) → Result B
err failure >>= next = err failure
ok value >>= next = next value

pub ok-injective {ℓ} : {A : Type ℓ} {a b : A} → ok a ≡ ok b → a ≡ b
ok-injective h = cc

abbrev pub ◌>>◌ {ℓ} : {B : Type ℓ} → Result (Unit {0}) → Result B → Result B
first >> second = first >>= λ _. second

-- A successful chain: the first step succeeded, and so did the rest from its value.
pub >>=-eq-ok {ℓ κ} :
    {A : Type ℓ} {B : Type κ} (first : Result A) (rest : A → Result B) {answer : B}
    → (first >>= rest) ≡ ok answer
    → (value : A) × (first ≡ ok value) × (rest value ≡ ok answer)
>>=-eq-ok (err failure) rest h = cc
>>=-eq-ok (ok value) rest h = (value, refl, h)

-- What holds of the value, if there is one.
abbrev pub Holds {ℓ κ} : {A : Type ℓ} → (A → Type κ) → Result A → Type κ
Holds P (err e) = Unit
Holds P (ok a) = P a

pub Holds->>= {ℓ κ μ} :
    {A : Type ℓ} {B : Type κ} (P : B → Type μ) (first : Result A) (rest : A → Result B)
    → ((a : A) → first ≡ ok a → Holds P (rest a))
    → Holds P (first >>= rest)
Holds->>= P (err e) rest h = tt
Holds->>= P (ok a) rest h = h a refl

pub Holds-if {ℓ κ} :
    {A : Type ℓ} (P : A → Type κ) (b : Bool) (x y : Result A)
    → Holds P x
    → Holds P y
    → Holds P (if b then x else y)
Holds-if P true x y hx hy = hx
Holds-if P false x y hx hy = hy

pub Holds-ok {ℓ κ} :
    {A : Type ℓ} (P : A → Type κ) {r : Result A} {a : A} → Holds P r → r ≡ ok a → P a
Holds-ok P h e = subst (Holds P) e h

pub Holds-value {ℓ κ} :
    {A : Type ℓ} (P : A → Type κ) (r : Result A) → ((a : A) → r ≡ ok a → P a) → Holds P r
Holds-value P (err e) h = tt
Holds-value P (ok a) h = h a refl
