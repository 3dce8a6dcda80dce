-- ===== src/Tools/Validation.antt =====
-- api/tools/validation.go: identifiers, resource names and DDL statements.
use Prim.Native.Char.{code}
use Prim.Native.String.{[], ◌∷◌}
use atomicbase.Prelude.{
  ℕ, ◌+◌, String, Bool, true, false, not, ◌&&◌, ◌||◌, ◌≡◌, Option, none, some, ◌==◌, eqb, leb, ltb,
  arith, if◌then◌else◌, occurs, Bool-cases, inl, inr, refl,
}
use atomicbase.Result.{Result, ok, other_error, require, ◌>>◌}

-- The classes of Go's `unicode` package.
pub record Unicode : Type 0 where
  pub is_letter : ℕ → Bool
  pub is_digit : ℕ → Bool

-- What the program relies on: only letters and digits are classed as such, at the code points that
-- mean something in SQL text.
pub record IsPlain (u : Unicode) (c : ℕ) : Type 0 where
  pub no_letter : u.is_letter c ≡ false
  pub no_digit : u.is_digit c ≡ false

abbrev pub max_identifier_length : ℕ
max_identifier_length = 128

abbrev starts : Unicode → ℕ → Bool
starts u r = u.is_letter r || eqb r b'_'

abbrev continues : Unicode → ℕ → Bool
continues u r = u.is_letter r || u.is_digit r || eqb r b'_'

all_continue : Unicode → String → Bool
all_continue u [] = true
all_continue u (r ∷ s) = continues u (code r) && all_continue u s

-- The loop over `range name`: the first code point, and the others.
valid_characters : Unicode → String → Bool
unfolding all_continue
valid_characters u [] = true
valid_characters u (r ∷ s) = starts u (code r) && all_continue u s

-- len(name): the bytes of the text in UTF-8.
byte_len : String → ℕ
byte_len [] = 0
byte_len (c ∷ s) =
    (if ltb (code c) 128
      then 1
      else if ltb (code c) 2048
      then 2
      else if ltb (code c) 65536
      then 3
      else 4)
    + byte_len s

unfoldable pub validate_identifier : Unicode → String → Result (Unit {0})
unfolding valid_characters byte_len
validate_identifier u name = do
  require (not (name == "")) (other_error "identifier cannot be empty")
  require (not (ltb max_identifier_length (byte_len name)))
      (other_error "identifier exceeds maximum length")
  require (valid_characters u name) (other_error "identifier contains invalid characters")

abbrev pub max_resource_name_len : ℕ
max_resource_name_len = 64

resource_character : ℕ → Bool
resource_character c = (leb b'a' c && leb c b'z') || (leb b'0' c && leb c b'9') || eqb c b'-'

resource_characters : String → Bool
unfolding resource_character
resource_characters [] = true
resource_characters (c ∷ s) = resource_character (code c) && resource_characters s

-- The message of a refusal; the code and the hint that go with it are constants.
unfoldable pub validate_resource_name : String → Option String
unfolding resource_characters byte_len
validate_resource_name name =
    if name == ""
    then some "name cannot be empty"
    else if ltb max_resource_name_len (byte_len name)
    then some "name exceeds maximum length of 64 characters"
    else if resource_characters name
    then none
    else some "name contains invalid characters"

module _ (u : Unicode) (c : ℕ) (plain : IsPlain u c) (ne : eqb c b'_' ≡ false) where
  different : (r : ℕ) → continues u r ≡ true → eqb r c ≡ false
  different r h = elim (Bool-cases (eqb r c)) [
    | inl same ↦
        let e : r ≡ c = ground arith in
        absurd (ground (arith, plain.no_letter, plain.no_digit, rw e at h))
    | inr other ↦ other
  ]

  occurs-all_continue : (s : String) → all_continue u s ≡ true → occurs c s ≡ 0
  unfolding all_continue occurs
  occurs-all_continue [] h = refl
  occurs-all_continue (r ∷ s) h = ground (arith, occurs-all_continue s, different (code r))

  occurs-valid_characters : (s : String) → valid_characters u s ≡ true → occurs c s ≡ 0
  unfolding valid_characters occurs
  occurs-valid_characters [] h = refl
  occurs-valid_characters (r ∷ s) h = ground (arith, occurs-all_continue s, different (code r))

  -- An accepted identifier holds no code point that is no letter, digit or underscore.
  pub occurs-validate_identifier :
      (name : String) {done : Unit {0}} → validate_identifier u name ≡ ok done → occurs c name ≡ 0
  unfolding validate_identifier
  occurs-validate_identifier name h = occurs-valid_characters name (ground arith)
