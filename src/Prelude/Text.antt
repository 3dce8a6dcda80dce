-- ===== src/Prelude/Text.antt =====
-- The functions of Go's `strings` package that the program calls, over code points.
use Prim.Native.Nat.{ℕ, zero, suc, ◌+◌, ◌*◌}
use Prim.Native.Char.{Char, code}
use Prim.Native.String
use Prim.Native.String.{String, [], ◌∷◌}
use mathlib.Core.Path.{◌≡◌, refl}
use mathlib.Core.Bool.{Bool, true, false, ◌&&◌, ◌||◌}
use mathlib.Core.Option.{Option, none, some}
use mathlib.Core.Logic.{inl, inr}
use mathlib.Core.List.{List}
use native.Mathlib.Omega.{arith}
use text.Mathlib.Text.{◌==◌}
use text.Mathlib.TextEquality.{eq_iff}
use text.Mathlib.TextLemmas.{nil-append, cons-append, cons-ne-nil}
use atomicbase.Prelude.Tests.{Bool-cases, eqb, leb, ltb, if◌then◌else◌}

infixl 65 ◌⊕◌
abbrev pub ◌⊕◌ : String → String → String
s ⊕ t = String.◌++◌ s t

-- The byte order of two texts, in which SQLite's BINARY collation and sort.Strings compare: for
-- UTF-8 it is the order of the code points.
unfoldable pub str_ltb : String → String → Bool
str_ltb s [] = false
str_ltb [] (d ∷ t) = true
str_ltb (c ∷ s) (d ∷ t) =
    let rest = str_ltb s t in
    if ltb (code c) (code d) then true else if ltb (code d) (code c) then false else rest

-- strings.ReplaceAll(s, "'", "''")
unfoldable pub double_quotes : String → String
double_quotes [] = []
double_quotes (c ∷ s) =
    let rest = double_quotes s in if eqb (code c) 39 then c ∷ c ∷ rest else c ∷ rest

-- unicode.IsSpace
abbrev pub is_space : ℕ → Bool
is_space c =
    (leb 9 c && leb c 13)
    || eqb c 32
    || eqb c 0x85
    || eqb c 0xa0
    || eqb c 0x1680
    || (leb 0x2000 c && leb c 0x200a)
    || eqb c 0x2028
    || eqb c 0x2029
    || eqb c 0x202f
    || eqb c 0x205f
    || eqb c 0x3000

trim_left : String → String
trim_left [] = []
trim_left (c ∷ s) = if is_space (code c) then trim_left s else c ∷ s

trim_right : String → String
trim_right [] = []
trim_right (c ∷ s) =
    let rest = trim_right s in if is_space (code c) && (rest == "") then [] else c ∷ rest

-- strings.TrimSpace
unfoldable pub trim_space : String → String
unfolding trim_left trim_right
trim_space s = trim_right (trim_left s)

-- strings.SplitN(s, ".", 2): `none` when there is no dot.
unfoldable pub split_dot : String → Option (String × String)
split_dot [] = none
split_dot (c ∷ s) =
    if eqb (code c) b'.'
    then some ([], s)
    else elim (split_dot s) [ none ↦ none | some (a, b) ↦ some (c ∷ a, b) ]

-- strings.Join
unfoldable pub join : String → List String → String
join sep List.[] = []
join sep (List.◌∷◌ x List.[]) = x
join sep (List.◌∷◌ x (List.◌∷◌ y ys)) = x ⊕ sep ⊕ join sep (List.◌∷◌ y ys)

-- strings.CutPrefix: the rest behind a prefix.
unfoldable pub cut_prefix : String → String → Option String
cut_prefix [] s = some s
cut_prefix (c ∷ p) [] = none
cut_prefix (c ∷ p) (d ∷ s) = if eqb (code c) (code d) then cut_prefix p s else none

-- strings.Repeat
unfoldable pub repeat : String → ℕ → String
repeat s zero = []
repeat s (suc n) = s ⊕ repeat s n

-- strings.TrimRight with a cutset of one code point
unfoldable pub trim_right_of : ℕ → String → String
trim_right_of k [] = []
trim_right_of k (c ∷ s) =
    let rest = trim_right_of k s in if eqb (code c) k && (rest == "") then [] else c ∷ rest

-- strings.HasSuffix for one code point
unfoldable pub ends_in : ℕ → String → Bool
ends_in k [] = false
ends_in k (c ∷ s) = let later = ends_in k s in if s == "" then eqb (code c) k else later

-- How often a code point occurs.
unfoldable pub occurs : ℕ → String → ℕ
occurs k [] = 0
occurs k (c ∷ s) = if eqb (code c) k then suc (occurs k s) else occurs k s

abbrev pub Avoids : ℕ → String → Type 0
Avoids k s = occurs k s ≡ 0

pub occurs-append : (k : ℕ) (s t : String) → occurs k (s ⊕ t) ≡ occurs k s + occurs k t
unfolding occurs
occurs-append k [] t = rw nil-append (omega arith)
occurs-append k (c ∷ s) t = rw cons-append (ground (arith, occurs-append k s t))

-- Splitting at the first dot undoes joining by a dot, if the first part has none.
pub split_dot-append : (s t : String) → Avoids b'.' s → split_dot (s ⊕ "." ⊕ t) ≡ some (s, t)
unfolding split_dot occurs
split_dot-append [] t h = rw (nil-append, cons-append, nil-append)
split_dot-append (c ∷ s) t h = rw (cons-append, cons-append) (ground (arith, split_dot-append s t))

pub occurs-trim_right_of :
    (k j : ℕ) (s : String) → eqb j k ≡ false → occurs k (trim_right_of j s) ≡ occurs k s
unfolding occurs trim_right_of
occurs-trim_right_of k j [] h = refl
occurs-trim_right_of k j (c ∷ s) h =
    ground (arith, occurs-trim_right_of k j s h, eq_iff (trim_right_of j s) "")

pub occurs-repeat : (k : ℕ) (s : String) (n : ℕ) → occurs k (repeat s n) ≡ n * occurs k s
unfolding repeat occurs
occurs-repeat k s zero = omega arith
occurs-repeat k s (suc n) = rw occurs-append (omega (arith, occurs-repeat k s n))

pub cons-ne-empty : (c : Char) (s : String) → ((c ∷ s) == "") ≡ false
cons-ne-empty c s = elim (Bool-cases ((c ∷ s) == "")) [
  | inl e ↦ absurd (cons-ne-nil c s ((eq_iff _ _).0 e))
  | inr e ↦ e
]

-- A text that begins with something is not empty.
pub append-ne-empty : (s t : String) → (s == "") ≡ false → ((s ⊕ t) == "") ≡ false
append-ne-empty [] t h = absurd (cc h)
append-ne-empty (c ∷ s) t h = rw cons-append (cons-ne-empty c (s ⊕ t))

-- The first code points decide.
unfoldable pub leads : String → String → Bool
leads [] t = false
leads (c ∷ s) [] = false
leads (c ∷ s) (d ∷ t) = ltb (code c) (code d)

pub leads-append-left : (s u t : String) → leads s t ≡ true → leads (s ⊕ u) t ≡ true
unfolding leads
leads-append-left [] u t h = absurd (cc h)
leads-append-left (c ∷ s) u [] h = absurd (cc h)
leads-append-left (c ∷ s) u (d ∷ t) h = rw cons-append h

pub leads-append-right : (s t u : String) → leads s t ≡ true → leads s (t ⊕ u) ≡ true
unfolding leads
leads-append-right [] t u h = absurd (cc h)
leads-append-right (c ∷ s) [] u h = absurd (cc h)
leads-append-right (c ∷ s) (d ∷ t) u h = rw cons-append h

pub leads-str_ltb : (s t : String) → leads s t ≡ true → str_ltb s t ≡ true
unfolding leads str_ltb
leads-str_ltb [] t h = absurd (cc h)
leads-str_ltb (c ∷ s) [] h = absurd (cc h)
leads-str_ltb (c ∷ s) (d ∷ t) h = rw h refl
