-- ===== src/Data/Text.antt =====
-- The functions of Go's `strings` package that api/data calls, and its slices of texts.
pub mod Occurs
use Prim.Native.Nat.{ℕ}
use Prim.Native.Char.{code}
use Prim.Native.String.{String, [], ◌∷◌}
use mathlib.Core.Bool.{Bool, false, ◌&&◌, ◌||◌}
use mathlib.Core.Option.{none, some}
use text.Mathlib.Text.{◌==◌}
use atomicbase.Prelude.{eqb, if◌then◌else◌, cut_prefix, is_some}

-- What the code takes from Go's library as it is: strings.ToLower, strings.EqualFold and the "%d" of
-- fmt.Sprintf.
pub record GoText : Type 0 where
  pub to_lower : String → String
  pub equal_fold : String → String → Bool
  pub itoa : ℕ → String

-- strings.TrimSuffix with a suffix of one code point
unfoldable pub trim_suffix_of : ℕ → String → String
trim_suffix_of k [] = []
trim_suffix_of k (c ∷ s) =
    let rest = trim_suffix_of k s in if (s == "") && eqb (code c) k then [] else c ∷ rest

-- Whether a code point stands in a cutset.
unfoldable pub in_cutset : ℕ → String → Bool
in_cutset k [] = false
in_cutset k (c ∷ s) = let later = in_cutset k s in eqb (code c) k || later

-- strings.TrimRight
unfoldable pub trim_right_cutset : String → String → String
unfolding in_cutset
trim_right_cutset cutset [] = []
trim_right_cutset cutset (c ∷ s) =
    let rest = trim_right_cutset cutset s in
    if in_cutset (code c) cutset && (rest == "") then [] else c ∷ rest

-- s[:len(s)-1]; the empty text, where Go panics, stays.
unfoldable pub drop_last : String → String
drop_last [] = []
drop_last (c ∷ s) = let rest = drop_last s in if s == "" then [] else c ∷ rest

-- strings.Contains
unfoldable pub contains : String → String → Bool
contains [] t = is_some (cut_prefix t [])
contains (c ∷ s) t = let later = contains s t in is_some (cut_prefix t (c ∷ s)) || later
