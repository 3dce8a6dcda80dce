-- ===== src/Data/Text/Occurs.antt =====
-- How often a code point occurs in what is left of a text.
use Prim.Native.Char.{code}
use Prim.Native.String.{[], ◌∷◌}
use text.Mathlib.TextLemmas.{nil-append, cons-append, append-nil}
use atomicbase.Prelude.{
  ℕ, String, true, false, ◌≡◌, refl, ◌==◌, ◌⊕◌, eqb, arith, eq_iff, occurs, cons-ne-empty,
}
use atomicbase.Data.Text.{trim_suffix_of, trim_right_cutset, in_cutset, drop_last}

pub occurs-trim_suffix_of :
    (k j : ℕ) (s : String) → eqb j k ≡ false → occurs k (trim_suffix_of j s) ≡ occurs k s
unfolding trim_suffix_of occurs
occurs-trim_suffix_of k j [] h = refl
occurs-trim_suffix_of k j (c ∷ s) h = ground (arith, occurs-trim_suffix_of k j s h, eq_iff s "")

in_cutset-absent :
    (k : ℕ) (cutset : String) (c : ℕ)
    → occurs k cutset ≡ 0
    → in_cutset c cutset ≡ true
    → eqb c k ≡ false
unfolding in_cutset occurs
in_cutset-absent k [] c h e = absurd (cc e)
in_cutset-absent k (d ∷ cutset) c h e = ground (arith, in_cutset-absent k cutset c)

pub occurs-trim_right_cutset :
    (k : ℕ) (cutset s : String)
    → occurs k cutset ≡ 0
    → occurs k (trim_right_cutset cutset s) ≡ occurs k s
unfolding trim_right_cutset occurs
occurs-trim_right_cutset k cutset [] h = refl
occurs-trim_right_cutset k cutset (c ∷ s) h = ground (
  arith,
  occurs-trim_right_cutset k cutset s h,
  in_cutset-absent k cutset (code c),
  eq_iff (trim_right_cutset cutset s) "",
)

append-ne-empty_right : (s t : String) → (t == "") ≡ false → ((s ⊕ t) == "") ≡ false
append-ne-empty_right [] t h = rw nil-append h
append-ne-empty_right (c ∷ s) t h = rw cons-append (cons-ne-empty c (s ⊕ t))

drop_last-append : (s t : String) → (t == "") ≡ false → drop_last (s ⊕ t) ≡ s ⊕ drop_last t
unfolding drop_last
drop_last-append [] t h = rw (nil-append, nil-append) refl
drop_last-append (c ∷ s) t h =
    rw (cons-append, cons-append) (rw (append-ne-empty_right s t h, drop_last-append s t h) refl)

-- The code cuts the separator behind the last item of a list.
pub drop_last-comma : (s : String) → drop_last (drop_last (s ⊕ ", ")) ≡ s
unfolding drop_last
drop_last-comma s = rw (drop_last-append s ", " refl, drop_last-append s "," refl) (append-nil s)
