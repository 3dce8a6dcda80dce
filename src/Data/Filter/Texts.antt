-- ===== src/Data/Filter/Texts.antt =====
-- The texts of single filters, and the values that are written into them.
use atomicbase.Prelude.{
  String, Bool, true, false, ◌≡◌, refl, List, [], ◌∷◌, ◌⊕◌, length, occurs, occurs-append, join,
  arith, if◌then◌else◌, not, ltb, eqb,
}
use atomicbase.Result.{Result, require, ◌>>=◌, Holds, Holds->>=}
use atomicbase.Definitions.Types.{
  Value, Values, null, bool, str, other, arr, obj, nil, cons, Entries, no_entry, entry, sprint,
}
use atomicbase.Definitions.Compiler.Placeholders.{marks, marks-around}
use atomicbase.Data.Clean.{IsCleanName}
use atomicbase.Data.Filter.{
  Clause, as_array, max_in_array_size, op_to_sql, qualified, question_marks, in_list, is_value,
  compared_to, matches, between,
}

-- The members named "is", whose value is written into the statement, print without a "?".
unfoldable mutual
  pub HasCleanIs : Value → Type 0
  HasCleanIs (arr vs) = HaveCleanIs vs
  HasCleanIs (obj text es) = HasCleanMembers es
  HasCleanIs v = Unit

  pub HaveCleanIs : Values → Type 0
  HaveCleanIs nil = Unit
  HaveCleanIs (cons v vs) = HasCleanIs v × HaveCleanIs vs

  pub HasCleanMembers : Entries → Type 0
  HasCleanMembers no_entry = Unit
  HasCleanMembers (entry key v es) =
      (key ≡ "is" → marks (sprint v) ≡ 0) × HasCleanIs v × HasCleanMembers es

abbrev pub IsBalanced : Clause → Type 0
IsBalanced c = marks c.sql ≡ length c.args

abbrev pub Balances : Result Clause → Type 0
Balances r = Holds IsBalanced r

pub marks-join-question_marks :
    (vs : List Value) → marks (join ", " (question_marks vs)) ≡ length vs
unfolding join question_marks occurs
marks-join-question_marks [] = refl
marks-join-question_marks (v ∷ []) = refl
marks-join-question_marks (v ∷ w ∷ vs) =
    rw
      (
        marks-around "?" ", " (join ", " (question_marks (w ∷ vs))),
        marks-join-question_marks (w ∷ vs),
      )
      (omega arith)

marks-if : (b : Bool) (s t : String) → marks s ≡ 0 → marks t ≡ 0 → marks (if b then s else t) ≡ 0
marks-if true s t hs ht = hs
marks-if false s t hs ht = ht

pub marks-op_to_sql : (op : String) → marks (op_to_sql op) ≡ 0
unfolding op_to_sql occurs
marks-op_to_sql op = search marks-if depth 8

pub marks-qualified :
    (table col : String) → IsCleanName table → IsCleanName col → marks (qualified table col) ≡ 0
unfolding qualified occurs
marks-qualified table col t c =
    rw (marks-around, occurs-append, occurs-append) (omega (arith, t, c))

pub marks-matches :
    (table col : String) → IsCleanName table → IsCleanName col → marks (matches table col) ≡ 1
unfolding matches occurs
marks-matches table col t c = rw (marks-around, occurs-append, occurs-append) (omega (arith, t, c))

pub as_array-Balances :
    (message : String) (val : Value) (f : List Value → Result Clause)
    → ((vs : List Value) → Balances (f vs))
    → Balances (as_array message val >>= f)
as_array-Balances message val f h = Holds->>= IsBalanced (as_array message val) f (λ vs _. h vs)

module _ (column : String) (clean : IsCleanName column) where
  pub compared_to-Balances :
      (op : String) (val : Value) → marks op ≡ 0 → Balances (compared_to column op val)
  unfolding occurs
  compared_to-Balances op val h =
      rw (occurs-append, occurs-append, occurs-append) (omega (arith, clean, h))

  pub in_list-Balances :
      (keyword : String) (vs : List Value)
      → marks keyword ≡ 0
      → Balances (in_list column keyword vs)
  unfolding occurs
  in_list-Balances keyword vs h =
      Holds->>= IsBalanced (require (not (eqb (length vs) 0)) _) _ λ _ _.
        Holds->>= IsBalanced (require (not (ltb max_in_array_size (length vs))) _) _ λ _ _.
          rw
            (
              occurs-append, occurs-append, occurs-append, occurs-append, occurs-append,
              marks-join-question_marks,
            )
            (omega (arith, clean, h))

  marks-written :
      (keyword text : String)
      → marks keyword ≡ 0
      → marks text ≡ 0
      → marks (column ⊕ " " ⊕ keyword ⊕ " " ⊕ text ⊕ " ") ≡ 0
  unfolding occurs
  marks-written keyword text h t =
      rw (occurs-append, occurs-append, occurs-append, occurs-append, occurs-append)
        (omega (arith, clean, h, t))

  pub is_value-Balances :
      (keyword : String) (val : Value)
      → marks keyword ≡ 0
      → marks (sprint val) ≡ 0
      → Balances (is_value column keyword val)
  unfolding occurs
  is_value-Balances keyword null h v =
      rw (occurs-append, occurs-append, occurs-append) (omega (arith, clean, h))
  is_value-Balances keyword (bool b) h v = marks-written keyword (sprint (bool b)) h v
  is_value-Balances keyword (str s) h v = marks-written keyword (sprint (str s)) h v
  is_value-Balances keyword (other s) h v = marks-written keyword (sprint (other s)) h v
  is_value-Balances keyword (arr vs) h v = marks-written keyword (sprint (arr vs)) h v
  is_value-Balances keyword (obj s es) h v = marks-written keyword (sprint (obj s es)) h v

  pub between-Balances : (vs : List Value) → Balances (between column vs)
  unfolding occurs
  between-Balances vs =
      Holds->>= IsBalanced (require (eqb (length vs) 2) _) _
        λ _ e. rw (occurs-append) (ground (arith, clean, length vs, e))
