-- ===== src/Data/Where/Placeholders.antt =====
-- The WHERE clause of a request has as many placeholders as arguments.
use mathlib.Core.Path.{subst}
use atomicbase.Prelude.{
  ℕ, ◌+◌, String, ◌≡◌, refl, List, [], ◌∷◌, ◌++◌, ◌⊕◌, length, occurs, occurs-append, length-append,
  join, arith, inl, inr, Bool-cases, All,
}
use atomicbase.Result.{ok, ok-injective, ◌>>=◌, Holds, Holds->>=, Holds-if, Holds-ok}
use atomicbase.Definitions.Types.{
  Value, null, bool, str, other, obj, arr, Values, nil, cons, items, Entries, no_entry, entry,
}
use atomicbase.Definitions.Compiler.Placeholders.{marks, marks-around}
use atomicbase.Data.Text.Occurs.{occurs-trim_suffix_of}
use atomicbase.Data.Schema.{CacheTable, SchemaCache, ok_or}
use atomicbase.Data.Clean.{IsCleanTable, IsCleanSchema}
use atomicbase.Data.Filter.{
  Clause, as_array, as_object, entry_of, fts_suffix, require_index, build_filter_clause,
}
use atomicbase.Data.Filter.Placeholders.{as_object-HasCleanMembers, build_filter_clause-Balances}
use atomicbase.Data.Filter.Texts.{
  HasCleanIs, HaveCleanIs, HasCleanMembers, IsBalanced, Balances, marks-matches,
}
use atomicbase.Data.Where.{
  Alternatives, add_alternative, add_filters, add_or_conditions, build_or_clause, or_member,
  fts_member, member_clause, Query, and_clause, add_members, add_conditions, build_where_from_json,
}

abbrev pub marks_all : List String → ℕ
marks_all [] = 0
marks_all (s ∷ ss) = marks s + marks_all ss

marks_all-append : (ss ts : List String) → marks_all (ss ++ ts) ≡ marks_all ss + marks_all ts
marks_all-append [] ts = omega arith
marks_all-append (s ∷ ss) ts = omega (arith, marks_all-append ss ts)

pub marks-join :
    (sep : String) (ss : List String) → marks sep ≡ 0 → marks (join sep ss) ≡ marks_all ss
unfolding join occurs
marks-join sep [] h = refl
marks-join sep (s ∷ []) h = omega arith
marks-join sep (s ∷ t ∷ ss) h =
    rw (marks-around s sep (join sep (t ∷ ss))) (omega (arith, marks-join sep (t ∷ ss) h, h))

items-HaveCleanIs : (vs : Values) → HaveCleanIs vs → All HasCleanIs (items vs)
unfolding HasCleanIs
items-HaveCleanIs nil h = tt
items-HaveCleanIs (cons v vs) h = (h.0, items-HaveCleanIs vs h.1)

as_array-HaveCleanIs :
    (message : String) (v : Value) {vs : List Value}
    → HasCleanIs v
    → as_array message v ≡ ok vs
    → All HasCleanIs vs
unfolding HasCleanIs
as_array-HaveCleanIs message null h e = absurd (cc e)
as_array-HaveCleanIs message (bool b) h e = absurd (cc e)
as_array-HaveCleanIs message (str s) h e = absurd (cc e)
as_array-HaveCleanIs message (other s) h e = absurd (cc e)
as_array-HaveCleanIs message (obj s es) h e = absurd (cc e)
as_array-HaveCleanIs message (arr vs) h e =
    subst (All HasCleanIs) (ok-injective e) (items-HaveCleanIs vs h)

abbrev AreBalanced : Alternatives → Type 0
AreBalanced acc = marks_all acc.parts ≡ length acc.args

add_alternative-AreBalanced :
    (c : Clause) (acc : Alternatives)
    → IsBalanced c
    → AreBalanced acc
    → AreBalanced (add_alternative c acc)
add_alternative-AreBalanced c acc hc h =
    rw (marks_all-append, length-append, occurs-trim_suffix_of b'?' b' ' c.sql refl)
      (omega (arith, hc, h))

abbrev IsBalancedQuery : Query → Type 0
IsBalancedQuery q = marks q.query ≡ length q.args

and_clause-IsBalanced :
    (q : Query) (c : Clause) → IsBalancedQuery q → IsBalanced c → IsBalancedQuery (and_clause q c)
unfolding occurs
and_clause-IsBalanced q c hq hc =
    rw (occurs-append, length-append)
      (elim (Bool-cases q.first) [
        | inl e ↦ rw e (omega (arith, hq, hc))
        | inr e ↦ rw (e, occurs-append) (omega (arith, hq, hc))
      ])

module _ (schema : SchemaCache) (table : CacheTable) (s : IsCleanSchema schema)
    (t : IsCleanTable table) where
  object_filter-Balances :
      (message col : String) (filter : Value)
      → HasCleanIs filter
      → Balances (as_object message filter >>= build_filter_clause schema table col)
  object_filter-Balances message col filter h =
      Holds->>= IsBalanced (as_object message filter) _ λ es e.
        build_filter_clause-Balances schema table s t col es
          (as_object-HasCleanMembers message filter h e)

  add_filters-AreBalanced :
      (es : Entries) (acc : Alternatives)
      → HasCleanMembers es
      → AreBalanced acc
      → Holds AreBalanced (add_filters schema table es acc)
  unfolding add_filters HasCleanIs
  add_filters-AreBalanced no_entry acc h b = b
  add_filters-AreBalanced (entry col filter rest) acc h b =
      Holds->>= AreBalanced (as_object _ filter >>= build_filter_clause schema table col) _ λ c e.
        add_filters-AreBalanced rest (add_alternative c acc) h.2 (
          add_alternative-AreBalanced c acc
            (Holds-ok IsBalanced (object_filter-Balances _ col filter h.1) e) b)

  add_or_conditions-AreBalanced :
      (cs : List Value) (acc : Alternatives)
      → All HasCleanIs cs
      → AreBalanced acc
      → Holds AreBalanced (add_or_conditions schema table cs acc)
  unfolding add_or_conditions
  add_or_conditions-AreBalanced [] acc h b = b
  add_or_conditions-AreBalanced (c ∷ cs) acc h b =
      Holds->>= AreBalanced (as_object _ c >>= λ es. add_filters schema table es acc) _ λ next e.
        add_or_conditions-AreBalanced cs next h.1 (
          Holds-ok AreBalanced
            (Holds->>= AreBalanced (as_object _ c) _ λ es object.
              add_filters-AreBalanced es acc (as_object-HasCleanMembers _ c h.0 object) b)
            e)

  or_member-Balances : (value : Value) → HasCleanIs value → Balances (or_member schema table value)
  unfolding build_or_clause occurs
  or_member-Balances value h =
      Holds->>= IsBalanced (as_array _ value >>= build_or_clause schema table) _ λ c e.
        rw marks-around (
          omega (
            arith,
            Holds-ok IsBalanced
                (Holds->>= IsBalanced (as_array _ value) (build_or_clause schema table) λ vs array.
                  Holds->>= IsBalanced (add_or_conditions schema table vs _) _ λ acc built.
                    rw (marks-join " OR " acc.parts refl) (
                      Holds-ok AreBalanced
                        (add_or_conditions-AreBalanced vs _ (as_array-HaveCleanIs _ value h array)
                          refl)
                        built))
                e,
          ))

  fts_member-Balances : (value : Value) → Balances (fts_member schema table value)
  unfolding occurs
  fts_member-Balances value = Holds->>= IsBalanced (as_object _ value) _ λ es _.
      Holds->>= IsBalanced (ok_or _ (entry_of "fts" es)) _ λ search _.
        Holds->>= IsBalanced (require_index schema table.name) _ λ _ _.
          let clean : marks (table.name ⊕ fts_suffix) ≡ 0 = rw occurs-append (omega (arith, t.0)) in
          marks-matches (table.name ⊕ fts_suffix) (table.name ⊕ fts_suffix) clean clean

  member_clause-Balances :
      (key : String) (value : Value)
      → HasCleanIs value
      → Balances (member_clause schema table key value)
  unfolding member_clause
  member_clause-Balances key value h =
      search (Holds-if IsBalanced, or_member-Balances, fts_member-Balances, object_filter-Balances)

  add_members-IsBalanced :
      (es : Entries) (q : Query)
      → HasCleanMembers es
      → IsBalancedQuery q
      → Holds IsBalancedQuery (add_members schema table es q)
  unfolding add_members HasCleanIs
  add_members-IsBalanced no_entry q h b = b
  add_members-IsBalanced (entry key value rest) q h b =
      Holds->>= IsBalancedQuery (member_clause schema table key value) _ λ c e.
        add_members-IsBalanced rest (and_clause q c) h.2 (
          and_clause-IsBalanced q c b
            (Holds-ok IsBalanced (member_clause-Balances key value h.1) e))

  add_conditions-IsBalanced :
      (cs : List Entries) (q : Query)
      → All HasCleanMembers cs
      → IsBalancedQuery q
      → Holds IsBalancedQuery (add_conditions schema table cs q)
  unfolding add_conditions
  add_conditions-IsBalanced [] q h b = b
  add_conditions-IsBalanced (c ∷ cs) q h b =
      Holds->>= IsBalancedQuery (add_members schema table c q) _ λ next e.
        add_conditions-IsBalanced cs next h.1
          (Holds-ok IsBalancedQuery (add_members-IsBalanced c q h.0 b) e)

  pub build_where-Balances :
      (conditions : List Entries)
      → All HasCleanMembers conditions
      → Balances (build_where_from_json schema table conditions)
  unfolding build_where_from_json occurs
  build_where-Balances [] h = refl
  build_where-Balances (c ∷ cs) h =
      Holds->>= IsBalanced (add_conditions schema table (c ∷ cs) _) _
        λ q e. Holds-ok IsBalancedQuery (add_conditions-IsBalanced (c ∷ cs) _ h refl) e
