-- ===== src/Data/Where/Conjunction.antt =====
-- The loop that builds a WHERE clause, against a plain description: the conjunction of the members.
use text.Mathlib.TextLemmas
use mathlib.Core.List.{append-nil, append_assoc}
use atomicbase.Prelude.{
  String, Bool, true, false, ◌≡◌, refl, sym, ap, inl, inr, List, [], ◌∷◌, ◌++◌, map, ◌⊕◌, join,
}
use atomicbase.Result.{Result, ok, Result-cases, ◌>>=◌}
use atomicbase.Definitions.Types.{Value, Entries, no_entry, entry}
use atomicbase.Data.Schema.{CacheTable, SchemaCache}
use atomicbase.Data.Filter.{Clause}
use atomicbase.Data.Where.{
  member_clause, Query, and_clause, add_members, add_conditions, build_where_from_json,
}

-- The members of a condition, and of all conditions, in order.
abbrev pub members : Entries → List (String × Value)
members no_entry = []
members (entry key value es) = (key, value) ∷ members es

abbrev pub all_members : List Entries → List (String × Value)
all_members [] = []
all_members (c ∷ cs) = members c ++ all_members cs

-- The clauses of the members, up to the first error.
abbrev pub clauses : SchemaCache → CacheTable → List (String × Value) → Result (List Clause)
clauses schema table [] = ok []
clauses schema table ((key, value) ∷ ms) =
    member_clause schema table key value >>= λ c. clauses schema table ms >>= λ cs. ok (c ∷ cs)

abbrev pub all_args : List Clause → List Value
all_args [] = []
all_args (c ∷ cs) = c.args ++ all_args cs

-- "WHERE a AND b", with the arguments in the same order.
abbrev pub conjunction : List Clause → Clause
conjunction cs = record { sql = "WHERE " ⊕ join "AND " (map (λ c. c.sql) cs); args = all_args cs }

abbrev is_empty : List Clause → Bool
is_empty [] = true
is_empty (c ∷ cs) = false

-- The loop's variables after these clauses.
abbrev after : List Clause → Query
after cs = record { query = (conjunction cs).sql; args = all_args cs; first = is_empty cs }

join-snoc :
    (sep x t : String) (xs : List String)
    → join sep ((x ∷ xs) ++ t ∷ []) ≡ join sep (x ∷ xs) ⊕ sep ⊕ t
unfolding join
join-snoc sep x t [] = refl
join-snoc sep x t (y ∷ ys) = rw (join-snoc sep y t ys) (simp TextLemmas.append_assoc refl)

map-snoc :
    (cs : List Clause) (c : Clause)
    → map (λ c. c.sql) (cs ++ c ∷ []) ≡ map (λ c. c.sql) cs ++ c.sql ∷ []
map-snoc [] c = refl
map-snoc (d ∷ cs) c = rw (map-snoc cs c) refl

all_args-snoc : (cs : List Clause) (c : Clause) → all_args (cs ++ c ∷ []) ≡ all_args cs ++ c.args
all_args-snoc [] c = append-nil c.args
all_args-snoc (d ∷ cs) c = rw (all_args-snoc cs c) (sym (append_assoc d.args (all_args cs) c.args))

abbrev the_query : String → List Value → Bool → Query
the_query q args first = record { query = q; args = args; first = first }

query_eq :
    {q r : String} {args more : List Value} {first : Bool}
    → q ≡ r
    → args ≡ more
    → the_query q args first ≡ the_query r more first
query_eq hq ha = rw (hq, ha) refl

-- A round of the loop adds its clause to the conjunction.
and_clause-after : (cs : List Clause) (c : Clause) → and_clause (after cs) c ≡ after (cs ++ c ∷ [])
unfolding join
and_clause-after [] c = query_eq refl (sym (append-nil c.args))
and_clause-after (d ∷ cs) c =
    query_eq
      (rw (map-snoc cs c, join-snoc "AND " d.sql c.sql (map (λ c. c.sql) cs))
        (simp TextLemmas.append_assoc refl))
      (sym (all_args-snoc (d ∷ cs) c))

module _ (schema : SchemaCache) (table : CacheTable) where
  clauses-append :
      (ms ns : List (String × Value))
      → clauses schema table (ms ++ ns)
        ≡ (clauses schema table ms >>= λ cs. clauses schema table ns >>= λ ds. ok (cs ++ ds))
  clauses-append [] ns = elim (Result-cases (clauses schema table ns)) [
    | inl (ds, e) ↦ rw e refl
    | inr (failure, e) ↦ rw e refl
  ]
  clauses-append ((key, value) ∷ ms) ns =
      elim (Result-cases (member_clause schema table key value)) [
        | inl (c, e) ↦
            rw (e, clauses-append ms ns)
              (elim (Result-cases (clauses schema table ms)) [
                | inl (cs, e2) ↦ rw e2 (elim (Result-cases (clauses schema table ns)) [
                  | inl (ds, e3) ↦ rw e3 refl
                  | inr (failure, e3) ↦ rw e3 refl
                ])
                | inr (failure, e2) ↦ rw e2 refl
              ])
        | inr (failure, e) ↦ rw e refl
      ]

  add_members-after :
      (es : Entries) (cs : List Clause)
      → add_members schema table es (after cs)
        ≡ (clauses schema table (members es) >>= λ ds. ok (after (cs ++ ds)))
  unfolding add_members
  add_members-after no_entry cs = ap (λ cs. ok (after cs)) (sym (append-nil cs))
  add_members-after (entry key value es) cs =
      elim (Result-cases (member_clause schema table key value)) [
        | inl (c, e) ↦
            rw (e, and_clause-after cs c, add_members-after es (cs ++ c ∷ []))
              (elim (Result-cases (clauses schema table (members es))) [
                | inl (ds, e2) ↦ rw e2 (ap (λ cs. ok (after cs)) (append_assoc cs (c ∷ []) ds))
                | inr (failure, e2) ↦ rw e2 refl
              ])
        | inr (failure, e) ↦ rw e refl
      ]

  add_conditions-after :
      (conditions : List Entries) (cs : List Clause)
      → add_conditions schema table conditions (after cs)
        ≡ (clauses schema table (all_members conditions) >>= λ ds. ok (after (cs ++ ds)))
  unfolding add_conditions
  add_conditions-after [] cs = ap (λ cs. ok (after cs)) (sym (append-nil cs))
  add_conditions-after (c ∷ conditions) cs =
      rw (add_members-after c cs, clauses-append (members c) (all_members conditions))
        (elim (Result-cases (clauses schema table (members c))) [
          | inl (ds, e) ↦
              rw (e, add_conditions-after conditions (cs ++ ds))
                (elim (Result-cases (clauses schema table (all_members conditions))) [
                  | inl (es, e2) ↦ rw e2 (ap (λ cs. ok (after cs)) (append_assoc cs ds es))
                  | inr (failure, e2) ↦ rw e2 refl
                ])
          | inr (failure, e) ↦ rw e refl
        ])

  -- A request with conditions gets the conjunction of the clauses of all their members, in the order
  -- in which they are met, or the first error among them: it does not matter how the members are
  -- spread over the conditions.
  pub build_where-conjunction :
      (c : Entries) (cs : List Entries)
      → build_where_from_json schema table (c ∷ cs)
        ≡ (clauses schema table (all_members (c ∷ cs)) >>= λ ds. ok (conjunction ds))
  unfolding build_where_from_json join
  build_where-conjunction c cs =
      rw (add_conditions-after (c ∷ cs) [])
        (elim (Result-cases (clauses schema table (all_members (c ∷ cs)))) [
          | inl (ds, e) ↦ rw e refl
          | inr (failure, e) ↦ rw e refl
        ])
