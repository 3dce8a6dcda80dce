-- ===== src/Data/SelectExamples.antt =====
-- A select of users with their posts.
use atomicbase.Prelude.{
  ℕ, zero, suc, String, true, false, ◌≡◌, refl, ◌≤◌, List, [], ◌∷◌, split_dot, cut_prefix, join,
  trim_space,
}
use atomicbase.Result.{ok, ◌>>=◌}
use atomicbase.Tools.Validation.{validate_identifier}
use atomicbase.Definitions.Types.{Value, str, CompiledPredicate, is_zero}
use atomicbase.Definitions.Compiler.{compile, compile_condition}
use atomicbase.Definitions.Compiler.Leaf.{
  compile_leaf, split_scoped_ref, compile_old_leaf, compile_old_field, resolve_value, sql_operator,
}
use atomicbase.Platform.Schema.{lookup, put}
use atomicbase.PrimaryStore.Policies.{load_access_policy, is_policy_row, decode_condition}
use atomicbase.Data.Text.{drop_last}
use atomicbase.Data.Schema.{search_tbls, search_cols, search_fks}
use atomicbase.Data.Filter.{qualified}
use atomicbase.Data.Where.{build_where_from_json}
use atomicbase.Data.Where.Conjunction.{clauses, all_members, conjunction, build_where-conjunction}
use atomicbase.Data.Policy.{compile_policy}
use atomicbase.Data.Relation.{Relation, Column, relation, no_relation, relations, relation_depth}
use atomicbase.Data.Aggregation.{build_json_aggregation, json_object}
use atomicbase.Data.Aggregation.Chunks.{Prints, build_json_aggregation-Prints}
use atomicbase.Data.Select.{
  Subquery, build_select, build_sel_curr, add_joins, select_from, group_columns, group_pk,
}
use atomicbase.Data.Columns.{
  SelectPolicySet, pick_columns, pick_column, key_of, star_pairs, pair, find_foreign_key,
}
use atomicbase.Data.Select.Typed.{IsTyped, build_select-IsTyped}
use atomicbase.Data.Reads.{compile_once, walk}
use atomicbase.Data.Reads.Coverage.{EveryTable, Covered, compile_select_policies-Covered}
use atomicbase.Data.Examples.{ascii, go, json, blog, connection, drafts, posts}

abbrev column : String → Column
column name = record { name = name; alias = "" }

-- ["name", {"posts": ["body"]}]
abbrev users_with_posts : Relation
users_with_posts =
    relation "users" "" false (column "name" ∷ [])
      (relations (relation "posts" "" false (column "body" ∷ []) no_relation) no_relation)

abbrev predicate : String → List Value → CompiledPredicate
predicate sql args = record {
  sql = sql;
  args = args;
  go_allowed = true;
  needs_membership_cte = false;
}

abbrev set : SelectPolicySet
set = ("users", predicate "" []) ∷ ("posts", predicate "[author] = ?" (str "u1" ∷ [])) ∷ []

compile_select_policies-Covered_example :
    EveryTable (Covered ascii json connection set) users_with_posts
unfolding walk compile_once lookup put compile_policy load_access_policy is_policy_row
    decode_condition compile compile_condition compile_leaf split_scoped_ref compile_old_leaf
    compile_old_field resolve_value sql_operator is_zero cut_prefix trim_space split_dot
    validate_identifier
compile_select_policies-Covered_example =
    compile_select_policies-Covered ascii json connection users_with_posts set refl

abbrev selected : Subquery
selected = record {
  query =
      "SELECT [users].[name], json_group_array(json_object('body', [posts].[body])) FILTER (WHERE [posts].[author] IS NOT NULL) AS [posts] FROM [users] LEFT JOIN (SELECT [posts].[body], [posts].[author] FROM [posts] WHERE [author] = ? ) AS [posts] ON [users].[id] = [posts].[author] GROUP BY [users].[name], [users].[id] ";
  agg = "json_object('name', [name], 'posts', json([posts]))";
  args = str "u1" ∷ [];
}

build_select-IsTyped_example : IsTyped blog users_with_posts × (relation_depth users_with_posts ≤ 5)
unfolding build_select build_sel_curr add_joins pick_columns pick_column select_from key_of
    star_pairs pair search_tbls search_cols search_fks find_foreign_key lookup qualified drop_last
    build_json_aggregation json_object join group_columns group_pk relation_depth
build_select-IsTyped_example =
    build_select-IsTyped ascii go blog set 5 users_with_posts selected refl

-- As many equal pairs.
abbrev pairs : ℕ → List String
pairs zero = []
pairs (suc n) = "'a', [a]" ∷ pairs n

-- 51 pairs are one too many for one call.
build_json_aggregation-Prints_example : Prints (build_json_aggregation (pairs 51)) (pairs 51)
build_json_aggregation-Prints_example = build_json_aggregation-Prints (pairs 51)

build_where-conjunction_example :
    build_where_from_json blog posts (drafts ∷ drafts ∷ [])
    ≡ (clauses blog posts (all_members (drafts ∷ drafts ∷ [])) >>= λ ds. ok (conjunction ds))
build_where-conjunction_example = build_where-conjunction blog posts drafts (drafts ∷ [])
