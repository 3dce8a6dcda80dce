-- ===== src/Data/Examples.antt =====
-- Requests to a small database of users and their posts.
use mathlib.Core.Path.{subst}
use atomicbase.Prelude.{
  occurs, ◌≢◌, eq_iff, String, false, ◌≡◌, refl, List, [], ◌∷◌, none, some, leb, ◌&&◌, ◌==◌, All,
  length, split_dot, cut_prefix, join, trim_space,
}
use atomicbase.Result.{ok, ok-injective}
use atomicbase.Tools.Validation.{Unicode, IsPlain, validate_identifier}
use atomicbase.Definitions.Types.{
  str, obj, nil, Entries, no_entry, entry, Condition, condition, absent, is_zero,
}
use atomicbase.Definitions.Compiler.{compile, compile_condition}
use atomicbase.Definitions.Compiler.Leaf.{
  compile_leaf, split_scoped_ref, compile_old_leaf, compile_old_field, resolve_value, sql_operator,
}
use atomicbase.Definitions.Compiler.Placeholders.{marks}
use atomicbase.Platform.Schema.{lookup}
use atomicbase.PrimaryStore.Policies.{
  AccessPolicyRow, Json, load_access_policy, is_policy_row, decode_condition,
}
use atomicbase.Data.Text.{GoText}
use atomicbase.Data.Schema.{SchemaCache, CacheTable, search_tbls, search_cols}
use atomicbase.Data.Clean.{IsCleanSchema}
use atomicbase.Data.Filter.{
  Clause, build_filter_clause, resolve_column, entry_of, first_operator, operator, qualified,
  is_column_ref, fail,
}
use atomicbase.Data.Filter.Texts.{HasCleanIs, HasCleanMembers}
use atomicbase.Data.Where.{build_where_from_json, add_conditions, add_members, member_clause}
use atomicbase.Data.Policy.{TenantConnection, compile_policy, append_policy_where, apply_policy_cte}
use atomicbase.Data.Writes.{UpdateRequest, validate_table_name, known_columns, update_json}
use atomicbase.Data.Batch.Placeholders.{HasPlainBody, statements_of-placeholders}
use atomicbase.Data.Batch.{BatchOperation, Requests, statements_of}
use atomicbase.Data.Reads.{Config}

abbrev pub ascii : Unicode
ascii = record {
  is_letter = λ c. leb b'a' c && leb c b'z';
  is_digit = λ c. leb b'0' c && leb c b'9';
}

ascii-IsPlain : IsPlain ascii b'?'
ascii-IsPlain = record { no_letter = refl; no_digit = refl }

abbrev pub go : GoText
go = record { to_lower = λ s. s; equal_fold = λ s t. s == t; itoa = λ n. "7" }

abbrev own_post : Condition
own_post = condition "old.author" "eq" (str "auth.id") nil nil absent

abbrev pub json : Json
json = record {
  unmarshal_condition = λ text. ok own_post;
  unmarshal_texts = λ text. ok ("ALTER TABLE [posts] ADD COLUMN [likes] INTEGER" ∷ []);
}

abbrev users : CacheTable
users = record { name = "users"; pk = "id" ∷ []; columns = ("id", "TEXT") ∷ ("name", "TEXT") ∷ [] }

abbrev pub posts : CacheTable
posts = record {
  name = "posts";
  pk = "id" ∷ [];
  columns = ("id", "TEXT") ∷ ("author", "TEXT") ∷ ("body", "TEXT") ∷ [];
}

abbrev pub blog : SchemaCache
blog = record {
  tables = ("users", users) ∷ ("posts", posts) ∷ [];
  fks =
      ("posts", record { table = "posts"; references = "users"; from = "author"; to = "id" } ∷ [])
      ∷ [];
  fts_tables = [];
}

abbrev policy_row : String → String → AccessPolicyRow
policy_row table operation = record {
  definition_id = 1;
  version = 1;
  table_name = table;
  operation = operation;
  conditions_json = some "own";
}

abbrev policies : List AccessPolicyRow
policies =
    policy_row "posts" "update"
    ∷ policy_row "posts" "select"
    ∷ record (policy_row "users" "select") { conditions_json = none }
    ∷ []

abbrev pub connection : TenantConnection
connection = record {
  schema = blog;
  name = "blog";
  id = "d1";
  definition_id = 1;
  definition_type = "global";
  schema_version = 2;
  database_version = 1;
  principal = record {
    user_id = "u1";
    session_id = "s1";
    auth_status = "authenticated";
    is_service = false;
  };
  primary_store = some policies;
}

-- {"body": {"eq": "draft?"}}
abbrev pub drafts : Entries
drafts = entry "body" (obj "map[eq:draft?]" (entry "eq" (str "draft?") no_entry)) no_entry

abbrev update_drafts : UpdateRequest
update_drafts = record { values = ("body", str "done") ∷ []; conditions = drafts ∷ [] }

abbrev requests : Requests
requests = record {
  select = λ body. fail "not a select";
  insert = λ body. fail "not an insert";
  update = λ body. ok update_drafts;
  delete = λ body. fail "not a delete";
}

abbrev operation : BatchOperation
operation = record { operation = "update"; table = "posts"; body = no_entry; count = false }

abbrev pub config : Config
config = record { max_query_depth = 5; default_limit = 100; max_query_limit = 1000 }

abbrev sent : List Clause
sent =
    record {
      sql = "UPDATE [posts] SET [body] = ? WHERE [posts].[body] = ? AND [author] = ? ";
      args = str "done" ∷ str "draft?" ∷ str "u1" ∷ [];
    }
    ∷ []

blog-IsCleanSchema : IsCleanSchema blog
unfolding occurs
blog-IsCleanSchema = (
  (
    (refl, (refl, ((refl, refl), ((refl, refl), tt)), (refl, tt))),
    ((refl, (refl, ((refl, refl), ((refl, refl), ((refl, refl), tt))), (refl, tt))), tt),
  ),
  (((refl, refl, refl, refl), tt), tt),
)

different : (s t : String) → (s == t) ≡ false → s ≢ t
different s t h e = absurd (cc (h, (eq_iff s t).1 e))

eq_ne_is : ("eq" == "is") ≡ false
eq_ne_is = refl

body_ne_is : ("body" == "is") ≡ false
body_ne_is = refl

seven : marks "7" ≡ 0
unfolding occurs
seven = refl

drafts-HasPlainBody : HasPlainBody requests no_entry
unfolding HasCleanIs
drafts-HasPlainBody = record {
  select = λ query e. absurd (cc e);
  update = λ req e.
      subst (λ r. All HasCleanMembers r.conditions) (ok-injective e)
        (
          (
            λ e. absurd (different "body" "is" body_ne_is e),
            (λ e. absurd (different "eq" "is" eq_ne_is e), tt, tt),
            tt,
          ),
          tt,
        );
  delete = λ req e. absurd (cc e);
}

statements_of-placeholders_example : All (λ c. marks c.sql ≡ length c.args) sent
unfolding statements_of update_json validate_table_name validate_identifier search_tbls lookup
    known_columns search_cols build_where_from_json add_conditions add_members member_clause
    build_filter_clause resolve_column split_dot entry_of first_operator is_column_ref operator
    qualified compile_policy load_access_policy is_policy_row decode_condition compile
    compile_condition compile_leaf split_scoped_ref compile_old_leaf compile_old_field resolve_value
    sql_operator is_zero append_policy_where apply_policy_cte join cut_prefix trim_space
statements_of-placeholders_example =
    statements_of-placeholders ascii json connection go config requests operation sent ascii-IsPlain
      (λ n. seven) blog-IsCleanSchema drafts-HasPlainBody refl
