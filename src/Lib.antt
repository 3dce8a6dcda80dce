-- ===== src/Lib.antt =====
-- Atombase, a multi-tenant database server in Go (api/): a verification of its core logic.
--
-- A definition (api/definitions, api/platform) describes a database's schema and its access
-- policies. Organizations (api/auth) own databases of a definition; their members act under the
-- management policy of their role. A request's policy is compiled to a piece of SQL that the data
-- API adds to its query. A new version of a definition is compared with the old one, and the
-- difference becomes a migration that every database of the definition runs.
--
-- The files:
--   Prelude: names, Boolean tests, lists and Go's text functions that the others share.
--   Result: Go's (value, error) pairs, with the errors of api/tools/errors.go.
--   Tools/Validation: api/tools/validation.go, ValidateIdentifier and ValidateResourceName.
--   Auth/Types, Auth/Management, Auth/Membership: api/auth/org_membership.go. Each handler's
--   operation is one function with the source's name, on the rows of the tenant's membership table;
--   check_... are the guards before its SQL statement, ..._member the statement itself.
--   Auth/Invites: api/auth/org_invites.go in the same way, on the membership and invite tables.
--   Auth/Organizations: api/auth/org_management.go. Auth/Sessions: api/auth/sessions.go.
--   Auth/MagicLinks: api/auth/magiclink.go and FindOrCreateUser of api/auth/users.go; times are
--   natural numbers, nanoseconds for sessions and seconds for links, as the code has them.
--   Definitions/Types, Definitions/Compiler and Definitions/Compiler/Leaf:
--   api/definitions/compiler.go, Compile as compile, compileCondition as compile_condition with a
--   function for each of its loops, and the leaves. Definitions/Compiler/Predicate and Meaning are
--   the specification: predicates with their texts, and the truth of a condition in SQL's three
--   values, in which a condition on a field that the code refuses is unknown.
--   Platform/Schema: api/schema/types.go. Platform/Diff: diffSchemas and its parts. Platform/Plan:
--   GenerateMigrationPlan and its parts. Platform/Sql: the generators of SQL text, all from
--   api/platform/migrations.go.
--   PrimaryStore/Policies, PrimaryStore/Migrations, PrimaryStore/Targets: LoadAccessPolicy,
--   GetMigrationsBetween and ResolveDatabaseTarget of api/primarystore/store.go, over the rows of its
--   tables; the chain of migrations is described in PrimaryStore/Migrations/Chain, the databases that
--   a request may reach in PrimaryStore/Targets/Reach. tools.Decrypt is a parameter.
--   Data/Schema: api/data/schema.go and schema_cache.go. Data/Filter and Data/Where:
--   api/data/query_json.go, a function for each loop over a request's maps. Data/Policy and
--   Data/Writes: policy.go, policy_sql.go, insert_policy.go and the writes of queries.go, up to the
--   statement that is sent. Data/Relation, Data/Aggregation, Data/Columns, Data/Select and
--   Data/CustomJoin: build_query.go. Data/Reads: select_policy.go and the select of queries.go. Data/Batch: batch.go.
--   Data/Migration: migration.go. Data/Clean has the names without a "?", and the modules called
--   Placeholders follow the count of placeholders through all of them.
--   Auth/Examples, Auth/SignInExamples, Definitions/Examples, Platform/Examples, Data/Examples,
--   Data/SelectExamples and Data/StoreExamples hold runs on small data.
--
-- How the program is modelled. A table is the list of its rows, and a SQL statement is a function on
-- it that does what SQLite documents for the statement's text. A database error other than those
-- of the guards is not modelled; so the DELETE that takes back an invite that was not announced always
-- works, whose error the code ignores. Addresses are compared as they stand: the column's COLLATE NOCASE
-- makes no difference to lowered ones. A Go map is an association list in the order in which a range
-- meets its keys, which Go leaves open; a map that the code fills keeps the order of the first
-- insertions. What the code takes from elsewhere is an argument: the connection to a tenant's
-- database with its management policy (conn), the clock (now), fresh ids, the mail service, Go's
-- unicode classes (Unicode), strings.ToLower, strings.ToUpper and json.Marshal (Host, Go), the
-- SHA-256 and the time that is read back after it was stored (Clock), and the store behind
-- OrganizationResolver, the folding of letters and the printing of numbers (GoText), encoding/json
-- (Json, Requests) and the driver of a database with its transactions (Driver). A JSON value that is
-- no text, truth value, array or object is kept as the text that it prints as. A panic of the plan
-- generator is none, and one of the query builder is an error. The groups of a JSON expression are
-- made with as much fuel as there are pairs, which is enough since each round takes at least one,
-- and a migration has the three attempts of the code; all other recursion is on data.
--
-- Not modelled: HTTP decoding and routing, caches and logs, which are I/O; the answers of the driver
-- and their JSON; the rest of the primary store, and provisioning, which stand on their own.
pub mod Prelude
pub mod Result
pub mod Tools
pub mod Definitions
pub mod PrimaryStore
pub mod Data
pub mod Auth
pub mod Platform
