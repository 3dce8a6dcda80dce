-- ===== src/PrimaryStore/Targets/Reach.antt =====
-- A request reaches only the databases that its header and its user may name.
use mathlib.Core.Option.{some-injective}
use atomicbase.Prelude.{
  String, Bool, true, false, ◌||◌, ◌≡◌, refl, sym, ◌∙◌, ap, List, [], ◌∷◌, Option, none, some, ◌==◌,
  eq_iff, eqb, find?, inl, inr, Bool-cases, if_true, if_false, if_cases, if◌then◌else◌,
}
use atomicbase.Result.{
  other_error, ok, err, ok-injective, Holds, Holds->>=, Holds-value, Holds-ok, Holds-if,
}
use atomicbase.Definitions.Types.{Principal, DatabaseTarget}
use atomicbase.PrimaryStore.Targets.{
  DatabaseRow, DefinitionRow, OwnerRow, Tables, Encryption, decode_stored_database_token, found_row,
  typed, database_target, owned_target, split_colon, named_target, resolve_database_target,
}

-- The databases that a request may reach: the one of its user, a global one that it names, and the
-- one of an organization that it names.
pub data Reaches (tables : Tables) (principal : Principal) (header : String)
    : DatabaseTarget → Type 0 where
  own :
      (o : OwnerRow) {t : DatabaseTarget}
      → header ≡ ""
      → principal.is_service ≡ false
      → find? (λ o. o.id == principal.user_id) tables.users ≡ some o
      → o.database_id ≡ some t.database_id
      → t.definition_type ≡ "user"
      → Reaches tables principal header t
  global :
      {t : DatabaseTarget}
      → split_colon header ≡ some ("global", t.database_id)
      → t.definition_type ≡ "global"
      → Reaches tables principal header t
  organization :
      (name : String) (o : OwnerRow) {t : DatabaseTarget}
      → split_colon header ≡ some ("org", name)
      → find? (λ o. o.id == name) tables.organizations ≡ some o
      → o.database_id ≡ some t.database_id
      → t.definition_type ≡ "organization"
      → Reaches tables principal header t

found_row-eq-ok : {A : Type 0} (o : Option A) {a : A} → found_row o ≡ ok a → o ≡ some a
found_row-eq-ok none e = absurd (cc e)
found_row-eq-ok (some b) e = ap some (ok-injective e)

find?-id :
    (id : String) (rows : List DatabaseRow) {d : DatabaseRow}
    → find? (λ d. d.id == id) rows ≡ some d
    → d.id ≡ id
find?-id id [] e = absurd (cc e)
find?-id id (row ∷ rows) e = elim (Bool-cases (row.id == id)) [
  | inl hit ↦
      sym (
        ap (λ (d : DatabaseRow). d.id)
          (some-injective _ _ (sym (if_true (row.id == id) _ _ hit) ∙ e)))
      ∙ (eq_iff row.id id).0 hit
  | inr miss ↦ find?-id id rows (sym (if_false (row.id == id) _ _ miss) ∙ e)
]

typed-eq-ok :
    (type : String) (def : DefinitionRow) {done : Unit {0}}
    → typed type def ≡ ok done
    → def.definition_type ≡ type
typed-eq-ok type def e = elim (Bool-cases (def.definition_type == type)) [
  | inl same ↦ (eq_iff def.definition_type type).0 same
  | inr different ↦ absurd (cc (rw different at e))
]

-- A database's target has the id that was asked for, and the type.
abbrev IsTarget : String → String → DatabaseTarget → Type 0
IsTarget type id t = (t.database_id ≡ id) × (t.definition_type ≡ type)

abbrev parts_of : String → String → Option (String × String)
parts_of kind name = some (kind, name)

parts_eq :
    {kind kind2 name name2 : String}
    → kind ≡ kind2
    → name ≡ name2
    → parts_of kind name ≡ parts_of kind2 name2
parts_eq same same2 = cc

or_false-right : (a b : Bool) → (a || b) ≡ false → b ≡ false
or_false-right true b e = absurd (cc e)
or_false-right false b e = e

module _ (enc : Encryption) (tables : Tables) where
  database_target-IsTarget :
      (type id : String) → Holds (IsTarget type id) (database_target enc tables type id)
  unfolding database_target
  database_target-IsTarget type id =
      Holds->>= _ (found_row (find? (λ d. d.id == id) tables.databases)) _ λ d e.
        Holds->>= _ (found_row (find? (λ def. eqb def.id d.definition_id) tables.definitions)) _
          λ def _. Holds->>= _ (typed type def) _ λ _ same.
            Holds->>= _ (decode_stored_database_token enc d.auth_token_encrypted) _ λ token _.
              (find?-id id tables.databases (found_row-eq-ok _ e), typed-eq-ok type def same)

  owned_target-IsTarget :
      (type : String) (owners : List OwnerRow) (id : String)
      → Holds
          (λ t.
            (o : OwnerRow) × (find? (λ o. o.id == id) owners ≡ some o)
            × (o.database_id ≡ some t.database_id)
            × (t.definition_type ≡ type))
          (owned_target enc tables type owners id)
  unfolding owned_target
  owned_target-IsTarget type owners id =
      Holds->>= _ (found_row (find? (λ o. o.id == id) owners)) _ λ o e.
        Holds->>= _ (found_row o.database_id) _ λ database e2.
          Holds-value _ (database_target enc tables type database) λ t e3.
            let (same, typed) =
              Holds-ok (IsTarget type database) (database_target-IsTarget type database) e3 in
            (o, found_row-eq-ok _ e, found_row-eq-ok _ e2 ∙ ap some (sym same), typed)

  module _ (principal : Principal) (header : String) where
    named_target-Reaches :
        (parts : Option (String × String))
        → split_colon header ≡ parts
        → Holds (Reaches tables principal header) (named_target enc tables parts)
    named_target-Reaches none e = tt
    named_target-Reaches (some (kind, name)) e = Holds-if _ (name == "") _ _ tt (
        if_cases (Holds (Reaches tables principal header)) (kind == "global")
          (λ same. Holds-value _ (database_target enc tables "global" name) λ t e2.
            let (id, typed) =
              Holds-ok (IsTarget "global" name) (database_target-IsTarget "global" name) e2 in
            global (e ∙ parts_eq ((eq_iff kind "global").0 same) (sym id)) typed)
          (λ _.
            if_cases (Holds (Reaches tables principal header)) (kind == "org")
              (λ same.
                Holds-value _ (owned_target enc tables "organization" tables.organizations name)
                  λ t e2.
                    let (o, found, owned, typed) =
                      Holds-ok _ (owned_target-IsTarget "organization" tables.organizations name)
                        e2 in
                    organization name o (e ∙ parts_eq ((eq_iff kind "org").0 same) refl) found owned
                      typed)
              (λ _. tt)))

    own_target-Reaches :
        header ≡ ""
        → Holds (Reaches tables principal header) (
            if principal.user_id == "" || principal.is_service
            then err (other_error "Database header is required")
            else owned_target enc tables "user" tables.users principal.user_id)
    own_target-Reaches empty =
        if_cases (Holds (Reaches tables principal header))
          (principal.user_id == "" || principal.is_service) (λ _. tt)
          (λ user.
            Holds-value _ (owned_target enc tables "user" tables.users principal.user_id) λ t e.
              let (o, found, owned, typed) =
                Holds-ok _ (owned_target-IsTarget "user" tables.users principal.user_id) e in
              own o empty (or_false-right (principal.user_id == "") principal.is_service user) found
                owned typed)

    resolved-Reaches :
        Holds
          (Reaches tables principal header)
          (resolve_database_target enc tables principal header)
    unfolding resolve_database_target
    resolved-Reaches =
        if_cases (Holds (Reaches tables principal header)) (header == "")
          (λ empty. own_target-Reaches ((eq_iff header "").0 empty))
          (λ _. named_target-Reaches (split_colon header) refl)

-- The database that a request is given is, without a header, the one of its own user, who is not the
-- service; with a header, the global database that it names or the database of the organization that
-- it names. Its definition has the type of a user, a global or an organization database accordingly.
pub resolve_database_target-Reaches :
    (enc : Encryption) (tables : Tables) (principal : Principal) (header : String)
    (t : DatabaseTarget)
    → resolve_database_target enc tables principal header ≡ ok t
    → Reaches tables principal header t
resolve_database_target-Reaches enc tables principal header t e =
    Holds-ok _ (resolved-Reaches enc tables principal header) e
