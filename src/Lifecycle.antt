-- ===== src/Lifecycle.antt =====
-- app/saas/data_lifecycle.py: the export and the deletion of an organization, and `purge_expired` of
-- app/saas/sandbox.py with the queries behind it. A row is its organization and what `to_dict` shows; a
-- deletion that fails is left out, as is the time of an export.
pub mod Erasure
use autonomous_executive_ema.Base.{
  ℕ, ◌+◌, String, Bool, true, false, not, ◌&&◌, Option, none, some, List, [], ◌∷◌, ◌++◌, map, keep,
  count_if, elem, leb, ◌==◌, Dict, str_eq, if◌then◌else◌, is_some,
}

pub record Row : Type 0 where
  pub org_id : Option String
  pub shown : String

pub record Organization : Type 0 where
  pub id : String
  pub name : String
  pub sandbox_expires_at : Option ℕ

-- The organizations, and each other table by its key.
pub record Database : Type 0 where
  pub organizations : List Organization
  pub tables : String → List Row

-- `TENANT_TABLES`.
abbrev pub tenant_tables : List String
tenant_tables =
    "commitments" ∷ "proposed_actions" ∷ "processed_messages" ∷ "escalation_contacts" ∷ "llm_usage"
    ∷ "licenses" ∷ "mailbox_connections" ∷ "audit_log" ∷ "sales_leads" ∷ "users" ∷ []

-- The tables of app/saas/models_db.py with a column `org_id`, by the same keys, in the order of the file.
abbrev pub org_tables : List String
org_tables =
    "users" ∷ "licenses" ∷ "audit_log" ∷ "mailbox_connections" ∷ "processed_messages"
    ∷ "proposed_actions" ∷ "commitments" ∷ "sales_leads" ∷ "llm_usage" ∷ "escalation_contacts" ∷ []

-- `uncovered_tenant_tables`, without the sorting.
unfoldable pub uncovered_tenant_tables : List String
uncovered_tenant_tables = keep (λ key. not (elem key tenant_tables)) org_tables

-- `model.org_id == org_id`.
abbrev pub owned_by : String → Option String → Bool
owned_by org none = false
owned_by org (some o) = str_eq o org

unfoldable pub owned : String → Row → Bool
owned org row = owned_by org row.org_id

-- `session.get(Organization, org_id)`.
unfoldable pub get_org : String → List Organization → Option Organization
get_org id [] = none
get_org id (o ∷ os) = if str_eq o.id id then some o else get_org id os

pub record Bundle : Type 0 where
  pub organization : Organization
  pub rows : Dict (List Row)

-- `export_org`.
unfoldable pub export_org : String → Database → Option Bundle
export_org org db = elim (get_org org db.organizations) [
  | none ↦ none
  | some o ↦ some (record {
    organization = o;
    rows = map (λ key. (key, keep (owned org) (db.tables key))) tenant_tables;
  })
]

-- The rows that the deletion leaves in a table.
unfoldable pub cleared : String → Database → String → List Row
cleared org db key =
    if elem key tenant_tables
    then keep (λ row. not (owned org row)) (db.tables key)
    else db.tables key

-- `delete_org`: the count for each table, where there is such an organization.
unfoldable pub delete_org : String → Database → Option (Dict ℕ) × Database
delete_org org db = elim (get_org org db.organizations) [
  | none ↦ (none, db)
  | some o ↦ (
    some (
        map (λ key. (key, count_if (owned org) (db.tables key))) tenant_tables
        ++ ("organization", 1) ∷ []),
    record {
      organizations = keep (λ x. not (str_eq x.id org)) db.organizations;
      tables = cleared org db;
    },
  )
]

-- `OrganizationRepository.expired_sandbox_ids`.
unfoldable pub is_expired : ℕ → Organization → Bool
is_expired now o = elim o.sandbox_expires_at [ none ↦ false | some deadline ↦ leb deadline now ]

unfoldable pub expired_sandbox_ids : ℕ → Database → List String
expired_sandbox_ids now db = map (λ o. o.id) (keep (is_expired now) db.organizations)

-- `OrganizationRepository.count_sandboxes`.
unfoldable pub count_sandboxes : Database → ℕ
count_sandboxes db = count_if (λ o. is_some o.sandbox_expires_at) db.organizations

-- The loop of `purge_expired`: how many were deleted.
unfoldable pub purge : List String → ℕ × Database → ℕ × Database
purge [] (n, db) = (n, db)
purge (org ∷ orgs) (n, db) =
    let (counts, db2) = delete_org org db in purge orgs (if is_some counts then n + 1 else n, db2)

unfoldable pub purge_expired : ℕ → Database → ℕ × Database
purge_expired now db = purge (expired_sandbox_ids now db) (0, db)

-- `remaining_rows`: the tables that still hold rows of the organization, with their number.
unfoldable pub left_in : String → Database → List String → Dict ℕ
left_in org db [] = []
left_in org db (key ∷ keys) =
    let rest = left_in org db keys in
    let count = count_if (owned org) (db.tables key) in
    if count == 0 then rest else (key, count) ∷ rest

unfoldable pub remaining_rows : String → Database → Dict ℕ
remaining_rows org db =
    let count = count_if (λ (o : Organization). str_eq o.id org) db.organizations in
    let rest = left_in org db org_tables in
    if count == 0 then rest else ("organizations", count) ∷ rest
