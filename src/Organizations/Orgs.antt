-- ===== src/Organizations/Orgs.antt =====
-- The organization and department functions of backend/app/modules/organizations/service.py.
-- `slugify` is `_slugify`, which Slugs has; identifiers are drawn by the database.
pub mod Departments
use ai_business_automation.Prelude.{
  ℕ, String, Option, none, some, Bool, true, not, List, [], ◌∷◌, ◌++◌, ◌==◌, ◌&&◌, ◌||◌, str_eq,
  is_some, if◌then◌else◌, get_or_else, select, any,
}
use ai_business_automation.Errors.{
  Result, ok, err, uncaught, ◌>>=◌, ◌>>◌, not_found, conflict, forbidden, scalar_one_or_none,
  or_raise, raise_if,
}
use ai_business_automation.Database.{add_row, change_row, delete_row}
use ai_business_automation.Workflows.Graph.{Values}
use ai_business_automation.Organizations.Roles.{owner}
use ai_business_automation.Organizations.Models.{
  Organization, OrgMember, Department, Invitation, ApiKey,
}
use ai_business_automation.Organizations.Invitations.{member_clashes}

-- The tables of the module.
pub record OrgDb (v : Values) : Type 0 where
  pub organizations : List (Organization v)
  pub members : List OrgMember
  pub departments : List Department
  pub invitations : List Invitation
  pub api_keys : List ApiKey

pub record OrgCreate : Type 0 where
  pub name : String
  pub slug : Option String

pub record OrgUpdate (v : Values) : Type 0 where
  pub name : Option String
  pub plan : Option String
  pub is_active : Option Bool
  pub settings : Option v.Config

abbrev pub department_id : Department → ℕ
department_id d = d.id

-- `payload.slug or _slugify(payload.name)`; an empty slug counts as none.
abbrev pub chosen_slug : (String → String) → OrgCreate → String
chosen_slug slugify payload = elim payload.slug [
  | none ↦ slugify payload.name
  | some s ↦ if str_eq s "" then slugify payload.name else s
]

module _ {v : Values} where
  abbrev pub org_key : Organization v → ℕ
  org_key o = o.id

  -- `db.get(Organization, id)`
  abbrev pub get_by_id : ℕ → List (Organization v) → Option (Organization v)
  get_by_id id [] = none
  get_by_id id (o ∷ rows) = if o.id == id then some o else get_by_id id rows

  -- The primary key and the unique slug.
  abbrev pub org_clashes : Organization v → Organization v → Bool
  org_clashes new o = o.id == new.id || str_eq o.slug new.slug

  -- The creator becomes the owner.
  unfoldable pub create_org :
      (String → String) → ℕ → ℕ → ℕ → OrgCreate → OrgDb v → Result (Organization v × OrgDb v)
  create_org slugify org_id member_id user_id payload db = do
    let slug = chosen_slug slugify payload
    taken ← scalar_one_or_none (select (λ o. str_eq o.slug slug) db.organizations)
    raise_if (is_some taken) conflict
    let org : Organization v = record {
      id = org_id;
      name = payload.name;
      slug = slug;
      plan = "free";
      is_active = true;
      settings = v.empty_config;
      storage_used_bytes = 0;
    }
    organizations ← add_row (org_clashes org) org db.organizations
    let member : OrgMember = record {
      id = member_id;
      organization_id = org_id;
      user_id = user_id;
      role = owner;
      department_id = none;
    }
    members ← add_row (member_clashes member) member db.members
    ok (org, record db { organizations = organizations; members = members })

  unfoldable pub get_org : ℕ → ℕ → OrgDb v → Result (Organization v)
  get_org org_id requesting_org_id db = do
    raise_if (not (org_id == requesting_org_id)) not_found
    or_raise (get_by_id org_id db.organizations) not_found

  abbrev pub with_org_update : OrgUpdate v → Organization v → Organization v
  with_org_update payload o = record o {
    name = get_or_else payload.name o.name;
    plan = get_or_else payload.plan o.plan;
    is_active = get_or_else payload.is_active o.is_active;
    settings = get_or_else payload.settings o.settings;
  }

  unfoldable pub update_org : ℕ → ℕ → OrgUpdate v → OrgDb v → Result (OrgDb v)
  update_org org_id requesting_org_id payload db = do
    org ← get_org org_id requesting_org_id db
    ok (record db {
      organizations = change_row org_key org.id (with_org_update payload) db.organizations;
    })

  -- Deleting an organization deletes what belongs to it (`delete-orphan`).
  abbrev pub delete_org_rows : ℕ → OrgDb v → OrgDb v
  delete_org_rows id db = record {
    organizations = select (λ o. not (o.id == id)) db.organizations;
    members = select (λ m. not (m.organization_id == id)) db.members;
    departments = select (λ d. not (d.organization_id == id)) db.departments;
    invitations = select (λ i. not (i.organization_id == id)) db.invitations;
    api_keys = select (λ k. not (k.organization_id == id)) db.api_keys;
  }

  unfoldable pub delete_org : ℕ → ℕ → String → OrgDb v → Result (OrgDb v)
  delete_org org_id requesting_org_id confirmation db = do
    org ← get_org org_id requesting_org_id db
    raise_if (not (str_eq confirmation org.slug)) (forbidden "CONFIRMATION_MISMATCH")
    ok (delete_org_rows org.id db)

-- `uq_departments_org_name`, and the primary key.
abbrev pub department_clashes : Department → Department → Bool
department_clashes new d =
    d.id == new.id || d.organization_id == new.organization_id && str_eq d.name new.name

unfoldable pub list_departments : ℕ → ℕ → List Department → Result (List Department)
list_departments org_id requesting_org_id departments = do
  raise_if (not (org_id == requesting_org_id)) not_found
  ok (select (λ d. d.organization_id == org_id) departments)

-- An `IntegrityError` becomes a 409.
unfoldable pub create_department :
    ℕ → ℕ → ℕ → String → List Department → Result (Department × List Department)
create_department id org_id requesting_org_id name departments = do
  raise_if (not (org_id == requesting_org_id)) not_found
  let dept : Department = record { id = id; organization_id = org_id; name = name }
  raise_if (any (department_clashes dept) departments) conflict
  ok (dept, departments ++ dept ∷ [])

-- The query of the two functions below.
abbrev pub is_department : ℕ → ℕ → Department → Bool
is_department org_id dept_id d = d.id == dept_id && d.organization_id == org_id

-- `uq_departments_org_name`, for a new name of `dept`.
abbrev pub name_taken : Department → String → Department → Bool
name_taken dept name d =
    not (d.id == dept.id) && (d.organization_id == dept.organization_id && str_eq d.name name)

-- `dept.name = payload.name` and the flush
abbrev pub rename : Department → String → List Department → Result (List Department)
rename dept name departments =
    if any (name_taken dept name) departments
    then err uncaught
    else ok (change_row department_id dept.id (λ d. record d { name = name }) departments)

-- Here the flush is outside any `try`: a name that is taken raises the `IntegrityError` itself.
unfoldable pub update_department : ℕ → ℕ → ℕ → String → List Department → Result (List Department)
update_department org_id dept_id requesting_org_id name departments = do
  raise_if (not (org_id == requesting_org_id)) not_found
  found ← scalar_one_or_none (select (is_department org_id dept_id) departments)
  dept ← or_raise found not_found
  rename dept name departments

unfoldable pub delete_department : ℕ → ℕ → ℕ → List Department → Result (List Department)
delete_department org_id dept_id requesting_org_id departments = do
  raise_if (not (org_id == requesting_org_id)) not_found
  found ← scalar_one_or_none (select (is_department org_id dept_id) departments)
  dept ← or_raise found not_found
  ok (delete_row department_id dept.id departments)
