-- ===== src/Organizations/Members.antt =====
-- The member functions of backend/app/modules/organizations/service.py: reading a member,
-- changing a role, removing a member and handing over the ownership.
pub mod Laws
pub mod Ownership
use ai_business_automation.Prelude.{
  ℕ, Option, none, some, Bool, true, false, List, ◌==◌, ◌&&◌, leb, if◌then◌else◌, select, not,
}
use ai_business_automation.Errors.{
  Result, ok, err, app, ◌>>=◌, ◌>>◌, not_found, forbidden, scalar_one_or_none, or_raise, raise_if,
}
use ai_business_automation.Database.{change_row, delete_row}
use ai_business_automation.Organizations.Roles.{Role, owner, admin, other, role_rank, is_assignable}
use ai_business_automation.Organizations.Models.{OrgMember}

-- The body of PATCH; `role` has passed `role_not_owner`.
pub record MemberUpdate : Type 0 where
  pub role : Role
  pub department_id : Option ℕ

abbrev pub member_id : OrgMember → ℕ
member_id m = m.id

abbrev pub is_owner : Role → Bool
is_owner owner = true
is_owner _ = false

-- The query of every function here.
abbrev pub is_member : ℕ → ℕ → OrgMember → Bool
is_member org_id user_id m = m.organization_id == org_id && m.user_id == user_id

-- `list_members`
unfoldable pub list_members : ℕ → ℕ → List OrgMember → Result (List OrgMember)
list_members org_id requesting_org_id members =
    if org_id == requesting_org_id
    then ok (select (λ m. m.organization_id == org_id) members)
    else err (app not_found)

unfoldable pub get_member : ℕ → ℕ → List OrgMember → Result OrgMember
get_member org_id user_id members = do
  found ← scalar_one_or_none (select (is_member org_id user_id) members)
  or_raise found not_found

abbrev pub with_update : MemberUpdate → OrgMember → OrgMember
with_update payload m = record m {
  role = payload.role;
  department_id = elim payload.department_id [ none ↦ m.department_id | some d ↦ some d ];
}

unfoldable pub update_member :
    ℕ → ℕ → MemberUpdate → OrgMember → List OrgMember → Result (List OrgMember)
update_member org_id target_user_id payload caller_member members = do
  found ← scalar_one_or_none (select (is_member org_id target_user_id) members)
  target ← or_raise found not_found
  raise_if (leb (role_rank caller_member.role) (role_rank payload.role))
      (forbidden "INSUFFICIENT_ROLE")
  ok (change_row member_id target.id (with_update payload) members)

unfoldable pub remove_member : ℕ → ℕ → List OrgMember → Result (List OrgMember)
remove_member org_id target_user_id members = do
  found ← scalar_one_or_none (select (is_member org_id target_user_id) members)
  target ← or_raise found not_found
  raise_if (is_owner target.role) (forbidden "CANNOT_REMOVE_OWNER")
  ok (delete_row member_id target.id members)

abbrev pub with_role : Role → OrgMember → OrgMember
with_role r m = record m { role = r }

-- `if caller: caller.role = "admin"`
abbrev pub demote : Option OrgMember → List OrgMember → List OrgMember
demote none members = members
demote (some caller) members = change_row member_id caller.id (with_role admin) members

-- Where the caller is the new owner, both names are one object, and the later write stays.
unfoldable pub transfer_ownership : ℕ → ℕ → ℕ → List OrgMember → Result (List OrgMember)
transfer_ownership org_id new_owner_user_id caller_user_id members = do
  caller ← scalar_one_or_none (select (is_member org_id caller_user_id) members)
  found ← scalar_one_or_none (select (is_member org_id new_owner_user_id) members)
  new_owner ← or_raise found not_found
  ok (change_row member_id new_owner.id (with_role owner) (demote caller members))
