-- ===== src/Organizations/Invitations.antt =====
-- The invitation functions of backend/app/modules/organizations/service.py. `hash_token` (SHA-256)
-- and `lower` (`str.lower`) are parameters; a time is a number of seconds.
pub mod Laws
use ai_business_automation.Prelude.{
  ℕ, ◌+◌, ◌*◌, String, Option, none, some, Bool, true, false, not, List, ◌==◌, ◌&&◌, ◌||◌, str_eq,
  ltb, is_some, if◌then◌else◌, select, any,
}
use ai_business_automation.Errors.{
  Result, ok, err, app, ◌>>=◌, ◌>>◌, not_found, conflict, forbidden, scalar_one_or_none, or_raise,
  raise_if,
}
use ai_business_automation.Database.{add_row, change_row, delete_row}
use ai_business_automation.Workflows.Graph.{Values}
use ai_business_automation.Organizations.Roles.{Role}
use ai_business_automation.Organizations.Models.{Organization, OrgMember, Invitation}
use ai_business_automation.Organizations.Members.{is_member}

pub record InvitationCreate : Type 0 where
  pub email : String
  pub role : Role

abbrev pub invitation_id : Invitation → ℕ
invitation_id i = i.id

-- `accepted_at.is_(None)`
abbrev pub is_pending : Invitation → Bool
is_pending i = not (is_some i.accepted_at)

-- 48 hours
abbrev pub invitation_ttl : ℕ
invitation_ttl = 48 * 3600

unfoldable pub list_invitations : ℕ → ℕ → List Invitation → Result (List Invitation)
list_invitations org_id requesting_org_id invitations =
    if org_id == requesting_org_id
    then ok (select (λ i. i.organization_id == org_id && is_pending i) invitations)
    else err (app not_found)

-- `id` or `token_hash` is taken: `primary_key` and `unique`.
abbrev pub invitation_clashes : Invitation → Invitation → Bool
invitation_clashes inv i = i.id == inv.id || str_eq i.token_hash inv.token_hash

-- `uq_org_members_org_user`, and the primary key.
abbrev pub member_clashes : OrgMember → OrgMember → Bool
member_clashes new m = m.id == new.id || is_member new.organization_id new.user_id m

unfoldable pub revoke_invitation : ℕ → ℕ → ℕ → List Invitation → Result (List Invitation)
revoke_invitation org_id id requesting_org_id invitations = do
  raise_if (not (org_id == requesting_org_id)) not_found
  found ← scalar_one_or_none (select (λ i. i.id == id && i.organization_id == org_id) invitations)
  inv ← or_raise found not_found
  ok (delete_row invitation_id inv.id invitations)

-- The invitation that a token opens at a time.
abbrev pub opens : String → ℕ → Invitation → Bool
opens token_hash now i = str_eq i.token_hash token_hash && is_pending i && ltb now i.expires_at

abbrev pub accepted : ℕ → Invitation → Invitation
accepted now i = record i { accepted_at = some now }

module _ (hash_token : String → String) where
  -- `id` is drawn by the database and `plaintext` by `generate_token`.
  unfoldable pub invite_member :
      ℕ
      → String
      → ℕ
      → ℕ
      → ℕ
      → InvitationCreate
      → List Invitation
      → Result ((Invitation × String) × List Invitation)
  invite_member id plaintext now org_id invited_by payload invitations = do
    pending ← scalar_one_or_none (
        select (λ i. i.organization_id == org_id && str_eq i.email payload.email && is_pending i)
          invitations)
    raise_if (is_some pending) conflict
    let inv : Invitation = record {
      id = id;
      organization_id = org_id;
      invited_by = invited_by;
      email = payload.email;
      role = payload.role;
      token_hash = hash_token plaintext;
      expires_at = now + invitation_ttl;
      accepted_at = none;
    }
    rows ← add_row (invitation_clashes inv) inv invitations
    ok ((inv, plaintext), rows)

-- The membership that an invitation gives.
abbrev pub membership : ℕ → ℕ → Invitation → OrgMember
membership id user_id inv = record {
  id = id;
  organization_id = inv.organization_id;
  user_id = user_id;
  role = inv.role;
  department_id = none;
}

module _ (lower : String → String) where
  -- The part of `accept_invitation` from the comparison of the addresses to the new member.
  unfoldable pub join : ℕ → ℕ → String → Invitation → List OrgMember → Result (List OrgMember)
  join id user_id user_email inv members = do
    raise_if (not (str_eq (lower inv.email) (lower user_email))) (forbidden "EMAIL_MISMATCH")
    already ← scalar_one_or_none (select (is_member inv.organization_id user_id) members)
    raise_if (is_some already) conflict
    add_row (member_clashes (membership id user_id inv)) (membership id user_id inv) members

module _ (hash_token : String → String) (lower : String → String) where
  -- The invitation, the members and the invitations afterwards.
  unfoldable pub accept_invitation :
      ℕ
      → String
      → ℕ
      → ℕ
      → String
      → List OrgMember
      → List Invitation
      → Result (Invitation × List OrgMember × List Invitation)
  accept_invitation id token now user_id user_email members invitations = do
    found ← scalar_one_or_none (select (opens (hash_token token) now) invitations)
    inv ← or_raise found not_found
    members' ← join lower id user_id user_email inv members
    ok (inv, members', change_row invitation_id inv.id (accepted now) invitations)
