-- ===== src/Tests/Accounts.antt =====
-- Runs of backend/app/modules/organizations: members, invitations and API keys.
use ai_business_automation.Prelude.{
  ℕ, str_eq, if◌then◌else◌, Option, ◌<◌, String, none, some, true, List, [], ◌∷◌, ◌++◌, ◌≡◌, ◌≢◌,
  refl, ◌⊎◌, inl, inr, arith, select, Member,
}
use ai_business_automation.Errors.{ok, err, app, not_found, conflict, uncaught, scalar_one_or_none}
use ai_business_automation.Database.{change_row, UniqueKeys}
use ai_business_automation.Organizations.Roles.{owner, employee, role_rank}
use ai_business_automation.Organizations.Models.{
  Department, Organization, OrgMember, Invitation, ApiKey,
}
use ai_business_automation.Organizations.Members.{
  MemberUpdate, member_id, is_member, with_role, update_member, remove_member, transfer_ownership,
}
use ai_business_automation.Organizations.Members.Laws.{
  owns, update_member_grants_below, update_member_unseats_owner, remove_member_keeps_owners,
}
use ai_business_automation.Organizations.Members.Ownership.{transfer_ownership_moves}
use ai_business_automation.Organizations.Invitations.{
  invitation_id, opens, accepted, membership, join, accept_invitation,
}
use ai_business_automation.Organizations.Invitations.Laws.{
  accept_invitation-eq-ok, accept_invitation_once,
}
use ai_business_automation.Organizations.ApiKeys.{
  ApiKeyCreate, new_key, create_api_key, revoke_api_key, get_org_by_api_key,
}
use ai_business_automation.Organizations.ApiKeys.Revoked.{get_org_by_api_key-revoke_api_key}
use ai_business_automation.Organizations.ApiKeys.Life.{
  KeyRuns, done, create_step, use_step, revoke_step, get_org_by_api_key-create_api_key,
}
use ai_business_automation.Organizations.Orgs.{get_by_id, create_department, update_department}
use ai_business_automation.Organizations.Orgs.Departments.{department_name_taken}
use ai_business_automation.Organizations.Dependencies.{require_org_member, require_org_member-eq-ok}
use ai_business_automation.Tests.Samples.{whole, ada, bob, eve, members}

members-UniqueKeys : UniqueKeys member_id members
members-UniqueKeys = (refl, (refl, (refl, tt)))

transfer_ownership_moves_example :
    (members' : List OrgMember) × (transfer_ownership 7 101 100 members ≡ ok members')
    × (select (owns 7) members' ≡ with_role owner bob ∷ [])
transfer_ownership_moves_example =
    transfer_ownership_moves 7 101 100 members ada bob members-UniqueKeys refl refl refl

abbrev to_employee : MemberUpdate
to_employee = record { role = employee; department_id = none }

update_member_unseats_owner_example :
    (members' : List OrgMember) × (update_member 7 100 to_employee bob members ≡ ok members')
    × (select (owns 7) members' ≡ [])
update_member_unseats_owner_example =
    update_member_unseats_owner 7 100 to_employee bob ada members refl refl refl (omega arith)

abbrev bob_employee : OrgMember
bob_employee = with_role employee bob

updated_lem : update_member 7 101 to_employee ada members ≡ ok (ada ∷ bob_employee ∷ eve ∷ [])
unfolding update_member scalar_one_or_none change_row
updated_lem = refl

update_member_grants_below_example :
    Member bob_employee members ⊎ (role_rank employee < role_rank owner)
update_member_grants_below_example =
    update_member_grants_below 7 101 to_employee ada members updated_lem bob_employee
      (inr (inl refl))

removed_lem : remove_member 7 101 members ≡ ok (ada ∷ eve ∷ [])
unfolding remove_member scalar_one_or_none
removed_lem = refl

remove_member_keeps_owners_example : Member ada (ada ∷ eve ∷ [])
remove_member_keeps_owners_example =
    remove_member_keeps_owners 7 101 members members-UniqueKeys removed_lem ada (inl refl) refl

-- A hash and a lower case that change nothing.
abbrev same : String → String
same s = s

abbrev invitation : Invitation
invitation = record {
  id = 5;
  organization_id = 7;
  invited_by = 100;
  email = "carl@example.org";
  role = employee;
  token_hash = "t0";
  expires_at = 9000;
  accepted_at = none;
}

accept_lem :
    accept_invitation same same 4 "t0" 8000 103 "carl@example.org" members (invitation ∷ [])
    ≡ ok (invitation, members ++ membership 4 103 invitation ∷ [], accepted 8000 invitation ∷ [])
unfolding accept_invitation scalar_one_or_none join change_row
accept_lem = refl

accept_invitation-eq-ok_example :
    (select (opens "t0" 8000) (invitation ∷ []) ≡ invitation ∷ [])
    × (same invitation.email ≡ same "carl@example.org")
    × (select (is_member 7 103) members ≡ [])
    × (members ++ membership 4 103 invitation ∷ [] ≡ members ++ membership 4 103 invitation ∷ [])
    × (accepted 8000 invitation ∷ [] ≡ change_row invitation_id 5 (accepted 8000) (invitation ∷ []))
    × (invitation.token_hash ≡ same "t0")
    × (invitation.accepted_at ≡ none)
    × (8000 < 9000)
accept_invitation-eq-ok_example =
    accept_invitation-eq-ok same same 4 "t0" 8000 103 "carl@example.org" members (invitation ∷ [])
      accept_lem

accept_invitation_once_example :
    accept_invitation same same 6 "t0" 8500 104 "dora@example.org" members
      (accepted 8000 invitation ∷ [])
    ≡ err (app not_found)
accept_invitation_once_example =
    accept_invitation_once same same 4 "t0" 8000 103 "carl@example.org" members (invitation ∷ [])
      accept_lem 6 8500 104 "dora@example.org" members (omega arith)

abbrev acme : Organization whole
acme = record {
  id = 7;
  name = "Acme";
  slug = "acme";
  plan = "free";
  is_active = true;
  settings = 0;
  storage_used_bytes = 0;
}

abbrev key_payload : ApiKeyCreate
key_payload = record { label = "CI"; scopes = "read" ∷ []; expires_at = some 9000 }

abbrev key : ApiKey
key = new_key same 11 "r4nd0m" 7 100 key_payload

created_lem :
    create_api_key same 11 "r4nd0m" 7 100 key_payload [] ≡ ok ((key, "bpa_sk_r4nd0m"), key ∷ [])
unfolding create_api_key
created_lem = refl

-- Another key is made, this one is used, and the other one is revoked.
abbrev other_key : ApiKey
other_key = new_key same 12 "0th3r" 7 101 key_payload

abbrev used_key : ApiKey
used_key = record key { last_used_at = some 7000 }

abbrev later_keys : List ApiKey
later_keys = used_key ∷ record other_key { revoked_at = some 7500 } ∷ []

other_lem :
    create_api_key same 12 "0th3r" 7 101 key_payload (key ∷ [])
    ≡ ok ((other_key, "bpa_sk_0th3r"), key ∷ other_key ∷ [])
unfolding create_api_key
other_lem = refl

used_lem :
    get_org_by_api_key same 7000 "bpa_sk_r4nd0m" (acme ∷ []) (key ∷ other_key ∷ [])
    ≡ ok ((used_key, acme), used_key ∷ other_key ∷ [])
unfolding get_org_by_api_key scalar_one_or_none change_row
used_lem = refl

other_revoked_lem : revoke_api_key 7500 7 12 7 (used_key ∷ other_key ∷ []) ≡ ok later_keys
unfolding revoke_api_key scalar_one_or_none change_row
other_revoked_lem = refl

key_runs : KeyRuns same whole (λ i. i ≢ 11) (key ∷ []) later_keys
key_runs = create_step 12 "0th3r" 7 101 key_payload other_lem (
    use_step 7000 "bpa_sk_r4nd0m" (acme ∷ []) used_lem
      (revoke_step 7500 7 12 7 (omega arith) other_revoked_lem done))

get_org_by_api_key-create_api_key_example :
    (used : ApiKey) × (end : List ApiKey) × (get_org_by_api_key same 8000 "bpa_sk_r4nd0m"
        (acme ∷ [])
        later_keys
      ≡ ok ((used, acme), end))
    × (used.id ≡ 11)
    × (used.scopes ≡ "read" ∷ [])
get_org_by_api_key-create_api_key_example =
    get_org_by_api_key-create_api_key same 11 "r4nd0m" 7 100 key_payload [] (key ∷ []) later_keys
      key "bpa_sk_r4nd0m" 8000 (acme ∷ []) acme created_lem key_runs refl refl refl

abbrev revoked_key : ApiKey
revoked_key = record key { revoked_at = some 8100 }

revoked_lem : revoke_api_key 8100 7 11 7 (key ∷ []) ≡ ok (revoked_key ∷ [])
unfolding revoke_api_key scalar_one_or_none change_row
revoked_lem = refl

made_later_lem :
    create_api_key same 12 "0th3r" 7 101 key_payload (revoked_key ∷ [])
    ≡ ok ((other_key, "bpa_sk_0th3r"), revoked_key ∷ other_key ∷ [])
unfolding create_api_key
made_later_lem = refl

get_org_by_api_key-revoke_api_key_example :
    get_org_by_api_key same 8200 "bpa_sk_r4nd0m" (acme ∷ []) (revoked_key ∷ other_key ∷ [])
    ≡ err (app not_found)
get_org_by_api_key-revoke_api_key_example =
    get_org_by_api_key-revoke_api_key same 8100 7 7 (key ∷ []) (revoked_key ∷ [])
      (revoked_key ∷ other_key ∷ []) key "bpa_sk_r4nd0m" 8200 (acme ∷ []) refl revoked_lem
      (create_step 12 "0th3r" 7 101 key_payload made_later_lem done)

-- "7" is the one identifier.
abbrev parse_seven : String → Option ℕ
parse_seven s = if str_eq s "7" then some 7 else none

required_lem : require_org_member parse_seven "7" 100 (acme ∷ []) members ≡ ok ada
unfolding require_org_member scalar_one_or_none
required_lem = refl

require_org_member-eq-ok_example :
    (org_id : ℕ) × (org : Organization whole) × (parse_seven "7" ≡ some org_id)
    × (get_by_id org_id (acme ∷ []) ≡ some org)
    × (org.is_active ≡ true)
    × (select (is_member org_id 100) members ≡ ada ∷ [])
    × Member ada members
    × (7 ≡ org_id)
    × (ada.user_id ≡ 100)
require_org_member-eq-ok_example =
    require_org_member-eq-ok parse_seven "7" 100 (acme ∷ []) members required_lem

abbrev sales : Department
sales = record { id = 1; organization_id = 7; name = "Sales" }

abbrev support : Department
support = record { id = 2; organization_id = 7; name = "Support" }

department_name_taken_example :
    (create_department 3 7 7 "Sales" (sales ∷ support ∷ []) ≡ err (app conflict))
    × (update_department 7 2 7 "Sales" (sales ∷ support ∷ []) ≡ err uncaught)
department_name_taken_example =
    department_name_taken 3 7 (sales ∷ support ∷ []) sales support (inl refl) refl refl (λ e. cc e)
