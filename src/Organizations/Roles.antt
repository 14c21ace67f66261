-- ===== src/Organizations/Roles.antt =====
-- `ROLE_RANK` of backend/app/modules/organizations/models.py, the assignable roles of schemas.py
-- and `require_org_role` of dependencies.py. A role is a text; `other` is any that has no rank.
use ai_business_automation.Prelude.{
  ℕ, String, Bool, true, false, ltb, if◌then◌else◌, ◌≤◌, ◌≡◌, arith,
}
use ai_business_automation.Errors.{Result, ok, err, forbidden, bad_request, raise_if}

pub data Role : Type 0 where
  owner admin manager analyst employee viewer : Role
  other : String → Role

-- `ROLE_RANK.get(role, 0)`
abbrev pub role_rank : Role → ℕ
role_rank owner = 6
role_rank admin = 5
role_rank manager = 4
role_rank analyst = 3
role_rank employee = 2
role_rank viewer = 1
role_rank (other r) = 0

-- `role in ASSIGNABLE_ROLES`
abbrev pub is_assignable : Role → Bool
is_assignable owner = false
is_assignable (other r) = false
is_assignable _ = true

-- `role_not_owner`, the validator of `MemberUpdate` and `InvitationCreate`
unfoldable pub role_not_owner : Role → Result Role
role_not_owner r = if is_assignable r then ok r else err bad_request

-- `require_org_role(min_role)`, on the caller's role
unfoldable pub require_org_role : Role → Role → Result (Unit {0})
require_org_role min_role role =
    raise_if (ltb (role_rank role) (role_rank min_role)) (forbidden "INSUFFICIENT_ROLE")

-- The check passes for the roles of at least the demanded rank.
pub require_org_role-eq-ok :
    (min_role role : Role)
    → role_rank min_role ≤ role_rank role
    → require_org_role min_role role ≡ ok tt
unfolding require_org_role
require_org_role-eq-ok min_role role h = ground (arith, h)

-- The text of a role, as the column holds it.
unfoldable pub role_text : Role → String
role_text owner = "owner"
role_text admin = "admin"
role_text manager = "manager"
role_text analyst = "analyst"
role_text employee = "employee"
role_text viewer = "viewer"
role_text (other r) = r
