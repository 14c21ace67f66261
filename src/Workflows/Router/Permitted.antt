-- ===== src/Workflows/Router/Permitted.antt =====
-- The roles that may use each endpoint of backend/app/modules/workflows/router.py, written out as
-- the comment at the top of that file has them, and the check that the code makes.
use ai_business_automation.Prelude.{[], ◌∷◌, List, ◌≡◌, refl, inl, inr, Member}
use ai_business_automation.Errors.{ok}
use ai_business_automation.Organizations.Roles.{
  Role, owner, admin, manager, analyst, employee, viewer, other, require_org_role,
}
use ai_business_automation.Workflows.Graph.{Values}
use ai_business_automation.Workflows.Router.{
  Request, create, update, delete, publish, revert, duplicate, archive, min_role,
}

abbrev pub roles_for : {v : Values} → Request v → List Role
roles_for (create uuid payload) = owner ∷ admin ∷ manager ∷ []
roles_for (update wf_id payload) = owner ∷ admin ∷ manager ∷ []
roles_for (delete wf_id) = owner ∷ admin ∷ []
roles_for (publish uuid wf_id payload) = owner ∷ admin ∷ manager ∷ []
roles_for (revert uuid wf_id version_number) = owner ∷ admin ∷ []
roles_for (duplicate uuid wf_id name) = owner ∷ admin ∷ manager ∷ []
roles_for (archive wf_id) = owner ∷ admin ∷ []

passed_manager :
    (role : Role) {u : Unit {0}}
    → require_org_role manager role ≡ ok u
    → Member role (owner ∷ admin ∷ manager ∷ [])
unfolding require_org_role
passed_manager owner h = inl refl
passed_manager admin h = inr (inl refl)
passed_manager manager h = inr (inr (inl refl))
passed_manager analyst h = cc
passed_manager employee h = cc
passed_manager viewer h = cc
passed_manager (other r) h = cc

passed_admin :
    (role : Role) {u : Unit {0}}
    → require_org_role admin role ≡ ok u
    → Member role (owner ∷ admin ∷ [])
unfolding require_org_role
passed_admin owner h = inl refl
passed_admin admin h = inr (inl refl)
passed_admin manager h = cc
passed_admin analyst h = cc
passed_admin employee h = cc
passed_admin viewer h = cc
passed_admin (other r) h = cc

-- Whoever passes the check of an endpoint has one of its roles.
pub require_org_role-Member :
    {v : Values} (request : Request v) (role : Role) {u : Unit {0}}
    → require_org_role (min_role request) role ≡ ok u
    → Member role (roles_for request)
unfolding min_role
require_org_role-Member (create uuid payload) role h = passed_manager role h
require_org_role-Member (update wf_id payload) role h = passed_manager role h
require_org_role-Member (delete wf_id) role h = passed_admin role h
require_org_role-Member (publish uuid wf_id payload) role h = passed_manager role h
require_org_role-Member (revert uuid wf_id version_number) role h = passed_admin role h
require_org_role-Member (duplicate uuid wf_id name) role h = passed_manager role h
require_org_role-Member (archive wf_id) role h = passed_admin role h

-- Whoever has one of them passes it.
permitted_manager :
    (role : Role)
    → Member role (owner ∷ admin ∷ manager ∷ [])
    → require_org_role manager role ≡ ok tt
unfolding require_org_role
permitted_manager role (inl e) = rw e refl
permitted_manager role (inr (inl e)) = rw e refl
permitted_manager role (inr (inr (inl e))) = rw e refl
permitted_manager role (inr (inr (inr m))) = absurd m

permitted_admin :
    (role : Role) → Member role (owner ∷ admin ∷ []) → require_org_role admin role ≡ ok tt
unfolding require_org_role
permitted_admin role (inl e) = rw e refl
permitted_admin role (inr (inl e)) = rw e refl
permitted_admin role (inr (inr m)) = absurd m

pub require_org_role-permitted :
    {v : Values} (request : Request v) (role : Role)
    → Member role (roles_for request)
    → require_org_role (min_role request) role ≡ ok tt
unfolding min_role
require_org_role-permitted (create uuid payload) role m = permitted_manager role m
require_org_role-permitted (update wf_id payload) role m = permitted_manager role m
require_org_role-permitted (delete wf_id) role m = permitted_admin role m
require_org_role-permitted (publish uuid wf_id payload) role m = permitted_manager role m
require_org_role-permitted (revert uuid wf_id version_number) role m = permitted_admin role m
require_org_role-permitted (duplicate uuid wf_id name) role m = permitted_manager role m
require_org_role-permitted (archive wf_id) role m = permitted_admin role m
