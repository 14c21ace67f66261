-- ===== src/Tests/Paths.antt =====
-- Runs of backend/app/modules/organizations/router.py.
use ai_business_automation.Prelude.{String, [], ◌≡◌, refl, arith}
use ai_business_automation.Errors.{err, app, not_found}
use ai_business_automation.Organizations.Orgs.{OrgDb}
use ai_business_automation.Organizations.Router.{delete_member, required_role, respond}
use ai_business_automation.Organizations.Router.OtherOrg.{respond_other_org}
use ai_business_automation.Tests.Samples.{whole, ada, members}

abbrev org_db : OrgDb whole
org_db = record {
  organizations = [];
  members = members;
  departments = [];
  invitations = [];
  api_keys = [];
}

abbrev unhashed : String → String
unhashed s = s

respond_other_org_example :
    respond unhashed 1000 ada 8 (delete_member 102) org_db ≡ (err (app not_found), org_db)
unfolding required_role
respond_other_org_example =
    respond_other_org unhashed 1000 ada 8 (delete_member 102) org_db (omega arith) refl refl
