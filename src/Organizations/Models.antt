-- ===== src/Organizations/Models.antt =====
-- backend/app/modules/organizations/models.py: the five tables, each the list of its rows in the
-- order in which they were added. Identifiers are only compared, and times are only ordered, so
-- both are numbers; `settings` is a dict that nothing looks into.
use ai_business_automation.Prelude.{ℕ, String, Option, Bool, List}
use ai_business_automation.Organizations.Roles.{Role}
use ai_business_automation.Workflows.Graph.{Values}

pub record Organization (v : Values) : Type 0 where
  pub id : ℕ
  pub name : String
  pub slug : String
  pub plan : String
  pub is_active : Bool
  pub settings : v.Config
  pub storage_used_bytes : ℕ

pub record OrgMember : Type 0 where
  pub id : ℕ
  pub organization_id : ℕ
  pub user_id : ℕ
  pub role : Role
  pub department_id : Option ℕ

pub record Department : Type 0 where
  pub id : ℕ
  pub organization_id : ℕ
  pub name : String

pub record Invitation : Type 0 where
  pub id : ℕ
  pub organization_id : ℕ
  pub invited_by : ℕ
  pub email : String
  pub role : Role
  pub token_hash : String
  pub expires_at : ℕ
  pub accepted_at : Option ℕ

pub record ApiKey : Type 0 where
  pub id : ℕ
  pub organization_id : ℕ
  pub created_by : ℕ
  pub label : String
  pub key_hash : String
  pub key_prefix : String
  pub scopes : List String
  pub last_used_at : Option ℕ
  pub expires_at : Option ℕ
  pub revoked_at : Option ℕ
