-- ===== src/Tests/Samples.antt =====
-- A graph of backend/app/modules/workflows, a session of requests for it, and members.
use ai_business_automation.Prelude.{
  ℕ, ◌+◌, String, Option, none, some, List, [], ◌∷◌, str_eq, if◌then◌else◌,
}
use ai_business_automation.Errors.{Result, ◌>>=◌}
use ai_business_automation.Organizations.Roles.{Role, owner, manager}
use ai_business_automation.Organizations.Models.{OrgMember}
use ai_business_automation.Workflows.Graph.{Values, GraphNode, GraphEdge, WorkflowGraph}
use ai_business_automation.Workflows.Models.{Db}
use ai_business_automation.Workflows.Service.{Uuids}
use ai_business_automation.Workflows.Router.{Request, create, update, publish, handle}

-- Whole numbers for everything that is handed on.
abbrev pub whole : Values
whole = record { Float = ℕ; Int = ℕ; Config = ℕ; empty_config = 0; int = some }

abbrev pub sample_node : String → String → GraphNode whole
sample_node id type_ = record {
  id = id;
  type_ = type_;
  label = id;
  position = record { x = 10; y = 20 };
  config = 0;
}

abbrev pub sample_edge : String → String → String → String → GraphEdge
sample_edge id source target handle = record {
  id = id;
  source = source;
  target = target;
  source_handle = handle;
  target_handle = "input";
}

-- A trigger, a condition, and an action for each of its branches.
abbrev pub invoice_flow : WorkflowGraph whole
invoice_flow = record {
  nodes =
      sample_node "start" "trigger.webhook"
      ∷ sample_node "check" "action.condition"
      ∷ sample_node "mail" "action.email"
      ∷ [];
  edges =
      sample_edge "e1" "start" "check" "output"
      ∷ sample_edge "e2" "check" "mail" "true"
      ∷ sample_edge "e3" "check" "mail" "false"
      ∷ [];
}

-- The condition is asked again and has no second branch.
abbrev pub looping_flow : WorkflowGraph whole
looping_flow = record {
  nodes = sample_node "start" "trigger.manual" ∷ sample_node "check" "action.condition" ∷ [];
  edges = sample_edge "e1" "start" "check" "output" ∷ sample_edge "e2" "check" "check" "true" ∷ [];
}

abbrev pub sample_member : ℕ → ℕ → ℕ → Role → OrgMember
sample_member id org_id user_id role = record {
  id = id;
  organization_id = org_id;
  user_id = user_id;
  role = role;
  department_id = none;
}

abbrev pub ada : OrgMember
ada = sample_member 1 7 100 owner

abbrev pub bob : OrgMember
bob = sample_member 2 7 101 manager

-- The owner of another organization.
abbrev pub eve : OrgMember
eve = sample_member 3 8 102 owner

abbrev pub members : List OrgMember
members = ada ∷ bob ∷ eve ∷ []

abbrev pub empty_db : Db whole
empty_db = record { workflows = []; versions = []; nodes = []; edges = [] }

abbrev pub uuids_from : ℕ → Uuids
uuids_from n k = n + k

-- The database reads two of the texts as identifiers.
abbrev pub as_uuid : String → Option ℕ
as_uuid text = if str_eq text "i50" then some 50 else if str_eq text "i60" then some 60 else none

abbrev pub create_request : Request whole
create_request = create (uuids_from 50) (record { name = "Invoices"; description = none })

abbrev pub update_request : Request whole
update_request =
    update "i50" (record { name = none; description = none; definition = some invoice_flow })

abbrev pub publish_request : Request whole
publish_request = publish (uuids_from 60) "i50" (record { definition = none })

-- Three endpoints on the tables of one session.
abbrev pub served : Result (Db whole)
served = handle as_uuid bob create_request empty_db >>= λ created.
    handle as_uuid bob update_request created >>= λ drafted.
    handle as_uuid bob publish_request drafted
