-- ===== src/Workflows/Registry.antt =====
-- backend/app/modules/workflows/nodes/registry.py, and the registrations that importing
-- backend/app/modules/workflows/nodes makes, in the order of the imports.
use ai_business_automation.Prelude.{
  String, Option, none, some, Bool, List, [], ◌∷◌, ◌≡◌, refl, arith, is_some, str_eq, eq_iff,
  if◌then◌else◌, get_or_else,
}

-- The subclasses of `BaseNode`.
pub data NodeClass : Type 0 where
  manual_trigger schedule_trigger webhook_trigger email_trigger : NodeClass
  http_request send_email condition delay db_write : NodeClass

-- `NODE_REGISTRY`
abbrev pub Registry : Type 0
Registry = List (String × NodeClass)

-- `get_node_class`
unfoldable pub get_node_class : String → Registry → Option NodeClass
get_node_class node_type [] = none
get_node_class node_type ((t, c) ∷ r) =
    if str_eq t node_type then some c else get_node_class node_type r

-- `node_type in NODE_REGISTRY`
abbrev pub in_registry : String → Registry → Bool
in_registry node_type r = is_some (get_node_class node_type r)

unfoldable add_last : Registry → String → NodeClass → Registry
add_last [] t c = (t, c) ∷ []
add_last (e ∷ r) t c = e ∷ add_last r t c

-- `register_node(node_type)(cls)`; `none` is the `ValueError` for a type that is taken.
unfoldable pub register_node : String → NodeClass → Registry → Option Registry
unfolding add_last get_node_class
register_node node_type cls r =
    if in_registry node_type r then none else some (add_last r node_type cls)

unfoldable pub register_all : List (String × NodeClass) → Registry → Option Registry
unfolding register_node
register_all [] r = some r
register_all ((t, c) ∷ rest) r = elim (register_node t c r) [
  | none ↦ none
  | some r' ↦ register_all rest r'
]

-- The decorated classes.
abbrev pub decorated : List (String × NodeClass)
decorated =
    ("trigger.manual", manual_trigger)
    ∷ ("trigger.schedule", schedule_trigger)
    ∷ ("trigger.webhook", webhook_trigger)
    ∷ ("trigger.email", email_trigger)
    ∷ ("action.http", http_request)
    ∷ ("action.email", send_email)
    ∷ ("action.condition", condition)
    ∷ ("action.delay", delay)
    ∷ ("action.db_write", db_write)
    ∷ []

-- The registry after the import.
unfoldable pub node_registry : Registry
unfolding register_all
node_registry = get_or_else (register_all decorated []) []

-- The import raises no `ValueError`: all nine classes are registered under types of their own.
pub register_all-decorated : register_all decorated [] ≡ some node_registry
unfolding register_all node_registry
register_all-decorated = refl

add_last-get :
    (t u : String) (c : NodeClass) (r : Registry)
    → get_node_class t r ≡ none
    → get_node_class u (add_last r t c) ≡ (if str_eq t u then some c else get_node_class u r)
unfolding get_node_class add_last
add_last-get t u c [] h = refl
add_last-get t u c ((i, d) ∷ r) h =
    ground (arith, eq_iff t u, eq_iff i t, eq_iff i u, add_last-get t u c r)

-- A registration that succeeds adds exactly its own type and keeps every other one.
pub get_node_class-register_node :
    (t u : String) (c : NodeClass) (r r' : Registry)
    → register_node t c r ≡ some r'
    → (get_node_class t r ≡ none)
      × (get_node_class u r' ≡ (if str_eq t u then some c else get_node_class u r))
unfolding register_node
get_node_class-register_node t u c r r' h = ground (arith, add_last-get t u c r)
