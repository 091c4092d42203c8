-- ===== src/Sample/Services.antt =====
-- Services on the sample world.
use supportops_ai.Common.{
  true, Option, none, some, List, [], ◌∷◌, Text, codes, text_eq, if◌then◌else◌, select,
}
use supportops_ai.Python.{Exec, pure, raise, other, Time}
use supportops_ai.Python.Returns.{Returns-pure}
use supportops_ai.Enums.{UserRole, CustomerTier, ApprovalStatus, TicketPriority}
use supportops_ai.Redis.{Redis}
use supportops_ai.Models.{User, Customer, Ticket, NewTicket, ApprovalRequest}
use supportops_ai.Services.{Services}
use supportops_ai.Graph.Workflow.{LangGraph, LangGraphLaws, chain_from, run_chain, start}
use supportops_ai.Graph.State.{WorkflowState}
use supportops_ai.Graph.Nodes.{Node}
use supportops_ai.Graph.Workflow.Outcomes.{Constructs}
use supportops_ai.Common.{length}
use supportops_ai.Sample.Codec.{codec}
use supportops_ai.Sample.World.{World, redis, redis-RedisFails}

abbrev pub agent_user : User
agent_user = record {
  id = codes "u1";
  email = codes "a@x";
  password_hash = codes "#pw";
  full_name = codes "Ada";
  role = UserRole.supervisor;
  is_active = true;
}

abbrev pub customer : Customer
customer = record {
  id = codes "c1";
  name = codes "Cy";
  email = codes "c@x";
  company = none;
  tier = CustomerTier.standard;
  created_at = 1;
}

abbrev pub request : ApprovalRequest
request = record {
  id = codes "a1";
  ticket_id = codes "t1";
  customer_id = codes "c1";
  priority = TicketPriority.low;
  requested_by = none;
  approved_by = none;
  status = ApprovalStatus.pending;
  comments = none;
  requested_at = 5;
  decided_at = none;
  draft_response = codes "Dear Cy";
  retrieved_context = none;
  selected_agent = codes "general_agent";
  matched_policy_rules = [];
}

abbrev pub ticket_of : NewTicket → Ticket
ticket_of n = record {
  id = codes "t1";
  customer_id = n.customer_id;
  subject = n.subject;
  description = n.description;
  priority = n.priority;
  status = n.status;
  created_at = some 7;
}

-- services on a Redis, with one customer, one user and one pending request; the model is down
unfoldable pub services_on : Redis World → Services World
services_on r = record {
  settings = record {
    redis_idempotency_ttl_seconds = 3600;
    redis_checkpoint_ttl_seconds = 3600;
    redis_classification_cache_ttl_seconds = 3600;
    redis_knowledge_cache_ttl_seconds = 3600;
    jwt_access_token_expire_minutes = 30;
  };
  redis = r;
  json = codec;
  sha256_hex = λ t. t;
  now = pure 1000;
  isoformat = λ t. t ∷ [];
  fromisoformat = time_of;
  open_session = pure tt;
  close_session = pure tt;
  commit = pure tt;
  rollback = pure tt;
  get_customer = λ id. pure (if text_eq id (codes "c1") then some customer else none);
  user_by_email = λ email. pure (if text_eq email (codes "a@x") then some agent_user else none);
  get_user = λ id. pure (if text_eq id (codes "u1") then some agent_user else none);
  insert_ticket = λ n. pure (ticket_of n);
  insert_approval_request = λ n. pure (codes "a1");
  insert_audit_log = λ a. raise (other (codes "audit log is down"));
  approval_by_id = λ id. pure request;
  select_approvals = λ test ascending. pure (select test (request ∷ []));
  flush_approval = λ row. pure tt;
  select_articles = λ category. pure [];
  new_open_ai = pure tt;
  parse_classification = λ system user. pure (some (codes "billing"));
  new_agent = λ a. pure tt;
  new_crew = λ a d. pure tt;
  kickoff = λ a d. raise (other (codes "timeout"));
}
  where
    time_of : Text → Option Time
    time_of (t ∷ []) = some t
    time_of _ = none

unfoldable pub services : Services World
unfolding services_on
services = services_on redis

abbrev pub invoke_first :
    {W : Type 0} → Option (List (Node W)) → WorkflowState → Exec W WorkflowState
invoke_first none state = raise (other (codes "no chain"))
invoke_first (some nodes) state = run_chain nodes state

-- a graph runner for chains
unfoldable pub runner : {W : Type 0} → LangGraph W
runner = record { invoke = λ g state. invoke_first (chain_from g (length g.edges) start) state }

pub runner-LangGraphLaws : {W : Type 0} → LangGraphLaws (runner {W = W})
unfolding runner
runner-LangGraphLaws = record { invoke_chain = λ g nodes state w edges chain. rw chain }

pub services-Constructs : Constructs services
unfolding services services_on
services-Constructs = record {
  redis_fails = redis-RedisFails;
  open_ai = Returns-pure tt;
  agent = λ a. Returns-pure tt;
  crew = λ a d. Returns-pure tt;
}
