-- ===== src/Sample/Queue.antt =====
-- Services on a world that is the requests for approval: those stored, and those that the session
-- sees.
use supportops_ai.Common.{◌≡◌, refl, true, none, List, [], ◌∷◌, codes, select, In-select, select-In}
use supportops_ai.Python.{pure, ok, raise, other}
use supportops_ai.Models.{ApprovalRequest}
use supportops_ai.Services.{Services}
use supportops_ai.Supervisor.Rows.{written, QueueLaws}
use supportops_ai.Sample.Codec.{codec}
use supportops_ai.Sample.Services.{request, ticket_of}

abbrev pub Requests : Type 0
Requests = List ApprovalRequest × List ApprovalRequest

abbrev pub stored : Requests → List ApprovalRequest
stored (s, v) = s

abbrev pub visible : Requests → List ApprovalRequest
visible (s, v) = v

-- another pending request, of another ticket
abbrev pub other_request : ApprovalRequest
other_request = record request { id = codes "a2"; ticket_id = codes "t2" }

unfoldable pub queue_services : Services Requests
queue_services = record {
  settings = record {
    redis_idempotency_ttl_seconds = 3600;
    redis_checkpoint_ttl_seconds = 3600;
    redis_classification_cache_ttl_seconds = 3600;
    redis_knowledge_cache_ttl_seconds = 3600;
    jwt_access_token_expire_minutes = 30;
  };
  redis = record {
    get = λ k. pure none;
    set = λ k v ttl. pure tt;
    set_nx = λ k v ttl. pure true;
    delete = λ k. pure tt;
  };
  json = codec;
  sha256_hex = λ t. t;
  now = pure 1000;
  isoformat = λ t. t ∷ [];
  fromisoformat = λ t. none;
  open_session = λ w. (ok tt, (stored w, stored w));
  close_session = λ w. (ok tt, (stored w, stored w));
  commit = λ w. (ok tt, (visible w, visible w));
  rollback = λ w. (ok tt, (stored w, stored w));
  get_customer = λ id. pure none;
  user_by_email = λ email. pure none;
  get_user = λ id. pure none;
  insert_ticket = λ n. pure (ticket_of n);
  insert_approval_request = λ n. pure (codes "a3");
  insert_audit_log = λ a. pure tt;
  approval_by_id = λ id. pure request;
  select_approvals = λ test ascending w. (ok (select test (visible w)), w);
  flush_approval = λ d w. (ok tt, (stored w, written d (visible w)));
  select_articles = λ category. pure [];
  new_open_ai = pure tt;
  parse_classification = λ system user. pure none;
  new_agent = λ a. pure tt;
  new_crew = λ a d. pure tt;
  kickoff = λ a d. raise (other (codes "timeout"));
}

pub queue_services-QueueLaws : QueueLaws queue_services stored visible
unfolding queue_services
queue_services-QueueLaws = record {
  open_keeps = record { kept = λ w. refl };
  open_sees = λ w w' h. let e : (stored w, stored w) ≡ w' = cc h in rw (← e) refl;
  close_keeps = record { kept = λ w. refl };
  commit_stores = λ w w' h. let e : (visible w, visible w) ≡ w' = cc h in rw (← e) refl;
  commit_fails = λ x w w' h. absurd (cc h);
  now_keeps = record { kept = λ w. refl };
  now_sees = record { kept = λ w. refl };
  audit_keeps = λ a. record { kept = λ w. refl };
  audit_sees = λ a. record { kept = λ w. refl };
  select_keeps = λ test ascending. record { kept = λ w. refl };
  select_sees = λ test ascending. record { kept = λ w. refl };
  selects = λ test ascending w w' l h r.
      let e : select test (visible w) ≡ l = cc h in
      rw (← e) (select-In test r (visible w), λ both. In-select test r (visible w) both.0 both.1);
  flush_keeps = λ d. record { kept = λ w. refl };
  flush_writes = λ d w w' h. let e : (stored w, written d (visible w)) ≡ w' = cc h in rw (← e) refl;
}
