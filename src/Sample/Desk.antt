-- ===== src/Sample/Desk.antt =====
-- Services that store the requests for approval that they are given; the model is down.
use supportops_ai.Common.{◌≡◌, refl, inl, some, ◌∷◌, codes, select, In-select, select-In}
use supportops_ai.Python.{ok, pure}
use supportops_ai.Python.Returns.{Returns-pure}
use supportops_ai.Models.{ApprovalRequest, NewApprovalRequest}
use supportops_ai.Services.{Services}
use supportops_ai.Graph.Nodes.Review.{ReviewLaws}
use supportops_ai.Graph.Workflow.Outcomes.{Constructs}
use supportops_ai.Supervisor.Rows.{written, QueueLaws}
use supportops_ai.Sample.Services.{request, customer}
use supportops_ai.Sample.Queue.{Requests, stored, visible, queue_services}

abbrev row_of : NewApprovalRequest → ApprovalRequest
row_of n = record request {
  id = codes "a9";
  ticket_id = n.ticket_id;
  status = n.status;
  draft_response = n.draft_response;
  retrieved_context = n.retrieved_context;
  selected_agent = n.selected_agent;
  matched_policy_rules = n.matched_policy_rules;
}

unfoldable pub desk_services : Services Requests
unfolding queue_services
desk_services = record queue_services {
  get_customer = λ id. pure (some customer);
  insert_approval_request = λ n w. (ok (codes "a9"), (stored w, row_of n ∷ visible w));
}

pub desk_services-QueueLaws : QueueLaws desk_services stored visible
unfolding desk_services queue_services
desk_services-QueueLaws = record {
  open_keeps = record { kept = λ w. refl };
  open_sees = λ w w' h. let e : (stored w, stored w) ≡ w' = cc h in rw (← e) refl;
  close_keeps = record { kept = λ w. refl };
  commit_stores = λ w w' h. let e : (visible w, visible w) ≡ w' = cc h in rw (← e) refl;
  commit_fails = λ x w w' h. absurd (cc h);
  now_keeps = record { kept = λ w. refl };
  now_sees = record { kept = λ w. refl };
  audit_keeps = λ a. record { kept = λ w. refl };
  audit_sees = λ a. record { kept = λ w. refl };
  select_keeps = λ test ascending. record { kept = λ w. refl };
  select_sees = λ test ascending. record { kept = λ w. refl };
  selects = λ test ascending w w' l h r.
      let e : select test (visible w) ≡ l = cc h in
      rw (← e) (select-In test r (visible w), λ both. In-select test r (visible w) both.0 both.1);
  flush_keeps = λ d. record { kept = λ w. refl };
  flush_writes = λ d w w' h. let e : (stored w, written d (visible w)) ≡ w' = cc h in rw (← e) refl;
}

pub desk_services-ReviewLaws : ReviewLaws desk_services stored visible
unfolding desk_services queue_services
desk_services-ReviewLaws = record {
  opens = record { at = λ w. (tt, (stored w, stored w), refl) };
  closes = record { at = λ w. (tt, (stored w, stored w), refl) };
  commits = record { at = λ w. (tt, (visible w, visible w), refl) };
  inserts = λ n. record { at = λ w. (codes "a9", (stored w, row_of n ∷ visible w), refl) };
  loads = λ id. Returns-pure request;
  load_sees = λ id. record { kept = λ w. refl };
  insert_adds = λ n id w w' h.
      let e : (stored w, row_of n ∷ visible w) ≡ w' = cc h in
      (row_of n, rw (← e) (inl refl), (refl, refl, refl, refl, refl, refl));
}

pub desk_services-Constructs : Constructs desk_services
unfolding desk_services queue_services
desk_services-Constructs = record {
  redis_fails = record {
    get_fails = λ k. record { is_redis = λ w w' e h. absurd (cc h) };
    set_fails = λ k v ttl. record { is_redis = λ w w' e h. absurd (cc h) };
    set_nx_fails = λ k v ttl. record { is_redis = λ w w' e h. absurd (cc h) };
    delete_fails = λ k. record { is_redis = λ w w' e h. absurd (cc h) };
  };
  open_ai = Returns-pure tt;
  agent = λ a. Returns-pure tt;
  crew = λ a d. Returns-pure tt;
}
