-- ===== src/Migrations/Inserts.antt =====
-- The rows that the backend inserts, in the migrated schema: the inserts of
-- backend/database/repositories/ticket.py, approval_request.py and audit_log.py.
use supportops_ai.Common.{
  ◌≤◌, ◌≡◌, refl, inl, inr, true, Option, none, some, [], ◌++◌, Text, codes, text_eq, In, length,
  arith,
}
use supportops_ai.Python.{Uuid}
use supportops_ai.Enums.{
  TicketPriority, TicketStatus, ApprovalStatus, SupportAgentType, ticket_priority_value,
  ticket_status_value, approval_status_value, support_agent_type_value,
}
use supportops_ai.Models.{NewTicket, NewApprovalRequest, AuditLog}
use supportops_ai.Migrations.Schema.{Schema, Default, column, uuid, text}
use supportops_ai.Migrations.Effect.{apply_all}
use supportops_ai.Migrations.Revisions.{revisions, upgrade_all}
use supportops_ai.Migrations.Frame.{all_names, IsApart}
use supportops_ai.Migrations.Steps.{apply_all-append}
use supportops_ai.Migrations.History.{head}
use supportops_ai.Migrations.Declared.{up_from_empty}
use supportops_ai.Migrations.Rows.{
  uuid_or_null, text_or_null, ticket_values, approval_values, audit_values,
}
use supportops_ai.Migrations.Values.{labels_of, CellFits, Accepts}

pub text_or_null-Fits :
    (s : Schema) (n : Text) (d : Option Default) (o : Option Text)
    → CellFits s (column n text true d) (some (text_or_null o))
text_or_null-Fits s n d none = refl
text_or_null-Fits s n d (some t) = tt

pub uuid_or_null-Fits :
    (s : Schema) (n : Text) (d : Option Default) (o : Option Uuid)
    → CellFits s (column n uuid true d) (some (uuid_or_null o))
uuid_or_null-Fits s n d none = refl
uuid_or_null-Fits s n d (some u) = tt

agent_name_fits : (a : SupportAgentType) → length (support_agent_type_value a) ≤ 50
agent_name_fits SupportAgentType.billing_agent = omega arith
agent_name_fits SupportAgentType.technical_agent = omega arith
agent_name_fits SupportAgentType.account_agent = omega arith
agent_name_fits SupportAgentType.general_agent = omega arith

module _ (base : Schema) where
  pub priority_label :
      (p : TicketPriority)
      → In (ticket_priority_value p) (labels_of (codes "ticket_priority") (head ++ base))
  unfolding head text_eq
  priority_label TicketPriority.low = inl refl
  priority_label TicketPriority.medium = inr (inl refl)
  priority_label TicketPriority.high = inr (inr (inl refl))
  priority_label TicketPriority.urgent = inr (inr (inr (inl refl)))

  pub status_label :
      (t : TicketStatus)
      → In (ticket_status_value t) (labels_of (codes "ticket_status") (head ++ base))
  unfolding head text_eq
  status_label TicketStatus.new = inl refl
  status_label TicketStatus.triaged = inr (inl refl)
  status_label TicketStatus.assigned = inr (inr (inl refl))
  status_label TicketStatus.drafted = inr (inr (inr (inl refl)))
  status_label TicketStatus.approval_required = inr (inr (inr (inr (inl refl))))
  status_label TicketStatus.approved = inr (inr (inr (inr (inr (inl refl)))))
  status_label TicketStatus.sent = inr (inr (inr (inr (inr (inr (inl refl))))))
  status_label TicketStatus.closed = inr (inr (inr (inr (inr (inr (inr (inl refl)))))))

  approval_label :
      (a : ApprovalStatus)
      → In (approval_status_value a) (labels_of (codes "approval_status") (head ++ base))
  unfolding head text_eq
  approval_label ApprovalStatus.pending = inl refl
  approval_label ApprovalStatus.approved = inr (inl refl)
  approval_label ApprovalStatus.rejected = inr (inr (inl refl))

  ticket_taken :
      (n : NewTicket)
      → length n.subject ≤ 255
      → Accepts (head ++ base) (codes "tickets") (ticket_values n)
  unfolding head text_eq
  ticket_taken n h = (
    (refl, (refl, (refl, (refl, (refl, (refl, tt)))))),
    (
      tt,
      (
        tt,
        (
          refl,
          (
            h,
            (tt, (priority_label n.priority, (status_label n.status, (refl, (refl, (refl, tt)))))),
          ),
        ),
      ),
    ),
  )

  approval_taken :
      (n : NewApprovalRequest)
      → length n.selected_agent ≤ 50
      → Accepts (head ++ base) (codes "approval_requests") (approval_values n)
  unfolding head text_eq
  approval_taken n h = (
    (refl, (refl, (refl, (refl, (refl, (refl, (refl, tt))))))),
    (
      tt,
      (
        tt,
        (
          refl,
          (
            refl,
            (
              approval_label n.status,
              (
                refl,
                (
                  refl,
                  (
                    refl,
                    (
                      tt,
                      (
                        text_or_null-Fits (head ++ base) (codes "retrieved_context") none
                            n.retrieved_context,
                        (h, (tt, tt)),
                      ),
                    ),
                  ),
                ),
              ),
            ),
          ),
        ),
      ),
    ),
  )

  audit_taken :
      (a : AuditLog)
      → length a.event_type ≤ 100
      → Accepts (head ++ base) (codes "audit_logs") (audit_values a)
  unfolding head text_eq
  audit_taken a h = (
    (refl, (refl, (refl, (refl, (refl, (refl, tt)))))),
    (
      tt,
      (
        tt,
        (
          uuid_or_null-Fits (head ++ base) (codes "user_id") none a.user_id,
          (h, (tt, (tt, (refl, tt)))),
        ),
      ),
    ),
  )

-- In the schema that the upgrades leave, on whatever they started from that mentions none of their
-- names: the table of tickets takes every ticket whose subject has at most 255 characters, the
-- table of approval requests takes every request for the draft of one of the agents, and the
-- table of audit events every event whose type has at most 100 characters. Each insert gives only
-- columns that the table has, a value that fits for each of them, and one for every column that
-- may not be NULL and has no default.
pub inserts-Accepts :
    (base s : Schema)
    → IsApart (all_names (upgrade_all revisions)) base
    → apply_all (upgrade_all revisions) base ≡ some s
    → ((n : NewTicket) → length n.subject ≤ 255 → Accepts s (codes "tickets") (ticket_values n))
      × ((n : NewApprovalRequest) (a : SupportAgentType)
          → n.selected_agent ≡ support_agent_type_value a
          → Accepts s (codes "approval_requests") (approval_values n))
      × ((a : AuditLog)
          → length a.event_type ≤ 100
          → Accepts s (codes "audit_logs") (audit_values a))
inserts-Accepts base s apart up =
    let made = apply_all-append (upgrade_all revisions) [] head base apart up_from_empty in
    let same : head ++ base ≡ s = cc (made, up) in
    (
      λ n h. rw (← same) (ticket_taken base n h),
      λ n a e. rw (← same) (approval_taken base n (rw e (agent_name_fits a))),
      λ a h. rw (← same) (audit_taken base a h),
    )
