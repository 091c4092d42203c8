-- ===== src/Sample/Response.antt =====
-- A response model that meets its laws: the fields in the order of the class.
use supportops_ai.Common.{◌≡◌, refl, ap, List, [], ◌∷◌, Text, codes, text_eq}
use supportops_ai.Python.{Outcome, ok, raised, value_error}
use supportops_ai.Json.{
  bool, num, str, arr, Items, nil, cons, Fields, end, field, get_field, put_field,
}
use supportops_ai.Tickets.{TicketCreateResponse, ResponseModel}
use supportops_ai.Tickets.Replay.{ResponseModelLaws}

unfoldable pub to_items : List Text → Items
to_items [] = nil
to_items (t ∷ ts) = cons (str t) (to_items ts)

unfoldable pub of_items : Items → List Text
of_items nil = []
of_items (cons (str t) is) = t ∷ of_items is
of_items (cons _ is) = of_items is

of_items-to_items : (ts : List Text) → of_items (to_items ts) ≡ ts
unfolding of_items to_items
of_items-to_items [] = refl
of_items-to_items (t ∷ ts) = ap (◌∷◌ t) (of_items-to_items ts)

unfoldable pub dump : TicketCreateResponse → Fields
dump r = field (codes "ticket_id") (str r.ticket_id) (
    field (codes "customer_id") (str r.customer_id) (
      field (codes "category") (str r.category) (
        field (codes "selected_agent") (str r.selected_agent) (
          field (codes "draft_response") (str r.draft_response) (
            field (codes "requires_human_review") (bool r.requires_human_review) (
              field (codes "matched_policy_rules") (arr (to_items r.matched_policy_rules)) (
                field (codes "created_at") (num r.created_at)
                  (field (codes "idempotent_replay") (bool r.idempotent_replay) end))))))))

unfoldable pub validate : Fields → Outcome TicketCreateResponse
validate
      (field _ (str ticket_id) (
        field _ (str customer_id) (
          field _ (str category) (
            field _ (str selected_agent) (
              field _ (str draft_response) (
                field _ (bool requires_human_review) (
                  field _
                    (arr rules)
                    (field _ (num created_at) (field _ (bool idempotent_replay) end))))))))) =
    ok (record {
      ticket_id = ticket_id;
      customer_id = customer_id;
      category = category;
      selected_agent = selected_agent;
      draft_response = draft_response;
      requires_human_review = requires_human_review;
      matched_policy_rules = of_items rules;
      created_at = created_at;
      idempotent_replay = idempotent_replay;
    })
validate _ = raised (value_error (codes "validation error"))

unfoldable pub model : ResponseModel
model = record { model_dump = dump; validate = validate }

pub model-ResponseModelLaws : ResponseModelLaws model
unfolding model dump validate get_field put_field text_eq
model-ResponseModelLaws = record {
  no_status = λ r. refl;
  validate_dump = λ r. rw (of_items-to_items r.matched_policy_rules);
}
