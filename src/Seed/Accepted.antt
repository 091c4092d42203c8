-- ===== src/Seed/Accepted.antt =====
-- The rows of backend/scripts/seed.py in the migrated schema.
use supportops_ai.Common.{
  ◌≤◌, refl, inl, inr, true, Option, none, some, ◌++◌, Text, codes, text_eq, In, length,
}
use supportops_ai.Enums.{UserRole, CustomerTier, user_role_value, customer_tier_value}
use supportops_ai.Migrations.Schema.{Schema, Default, column, uuid}
use supportops_ai.Migrations.History.{head}
use supportops_ai.Migrations.Inserts.{priority_label, status_label, text_or_null-Fits}
use supportops_ai.Migrations.Values.{labels_of, CellFits, Accepts}
use supportops_ai.Seed.Rows.{NewUser, NewCustomer, NewDeskTicket, KnowledgeArticleSeed}
use supportops_ai.Seed.Values.{
  key_or_null, user_values, customer_values, desk_ticket_values, article_values,
}

key_or_null-Fits :
    {A : Type 0} (s : Schema) (n : Text) (d : Option Default) (o : Option A)
    → CellFits s (column n uuid true d) (some (key_or_null o))
key_or_null-Fits s n d none = refl
key_or_null-Fits s n d (some a) = tt

module _ (base : Schema) where
  role_label :
      (r : UserRole) → In (user_role_value r) (labels_of (codes "user_role") (head ++ base))
  unfolding head text_eq
  role_label UserRole.agent = inl refl
  role_label UserRole.supervisor = inr (inl refl)
  role_label UserRole.admin = inr (inr (inl refl))

  tier_label :
      (t : CustomerTier)
      → In (customer_tier_value t) (labels_of (codes "customer_tier") (head ++ base))
  unfolding head text_eq
  tier_label CustomerTier.standard = inl refl
  tier_label CustomerTier.premium = inr (inl refl)
  tier_label CustomerTier.enterprise = inr (inr (inl refl))

  pub user_taken :
      (u : NewUser)
      → length u.email ≤ 255
      → length u.full_name ≤ 255
      → Accepts (head ++ base) (codes "users") (user_values u)
  unfolding head text_eq
  user_taken u h h' = (
    (refl, (refl, (refl, (refl, (refl, (refl, tt)))))),
    (tt, (h, (tt, (h', (role_label u.role, (tt, (refl, (refl, tt)))))))),
  )

  pub customer_taken :
      (c : NewCustomer)
      → length c.name ≤ 255
      → length c.email ≤ 255
      → length c.company ≤ 255
      → Accepts (head ++ base) (codes "customers") (customer_values c)
  unfolding head text_eq
  customer_taken c h h' h'' = (
    (refl, (refl, (refl, (refl, (refl, tt))))),
    (tt, (h, (h', (h'', (tier_label c.tier, (refl, tt)))))),
  )

  pub desk_ticket_taken :
      (t : NewDeskTicket)
      → length t.subject ≤ 255
      → Accepts (head ++ base) (codes "tickets") (desk_ticket_values t)
  unfolding head text_eq
  desk_ticket_taken t h = (
    (refl, (refl, (refl, (refl, (refl, (refl, (refl, (refl, tt)))))))),
    (
      tt,
      (
        tt,
        (
          key_or_null-Fits (head ++ base) (codes "assigned_agent_id") none t.assigned_agent,
          (
            h,
            (
              tt,
              (
                priority_label base t.priority,
                (
                  status_label base t.status,
                  (
                    text_or_null-Fits (head ++ base) (codes "ai_summary") none t.ai_summary,
                    (refl, (refl, tt)),
                  ),
                ),
              ),
            ),
          ),
        ),
      ),
    ),
  )

  pub article_taken :
      (a : KnowledgeArticleSeed)
      → length a.category ≤ 50
      → length a.title ≤ 255
      → Accepts (head ++ base) (codes "knowledge_articles") (article_values a)
  unfolding head text_eq
  article_taken a h h' =
      ((refl, (refl, (refl, (refl, tt)))), (h, (h', (tt, (tt, (refl, (refl, tt)))))))
