-- ===== src/Enums/Values.antt =====
-- Members and their values: backend/database/enums.py and backend/graph/state.py.
use supportops_ai.Common.{
  ◌≡◌, refl, sym, ◌↔◌, some, List, [], ◌∷◌, Text, text_eq, text_eq→≡, inl, inr, Bool-cases,
}
use supportops_ai.Enums.{
  by_value, TicketCategory, ticket_category_value, ticket_category_members, ticket_category,
  UserRole, user_role_value, user_role_members, user_role,
}

by_value-eq_some {ℓ} :
    {E : Type ℓ} (value : E → Text) (es : List E) (t : Text) (e : E)
    → by_value value es t ≡ some e
    → value e ≡ t
by_value-eq_some value [] t e h = cc
by_value-eq_some value (x ∷ es) t e h = elim (Bool-cases (text_eq (value x) t)) [
  | inl same ↦
      let found : some x ≡ some e = rw same at h in
      let member : x ≡ e = cc found in rw (← member) (text_eq→≡ (value x) t same)
  | inr other ↦ by_value-eq_some value es t e (rw other at h)
]

ticket_category-value : (c : TicketCategory) → ticket_category (ticket_category_value c) ≡ some c
unfolding ticket_category text_eq
ticket_category-value TicketCategory.billing = refl
ticket_category-value _ = refl

user_role-value : (r : UserRole) → user_role (user_role_value r) ≡ some r
unfolding user_role text_eq
user_role-value UserRole.agent = refl
user_role-value _ = refl

-- A text is read as a category exactly when it is that category's value.
pub ticket_category_iff :
    (t : Text) (c : TicketCategory) → (ticket_category t ≡ some c) ↔ (t ≡ ticket_category_value c)
unfolding ticket_category
ticket_category_iff t c = (
  λ h. sym (by_value-eq_some ticket_category_value ticket_category_members t c h),
  λ e. rw e (ticket_category-value c),
)

-- A text is read as a role exactly when it is that role's value.
pub user_role_iff : (t : Text) (r : UserRole) → (user_role t ≡ some r) ↔ (t ≡ user_role_value r)
unfolding user_role
user_role_iff t r = (
  λ h. sym (by_value-eq_some user_role_value user_role_members t r h),
  λ e. rw e (user_role-value r),
)
