-- ===== src/Policy.antt =====
-- The escalation policy: backend/policy/rules.py.
mod Amount
pub mod Order
pub mod Review
pub mod Figures
pub mod Single
mod Tests
pub use Amount.{Decimal}
unfoldable pub use Amount.{
  find_amounts, parse_decimal, exceeds_threshold, has_amount_over_threshold,
}
use supportops_ai.Common.{
  ℕ, ◌*◌, ◌^◌, ◌≡◌, refl, Bool, true, false, List, [], ◌∷◌, ◌++◌, Text, codes, ltb, if◌then◌else◌,
  select,
}
use supportops_ai.Str.{lower, contains, join}

-- A non-negative float, exactly: `mantissa / 2 ^ shift`.
pub record Score : Type 0 where
  pub mantissa : ℕ
  pub shift : ℕ

abbrev pub escalation_keywords : List Text
escalation_keywords =
    codes "legal"
    ∷ codes "lawsuit"
    ∷ codes "attorney"
    ∷ codes "security"
    ∷ codes "breach"
    ∷ codes "fraud"
    ∷ []

abbrev pub refund_keyword : Text
refund_keyword = codes "refund"

-- The double nearest to 0.7 is 6305039478318694 / 2 ^ 53.
abbrev pub low_confidence_threshold : Score
low_confidence_threshold = record { mantissa = 6305039478318694; shift = 53 }

-- `a < b`
unfoldable pub score_lt : Score → Score → Bool
score_lt a b = ltb (a.mantissa * 2 ^ b.shift) (b.mantissa * 2 ^ a.shift)

pub record PolicyEvaluation : Type 0 where
  pub requires_human_review : Bool
  pub matched_rules : List Text
  pub reason : Text

unfoldable pub refund_rules : Text → List Text
refund_rules text =
    if contains text refund_keyword
    then refund_keyword
      ∷ (if has_amount_over_threshold text then codes "refund_over_threshold" ∷ [] else [])
    else []

unfoldable pub matched_keyword_rules : Text → List Text
unfolding refund_rules
matched_keyword_rules ticket_text =
    let text = lower ticket_text in select (contains text) escalation_keywords ++ refund_rules text

unfoldable pub build_reason : List Text → Text
build_reason [] = codes "No escalation rules matched; eligible for automated response."
build_reason (r ∷ rs) =
    codes "Escalation rules matched: " ++ (join (codes ", ") (r ∷ rs) ++ codes ".")

-- `bool(l)` of a list
abbrev pub is_nonempty : List Text → Bool
is_nonempty [] = false
is_nonempty (_ ∷ _) = true

unfoldable pub matched_policy_rules : Text → Score → Bool → List Text
matched_policy_rules ticket_text confidence_score agent_unresolved =
    matched_keyword_rules ticket_text
    ++ ((if score_lt confidence_score low_confidence_threshold
          then codes "low_confidence" ∷ []
          else [])
        ++ (if agent_unresolved then codes "agent_unresolved" ∷ [] else []))

unfoldable pub evaluate_policy : Text → Score → Bool → PolicyEvaluation
evaluate_policy ticket_text confidence_score agent_unresolved =
    let matched_rules = matched_policy_rules ticket_text confidence_score agent_unresolved in
    record {
      requires_human_review = is_nonempty matched_rules;
      matched_rules = matched_rules;
      reason = build_reason matched_rules;
    }
