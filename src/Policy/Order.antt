-- ===== src/Policy/Order.antt =====
-- The order of the reported rules: backend/policy/rules.py.
use mathlib.Core.List.{append_assoc}
use supportops_ai.Common.{
  refl, Bool, true, false, inl, List, [], ◌∷◌, ◌++◌, Text, codes, if◌then◌else◌, IsSubsequence,
  IsSubsequence-append, IsSubsequence-select,
}
use supportops_ai.Str.{lower, contains}
use supportops_ai.Policy.{
  Score, escalation_keywords, refund_keyword, low_confidence_threshold, score_lt,
  has_amount_over_threshold, refund_rules, matched_keyword_rules, matched_policy_rules,
  evaluate_policy,
}

-- every rule that the policy knows, in the order of the code
abbrev pub all_rules : List Text
all_rules =
    escalation_keywords
    ++ ((refund_keyword ∷ codes "refund_over_threshold" ∷ [])
        ++ ((codes "low_confidence" ∷ []) ++ (codes "agent_unresolved" ∷ [])))

IsSubsequence-when : (b : Bool) (x : Text) → IsSubsequence (if b then x ∷ [] else []) (x ∷ [])
IsSubsequence-when true x = inl (refl, tt)
IsSubsequence-when false x = tt

refund_part :
    (b c : Bool) (x y : Text)
    → IsSubsequence (if b then x ∷ (if c then y ∷ [] else []) else []) (x ∷ y ∷ [])
refund_part true c x y = inl (refl, IsSubsequence-when c y)
refund_part false c x y = tt

-- The reported rules are `all_rules` with some left out: in that order, and none twice.
pub matched_rules-IsSubsequence :
    (t : Text) (s : Score) (u : Bool)
    → IsSubsequence (evaluate_policy t s u).matched_rules all_rules
unfolding evaluate_policy matched_policy_rules matched_keyword_rules refund_rules
matched_rules-IsSubsequence t s u =
    let text = lower t in
    rw append_assoc (
      IsSubsequence-append _ _ escalation_keywords _
        (IsSubsequence-select (contains text) escalation_keywords)
        (IsSubsequence-append _ _ (refund_keyword ∷ codes "refund_over_threshold" ∷ []) _
          (refund_part (contains text refund_keyword) (has_amount_over_threshold text) _ _)
          (IsSubsequence-append _ _ (codes "low_confidence" ∷ []) _
            (IsSubsequence-when (score_lt s low_confidence_threshold) _) (IsSubsequence-when u _))))
