-- ===== src/Policy/Review.antt =====
-- Review and reported rules of a ticket: backend/policy/rules.py.
use supportops_ai.Common.{
  ◌*◌, ◌^◌, ◌<◌, ◌≡◌, refl, ◌↔◌, ◌≢◌, inl, inr, Bool, true, List, [], ◌∷◌, ◌++◌, Text, codes,
  ltb→lt, lt→ltb, if◌then◌else◌, select, In, In-append, In-append_left, In-append_right, In-select,
  select-In, In-when, In-when_then, In-when_true,
}
use supportops_ai.Str.{lower, lower-append, contains}
use supportops_ai.Str.Contains.{IsSubstring, contains_iff, contains-around}
use supportops_ai.Policy.{
  Score, escalation_keywords, refund_keyword, low_confidence_threshold, score_lt,
  has_amount_over_threshold, refund_rules, matched_keyword_rules, is_nonempty, matched_policy_rules,
  evaluate_policy,
}

-- Why a rule is reported, told by the text and the signals alone.
pub data Fires (t : Text) (s : Score) (u : Bool) : Text → Type 0 where
  keyword : (k : Text) → In k escalation_keywords → IsSubstring k (lower t) → Fires t s u k
  refund : IsSubstring refund_keyword (lower t) → Fires t s u refund_keyword
  over_threshold :
      IsSubstring refund_keyword (lower t)
      → has_amount_over_threshold (lower t) ≡ true
      → Fires t s u (codes "refund_over_threshold")
  low_confidence :
      s.mantissa * 2 ^ low_confidence_threshold.shift
        < low_confidence_threshold.mantissa * 2 ^ s.shift
      → Fires t s u (codes "low_confidence")
  unresolved : u ≡ true → Fires t s u (codes "agent_unresolved")

IsSubstring-around :
    (a b t k : Text) → IsSubstring k (lower t) → IsSubstring k (lower (a ++ (t ++ b)))
IsSubstring-around a b t k there =
    rw (lower-append, lower-append)
      ((contains_iff (lower a ++ (lower t ++ lower b)) k).0
        (contains-around (lower a) (lower b) (lower t) k ((contains_iff (lower t) k).1 there)))

module _ (t : Text) (s : Score) (u : Bool) where
  refund_rules_sound : (r : Text) → In r (refund_rules (lower t)) → Fires t s u r
  unfolding refund_rules
  refund_rules_sound r h =
      let (found, which) =
        In-when_then (contains (lower t) refund_keyword) r refund_keyword
          (if has_amount_over_threshold (lower t) then codes "refund_over_threshold" ∷ [] else [])
          h in
      let there = (contains_iff (lower t) refund_keyword).0 found in
      elim which [
        | inl e ↦ rw e (refund there)
        | inr m ↦
            let (over, e) =
              In-when (has_amount_over_threshold (lower t)) r (codes "refund_over_threshold") m in
            rw e (over_threshold there over)
      ]

  signals_sound :
      (r : Text)
      → In r (
          (if score_lt s low_confidence_threshold then codes "low_confidence" ∷ [] else [])
          ++ (if u then codes "agent_unresolved" ∷ [] else []))
      → Fires t s u r
  unfolding score_lt
  signals_sound r h = elim (In-append r _ (if u then codes "agent_unresolved" ∷ [] else []) h) [
    | inl m ↦
        let (low, e) = In-when (score_lt s low_confidence_threshold) r (codes "low_confidence") m in
        rw e (low_confidence (ltb→lt _ _ low))
    | inr m ↦ let (set, e) = In-when u r (codes "agent_unresolved") m in rw e (unresolved set)
  ]

  matched_sound : (r : Text) → In r (matched_policy_rules t s u) → Fires t s u r
  unfolding matched_policy_rules matched_keyword_rules
  matched_sound r h = elim (In-append r (matched_keyword_rules t) _ h) [
    | inr m ↦ signals_sound r m
    | inl m ↦ elim (In-append r (select (contains (lower t)) escalation_keywords) _ m) [
      | inl k ↦
          let (known, found) = select-In (contains (lower t)) r escalation_keywords k in
          keyword r known ((contains_iff (lower t) r).0 found)
      | inr k ↦ refund_rules_sound r k
    ]
  ]

  In-keywords : (r : Text) → In r (matched_keyword_rules t) → In r (matched_policy_rules t s u)
  unfolding matched_policy_rules
  In-keywords r h = In-append_left r (matched_keyword_rules t) _ h

  In-refund : (r : Text) → In r (refund_rules (lower t)) → In r (matched_policy_rules t s u)
  unfolding matched_keyword_rules
  In-refund r h =
      In-keywords r (In-append_right r (select (contains (lower t)) escalation_keywords) _ h)

  matched_complete : (r : Text) → Fires t s u r → In r (matched_policy_rules t s u)
  unfolding matched_policy_rules matched_keyword_rules refund_rules score_lt
  matched_complete _ (keyword k known there) = In-keywords k (
      In-append_left k (select (contains (lower t)) escalation_keywords) _ (
        In-select (contains (lower t)) k escalation_keywords known
          ((contains_iff (lower t) k).1 there)))
  matched_complete _ (refund there) =
      In-refund refund_keyword (rw ((contains_iff (lower t) refund_keyword).1 there) (inl refl))
  matched_complete _ (over_threshold there over) =
      In-refund (codes "refund_over_threshold")
        (rw ((contains_iff (lower t) refund_keyword).1 there, over) (inr (inl refl)))
  matched_complete _ (low_confidence low) =
      In-append_right (codes "low_confidence") (matched_keyword_rules t) _ (
        In-append_left (codes "low_confidence") _ (if u then codes "agent_unresolved" ∷ [] else [])
          (In-when_true (score_lt s low_confidence_threshold) (codes "low_confidence")
            (lt→ltb _ _ low)))
  matched_complete _ (unresolved set) =
      In-append_right (codes "agent_unresolved") (matched_keyword_rules t) _ (
        In-append_right (codes "agent_unresolved")
          (if score_lt s low_confidence_threshold then codes "low_confidence" ∷ [] else []) _
          (In-when_true u (codes "agent_unresolved") set))

  nonempty_iff : (l : List Text) → (is_nonempty l ≡ true) ↔ ((r : Text) × In r l)
  nonempty_iff [] = (λ h. absurd (cc), λ (r, m). absurd m)
  nonempty_iff (r ∷ rs) = (λ _. (r, inl refl), λ _. refl)

  -- A rule is reported exactly when its cause is there, and a ticket needs review exactly when the
  -- cause of some rule is there.
  pub evaluate_policy_iff :
      ((r : Text) → In r (evaluate_policy t s u).matched_rules ↔ Fires t s u r)
      × (((evaluate_policy t s u).requires_human_review ≡ true) ↔ ((r : Text) × Fires t s u r))
  unfolding evaluate_policy
  evaluate_policy_iff =
      let some_rule = nonempty_iff (matched_policy_rules t s u) in
      (
        λ r. (matched_sound r, matched_complete r),
        (
          λ h. let (r, m) = some_rule.0 h in (r, matched_sound r m),
          λ (r, f). some_rule.1 (r, matched_complete r f),
        ),
      )

-- Text added before and after a ticket never withdraws a rule other than the amount's.
Fires-around :
    (a b t : Text) (s : Score) (u : Bool) (r : Text)
    → r ≢ codes "refund_over_threshold"
    → Fires t s u r
    → Fires (a ++ (t ++ b)) s u r
Fires-around a b t s u _ ne (keyword k known there) =
    keyword k known (IsSubstring-around a b t k there)
Fires-around a b t s u _ ne (refund there) = refund (IsSubstring-around a b t refund_keyword there)
Fires-around a b t s u _ ne (over_threshold there over) = absurd (ne refl)
Fires-around a b t s u _ ne (low_confidence low) = low_confidence low
Fires-around a b t s u _ ne (unresolved set) = unresolved set

some_rule-around :
    (a b t : Text) (s : Score) (u : Bool) (r : Text)
    → Fires t s u r
    → (r' : Text) × Fires (a ++ (t ++ b)) s u r'
some_rule-around a b t s u _ (keyword k known there) =
    (k, keyword k known (IsSubstring-around a b t k there))
some_rule-around a b t s u _ (refund there) =
    (refund_keyword, refund (IsSubstring-around a b t refund_keyword there))
some_rule-around a b t s u _ (over_threshold there over) =
    (refund_keyword, refund (IsSubstring-around a b t refund_keyword there))
some_rule-around a b t s u _ (low_confidence low) = (codes "low_confidence", low_confidence low)
some_rule-around a b t s u _ (unresolved set) = (codes "agent_unresolved", unresolved set)

module _ (a b t : Text) (s : Score) (u : Bool) where
  -- When any text is put before and after a ticket, at the same score and signal, every reported
  -- rule but "refund_over_threshold" is still reported.
  pub matched_of_padded :
      (r : Text)
      → r ≢ codes "refund_over_threshold"
      → In r (evaluate_policy t s u).matched_rules
      → In r (evaluate_policy (a ++ (t ++ b)) s u).matched_rules
  matched_of_padded r ne m =
      ((evaluate_policy_iff (a ++ (t ++ b)) s u).0 r).1
        (Fires-around a b t s u r ne (((evaluate_policy_iff t s u).0 r).0 m))

  -- A ticket that needs review still needs it, at the same score and signal, when any text is put
  -- before and after it.
  pub review_of_padded :
      (evaluate_policy t s u).requires_human_review ≡ true
      → (evaluate_policy (a ++ (t ++ b)) s u).requires_human_review ≡ true
  review_of_padded h =
      let (r, f) = (evaluate_policy_iff t s u).1.0 h in
      (evaluate_policy_iff (a ++ (t ++ b)) s u).1.1 (some_rule-around a b t s u r f)
