-- ===== src/LoadTest/Figures.antt =====
-- The figures that backend/scripts/load_test.py prints.
use supportops_ai.Common.{
  ℕ, ◌+◌, ◌≡◌, refl, inl, inr, true, false, Option, none, some, List, [], ◌∷◌, length, select,
  Bool-cases, arith,
}
use supportops_ai.LoadTest.{
  Floats, RequestOutcome, is_successful, is_rate_limited, is_failed, is_success_code, is_code,
  summary,
}

exclusive : (o : Option ℕ) → is_success_code o ≡ true → is_code 429 o ≡ false
exclusive none h = refl
exclusive (some code) h = ground arith

counted :
    {F : Type 0} (l : List (RequestOutcome F))
    → length (select is_successful l)
        + (length (select is_rate_limited l) + length (select is_failed l))
      ≡ length l
unfolding is_failed is_successful is_rate_limited
counted [] = refl
counted (o ∷ l) =
    let rest = counted l in
    elim (Bool-cases (is_success_code o.status_code)) [
      | inl t ↦ let f = exclusive o.status_code t in rw t (rw f (omega (arith, rest)))
      | inr f ↦ elim (Bool-cases (is_code 429 o.status_code)) [
        | inl t ↦ rw f (rw t (omega (arith, rest)))
        | inr f' ↦ rw f (rw f' (omega (arith, rest)))
      ]
    ]

-- Whatever the outcomes of a run, each of them is counted once, as successful, as rate limited or as
-- failed.
pub summary_counts :
    {F : Type 0} (fl : Floats F) (l : List (RequestOutcome F)) (total_time : F)
    → let s = summary fl l total_time in s.successful + (s.rate_limited + s.failed) ≡ s.concurrent
unfolding summary
summary_counts fl l total_time = counted l
