-- ===== src/Sample/Web.antt =====
-- A server that answers 404 to thirty requests and 429 to the others. The world is how many it has
-- had, and `gather` runs its tasks one after the other.
use supportops_ai.Common.{
  ℕ, suc, ◌+◌, ◌*◌, ◌-◌, ◌≡◌, refl, inl, inr, ap, some, List, [], ◌∷◌, codes, length, ltb, In,
  if◌then◌else◌,
}
use supportops_ai.Python.{Exec, ok, pure, ◌>>=◌}
use supportops_ai.Python.Returns.{Returns}
use supportops_ai.LoadTest.{Floats, RequestOutcome}
use supportops_ai.LoadTest.Run.{Runtime}
use supportops_ai.LoadTest.Run.Counts.{RuntimeLaws}

abbrev pub one_by_one : List (Exec ℕ (RequestOutcome ℕ)) → Exec ℕ (List (RequestOutcome ℕ))
one_by_one [] = pure []
one_by_one (m ∷ ms) = m >>= λ o. one_by_one ms >>= λ outcomes. pure (o ∷ outcomes)

abbrev total : List ℕ → ℕ
total [] = 0
total (n ∷ l) = n + total l

abbrev pub whole_numbers : Floats ℕ
whole_numbers = record {
  sum = total;
  over = λ x n. x;
  times_1000 = λ x. 1000 * x;
  minus = λ x y. x - y;
  lt = ltb;
  zero_float = 0;
  per = λ n x. n;
}

unfoldable pub runtime : Runtime ℕ ℕ
runtime = record {
  floats = whole_numbers;
  client = record {
    post = λ token comment w. (ok (if ltb w 30 then 404 else 429), suc w);
    is_http_error = λ e. some (codes "error");
    perf_counter = λ w. (ok w, w);
  };
  post_login = λ email password. pure (record { status_code = 200; access_token = ok email });
  gather = one_by_one;
  str = λ n. codes "n";
}

one_by_one-Returns :
    (l : List (Exec ℕ (RequestOutcome ℕ)))
    → ((m : Exec ℕ (RequestOutcome ℕ)) → In m l → Returns m)
    → (w : ℕ)
    → (outcomes : List (RequestOutcome ℕ)) × (w' : ℕ) × (one_by_one l w ≡ (ok outcomes, w'))
      × (length outcomes ≡ length l)
one_by_one-Returns [] h w = ([], w, refl, refl)
one_by_one-Returns (m ∷ ms) h w =
    let (o, v, e) = (h m (inl refl)).at w in
    let (outcomes, w', e', size) = one_by_one-Returns ms (λ n at. h n (inr at)) v in
    (o ∷ outcomes, w', rw e (rw e' refl), ap suc size)

pub runtime-RuntimeLaws : RuntimeLaws runtime
unfolding runtime
runtime-RuntimeLaws = record {
  clock = record { at = λ w. (w, w, refl) };
  http = λ token comment w w' e h. (codes "error", refl);
  gathers = one_by_one-Returns;
}
