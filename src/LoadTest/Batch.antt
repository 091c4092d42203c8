-- ===== src/LoadTest/Batch.antt =====
-- The tickets of a run of backend/scripts/load_test.py.
use supportops_ai.Common.{
  ℕ, zero, suc, ◌+◌, ◌≤◌, ◌≡◌, refl, ◌∙◌, ap, List, [], ◌∷◌, ◌++◌, length, take, arith,
}
use supportops_ai.LoadTest.{tickets, cycled, ticket_batch}

module _ {A : Type 0} where
  -- at the end of a round the next one starts
  cycled_restart : (x : A) (xs : List A) (n : ℕ) → cycled (x ∷ xs) n [] ≡ cycled (x ∷ xs) n (x ∷ xs)
  unfolding cycled
  cycled_restart x xs zero = refl
  cycled_restart x xs (suc n) = refl

  cycled_round :
      (all rest : List A) (n : ℕ) → cycled all (length rest + n) rest ≡ rest ++ cycled all n []
  unfolding cycled
  cycled_round all [] n = let e : 0 + n ≡ n = omega arith in ap (λ k. cycled all k []) e
  cycled_round all (y ∷ rest) n =
      let e : suc (length rest) + n ≡ suc (length rest + n) = omega arith in
      ap (λ k. cycled all k (y ∷ rest)) e ∙ ap (◌∷◌ y) (cycled_round all rest n)

  length-cycled : (x : A) (xs rest : List A) (n : ℕ) → length (cycled (x ∷ xs) n rest) ≡ n
  unfolding cycled
  length-cycled x xs rest zero = refl
  length-cycled x xs [] (suc n) = ap suc (length-cycled x xs xs n)
  length-cycled x xs (y ∷ rest) (suc n) = ap suc (length-cycled x xs rest n)

  cycled-take : (all rest : List A) (n : ℕ) → n ≤ length rest → cycled all n rest ≡ take n rest
  unfolding cycled
  cycled-take all rest zero h = refl
  cycled-take all [] (suc n) h = absurd (omega arith)
  cycled-take all (y ∷ rest) (suc n) h = ap (◌∷◌ y) (cycled-take all rest n (omega arith))

-- A batch has as many tickets as are asked for. Up to the six samples it is the first of them, and a
-- larger one is all six, in order, followed by the batch of what remains.
pub ticket_batch_rounds :
    (n : ℕ)
    → (length (ticket_batch n) ≡ n)
      × (n ≤ 6 → ticket_batch n ≡ take n tickets)
      × (ticket_batch (6 + n) ≡ tickets ++ ticket_batch n)
unfolding ticket_batch
ticket_batch_rounds n = (
  length-cycled _ _ tickets n,
  λ h. cycled-take tickets tickets n h,
  cycled_round tickets tickets n ∙ ap (◌++◌ tickets) (cycled_restart _ _ n),
)
