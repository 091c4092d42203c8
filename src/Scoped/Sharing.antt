-- ===== src/Scoped/Sharing.antt =====
-- Which loops a client is given to: backend/core/redis_client.py.
use supportops_ai.Common.{
  ℕ, suc, ◌<◌, ◌≡◌, refl, ap, ◌⊎◌, Bool-cases, inl, inr, Option, none, some, List, [], ◌∷◌, ◌==◌,
  arith, In,
}
use supportops_ai.Scoped.{
  Clients, no_clients, with_entry, client_or_new, get_client, dropped, History, at_start, called,
  loop_gone,
}

record Owned (s : Clients) (given : List (ℕ × ℕ)) : Type 0 where
  -- an entry was given to its loop
  pub entries : (l c : ℕ) → s.by_loop l ≡ some c → In (l, c) given
  -- clients are numbered in the order in which they are built
  pub older : (l c : ℕ) → In (l, c) given → c < s.built
  pub one_owner : (l l' c : ℕ) → In (l, c) given → In (l', c) given → l ≡ l'

start-Owned : Owned no_clients []
start-Owned = record {
  entries = λ l c h. absurd (cc h);
  older = λ l c h. absurd h;
  one_owner = λ l l' c h h'. absurd h;
}

entry_cases :
    (loop l c : ℕ) (o : Option ℕ) (by_loop : ℕ → Option ℕ)
    → with_entry loop o by_loop l ≡ some c
    → ((l ≡ loop) × (o ≡ some c)) ⊎ (by_loop l ≡ some c)
entry_cases loop l c o by_loop h = elim (Bool-cases (l == loop)) [
  | inl same ↦ inl (ground arith, rw same at h)
  | inr other ↦ inr (rw other at h)
]

dropped-Owned :
    (loop : ℕ) (s : Clients) (given : List (ℕ × ℕ)) → Owned s given → Owned (dropped loop s) given
unfolding dropped
dropped-Owned loop s given owned = record {
  entries = λ l c h. elim (entry_cases loop l c none s.by_loop h) [
    | inl (e, gone) ↦ absurd (cc gone)
    | inr kept ↦ owned.entries l c kept
  ];
  older = owned.older;
  one_owner = owned.one_owner;
}

In-absorb : (x y : ℕ × ℕ) (l : List (ℕ × ℕ)) → In x l → In y (x ∷ l) → In y l
In-absorb x y l m (inl e) = rw e m
In-absorb x y l m (inr h) = h

-- a client that the loop has
again-Owned :
    (loop client : ℕ) (s : Clients) (given : List (ℕ × ℕ))
    → s.by_loop loop ≡ some client
    → Owned s given
    → Owned s ((loop, client) ∷ given)
again-Owned loop client s given here owned =
    let mine = owned.entries loop client here in
    record {
      entries = λ l c h. inr (owned.entries l c h);
      older = λ l c h. owned.older l c (In-absorb (loop, client) (l, c) given mine h);
      one_owner = λ l l' c h h'.
          owned.one_owner l l' c (In-absorb (loop, client) (l, c) given mine h)
            (In-absorb (loop, client) (l', c) given mine h');
    }

new_older :
    (loop : ℕ) (s : Clients) (given : List (ℕ × ℕ))
    → Owned s given
    → (l c : ℕ) → In (l, c) ((loop, s.built) ∷ given)
    → c < suc s.built
new_older loop s given owned l c (inl e) = let same : c ≡ s.built = cc e in omega arith
new_older loop s given owned l c (inr m) = let older = owned.older l c m in omega arith

new_owner :
    (loop : ℕ) (s : Clients) (given : List (ℕ × ℕ))
    → Owned s given
    → (l l' c : ℕ) → In (l, c) ((loop, s.built) ∷ given)
    → In (l', c) ((loop, s.built) ∷ given)
    → l ≡ l'
new_owner loop s given owned l l' c (inl e) (inl e') = cc (e, e')
new_owner loop s given owned l l' c (inl e) (inr m) =
    let same : c ≡ s.built = cc e in let older = owned.older l' c m in absurd (omega arith)
new_owner loop s given owned l l' c (inr m) (inl e) =
    let same : c ≡ s.built = cc e in let older = owned.older l c m in absurd (omega arith)
new_owner loop s given owned l l' c (inr m) (inr m') = owned.one_owner l l' c m m'

-- a client that is built for the loop
new-Owned :
    (loop : ℕ) (s : Clients) (given : List (ℕ × ℕ))
    → Owned s given
    → Owned (client_or_new loop s none).1 ((loop, s.built) ∷ given)
unfolding client_or_new
new-Owned loop s given owned = record {
  entries = λ l c h. elim (entry_cases loop l c (some s.built) s.by_loop h) [
    | inl (e, new) ↦ let pair : (l, c) ≡ (loop, s.built) = cc in inl pair
    | inr kept ↦ inr (owned.entries l c kept)
  ];
  older = λ l c h. new_older loop s given owned l c h;
  one_owner = λ l l' c h h'. new_owner loop s given owned l l' c h h';
}

called-Owned :
    (loop client : ℕ) (s s' : Clients) (given : List (ℕ × ℕ)) (o : Option ℕ)
    → s.by_loop loop ≡ o
    → Owned s given
    → client_or_new loop s o ≡ (client, s')
    → Owned s' ((loop, client) ∷ given)
called-Owned loop client s s' given none here owned e =
    let built : (client_or_new loop s none).1 ≡ s' = ap (λ r. r.1) e in
    let number : s.built ≡ client = unfold client_or_new in ap (λ r. r.0) e in
    rw (← built) (rw (← number) (new-Owned loop s given owned))
called-Owned loop client s s' given (some c) here owned e =
    let same : s ≡ s' = unfold client_or_new in ap (λ r. r.1) e in
    let number : c ≡ client = unfold client_or_new in ap (λ r. r.0) e in
    rw (← same) (rw (← number) (again-Owned loop c s given here owned))

History-Owned : {s : Clients} {given : List (ℕ × ℕ)} → History s given → Owned s given
unfolding get_client
History-Owned at_start = start-Owned
History-Owned (called {s = s} {s' = s'} {given = given} loop client h e) =
    let number : (client_or_new loop s (s.by_loop loop)).0 ≡ client = cc e in
    let state : (client_or_new loop s (s.by_loop loop)).1 ≡ s' = ap (λ r. r.1) e in
    called-Owned loop client s s' given (s.by_loop loop) refl (History-Owned h) (cc (number, state))
History-Owned (loop_gone {s = s} {given = given} loop h) =
    dropped-Owned loop s given (History-Owned h)

-- Whatever loops call for a client, in any order, and whichever of them go away in between, a client
-- that was given to two calls was given to one loop.
pub never_shared :
    {s : Clients} {given : List (ℕ × ℕ)} (l l' c : ℕ)
    → History s given
    → In (l, c) given
    → In (l', c) given
    → l ≡ l'
never_shared l l' c h m m' = (History-Owned h).one_owner l l' c m m'
