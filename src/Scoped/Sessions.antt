-- ===== src/Scoped/Sessions.antt =====
-- Which engine a session has: backend/database/session.py.
use supportops_ai.Common.{
  ℕ, ◌≡◌, ◌≢◌, ◌↔◌, refl, ◌∙◌, sym, ap, inl, inr, true, some, List, ◌==◌, ==_iff, Option-cases,
  Bool-cases, In,
}
use supportops_ai.Python.{ok}
use supportops_ai.Scoped.{
  Clients, Session, History, called, loop_gone, dropped, client_or_new, get_client,
  async_session_factory,
}
use supportops_ai.Scoped.Sharing.{never_shared}

-- the lookup behind a session
session_get :
    (l : ℕ) (s s' : Clients) (a : Session)
    → async_session_factory (some l) s ≡ (ok a, s')
    → get_client (some l) s ≡ (ok a.engine, s')
unfolding async_session_factory
session_get l s s' a h =
    let (engine, kept) = client_or_new l s (s.by_loop l) in
    let same : record { engine = engine } ≡ a = cc h in
    let number : engine ≡ a.engine = ap (λ x. x.engine) same in
    let state : kept ≡ s' = cc h in cc (number, state)

-- after a call the loop has its entry
get_client_entry :
    (l c : ℕ) (s s' : Clients) → get_client (some l) s ≡ (ok c, s') → s'.by_loop l ≡ some c
unfolding get_client client_or_new
get_client_entry l c s s' h = elim (Option-cases (s.by_loop l)) [
  | inl absent ↦
      let new = rw absent at h in
      let number : s.built ≡ c = cc new in
      let state = ap (λ r. r.1.by_loop l) new in
      let itself : (l == l) ≡ true = (==_iff l l).1 refl in sym state ∙ rw itself (ap some number)
  | inr (d, there) ↦
      let old = rw there at h in
      let number : d ≡ c = cc old in
      let state = ap (λ r. r.1.by_loop l) old in sym state ∙ (there ∙ ap some number)
]

-- a loop that has an entry is given it
get_client_again :
    (l c d : ℕ) (s s' : Clients) → s.by_loop l ≡ some c → get_client (some l) s ≡ (ok d, s') → c ≡ d
unfolding get_client client_or_new
get_client_again l c d s s' there h = cc (rw there at h)

-- What may happen between two calls while a loop goes on: any loops make sessions, and others go.
pub data Later (l : ℕ) : Clients → Clients → Type 0 where
  at_once : {s : Clients} → Later l s s
  then_called :
      {s s1 s2 : Clients} (loop : ℕ) (a : Session)
      → Later l s s1
      → async_session_factory (some loop) s1 ≡ (ok a, s2)
      → Later l s s2
  then_gone : {s s1 : Clients} (loop : ℕ) → loop ≢ l → Later l s s1 → Later l s (dropped loop s1)

-- an entry stays in place when any loop asks for its client
get_client_keeps :
    (l c loop d : ℕ) (s s' : Clients)
    → s.by_loop l ≡ some c
    → get_client (some loop) s ≡ (ok d, s')
    → s'.by_loop l ≡ some c
unfolding get_client client_or_new
get_client_keeps l c loop d s s' there h = elim (Option-cases (s.by_loop loop)) [
  | inl absent ↦
      let state = ap (λ r. r.1.by_loop l) (rw absent at h) in
      elim (Bool-cases (l == loop)) [
        | inl t ↦
            let same : l ≡ loop = (==_iff l loop).0 t in absurd (cc (rw same at there, absent))
        | inr f ↦ sym state ∙ rw f there
      ]
  | inr (e, has) ↦ let state = ap (λ r. r.1.by_loop l) (rw has at h) in sym state ∙ there
]

dropped_keeps :
    (l c loop : ℕ) (s : Clients)
    → loop ≢ l
    → s.by_loop l ≡ some c
    → (dropped loop s).by_loop l ≡ some c
unfolding dropped
dropped_keeps l c loop s differs there = elim (Bool-cases (l == loop)) [
  | inl t ↦ absurd (differs (sym ((==_iff l loop).0 t)))
  | inr f ↦ rw f there
]

Later-keeps :
    (l : ℕ) {s s' : Clients} (c : ℕ) → Later l s s' → s.by_loop l ≡ some c → s'.by_loop l ≡ some c
Later-keeps l c at_once there = there
Later-keeps l c (then_called {s1 = s1} {s2 = s2} loop a later h) there =
    get_client_keeps l c loop a.engine s1 s2 (Later-keeps l c later there)
      (session_get loop s1 s2 a h)
Later-keeps l c (then_gone {s1 = s1} loop differs later) there =
    dropped_keeps l c loop s1 differs (Later-keeps l c later there)

later-History :
    (l : ℕ) {s s' : Clients} {given : List (ℕ × ℕ)} (c : ℕ)
    → Later l s s'
    → History s given
    → In (l, c) given
    → (given' : List (ℕ × ℕ)) × History s' given' × In (l, c) given'
later-History l {given = given} c at_once past m = (given, past, m)
later-History l c (then_called {s1 = s1} {s2 = s2} loop a later h) past m =
    let (given, history, m') = later-History l c later past m in
    (_, called loop a.engine history (session_get loop s1 s2 a h), inr m')
later-History l c (then_gone loop differs later) past m =
    let (given, history, m') = later-History l c later past m in (given, loop_gone loop history, m')

-- After any calls from any loops, a loop makes a session, and while it goes on any loops make
-- sessions and any others go. The engine of the session that is then made, for the same loop or
-- another, is that of the first session exactly when the two loops are the same: a loop that goes
-- on never has a second engine built, and no engine is used from two loops.
pub engine_iff :
    {s : Clients} {given : List (ℕ × ℕ)} (l l' : ℕ) (s1 s2 s3 : Clients) (a b : Session)
    → History s given
    → async_session_factory (some l) s ≡ (ok a, s1)
    → Later l s1 s2
    → async_session_factory (some l') s2 ≡ (ok b, s3)
    → (a.engine ≡ b.engine) ↔ (l ≡ l')
engine_iff {s = s} {given = given} l l' s1 s2 s3 a b past first later second =
    let one = session_get l s s1 a first in
    let two = session_get l' s2 s3 b second in
    let (given', history, m) =
      later-History l a.engine later (called l a.engine past one) (inl refl) in
    let all = called l' b.engine history two in
    let entry = Later-keeps l a.engine later (get_client_entry l a.engine s s1 one) in
    (
      λ e. never_shared l l' b.engine all (inr (rw e at m)) (inl refl),
      λ e. get_client_again l a.engine b.engine s2 s3 entry (rw (← e) at two),
    )
