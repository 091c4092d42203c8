-- ===== src/Supervisor/Rows.antt =====
-- The rows of the requests for approval behind the calls of backend/api/supervisor.py.
use supportops_ai.Common.{
  ◌≡◌, ◌≢◌, ◌↔◌, ◌∙◌, sym, ap, inl, inr, Bool, true, false, Option, none, some, List, [], ◌∷◌, Text,
  text_eq, text_eq_refl, text_eq→≡, if◌then◌else◌, In, Bool-cases,
}
use supportops_ai.Python.{Uuid, Exec, Exn, ok, raised, ◌>>◌, call_cases}
use supportops_ai.Python.Inversion.{bind_ok}
use supportops_ai.Python.Keeps.{Keeps, Keeps-at, Keeps-pure, Keeps-try, finally_view}
use supportops_ai.Enums.{ApprovalStatus}
use supportops_ai.Json.{Json}
use supportops_ai.Models.{ApprovalRequest, AuditLog}
use supportops_ai.Services.{Services, with_session}
use supportops_ai.Audit.{create, log_audit_event}
use supportops_ai.Approvals.{is_pending, first, get_by_ticket_id, decide}
use supportops_ai.Supervisor.{or_404, get_or_404}

-- the rows with one of them written again
abbrev pub written : ApprovalRequest → List ApprovalRequest → List ApprovalRequest
written d [] = []
written d (r ∷ rows) = (if text_eq r.id d.id then d else r) ∷ written d rows

-- What the database documents of requests that come one after the other. `stored w` are the committed
-- requests for approval, and `visible w` those that the open session sees, with what it has flushed
-- and not committed: that is stored by a commit, and gone when the session closes without one.
pub record QueueLaws {W : Type 0} (s : Services W) (stored visible : W → List ApprovalRequest)
    : Type 0 where
  pub open_keeps : Keeps stored s.open_session
  pub open_sees : (w w' : W) → s.open_session w ≡ (ok tt, w') → visible w' ≡ stored w'
  pub close_keeps : Keeps stored s.close_session
  pub commit_stores : (w w' : W) → s.commit w ≡ (ok tt, w') → stored w' ≡ visible w
  pub commit_fails : (e : Exn) (w w' : W) → s.commit w ≡ (raised e, w') → stored w' ≡ stored w
  pub now_keeps : Keeps stored s.now
  pub now_sees : Keeps visible s.now
  pub audit_keeps : (a : AuditLog) → Keeps stored (s.insert_audit_log a)
  pub audit_sees : (a : AuditLog) → Keeps visible (s.insert_audit_log a)
  pub select_keeps :
      (test : ApprovalRequest → Bool) (ascending : Bool)
      → Keeps stored (s.select_approvals test ascending)
  pub select_sees :
      (test : ApprovalRequest → Bool) (ascending : Bool)
      → Keeps visible (s.select_approvals test ascending)
  pub selects :
      (test : ApprovalRequest → Bool) (ascending : Bool) (w w' : W) (l : List ApprovalRequest)
      → s.select_approvals test ascending w ≡ (ok l, w')
      → (r : ApprovalRequest) → In r l ↔ (In r (visible w) × (test r ≡ true))
  pub flush_keeps : (d : ApprovalRequest) → Keeps stored (s.flush_approval d)
  pub flush_writes :
      (d : ApprovalRequest) (w w' : W)
      → s.flush_approval d w ≡ (ok tt, w')
      → visible w' ≡ written d (visible w)

-- A request that is no longer pending takes the place of its row, and the others stay.
pub written-In :
    (d x : ApprovalRequest) (l : List ApprovalRequest)
    → is_pending d ≡ false
    → In x (written d l)
    → is_pending x ≡ true
    → In x l × (x.id ≢ d.id)
written-In d x [] settled m p = absurd m
written-In d x (r ∷ l) settled (inl e) p = elim (Bool-cases (text_eq r.id d.id)) [
  | inl t ↦ let same : x ≡ d = rw t at e in absurd (cc (rw same at p, settled))
  | inr f ↦
      let same : x ≡ r = rw f at e in
      (
        inl same,
        λ id.
            let e1 : r.id ≡ d.id = sym (ap (λ y. y.id) same) ∙ id in
            let t : text_eq r.id d.id ≡ true = rw e1 (text_eq_refl d.id) in absurd (cc (f, t)),
      )
]
written-In d x (r ∷ l) settled (inr m) p =
    let (at, differs) = written-In d x l settled m p in (inr at, differs)

pub In-written :
    (d x : ApprovalRequest) (l : List ApprovalRequest) → In x l → x.id ≢ d.id → In x (written d l)
In-written d x [] m differs = absurd m
In-written d x (r ∷ l) (inl e) differs = elim (Bool-cases (text_eq r.id d.id)) [
  | inl t ↦ absurd (differs (ap (λ y. y.id) e ∙ text_eq→≡ r.id d.id t))
  | inr f ↦ inl (rw f e)
]
In-written d x (r ∷ l) (inr m) differs = inr (In-written d x l m differs)

module _ {W : Type 0} (s : Services W) (stored visible : W → List ApprovalRequest)
    (L : QueueLaws s stored visible) where
  -- a session that changes no request and commits
  unchanged_commit :
      (m : Exec W (Unit {0})) (w : W)
      → Keeps stored m
      → Keeps visible m
      → visible w ≡ stored w
      → stored ((m >> s.commit) w).1 ≡ stored w
  unchanged_commit m w keeps sees opened = elim (call_cases (m w)) [
    | inl (u, v, e) ↦ elim (call_cases (s.commit v)) [
      | inl (u', v', e') ↦
          rw e (rw e' (L.commit_stores v v' e' ∙ (Keeps-at m w v (ok u) sees e ∙ opened)))
      | inr (x, v', e') ↦ rw e (rw e' (L.commit_fails x v v' e' ∙ Keeps-at m w v (ok u) keeps e))
    ]
    | inr (x, v, e) ↦ rw e (Keeps-at m w v (raised x) keeps e)
  ]

  unchanged_session :
      (m : Exec W (Unit {0}))
      → Keeps stored m
      → Keeps visible m
      → Keeps stored (with_session s (m >> s.commit))
  unchanged_session m keeps sees = record {
    kept = λ w. elim (call_cases (s.open_session w)) [
      | inl (u, v, e) ↦
          let opened : stored v ≡ stored w = Keeps-at _ w v (ok u) L.open_keeps e in
          rw e (
            finally_view (m >> s.commit) s.close_session v L.close_keeps
            ∙ (unchanged_commit m v keeps sees (L.open_sees w v e) ∙ opened))
      | inr (x, v, e) ↦ rw e (Keeps-at _ w v (raised x) L.open_keeps e)
    ];
  }

  pub log-Keeps :
      (t : Uuid) (e d : Text) (u : Option Uuid) (m : Option Json)
      → Keeps stored (log_audit_event s t e d u m)
  unfolding log_audit_event create
  log-Keeps t e d u m =
      Keeps-try _ _ (unchanged_session _ (L.audit_keeps _) (L.audit_sees _)) λ x. Keeps-pure tt

  or_404_ok :
      (o : Option ApprovalRequest) (w w' : W) (r : ApprovalRequest)
      → or_404 s o w ≡ (ok r, w')
      → (o ≡ some r) × (w ≡ w')
  or_404_ok none w w' r h = absurd (cc h)
  or_404_ok (some q) w w' r h = (cc h, cc h)

  first-In : (l : List ApprovalRequest) (r : ApprovalRequest) → first l ≡ some r → In r l
  first-In [] r h = absurd (cc)
  first-In (x ∷ l) r h = let e : x ≡ r = cc h in inl (sym e)

  pub get_or_404_ok :
      (t : Uuid) (w w' : W) (r : ApprovalRequest)
      → get_or_404 s t w ≡ (ok r, w')
      → In r (visible w) × (r.ticket_id ≡ t) × (visible w' ≡ visible w)
  unfolding get_or_404 get_by_ticket_id
  get_or_404_ok t w w' r h =
      let test = λ (q : ApprovalRequest). text_eq q.ticket_id t in
      let (o, w1, h1, h2) = bind_ok (get_by_ticket_id s t) (or_404 s) w w' r h in
      let (l, w2, selected, h3) = bind_ok (s.select_approvals test false) _ w w1 o h1 in
      let (some_r, last) = or_404_ok o w1 w' r h2 in
      let head : first l ≡ o = cc h3 in
      let there = first-In l r (head ∙ some_r) in
      let (there', is_of) = (L.selects test false w w2 l selected r).0 there in
      let same : w2 ≡ w1 = cc h3 in
      (
        there',
        text_eq→≡ r.ticket_id t is_of,
        rw (← last) (rw (← same) (Keeps-at _ w w2 _ (L.select_sees test false) selected)),
      )

  pub decide_writes :
      (r d : ApprovalRequest) (status : ApprovalStatus) (u : Uuid) (c : Option Text) (w w' : W)
      → decide s r status u c w ≡ (ok d, w')
      → (d.id ≡ r.id) × (d.status ≡ status) × (visible w' ≡ written d (visible w))
  unfolding decide
  decide_writes r d status u c w w' h =
      let (now, w1, timed, h1) = bind_ok s.now _ w w' d h in
      let row = record r {
        status = status;
        approved_by = some u;
        comments = c;
        decided_at = some now;
      } in
      let (_, w2, flushed, h2) = bind_ok (s.flush_approval row) _ w1 w' d h1 in
      let same : row ≡ d = cc h2 in
      let last : w2 ≡ w' = cc h2 in
      (
        sym (ap (λ y. y.id) same),
        sym (ap (λ y. y.status) same),
        rw (← last) (
            rw (← same) (
              L.flush_writes row w1 w2 flushed
              ∙ ap (written row) (Keeps-at s.now w w1 _ L.now_sees timed))),
      )
