-- ===== src/Bridge/Once.antt =====
-- How many background loops are started: backend/core/asyncio_utils.py.
use supportops_ai.Common.{
  ℕ, suc, ◌≤◌, ◌≡◌, ◌≢◌, refl, sym, ap, ◌∙◌, ◌⊎◌, inl, inr, true, Bool-cases, Option, none, some,
  ◌==◌, arith,
}
use supportops_ai.Bridge.Loop.{
  Place, entering, waiting, locked, starting, made, leaving, reading, returned, Shared, moved, at,
  fresh, Step, sees_none, sees_loop, acquires, rechecks_none, rechecks_loop, starts, assigns,
  releases, returns, Reachable, at_start, after,
}

-- what holds of the shared state while thread `t` stands at a place
abbrev Fits : Option ℕ → Option ℕ → ℕ → ℕ → Place → Type 0
Fits loop lock n t entering = Unit {0}
Fits loop lock n t waiting = Unit {0}
Fits loop lock n t locked = lock ≡ some t
Fits loop lock n t starting = (lock ≡ some t) × (loop ≡ none) × (n ≡ 0)
Fits loop lock n t (made l) = (lock ≡ some t) × (loop ≡ none) × (n ≡ 1) × (l ≡ 0)
Fits loop lock n t leaving = (lock ≡ some t) × (loop ≡ some 0)
Fits loop lock n t reading = loop ≡ some 0
Fits loop lock n t (returned l) = (loop ≡ some 0) × (l ≡ 0)

-- no loop is started before one is needed, and none behind the one that is assigned
abbrev Counted : Option ℕ → ℕ → (ℕ → Place) → Type 0
Counted none n place = (n ≡ 0) ⊎ ((t : ℕ) × (place t ≡ made 0))
Counted (some l) n place = (l ≡ 0) × (n ≡ 1)

record Once (s : Shared) : Type 0 where
  pub fits : (t : ℕ) → Fits s.loop s.lock s.started t (s.place t)
  pub counted : Counted s.loop s.started s.place

-- A thread without the lock fits the state that the holder of the lock, or its next one, leaves.
Fits-other :
    (loop lock loop' lock' : Option ℕ) (n n' j : ℕ) (p : Place)
    → lock ≢ some j
    → (loop ≡ some 0 → loop' ≡ some 0)
    → Fits loop lock n j p
    → Fits loop' lock' n' j p
Fits-other loop lock loop' lock' n n' j entering out keeps f = tt
Fits-other loop lock loop' lock' n n' j waiting out keeps f = tt
Fits-other loop lock loop' lock' n n' j locked out keeps f = absurd (out f)
Fits-other loop lock loop' lock' n n' j starting out keeps f = absurd (out f.0)
Fits-other loop lock loop' lock' n n' j (made l) out keeps f = absurd (out f.0)
Fits-other loop lock loop' lock' n n' j leaving out keeps f = absurd (out f.0)
Fits-other loop lock loop' lock' n n' j reading out keeps f = keeps f
Fits-other loop lock loop' lock' n n' j (returned l) out keeps f = (keeps f.0, f.1)

-- every thread fits, once the moved one does and the others do
moved-Fits :
    (P : ℕ → Place → Type 0) (t : ℕ) (p : Place) (place : ℕ → Place)
    → P t p
    → ((j : ℕ) → j ≢ t → P j (place j))
    → (j : ℕ) → P j (moved t p place j)
moved-Fits P t p place here others j = elim (Bool-cases (j == t)) [
  | inl same ↦ let e : j ≡ t = ground arith in rw same (rw e here)
  | inr other ↦ let e : j ≢ t = λ h. ground arith in rw other (others j e)
]

-- a thread that made no loop moves
Counted-moved :
    (loop : Option ℕ) (n t : ℕ) (p : Place) (place : ℕ → Place)
    → place t ≢ made 0
    → Counted loop n place
    → Counted loop n (moved t p place)
Counted-moved none n t p place out (inl zero_started) = inl zero_started
Counted-moved none n t p place out (inr (j, e)) = inr (
  j,
  elim (Bool-cases (j == t)) [
    | inl same ↦ let e' : j ≡ t = ground arith in absurd (out (ap place (sym e') ∙ e))
    | inr other ↦ rw other e
  ],
)
Counted-moved (some l) n t p place out c = c

fresh-Once : Once fresh
fresh-Once = record { fits = λ t. tt; counted = inl refl }

no_other_holder : (lock : Option ℕ) (t j : ℕ) → lock ≡ some t → j ≢ t → lock ≢ some j
no_other_holder lock t j held differs h = differs (cc)

free-no_holder : (lock : Option ℕ) (j : ℕ) → lock ≡ none → lock ≢ some j
free-no_holder lock j free h = absurd (cc)

-- The loop that is there is the first one.
assigned_first : (s : Shared) (l : ℕ) → Once s → s.loop ≡ some l → l ≡ 0
assigned_first s l once e = (rw e at once.counted).0

fit_at :
    (s : Shared) (t : ℕ) (p : Place) → Once s → s.place t ≡ p → Fits s.loop s.lock s.started t p
fit_at s t p once here = rw (← here) (once.fits t)

moved_here : (t : ℕ) (p : Place) (place : ℕ → Place) → moved t p place t ≡ p
moved_here t p place = let e : (t == t) ≡ true = ground arith in rw e

-- a thread stands at the second test, and there is no loop: none was started
none_started : (s : Shared) (t : ℕ) → Once s → s.place t ≡ locked → s.loop ≡ none → s.started ≡ 0
none_started s t once here e =
    let mine : s.lock ≡ some t = fit_at s t locked once here in
    elim (rw e at once.counted) [
      | inl none_yet ↦ none_yet
      | inr (j, making) ↦
          let theirs : s.lock ≡ some j = (fit_at s j (made 0) once making).0 in
          let same : j ≡ t = cc in
          let clash : locked ≡ made 0 = sym here ∙ (ap s.place (sym same) ∙ making) in
          absurd (cc clash)
    ]

-- a move that changes nothing but the thread's place
place-Once :
    (s : Shared) (t : ℕ) (p q : Place)
    → Once s
    → s.place t ≡ p
    → p ≢ made 0
    → Fits s.loop s.lock s.started t q
    → Once (at s t q)
unfolding at
place-Once s t p q once here out fit = record {
  fits = moved-Fits (Fits s.loop s.lock s.started) t q s.place fit (λ j h. once.fits j);
  counted = Counted-moved s.loop s.started t q s.place (λ h. out (sym here ∙ h)) once.counted;
}

Step-Once : {s s' : Shared} → Step s s' → Once s → Once s'
unfolding at
Step-Once {s = s} (sees_none t here e) once = place-Once s t entering waiting once here (λ h. cc) tt
Step-Once {s = s} (sees_loop t l here e) once =
    place-Once s t entering reading once here (λ h. cc) (e ∙ ap some (assigned_first s l once e))
Step-Once {s = s} (acquires t here free) once = record {
  fits = moved-Fits (Fits s.loop (some t) s.started) t locked s.place refl (λ j h.
      Fits-other s.loop s.lock s.loop (some t) s.started s.started j (s.place j)
        (free-no_holder s.lock j free) (λ e. e) (once.fits j));
  counted =
      Counted-moved s.loop s.started t locked s.place (λ h. absurd (cc (here, h))) once.counted;
}
Step-Once {s = s} (rechecks_none t here e) once =
    let mine = fit_at s t locked once here in
    place-Once s t locked starting once here (λ h. cc) (mine, e, none_started s t once here e)
Step-Once {s = s} (rechecks_loop t l here e) once =
    let mine = fit_at s t locked once here in
    place-Once s t locked leaving once here (λ h. cc)
      (mine, e ∙ ap some (assigned_first s l once e))
Step-Once {s = s} (starts t here) once =
    let (mine, no_loop, none_yet) = fit_at s t starting once here in
    record {
      fits =
          moved-Fits (Fits s.loop s.lock (suc s.started)) t (made s.started) s.place
            (mine, no_loop, ap suc none_yet, none_yet)
            (λ j h.
              Fits-other s.loop s.lock s.loop s.lock s.started (suc s.started) j (s.place j)
                (no_other_holder s.lock t j mine h) (λ e. e) (once.fits j));
      counted = rw no_loop (inr (t, moved_here t (made s.started) s.place ∙ ap made none_yet));
    }
Step-Once {s = s} (assigns t l here) once =
    let (mine, no_loop, one, first) = fit_at s t (made l) once here in
    record {
      fits =
          moved-Fits (Fits (some l) s.lock s.started) t leaving s.place (mine, ap some first)
            (λ j h.
              Fits-other s.loop s.lock (some l) s.lock s.started s.started j (s.place j)
                (no_other_holder s.lock t j mine h) (λ e. absurd (cc)) (once.fits j));
      counted = (first, one);
    }
Step-Once {s = s} (releases t here) once =
    let (mine, there) = fit_at s t leaving once here in
    record {
      fits = moved-Fits (Fits s.loop none s.started) t reading s.place there (λ j h.
          Fits-other s.loop s.lock s.loop none s.started s.started j (s.place j)
            (no_other_holder s.lock t j mine h) (λ e. e) (once.fits j));
      counted =
          Counted-moved s.loop s.started t reading s.place (λ h. absurd (cc (here, h)))
            once.counted;
    }
Step-Once {s = s} (returns t l here e) once =
    let first = assigned_first s l once e in
    place-Once s t reading (returned l) once here (λ h. cc) (e ∙ ap some first, first)

Reachable-Once : {s : Shared} → Reachable s → Once s
Reachable-Once at_start = fresh-Once
Reachable-Once (after r step) = Step-Once step (Reachable-Once r)

Counted-le :
    (loop : Option ℕ) (n : ℕ) (place : ℕ → Place)
    → ((t : ℕ) → place t ≡ made 0 → n ≡ 1)
    → Counted loop n place
    → n ≤ 1
Counted-le none n place one (inl none_yet) = omega arith
Counted-le none n place one (inr (t, making)) = let e = one t making in omega arith
Counted-le (some l) n place one (first, e) = omega arith

started_le : (s : Shared) → Once s → s.started ≤ 1
started_le s once =
    Counted-le s.loop s.started s.place (λ t making. (fit_at s t (made 0) once making).2)
      once.counted

-- However the actions of any number of threads follow each other, at most one loop is started, and any
-- two calls that have returned gave the same loop.
pub one_loop :
    {s : Shared} (t t' l l' : ℕ)
    → Reachable s
    → (s.started ≤ 1) × (s.place t ≡ returned l → s.place t' ≡ returned l' → l ≡ l')
one_loop {s = s} t t' l l' r =
    let once = Reachable-Once r in
    (
      started_le s once,
      λ here there.
          (fit_at s t (returned l) once here).1 ∙ sym (fit_at s t' (returned l') once there).1,
    )
