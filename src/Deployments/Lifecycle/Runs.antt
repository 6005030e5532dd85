-- ===== src/Deployments/Lifecycle/Runs.antt =====
-- internal/deployments/state_machine.go: what the histories of a deployment look like when each
-- change of its status passes ValidateTransition.
use almichot_cloud.Prelude.{
  ℕ, ◌<◌, ◌≡◌, refl, sym, ◌∙◌, ◌⊎◌, inl, inr, true, false, none, List, [], ◌∷◌, In, here, there,
  arith,
}
use almichot_cloud.Deployments.Lifecycle.{
  DeploymentStatus, queued, building, built, scheduling, starting, running, failed, stopped,
  rolled_back, status_eq, is_terminal, legal_transitions, validate_transition,
}

-- A history from one status to another; each step is a change that ValidateTransition allows.
pub data Run : DeploymentStatus → DeploymentStatus → Type 0 where
  done : {s : DeploymentStatus} → Run s s
  step : {s t u : DeploymentStatus} → validate_transition s t ≡ none → Run t u → Run s u

-- The statuses of a history, the first and the last included.
abbrev pub visited : {s t : DeploymentStatus} → Run s t → List DeploymentStatus
visited {s} done = s ∷ []
visited {s} (step ok r) = s ∷ visited r

-- How far a deployment has come.
abbrev pub progress : DeploymentStatus → ℕ
progress queued = 0
progress building = 1
progress built = 2
progress scheduling = 3
progress starting = 4
progress running = 5
progress failed = 6
progress stopped = 7
progress rolled_back = 8

-- A legal step that changes the status moves it on; into RUNNING it comes from STARTING, and into
-- STARTING from SCHEDULING.
record IsStep (s t : DeploymentStatus) : Type 0 where
  moves : progress s < progress t
  was_starting : t ≡ running → s ≡ starting
  was_scheduling : t ≡ starting → s ≡ scheduling

IsStep_lem : (s t : DeploymentStatus) → validate_transition s t ≡ none → (s ≡ t) ⊎ IsStep s t
unfolding validate_transition legal_transitions
IsStep_lem s t h = ground arith

Run-progress : (s t : DeploymentStatus) → Run s t → (s ≡ t) ⊎ (progress s < progress t)
Run-progress s t done = inl refl
Run-progress s t (step {t = u} ok r) = after (IsStep_lem s u ok) (Run-progress u t r)
  where
    after :
        (s ≡ u) ⊎ IsStep s u
        → (u ≡ t) ⊎ (progress u < progress t)
        → (s ≡ t) ⊎ (progress s < progress t)
    after (inl e) (inl f) = inl (e ∙ f)
    after (inl e) (inr f) = inr (rw e f)
    after (inr e) (inl f) = inr (rw f at e.moves)
    after (inr e) (inr f) = inr (omega (arith, e.moves))

-- No history comes back to a status that it has left.
pub Run-antisym : (s t : DeploymentStatus) → Run s t → Run t s → s ≡ t
Run-antisym s t r q = both (Run-progress s t r) (Run-progress t s q)
  where
    both : (s ≡ t) ⊎ (progress s < progress t) → (t ≡ s) ⊎ (progress t < progress s) → s ≡ t
    both (inl e) f = e
    both (inr e) (inl f) = sym f
    both (inr e) (inr f) = absurd (omega arith)

Run-visits_starting :
    (s t : DeploymentStatus) (r : Run s t) → t ≡ running → (s ≡ running) ⊎ In starting (visited r)
Run-visits_starting s t done e = inl e
Run-visits_starting s t (step {t = u} ok r) e =
    after (IsStep_lem s u ok) (Run-visits_starting u t r e)
  where
    after :
        (s ≡ u) ⊎ IsStep s u
        → (u ≡ running) ⊎ In starting (visited r)
        → (s ≡ running) ⊎ In starting (s ∷ visited r)
    after e (inr v) = inr (there v)
    after (inl e) (inl f) = inl (e ∙ f)
    after (inr e) (inl f) = inr (here (sym (e.was_starting f)))

Run-visits_scheduling :
    (s t : DeploymentStatus) (r : Run s t)
    → In starting (visited r)
    → (s ≡ starting) ⊎ In scheduling (visited r)
Run-visits_scheduling s t done (here e) = inl (sym e)
Run-visits_scheduling s t done (there e) = elim e [ ]
Run-visits_scheduling s t (step {t = u} ok r) (here e) = inl (sym e)
Run-visits_scheduling s t (step {t = u} ok r) (there v) =
    after (IsStep_lem s u ok) (Run-visits_scheduling u t r v)
  where
    after :
        (s ≡ u) ⊎ IsStep s u
        → (u ≡ starting) ⊎ In scheduling (visited r)
        → (s ≡ starting) ⊎ In scheduling (s ∷ visited r)
    after e (inr v) = inr (there v)
    after (inl e) (inl f) = inl (e ∙ f)
    after (inr e) (inl f) = inr (here (sym (e.was_scheduling f)))

-- Every history from QUEUED to RUNNING goes through SCHEDULING and STARTING.
pub Run-visits : (r : Run queued running) → In scheduling (visited r) × In starting (visited r)
Run-visits r =
    let v = started (Run-visits_starting queued running r refl) in
    (placed (Run-visits_scheduling queued running r v), v)
  where
    started : (queued ≡ running) ⊎ In starting (visited r) → In starting (visited r)
    started (inl e) = cc
    started (inr v) = v

    placed : (queued ≡ starting) ⊎ In scheduling (visited r) → In scheduling (visited r)
    placed (inl e) = cc
    placed (inr v) = v

-- FAILED, STOPPED and ROLLED_BACK are final: a history that starts there has gone nowhere.
pub Run-ended :
    (s t : DeploymentStatus) → is_terminal s ≡ true → status_eq s running ≡ false → Run s t → s ≡ t
unfolding validate_transition legal_transitions is_terminal
Run-ended s t h n done = refl
Run-ended s t h n (step {t = u} ok r) =
    let e = ended s u h n ok in e ∙ Run-ended u t (rw e at h) (rw e at n) r
  where
    ended :
        (s u : DeploymentStatus)
        → is_terminal s ≡ true
        → status_eq s running ≡ false
        → validate_transition s u ≡ none
        → s ≡ u
    ended s u h n ok = ground arith

-- RUNNING counts as terminal for IsTerminal, and a deployment still leaves it.
pub running-leaves :
    (is_terminal running ≡ true)
    × (validate_transition running stopped ≡ none)
    × (validate_transition running failed ≡ none)
    × (validate_transition running rolled_back ≡ none)
unfolding is_terminal validate_transition legal_transitions
running-leaves = (refl, refl, refl, refl)
