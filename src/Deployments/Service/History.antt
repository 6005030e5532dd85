-- ===== src/Deployments/Service/History.antt =====
-- internal/deployments/service.go: the statuses that an operation writes, one after the other,
-- against the table of legal transitions.
use almichot_cloud.Prelude.{ℤ, String, ◌≡◌, refl, sym, ap, ◌∙◌, none, List, [], ◌∷◌, ◌++◌, arith}
use mathlib.Core.Path.{subst}
use mathlib.Core.List.{append_assoc, append-nil}
use almichot_cloud.Deployments.Lifecycle.{DeploymentStatus, Instance, validate_transition}
use almichot_cloud.Deployments.Lifecycle.Runs.{Run, done, step, visited}
use almichot_cloud.Deployments.Instances
use almichot_cloud.Deployments.Instances.{Instances}
use almichot_cloud.Deployments.Service.{Progress, Service, set_status, save_instance}

abbrev pub tagged : String → List DeploymentStatus → List (String × DeploymentStatus)
tagged id [] = []
tagged id (s ∷ l) = (id, s) ∷ tagged id l

-- From `s`, ValidateTransition allows the changes to the statuses of the list, and the last is `t`.
abbrev pub Legal : DeploymentStatus → List DeploymentStatus → DeploymentStatus → Type 0
Legal s [] t = s ≡ t
Legal s (u ∷ l) t = (validate_transition s u ≡ none) × Legal u l t

-- Between two points of an operation the deployment has kept its ID, and has gone through the
-- statuses of `path`, each written under that ID and each a legal change.
pub record Advances (p q : Progress) : Type 0 where
  pub path : List DeploymentStatus
  pub same_id : q.dep.id ≡ p.dep.id
  pub legal : Legal p.dep.status path q.dep.status
  pub written : q.svc.writes ≡ p.svc.writes ++ tagged p.dep.id path

Legal-append :
    (s t u : DeploymentStatus) (xs ys : List DeploymentStatus)
    → Legal s xs t
    → Legal t ys u
    → Legal s (xs ++ ys) u
Legal-append s t u [] ys h k = rw h k
Legal-append s t u (x ∷ xs) ys (v, h) k = (v, Legal-append x t u xs ys h k)

tagged-append :
    (id : String) (xs ys : List DeploymentStatus)
    → tagged id (xs ++ ys) ≡ tagged id xs ++ tagged id ys
tagged-append id [] ys = refl
tagged-append id (x ∷ xs) ys = ap (λ l. (id, x) ∷ l) (tagged-append id xs ys)

pub Advances-stay :
    (p q : Progress)
    → q.dep.id ≡ p.dep.id
    → q.dep.status ≡ p.dep.status
    → q.svc.writes ≡ p.svc.writes
    → Advances p q
Advances-stay p q i s w = record {
  path = [];
  same_id = i;
  legal = sym s;
  written = w ∙ sym (append-nil p.svc.writes);
}

pub Advances-trans : (p q r : Progress) → Advances p q → Advances q r → Advances p r
Advances-trans p q r a b = record {
  path = a.path ++ b.path;
  same_id = b.same_id ∙ a.same_id;
  legal = Legal-append p.dep.status q.dep.status r.dep.status a.path b.path a.legal b.legal;
  written =
      b.written
      ∙ ap (λ (id : String). q.svc.writes ++ tagged id b.path) a.same_id
      ∙ ap (λ (l : List (String × DeploymentStatus)). l ++ tagged p.dep.id b.path) a.written
      ∙ append_assoc p.svc.writes (tagged p.dep.id a.path) (tagged p.dep.id b.path)
      ∙ ap (λ (l : List (String × DeploymentStatus)). p.svc.writes ++ l)
          (sym (tagged-append p.dep.id a.path b.path));
}

pub set_status-Advances :
    (now : ℤ) (s : DeploymentStatus) (stage : String) (p : Progress)
    → validate_transition p.dep.status s ≡ none
    → Advances p (set_status now s stage p)
unfolding set_status
set_status-Advances now s stage p v = record {
  path = s ∷ [];
  same_id = refl;
  legal = (v, refl);
  written = refl;
}

-- A legal list of statuses is a history of the state machine.
pub Legal-Run :
    (s t : DeploymentStatus) (l : List DeploymentStatus)
    → Legal s l t
    → (r : Run s t) × (visited r ≡ s ∷ l)
Legal-Run s t [] h =
    subst (λ (u : DeploymentStatus). (r : Run s u) × (visited r ≡ s ∷ [])) h (done, refl)
Legal-Run s t (u ∷ l) (v, h) = let (r, e) = Legal-Run u t l h in (step v r, ap (λ k. s ∷ k) e)

-- Saving an instance keeps its ID and status, and writes no status of a deployment.
pub save_instance_keeps :
    (now : ℤ) (x : Instance) (s : Service)
    → ((save_instance now x s).0.id ≡ x.id)
      × ((save_instance now x s).0.status ≡ x.status)
      × ((save_instance now x s).1.writes ≡ s.writes)
unfolding save_instance Instances.update
save_instance_keeps now x s = ground arith
