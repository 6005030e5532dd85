-- ===== src/Reconcile/Orphan/Untouched.antt =====
-- internal/reconcile/orphan_policy.go, EnforceOrphanPolicy: what is stopped, and what is never
-- touched.
use almichot_cloud.Prelude.{
  ◌≡◌, ◌≢◌, refl, ◌⊎◌, inl, inr, true, arith, eq_iff, str_eq, Bool-cases, Option-cases, String,
  Option, none, some, [], ◌∷◌, Map, lookup,
}
use almichot_cloud.Reconcile.Diff.{ObservedContainer}
use almichot_cloud.Reconcile.Orphan.{
  OrphanType, managed, unknown, classify_orphan, StopClient, StopRequest, stop_failure, StopReply,
  StopResponse, has_label, stop_request, stopped, enforce_orphan_policy,
}

-- A container without a trace of the platform: no instance key, no deployment, neither label.
pub record IsForeign (c : ObservedContainer) : Type 0 where
  pub no_key : c.instance_key ≡ ""
  pub no_deployment : c.deployment_id ≡ ""
  pub no_labels :
      (c.labels ≡ none)
      ⊎ ((m : Map String) × (c.labels ≡ some m)
          × (lookup "nebula.instance_id" m ≡ none)
          × (lookup "nebula.deployment_id" m ≡ none))

IsForeign-unknown : (c : ObservedContainer) → IsForeign c → classify_orphan c ≡ unknown
unfolding classify_orphan
IsForeign-unknown c h = elim h.no_labels [
  | inl e ↦ rw (h.no_key, h.no_deployment, e) refl
  | inr (m, e, i, d) ↦ rw (h.no_key, h.no_deployment, e, i, d) refl
]

-- A container without a trace of the platform is flagged, and no request about it reaches a worker,
-- whatever the client.
pub IsForeign-untouched :
    (c : ObservedContainer) (client : Option StopClient)
    → IsForeign c
    → (enforce_orphan_policy c client).1 ≡ []
      × ((enforce_orphan_policy c client).0.action_taken ≡ "FLAGGED_ONLY")
unfolding enforce_orphan_policy
IsForeign-untouched c client h = rw (IsForeign-unknown c h) (refl, refl)

-- A trace of the platform on a container: a key, a deployment or one of the two labels.
pub data HasTrace (c : ObservedContainer) : Type 0 where
  by_key : c.instance_key ≢ "" → HasTrace c
  by_deployment : c.deployment_id ≢ "" → HasTrace c
  by_label :
      (name value : String) (m : Map String)
      → (name ≡ "nebula.instance_id") ⊎ (name ≡ "nebula.deployment_id")
      → c.labels ≡ some m
      → lookup name m ≡ some value
      → HasTrace c

label-HasTrace :
    (c : ObservedContainer) (name : String) (o : Option (Map String))
    → (name ≡ "nebula.instance_id") ⊎ (name ≡ "nebula.deployment_id")
    → c.labels ≡ o
    → has_label name o ≡ true
    → HasTrace c
label-HasTrace c name none n e h = absurd (ground arith)
label-HasTrace c name (some m) n e h = elim (Option-cases (lookup name m)) [
  | inl f ↦ absurd (ground arith)
  | inr (value, f) ↦ by_label name value m n e f
]

managed-HasTrace : (c : ObservedContainer) → classify_orphan c ≡ managed → HasTrace c
unfolding classify_orphan
managed-HasTrace c h = elim (Bool-cases (str_eq c.instance_key "")) [
  | inr k ↦ by_key (λ e. ground (arith, eq_iff c.instance_key ""))
  | inl k ↦ elim (Bool-cases (str_eq c.deployment_id "")) [
    | inr d ↦ by_deployment (λ e. ground (arith, eq_iff c.deployment_id ""))
    | inl d ↦ elim (Bool-cases (has_label "nebula.instance_id" c.labels)) [
      | inl i ↦ label-HasTrace c "nebula.instance_id" c.labels (inl refl) refl i
      | inr i ↦ elim (Bool-cases (has_label "nebula.deployment_id" c.labels)) [
        | inl l ↦ label-HasTrace c "nebula.deployment_id" c.labels (inr refl) refl l
        | inr l ↦ absurd (apart (rw (k, d, i, l) at h) refl)
      ]
    ]
  ]
]
  where
    apart : unknown ≡ managed → unknown ≢ unknown
    apart e = cc

-- The worker's answer to a request: no error of the call, and no answer that reports a failure.
pub record IsDone (reply : StopReply) : Type 0 where
  pub no_error : reply.err ≡ none
  pub no_failure : (resp : StopResponse) → reply.resp ≡ some resp → resp.success ≡ true

stop_failure-IsDone : (reply : StopReply) → stop_failure reply ≡ none → IsDone reply
stop_failure-IsDone reply h = elim (Option-cases reply.err) [
  | inr (e, k) ↦ absurd (none-some e (rw k at h))
  | inl k ↦ record { no_error = k; no_failure = λ resp r. succeeded resp (rw (k, r) at h) }
]
  where
    none-some : (e : String) → some e ≡ none → ⊥
    none-some e x = cc

    succeeded :
        (resp : StopResponse)
        → stop_failure (record { resp = some resp; err = none }) ≡ none
        → resp.success ≡ true
    succeeded resp x = elim (Bool-cases resp.success) [ inl b ↦ b | inr b ↦ absurd (ground arith) ]

-- Through a client, EnforceOrphanPolicy sends at most one request. If it sends one, the container
-- has a trace of the platform, and the request names its key, or its container ID where it has no
-- key. If it reports STOPPED, it has sent a request, and the worker has not reported a failure.
pub enforce_orphan_policy-IsHonest :
    (c : ObservedContainer) (stop : StopClient)
    → let (decision, requests) = enforce_orphan_policy c (some stop) in
      ((requests ≡ []) × (decision.action_taken ≢ "STOPPED"))
      ⊎ (HasTrace c
          × (request : StopRequest) × (requests ≡ request ∷ [])
          × (((c.instance_key ≢ "") × (request.instance_id ≡ c.instance_key))
              ⊎ ((c.instance_key ≡ "") × (request.instance_id ≡ c.container_id)))
          × (decision.action_taken ≡ "STOPPED" → IsDone (stop request)))
unfolding enforce_orphan_policy
enforce_orphan_policy-IsHonest c stop = elim (type_cases (classify_orphan c)) [
  | inl e ↦ rw e (inl (refl, λ k. ground (arith, eq_iff "FLAGGED_ONLY" "STOPPED")))
  | inr e ↦ rw e (
      inr (
        managed-HasTrace c e,
        stop_request c,
        refl,
        target,
        λ k.
            stop_failure-IsDone (stop (stop_request c))
              (told (stop_failure (stop (stop_request c))) k),
      ))
]
  where
    type_cases : (t : OrphanType) → (t ≡ unknown) ⊎ (t ≡ managed)
    type_cases unknown = inl refl
    type_cases managed = inr refl

    target :
        ((c.instance_key ≢ "") × ((stop_request c).instance_id ≡ c.instance_key))
        ⊎ ((c.instance_key ≡ "") × ((stop_request c).instance_id ≡ c.container_id))
    target = elim (Bool-cases (str_eq c.instance_key "")) [
      | inl b ↦ inr ((eq_iff c.instance_key "").0 b, rw b refl)
      | inr b ↦ inl (λ e. ground (arith, eq_iff c.instance_key ""), rw b refl)
    ]

    told : (o : Option String) → (stopped c o).action_taken ≡ "STOPPED" → o ≡ none
    told none e = refl
    told (some msg) e = absurd (ground (arith, eq_iff "ERROR" "STOPPED"))
