-- ===== src/Reconcile/Orphan.antt =====
-- internal/reconcile/orphan_policy.go: containers that no desired instance claims. The worker
-- client is a parameter; the StopContainer requests that it receives are part of the result.
pub mod Untouched
use almichot_cloud.Prelude.{
  ℤ, pos, String, Bool, true, false, ◌||◌, Option, none, some, List, [], ◌∷◌, Map, lookup, str_eq,
  if◌then◌else◌, is_some,
}
use almichot_cloud.Reconcile.Diff.{ObservedContainer}

pub data OrphanType : Type 0 where
  managed unknown : OrphanType

abbrev pub has_label : String → Option (Map String) → Bool
has_label k none = false
has_label k (some m) = is_some (lookup k m)

unfoldable pub classify_orphan : ObservedContainer → OrphanType
classify_orphan c =
    if str_eq c.instance_key ""
    then if str_eq c.deployment_id ""
      then if has_label "nebula.instance_id" c.labels
        then managed
        else if has_label "nebula.deployment_id" c.labels
        then managed
        else unknown
      else managed
    else managed

pub record OrphanDecision : Type 0 where
  pub container : ObservedContainer
  pub orphan_type : OrphanType
  pub action_taken : String
  pub error : String

pub record StopRequest : Type 0 where
  pub instance_id : String
  pub timeout_seconds : ℤ

pub record StopResponse : Type 0 where
  pub success : Bool
  pub error : String

-- What a worker's StopContainer returns: `(resp, err)`, either of which may be nil.
pub record StopReply : Type 0 where
  pub resp : Option StopResponse
  pub err : Option String

abbrev pub StopClient : Type 0
StopClient = StopRequest → StopReply

-- The message of a call that failed; `none` when it succeeded.
abbrev pub stop_failure : StopReply → Option String
stop_failure r = by_err r.err r.resp
  where
    by_resp : Option StopResponse → Option String
    by_resp none = none
    by_resp (some resp) =
        if resp.success
        then none
        else if str_eq resp.error ""
        then some "failed to stop container"
        else some resp.error

    by_err : Option String → Option StopResponse → Option String
    by_err (some e) resp = some e
    by_err none resp = by_resp resp

-- The name that the worker is asked to stop.
abbrev pub target_id : ObservedContainer → String
target_id c = if str_eq c.instance_key "" then c.container_id else c.instance_key

abbrev pub stop_request : ObservedContainer → StopRequest
stop_request c = record { instance_id = target_id c; timeout_seconds = pos 10 }

abbrev pub stopped : ObservedContainer → Option String → OrphanDecision
stopped c none = record {
  container = c;
  orphan_type = managed;
  action_taken = "STOPPED";
  error = "";
}
stopped c (some msg) = record {
  container = c;
  orphan_type = managed;
  action_taken = "ERROR";
  error = msg;
}

abbrev pub by_type :
    ObservedContainer → Option StopClient → OrphanType → OrphanDecision × List StopRequest
by_type c none managed = (stopped c none, [])
by_type c (some stop) managed =
    let request = stop_request c in (stopped c (stop_failure (stop request)), request ∷ [])
by_type c client unknown =
    (record { container = c; orphan_type = unknown; action_taken = "FLAGGED_ONLY"; error = "" }, [])

-- The decision, and the requests that were sent to the worker.
unfoldable pub enforce_orphan_policy :
    ObservedContainer → Option StopClient → OrphanDecision × List StopRequest
unfolding classify_orphan
enforce_orphan_policy c client = by_type c client (classify_orphan c)
