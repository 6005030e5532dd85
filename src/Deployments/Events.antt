-- ===== src/Deployments/Events.antt =====
-- internal/deployments/events.go: MemoryEventRepository. A new ID and the time are arguments.
use mathlib.Core.List.{reverse, reverse-cons, append-nil}
use almichot_cloud.Prelude.{
  ℤ, ℕ, zero, suc, String, Bool, Option, none, some, List, [], ◌∷◌, ◌++◌, Map, str_eq,
  if◌then◌else◌, ◌≡◌, refl, true, false, sym, ap, ◌∙◌, ◌⊎◌, inl, inr, Bool-cases, filter, length,
  get_elem?,
}
use almichot_cloud.Deployments.Repository.{or_now}

-- The values of `Metadata` that the code writes.
pub data Value : Type 0 where
  text : String → Value
  number : ℤ → Value
  time : ℤ → Value

-- A nil `Metadata` is `none`.
pub record Event : Type 0 where
  pub id : String
  pub project_id : String
  pub deployment_id : String
  pub event_type : String
  pub message : String
  pub metadata : Option (Map Value)
  pub created_at : Option ℤ

abbrev pub Events : Type 0
Events = List Event

-- NewMemoryEventRepository
abbrev pub no_events : Events
no_events = []

abbrev or_empty_map : Option (Map Value) → Option (Map Value)
or_empty_map none = some []
or_empty_map (some m) = some m

-- Create fills in the caller's record and appends a copy; both come back.
unfoldable pub create : ℤ → String → Event → Events → Event × Events
create now new_id ev events =
    let filled = record ev {
      id = if str_eq ev.id "" then new_id else ev.id;
      created_at = or_now now ev.created_at;
      metadata = or_empty_map ev.metadata;
    } in
    (filled, events ++ filled ∷ [])

abbrev kept : (Event → Bool) → Option Event → List Event → List Event
kept p none rest = rest
kept p (some ev) rest = if p ev then ev ∷ rest else rest

-- The loop `for i := n - 1; i >= 0; i--`.
unfoldable pub newest_first : (Event → Bool) → Events → ℕ → List Event
newest_first p events zero = []
newest_first p events (suc i) =
    let rest = newest_first p events i in kept p (get_elem? events i) rest

unfoldable pub list_by_project : String → Events → List Event
unfolding newest_first
list_by_project project events =
    newest_first (λ ev. str_eq ev.project_id project) events (length events)

unfoldable pub list_by_deployment : String → Events → List Event
unfolding newest_first
list_by_deployment deployment_id events =
    newest_first (λ ev. str_eq ev.deployment_id deployment_id) events (length events)

unfoldable pub list_all : Events → List Event
list_all events = events

unfoldable pub wipe : Events → Events
wipe events = no_events

kept-append :
    (p : Event → Bool) (o : Option Event) (xs ys : List Event)
    → kept p o (xs ++ ys) ≡ kept p o xs ++ ys
kept-append p none xs ys = refl
kept-append p (some ev) xs ys = elim (Bool-cases (p ev)) [ inl b ↦ rw b refl | inr b ↦ rw b refl ]

newest_first-cons :
    (p : Event → Bool) (ev : Event) (events : Events) (i : ℕ)
    → newest_first p (ev ∷ events) (suc i) ≡ newest_first p events i ++ kept p (some ev) []
unfolding newest_first
newest_first-cons p ev events zero = refl
newest_first-cons p ev events (suc i) =
    ap (kept p (get_elem? events i)) (newest_first-cons p ev events i)
    ∙ kept-append p (get_elem? events i) (newest_first p events i) (kept p (some ev) [])

newest_first_lem :
    (p : Event → Bool) (events : Events)
    → newest_first p events (length events) ≡ reverse (filter p events)
newest_first_lem p [] = unfold newest_first in refl
newest_first_lem p (ev ∷ events) =
    newest_first-cons p ev events (length events)
    ∙ ap (λ (l : List Event). l ++ kept p (some ev) []) (newest_first_lem p events)
    ∙ last (Bool-cases (p ev))
  where
    last :
        (p ev ≡ true) ⊎ (p ev ≡ false)
        → reverse (filter p events) ++ kept p (some ev) [] ≡ reverse (filter p (ev ∷ events))
    last (inl b) = rw b (sym (reverse-cons ev (filter p events)))
    last (inr b) = rw b (append-nil (reverse (filter p events)))

-- A project's events and a deployment's are listed in the reverse of the order in which they were
-- recorded, and none is passed over.
pub list_by_project-reverse :
    (name : String) (events : Events)
    → (list_by_project name events
        ≡ reverse (filter (λ ev. str_eq ev.project_id name) (list_all events)))
      × (list_by_deployment name events
          ≡ reverse (filter (λ ev. str_eq ev.deployment_id name) (list_all events)))
unfolding list_by_project list_by_deployment list_all
list_by_project-reverse name events = (newest_first_lem _ events, newest_first_lem _ events)
