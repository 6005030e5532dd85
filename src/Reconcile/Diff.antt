-- ===== src/Reconcile/Diff.antt =====
-- internal/reconcile/diff.go: the comparison of the desired instances with the observed containers.
pub mod Counts
pub mod Pairs
use Prim.Native.String.{char_at, len}
use Prim.Native.Char.{code}
use almichot_cloud.Prelude.{
  ℕ, zero, suc, ◌+◌, ℤ, String, Bool, true, false, not, ◌&&◌, ◌||◌, Option, none, some, List, [],
  ◌∷◌, ◌++◌, Map, lookup, insert, str_eq, if◌then◌else◌, get_elem?, set, length, leb,
}

pub record DesiredInstance : Type 0 where
  pub instance_id : String
  pub instance_key : String
  pub deployment_id : String
  pub worker_id : String
  pub image : String
  pub env : Map String
  pub labels : Map String
  pub desired_status : String

-- `labels = none` is the nil map.
pub record ObservedContainer : Type 0 where
  pub worker_id : String
  pub worker_key : String
  pub container_id : String
  pub instance_key : String
  pub deployment_id : String
  pub image : String
  pub state : String
  pub labels : Option (Map String)
  pub created_at : ℤ

pub record MatchingPair : Type 0 where
  pub desired : DesiredInstance
  pub observed : ObservedContainer

pub record DiffResult : Type 0 where
  pub matching : List MatchingPair
  pub missing : List DesiredInstance
  pub extra : List ObservedContainer

abbrev eqb : ℕ → ℕ → Bool
eqb a b = leb a b && leb b a

-- The byte at a position is an ASCII letter in one of its two cases, given by their codes.
abbrev letter : String → ℕ → ℕ → ℕ → Bool
letter s i small big = let c = code (char_at s i) in eqb c small || eqb c big

-- strings.EqualFold(s, "running"): no letter of the word has a case fold outside ASCII.
abbrev equal_fold_running : String → Bool
equal_fold_running s =
    (leb (len s) 7 && leb 7 (len s))
    && (letter s 0 114 82
        && (letter s 1 117 85
            && (letter s 2 110 78
                && (letter s 3 110 78
                    && (letter s 4 105 73 && (letter s 5 110 78 && letter s 6 103 71))))))

unfoldable pub is_running_state : String → Bool
is_running_state state =
    if str_eq state "running" || (str_eq state "RUNNING" || str_eq state "Running")
    then true
    else if leb 2 (len state) && (letter state 0 117 85 && letter state 1 112 80)
    then true
    else equal_fold_running state

abbrev pub enter_index : String → ℕ → Map ℕ → Map ℕ
enter_index k i m = if str_eq k "" then m else insert k i m

-- desiredIndexByKey, from position `i` on; a later instance takes over a key.
unfoldable pub index_desired : List DesiredInstance → ℕ → Map ℕ → Map ℕ
index_desired [] i m = m
index_desired (d ∷ ds) i m =
    index_desired ds (suc i) (enter_index d.instance_id i (enter_index d.instance_key i m))

abbrev or_empty : Option String → String
or_empty none = ""
or_empty (some v) = v

-- A nil map holds nothing.
abbrev label : String → Option (Map String) → String
label k none = ""
label k (some m) = or_empty (lookup k m)

-- The key that an observed container goes by.
unfoldable pub instance_key_of : ObservedContainer → String
instance_key_of c =
    if str_eq c.instance_key "" then label "nebula.instance_id" c.labels else c.instance_key

-- What the loop over the observed containers has built, beside `matchedIndices`.
pub record Progress : Type 0 where
  pub matching : List MatchingPair
  pub extra : List ObservedContainer
  pub matched : List Bool

-- One container against its instance's place. A position out of range, where the source would
-- panic, counts as a place that is taken.
abbrev pub claim :
    ObservedContainer → ℕ → Option DesiredInstance → Option Bool → Progress → Progress
claim c i (some d) (some false) p =
    if is_running_state c.state
    then record {
      matching = p.matching ++ record { desired = d; observed = c } ∷ [];
      extra = p.extra;
      matched = set p.matched i true;
    }
    else record p { extra = p.extra ++ c ∷ [] }
claim c i d b p = record p { extra = p.extra ++ c ∷ [] }

abbrev pub at_index : List DesiredInstance → ObservedContainer → Option ℕ → Progress → Progress
at_index desired c none p = record p { extra = p.extra ++ c ∷ [] }
at_index desired c (some i) p = claim c i (get_elem? desired i) (get_elem? p.matched i) p

abbrev pub index_of : String → Map ℕ → Option ℕ
index_of key index = if str_eq key "" then none else lookup key index

-- One container: it takes the place of its desired instance when that is free.
unfoldable pub visit : List DesiredInstance → Map ℕ → ObservedContainer → Progress → Progress
unfolding is_running_state instance_key_of
visit desired index c p = at_index desired c (index_of (instance_key_of c) index) p

unfoldable pub visit_all :
    List DesiredInstance → Map ℕ → List ObservedContainer → Progress → Progress
unfolding visit
visit_all desired index [] p = p
visit_all desired index (c ∷ cs) p = visit_all desired index cs (visit desired index c p)

abbrev pub unmatched : List DesiredInstance → List Bool → List DesiredInstance
unmatched (d ∷ ds) (b ∷ bs) = if b then unmatched ds bs else d ∷ unmatched ds bs
unmatched ds bs = ds

abbrev pub no_matches : List DesiredInstance → List Bool
no_matches [] = []
no_matches (d ∷ ds) = false ∷ no_matches ds

unfoldable pub compute_diff : List DesiredInstance → List ObservedContainer → DiffResult
unfolding index_desired visit_all
compute_diff desired observed =
    let p =
      visit_all desired (index_desired desired 0 []) observed
        (record { matching = []; extra = []; matched = no_matches desired }) in
    record { matching = p.matching; missing = unmatched desired p.matched; extra = p.extra }
