-- ===== src/Balancer/Targets.antt =====
-- internal/loadbalancer/router.go: who is in the routing table after a change.
use almichot_cloud.Prelude.{
  String, ◌≡◌, refl, Bool, true, false, ◌&&◌, ◌||◌, List, [], ◌∷◌, ◌++◌, lookup-insert, any, filter,
  str_eq, if◌then◌else◌, eq_iff, arith,
}
use almichot_cloud.Balancer.{Target, Router, targets_of, other_than, add_target, unregister_target}

abbrev pub serves : String → Target → Bool
serves instance_id t = str_eq t.instance_id instance_id

-- Whether requests for a project can reach an instance.
unfoldable pub has_target : String → String → Router → Bool
has_target project instance_id r = any (serves instance_id) (targets_of project r)

any-filter_other :
    (i j : String) (ts : List Target)
    → any (serves j) (filter (other_than i) ts) ≡ (if str_eq i j then false else any (serves j) ts)
any-filter_other i j [] = ground arith
any-filter_other i j (t ∷ ts) =
    ground
      (arith, any-filter_other i j ts, eq_iff t.instance_id i, eq_iff t.instance_id j, eq_iff i j)

any-append :
    (j : String) (ts us : List Target)
    → any (serves j) (ts ++ us) ≡ (any (serves j) ts || any (serves j) us)
any-append j [] us = refl
any-append j (t ∷ ts) us = ground (arith, any-append j ts us)

-- After UnregisterTarget the instance is out of the project's table, and every other pair of a
-- project and an instance is as before.
pub has_target-unregister :
    (p q i j : String) (r : Router)
    → has_target q j (unregister_target p i r)
      ≡ (if str_eq p q && str_eq i j then false else has_target q j r)
unfolding has_target unregister_target
has_target-unregister p q i j r =
    rw (lookup-insert p q _ r.targets)
      (ground (arith, eq_iff p q, any-filter_other i j (targets_of p r)))

-- After RegisterTarget the instance is in the project's table, and every other pair of a project
-- and an instance is as before.
pub has_target-add :
    (p q i j url : String) (r : Router)
    → has_target q j (add_target p i url r)
      ≡ (if str_eq p q && str_eq i j then true else has_target q j r)
unfolding has_target add_target
has_target-add p q i j url r =
    let ts = targets_of p r in
    rw (lookup-insert p q _ r.targets) (
      ground (
        arith,
        eq_iff p q,
        eq_iff i j,
        any-append j (filter (other_than i) ts) (record { instance_id = i; url = url } ∷ []),
        any-filter_other i j ts,
      ))
