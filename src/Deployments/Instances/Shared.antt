-- ===== src/Deployments/Instances/Shared.antt =====
-- internal/deployments/repository.go, MemoryInstanceRepository: one record behind two maps.
use mathlib.Core.Path.{subst}
use almichot_cloud.Prelude.{
  ℤ, ℕ, String, ◌≡◌, refl, Option, none, some, Map, lookup, insert, str_eq, if◌then◌else◌,
  get_elem?, set, ok, arith, lookup-insert, lookup-insert_self, get_elem?-set_self,
  get_elem?-append_length,
}
use almichot_cloud.Deployments.Lifecycle.{Instance}
use almichot_cloud.Deployments.Instances.{
  Instances, create, deref, get_by_id, get_by_instance_key, update_at, update,
}

-- After Create, both lookups find the record that was stamped.
pub create-get :
    (now : ℤ) (x : Instance) (t : Instances)
    → (get_by_id x.id (create now x t).1 ≡ ok (create now x t).0)
      × (get_by_instance_key x.instance_key (create now x t).1 ≡ ok (create now x t).0)
unfolding create get_by_id get_by_instance_key
create-get now x t = (
  rw (lookup-insert_self, get_elem?-append_length) refl,
  rw (lookup-insert_self, get_elem?-append_length) refl,
)

update_at-get :
    (now : ℤ) (x z : Instance) (t u : Instances) (k : String) (p : Option ℕ) (o : Option Instance)
    → lookup x.id t.instances ≡ p
    → deref t p ≡ o
    → lookup k t.by_key ≡ p
    → update_at now x t p o ≡ ok (z, u)
    → (get_by_id x.id u ≡ ok z) × (get_by_instance_key k u ≡ ok z)
unfolding get_by_id get_by_instance_key
update_at-get now x z t u k none none i d b h = cc
update_at-get now x z t u k none (some y) i d b h = cc
update_at-get now x z t u k (some p) none i d b h = cc
update_at-get now x z t u k (some p) (some y) i d b h =
    let v : Instance = record x { updated_at = some now } in
    let keys : Map ℕ =
      if str_eq x.instance_key "" then t.by_key else insert x.instance_key p t.by_key in
    let w : Instances = record { heap = set t.heap p v; instances = t.instances; by_key = keys } in
    let at : get_elem? (set t.heap p v) p ≡ some v = get_elem?-set_self t.heap p v y d in
    let key : lookup k keys ≡ some p = ground (arith, lookup-insert x.instance_key k p t.by_key) in
    let zu : (v, w) ≡ (z, u) = cc in
    subst
      (λ (q : Instance × Instances).
        (get_by_id x.id q.1 ≡ ok q.0) × (get_by_instance_key k q.1 ≡ ok q.0))
      zu (rw (i, at) refl, rw (key, at) refl)

-- After an Update that succeeds, the ID finds the record that was written, and so does every key
-- that led to the same place as the ID before.
pub update-get :
    (now : ℤ) (x z : Instance) (t u : Instances) (k : String)
    → lookup k t.by_key ≡ lookup x.id t.instances
    → update now x t ≡ ok (z, u)
    → (get_by_id x.id u ≡ ok z) × (get_by_instance_key k u ≡ ok z)
unfolding update
update-get now x z t u k same h =
    update_at-get now x z t u k (lookup x.id t.instances) (deref t (lookup x.id t.instances)) refl
      refl same h
