-- ===== src/Autoscaler/Bounds.antt =====
-- internal/autoscaler/policy.go, CalculateDesiredReplicas: how far a decision can go.
use almichot_cloud.Prelude.{
  ℤ, pos, negsuc, ℕ, ◌-◌, zero, suc, String, ◌<◌, ◌≡◌, ◌<ℤ◌, ◌≤ℤ◌, arith, int_sub, int_add_one,
  half_word, wrap, Bool-cases, ltb_ℤ, inl, inr, if◌then◌else◌,
}
use almichot_cloud.Autoscaler.{
  MetricFloats, ScalingAction, scale_up, scale_down, action_none, scale_up, scale_down, Verdict,
  up_from, down_from, desired_from, calculate_desired_replicas, floor_of, ceiling_of, current_of,
}

-- The action that leads from a count to another one.
abbrev pub direction : ℤ → ℤ → ScalingAction
direction now desired =
    if ltb_ℤ now desired then scale_up else if ltb_ℤ desired now then scale_down else action_none

-- What a verdict on `current` replicas between two bounds says.
pub record IsBounded (low high current : ℤ) (v : Verdict) : Type 0 where
  pub at_least : low ≤ℤ v.0
  pub at_most : v.0 ≤ℤ high
  pub directed : v.1 ≡ direction current v.0

int_sub_one : (n : ℕ) → suc n < half_word → int_sub (pos (suc n)) (pos 1) ≡ pos n
unfolding int_sub wrap
int_sub_one n h = ground arith

up_from-IsBounded :
    (low high product : ℤ) (n : ℕ)
    → suc n < half_word
    → low ≤ℤ pos n
    → pos n ≤ℤ high
    → IsBounded low high (pos n) (up_from high (pos n) product)
unfolding up_from
up_from-IsBounded low high product n w l h = record {
  at_least = ground (arith, int_add_one n w);
  at_most = ground (arith, int_add_one n w);
  directed = ground (arith, int_add_one n w);
}

down_from-IsBounded :
    (low high product : ℤ) (n : ℕ)
    → suc n < half_word
    → low ≤ℤ pos (suc n)
    → pos (suc n) ≤ℤ high
    → IsBounded low high (pos (suc n)) (down_from low (pos (suc n)) product)
unfolding down_from
down_from-IsBounded low high product n w l h = record {
  at_least = ground (arith, int_sub_one n w);
  at_most = ground (arith, int_sub_one n w);
  directed = ground (arith, int_sub_one n w);
}

desired_from-IsBounded :
    (fl : MetricFloats) (metric target tolerance : fl.F) (low high : ℤ) (n : ℕ)
    → suc (suc n) < half_word
    → low ≤ℤ pos (suc n)
    → pos (suc n) ≤ℤ high
    → IsBounded low high
        (pos (suc n))
        (desired_from fl metric target tolerance low high (pos (suc n)))
unfolding desired_from
desired_from-IsBounded fl metric target tolerance low high n w l h =
    elim (Bool-cases (fl.le target fl.zero_float)) [
      | inl a ↦ rw a still
      | inr a ↦
          elim (Bool-cases (fl.le (fl.abs (fl.sub (fl.div metric target) fl.one_float)) deadband)) [
            | inl b ↦ rw (a, b) still
            | inr b ↦ elim (Bool-cases (fl.lt fl.one_float (fl.div metric target))) [
              | inl c ↦
                  rw (a, b, c) (up_from-IsBounded low high (fl.ceil_int product) (suc n) w l h)
              | inr c ↦
                  rw (a, b, c)
                    (down_from-IsBounded low high (fl.floor_int product) n (omega arith) l h)
            ]
          ]
    ]
  where
    product : fl.F
    product = fl.mul (fl.of_int (pos (suc n))) (fl.div metric target)

    deadband : fl.F
    deadband = if fl.le tolerance fl.zero_float then fl.tenth else tolerance

    still : {reason : String} → IsBounded low high (pos (suc n)) (pos (suc n), action_none, reason)
    still = record { at_least = l; at_most = h; directed = ground arith }

floor_of_pos : (m : ℤ) → pos 1 ≤ℤ floor_of m
floor_of_pos m = ground arith

-- Let `low`, `high` and `now` be the floor, the ceiling and the current count after the corrections
-- that the function makes. When `now` lies between them and is below the largest `int`, the answer
-- lies between them too, whatever the metric and the float operations, and its action is the
-- direction from `now` to it: SCALE_UP when it is more, SCALE_DOWN when it is less, NONE otherwise.
pub calculate_desired_replicas-IsBounded :
    (fl : MetricFloats) (current : ℤ) (metric target : fl.F) (min_replicas max_replicas : ℤ)
    → (tolerance : fl.F) → floor_of min_replicas ≤ℤ current_of (floor_of min_replicas) current
    → current_of (floor_of min_replicas) current ≤ℤ ceiling_of (floor_of min_replicas) max_replicas
    → current_of (floor_of min_replicas) current <ℤ pos (half_word - 1)
    → IsBounded
        (floor_of min_replicas)
        (ceiling_of (floor_of min_replicas) max_replicas)
        (current_of (floor_of min_replicas) current)
        (calculate_desired_replicas fl current metric target min_replicas max_replicas tolerance)
unfolding calculate_desired_replicas
calculate_desired_replicas-IsBounded fl current metric target min_replicas max_replicas tolerance =
    from (floor_of min_replicas) (current_of (floor_of min_replicas) current)
      (floor_of_pos min_replicas)
  where
    from :
        (low now : ℤ)
        → pos 1 ≤ℤ low
        → low ≤ℤ now
        → now ≤ℤ ceiling_of low max_replicas
        → now <ℤ pos (half_word - 1)
        → IsBounded low
            (ceiling_of low max_replicas)
            now
            (desired_from fl metric target tolerance low (ceiling_of low max_replicas) now)
    from low (pos zero) p l h w = absurd (omega arith)
    from low (negsuc n) p l h w = absurd (omega arith)
    from low (pos (suc n)) p l h w =
        desired_from-IsBounded fl metric target tolerance low _ n (omega arith) l h
