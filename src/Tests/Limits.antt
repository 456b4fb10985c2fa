-- ===== src/Tests/Limits.antt =====
-- The concurrency controller and the domain limiter on small histories.
use millipede.Prelude.{
  ℕ, ◌+◌, ◌*◌, ◌/◌, ◌%◌, ◌≤◌, min, max, ◌≡◌, refl, ◌≢◌, Bool, ◌&&◌, List, [], ◌∷◌, Option, none,
  some, arith, Text, codes, ltb, leb, ◌^◌, true, ◌<◌,
}
use millipede.Autoscale.Aimd
use millipede.Autoscale.Aimd.{Float32, AimdController, record_setback}
use millipede.Autoscale.Aimd.Bounds
use millipede.Autoscale.Aimd.Bounds.{
  success, setback, updates, new-IsValid, updates-new_bounds, successes, successes_lem,
  setback-successes,
}
use millipede.Autoscale.DomainLimiter.{DomainLimiter, default, note, entry}
use millipede.Autoscale.DomainLimiter.Spacing.{
  Call, reserves, notes, floors, Apart, slots, slots-Apart,
}
use millipede.Autoscale.DomainLimiter.Backoff.{burst, doubled, Throttles, burst-Throttles}

-- A factor as a fraction, which is enough to exercise the controller.
abbrev fraction : Float32
fraction = record {
  F32 = ℕ × ℕ;
  half = (1, 2);
  is_ratio = λ (a, b). ltb 0 a && leb a b;
  scale_round = λ (a, b) n. (2 * n * a + b) / (2 * b);
}

abbrev controller : AimdController fraction
controller = Aimd.new fraction 1 10 4 3 (1, 2)

updates-new_bounds_example :
    let d =
      (updates fraction (Aimd.new fraction 1 10 4 3 (1, 2)) (setback ∷ success ∷ [])).desired in
    (1 ≤ d) × (1 ≤ d) × (d ≤ max 10 (max 1 1))
updates-new_bounds_example =
    updates-new_bounds fraction 1 10 4 3 (1, 2) (setback ∷ success ∷ []) (omega arith) (omega arith)
      (omega arith)

controller-IsValid : Bounds.IsValid fraction controller
controller-IsValid = new-IsValid fraction 1 10 4 3 (1, 2) (omega arith) (omega arith) (omega arith)

successes_lem_example :
    ((successes fraction 7 controller).desired
      ≡ min
          (controller.desired
            + (7 + controller.success_streak) / controller.increase_after_successes)
          controller.max_concurrency)
    × ((successes fraction 7 controller).success_streak
        ≡ (7 + controller.success_streak) % controller.increase_after_successes)
successes_lem_example = successes_lem fraction 7 controller controller-IsValid

ratio_scales : (a b x : ℕ) → 0 < b → a ≤ b → 2 * x * a + b < 2 * b * (x + 1)
ratio_scales a b x h k = grind arith

-- A ratio does not enlarge a count.
fraction_shrinks :
    (f : ℕ × ℕ) (x : ℕ) → fraction.is_ratio f ≡ true → x ≤ 2 ^ 24 → fraction.scale_round f x ≤ x
fraction_shrinks (a, b) x ratio small =
    let scaled = ratio_scales a b x (ground (arith, ratio)) (ground (arith, ratio)) in
    grind (arith, scaled)

setback-successes_example :
    let c =
      updates fraction (Aimd.new fraction 1 10 4 3 (3, 2)) (setback ∷ success ∷ success ∷ []) in
    let after = record_setback fraction c in
    (after.desired ≤ c.desired)
    × ((successes fraction 7 after).desired ≡ min (after.desired + 7 / max 3 1) (max 10 (max 1 1)))
setback-successes_example =
    setback-successes fraction 1 10 4 3 (3, 2) (setback ∷ success ∷ success ∷ []) 7 (omega arith)
      (omega arith) (omega arith) (omega arith) refl fraction_shrinks

abbrev limiter : DomainLimiter
limiter = record { same_domain_delay = 100; state = [] }

abbrev history : List Call
history =
    reserves (codes "a") 0
    ∷ reserves (codes "b") 0
    ∷ notes (codes "a") (some 429) (some 7) 5
    ∷ floors (codes "a") 50
    ∷ reserves (codes "a") 10
    ∷ []

slots-Apart_example :
    Apart 100 (entry (codes "a") limiter).last_reserved (slots (codes "a") limiter history)
unfolding millipede.Prelude.Table.get
slots-Apart_example =
    slots-Apart (codes "a") limiter history (omega arith) (omega arith, tt)
      (record { short = omega arith; spaced = tt })

burst-Throttles_example :
    Throttles 100
      (doubled 100 2)
      (some 7)
      9
      (note 100 (burst 100 default ((0, none) ∷ (4, some 3) ∷ [])) (some 429) (some 7) 9)
burst-Throttles_example =
    burst-Throttles 100 default ((0, none) ∷ (4, some 3) ∷ []) (some 7) 9 refl (omega arith)
