-- ===== src/Autoscale/Aimd/Bounds.antt =====
-- aimd.rs: the desired concurrency stays within its bounds, rises by one for each full streak, and does not
-- rise at a setback.
use native.Mathlib.Nat.{div-eq_of_lt, mod-eq_of_lt, zero-add, add-zero}
use millipede.Prelude.{
  dec_lt, ℕ, zero, suc, ◌+◌, ◌/◌, ◌%◌, ◌≤◌, ◌<◌, min, max, ◌≡◌, refl, List, [], ◌∷◌, arith, ap, ap₂,
  ◌∙◌, ◌^◌, true, Bool-cases, inl, inr,
}
use millipede.Prelude.Words.{u64_max}
use millipede.Autoscale.Aimd.{Float32, AimdController, new, record_success, record_setback}

pub data Outcome : Type 0 where
  success setback : Outcome

module _ (float : Float32) where
  -- `max_concurrency` and `increase_after_successes` are values of `usize`.
  pub record IsValid (c : AimdController float) : Type 0 where
    pub positive : 1 ≤ c.min_concurrency
    pub above_min : c.min_concurrency ≤ c.desired
    pub below_max : c.desired ≤ c.max_concurrency
    pub max_word : c.max_concurrency ≤ u64_max
    pub step_word : c.increase_after_successes ≤ u64_max
    pub partial : c.success_streak < c.increase_after_successes

  unfoldable pub update : AimdController float → Outcome → AimdController float
  update c success = record_success float c
  update c setback = record_setback float c

  unfoldable pub updates : AimdController float → List Outcome → AimdController float
  updates c [] = c
  updates c (o ∷ os) = updates (update c o) os

  pub new-IsValid :
      (lo hi initial step : ℕ) (factor : float.F32)
      → lo ≤ u64_max
      → hi ≤ u64_max
      → step ≤ u64_max
      → IsValid (new float lo hi initial step factor)
  unfolding new
  new-IsValid lo hi initial step factor a b c = omega arith

  record_success-IsValid : (c : AimdController float) → IsValid c → IsValid (record_success float c)
  unfolding record_success
  record_success-IsValid c v = ground arith

  pub update-IsValid : (c : AimdController float) (o : Outcome) → IsValid c → IsValid (update c o)
  unfolding update record_setback
  update-IsValid c success v = record_success-IsValid c v
  update-IsValid c setback v = omega arith

  updates-IsValid :
      (c : AimdController float) (os : List Outcome) → IsValid c → IsValid (updates c os)
  unfolding updates
  updates-IsValid c [] v = v
  updates-IsValid c (o ∷ os) v = updates-IsValid (update c o) os (update-IsValid c o v)

  updates_bounds_kept :
      (c : AimdController float) (os : List Outcome)
      → ((updates c os).min_concurrency ≡ c.min_concurrency)
        × ((updates c os).max_concurrency ≡ c.max_concurrency)
  unfolding updates update record_success record_setback
  updates_bounds_kept c [] = (refl, refl)
  updates_bounds_kept c (success ∷ os) = updates_bounds_kept (record_success float c) os
  updates_bounds_kept c (setback ∷ os) = updates_bounds_kept (record_setback float c) os

  new_bounds :
      (lo hi initial step : ℕ) (factor : float.F32)
      → ((new float lo hi initial step factor).min_concurrency ≡ max lo 1)
        × ((new float lo hi initial step factor).max_concurrency ≡ max hi (max lo 1))
  unfolding new
  new_bounds lo hi initial step factor = (refl, refl)

  -- However a controller is configured with values of `usize`, and whatever successes and setbacks it records, the desired
  -- concurrency is at least 1, at least the minimum, and at most the greater of minimum and maximum.
  pub updates-new_bounds :
      (lo hi initial step : ℕ) (factor : float.F32) (os : List Outcome)
      → lo ≤ u64_max
      → hi ≤ u64_max
      → step ≤ u64_max
      → let d = (updates (new float lo hi initial step factor) os).desired in
        (1 ≤ d) × (lo ≤ d) × (d ≤ max hi (max lo 1))
  updates-new_bounds lo hi initial step factor os a b c =
      let start = new float lo hi initial step factor in
      omega (
        arith,
        updates-IsValid start os (new-IsValid lo hi initial step factor a b c),
        updates_bounds_kept start os,
        new_bounds lo hi initial step factor,
      )

  -- `n` successes in a row.
  unfoldable pub successes : ℕ → AimdController float → AimdController float
  successes zero c = c
  successes (suc n) c = successes n (record_success float c)

  partial_step :
      (c : AimdController float)
      → IsValid c
      → suc c.success_streak < c.increase_after_successes
      → ((record_success float c).success_streak ≡ suc c.success_streak)
        × ((record_success float c).desired ≡ c.desired)
        × ((record_success float c).increase_after_successes ≡ c.increase_after_successes)
        × ((record_success float c).max_concurrency ≡ c.max_concurrency)
  unfolding record_success
  partial_step c v h = ground arith

  full_step :
      (c : AimdController float)
      → IsValid c
      → suc c.success_streak ≡ c.increase_after_successes
      → ((record_success float c).success_streak ≡ 0)
        × ((record_success float c).desired ≡ min (c.desired + 1) c.max_concurrency)
        × ((record_success float c).increase_after_successes ≡ c.increase_after_successes)
        × ((record_success float c).max_concurrency ≡ c.max_concurrency)
  unfolding record_success
  full_step c v h = ground arith

  carry : (s n k : ℕ) → suc s ≡ k → (suc n + s) / k ≡ n / k + 1
  carry s n k e = grind arith

  carry_mod : (s n k : ℕ) → suc s ≡ k → (suc n + s) % k ≡ n % k
  carry_mod s n k e = grind arith

  successes_from :
      (n s k d m : ℕ) (c : AimdController float)
      → IsValid c
      → c.success_streak ≡ s
      → c.increase_after_successes ≡ k
      → c.desired ≡ d
      → c.max_concurrency ≡ m
      → ((successes n c).desired ≡ min (d + (n + s) / k) m)
        × ((successes n c).success_streak ≡ (n + s) % k)
  unfolding successes
  successes_from zero s k d m c v es ek ed em =
      let partial : s < k = omega arith in
      (rw (zero-add, div-eq_of_lt partial) (omega arith), rw (zero-add, mod-eq_of_lt partial) es)
  successes_from (suc n) s k d m c v es ek ed em =
      let v' = record_success-IsValid c v in
      elim (dec_lt (suc s) k) [
        | yes h ↦
            let (fs, fd, fk, fm) = partial_step c v (omega arith) in
            let shift : n + suc s ≡ suc n + s = omega arith in
            rw shift at (
              successes_from n (suc s) k d m (record_success float c) v' (fs ∙ ap suc es) (fk ∙ ek)
                (fd ∙ ed) (fm ∙ em))
        | no h ↦
            let full : suc s ≡ k = omega arith in
            let (fs, fd, fk, fm) = full_step c v (omega arith) in
            let rest =
              successes_from n 0 k (min (d + 1) m) m (record_success float c) v' fs (fk ∙ ek)
                (fd ∙ ap₂ (λ x y. min (x + 1) y) ed em) (fm ∙ em) in
            let rest' = rw add-zero at rest in
            (omega (arith, rest', carry s n k full), omega (arith, rest', carry_mod s n k full))
      ]

  -- `n` successes in a row add one for each full streak, up to the maximum, and leave the rest of the
  -- streak.
  pub successes_lem :
      (n : ℕ) (c : AimdController float)
      → IsValid c
      → ((successes n c).desired
          ≡ min (c.desired + (n + c.success_streak) / c.increase_after_successes) c.max_concurrency)
        × ((successes n c).success_streak ≡ (n + c.success_streak) % c.increase_after_successes)
  successes_lem n c v =
      successes_from n c.success_streak c.increase_after_successes c.desired c.max_concurrency c v
        refl refl refl refl

  new-is_ratio :
      (lo hi initial step : ℕ) (factor : float.F32)
      → float.is_ratio float.half ≡ true
      → float.is_ratio (new float lo hi initial step factor).decrease_factor ≡ true
  unfolding new
  new-is_ratio lo hi initial step factor h = elim (Bool-cases (float.is_ratio factor)) [
    | inl e ↦ rw e e
    | inr e ↦ rw e h
  ]

  updates_config_kept :
      (c : AimdController float) (os : List Outcome)
      → ((updates c os).decrease_factor ≡ c.decrease_factor)
        × ((updates c os).increase_after_successes ≡ c.increase_after_successes)
  unfolding updates update record_success record_setback
  updates_config_kept c [] = (refl, refl)
  updates_config_kept c (success ∷ os) = updates_config_kept (record_success float c) os
  updates_config_kept c (setback ∷ os) = updates_config_kept (record_setback float c) os

  new_streak :
      (lo hi initial step : ℕ) (factor : float.F32)
      → (new float lo hi initial step factor).increase_after_successes ≡ max step 1
  unfolding new
  new_streak lo hi initial step factor = refl

  record_setback-le :
      (c : AimdController float)
      → IsValid c
      → float.scale_round c.decrease_factor c.desired ≤ c.desired
      → ((record_setback float c).desired ≤ c.desired)
        × ((record_setback float c).success_streak ≡ 0)
        × ((record_setback float c).increase_after_successes ≡ c.increase_after_successes)
        × ((record_setback float c).max_concurrency ≡ c.max_concurrency)
  unfolding record_setback
  record_setback-le c v shrinks =
      (omega (arith, shrinks, v.above_min, v.below_max), refl, refl, refl)

  -- However a controller is configured with bounds up to 2^24, whatever the factor, even one that is not a ratio,
  -- and whatever it has recorded: a setback does not raise the desired concurrency, and `n` successes after
  -- it add just one for each full streak of them, whatever streak there was before, up to the maximum.
  -- Of `f32` it is assumed that 0.5 is in (0, 1], and that an integer up to 2^24, which `f32` holds
  -- exactly, does not grow when it is multiplied by a factor in (0, 1] and rounded.
  pub setback-successes :
      (lo hi initial step : ℕ) (factor : float.F32) (os : List Outcome) (n : ℕ)
      → lo ≤ u64_max
      → hi ≤ u64_max
      → step ≤ u64_max
      → max hi (max lo 1) ≤ 2 ^ 24
      → float.is_ratio float.half ≡ true
      → ((f : float.F32) (x : ℕ) → float.is_ratio f ≡ true → x ≤ 2 ^ 24 → float.scale_round f x ≤ x)
      → let c = updates (new float lo hi initial step factor) os in
        let after = record_setback float c in
        (after.desired ≤ c.desired)
        × ((successes n after).desired ≡ min (after.desired + n / max step 1) (max hi (max lo 1)))
  unfolding record_setback update
  setback-successes lo hi initial step factor os n a b d small half_ratio shrinks =
      let start = new float lo hi initial step factor in
      let c = updates start os in
      let v = updates-IsValid start os (new-IsValid lo hi initial step factor a b d) in
      let (same_lo, same_hi) = updates_bounds_kept start os in
      let (lo_is, hi_is) = new_bounds lo hi initial step factor in
      let (same_factor, same_step) = updates_config_kept start os in
      let ratio = rw (← same_factor) at (new-is_ratio lo hi initial step factor half_ratio) in
      let (falls, streak, step_is, max_is) =
        record_setback-le c v (
          shrinks c.decrease_factor c.desired ratio (omega (arith, v.below_max, same_hi, hi_is))) in
      let (grown, rest) =
        successes_from n 0 (max step 1) (record_setback float c).desired (max hi (max lo 1))
          (record_setback float c) (update-IsValid c setback v) streak
          (step_is ∙ same_step ∙ new_streak lo hi initial step factor) refl
          (max_is ∙ same_hi ∙ hi_is) in
      (falls, rw add-zero at grown)
