-- ===== src/Autoscale/Aimd.antt =====
-- crates/millipede-core/src/autoscale/aimd.rs: additive increase, multiplicative decrease. The spin lock
-- `updating` is held for the whole of each update, so an update is a function of the state. `usize` has
-- 64 bits. There are no floats here: `F32` stands for `f32` with the three things that the source does
-- with a factor.
pub mod Bounds
use millipede.Prelude.{ℕ, ◌+◌, ◌-◌, min, max, Bool, leb, if◌then◌else◌}
use millipede.Prelude.Words.{u64_saturating_add}

pub record Float32 : Type 1 where
  pub F32 : Type 0
  -- the literal 0.5
  pub half : F32
  -- `f > 0.0 && f <= 1.0`
  pub is_ratio : F32 → Bool
  -- `(n as f32 * f).round() as usize`
  pub scale_round : F32 → ℕ → ℕ

-- `clamp`, where `lo ≤ hi`.
abbrev pub clamp : ℕ → ℕ → ℕ → ℕ
clamp lo hi x = max lo (min hi x)

module _ (float : Float32) where
  open float use {F32, half, is_ratio, scale_round}

  pub record AimdController : Type 0 where
    pub min_concurrency : ℕ
    pub max_concurrency : ℕ
    pub increase_after_successes : ℕ
    pub decrease_factor : F32
    pub desired : ℕ
    pub success_streak : ℕ

  unfoldable pub new : ℕ → ℕ → ℕ → ℕ → F32 → AimdController
  new min_concurrency max_concurrency initial_concurrency increase_after_successes factor =
      let lo = max min_concurrency 1 in
      let hi = max max_concurrency lo in
      record {
        min_concurrency = lo;
        max_concurrency = hi;
        increase_after_successes = max increase_after_successes 1;
        decrease_factor = if is_ratio factor then factor else half;
        desired = clamp lo hi initial_concurrency;
        success_streak = 0;
      }

  unfoldable pub desired_concurrency : AimdController → ℕ
  desired_concurrency c = c.desired

  unfoldable pub record_success : AimdController → AimdController
  record_success c =
      let next = u64_saturating_add c.success_streak 1 in
      record c {
        success_streak =
            if leb c.increase_after_successes next then next - c.increase_after_successes else next;
        desired =
            if leb (c.increase_after_successes - 1) c.success_streak
            then min (u64_saturating_add c.desired 1) c.max_concurrency
            else c.desired;
      }

  unfoldable pub record_setback : AimdController → AimdController
  record_setback c = record c {
    success_streak = 0;
    desired = clamp c.min_concurrency c.max_concurrency (scale_round c.decrease_factor c.desired);
  }
