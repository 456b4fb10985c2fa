-- ===== src/Prelude/Words.antt =====
-- Machine words: `+=` wraps at the width, `saturating_*` stop at its ends. A word is a plain number,
-- and its range is a hypothesis or part of an invariant.
use Prim.Native.Nat.{ℕ, ◌+◌, ◌%◌, ◌<◌, min}
use mathlib.Core.Path.{◌≡◌}
use native.Mathlib.Omega.{arith}

abbrev pub u32_max : ℕ
u32_max = 0xffff_ffff

abbrev pub u64_max : ℕ
u64_max = 0xffff_ffff_ffff_ffff

-- `n += 1` in a release build
abbrev pub u32_inc : ℕ → ℕ
u32_inc n = (n + 1) % 0x1_0000_0000

abbrev pub u64_inc : ℕ → ℕ
u64_inc n = (n + 1) % 0x1_0000_0000_0000_0000

-- `saturating_add`; `saturating_sub` is `-`, which stops at 0.
abbrev pub u32_saturating_add : ℕ → ℕ → ℕ
u32_saturating_add a b = min (a + b) u32_max

abbrev pub u64_saturating_add : ℕ → ℕ → ℕ
u64_saturating_add a b = min (a + b) u64_max

pub u32_inc_exact : (n : ℕ) → n < u32_max → u32_inc n ≡ n + 1
u32_inc_exact n h = omega arith

pub u64_inc_exact : (n : ℕ) → n < u64_max → u64_inc n ≡ n + 1
u64_inc_exact n h = omega arith
