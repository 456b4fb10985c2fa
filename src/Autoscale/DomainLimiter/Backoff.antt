-- ===== src/Autoscale/DomainLimiter/Backoff.antt =====
-- rate_limit.rs, `DomainLimiter`: how the delay of a host grows under 429 responses and how it recovers.
use millipede.Prelude.{
  ℕ, ◌+◌, ◌*◌, ◌^◌, ◌-◌, ◌≤◌, ◌<◌, min, max, ◌≡◌, Option, some, arith, List, [], ◌∷◌, length,
  dec_le, none, All,
}
use millipede.Prelude.Words.{u32_max, u32_saturating_add}
use millipede.Autoscale.DomainLimiter.{
  DomainState, note, too_many_requests, penalty_of, reserve, raise_next_allowed, second, or_else,
  set_floor, max_penalty,
}
use native.Mathlib.Nat.{mul-le-mul, pow-le-pow_right}

-- The state after 429 responses in a row, each with its time and its `Retry-After`.
unfoldable pub burst : ℕ → DomainState → List (ℕ × Option ℕ) → DomainState
burst delay d [] = d
burst delay d ((now, after) ∷ rs) = burst delay (note delay d (some 429) after now) rs

-- 1 s (or the delay, if that is longer), doubled with each response, at most 300 s.
abbrev pub doubled : ℕ → ℕ → ℕ
doubled delay n = min (max delay second * 2 ^ n) max_penalty

note-count :
    (delay : ℕ) (d : DomainState) (after : Option ℕ) (now : ℕ)
    → (note delay d (some 429) after now).consecutive_429s ≡ u32_saturating_add d.consecutive_429s 1
unfolding note too_many_requests raise_next_allowed
note-count delay d after now = ground arith

burst-count :
    (delay : ℕ) (d : DomainState) (rs : List (ℕ × Option ℕ))
    → d.consecutive_429s + length rs ≤ u32_max
    → (burst delay d rs).consecutive_429s ≡ d.consecutive_429s + length rs
unfolding burst
burst-count delay d [] h = omega arith
burst-count delay d ((now, after) ∷ rs) h = omega (
  arith,
  note-count delay d after now,
  burst-count delay (note delay d (some 429) after now) rs
      (omega (arith, note-count delay d after now)),
)

long_penalty : (delay n : ℕ) → 31 ≤ n → max_penalty ≤ max delay second * 2 ^ n
long_penalty delay n h = omega (
  arith,
  mul-le-mul {n₁ = second} {m₁ = 2 ^ 31} {n₂ = max delay second} {m₂ = 2 ^ n} (omega arith)
      (pow-le-pow_right {n = 2} (omega arith) h),
)

-- The shift stops at 31 and the product at `Duration::MAX`, both beyond the cap.
penalty_of-doubled : (delay n : ℕ) → penalty_of delay (n + 1) ≡ doubled delay n
unfolding penalty_of
penalty_of-doubled delay n = elim (dec_le n 31) [
  | yes h ↦ let e : min (n + 1 - 1) 31 ≡ n = omega arith in rw e (ground arith)
  | no h ↦
      let e : min (n + 1 - 1) 31 ≡ 31 = omega arith in
      rw e (ground (arith, long_penalty delay n (omega arith), long_penalty delay 31 (omega arith)))
]

-- The calls for a host that bring no status: a reservation, a new floor of the delay, and the note of a request
-- that ended without a response, with its `Retry-After` and time.
pub data Quiet : Type 0 where
  reserves : ℕ → Quiet
  floors : ℕ → Quiet
  unanswered : Option ℕ → ℕ → Quiet

unfoldable pub quiet : ℕ → DomainState → Quiet → DomainState
quiet delay d (reserves now) = (reserve delay d now).0
quiet delay d (floors floor) = set_floor delay d floor
quiet delay d (unanswered after now) = note delay d none after now

-- The slots that the reservations among the calls get: the caller waits from `now`.
unfoldable pub quiet_slots : ℕ → DomainState → List Quiet → List ℕ
quiet_slots delay d [] = []
quiet_slots delay d (reserves now ∷ qs) =
    (now + (reserve delay d now).1) ∷ quiet_slots delay (quiet delay d (reserves now)) qs
quiet_slots delay d (floors floor ∷ qs) = quiet_slots delay (quiet delay d (floors floor)) qs
quiet_slots delay d (unanswered after now ∷ qs) =
    quiet_slots delay (quiet delay d (unanswered after now)) qs

-- What a response with status 429 promises: the penalty, and that no slot given before the next status
-- comes before the penalty, or the `Retry-After` duration, has passed since the response.
pub record Throttles (delay penalty : ℕ) (after : Option ℕ) (time : ℕ) (d : DomainState)
    : Type 0 where
  pub penalised : d.penalty ≡ penalty
  pub waits : (qs : List Quiet) → All (λ slot. time + penalty ≤ slot) (quiet_slots delay d qs)
  pub obeys :
      (seconds : ℕ) (qs : List Quiet)
      → after ≡ some seconds
      → All (λ slot. time + seconds ≤ slot) (quiet_slots delay d qs)

-- Nothing is allowed before `bound`.
abbrev IsHeld : ℕ → DomainState → Type 0
IsHeld bound d = bound ≤ or_else d.next_allowed 0

quiet-IsHeld :
    (delay bound : ℕ) (d : DomainState) (q : Quiet)
    → IsHeld bound d
    → IsHeld bound (quiet delay d q)
unfolding quiet reserve set_floor note raise_next_allowed
quiet-IsHeld delay bound d (reserves now) h = ground (arith, h)
quiet-IsHeld delay bound d (floors floor) h = ground (arith, h)
quiet-IsHeld delay bound d (unanswered none now) h = h
quiet-IsHeld delay bound d (unanswered (some after) now) h = ground (arith, h)

reserve-waits :
    (delay bound : ℕ) (d : DomainState) (now : ℕ)
    → IsHeld bound d
    → bound ≤ now + (reserve delay d now).1
unfolding reserve
reserve-waits delay bound d now h = ground (arith, h)

quiet_slots-waits :
    (delay bound : ℕ) (d : DomainState) (qs : List Quiet)
    → IsHeld bound d
    → All (λ slot. bound ≤ slot) (quiet_slots delay d qs)
unfolding quiet_slots
quiet_slots-waits delay bound d [] h = tt
quiet_slots-waits delay bound d (reserves now ∷ qs) h = (
  reserve-waits delay bound d now h,
  quiet_slots-waits delay bound (quiet delay d (reserves now)) qs
      (quiet-IsHeld delay bound d (reserves now) h),
)
quiet_slots-waits delay bound d (floors floor ∷ qs) h =
    quiet_slots-waits delay bound (quiet delay d (floors floor)) qs
      (quiet-IsHeld delay bound d (floors floor) h)
quiet_slots-waits delay bound d (unanswered after now ∷ qs) h =
    quiet_slots-waits delay bound (quiet delay d (unanswered after now)) qs
      (quiet-IsHeld delay bound d (unanswered after now) h)

note-IsHeld :
    (delay : ℕ) (d : DomainState) (after : Option ℕ) (time : ℕ)
    → IsHeld
        (time + penalty_of delay (u32_saturating_add d.consecutive_429s 1))
        (note delay d (some 429) after time)
unfolding note too_many_requests raise_next_allowed
note-IsHeld delay d after time = ground arith

note-IsHeld_after :
    (delay : ℕ) (d : DomainState) (after : Option ℕ) (time seconds : ℕ)
    → after ≡ some seconds
    → IsHeld (time + seconds) (note delay d (some 429) after time)
unfolding note too_many_requests raise_next_allowed
note-IsHeld_after delay d after time seconds e = ground (arith, e)

note-penalty :
    (delay : ℕ) (d : DomainState) (after : Option ℕ) (time : ℕ)
    → (note delay d (some 429) after time).penalty
      ≡ penalty_of delay (u32_saturating_add d.consecutive_429s 1)
unfolding note too_many_requests raise_next_allowed
note-penalty delay d after time = ground arith

throttled :
    (delay : ℕ) (d : DomainState) (after : Option ℕ) (time : ℕ)
    → Throttles delay
        (penalty_of delay (u32_saturating_add d.consecutive_429s 1))
        after
        time
        (note delay d (some 429) after time)
throttled delay d after time = record {
  penalised = note-penalty delay d after time;
  waits = λ qs. quiet_slots-waits delay _ _ qs (note-IsHeld delay d after time);
  obeys = λ seconds qs e.
      quiet_slots-waits delay _ _ qs (note-IsHeld_after delay d after time seconds e);
}

-- After any number `n` below 2^32 - 1 of 429 responses in a row to a host without earlier ones, at any times and
-- with any `Retry-After` values, one more sets the penalty to the base doubled `n` times, at most 300 s. Until
-- the next response with a status, whatever floors are set and whatever requests end without a response, each slot
-- that is reserved comes when both that penalty and the last response's `Retry-After` have passed since it.
pub burst-Throttles :
    (delay : ℕ) (d : DomainState) (rs : List (ℕ × Option ℕ)) (after : Option ℕ) (time : ℕ)
    → d.consecutive_429s ≡ 0
    → length rs < u32_max
    → Throttles delay
        (doubled delay (length rs))
        after
        time
        (note delay (burst delay d rs) (some 429) after time)
burst-Throttles delay d rs after time h short =
    let e : u32_saturating_add (burst delay d rs).consecutive_429s 1 ≡ length rs + 1 =
      omega (arith, burst-count delay d rs (omega arith)) in
    rw (← penalty_of-doubled delay (length rs))
      (rw (← e) (throttled delay (burst delay d rs) after time))
