-- ===== src/Autoscale/DomainLimiter.antt =====
-- crates/millipede-core/src/autoscale/rate_limit.rs, `DomainLimiter`: how long to wait before the next
-- request to a host. `Instant`s and `Duration`s are nanoseconds. A `Duration` is at most
-- `duration_max`, where its saturating operations stop; an `Instant` is unbounded here (past its end
-- `Instant + Duration` panics).
pub mod Spacing
pub mod Backoff
use millipede.Prelude.{
  ℕ, ◌+◌, ◌-◌, ◌*◌, ◌^◌, min, max, Bool, true, false, List, [], Option, none, some, Text,
  text_discrete, leb, ◌==◌, if◌then◌else◌,
}
use millipede.Prelude.Table.{Table, get, insert}
use millipede.Prelude.Words.{u32_max, u32_saturating_add}

-- `Duration::MAX`: 2^64 - 1 seconds and 999999999 nanoseconds.
abbrev pub duration_max : ℕ
duration_max = 18_446_744_073_709_551_615_999_999_999

abbrev pub second : ℕ
second = 1_000_000_000

abbrev pub max_penalty : ℕ
max_penalty = 300_000_000_000

-- `Duration::saturating_add`
abbrev pub duration_add : ℕ → ℕ → ℕ
duration_add a b = min (a + b) duration_max

pub record DomainState : Type 0 where
  pub next_allowed : Option ℕ
  pub last_reserved : Option ℕ
  pub consecutive_429s : ℕ
  pub penalty : ℕ
  pub floor : ℕ

pub record DomainLimiter : Type 0 where
  pub same_domain_delay : ℕ
  pub state : Table Text DomainState

unfoldable pub new : ℕ → DomainLimiter
new same_domain_delay = record { same_domain_delay = same_domain_delay; state = [] }

abbrev pub default : DomainState
default = record {
  next_allowed = none;
  last_reserved = none;
  consecutive_429s = 0;
  penalty = 0;
  floor = 0;
}

abbrev pub or_else {ℓ} : {A : Type ℓ} → Option A → A → A
or_else none d = d
or_else (some a) d = a

-- `entry(host).or_default()`
abbrev pub entry : Text → DomainLimiter → DomainState
entry host l = or_else (get text_discrete host l.state) default

abbrev pub put : Text → DomainState → DomainLimiter → DomainLimiter
put host d l = record l { state = insert text_discrete host d l.state }

-- What `reserve_slot` does to the host's own state, and its answer.
unfoldable pub reserve : ℕ → DomainState → ℕ → DomainState × ℕ
reserve same_domain_delay d now =
    let delay = duration_add (max same_domain_delay d.floor) d.penalty in
    let slot = max (or_else d.next_allowed now) now in
    (record d { next_allowed = some (slot + delay); last_reserved = some slot }, slot - now)

unfoldable pub reserve_slot : DomainLimiter → Text → ℕ → DomainLimiter × ℕ
reserve_slot l host now =
    let (d, wait) = reserve l.same_domain_delay (entry host l) now in (put host d l, wait)

unfoldable pub raise_next_allowed : DomainState → ℕ → DomainState
raise_next_allowed d candidate = elim d.next_allowed [
  | none ↦ record d { next_allowed = some candidate }
  | some current ↦ record d { next_allowed = some (max current candidate) }
]

-- The penalty of the `n`-th 429 in a row. A product past `duration_max` is `Duration::MAX`, before the
-- cap; `1_u32.checked_shl` succeeds below 32.
unfoldable pub penalty_of : ℕ → ℕ → ℕ
penalty_of same_domain_delay n =
    let base = max same_domain_delay second in
    let product = base * 2 ^ min (n - 1) 31 in
    min (if leb product duration_max then product else duration_max) max_penalty

unfoldable pub too_many_requests : ℕ → DomainState → ℕ → DomainState
too_many_requests same_domain_delay d now =
    let count = u32_saturating_add d.consecutive_429s 1 in
    let penalty = penalty_of same_domain_delay count in
    let baseline : ℕ = elim d.last_reserved [
      | none ↦ max (or_else d.next_allowed now) now
      | some last ↦ max (last + max same_domain_delay d.floor) now
    ] in
    record d {
      consecutive_429s = count;
      penalty = penalty;
      next_allowed = some (baseline + penalty);
    }

unfoldable pub other_response : ℕ → DomainState → DomainState
other_response same_domain_delay d = record d {
  consecutive_429s = 0;
  penalty = 0;
  next_allowed = elim d.last_reserved [
    | none ↦ none
    | some last ↦ some (last + max same_domain_delay d.floor)
  ];
}

abbrev pub on_status : ℕ → DomainState → Option ℕ → ℕ → DomainState
on_status delay d none now = d
on_status delay d (some status) now =
    if status == 429 then too_many_requests delay d now else other_response delay d

abbrev pub on_retry_after : DomainState → Option ℕ → ℕ → DomainState
on_retry_after d none now = d
on_retry_after d (some after) now = raise_next_allowed d (now + after)

unfoldable pub note : ℕ → DomainState → Option ℕ → Option ℕ → ℕ → DomainState
note same_domain_delay d status retry_after now =
    on_retry_after (on_status same_domain_delay d status now) retry_after now

unfoldable pub note_response : DomainLimiter → Text → Option ℕ → Option ℕ → ℕ → DomainLimiter
note_response l host status retry_after now =
    put host (note l.same_domain_delay (entry host l) status retry_after now) l

unfoldable pub set_floor : ℕ → DomainState → ℕ → DomainState
set_floor same_domain_delay d floor =
    let d' = record d { floor = floor } in
    elim d.last_reserved [
      | none ↦ d'
      | some last ↦
          raise_next_allowed d' (last + duration_add (max same_domain_delay floor) d.penalty)
    ]

unfoldable pub set_delay_floor : DomainLimiter → Text → ℕ → DomainLimiter
set_delay_floor l host floor = put host (set_floor l.same_domain_delay (entry host l) floor) l
