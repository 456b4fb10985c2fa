-- ===== src/Autoscale/DomainLimiter/Spacing.antt =====
-- rate_limit.rs, `DomainLimiter`: the slots of one host are never closer than its delay, whatever
-- is called for this and for other hosts in between.
use millipede.Prelude.{
  ℕ, ◌+◌, ◌≤◌, max, ◌≡◌, refl, ◌≢◌, List, [], ◌∷◌, Option, none, some, arith, Text, text_discrete,
  ite, if_pos, if_neg, ap, ◌==◌, Bool-cases, inl, inr,
}
use millipede.Prelude.Table
use millipede.Prelude.Table.{get}
use millipede.Autoscale.DomainLimiter.{
  DomainState, DomainLimiter, reserve, reserve_slot, note, note_response, set_floor,
  set_delay_floor, too_many_requests, other_response, raise_next_allowed, on_status, entry, put,
  or_else, duration_max, default,
}

-- One call, with the time at which it is made and, for the calls that have one, its durations.
pub data Call : Type 0 where
  reserves : Text → ℕ → Call
  notes : Text → Option ℕ → Option ℕ → ℕ → Call
  floors : Text → ℕ → Call

unfoldable pub call : DomainLimiter → Call → DomainLimiter
call l (reserves host now) = (reserve_slot l host now).0
call l (notes host status after now) = note_response l host status after now
call l (floors host floor) = set_delay_floor l host floor

unfoldable pub calls : DomainLimiter → List Call → DomainLimiter
calls l [] = l
calls l (c ∷ cs) = calls (call l c) cs

entry-put_ne :
    (k host : Text) (d : DomainState) (l : DomainLimiter)
    → k ≢ host
    → entry host (put k d l) ≡ entry host l
entry-put_ne k host d l n =
    ap (λ o. or_else o default) (Table.get-insert_ne text_discrete k host d l.state n)

entry-put : (host : Text) (d : DomainState) (l : DomainLimiter) → entry host (put host d l) ≡ d
entry-put host d l =
    ap (λ o. or_else o default) (Table.get-insert_self text_discrete host d l.state)

abbrev pub GapKept : ℕ → Option ℕ → Option ℕ → Type 0
GapKept gap none next = Unit {0}
GapKept gap (some last) none = ⊥
GapKept gap (some last) (some next) = last + gap ≤ next

-- The next slot of a host keeps the delay from its last one.
pub record IsSpaced (delay : ℕ) (d : DomainState) : Type 0 where
  pub short : d.floor ≤ duration_max
  pub spaced : GapKept (max delay d.floor) d.last_reserved d.next_allowed

reserve-IsSpaced :
    (delay : ℕ) (d : DomainState) (now : ℕ)
    → delay ≤ duration_max
    → IsSpaced delay d
    → IsSpaced delay (reserve delay d now).0
unfolding reserve
reserve-IsSpaced delay d now h v = record { short = v.short; spaced = omega (arith, v.short) }

raise-IsSpaced :
    (delay : ℕ) (d : DomainState) (candidate : ℕ)
    → IsSpaced delay d
    → IsSpaced delay (raise_next_allowed d candidate)
unfolding raise_next_allowed
raise-IsSpaced delay d candidate v = ground (arith, v.spaced)

too_many-IsSpaced :
    (delay : ℕ) (d : DomainState) (now : ℕ)
    → IsSpaced delay d
    → IsSpaced delay (too_many_requests delay d now)
unfolding too_many_requests
too_many-IsSpaced delay d now v = ground (arith, v.spaced)

other-IsSpaced :
    (delay : ℕ) (d : DomainState) → IsSpaced delay d → IsSpaced delay (other_response delay d)
unfolding other_response
other-IsSpaced delay d v = ground (arith, v.spaced)

on_status-IsSpaced :
    (delay : ℕ) (d : DomainState) (status : Option ℕ) (now : ℕ)
    → IsSpaced delay d
    → IsSpaced delay (on_status delay d status now)
on_status-IsSpaced delay d none now v = v
on_status-IsSpaced delay d (some status) now v = elim (Bool-cases (status == 429)) [
  | inl e ↦ rw e (too_many-IsSpaced delay d now v)
  | inr e ↦ rw e (other-IsSpaced delay d v)
]

note-IsSpaced :
    (delay : ℕ) (d : DomainState) (status after : Option ℕ) (now : ℕ)
    → IsSpaced delay d
    → IsSpaced delay (note delay d status after now)
unfolding note
note-IsSpaced delay d status none now v = on_status-IsSpaced delay d status now v
note-IsSpaced delay d status (some after) now v =
    raise-IsSpaced delay _ (now + after) (on_status-IsSpaced delay d status now v)

set_floor-IsSpaced :
    (delay : ℕ) (d : DomainState) (floor : ℕ)
    → delay ≤ duration_max
    → floor ≤ duration_max
    → IsSpaced delay d
    → IsSpaced delay (set_floor delay d floor)
unfolding set_floor raise_next_allowed
set_floor-IsSpaced delay d floor h f v = ground (arith, v.spaced)

-- Only `reserve_slot` sets the last reservation.
note-last :
    (delay : ℕ) (d : DomainState) (status after : Option ℕ) (now : ℕ)
    → (note delay d status after now).last_reserved ≡ d.last_reserved
unfolding note too_many_requests other_response raise_next_allowed
note-last delay d status after now = ground arith

set_floor-last :
    (delay : ℕ) (d : DomainState) (floor : ℕ)
    → (set_floor delay d floor).last_reserved ≡ d.last_reserved
unfolding set_floor raise_next_allowed
set_floor-last delay d floor = ground arith

-- The slots that `reserve_slot` gives to one host over a history: the caller waits from `now`.
unfoldable pub slots : Text → DomainLimiter → List Call → List ℕ
slots host l [] = []
slots host l (reserves h now ∷ cs) =
    let rest = slots host (call l (reserves h now)) cs in
    let (d, wait) = reserve l.same_domain_delay (entry h l) now in
    ite (text_discrete h host) ((now + wait) ∷ rest) rest
slots host l (notes h status after now ∷ cs) = slots host (call l (notes h status after now)) cs
slots host l (floors h floor ∷ cs) = slots host (call l (floors h floor)) cs

-- Each slot is at least `gap` after the one before.
abbrev pub Apart : ℕ → Option ℕ → List ℕ → Type 0
Apart gap last [] = Unit {0}
Apart gap none (x ∷ xs) = Apart gap (some x) xs
Apart gap (some last) (x ∷ xs) = (last + gap ≤ x) × Apart gap (some x) xs

-- The floors are durations.
abbrev pub AreShort : List Call → Type 0
AreShort [] = Unit {0}
AreShort (reserves h now ∷ cs) = AreShort cs
AreShort (notes h status after now ∷ cs) = AreShort cs
AreShort (floors h floor ∷ cs) = (floor ≤ duration_max) × AreShort cs

Apart-cons :
    (gap : ℕ) (last : Option ℕ) (x : ℕ) (xs : List ℕ)
    → ((p : ℕ) → last ≡ some p → p + gap ≤ x)
    → Apart gap (some x) xs
    → Apart gap last (x ∷ xs)
Apart-cons gap none x xs h a = a
Apart-cons gap (some p) x xs h a = (h p refl, a)

-- The slot follows the last one by the delay, and becomes the last one.
reserve_after :
    (delay : ℕ) (d : DomainState) (now last : ℕ)
    → IsSpaced delay d
    → d.last_reserved ≡ some last
    → last + delay ≤ now + (reserve delay d now).1
unfolding reserve
reserve_after delay d now last v e = ground (arith, v.spaced)

reserve-last :
    (delay : ℕ) (d : DomainState) (now : ℕ)
    → (reserve delay d now).0.last_reserved ≡ some (now + (reserve delay d now).1)
unfolding reserve
reserve-last delay d now = ground arith

reserved-last :
    (host k : Text) (d : DomainState) (now delay : ℕ) (l : DomainLimiter)
    → k ≡ host
    → (entry host (put k (reserve delay d now).0 l)).last_reserved
      ≡ some (now + (reserve delay d now).1)
reserved-last host k d now delay l p =
    rw (← p) (rw (entry-put k (reserve delay d now).0 l) (reserve-last delay d now))

put-IsSpaced :
    (host k : Text) (delay : ℕ) (d : DomainState) (l : DomainLimiter)
    → (IsSpaced delay (entry k l) → IsSpaced delay d)
    → IsSpaced delay (entry host l)
    → IsSpaced delay (entry host (put k d l))
put-IsSpaced host k delay d l h v = elim (text_discrete k host) [
  | yes p ↦ rw (← p) (rw (entry-put k d l) (h (rw p v)))
  | no n ↦ rw (entry-put_ne k host d l n) v
]

put-last :
    (host k : Text) (d : DomainState) (l : DomainLimiter)
    → d.last_reserved ≡ (entry k l).last_reserved
    → (entry host (put k d l)).last_reserved ≡ (entry host l).last_reserved
put-last host k d l h = elim (text_discrete k host) [
  | yes p ↦ rw (← p) (rw (entry-put k d l) h)
  | no n ↦ rw (entry-put_ne k host d l n)
]

-- However the calls for all hosts are mixed, with whatever statuses, `Retry-After` values and floors,
-- the slots that one host is given are at least `same_domain_delay` apart, from a state whose next
-- slot keeps that delay. The delay and the floors are values of `Duration`.
pub slots-Apart :
    (host : Text) (l : DomainLimiter) (cs : List Call)
    → l.same_domain_delay ≤ duration_max
    → AreShort cs
    → IsSpaced l.same_domain_delay (entry host l)
    → Apart l.same_domain_delay (entry host l).last_reserved (slots host l cs)
unfolding slots call reserve_slot note_response set_delay_floor
slots-Apart host l [] h a v = tt
slots-Apart host l (reserves k now ∷ cs) h a v =
    let delay = l.same_domain_delay in
    let d = (reserve delay (entry k l) now).0 in
    let v' = put-IsSpaced host k delay d l (reserve-IsSpaced delay (entry k l) now h) v in
    let rest = slots-Apart host (put k d l) cs h a v' in
    elim (text_discrete k host) [
      | yes p ↦ rw (if_pos _ p) (
          Apart-cons delay (entry host l).last_reserved _ _
            (λ last e. rw p (reserve_after delay (entry host l) now last v e))
            (rw (reserved-last host k (entry k l) now delay l p) at rest))
      | no n ↦ rw (if_neg _ n) (rw (entry-put_ne k host d l n) at rest)
    ]
slots-Apart host l (notes k status after now ∷ cs) h a v =
    let delay = l.same_domain_delay in
    let d = note delay (entry k l) status after now in
    let v' = put-IsSpaced host k delay d l (note-IsSpaced delay (entry k l) status after now) v in
    rw (put-last host k d l (note-last delay (entry k l) status after now)) at
      (slots-Apart host (put k d l) cs h a v')
slots-Apart host l (floors k floor ∷ cs) h a v =
    let delay = l.same_domain_delay in
    let d = set_floor delay (entry k l) floor in
    let v' = put-IsSpaced host k delay d l (set_floor-IsSpaced delay (entry k l) floor h a.0) v in
    rw (put-last host k d l (set_floor-last delay (entry k l) floor)) at
      (slots-Apart host (put k d l) cs h a.1 v')
