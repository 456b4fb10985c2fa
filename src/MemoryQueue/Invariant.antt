-- ===== src/MemoryQueue/Invariant.antt =====
-- queue.rs (memory): where each known key is, and that every operation keeps account of it.
use millipede.Prelude.{
  ℕ, ◌+◌, ◌≤◌, ◌<◌, ◌≡◌, ite, inl, inr, Bool, true, false, none, some, arith, Text, text_discrete,
  ℕ_discrete, length, Option-cases,
}
use millipede.Prelude.Members
use millipede.Prelude.Members.{contains}
use millipede.Prelude.Table
use millipede.Prelude.Table.{get, insert, remove, total, IsMap}
use millipede.Prelude.Words.{u64_max, u64_inc_exact}
use millipede.Request.{Request}
use millipede.Storage.{Lease, ok}
use millipede.Frontier
use millipede.Frontier.{Frontier, MemoryQueuePolicy}
use millipede.Frontier.Rotation.{is_some}
use millipede.Frontier.Contents.{IsSound, weigh, Takes, dry, taken, pop_front-Takes}
use millipede.MemoryQueue.{
  LeasedRequest, QueueState, fetch_next, lend, mark_handled, renew, lease_ttl,
}

abbrev pub bit : Bool → ℕ
bit true = 1
bit false = 0

module _ {Url Payload : Type 0} where
  -- 1 for a request with the key, and 0 for another.
  unfoldable pub is_key : Text → Request Url Payload → ℕ
  is_key k r = ite (text_discrete r.unique_key k) 1 0

  abbrev pub leased_key : Text → LeasedRequest Url Payload → ℕ
  leased_key k l = is_key k l.request

  -- How many pending requests, and how many leased ones, have the key.
  abbrev pub pending_of : Text → QueueState Url Payload → ℕ
  pending_of k s = weigh (is_key k) s.pending

  abbrev pub leased_of : Text → QueueState Url Payload → ℕ
  leased_of k s = total ℕ_discrete (leased_key k) s.in_flight

  abbrev pub is_handled : Text → QueueState Url Payload → Bool
  is_handled k s = contains text_discrete k s.handled

  abbrev pub is_known : Text → QueueState Url Payload → Bool
  is_known k s = is_some (get text_discrete k s.dedup)

  pub record IsValid (s : QueueState Url Payload) : Type 0 where
    pub sound : IsSound s.pending
    pub leases : IsMap ℕ_discrete s.in_flight
    -- lease identifiers not yet given out are free
    pub fresh : (i : ℕ) → s.next_lease_id ≤ i → get ℕ_discrete i s.in_flight ≡ none
    -- a known key is in one place, once: pending, leased or handled; an unknown key is in none
    pub placed :
        (k : Text) → pending_of k s + leased_of k s + bit (is_handled k s) ≡ bit (is_known k s)
    pub counted : s.handled_count ≡ length s.handled

  -- The lease carries the unique key that it was given out with.
  abbrev pub Honest : QueueState Url Payload → Lease Url Payload → Type 0
  Honest s lease =
      (l : LeasedRequest Url Payload)
      → get ℕ_discrete lease.lease_id s.in_flight ≡ some l
      → lease.request.unique_key ≡ l.request.unique_key

  lend-IsValid :
      (s : QueueState Url Payload) (now : ℕ) (r : Request Url Payload) (f : Frontier Url Payload)
      → IsSound f
      → ((w : Request Url Payload → ℕ) → weigh w f + w r ≡ weigh w s.pending)
      → s.next_lease_id < u64_max
      → IsValid s
      → IsValid (lend s now (some r) f).0
  unfolding lend
  lend-IsValid s now r f h m room v =
      let next = s.next_lease_id in
      let l : LeasedRequest Url Payload = record { request = r; expires_at = now + lease_ttl } in
      let free : get ℕ_discrete next s.in_flight ≡ none = v.fresh next (omega arith) in
      record {
        sound = h;
        leases = Table.insert-IsMap ℕ_discrete next l s.in_flight v.leases;
        fresh = λ i le. ground (
          arith,
          v.fresh i,
          Table.get-insert ℕ_discrete next i l s.in_flight,
          u64_inc_exact next room,
        );
        placed = λ k. omega (
          arith,
          v.placed k,
          m (is_key k),
          Table.total-insert_absent ℕ_discrete (leased_key k) next l s.in_flight free,
        );
        counted = v.counted;
      }

  -- What `fetch_next` may do.
  pub data Fetches (s : QueueState Url Payload) (now : ℕ) : Type 0 where
    nothing :
        Frontier.is_empty s.pending ≡ true → fetch_next s now ≡ some (s, ok none) → Fetches s now
    lent :
        (r : Request Url Payload) (f : Frontier Url Payload)
        → Frontier.is_empty s.pending ≡ false
        → fetch_next s now ≡ some (lend s now (some r) f)
        → IsValid (lend s now (some r) f).0
        → ((w : Request Url Payload → ℕ) → weigh w f + w r ≡ weigh w s.pending)
        → Fetches s now

  pub fetch_next-Fetches :
      (s : QueueState Url Payload) (now : ℕ) → s.next_lease_id < u64_max → IsValid s → Fetches s now
  unfolding fetch_next
  fetch_next-Fetches s now room v = from (pop_front-Takes s.pending v.sound)
    where
      from : Takes s.pending → Fetches s now
      from (dry e p) = nothing e (rw (p, fetch_next))
      from (taken r f e p h m) =
          lent r f e (rw (p, fetch_next)) (lend-IsValid s now r f h m room v) m

  -- What is leased has not been handled.
  pub leased_not_handled :
      (s : QueueState Url Payload) (id : ℕ) (l : LeasedRequest Url Payload)
      → get ℕ_discrete id s.in_flight ≡ some l
      → IsValid s
      → is_handled l.request.unique_key s ≡ false
  unfolding is_key
  leased_not_handled s id l e v =
      let key = l.request.unique_key in
      ground (
        arith,
        v.placed key,
        Table.total-remove_present ℕ_discrete (leased_key key) id l s.in_flight v.leases e,
      )

  pub mark_handled-IsValid :
      (s : QueueState Url Payload) (lease : Lease Url Payload)
      → s.handled_count < u64_max
      → IsValid s
      → IsValid (mark_handled s lease).0
  unfolding mark_handled is_key
  mark_handled-IsValid s lease room v =
      elim (Option-cases (get ℕ_discrete lease.lease_id s.in_flight)) [
        | inl e ↦ rw (e, mark_handled) v
        | inr (l, e) ↦
            let id = lease.lease_id in
            let key = l.request.unique_key in
            let old = leased_not_handled s id l e v in
            rw (e, mark_handled)
              (record {
                sound = v.sound;
                leases = Table.remove-IsMap ℕ_discrete id s.in_flight v.leases;
                fresh =
                    λ i le. ground (arith, v.fresh i, Table.get-remove ℕ_discrete id i s.in_flight);
                placed = λ k. ground (
                  arith,
                  old,
                  v.placed k,
                  Table.total-remove_present ℕ_discrete (leased_key k) id l s.in_flight v.leases e,
                  Members.contains-add text_discrete k key s.handled,
                );
                counted = omega (
                  arith,
                  v.counted,
                  Members.length-add_new text_discrete key s.handled old,
                  u64_inc_exact s.handled_count room,
                );
              })
      ]

  pub renew-IsValid :
      (s : QueueState Url Payload) (id extend_by : ℕ) → IsValid s → IsValid (renew s id extend_by).0
  unfolding renew is_key
  renew-IsValid s id extend_by v = elim (Option-cases (get ℕ_discrete id s.in_flight)) [
    | inl e ↦ rw (e, renew) v
    | inr (l, e) ↦
        let l' : LeasedRequest Url Payload = record l { expires_at = l.expires_at + extend_by } in
        rw (e, renew)
          (record {
            sound = v.sound;
            leases = Table.insert-IsMap ℕ_discrete id l' s.in_flight v.leases;
            fresh = λ i le.
                ground (arith, e, v.fresh i, Table.get-insert ℕ_discrete id i l' s.in_flight);
            placed = λ k. omega (
              arith,
              v.placed k,
              Table.total-insert_present ℕ_discrete (leased_key k) id l' l s.in_flight e,
            );
            counted = v.counted;
          })
  ]
