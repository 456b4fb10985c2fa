-- ===== src/FsQueue/Fetching.antt =====
-- queue.rs (file system): what `fetch_next` hands out.
use millipede.Prelude.{
  ℕ, ◌+◌, ◌≤◌, ◌<◌, ◌≡◌, ◌≢◌, refl, inl, inr, List, [], ◌∷◌, none, some, arith, text_discrete,
  ℕ_discrete, Option-cases,
}
use millipede.Prelude.Table.{Table, get}
use millipede.Prelude.Words.{u64_max}
use millipede.Request.{RequestId}
use millipede.Storage.{ok}
use millipede.FsQueue.{
  StoredRequest, QueueState, FsRequestQueue, first_key, order_of, release, release_all,
  reclaim_expired, expired_in, lease_ttl,
}
use millipede.FsQueue.Operations.{lend, pop_lend, fetch_next}
use millipede.FsQueue.Placed.{IsValid}
use millipede.FsQueue.Moves.{reclaim_expired-IsValid, lent_state, lent-IsValid}

first_key_nil : (m : Table ℕ RequestId) → first_key m ≡ none → m ≡ []
unfolding first_key
first_key_nil [] e = refl
first_key_nil ((k, v) ∷ m) e = ground arith

first_key_present :
    (o : ℕ) (m : Table ℕ RequestId) → first_key m ≡ some o → get ℕ_discrete o m ≢ none
unfolding first_key get
first_key_present o [] e = ground arith
first_key_present o ((k, v) ∷ m) e = ground (arith, first_key_present o m)

first_key_least :
    (o k : ℕ) (v : RequestId) (m : Table ℕ RequestId)
    → first_key m ≡ some o
    → get ℕ_discrete k m ≡ some v
    → o ≤ k
unfolding first_key get
first_key_least o k v [] e g = ground arith
first_key_least o k v ((j, w) ∷ m) e g = elim (Option-cases (first_key m)) [
  | inl f ↦ let n = first_key_nil m f in ground (arith, f, n)
  | inr (p, f) ↦ let h = first_key_least p k v m f in ground (arith, f, h)
]

module _ {Url Payload : Type 0} where
  pub release-next_lease_id :
      (l : ℕ) (s : QueueState Url Payload) → (release l s).next_lease_id ≡ s.next_lease_id
  unfolding release
  release-next_lease_id l s = ground arith

  release_all-next_lease_id :
      (ids : List ℕ) (s : QueueState Url Payload)
      → (release_all ids s).next_lease_id ≡ s.next_lease_id
  release_all-next_lease_id [] s = refl
  release_all-next_lease_id (l ∷ ids) s =
      ground (arith, release_all-next_lease_id ids (release l s), release-next_lease_id l s)

  pub reclaim_expired-next_lease_id :
      (s : QueueState Url Payload) (now : ℕ)
      → (reclaim_expired s now).next_lease_id ≡ s.next_lease_id
  unfolding reclaim_expired
  reclaim_expired-next_lease_id s now = release_all-next_lease_id (expired_in now s.leases) s

  pub release-requests : (l : ℕ) (s : QueueState Url Payload) → (release l s).requests ≡ s.requests
  unfolding release
  release-requests l s = ground arith

  release_all-requests :
      (ids : List ℕ) (s : QueueState Url Payload) → (release_all ids s).requests ≡ s.requests
  release_all-requests [] s = refl
  release_all-requests (l ∷ ids) s =
      ground (arith, release_all-requests ids (release l s), release-requests l s)

  pub reclaim_expired-requests :
      (s : QueueState Url Payload) (now : ℕ) → (reclaim_expired s now).requests ≡ s.requests
  unfolding reclaim_expired
  reclaim_expired-requests s now = release_all-requests (expired_in now s.leases) s

  data Gets (s : QueueState Url Payload) (now : ℕ) : Type 0 where
    nothing : s.pending ≡ [] → pop_lend s now ≡ some (s, ok none) → Gets s now
    lent :
        (o : ℕ) (id : RequestId) (stored : StoredRequest Url Payload)
        → get ℕ_discrete o s.pending ≡ some id
        → ((k : ℕ) (j : RequestId) → get ℕ_discrete k s.pending ≡ some j → o ≤ k)
        → get text_discrete id s.requests ≡ some stored
        → get ℕ_discrete s.next_lease_id s.leases ≡ none
        → pop_lend s now
          ≡ some (
            lent_state s o id now,
            ok (
                some (record {
                  request = stored.request;
                  lease_id = s.next_lease_id;
                  expires_at = now + lease_ttl;
                })),
          )
        → IsValid (lent_state s o id now)
        → Gets s now

  pop_lend-Gets :
      (s : QueueState Url Payload) (now : ℕ) → s.next_lease_id < u64_max → IsValid s → Gets s now
  unfolding pop_lend lend order_of
  pop_lend-Gets s now room v = elim (Option-cases (first_key s.pending)) [
    | inl e ↦ nothing (first_key_nil s.pending e) (ground (arith, e))
    | inr (o, e) ↦ elim (Option-cases (get ℕ_discrete o s.pending)) [
      | inl f ↦ elim (first_key_present o s.pending e f) [ ]
      | inr (id, f) ↦ elim (Option-cases (get text_discrete id s.requests)) [
        | inl g ↦ let p = v.pending_order o id f in ground (arith, g, p)
        | inr (stored, g) ↦
            lent o id stored f (λ k j h. first_key_least o k j s.pending e h) g
              (v.fresh s.next_lease_id (omega arith)) (ground (arith, e, f, g))
              (lent-IsValid s o id now f v)
      ]
    ]
  ]

  -- `s` is the state once the expired leases are given back.
  pub data Serves (q : FsRequestQueue Url Payload) (now lent_at : ℕ) (s : QueueState Url Payload)
      : Type 0 where
    idle :
        s.pending ≡ []
        → fetch_next q now lent_at ≡ some (record q { state = s }, ok none)
        → Serves q now lent_at s
    served :
        (o : ℕ) (id : RequestId) (stored : StoredRequest Url Payload)
        → get ℕ_discrete o s.pending ≡ some id
        → ((k : ℕ) (j : RequestId) → get ℕ_discrete k s.pending ≡ some j → o ≤ k)
        → get text_discrete id s.requests ≡ some stored
        → get ℕ_discrete s.next_lease_id s.leases ≡ none
        → fetch_next q now lent_at
          ≡ some (
            record q { state = lent_state s o id lent_at },
            ok (
                some (record {
                  request = stored.request;
                  lease_id = s.next_lease_id;
                  expires_at = lent_at + lease_ttl;
                })),
          )
        → IsValid (lent_state s o id lent_at)
        → Serves q now lent_at s

  -- On a valid queue whose next lease identifier is below the end of `u64`, `fetch_next` does not
  -- panic. First the expired leases are given back. Then, if nothing is pending, it returns nothing;
  -- otherwise it returns the stored request with the least order of all pending ones, under a lease
  -- identifier that is free, for 180 seconds from the second reading of the clock. That request is no longer pending, and the queue stays valid.
  pub fetch_next-Serves :
      (q : FsRequestQueue Url Payload) (now lent_at : ℕ)
      → q.state.next_lease_id < u64_max
      → IsValid q.state
      → Serves q now lent_at (reclaim_expired q.state now)
  unfolding fetch_next
  fetch_next-Serves q now lent_at room v =
      let s = reclaim_expired q.state now in
      from s refl (
        pop_lend-Gets s lent_at (ground (arith, reclaim_expired-next_lease_id q.state now))
          (reclaim_expired-IsValid q.state now v))
    where
      from :
          (s : QueueState Url Payload)
          → reclaim_expired q.state now ≡ s
          → Gets s lent_at
          → Serves q now lent_at s
      from s p (nothing e f) = idle e (ground (arith, p, f))
      from s p (lent o id stored e least f g h w) =
          served o id stored e least f g (ground (arith, p, h)) w
