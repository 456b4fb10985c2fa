-- ===== src/MemoryQueue/Reachable.antt =====
-- queue.rs (memory): the states that calls can reach, in any order and from any number of workers. A
-- lease is `Honest` when it is given back; the two counters are below the end of their `u64`.
use millipede.Prelude.{ℕ, ◌<◌, ◌≡◌, refl, sym, subst, List, Option, some, arith, Text}
use millipede.Prelude.Members.{contains}
use millipede.Prelude.Table.{get, total}
use millipede.Prelude.Words.{u64_max}
use millipede.Request.{Request}
use millipede.Storage.{StorageResult, Lease, AddOptions, ReclaimOptions, RequestSource}
use millipede.Frontier.{MemoryQueuePolicy}
use millipede.Frontier.Contents.{new-IsSound, weigh-new}
use millipede.MemoryQueue.{
  QueueState, with_policy, fetch_next, mark_handled, renew, add, add_batch, reclaim, abandon,
}
use millipede.MemoryQueue.Invariant.{
  IsValid, Honest, Fetches, nothing, lent, is_key, fetch_next-Fetches, mark_handled-IsValid,
  renew-IsValid,
}
use millipede.MemoryQueue.Pushes.{
  add_locked-IsValid, add_all-IsValid, reclaim-IsValid, abandon-IsValid,
}

module _ (Url Payload : Type 0) where
  pub with_policy-IsValid :
      (p : MemoryQueuePolicy) → IsValid (with_policy {Url = Url} {Payload = Payload} p)
  unfolding with_policy get total contains
  with_policy-IsValid p = record {
    sound = new-IsSound Url Payload p;
    leases = tt;
    fresh = λ i h. refl;
    placed = λ k. omega (arith, weigh-new Url Payload (is_key k) p);
    counted = refl;
  }

module _ {Url Payload : Type 0} (host_str : Url → Option Text) where
  -- One call of the queue's interface that changes the state from `s` to `t`.
  pub data Step (s t : QueueState Url Payload) : Type 0 where
    adds : (r : Request Url Payload) (opts : AddOptions) → t ≡ (add host_str s r opts).0 → Step s t
    adds_batch :
        (sources : List (RequestSource Url Payload)) (opts : AddOptions)
        → t ≡ (add_batch host_str s sources opts).0
        → Step s t
    fetches :
        (now : ℕ) (res : StorageResult (Option (Lease Url Payload)))
        → s.next_lease_id < u64_max
        → fetch_next s now ≡ some (t, res)
        → Step s t
    handles :
        (lease : Lease Url Payload)
        → s.handled_count < u64_max
        → t ≡ (mark_handled s lease).0
        → Step s t
    reclaims :
        (lease : Lease Url Payload) (opts : ReclaimOptions)
        → Honest s lease
        → t ≡ (reclaim host_str s lease opts).0
        → Step s t
    renews : (id extend_by : ℕ) → t ≡ (renew s id extend_by).0 → Step s t
    abandons :
        (lease : Lease Url Payload) → Honest s lease → t ≡ (abandon host_str s lease).0 → Step s t

  pub data Reach (s : QueueState Url Payload) : QueueState Url Payload → Type 0 where
    here : Reach s s
    next : {t u : QueueState Url Payload} → Reach s t → Step t u → Reach s u

  fetched-IsValid :
      {s t : QueueState Url Payload} {now : ℕ} {res : StorageResult (Option (Lease Url Payload))}
      → IsValid s
      → fetch_next s now ≡ some (t, res)
      → Fetches s now
      → IsValid t
  fetched-IsValid v e (nothing _ p) = subst IsValid (cc) v
  fetched-IsValid v e (lent r f _ p v' m) = subst IsValid (cc) v'

  Step-IsValid : {s t : QueueState Url Payload} → Step s t → IsValid s → IsValid t
  unfolding add add_batch
  Step-IsValid {s} (adds r opts e) v =
      subst IsValid (sym e) (add_locked-IsValid host_str s r opts v)
  Step-IsValid {s} (adds_batch sources opts e) v =
      subst IsValid (sym e) (add_all-IsValid host_str s sources opts v)
  Step-IsValid {s} (fetches now res room e) v =
      fetched-IsValid v e (fetch_next-Fetches s now room v)
  Step-IsValid {s} (handles lease room e) v =
      subst IsValid (sym e) (mark_handled-IsValid s lease room v)
  Step-IsValid {s} (reclaims lease opts h e) v =
      subst IsValid (sym e) (reclaim-IsValid host_str s lease opts h v)
  Step-IsValid {s} (renews id extend_by e) v =
      subst IsValid (sym e) (renew-IsValid s id extend_by v)
  Step-IsValid {s} (abandons lease h e) v =
      subst IsValid (sym e) (abandon-IsValid host_str s lease h v)

  -- In every state that calls lead to from a valid one, each known key stands in exactly one place
  -- and there once: among the pending requests, among the leases, or among the handled keys; an
  -- unknown key stands in none. The count of handled requests is the number of handled keys, lease
  -- identifiers are unique and those not yet given out are free, and the frontier is sound. A lease is
  -- given back with the unique key it was given out with, and the counters stay below the end of `u64`.
  pub Reach-IsValid : {s t : QueueState Url Payload} → IsValid s → Reach s t → IsValid t
  Reach-IsValid v here = v
  Reach-IsValid v (next r st) = Step-IsValid st (Reach-IsValid v r)
