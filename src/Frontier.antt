-- ===== src/Frontier.antt =====
-- crates/millipede-storage-memory/src/policy.rs: the two orders in which a memory queue hands out its
-- pending requests. `host_str` is the method of the `url` crate. Where the source would panic on a
-- broken rotation (`expect`), the result is `none`.
pub mod Rotation
pub mod Contents
pub mod Fairness
use millipede.Prelude.{
  ℕ, ◌+◌, Bool, true, false, List, [], ◌∷◌, ◌++◌, Option, none, some, Text, text_discrete,
  to_ascii_lowercase, length,
}
use millipede.Prelude.Table.{Table, get, insert, remove, total}
use millipede.Request.{Request}

pub data MemoryQueuePolicy : Type 0 where
  fifo domain_round_robin : MemoryQueuePolicy

pub record DomainRoundRobin (Url Payload : Type 0) : Type 0 where
  pub by_host : Table Text (List (Request Url Payload))
  pub rotation : List Text

pub data Frontier (Url Payload : Type 0) : Type 0 where
  queue : List (Request Url Payload) → Frontier Url Payload
  hosts : DomainRoundRobin Url Payload → Frontier Url Payload

abbrev pub is_nil {ℓ} : {A : Type ℓ} → List A → Bool
is_nil [] = true
is_nil (x ∷ xs) = false

unfoldable pub new : {Url Payload : Type 0} → MemoryQueuePolicy → Frontier Url Payload
new fifo = queue []
new domain_round_robin = hosts (record { by_host = []; rotation = [] })

module _ {Url Payload : Type 0} where
  -- The branch of `pop_front` that the remaining queue of the served host decides.
  pub requeue :
      DomainRoundRobin Url Payload
      → Text
      → List Text
      → List (Request Url Payload)
      → DomainRoundRobin Url Payload
  requeue d host rest [] = record { by_host = remove text_discrete host d.by_host; rotation = rest }
  requeue d host rest (r ∷ q) = record {
    by_host = insert text_discrete host (r ∷ q) d.by_host;
    rotation = rest ++ host ∷ [];
  }

  serve :
      DomainRoundRobin Url Payload
      → Text
      → List Text
      → Option (List (Request Url Payload))
      → Option (Option (Request Url Payload) × DomainRoundRobin Url Payload)
  serve d host rest none = none
  serve d host rest (some []) = some (none, requeue d host rest [])
  serve d host rest (some (r ∷ q)) = some (some r, requeue d host rest q)

  unfoldable pub pop_host :
      DomainRoundRobin Url Payload
      → Option (Option (Request Url Payload) × DomainRoundRobin Url Payload)
  unfolding serve requeue
  pop_host d = elim d.rotation [
    | [] ↦ some (none, d)
    | host ∷ rest ↦ serve d host rest (get text_discrete host d.by_host)
  ]

  unfoldable pub len_hosts : DomainRoundRobin Url Payload → ℕ
  len_hosts d = total text_discrete length d.by_host

  unfoldable pub is_empty_hosts : DomainRoundRobin Url Payload → Bool
  is_empty_hosts d = is_nil d.by_host

  pop_queue : List (Request Url Payload) → Option (Request Url Payload) × Frontier Url Payload
  pop_queue [] = (none, queue [])
  pop_queue (r ∷ q) = (some r, queue q)

  unfoldable pub pop_front :
      Frontier Url Payload → Option (Option (Request Url Payload) × Frontier Url Payload)
  unfolding pop_queue
  pop_front (queue q) = some (pop_queue q)
  pop_front (hosts d) = elim (pop_host d) [ none ↦ none | some (r, d') ↦ some (r, hosts d') ]

  unfoldable pub len : Frontier Url Payload → ℕ
  len (queue q) = length q
  len (hosts d) = len_hosts d

  unfoldable pub is_empty : Frontier Url Payload → Bool
  is_empty (queue q) = is_nil q
  is_empty (hosts d) = is_empty_hosts d

module _ {Url Payload : Type 0} (host_str : Url → Option Text) where
  unfoldable pub host_key : Request Url Payload → Text
  host_key r = to_ascii_lowercase (elim (host_str r.url) [ none ↦ [] | some h ↦ h ])

  unfoldable pub push_back_host :
      Request Url Payload → DomainRoundRobin Url Payload → DomainRoundRobin Url Payload
  push_back_host r d =
      let host = host_key r in
      elim (get text_discrete host d.by_host) [
        | some q ↦ record d { by_host = insert text_discrete host (q ++ r ∷ []) d.by_host }
        | none ↦ record {
          by_host = insert text_discrete host (r ∷ []) d.by_host;
          rotation = d.rotation ++ host ∷ [];
        }
      ]

  unfoldable pub push_front_host :
      Request Url Payload → DomainRoundRobin Url Payload → DomainRoundRobin Url Payload
  push_front_host r d =
      let host = host_key r in
      elim (get text_discrete host d.by_host) [
        | some q ↦ record d { by_host = insert text_discrete host (r ∷ q) d.by_host }
        | none ↦ record {
          by_host = insert text_discrete host (r ∷ []) d.by_host;
          rotation = host ∷ d.rotation;
        }
      ]

  unfoldable pub push_back : Request Url Payload → Frontier Url Payload → Frontier Url Payload
  push_back r (queue q) = queue (q ++ r ∷ [])
  push_back r (hosts d) = hosts (push_back_host r d)

  unfoldable pub push_front : Request Url Payload → Frontier Url Payload → Frontier Url Payload
  push_front r (queue q) = queue (r ∷ q)
  push_front r (hosts d) = hosts (push_front_host r d)
