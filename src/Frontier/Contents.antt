-- ===== src/Frontier/Contents.antt =====
-- policy.rs: what the two orders share. Neither loses, copies or invents a request: every weight of the
-- requests, added up over a frontier, moves by the request that is pushed or popped.
use millipede.Prelude.{
  ℕ, ◌+◌, ◌≡◌, refl, inl, inr, true, false, List, [], ◌∷◌, ◌++◌, Option, none, some, arith, Text,
  text_discrete, length, sum_by, sum_by-append, Option-cases,
}
use millipede.Prelude.Table
use millipede.Prelude.Table.{get, insert, remove, total}
use millipede.Prelude.Members.{contains}
use millipede.Request.{Request}
use millipede.Frontier.{
  DomainRoundRobin, Frontier, MemoryQueuePolicy, fifo, domain_round_robin, queue, hosts, host_key,
  push_back_host, push_front_host, requeue, len_hosts, is_empty_hosts, is_nil, new, push_back,
  push_front, pop_front, len, is_empty,
}
use millipede.Frontier.Rotation.{
  IsValid, Pops, idle, served, pop_host-Pops, requeue-IsValid, push_back_host-IsValid,
  push_front_host-IsValid,
}

module _ {Url Payload : Type 0} where
  abbrev pub IsSound : Frontier Url Payload → Type 0
  IsSound (queue q) = Unit
  IsSound (hosts d) = IsValid d

  unfoldable pub weigh : (Request Url Payload → ℕ) → Frontier Url Payload → ℕ
  weigh w (queue q) = sum_by w q
  weigh w (hosts d) = total text_discrete (sum_by w) d.by_host

  pub weigh-empty :
      (w : Request Url Payload → ℕ) (f : Frontier Url Payload) → is_empty f ≡ true → weigh w f ≡ 0
  unfolding is_empty weigh is_empty_hosts total
  weigh-empty w (queue []) e = refl
  weigh-empty w (queue (r ∷ q)) e = cc
  weigh-empty w (hosts d) e = ground arith

  -- `len` counts the requests.
  len-sum_by : (q : List (Request Url Payload)) → length q ≡ sum_by (λ r. 1) q
  len-sum_by [] = refl
  len-sum_by (r ∷ q) = omega (arith, len-sum_by q)

  len-total :
      (m : Table.Table Text (List (Request Url Payload)))
      → total text_discrete length m ≡ total text_discrete (sum_by (λ r. 1)) m
  unfolding total
  len-total [] = refl
  len-total ((k, q) ∷ m) = omega (arith, len-sum_by q, len-total m)

  pub len-weigh : (f : Frontier Url Payload) → len f ≡ weigh (λ r. 1) f
  unfolding len weigh len_hosts
  len-weigh (queue q) = len-sum_by q
  len-weigh (hosts d) = len-total d.by_host

  weigh-requeue :
      (w : Request Url Payload → ℕ) (d : DomainRoundRobin Url Payload) (host : Text)
      (rest : List Text) (r : Request Url Payload) (q : List (Request Url Payload))
      → IsValid d
      → get text_discrete host d.by_host ≡ some (r ∷ q)
      → weigh w (hosts (requeue d host rest q)) + w r ≡ weigh w (hosts d)
  unfolding weigh requeue
  weigh-requeue w d host rest r [] v e =
      omega (
        arith,
        Table.total-remove_present text_discrete (sum_by w) host (r ∷ []) d.by_host v.maps e,
      )
  weigh-requeue w d host rest r (s ∷ q) v e = omega (
    arith,
    Table.total-insert_present text_discrete (sum_by w) host (s ∷ q) (r ∷ s ∷ q) d.by_host e,
  )

  -- What `pop_front` may do.
  pub data Takes (f : Frontier Url Payload) : Type 0 where
    dry : is_empty f ≡ true → pop_front f ≡ some (none, f) → Takes f
    taken :
        (r : Request Url Payload) (f' : Frontier Url Payload)
        → is_empty f ≡ false
        → pop_front f ≡ some (some r, f')
        → IsSound f'
        → ((w : Request Url Payload → ℕ) → weigh w f' + w r ≡ weigh w f)
        → Takes f

  by_host_nil :
      (d : DomainRoundRobin Url Payload) (m : Table.Table Text (List (Request Url Payload)))
      → d.by_host ≡ m
      → d.rotation ≡ []
      → IsValid d
      → is_nil m ≡ true
  unfolding get contains
  by_host_nil d [] e h v = refl
  by_host_nil d ((k, q) ∷ m) e h v = absurd (ground (arith, v.synced k))

  by_host-ne-nil :
      (m : Table.Table Text (List (Request Url Payload))) (host : Text)
      {q : List (Request Url Payload)}
      → get text_discrete host m ≡ some q
      → is_nil m ≡ false
  unfolding get
  by_host-ne-nil [] host e = cc
  by_host-ne-nil (x ∷ m) host e = refl

  pop_hosts-Takes : (d : DomainRoundRobin Url Payload) → IsValid d → Pops d → Takes (hosts d)
  unfolding pop_front is_empty is_empty_hosts
  pop_hosts-Takes d v (idle e p) = dry (by_host_nil d d.by_host refl e v) (rw (p, pop_front))
  pop_hosts-Takes d v (served host rest r q e g p) =
      taken r (hosts (requeue d host rest q)) (by_host-ne-nil d.by_host host g) (rw (p, pop_front))
        (requeue-IsValid d host rest q e v) (λ w. weigh-requeue w d host rest r q v g)

  -- On a sound frontier `pop_front` does not panic. If the frontier is empty it returns nothing and
  -- changes nothing. Otherwise it returns one request, and what is left is sound and weighs exactly
  -- that request less, by any weight: no other request is lost, copied or invented.
  pub pop_front-Takes : (f : Frontier Url Payload) → IsSound f → Takes f
  unfolding pop_front is_empty weigh
  pop_front-Takes (queue []) s = dry refl refl
  pop_front-Takes (queue (r ∷ q)) s = taken r (queue q) refl refl tt (λ w. omega arith)
  pop_front-Takes (hosts d) s = pop_hosts-Takes d s (pop_host-Pops d s)

module _ (Url Payload : Type 0) where
  pub new-IsSound : (p : MemoryQueuePolicy) → IsSound (new {Url = Url} {Payload = Payload} p)
  unfolding new get contains
  new-IsSound fifo = tt
  new-IsSound domain_round_robin = record {
    maps = tt;
    distinct = tt;
    synced = λ h. refl;
    active = λ h e. cc;
  }

  pub weigh-new : (w : Request Url Payload → ℕ) (p : MemoryQueuePolicy) → weigh w (new p) ≡ 0
  unfolding weigh new total
  weigh-new w fifo = refl
  weigh-new w domain_round_robin = refl

module _ {Url Payload : Type 0} (host_str : Url → Option Text) where
  pub push_back-IsSound :
      (r : Request Url Payload) (f : Frontier Url Payload)
      → IsSound f
      → IsSound (push_back host_str r f)
  unfolding push_back
  push_back-IsSound r (queue q) s = tt
  push_back-IsSound r (hosts d) s = push_back_host-IsValid host_str r d s

  pub push_front-IsSound :
      (r : Request Url Payload) (f : Frontier Url Payload)
      → IsSound f
      → IsSound (push_front host_str r f)
  unfolding push_front
  push_front-IsSound r (queue q) s = tt
  push_front-IsSound r (hosts d) s = push_front_host-IsValid host_str r d s

  -- `push_back` adds exactly the pushed request to the frontier, by any weight, under both policies.
  pub weigh-push_back :
      (w : Request Url Payload → ℕ) (r : Request Url Payload) (f : Frontier Url Payload)
      → weigh w (push_back host_str r f) ≡ weigh w f + w r
  unfolding push_back weigh push_back_host
  weigh-push_back w r (queue q) = omega (arith, sum_by-append w q (r ∷ []))
  weigh-push_back w r (hosts d) =
      let host = host_key host_str r in
      elim (Option-cases (get text_discrete host d.by_host)) [
        | inl e ↦
            rw (e, push_back_host)
              (omega (
                arith,
                Table.total-insert_absent text_discrete (sum_by w) host (r ∷ []) d.by_host e,
              ))
        | inr (q, e) ↦
            rw (e, push_back_host)
              (omega (
                arith,
                Table.total-insert_present text_discrete (sum_by w) host (q ++ r ∷ []) q d.by_host
                    e,
                sum_by-append w q (r ∷ []),
              ))
      ]

  pub weigh-push_front :
      (w : Request Url Payload → ℕ) (r : Request Url Payload) (f : Frontier Url Payload)
      → weigh w (push_front host_str r f) ≡ weigh w f + w r
  unfolding push_front weigh push_front_host
  weigh-push_front w r (queue q) = omega arith
  weigh-push_front w r (hosts d) =
      let host = host_key host_str r in
      elim (Option-cases (get text_discrete host d.by_host)) [
        | inl e ↦
            rw (e, push_front_host)
              (omega (
                arith,
                Table.total-insert_absent text_discrete (sum_by w) host (r ∷ []) d.by_host e,
              ))
        | inr (q, e) ↦
            rw (e, push_front_host)
              (omega (
                arith,
                Table.total-insert_present text_discrete (sum_by w) host (r ∷ q) q d.by_host e,
              ))
      ]
