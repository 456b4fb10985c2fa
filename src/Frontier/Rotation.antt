-- ===== src/Frontier/Rotation.antt =====
-- policy.rs: the rotation names exactly the hosts that have requests waiting, and what each operation
-- does to the requests held.
use millipede.Prelude.{
  ◌≡◌, refl, ◌≢◌, ite, Bool, true, false, List, [], ◌∷◌, ◌++◌, Option, none, some, arith, Text,
  text_discrete, Option-cases, inl, inr,
}
use millipede.Prelude.Table
use millipede.Prelude.Table.{get, insert, remove, total, IsMap}
use millipede.Prelude.Members
use millipede.Prelude.Members.{contains, Distinct}
use millipede.Request.{Request}
use millipede.Frontier.{
  DomainRoundRobin, host_key, push_back_host, push_front_host, pop_host, requeue,
}

abbrev pub is_some {ℓ} : {A : Type ℓ} → Option A → Bool
is_some none = false
is_some (some a) = true

module _ {Url Payload : Type 0} where
  -- Each host of the rotation stands in it once and has a queue, each queue has a request, and there
  -- are no other queues.
  pub record IsValid (d : DomainRoundRobin Url Payload) : Type 0 where
    pub maps : IsMap text_discrete d.by_host
    pub distinct : Distinct text_discrete d.rotation
    pub synced :
        (h : Text) → contains text_discrete h d.rotation ≡ is_some (get text_discrete h d.by_host)
    pub active : (h : Text) → get text_discrete h d.by_host ≢ some []

  pub requeue-IsValid :
      (d : DomainRoundRobin Url Payload) (host : Text) (rest : List Text)
      (q : List (Request Url Payload))
      → d.rotation ≡ host ∷ rest
      → IsValid d
      → IsValid (requeue d host rest q)
  unfolding requeue contains
  requeue-IsValid d host rest [] e v = record {
    maps = Table.remove-IsMap text_discrete host d.by_host v.maps;
    distinct = ground (arith, v.distinct);
    synced = λ h.
        ground (arith, v.synced h, v.distinct, Table.get-remove text_discrete host h d.by_host);
    active = λ h. ground (arith, v.active h, Table.get-remove text_discrete host h d.by_host);
  }
  requeue-IsValid d host rest (r ∷ q) e v = record {
    maps = Table.insert-IsMap text_discrete host (r ∷ q) d.by_host v.maps;
    distinct = ground (arith, v.distinct, Members.snoc-Distinct text_discrete host rest);
    synced = λ h. ground (
      arith,
      v.synced h,
      v.distinct,
      Members.contains-snoc text_discrete h host rest,
      Table.get-insert text_discrete host h (r ∷ q) d.by_host,
    );
    active =
        λ h. ground (arith, v.active h, Table.get-insert text_discrete host h (r ∷ q) d.by_host);
  }

  -- What `pop_host` may do: report an empty rotation, or serve its first host.
  pub data Pops (d : DomainRoundRobin Url Payload) : Type 0 where
    idle : d.rotation ≡ [] → pop_host d ≡ some (none, d) → Pops d
    served :
        (host : Text) (rest : List Text) (r : Request Url Payload) (q : List (Request Url Payload))
        → d.rotation ≡ host ∷ rest
        → get text_discrete host d.by_host ≡ some (r ∷ q)
        → pop_host d ≡ some (some r, requeue d host rest q)
        → Pops d

  serve-Pops :
      (d : DomainRoundRobin Url Payload) (host : Text) (rest : List Text)
      (o : Option (List (Request Url Payload)))
      → d.rotation ≡ host ∷ rest
      → get text_discrete host d.by_host ≡ o
      → IsValid d
      → Pops d
  unfolding pop_host contains
  serve-Pops d host rest none e g v = absurd (ground (arith, v.synced host))
  serve-Pops d host rest (some []) e g v = absurd (v.active host g)
  serve-Pops d host rest (some (r ∷ q)) e g v = served host rest r q e g (rw (e, pop_host) (rw g))

  -- The panic of `expect` is never reached.
  pub pop_host-Pops : (d : DomainRoundRobin Url Payload) → IsValid d → Pops d
  unfolding pop_host
  pop_host-Pops d v = from d.rotation refl
    where
      from : (l : List Text) → d.rotation ≡ l → Pops d
      from [] e = idle e (ground arith)
      from (host ∷ rest) e = serve-Pops d host rest (get text_discrete host d.by_host) e refl v

  -- A queue of a known host is replaced.
  replace-IsValid :
      (d : DomainRoundRobin Url Payload) (host : Text) (old q : List (Request Url Payload))
      → get text_discrete host d.by_host ≡ some old
      → q ≢ []
      → IsValid d
      → IsValid (record d { by_host = insert text_discrete host q d.by_host })
  replace-IsValid d host old q e n v = record {
    maps = Table.insert-IsMap text_discrete host q d.by_host v.maps;
    distinct = v.distinct;
    synced = λ h. ground (arith, v.synced h, e, Table.get-insert text_discrete host h q d.by_host);
    active = λ h. ground (arith, v.active h, n, Table.get-insert text_discrete host h q d.by_host);
  }

  -- A new host joins the rotation at some place.
  join-IsValid :
      (d : DomainRoundRobin Url Payload) (host : Text) (rotation : List Text)
      (r : Request Url Payload)
      → get text_discrete host d.by_host ≡ none
      → Distinct text_discrete rotation
      → ((h : Text)
          → contains text_discrete h rotation
            ≡ ite (text_discrete host h) true (contains text_discrete h d.rotation))
      → IsValid d
      → IsValid
          (record { by_host = insert text_discrete host (r ∷ []) d.by_host; rotation = rotation })
  join-IsValid d host rotation r e n c v = record {
    maps = Table.insert-IsMap text_discrete host (r ∷ []) d.by_host v.maps;
    distinct = n;
    synced = λ h.
        ground (arith, c h, v.synced h, Table.get-insert text_discrete host h (r ∷ []) d.by_host);
    active =
        λ h. ground (arith, v.active h, Table.get-insert text_discrete host h (r ∷ []) d.by_host);
  }

  -- A host without a queue is not in the rotation.
  absent :
      (d : DomainRoundRobin Url Payload) (host : Text)
      → get text_discrete host d.by_host ≡ none
      → IsValid d
      → contains text_discrete host d.rotation ≡ false
  absent d host e v = ground (arith, v.synced host)

snoc-ne-nil {ℓ} : {A : Type ℓ} (xs : List A) (x : A) → xs ++ x ∷ [] ≢ []
snoc-ne-nil [] x h = cc
snoc-ne-nil (y ∷ ys) x h = cc

module _ {Url Payload : Type 0} (host_str : Url → Option Text) where
  pub push_back_host-IsValid :
      (r : Request Url Payload) (d : DomainRoundRobin Url Payload)
      → IsValid d
      → IsValid (push_back_host host_str r d)
  push_back_host-IsValid r d v =
      let host = host_key host_str r in
      elim (Option-cases (get text_discrete host d.by_host)) [
        | inl e ↦
            unfold push_back_host in
            rw (e, push_back_host)
              (join-IsValid d host (d.rotation ++ host ∷ []) r e
                (Members.snoc-Distinct text_discrete host d.rotation (absent d host e v) v.distinct)
                (λ h. Members.contains-snoc text_discrete h host d.rotation) v)
        | inr (q, e) ↦
            unfold push_back_host in
            rw (e, push_back_host) (replace-IsValid d host q (q ++ r ∷ []) e (snoc-ne-nil q r) v)
      ]

  pub push_front_host-IsValid :
      (r : Request Url Payload) (d : DomainRoundRobin Url Payload)
      → IsValid d
      → IsValid (push_front_host host_str r d)
  push_front_host-IsValid r d v =
      let host = host_key host_str r in
      elim (Option-cases (get text_discrete host d.by_host)) [
        | inl e ↦
            unfold push_front_host contains in
            rw (e, push_front_host)
              (join-IsValid d host (host ∷ d.rotation) r e (absent d host e v, v.distinct)
                (λ h. refl) v)
        | inr (q, e) ↦
            unfold push_front_host in
            rw (e, push_front_host) (replace-IsValid d host q (r ∷ q) e (λ h. cc) v)
      ]
