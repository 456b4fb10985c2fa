-- ===== src/Frontier/Fairness.antt =====
-- policy.rs: no host waits behind the backlog of another.
use millipede.Prelude.{
  ℕ, zero, suc, ◌≡◌, refl, ◌≢◌, true, List, [], ◌∷◌, ◌++◌, Option, none, some, arith, Text,
  text_discrete, length, append_assoc, subst, ◌∙◌,
}
use millipede.Prelude.Table
use millipede.Prelude.Table.{get, insert, remove}
use millipede.Prelude.Members.{contains, Distinct}
use millipede.Request.{Request}
use millipede.Frontier.{DomainRoundRobin, pop_host, requeue}
use millipede.Frontier.Rotation.{IsValid, Pops, idle, served, pop_host-Pops, requeue-IsValid}

contains_middle :
    (host : Text) (xs ys : List Text) → contains text_discrete host (xs ++ host ∷ ys) ≡ true
unfolding contains
contains_middle host [] ys = ground arith
contains_middle host (x ∷ xs) ys = ground (arith, contains_middle host xs ys)

module _ {Url Payload : Type 0} where
  -- What the pop after `n` others returns.
  unfoldable pub popped : ℕ → DomainRoundRobin Url Payload → Option (Request Url Payload)
  popped zero d = elim (pop_host d) [ none ↦ none | some (r, d') ↦ r ]
  popped (suc n) d = elim (pop_host d) [ none ↦ none | some (r, d') ↦ popped n d' ]

  -- The rotation after serving `first`: it stands at the end, or has left.
  requeue-rotation :
      (d : DomainRoundRobin Url Payload) (first host : Text) (before after : List Text)
      (q : List (Request Url Payload))
      → (after' : List Text) × ((requeue d first (before ++ host ∷ after) q).rotation
          ≡ before ++ host ∷ after')
  unfolding requeue
  requeue-rotation d first host before after [] = (after, refl)
  requeue-rotation d first host before after (r ∷ q) =
      (after ++ first ∷ [], append_assoc before (host ∷ after) (first ∷ []))

  requeue-get :
      (d : DomainRoundRobin Url Payload) (first host : Text) (rest : List Text)
      (q : List (Request Url Payload))
      → first ≢ host
      → get text_discrete host (requeue d first rest q).by_host ≡ get text_discrete host d.by_host
  unfolding requeue
  requeue-get d first host rest [] n = Table.get-remove_ne text_discrete first host d.by_host n
  requeue-get d first host rest (r ∷ q) n =
      Table.get-insert_ne text_discrete first host (r ∷ q) d.by_host n

  serves_first :
      (d : DomainRoundRobin Url Payload) (first : Text) (rest : List Text)
      → d.rotation ≡ first ∷ rest
      → Pops d
      → (r : Request Url Payload) × (q : List (Request Url Payload)) × (get text_discrete first
            d.by_host
          ≡ some (r ∷ q))
        × (pop_host d ≡ some (some r, requeue d first rest q))
  serves_first d first rest e (idle e' p) = absurd (cc)
  serves_first d first rest e (served host rest' r q e' g p) = (r, q, cc, cc)

  -- In a valid rotation the oldest request of a host is handed out as soon as each host before it in the rotation has
  -- been served once, however many requests those hosts still have.
  pub popped_in_turn :
      (before after : List Text) (host : Text) (r : Request Url Payload)
      (q : List (Request Url Payload)) (d : DomainRoundRobin Url Payload)
      → IsValid d
      → d.rotation ≡ before ++ host ∷ after
      → get text_discrete host d.by_host ≡ some (r ∷ q)
      → popped (length before) d ≡ some r
  unfolding popped
  popped_in_turn [] after host r q d v e g =
      let (r', q', g', p) = serves_first d host after e (pop_host-Pops d v) in cc
  popped_in_turn (first ∷ before) after host r q d v e g =
      let (r', q', g', p) = serves_first d first (before ++ host ∷ after) e (pop_host-Pops d v) in
      let (after', e') = requeue-rotation d first host before after q' in
      let differs : first ≢ host = λ same. ground (
        arith,
        contains_middle host before after,
        let distinct : Distinct text_discrete (first ∷ before ++ host ∷ after) =
              subst (Distinct text_discrete) e v.distinct in
            distinct.0,
      ) in
      rw (p, popped)
        (popped_in_turn before after' host r q (requeue d first (before ++ host ∷ after) q')
          (requeue-IsValid d first (before ++ host ∷ after) q' e v) e'
          (requeue-get d first host (before ++ host ∷ after) q' differs ∙ g))
