-- ===== src/Engine/Dispatch/Renewal.antt =====
-- engine.rs, `renew_deferred_leases`: the leases that wait in the heap are renewed before they expire. The
-- queue's answer to each renewal is an argument. The due entries are taken in the order of the table,
-- as the hash map gives them in any. `none` is the panic of the `expect`. Times are unbounded here.
use millipede.Prelude.{
  ℕ, ◌+◌, ◌≡◌, refl, inl, inr, true, List, [], ◌∷◌, Option, none, some, arith, ℕ_discrete, length,
  leb, if◌then◌else◌, Option-cases,
}
use millipede.Prelude.Members.{contains, Distinct}
use millipede.Prelude.Table
use millipede.Prelude.Table.{Table, get, insert, IsMap}
use millipede.Storage.{StorageResult, Result-cases, ok, err}
use millipede.Frontier.Rotation.{is_some}
use millipede.Engine.{Proxy}
use millipede.Engine.Dispatch.{Dispatch, DeferredStart}

abbrev pub deferred_lease_extension : ℕ
deferred_lease_extension = 180_000_000_000

module _ {proxy : Proxy} {Url Payload : Type 0} where
  abbrev pub extended : DeferredStart proxy Url Payload → DeferredStart proxy Url Payload
  extended entry = record entry {
    lease = record entry.lease { expires_at = entry.lease.expires_at + deferred_lease_extension };
    renew_at = entry.renew_at + deferred_lease_extension;
  }

  -- The sequence numbers of the entries to renew.
  unfoldable pub due : ℕ → Table ℕ (DeferredStart proxy Url Payload) → List ℕ
  due now [] = []
  due now ((sequence, entry) ∷ entries) =
      let rest = due now entries in if leb entry.renew_at now then sequence ∷ rest else rest

  -- The first error ends the renewals.
  unfoldable pub renew_each :
      (ℕ → StorageResult (Unit {0}))
      → List ℕ
      → Table ℕ (DeferredStart proxy Url Payload)
      → Option (Table ℕ (DeferredStart proxy Url Payload) × StorageResult (Unit {0}))
  renew_each renewal [] entries = some (entries, ok tt)
  renew_each renewal (sequence ∷ sequences) entries = elim (get ℕ_discrete sequence entries) [
    | none ↦ none
    | some entry ↦
        let rest =
          renew_each renewal sequences (insert ℕ_discrete sequence (extended entry) entries) in
        elim (renewal entry.lease.lease_id) [ err e ↦ some (entries, err e) | ok x ↦ rest ]
  ]

  unfoldable pub renew_deferred_leases :
      Dispatch proxy Url Payload
      → ℕ
      → (ℕ → StorageResult (Unit {0}))
      → Option (Dispatch proxy Url Payload × StorageResult (Unit {0}))
  renew_deferred_leases d now renewal =
      elim (renew_each renewal (due now d.deferred_entries) d.deferred_entries) [
        | none ↦ none
        | some (entries, answer) ↦ some (record d { deferred_entries = entries }, answer)
      ]

  due-present :
      (now i : ℕ) (entries : Table ℕ (DeferredStart proxy Url Payload))
      → contains ℕ_discrete i (due now entries) ≡ true
      → is_some (get ℕ_discrete i entries) ≡ true
  unfolding due contains get
  due-present now i [] h = h
  due-present now i ((j, entry) ∷ entries) h = ground (arith, h, due-present now i entries)

  length-insert_present :
      (i : ℕ) (v w : DeferredStart proxy Url Payload)
      (entries : Table ℕ (DeferredStart proxy Url Payload))
      → get ℕ_discrete i entries ≡ some v
      → length (insert ℕ_discrete i w entries) ≡ length entries
  unfolding insert get
  length-insert_present i v w [] h = cc
  length-insert_present i v w ((j, entry) ∷ entries) h =
      ground (arith, h, length-insert_present i v w entries)

  -- The same sequence numbers, each once.
  pub record SameKeys (entries left : Table ℕ (DeferredStart proxy Url Payload)) : Type 0 where
    pub present : (i : ℕ) → is_some (get ℕ_discrete i left) ≡ is_some (get ℕ_discrete i entries)
    pub many : length left ≡ length entries
    pub apart : IsMap ℕ_discrete left

  extended-SameKeys :
      (i : ℕ) (entry : DeferredStart proxy Url Payload)
      (entries left : Table ℕ (DeferredStart proxy Url Payload))
      → get ℕ_discrete i left ≡ some entry
      → SameKeys entries left
      → SameKeys entries (insert ℕ_discrete i (extended entry) left)
  extended-SameKeys i entry entries left e k = record {
    present =
        λ j. ground (arith, e, k.present j, Table.get-insert ℕ_discrete i j (extended entry) left);
    many = ground (arith, k.many, length-insert_present i entry (extended entry) left e);
    apart = Table.insert-IsMap ℕ_discrete i (extended entry) left k.apart;
  }

  renew_each-SameKeys :
      (renewal : ℕ → StorageResult (Unit {0})) (sequences : List ℕ)
      (entries left : Table ℕ (DeferredStart proxy Url Payload))
      → SameKeys entries left
      → ((i : ℕ) → contains ℕ_discrete i sequences ≡ true → is_some (get ℕ_discrete i left) ≡ true)
      → (after : Table ℕ (DeferredStart proxy Url Payload)) × (answer : StorageResult (Unit {0}))
        × (renew_each renewal sequences left ≡ some (after, answer))
        × SameKeys entries after
  unfolding renew_each contains
  renew_each-SameKeys renewal [] entries left k h = (left, ok tt, refl, k)
  renew_each-SameKeys renewal (i ∷ sequences) entries left k h =
      elim (Option-cases (get ℕ_discrete i left)) [
        | inl e ↦ absurd (ground (arith, e, h i))
        | inr (entry, e) ↦ elim (Result-cases (renewal entry.lease.lease_id)) [
          | inr (x, f) ↦ (left, err x, rw (renew_each, e, f), k)
          | inl (x, f) ↦
              let next = insert ℕ_discrete i (extended entry) left in
              let (after, answer, g, same) =
                renew_each-SameKeys renewal sequences entries next
                  (extended-SameKeys i entry entries left e k)
                  (λ j c.
                    ground
                      (arith, h j, c, Table.get-insert ℕ_discrete i j (extended entry) left)) in
              (after, answer, rw (renew_each, e, f) g, same)
        ]
      ]

  pub renew_deferred_leases-SameKeys :
      (d : Dispatch proxy Url Payload) (now : ℕ) (renewal : ℕ → StorageResult (Unit {0}))
      → IsMap ℕ_discrete d.deferred_entries
      → (after : Table ℕ (DeferredStart proxy Url Payload)) × (answer : StorageResult (Unit {0}))
        × (renew_deferred_leases d now renewal
            ≡ some (record d { deferred_entries = after }, answer))
        × SameKeys d.deferred_entries after
  unfolding renew_deferred_leases
  renew_deferred_leases-SameKeys d now renewal apart =
      let (after, answer, e, same) =
        renew_each-SameKeys renewal (due now d.deferred_entries) d.deferred_entries
          d.deferred_entries (record { present = λ i. refl; many = refl; apart = apart })
          (λ i. due-present now i d.deferred_entries) in
      (after, answer, rw (renew_deferred_leases, e), same)

  due-contains :
      (now i : ℕ) (entry : DeferredStart proxy Url Payload)
      (entries : Table ℕ (DeferredStart proxy Url Payload))
      → get ℕ_discrete i entries ≡ some entry
      → IsMap ℕ_discrete entries
      → contains ℕ_discrete i (due now entries) ≡ leb entry.renew_at now
  unfolding due contains get
  due-contains now i entry [] h apart = absurd (cc)
  due-contains now i entry ((j, first) ∷ entries) h apart =
      ground (arith, h, apart, due-present now i entries, due-contains now i entry entries)

  due-Distinct :
      (now : ℕ) (entries : Table ℕ (DeferredStart proxy Url Payload))
      → IsMap ℕ_discrete entries
      → Distinct ℕ_discrete (due now entries)
  unfolding due
  due-Distinct now [] apart = tt
  due-Distinct now ((j, first) ∷ entries) apart =
      ground (arith, apart, due-Distinct now entries apart.1, due-present now j entries)

  -- Where the queue accepts every renewal, each entry in the list is extended once.
  renew_each-extends :
      (renewal : ℕ → StorageResult (Unit {0})) (sequences : List ℕ)
      (left after : Table ℕ (DeferredStart proxy Url Payload)) (answer : StorageResult (Unit {0}))
      (i : ℕ) (entry : DeferredStart proxy Url Payload)
      → ((l : ℕ) → renewal l ≡ ok tt)
      → Distinct ℕ_discrete sequences
      → renew_each renewal sequences left ≡ some (after, answer)
      → get ℕ_discrete i left ≡ some entry
      → (answer ≡ ok tt)
        × (get ℕ_discrete i after
            ≡ some (if contains ℕ_discrete i sequences then extended entry else entry))
  unfolding renew_each contains
  renew_each-extends renewal [] left after answer i entry accepts apart e h = ground (arith, e, h)
  renew_each-extends renewal (j ∷ sequences) left after answer i entry accepts apart e h =
      elim (Option-cases (get ℕ_discrete j left)) [
        | inl f ↦ absurd (ground (arith, e, f))
        | inr (first, f) ↦
            let next = insert ℕ_discrete j (extended first) left in
            let at_ = Table.get-insert ℕ_discrete j i (extended first) left in
            let e' = rw (renew_each, f, accepts first.lease.lease_id) at e in
            elim (ℕ_discrete j i) [
              | yes p ↦
                  let (good, g) =
                    renew_each-extends renewal sequences next after answer i (extended first)
                      accepts apart.1 e' (ground (arith, at_, p)) in
                  (good, ground (arith, p, f, h, g, apart))
              | no n ↦
                  let (good, g) =
                    renew_each-extends renewal sequences next after answer i entry accepts apart.1
                      e' (ground (arith, at_, n, h)) in
                  (good, ground (arith, n, g))
            ]
      ]

  pub renew_deferred_leases-extends :
      (d : Dispatch proxy Url Payload) (now : ℕ) (renewal : ℕ → StorageResult (Unit {0})) (i : ℕ)
      (entry : DeferredStart proxy Url Payload)
      → IsMap ℕ_discrete d.deferred_entries
      → ((l : ℕ) → renewal l ≡ ok tt)
      → get ℕ_discrete i d.deferred_entries ≡ some entry
      → (d' : Dispatch proxy Url Payload) × (renew_deferred_leases d now renewal ≡ some (d', ok tt))
        × (get ℕ_discrete i d'.deferred_entries
            ≡ some (if leb entry.renew_at now then extended entry else entry))
  unfolding renew_deferred_leases
  renew_deferred_leases-extends d now renewal i entry apart accepts h =
      let (after, answer, e, same) =
        renew_each-SameKeys renewal (due now d.deferred_entries) d.deferred_entries
          d.deferred_entries (record { present = λ j. refl; many = refl; apart = apart })
          (λ j. due-present now j d.deferred_entries) in
      let (good, found) =
        renew_each-extends renewal (due now d.deferred_entries) d.deferred_entries after answer i
          entry accepts (due-Distinct now d.deferred_entries apart) e h in
      (
        record d { deferred_entries = after },
        rw (renew_deferred_leases, e) (rw good),
        rw (← due-contains now i entry d.deferred_entries h apart) found,
      )
