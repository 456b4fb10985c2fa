-- ===== src/Proxies/Rotation.antt =====
-- proxy.rs: a static list of proxies, and the metadata of the one that is chosen. The random number is an argument;
-- `from_url` is `ProxyInfo::from_url`, which reads the parts of a URL by the url crate.
use native.Mathlib.Nat.{mod-lt}
use millipede.Prelude.{
  ℕ, zero, suc, ◌+◌, ◌%◌, ◌≤◌, ◌<◌, ◌≡◌, List, [], ◌∷◌, Option, none, some, arith, Text, length,
  get_elem?, get_elem?-is_some,
}
use millipede.Prelude.Words.{u64_inc, u64_max, u64_inc_exact}

pub data RotationStrategy : Type 0 where
  round_robin random : RotationStrategy

pub record StaticProxies (Url : Type 0) : Type 0 where
  pub urls : List Url
  pub rotation : RotationStrategy
  pub cursor : ℕ

pub record ProxyInfo (Url Parts : Type 0) : Type 0 where
  pub url : Url
  pub parts : Parts
  pub tier : Option ℕ
  pub session_id : Option Text

module _ {Url : Type 0} where
  unfoldable pub rotating : List Url → RotationStrategy → StaticProxies Url
  rotating urls rotation = record { urls = urls; rotation = rotation; cursor = 0 }

  -- `fetch_add` wraps at the end of `usize`, which has 64 bits.
  abbrev pub next_index : ℕ → StaticProxies Url → ℕ × StaticProxies Url
  next_index random_number s = elim s.rotation [
    | round_robin ↦ (s.cursor, record s { cursor = u64_inc s.cursor })
    | random ↦ (random_number, s)
  ]

  -- A panic on the index is `none`.
  unfoldable pub resolve_static : ℕ → StaticProxies Url → Option (StaticProxies Url × Option Url)
  resolve_static random_number s = elim s.urls [
    | [] ↦ some (s, none)
    | u ∷ us ↦
        let (index, t) = next_index random_number s in
        elim (get_elem? s.urls (index % length s.urls)) [
          | none ↦ none
          | some url ↦ some (t, some url)
        ]
  ]

  unfoldable pub new_proxy_info :
      {Parts : Type 0}
      → (Url → Parts)
      → Option Text
      → Option Url
      → Option ℕ
      → Option (ProxyInfo Url Parts)
  new_proxy_info from_url session_id none tier = none
  new_proxy_info from_url session_id (some url) tier =
      some (record { url = url; parts = from_url url; tier = tier; session_id = session_id })

  -- The list after some more calls.
  unfoldable pub calls : ℕ → ℕ → StaticProxies Url → StaticProxies Url
  calls random_number zero s = s
  calls random_number (suc n) s =
      let t = calls random_number n s in
      elim (resolve_static random_number t) [ none ↦ t | some (u, url) ↦ u ]

  step_lem :
      (r : ℕ) (us : List Url) (c : ℕ)
      → 0 < length us
      → c < u64_max
      → (url : Url) × (get_elem? us (c % length us) ≡ some url)
        × (resolve_static r (record { urls = us; rotation = round_robin; cursor = c })
            ≡ some (record { urls = us; rotation = round_robin; cursor = c + 1 }, some url))
  unfolding resolve_static
  step_lem r [] c h room = absurd (omega arith)
  step_lem r (u ∷ us) c h room =
      let (url, e) = get_elem?-is_some (u ∷ us) (c % length (u ∷ us)) (mod-lt c (omega arith)) in
      (url, e, ground (arith, e, u64_inc_exact c room))

  calls_lem :
      (r n : ℕ) (us : List Url) (c : ℕ)
      → 0 < length us
      → c + n ≤ u64_max
      → calls r n (record { urls = us; rotation = round_robin; cursor = c })
        ≡ record { urls = us; rotation = round_robin; cursor = c + n }
  unfolding calls
  calls_lem r zero us c h room = ground arith
  calls_lem r (suc n) us c h room =
      let before = calls_lem r n us c h (omega arith) in
      let (url, e, f) = step_lem r us (c + n) h (omega arith) in ground (arith, before, f)

  -- Round robin over a list that is not empty takes the proxies in turn: after any number of calls, with the cursor
  -- below the end of `usize`, the next call does not panic, and returns the entry that
  -- many places further, counted around the list.
  pub in_turn :
      (r n : ℕ) (us : List Url) (c : ℕ)
      → 0 < length us
      → c + n < u64_max
      → (url : Url) × (get_elem? us ((c + n) % length us) ≡ some url)
        × (resolve_static r (calls r n (record { urls = us; rotation = round_robin; cursor = c }))
            ≡ some (
              calls r (suc n) (record { urls = us; rotation = round_robin; cursor = c }),
              some url,
            ))
  in_turn r n us c h room =
      let (url, e, f) = step_lem r us (c + n) h room in
      (
        url,
        e,
        ground (
          arith,
          f,
          calls_lem r n us c h (omega arith),
          calls_lem r (suc n) us c h (omega arith),
        ),
      )
