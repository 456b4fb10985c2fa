-- ===== src/Proxies.antt =====
-- crates/millipede-core/src/proxy.rs, the tiers of `ProxyConfiguration`: which tier of proxies serves a host, and
-- how blocks and successes move it. A method that holds the mutex is a function of the table of
-- domains. An entry `none` of a tier is a direct connection. `host` is the host of the URL, or empty.
pub mod Tiers
pub mod Rotation
use millipede.Prelude.{
  ℕ, ◌+◌, ◌-◌, ◌%◌, min, max, Bool, true, false, ◌&&◌, List, [], ◌∷◌, Option, none, some, Text,
  text_discrete, ltb, ◌==◌, if◌then◌else◌, length, get_elem?,
}
use millipede.Prelude.Table.{Table, get, insert}
use millipede.Prelude.Words.{u32_saturating_add}

pub record DomainTier : Type 0 where
  pub tier : ℕ
  pub requests : ℕ
  pub probing : Option ℕ

pub record TieredState (Url : Type 0) : Type 0 where
  pub tiers : List (List (Option Url))
  pub probe_interval : ℕ
  pub domains : Table Text DomainTier

module _ {Url : Type 0} where
  unfoldable pub tiered_with_probe_interval : List (List (Option Url)) → ℕ → TieredState Url
  tiered_with_probe_interval tiers probe_interval = record {
    tiers = tiers;
    probe_interval = max probe_interval 1;
    domains = [];
  }

  unfoldable pub tiered : List (List (Option Url)) → TieredState Url
  tiered tiers = tiered_with_probe_interval tiers 20

  -- `domains.entry(key).or_default()`
  abbrev pub domain_of : Text → TieredState Url → DomainTier
  domain_of host state = elim (get text_discrete host state.domains) [
    | none ↦ record { tier = 0; requests = 0; probing = none }
    | some domain ↦ domain
  ]

  abbrev pub put : Text → DomainTier → TieredState Url → TieredState Url
  put host domain state = record state { domains = insert text_discrete host domain state.domains }

-- The domain with one more request, and the tier that serves it: every `probe_interval`-th request
-- probes the tier below.
unfoldable pub serving_tier : ℕ → ℕ → DomainTier → DomainTier × ℕ
serving_tier last probe_interval domain =
    let tier = min domain.tier last in
    let requests = u32_saturating_add domain.requests 1 in
    if ltb 0 tier && (requests % probe_interval == 0)
    then (record { tier = tier; requests = requests; probing = some (tier - 1) }, tier - 1)
    else (record { tier = tier; requests = requests; probing = domain.probing }, tier)

-- One block, unless it answers a probe.
unfoldable pub blocked : ℕ → DomainTier → DomainTier
blocked last domain = elim domain.probing [
  | some probe ↦ record domain { probing = none }
  | none ↦ record domain { tier = min (domain.tier + 1) last; requests = 0 }
]

unfoldable pub succeeded : DomainTier → DomainTier
succeeded domain = elim domain.probing [
  | none ↦ domain
  | some probe ↦ record { tier = probe; requests = 0; probing = none }
]

module _ {Url : Type 0} where
  -- The URL within a tier.
  abbrev pub pick : List (Option Url) → ℕ → Option (Option Url)
  pick [] requests = some none
  pick (url ∷ urls) requests = get_elem? (url ∷ urls) (requests % length (url ∷ urls))

  -- `none` is an index outside a list. The tier is told as a `u8`.
  unfoldable pub tiered_url :
      TieredState Url → Text → Option (TieredState Url × (Option Url × Option ℕ))
  tiered_url state host =
      if length state.tiers == 0
      then some (state, (none, none))
      else (let (domain, serving) =
            serving_tier (length state.tiers - 1) state.probe_interval (domain_of host state) in
          elim (get_elem? state.tiers serving) [
            | none ↦ none
            | some tier ↦ elim (pick tier domain.requests) [
              | none ↦ none
              | some url ↦ some (put host domain state, (url, some (serving % 256)))
            ]
          ])

  unfoldable pub report_blocked : TieredState Url → Text → TieredState Url
  report_blocked state host =
      if length state.tiers == 0
      then state
      else put host (blocked (length state.tiers - 1) (domain_of host state)) state

  unfoldable pub report_success : TieredState Url → Text → TieredState Url
  report_success state host = put host (succeeded (domain_of host state)) state
