-- ===== src/Proxies/Tiers.antt =====
-- proxy.rs, the tiers: every request is served by its tier or a probe, and blocks climb the tiers.
use native.Mathlib.Nat.{mod-lt}
use millipede.Prelude.{
  ℕ, zero, suc, ◌+◌, ◌-◌, ◌%◌, ◌≤◌, ◌<◌, min, ◌≡◌, refl, false, List, [], ◌∷◌, Option, none, some,
  arith, Text, text_discrete, ◌==◌, length, get_elem?, get_elem?-is_some,
}
use millipede.Prelude.Table
use millipede.Prelude.Table.{get, insert}
use millipede.Proxies.{
  DomainTier, TieredState, domain_of, put, serving_tier, blocked, pick, tiered_url, report_blocked,
}

serving_tier-le :
    (last probe_interval : ℕ) (domain : DomainTier)
    → (serving_tier last probe_interval domain).1 ≤ last
unfolding serving_tier
serving_tier-le last probe_interval domain = ground arith

module _ {Url : Type 0} where
  pick-is_some : (tier : List (Option Url)) (n : ℕ) → (url : Option Url) × (pick tier n ≡ some url)
  pick-is_some [] n = (none, refl)
  pick-is_some (url ∷ urls) n =
      get_elem?-is_some (url ∷ urls) (n % length (url ∷ urls)) (mod-lt n (omega arith))

  -- With tiers, a request is served: from the tier of its host or, as a probe, from the one below; the
  -- URL is the tier's own pick, and the host's entry is updated accordingly.
  pub record ServesTier (state : TieredState Url) (host : Text)
      (result : Option (TieredState Url × (Option Url × Option ℕ))) : Type 0 where
    pub serving : ℕ
    pub tier : List (Option Url)
    pub url : Option Url
    pub domain : DomainTier
    pub chosen :
        serving_tier (length state.tiers - 1) state.probe_interval (domain_of host state)
        ≡ (domain, serving)
    pub in_range : get_elem? state.tiers serving ≡ some tier
    pub picked : pick tier domain.requests ≡ some url
    pub answers : result ≡ some (put host domain state, (url, some (serving % 256)))

  -- `tiered_url` never indexes outside the tiers or a tier, whatever the stored tier of the host is: while
  -- there are tiers, each request is served by a tier in range, from that tier's URLs.
  pub tiered_url-ServesTier :
      (state : TieredState Url) (host : Text)
      → 0 < length state.tiers
      → ServesTier state host (tiered_url state host)
  unfolding tiered_url
  tiered_url-ServesTier state host h =
      let last = length state.tiers - 1 in
      let choice = serving_tier last state.probe_interval (domain_of host state) in
      let (tier, e) =
        get_elem?-is_some state.tiers choice.1
          (omega (arith, serving_tier-le last state.probe_interval (domain_of host state))) in
      let (url, p) = pick-is_some tier choice.0.requests in
      let some_tiers : (length state.tiers == 0) ≡ false = ground arith in
      record {
        serving = choice.1;
        tier = tier;
        url = url;
        domain = choice.0;
        chosen = refl;
        in_range = e;
        picked = p;
        answers = rw (some_tiers, e, p);
      }

  -- `n` blocks in a row.
  unfoldable pub blocks : ℕ → TieredState Url → Text → TieredState Url
  blocks zero state host = state
  blocks (suc n) state host = blocks n (report_blocked state host) host

  report_blocked-climbs :
      (state : TieredState Url) (host : Text)
      → 0 < length state.tiers
      → (domain_of host state).probing ≡ none
      → ((domain_of host (report_blocked state host)).tier
          ≡ min ((domain_of host state).tier + 1) (length state.tiers - 1))
        × ((domain_of host (report_blocked state host)).probing ≡ none)
        × ((report_blocked state host).tiers ≡ state.tiers)
  unfolding report_blocked blocked
  report_blocked-climbs state host h p = ground (
    arith,
    p,
    Table.get-insert_self text_discrete host
        (blocked (length state.tiers - 1) (domain_of host state)) state.domains,
  )

  -- While no probe of the host is out, `n` blocks in a row move it up by `n` tiers, or to the last.
  pub blocks-climb :
      (n : ℕ) (state : TieredState Url) (host : Text)
      → 0 < length state.tiers
      → (domain_of host state).probing ≡ none
      → (domain_of host state).tier < length state.tiers
      → (domain_of host (blocks n state host)).tier
        ≡ min ((domain_of host state).tier + n) (length state.tiers - 1)
  unfolding blocks
  blocks-climb zero state host h p v = omega arith
  blocks-climb (suc n) state host h p v =
      let (t, q, same) = report_blocked-climbs state host h p in
      let size : length (report_blocked state host).tiers ≡ length state.tiers = rw same in
      omega (
        arith,
        t,
        size,
        blocks-climb n (report_blocked state host) host (omega (arith, size)) q
            (omega (arith, t, size)),
      )
