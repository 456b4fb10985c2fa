-- ===== src/Tests/Tiered.antt =====
-- A direct tier, a tier of two proxies and one of a single proxy.
use millipede.Prelude.{
  ℕ, ◌+◌, ◌-◌, min, ◌≡◌, refl, List, [], ◌∷◌, Option, none, some, arith, Text, codes, length,
}
use millipede.Prelude.Table.{get}
use millipede.Proxies.{TieredState, tiered_url, domain_of}
use millipede.Proxies.Tiers.{ServesTier, tiered_url-ServesTier, blocks, blocks-climb}

abbrev proxies : TieredState ℕ
proxies = record {
  tiers = (none ∷ []) ∷ (some 1 ∷ some 2 ∷ []) ∷ (some 3 ∷ []) ∷ [];
  probe_interval = 2;
  domains = (codes "a", record { tier = 1; requests = 1; probing = none }) ∷ [];
}

tiered_url-ServesTier_example : ServesTier proxies (codes "a") (tiered_url proxies (codes "a"))
tiered_url-ServesTier_example = tiered_url-ServesTier proxies (codes "a") (omega arith)

blocks-climb_example :
    (domain_of (codes "b") (blocks 4 proxies (codes "b"))).tier
    ≡ min ((domain_of (codes "b") proxies).tier + 4) (length proxies.tiers - 1)
unfolding get millipede.Prelude.text_discrete
blocks-climb_example = blocks-climb 4 proxies (codes "b") (omega arith) refl (omega arith)
