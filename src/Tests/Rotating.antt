-- ===== src/Tests/Rotating.antt =====
-- Two proxies in turn.
use millipede.Prelude.{ℕ, suc, ◌+◌, ◌%◌, ◌≡◌, List, [], ◌∷◌, some, arith, length, get_elem?}
use millipede.Proxies.Rotation.{resolve_static, calls, round_robin, in_turn}

abbrev two_proxies : List ℕ
two_proxies = 80 ∷ 81 ∷ []

in_turn_example :
    (url : ℕ) × (get_elem? two_proxies ((0 + 3) % length two_proxies) ≡ some url)
    × (resolve_static 0
          (calls 0 3 (record { urls = two_proxies; rotation = round_robin; cursor = 0 }))
        ≡ some (
          calls 0 (suc 3) (record { urls = two_proxies; rotation = round_robin; cursor = 0 }),
          some url,
        ))
in_turn_example = in_turn 0 3 two_proxies 0 (omega arith) (omega arith)
