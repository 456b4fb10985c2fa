-- ===== src/Tests/Routes.antt =====
-- A route for everything, and one after it.
use millipede.Prelude.{ℕ, ◌≡◌, refl, true, [], ◌∷◌, none, some, codes, ℕ_discrete}
use millipede.Router.{MethodFilter, any, only, Router, new, push_route, route, choose}
use millipede.Router.Shadows.{push_route-shadowed}

abbrev wildcard : Router ℕ ℕ ℕ
wildcard = (push_route ℕ_discrete new none any 1).0

abbrev with_detail : Router ℕ ℕ ℕ
with_detail = (push_route ℕ_discrete wildcard (some (codes "detail")) (only (0 ∷ [])) 2).0

warned : (push_route ℕ_discrete wildcard (some (codes "detail")) (only (0 ∷ [])) 2).1 ≡ true
unfolding push_route new millipede.Router.is_shadowed millipede.Router.shadows
warned = refl

push_route-shadowed_example :
    choose ℕ_discrete with_detail (some (codes "detail")) 0
    ≡ choose ℕ_discrete wildcard (some (codes "detail")) 0
push_route-shadowed_example =
    push_route-shadowed ℕ_discrete wildcard (some (codes "detail")) (only (0 ∷ [])) 2 warned
      (some (codes "detail")) 0

first_route : choose ℕ_discrete with_detail (some (codes "detail")) 0 ≡ some 1
unfolding push_route new choose millipede.Router.find millipede.Router.matches
first_route = refl
