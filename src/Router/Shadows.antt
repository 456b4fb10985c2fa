-- ===== src/Router/Shadows.antt =====
-- router.rs: a route that is warned about never gets a request.
use millipede.Prelude.{
  ◌≡◌, ◌≢◌, refl, true, false, List, [], ◌∷◌, ◌++◌, Option, none, some, arith, Text,
}
use millipede.Prelude.Members.{contains}
use millipede.Router.{
  MethodFilter, any, only, same_label, is_wild, matches, all_in, shadows, Route, Router,
  is_shadowed, takes, find, push_route, choose,
}

module _ {Method : Type 0} (dec : Discrete Method) where
  all_in_lem :
      (earlier later : List Method) (method : Method)
      → all_in dec earlier later ≡ true
      → contains dec method later ≡ true
      → contains dec method earlier ≡ true
  unfolding all_in contains
  all_in_lem earlier [] method a c = ground (arith, c)
  all_in_lem earlier (m ∷ later) method a c = ground (arith, a, c, all_in_lem earlier later method)

  shadows_lem :
      (f g : MethodFilter Method) (method : Method)
      → shadows dec f g ≡ true
      → matches dec g method ≡ true
      → matches dec f method ≡ true
  unfolding shadows matches
  shadows_lem any g method s m = refl
  shadows_lem (only earlier) any method s m = ground (arith, s)
  shadows_lem (only earlier) (only later) method s m = all_in_lem earlier later method s m

same_label_trans :
    (k l m : Option Text) → same_label k l ≡ true → same_label l m ≡ true → same_label k m ≡ true
same_label_trans none none m e f = f
same_label_trans none (some l) m e f = ground (arith, e)
same_label_trans (some k) none m e f = ground (arith, e)
same_label_trans (some k) (some l) none e f = ground (arith, f)
same_label_trans (some k) (some l) (some m) e f = ground (arith, e, f)

wild : (k l : Option Text) → same_label k l ≡ true → is_wild l ≡ true → is_wild k ≡ true
wild none l e f = refl
wild (some k) none e f = ground (arith, e)
wild (some k) (some l) e f = ground (arith, f)

module _ {Method Handler : Type 0} (dec : Discrete Method) where
  only_route :
      (r : Route Method Handler) (label : Option Text) (method : Method)
      → find dec (r ∷ []) label method
        ≡ elim (takes dec r label method) [ true ↦ some r.handler | false ↦ none ]
  unfolding find
  only_route r label method = ground arith

  find-append :
      (routes : List (Route Method Handler)) (r : Route Method Handler) (label : Option Text)
      (method : Method)
      → find dec (routes ++ r ∷ []) label method ≡ elim (find dec routes label method) [
        | some h ↦ some h
        | none ↦ find dec (r ∷ []) label method
      ]
  unfolding find
  find-append [] r label method = refl
  find-append (x ∷ routes) r label method = ground (arith, find-append routes r label method)

  -- What the new route takes, an earlier one takes.
  shadowed_found :
      (routes : List (Route Method Handler)) (r : Route Method Handler) (label : Option Text)
      (method : Method)
      → is_shadowed dec routes r.label r.methods ≡ true
      → takes dec r label method ≡ true
      → find dec routes label method ≢ none
  unfolding find is_shadowed
  shadowed_found [] r label method s t = ground (arith, s)
  shadowed_found (x ∷ routes) r label method s t = ground (
    arith,
    s,
    t,
    shadowed_found routes r label method,
    shadows_lem dec x.methods r.methods method,
    same_label_trans x.label r.label label,
    wild x.label r.label,
  )

module _ {Method Handler Middleware : Type 0} (dec : Discrete Method) where
  -- A route that is warned about changes nothing: for every label and method the router chooses the same
  -- handler as without that route.
  pub push_route-shadowed :
      (r : Router Method Handler Middleware) (l : Option Text) (methods : MethodFilter Method)
      (h : Handler)
      → (push_route dec r l methods h).1 ≡ true
      → (label : Option Text) (method : Method)
      → choose dec (push_route dec r l methods h).0 label method ≡ choose dec r label method
  unfolding push_route choose
  push_route-shadowed r l methods h s label method =
      let new_route : Route Method Handler = record { label = l; methods = methods; handler = h } in
      ground (
        arith,
        find-append dec r.routes new_route label method,
        only_route dec new_route label method,
        shadowed_found dec r.routes new_route label method s,
      )
