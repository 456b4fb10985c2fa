-- ===== src/Router.antt =====
-- crates/millipede-core/src/router.rs: which handler a request goes to. `Method` is the type of the http crate, with
-- its equality; `Context` is what a handler gets, with the label and the method of its request. A handler
-- or a middleware of the user is a function to a result.
pub mod Shadows
use millipede.Prelude.{
  Bool, true, false, ◌&&◌, ◌||◌, List, [], ◌∷◌, ◌++◌, Option, none, some, Text, text_discrete,
  if◌then◌else◌,
}
use millipede.Prelude.Members.{contains}

pub data HandlerResult (A Method Error : Type 0) : Type 0 where
  done : A → HandlerResult A Method Error
  missing_route : Option Text → Method → HandlerResult A Method Error
  handler_error : Error → HandlerResult A Method Error

pub data MethodFilter (Method : Type 0) : Type 0 where
  any : MethodFilter Method
  only : List Method → MethodFilter Method

-- `==` on optional labels
abbrev pub same_label : Option Text → Option Text → Bool
same_label none none = true
same_label none (some l) = false
same_label (some k) none = false
same_label (some k) (some l) = elim (text_discrete k l) [ yes e ↦ true | no n ↦ false ]

abbrev pub is_wild : Option Text → Bool
is_wild none = true
is_wild (some l) = false

module _ {Method : Type 0} (dec : Discrete Method) where
  unfoldable pub matches : MethodFilter Method → Method → Bool
  matches any method = true
  matches (only methods) method = contains dec method methods

  unfoldable pub all_in : List Method → List Method → Bool
  all_in earlier [] = true
  all_in earlier (method ∷ later) = contains dec method earlier && all_in earlier later

  unfoldable pub shadows : MethodFilter Method → MethodFilter Method → Bool
  shadows any other = true
  shadows (only earlier) any = false
  shadows (only earlier) (only later) = all_in earlier later

pub record Route (Method Handler : Type 0) : Type 0 where
  pub label : Option Text
  pub methods : MethodFilter Method
  pub handler : Handler

pub record Router (Method Handler Middleware : Type 0) : Type 0 where
  pub routes : List (Route Method Handler)
  pub default_handler : Option Handler
  pub middleware : List Middleware

module _ {Method Handler Middleware : Type 0} where
  unfoldable pub new : Router Method Handler Middleware
  new = record { routes = []; default_handler = none; middleware = [] }

  unfoldable pub set_default :
      Router Method Handler Middleware → Handler → Router Method Handler Middleware
  set_default r handler = record r { default_handler = some handler }

  unfoldable pub add_middleware :
      Router Method Handler Middleware → Middleware → Router Method Handler Middleware
  add_middleware r m = record r { middleware = r.middleware ++ m ∷ [] }

module _ {Method Handler : Type 0} (dec : Discrete Method) where
  -- An earlier route takes all requests of this one.
  unfoldable pub is_shadowed :
      List (Route Method Handler) → Option Text → MethodFilter Method → Bool
  is_shadowed [] label methods = false
  is_shadowed (route ∷ routes) label methods =
      ((is_wild route.label || same_label route.label label) && shadows dec route.methods methods)
      || is_shadowed routes label methods

  abbrev pub takes : Route Method Handler → Option Text → Method → Bool
  takes route label method =
      (is_wild route.label || same_label route.label label) && matches dec route.methods method

  unfoldable pub find : List (Route Method Handler) → Option Text → Method → Option Handler
  find [] label method = none
  find (route ∷ routes) label method =
      let rest = find routes label method in
      if takes route label method then some route.handler else rest

module _ {Method Handler Middleware : Type 0} (dec : Discrete Method) where
  -- The router, and whether a warning is logged.
  unfoldable pub push_route :
      Router Method Handler Middleware
      → Option Text
      → MethodFilter Method
      → Handler
      → Router Method Handler Middleware × Bool
  push_route r label methods handler = (
    record r {
      routes = r.routes ++ record { label = label; methods = methods; handler = handler } ∷ [];
    },
    is_shadowed dec r.routes label methods,
  )

  unfoldable pub route :
      Router Method Handler Middleware → Text → Handler → Router Method Handler Middleware
  route r label handler = (push_route r (some label) any handler).0

  unfoldable pub route_methods :
      Router Method Handler Middleware
      → Text
      → List Method
      → Handler
      → Router Method Handler Middleware
  route_methods r label methods handler = (push_route r (some label) (only methods) handler).0

  unfoldable pub route_method :
      Router Method Handler Middleware → Text → Method → Handler → Router Method Handler Middleware
  route_method r label method handler = route_methods r label (method ∷ []) handler

  unfoldable pub choose : Router Method Handler Middleware → Option Text → Method → Option Handler
  choose r label method = elim (find dec r.routes label method) [
    | none ↦ r.default_handler
    | some handler ↦ some handler
  ]

module _ {Method Context Error : Type 0} (dec : Discrete Method) (label_of : Context → Option Text)
    (method_of : Context → Method) where
  -- Each middleware may replace the context or fail.
  unfoldable pub run_middleware :
      List (Context → HandlerResult Context Method Error)
      → Context
      → HandlerResult Context Method Error
  run_middleware [] ctx = done ctx
  run_middleware (m ∷ ms) ctx = elim (m ctx) [
    | done next ↦ run_middleware ms next
    | missing_route l method ↦ missing_route l method
    | handler_error e ↦ handler_error e
  ]

  -- The handler is chosen before the middleware runs.
  unfoldable pub handle :
      Router Method
        (Context → HandlerResult (Unit {0}) Method Error)
        (Context → HandlerResult Context Method Error)
      → Context
      → HandlerResult (Unit {0}) Method Error
  handle r ctx = elim (choose dec r (label_of ctx) (method_of ctx)) [
    | none ↦ missing_route (label_of ctx) (method_of ctx)
    | some handler ↦ elim (run_middleware r.middleware ctx) [
      | done next ↦ handler next
      | missing_route l method ↦ missing_route l method
      | handler_error e ↦ handler_error e
    ]
  ]
