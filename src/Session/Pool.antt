-- ===== src/Session/Pool.antt =====
-- session.rs, `SessionPool`: which session a request gets. Identifiers come from a generator and differ, so the
-- first entry with an identifier is the one.
pub mod Serving
use millipede.Prelude.{
  ℕ, ◌+◌, ◌%◌, Bool, true, false, List, [], ◌∷◌, ◌++◌, filter, Option, none, some, Text,
  text_discrete, ltb, if◌then◌else◌, length, ite, get_elem?,
}
use millipede.Session.{Session, SessionConfig, new, record_usage, is_usable, retire}

pub record SessionPoolOptions : Type 0 where
  pub max_pool_size : ℕ
  pub session_config : SessionConfig

pub record SessionPool (Jar Data : Type 0) : Type 0 where
  pub sessions : List (Session Jar Data)
  pub options : SessionPoolOptions

module _ {Jar Data : Type 0} where
  unfoldable pub find : Text → List (Session Jar Data) → Option (Session Jar Data)
  find id [] = none
  find id (s ∷ sessions) = ite (text_discrete s.id id) (some s) (find id sessions)

  -- The entry with an identifier, changed through a shared handle.
  unfoldable pub update :
      (Session Jar Data → Session Jar Data)
      → Text
      → List (Session Jar Data)
      → List (Session Jar Data)
  update f id [] = []
  update f id (s ∷ sessions) =
      let rest = update f id sessions in ite (text_discrete s.id id) (f s ∷ sessions) (s ∷ rest)

  -- `sessions.retain` with the answers of `is_usable`
  unfoldable pub retain_usable : ℕ → List (Session Jar Data) → List (Session Jar Data)
  retain_usable now [] = []
  retain_usable now (s ∷ sessions) =
      let rest = retain_usable now sessions in if is_usable now s then s ∷ rest else rest

  abbrev pub find_sticky : Option Text → List (Session Jar Data) → Option (Session Jar Data)
  find_sticky none sessions = none
  find_sticky (some id) sessions = find id sessions

  -- The usable session of the sticky identifier.
  unfoldable pub sticky_session :
      Option Text → ℕ → List (Session Jar Data) → Option (Session Jar Data)
  sticky_session sticky now sessions = elim (find_sticky sticky sessions) [
    | none ↦ none
    | some s ↦ if is_usable now s then some s else none
  ]

  unfoldable pub set_sessions :
      SessionPool Jar Data → List (Session Jar Data) → SessionPool Jar Data
  set_sessions pool sessions = record pool { sessions = sessions }

  -- `Session::new` and `record_usage` on the session, with what the pool then holds.
  abbrev pub serve_new :
      (Session Jar Data → SessionPool Jar Data)
      → Option (Session Jar Data)
      → Option (SessionPool Jar Data × Session Jar Data)
  serve_new after none = none
  serve_new after (some fresh) = some (after (record_usage fresh), record_usage fresh)

  -- No sticky session: a new one while there is room, or one of the usable ones. `fresh` is what
  -- `Session::new` returns where it is called. `none` is a panic, in that call or at an index outside the
  -- list.
  unfoldable pub create_or_rotate :
      SessionPool Jar Data
      → List (Session Jar Data)
      → Option (Session Jar Data)
      → ℕ
      → Option (SessionPool Jar Data × Session Jar Data)
  create_or_rotate pool usable fresh random =
      if ltb (length usable) pool.options.max_pool_size
      then serve_new (λ s. set_sessions pool (usable ++ s ∷ [])) fresh
      else elim usable [
        | [] ↦ serve_new (λ s. set_sessions pool []) fresh
        | s ∷ rest ↦ elim (get_elem? (s ∷ rest) (random % length (s ∷ rest))) [
          | none ↦ none
          | some chosen ↦
              some
                (set_sessions pool (update record_usage chosen.id (s ∷ rest)), record_usage chosen)
        ]
      ]

  -- The session that is served is the second result, after its use has been recorded.
  unfoldable pub session :
      Jar
      → Data
      → SessionPool Jar Data
      → Option Text
      → ℕ
      → Text
      → ℕ
      → Option (SessionPool Jar Data × Session Jar Data)
  session no_cookies no_data pool sticky now fresh_id random =
      elim (sticky_session sticky now pool.sessions) [
        | some s ↦ some (set_sessions pool (update record_usage s.id pool.sessions), record_usage s)
        | none ↦
            create_or_rotate pool (retain_usable now pool.sessions)
              (new no_cookies no_data fresh_id now pool.options.session_config) random
      ]

  unfoldable pub retire_session : SessionPool Jar Data → Text → SessionPool Jar Data
  retire_session pool id = set_sessions pool (update retire id pool.sessions)

  unfoldable pub session_count : SessionPool Jar Data → ℕ
  session_count pool = length pool.sessions
