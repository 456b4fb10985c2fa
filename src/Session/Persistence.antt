-- ===== src/Session/Persistence.antt =====
-- session.rs: `persist` and `restore`. The JSON of a cookie jar is that of the cookie_store crate, which cookies.rs
-- calls, and reading and writing the key-value store may fail: their answers are arguments.
use millipede.Prelude.{
  ℕ, ◌≡◌, inl, inr, Bool, true, false, List, [], ◌∷◌, map, Option, none, some, arith, Text,
  Option-cases,
}
use millipede.Session.{Session, SessionConfig}
use millipede.Session.Pool.{SessionPool}

pub record PersistedSession : Type 0 where
  pub id : Text
  pub cookies : Text
  pub error_score_scaled : ℕ
  pub usage_count : ℕ
  pub retired : Bool
  pub expires_at : ℕ

-- `CrawlError::non_retryable` for a jar that cannot be written, `CrawlError::retry` for the store
pub data PersistResult (A : Type 0) : Type 0 where
  done : A → PersistResult A
  bad_cookies : PersistResult A
  store_failed : PersistResult A

module _ {Jar Data : Type 0} (to_json : Jar → Option Text) where
  unfoldable pub persist_session : Session Jar Data → Option PersistedSession
  persist_session s = elim (to_json s.cookies) [
    | none ↦ none
    | some text ↦ some (record {
      id = s.id;
      cookies = text;
      error_score_scaled = s.error_score_scaled;
      usage_count = s.usage_count;
      retired = s.retired;
      expires_at = s.expires_at;
    })
  ]

  -- The first jar that cannot be written ends it.
  unfoldable pub persist_sessions : List (Session Jar Data) → Option (List PersistedSession)
  persist_sessions [] = some []
  persist_sessions (s ∷ sessions) =
      let rest = persist_sessions sessions in
      elim (persist_session s) [
        | none ↦ none
        | some p ↦ elim rest [ none ↦ none | some ps ↦ some (p ∷ ps) ]
      ]

  -- The stored state, `none` at first, and the answer. `attached` says whether the pool has a store, and
  -- `written` is the store's answer to `set`.
  unfoldable pub persist :
      Bool
      → SessionPool Jar Data
      → Option (List PersistedSession)
      → Bool
      → Option (List PersistedSession) × PersistResult (Unit {0})
  persist false pool stored written = (stored, done tt)
  persist true pool stored written = elim (persist_sessions pool.sessions) [
    | none ↦ (stored, bad_cookies)
    | some ps ↦ elim written [ true ↦ (some ps, done tt) | false ↦ (stored, store_failed) ]
  ]

module _ {Jar Data : Type 0} (from_json : Text → Option Jar) (no_data : Data) where
  unfoldable pub restored : PersistedSession → SessionConfig → Option (Session Jar Data)
  restored p config = elim (from_json p.cookies) [
    | none ↦ none
    | some jar ↦ some (record {
      id = p.id;
      cookies = jar;
      user_data = no_data;
      error_score_scaled = p.error_score_scaled;
      usage_count = p.usage_count;
      retired = p.retired;
      expires_at = p.expires_at;
      config = config;
    })
  ]

  -- An entry with corrupt cookies is left out.
  unfoldable pub restore_sessions : SessionConfig → List PersistedSession → List (Session Jar Data)
  restore_sessions config [] = []
  restore_sessions config (p ∷ ps) =
      let rest = restore_sessions config ps in
      elim (restored p config) [ none ↦ rest | some s ↦ s ∷ rest ]

  -- Nothing stored leaves the pool as it is.
  unfoldable pub restore :
      Bool → SessionPool Jar Data → Option (List PersistedSession) → SessionPool Jar Data
  restore false pool stored = pool
  restore true pool none = pool
  restore true pool (some ps) = record pool {
    sessions = restore_sessions pool.options.session_config ps;
  }

module _ {Jar Data : Type 0} (no_data : Data) (reread : Jar → Jar) where
  -- What is left of a session: not its user data, and its cookies as their JSON keeps them.
  abbrev pub revived : SessionConfig → Session Jar Data → Session Jar Data
  revived config s = record s { cookies = reread s.cookies; user_data = no_data; config = config }

module _ {Jar Data : Type 0} (to_json : Jar → Option Text) (from_json : Text → Option Jar)
    (no_data : Data) (reread : Jar → Jar) where
  restore-persist_sessions :
      (config : SessionConfig) (sessions : List (Session Jar Data)) (ps : List PersistedSession)
      → ((jar : Jar) (text : Text) → to_json jar ≡ some text → from_json text ≡ some (reread jar))
      → persist_sessions to_json sessions ≡ some ps
      → restore_sessions from_json no_data config ps ≡ map (revived no_data reread config) sessions
  unfolding persist_sessions persist_session restore_sessions restored
  restore-persist_sessions config [] ps readable e = ground (arith, e)
  restore-persist_sessions config (s ∷ sessions) ps readable e =
      elim (Option-cases (to_json s.cookies)) [
        | inl f ↦ ground (arith, e, f)
        | inr (text, f) ↦ elim (Option-cases (persist_sessions to_json sessions)) [
          | inl g ↦ ground (arith, e, f, g)
          | inr (rest, g) ↦ ground (
            arith,
            e,
            f,
            g,
            readable s.cookies text f,
            restore-persist_sessions config sessions rest readable g,
          )
        ]
      ]

  -- If the state of a pool is stored, and the JSON of a jar can be read again, then any pool that restores it
  -- gets the same sessions in the same order, with their identifiers, scores, usage counts, retirements
  -- and original expiry. Their user data is reset, and they follow the configuration of the restoring pool.
  pub restore-persist :
      (pool other : SessionPool Jar Data) (stored : Option (List PersistedSession))
      → ((jar : Jar) (text : Text) → to_json jar ≡ some text → from_json text ≡ some (reread jar))
      → (persist to_json true pool stored true).1 ≡ done tt
      → restore from_json no_data true other (persist to_json true pool stored true).0
        ≡ record other {
          sessions = map (revived no_data reread other.options.session_config) pool.sessions;
        }
  unfolding persist restore
  restore-persist pool other stored readable e =
      elim (Option-cases (persist_sessions to_json pool.sessions)) [
        | inl f ↦ ground (arith, e, f)
        | inr (ps, f) ↦ ground (
          arith,
          f,
          restore-persist_sessions other.options.session_config pool.sessions ps readable f,
        )
      ]
