-- ===== src/Tests/Restored.antt =====
-- A session that is stored and restored.
use millipede.Prelude.{
  ℕ, ◌≡◌, refl, sym, true, false, [], ◌∷◌, map, Option, none, some, Text, codes,
}
use millipede.Session.{Session, SessionConfig, default_config}
use millipede.Session.Pool.{SessionPool}
use millipede.Session.Persistence.{persist, restore, done, revived, restore-persist}

-- A jar is its JSON, and reading it gives it back.
abbrev to_json : Text → Option Text
to_json jar = some jar

abbrev from_json : Text → Option Text
from_json text = some text

abbrev reread : Text → Text
reread jar = jar

abbrev visitor : Session Text ℕ
visitor = record {
  id = codes "s1";
  cookies = codes "[]";
  user_data = 4;
  error_score_scaled = 1_000;
  usage_count = 3;
  retired = false;
  expires_at = 900;
  config = default_config;
}

abbrev pool : SessionPool Text ℕ
pool = record {
  sessions = visitor ∷ [];
  options = record { max_pool_size = 10; session_config = default_config };
}

stored_ok : (persist to_json true pool none true).1 ≡ done tt
unfolding persist millipede.Session.Persistence.persist_sessions
    millipede.Session.Persistence.persist_session
stored_ok = refl

restore-persist_example :
    restore from_json 0 true pool (persist to_json true pool none true).0
    ≡ record pool { sessions = map (revived 0 reread default_config) pool.sessions }
restore-persist_example =
    restore-persist to_json from_json 0 reread pool pool none (λ jar text e. sym e) stored_ok
