-- ===== src/Session.antt =====
-- crates/millipede-core/src/session.rs: sessions with a score, and the bounded pool that hands them out. A
-- session is shared, so what one holder does to it is done to the pool's entry with its identifier. The
-- clock, the identifier of a new session and the random number are arguments. `Jar` and `Data` are the
-- types of the cookie jar and the user data. Times are nanoseconds.
pub mod Pool
pub mod Score
pub mod Persistence
use millipede.Prelude.{
  ℕ, ◌+◌, ◌-◌, Bool, true, false, not, ◌&&◌, Text, ltb, leb, Option, none, some, if◌then◌else◌,
}
use millipede.Prelude.Words.{u32_saturating_add}

-- The last `OffsetDateTime`, the end of the year 9999, in nanoseconds of Unix time. `OffsetDateTime` plus
-- `Duration` panics past it.
abbrev pub date_max : ℕ
date_max = 253_402_300_799_999_999_999

pub record SessionConfig : Type 0 where
  pub max_error_score_scaled : ℕ
  pub error_score_decrement_scaled : ℕ
  pub max_usage_count : ℕ
  pub max_age : ℕ

-- `SessionConfig::default()`
abbrev pub default_config : SessionConfig
default_config = record {
  max_error_score_scaled = 3_000;
  error_score_decrement_scaled = 500;
  max_usage_count = 50;
  max_age = 3_000_000_000_000;
}

pub record Session (Jar Data : Type 0) : Type 0 where
  pub id : Text
  pub cookies : Jar
  pub user_data : Data
  pub error_score_scaled : ℕ
  pub usage_count : ℕ
  pub retired : Bool
  pub expires_at : ℕ
  pub config : SessionConfig

module _ {Jar Data : Type 0} where
  -- The session that `new` creates once its expiry is known.
  abbrev pub starting : Jar → Data → Text → ℕ → SessionConfig → Session Jar Data
  starting no_cookies no_data id expires_at config = record {
    id = id;
    cookies = no_cookies;
    user_data = no_data;
    error_score_scaled = 0;
    usage_count = 0;
    retired = false;
    expires_at = expires_at;
    config = config;
  }

  -- `none` is the panic of a sum past the last date.
  unfoldable pub new : Jar → Data → Text → ℕ → SessionConfig → Option (Session Jar Data)
  new no_cookies no_data id now config =
      let expires_at = now + config.max_age in
      if leb expires_at date_max
      then some (starting no_cookies no_data id expires_at config)
      else none

  unfoldable pub record_usage : Session Jar Data → Session Jar Data
  record_usage s = record s { usage_count = u32_saturating_add s.usage_count 1 }

  unfoldable pub is_blocked : Session Jar Data → Bool
  is_blocked s = leb s.config.max_error_score_scaled s.error_score_scaled

  unfoldable pub is_expired : ℕ → Session Jar Data → Bool
  is_expired now s = leb s.expires_at now

  unfoldable pub is_usable : ℕ → Session Jar Data → Bool
  is_usable now s =
      not s.retired
      && (not (is_expired now s)
          && (ltb s.error_score_scaled s.config.max_error_score_scaled
              && ltb s.usage_count s.config.max_usage_count))

  unfoldable pub mark_good : Session Jar Data → Session Jar Data
  mark_good s = record s {
    error_score_scaled = s.error_score_scaled - s.config.error_score_decrement_scaled;
  }

  unfoldable pub mark_bad : Session Jar Data → Session Jar Data
  mark_bad s = record s { error_score_scaled = u32_saturating_add s.error_score_scaled 1_000 }

  unfoldable pub retire : Session Jar Data → Session Jar Data
  retire s = record s { retired = true }
