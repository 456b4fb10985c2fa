-- ===== src/Storage.antt =====
-- crates/millipede-core/src/storage/mod.rs and storage/queue.rs: what every storage backend shares.
-- The causes inside `serialization`, `io` and `backend` are texts.
use millipede.Prelude.{ℕ, ◌≡◌, ◌⊎◌, inl, inr, refl, Bool, true, false, Option, Text}
use millipede.Request.{Request, RequestId}

pub data StorageError : Type 0 where
  serialization io backend unsupported : Text → StorageError
  lease_not_found : ℕ → StorageError
  rate_limited : Option ℕ → StorageError

unfoldable pub is_rate_limited : StorageError → Bool
is_rate_limited (rate_limited after) = true
is_rate_limited _ = false

pub data StorageResult {ℓ} (A : Type ℓ) : Type ℓ where
  ok : A → StorageResult A
  err : StorageError → StorageResult A

pub Result-cases {ℓ} :
    {A : Type ℓ} (x : StorageResult A) → ((a : A) × (x ≡ ok a)) ⊎ ((e : StorageError) × (x ≡ err e))
Result-cases (ok a) = inl (a, refl)
Result-cases (err e) = inr (e, refl)

pub record Lease (Url Payload : Type 0) : Type 0 where
  pub request : Request Url Payload
  pub lease_id : ℕ
  pub expires_at : ℕ

pub record AddOptions : Type 0 where
  pub forefront : Bool

pub record ReclaimOptions : Type 0 where
  pub forefront : Bool
  pub increment_retry : Bool

pub record ProcessedRequest : Type 0 where
  pub request_id : RequestId
  pub unique_key : Text
  pub was_already_present : Bool
  pub was_already_handled : Bool

-- The enum has one variant today.
pub data RequestSource (Url Payload : Type 0) : Type 0 where
  request : Request Url Payload → RequestSource Url Payload
