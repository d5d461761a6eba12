-- ===== src/ApiMgmt/Types.antt =====
-- The data of apps/server/internal/apimgmt/biz/apimgmt.go and the interfaces that it is given.
use rago_desk.Base.{ℕ, Bool, Option, List, Text, codes, ℤ, Exec}

-- `APIKeyStatus` is a string; the table may hold others than these two.
abbrev pub status_active : Text
status_active = codes "active"

abbrev pub status_revoked : Text
status_revoked = codes "revoked"

abbrev pub scope_all : Text
scope_all = codes "*"

-- A `time.Time` is the nanoseconds since Go's zero time, which is 0.
abbrev pub Time : Type 0
Time = ℕ

pub record ApiKey : Type 0 where
  pub id : Text
  pub tenant_id : Text
  pub bot_id : Text
  pub name : Text
  pub key_hash : Text
  pub public_chat_id : Text
  pub public_chat_enabled : Bool
  pub api_versions : List Text
  pub scopes : List Text
  pub status : Text
  pub rotated_from : Text
  pub quota_daily : ℤ
  pub qps_limit : ℤ
  pub created_at : Time
  pub last_used_at : Time

pub record UsageLog : Type 0 where
  pub id : Text
  pub api_key_id : Text
  pub tenant_id : Text
  pub bot_id : Text
  pub path : Text
  pub api_version : Text
  pub model : Text
  pub status_code : ℤ
  pub latency_ms : ℤ
  pub prompt_tokens : ℤ
  pub completion_tokens : ℤ
  pub total_tokens : ℤ
  pub client_ip : Text
  pub user_agent : Text
  pub created_at : Time

pub record UsageFilter : Type 0 where
  pub api_key_id : Text
  pub bot_id : Text
  pub api_version : Text
  pub model : Text
  pub start : Time
  pub end : Time
  pub limit : ℤ
  pub offset : ℤ

-- `APIMgmtRepo`, for one request's context. `W` is the world behind it.
pub record ApiMgmtRepo (W : Type 0) : Type 0 where
  pub create_api_key : ApiKey → Exec W ApiKey
  pub get_api_key : Text → Exec W ApiKey
  pub get_api_key_by_public_chat_id : Text → Exec W ApiKey
  pub update_api_key : ApiKey → Exec W ApiKey
  pub regenerate_public_chat_id : Text → Text → Exec W ApiKey
  pub delete_api_key : Text → Exec W (Unit {0})
  pub rotate_key : Text → Text → Time → Exec W ApiKey
  pub update_last_used_at : Text → Time → Exec W (Unit {0})
  pub create_usage_log : UsageLog → Exec W (Unit {0})
  pub get_api_key_by_hash : Text → Exec W ApiKey
  pub list_usage_logs : UsageFilter → Exec W (List UsageLog)

-- The clock, random bytes in base64 (`none` where the source of randomness fails), new UUIDs, and
-- the hex digest of SHA-256.
pub record System (W : Type 0) : Type 0 where
  pub now : W → Time × W
  pub random_base64 : ℕ → W → Option Text × W
  pub new_uuid : W → Text × W
  pub sha256_hex : Text → Text

-- `APIMgmtUsecase`: `limiter` and `sink` may be nil; the sink is given the usage log.
pub record ApiMgmtUsecase (W : Type 0) : Type 0 where
  pub repo : ApiMgmtRepo W
  pub system : System W
  pub limiter : Option (ApiKey → Exec W (Unit {0}))
  pub sink : Option (UsageLog → Exec W (Unit {0}))
  pub rotation_grace : Time
