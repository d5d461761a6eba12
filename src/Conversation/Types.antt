-- ===== src/Conversation/Types.antt =====
-- The data of apps/server/internal/conversation/biz/conversation.go and the interfaces that its use
-- cases are given.
use rago_desk.Base.{ℕ, Option, List, Text, codes, ℤ, Exec}

abbrev pub Time : Type 0
Time = ℕ

abbrev pub status_bot : Text
status_bot = codes "bot"

abbrev pub status_closed : Text
status_closed = codes "closed"

pub record Session : Type 0 where
  pub id : Text
  pub tenant_id : Text
  pub bot_id : Text
  pub status : Text
  pub close_reason : Text
  pub user_external : Text
  pub metadata : Text
  pub created_at : Time
  pub updated_at : Time
  pub closed_at : Time

-- The confidence is a float32, of which nothing is computed here: its bit pattern.
pub record Message : Type 0 where
  pub id : Text
  pub tenant_id : Text
  pub session_id : Text
  pub role : Text
  pub content : Text
  pub confidence : ℕ
  pub references : Text
  pub created_at : Time

pub record SessionEvent : Type 0 where
  pub id : Text
  pub tenant_id : Text
  pub session_id : Text
  pub event_type : Text
  pub detail : Text
  pub created_at : Time

pub record MessageFeedback : Type 0 where
  pub id : Text
  pub tenant_id : Text
  pub session_id : Text
  pub message_id : Text
  pub rating : ℤ
  pub comment : Text
  pub correction : Text
  pub created_at : Time

-- `ConversationRepo` without `PurgeExpired`, which runs on its own: see `Purge`.
pub record ConversationRepo (W : Type 0) : Type 0 where
  pub create_session : Session → Exec W Session
  pub get_session : Text → Exec W Session
  pub list_sessions : ℤ → ℤ → Exec W (List Session)
  pub close_session : Text → Text → Time → Exec W (Unit {0})
  pub create_messages : List Message → Exec W (Unit {0})
  pub list_messages : Text → ℤ → ℤ → Exec W (List Message)
  pub create_event : SessionEvent → Exec W (Unit {0})
  pub create_feedback : MessageFeedback → Exec W (Unit {0})

-- A call of `PurgeExpired` that a goroutine was started for.
pub record Purge : Type 0 where
  pub tenant_id : Text
  pub cutoff : Time
  pub started_at : Time

-- The world of the repository, the last purge (0 is Go's zero time), and the purges started, the
-- newest first. The mutex makes the reading and the writing of the last purge one step.
pub record Host (W : Type 0) : Type 0 where
  pub world : W
  pub last_purge : Time
  pub purges : List Purge

-- The clock, UUIDs, `AddDate(0, 0, -days)`, and JSON of the metadata.
pub record ConversationSystem (W M : Type 0) : Type 0 where
  pub now : W → Time × W
  pub new_uuid : W → Text × W
  pub days_before : ℕ → Time → Time
  pub marshal : M → Option Text

-- `ConversationUsecase`, with the tenant of the request's context.
pub record ConversationUsecase (W M : Type 0) : Type 0 where
  pub repo : ConversationRepo W
  pub system : ConversationSystem W M
  pub retention_days : ℕ
  pub purge_interval : ℤ
  pub tenant : Option Text
