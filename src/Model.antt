-- ===== src/Model.antt =====
-- The rows of the database: server/internal/model/model.go. Row numbers (BIGINT AUTO_INCREMENT) and
-- times are natural numbers. `created_at` and `updated_at` are no columns: a table keeps its rows in
-- the order in which they were inserted.
use taffy_assistant.Base.{ℕ, String, Bool, Option, ℤ}
use taffy_assistant.Json.{Raw}

pub record User : Type 0 where
  pub user_id : ℕ
  pub phone : String
  pub email : String
  pub password_hash : String
  pub nickname : String
  pub avatar_url : String

pub data DeviceType : Type 0 where
  speaker light aircon curtain socket : DeviceType

pub data DeviceStatus : Type 0 where
  unregistered waiting_bind online offline error : DeviceStatus

pub record Device : Type 0 where
  pub device_id : String
  pub owner_id : Option ℕ
  pub type : DeviceType
  pub name : String
  pub room : String
  pub status : DeviceStatus
  pub token : String
  pub bind_code : String
  pub last_seen : Option ℕ

-- `mode` is the text of an `AirconMode`.
pub record DeviceState : Type 0 where
  pub device_id : String
  pub power : Bool
  pub brightness : Option ℤ
  pub temperature : Option ℤ
  pub mode : Option String
  pub position : Option ℤ

pub record Conversation : Type 0 where
  pub conversation_id : ℕ
  pub user_id : ℕ
  pub device_id : Option String
  pub started_at : ℕ
  pub ended_at : Option ℕ

pub data MessageRole : Type 0 where
  user assistant system : MessageRole

pub record Message : Type 0 where
  pub message_id : ℕ
  pub conversation_id : ℕ
  pub role : MessageRole
  pub content : String
  pub audio_url : String

pub data CommandResult : Type 0 where
  pending success failure timeout : CommandResult

pub record Command : Type 0 where
  pub command_id : ℕ
  pub message_id : ℕ
  pub device_id : String
  pub action : String
  pub params : Option Raw
  pub result : CommandResult
  pub executed_at : Option ℕ

pub record Scene : Type 0 where
  pub scene_id : ℕ
  pub user_id : ℕ
  pub name : String
  pub command_list : Raw
