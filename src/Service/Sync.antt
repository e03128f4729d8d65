-- ===== src/Service/Sync.antt =====
-- What devices report over MQTT: server/internal/service/mqtt_handlers.go
pub mod Merge
use taffy_assistant.Base.{ℕ, String, Bool, Option, none, some, ℤ, ◌==◌, if◌then◌else◌}
use taffy_assistant.Model.{DeviceState}
use taffy_assistant.Store.{Collation, World, M, Result, ok, err, pure, ◌>>=◌, try}
use taffy_assistant.Repo.States
use taffy_assistant.Repo.Devices
use taffy_assistant.Service.Devices.{get_device_state}

-- `mqtt.StatusPayload`, but for the fields that the server does not read.
pub record StatusPayload : Type 0 where
  pub device_id : String
  pub power : Option Bool
  pub brightness : Option ℤ
  pub temperature : Option ℤ
  pub mode : String
  pub position : Option ℤ

-- A pointer that is nil leaves the old value.
abbrev pub or_old {ℓ} : {A : Type ℓ} → Option A → A → A
or_old none old = old
or_old (some x) old = x

abbrev pub or_old_ptr {ℓ} : {A : Type ℓ} → Option A → Option A → Option A
or_old_ptr none old = old
or_old_ptr (some x) old = some x

unfoldable pub merge_status : DeviceState → StatusPayload → DeviceState
merge_status s p = record s {
  power = or_old p.power s.power;
  brightness = or_old_ptr p.brightness s.brightness;
  temperature = or_old_ptr p.temperature s.temperature;
  mode = if p.mode == "" then s.mode else some p.mode;
  position = or_old_ptr p.position s.position;
}

module _ ⦃c : Collation⦄ where
  -- `SyncStateFromDevice`.
  unfoldable pub sync_state_from_device : StatusPayload → M (Unit {0})
  unfolding merge_status
  sync_state_from_device p = do
    current ← get_device_state p.device_id
    States.upsert (merge_status current p)

  -- `MarkOnline`.
  unfoldable pub mark_online : String → M (Unit {0})
  mark_online id = Devices.update_last_seen id

  -- The handler of `NewMQTTStatusHandler`: an error is logged and dropped.
  unfoldable pub on_status : StatusPayload → M (Unit {0})
  unfolding sync_state_from_device
  on_status p =
      if p.device_id == "" then pure tt else try (sync_state_from_device p) >>= λ _. pure tt

  -- The handler of `NewMQTTHeartbeatHandler`.
  unfoldable pub on_heartbeat : String → M (Unit {0})
  unfolding mark_online
  on_heartbeat id = if id == "" then pure tt else try (mark_online id) >>= λ _. pure tt
