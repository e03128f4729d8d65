-- ===== src/Service/Devices.antt =====
-- server/internal/service/device.go
pub mod Binding
pub mod Ownership
pub mod Orphans
use taffy_assistant.Base.{
  ℕ, String, Bool, true, false, Option, none, some, List, ◌==◌, ◌||◌, if◌then◌else◌,
}
use taffy_assistant.Errors.{
  Error, wrap, is_no_rows, device_not_found, not_device_owner, invalid_device_token,
  invalid_bind_code,
}
use taffy_assistant.Model.{Device, DeviceState, DeviceStatus, unregistered}
use taffy_assistant.Store.{Collation, M, pure, fail, ◌>>=◌, ◌>>◌, catch, wrapping}
use taffy_assistant.Repo.Devices.{is_owner}
use taffy_assistant.Repo.Devices
use taffy_assistant.Repo.States

-- The parts of a `DeviceService` that may be missing: the MQTT publisher and the scene service.
pub record DeviceService : Type 0 where
  pub mqtt_pub : Bool
  pub scene_svc : Bool

-- `NewDeviceService`, `AttachMQTT` and `AttachSceneService`.
abbrev pub new_device_service : DeviceService
new_device_service = record { mqtt_pub = false; scene_svc = false }

pub attach_mqtt : DeviceService → DeviceService
attach_mqtt s = record s { mqtt_pub = true }

pub attach_scene_service : DeviceService → DeviceService
attach_scene_service s = record s { scene_svc = true }

-- `if errors.Is(err, sql.ErrNoRows) { return missing }; return fmt.Errorf(prefix: %w, err)`.
abbrev pub missing_or : Error → String → Error → Error
missing_or missing prefix e = if is_no_rows e then missing else wrap prefix e

abbrev pub is_unregistered : DeviceStatus → Bool
is_unregistered unregistered = true
is_unregistered _ = false

-- The tests of `ValidateDeviceCredential` on the device that was found.
abbrev pub checked_credential : String → Device → M Device
checked_credential token d =
    if d.token == ""
    then fail invalid_device_token
    else if d.token == token
    then (if is_unregistered d.status then fail invalid_device_token else pure d)
    else fail invalid_device_token

module _ ⦃c : Collation⦄ where
  -- `CreateDevice`.
  unfoldable pub create_device : Device → M (Unit {0})
  create_device d = do
    wrapping (wrap "create device") (Devices.create d)
    wrapping (wrap "init device state") (
        States.upsert (record {
          device_id = d.device_id;
          power = false;
          brightness = none;
          temperature = none;
          mode = none;
          position = none;
        }))

  -- `GetDevice`.
  unfoldable pub get_device : String → M Device
  unfolding is_no_rows
  get_device id = wrapping (missing_or device_not_found "get device") (Devices.get_by_id id)

  -- `ListDevicesByOwner`.
  unfoldable pub list_devices_by_owner : ℕ → M (List Device)
  list_devices_by_owner owner = Devices.list_by_owner owner

  -- `GetDeviceState`.
  unfoldable pub get_device_state : String → M DeviceState
  unfolding is_no_rows
  get_device_state id = wrapping (missing_or device_not_found "get device state") (States.get id)

  -- `ListDeviceStatesByOwner`.
  unfoldable pub list_device_states_by_owner : ℕ → M (List DeviceState)
  list_device_states_by_owner owner = States.list_by_owner owner

  -- `UpdateDeviceState`.
  unfoldable pub update_device_state : ℕ → DeviceState → M (Unit {0})
  unfolding is_no_rows
  update_device_state user state = do
    d ← wrapping (missing_or device_not_found "get device") (Devices.get_by_id state.device_id)
    if is_owner d.owner_id user then States.upsert state else fail not_device_owner

  -- `ListBindable`.
  unfoldable pub list_bindable : M (List Device)
  list_bindable = Devices.list_bindable

  -- `BindDevice`.
  unfoldable pub bind_device : ℕ → String → String → String → String → M Device
  unfolding is_no_rows
  bind_device user id code name room =
      if id == "" || code == "" then fail invalid_bind_code else (do
        original ← wrapping (missing_or invalid_bind_code "get device") (Devices.get_by_id id)
        let chosen = if name == "" then original.name else name
        wrapping (missing_or invalid_bind_code "bind device")
            (Devices.bind_to_owner id code user chosen room)
        wrapping (wrap "reload device after bind") (Devices.get_by_id id))

  -- `RenameDevice`.
  unfoldable pub rename_device : ℕ → String → String → String → M (Unit {0})
  unfolding is_no_rows
  rename_device user id name room = if id == "" then fail device_not_found else (do
    d ← wrapping (missing_or device_not_found "get device") (Devices.get_by_id id)
    if is_owner d.owner_id user
        then wrapping (missing_or not_device_owner "rename device")
            (Devices.rename id user name room)
        else fail not_device_owner)

  -- `UnbindDevice`.
  unfoldable pub unbind_device : ℕ → String → M (Unit {0})
  unfolding is_no_rows
  unbind_device user id = if id == "" then fail device_not_found else (do
    d ← wrapping (missing_or device_not_found "get device") (Devices.get_by_id id)
    if is_owner d.owner_id user then Devices.delete id else fail not_device_owner)

  -- `DeleteDevice`.
  unfoldable pub delete_device : String → M (Unit {0})
  delete_device id = Devices.delete id

  -- `ValidateDeviceCredential`.
  unfoldable pub validate_device_credential : String → String → M Device
  unfolding is_no_rows
  validate_device_credential id token =
      if id == "" || token == "" then fail invalid_device_token else (do
        d ← wrapping (missing_or invalid_device_token "validate device") (Devices.get_by_id id)
        checked_credential token d)
