-- ===== src/Service/Control.antt =====
-- `control_device`: server/internal/service/voice_command.go
pub mod Actions
pub mod Atomic
pub mod Success
use taffy_assistant.Base.{
  ℕ, String, Bool, true, false, Option, none, some, is_none, ℤ, itoa, List, [], ◌∷◌, ◌++◌, ◌==◌,
  ◌⧺◌, ◌≡◌, refl, ◌⊎◌, inl, inr, if◌then◌else◌,
}
use taffy_assistant.Errors.{Error, text_of}
use taffy_assistant.Json.{Raw, Json, int, str}
use taffy_assistant.Model.{Device, DeviceState}
use taffy_assistant.Protocol.{ControlDeviceParams, unmarshal_control, aircon_mode_label}
use taffy_assistant.Protocol.Action
use taffy_assistant.Store.{
  Collation, CommandPayload, World, M, Result, ok, err, pure, ◌>>=◌, ◌>>◌, try,
}
use taffy_assistant.Service.Devices.{
  DeviceService, get_device, get_device_state, update_device_state,
}

-- `DeviceCommandResult`.
pub record CommandReply : Type 0 where
  pub success : Bool
  pub message : String

abbrev pub refused : String → CommandReply
refused message = record { success = false; message = message }

abbrev pub done : String → CommandReply
done message = record { success = true; message = message }

-- `applyAction`: the new state, or the message of what is wrong with the parameters.
pub data Applied : Type 0 where
  applied : DeviceState → Applied
  rejected : String → Applied

pub Applied-cases :
    (a : Applied) → ((m : String) × (a ≡ rejected m)) ⊎ ((s : DeviceState) × (a ≡ applied s))
Applied-cases (rejected m) = inl (m, refl)
Applied-cases (applied s) = inr (s, refl)

abbrev with_brightness : DeviceState → Option ℤ → Applied
with_brightness s none = rejected "缺少 brightness 参数"
with_brightness s b = applied (record s { power = true; brightness = b })

abbrev with_temperature : DeviceState → Option ℤ → Applied
with_temperature s none = rejected "缺少 temperature 参数"
with_temperature s t = applied (record s { power = true; temperature = t })

abbrev with_mode : DeviceState → String → Applied
with_mode s mode =
    if mode == ""
    then rejected "缺少 mode 参数"
    else applied (record s { power = true; mode = some mode })

abbrev with_position : DeviceState → Option ℤ → Applied
with_position s none = rejected "缺少 position 参数"
with_position s p = applied (record s { power = true; position = p })

unfoldable pub apply_action : DeviceState → ControlDeviceParams → Applied
apply_action s p =
    if p.action == Action.turn_on
    then applied (record s { power = true })
    else if p.action == Action.turn_off
    then applied (record s { power = false })
    else if p.action == Action.set_brightness
    then with_brightness s p.brightness
    else if p.action == Action.set_temperature
    then with_temperature s p.temperature
    else if p.action == Action.set_mode
    then with_mode s p.mode
    else if p.action == Action.set_position
    then with_position s p.position
    else rejected ("未知的 action: " ⧺ p.action)

-- The two halves of a message around a number that may be missing.
abbrev set_to : String → Option ℤ → String → String → String
set_to what none unit otherwise = what ⧺ otherwise
set_to what (some n) unit otherwise = what ⧺ "已设为" ⧺ itoa n ⧺ unit

abbrev label_of : Option String → String
label_of none = "未知"
label_of (some mode) = elim (aircon_mode_label mode) [ none ↦ "未知" | some l ↦ l ]

-- `formatSuccessMessage`.
unfoldable pub format_success_message : Device → String → DeviceState → String
format_success_message device act s =
    let room : String = if device.room == "" then "" else device.room ⧺ "的" in
    let name : String = device.name in
    if act == Action.turn_on
    then "已打开" ⧺ room ⧺ name
    else if act == Action.turn_off
    then "已关闭" ⧺ room ⧺ name
    else if act == Action.set_brightness
    then set_to (room ⧺ name ⧺ "亮度") s.brightness "%" "已调整"
    else if act == Action.set_temperature
    then set_to (room ⧺ name ⧺ "温度") s.temperature "度" "已调整"
    else if act == Action.set_mode
    then room ⧺ name ⧺ "已切换为" ⧺ label_of s.mode ⧺ "模式"
    else if act == Action.set_position
    then set_to (room ⧺ name ⧺ "开合度") s.position "%" "已调整"
    else room ⧺ name ⧺ "操作完成"

abbrev number_entry : String → Option ℤ → List (String × Json)
number_entry key none = []
number_entry key (some n) = (key, int n) ∷ []

-- The `params` of the MQTT payload.
unfoldable pub mqtt_params : ControlDeviceParams → List (String × Json)
mqtt_params p =
    number_entry "brightness" p.brightness
    ++ number_entry "temperature" p.temperature
    ++ (if p.mode == "" then [] else (("mode", str p.mode) ∷ []))
    ++ number_entry "position" p.position

abbrev pub publish : String → CommandPayload → M (Unit {0})
publish id payload w = (ok tt, record w { published = w.published ++ (id, payload) ∷ [] })

-- `publishCommandBestEffort`. What becomes of the message at the broker is ignored.
unfoldable pub publish_command_best_effort : DeviceService → ControlDeviceParams → M (Unit {0})
unfolding mqtt_params
publish_command_best_effort s p =
    if s.mqtt_pub
    then publish p.device_id (record { tool_id = ""; action = p.action; params = mqtt_params p })
    else pure tt

module _ ⦃c : Collation⦄ where
  abbrev pub stored :
      DeviceService
      → ControlDeviceParams
      → Device
      → DeviceState
      → Result (Unit {0})
      → M CommandReply
  stored s p device state (err e) = pure (refused ("状态更新失败: " ⧺ text_of e))
  stored s p device state (ok _) = publish_command_best_effort s p >>= λ _.
      pure (done (format_success_message device p.action state))

  abbrev pub update_for :
      DeviceService → ControlDeviceParams → Device → DeviceState → Option ℕ → M CommandReply
  update_for s p device state none = pure (refused "该设备尚未绑定到任何用户，请先在 App 中绑定")
  update_for s p device state (some owner) =
      try (update_device_state owner state) >>= stored s p device state

  -- `ExecuteControlDevice` after the parameters, the device and its state are there.
  unfoldable pub update_and_publish :
      DeviceService → ControlDeviceParams → Device → DeviceState → M CommandReply
  update_and_publish s p device state = update_for s p device state device.owner_id

  abbrev pub carried_out : DeviceService → ControlDeviceParams → Device → Applied → M CommandReply
  carried_out s p device (rejected message) = pure (refused message)
  carried_out s p device (applied state) = update_and_publish s p device state

  -- The action, and what follows it.
  unfoldable pub apply_to :
      DeviceService → ControlDeviceParams → Device → DeviceState → M CommandReply
  unfolding update_and_publish apply_action
  apply_to s p device state = carried_out s p device (apply_action state p)

  abbrev pub with_state :
      DeviceService → ControlDeviceParams → Device → Result DeviceState → M CommandReply
  with_state s p device (err e) = pure (refused ("获取设备状态失败: " ⧺ text_of e))
  with_state s p device (ok state) = apply_to s p device state

  abbrev pub with_device : DeviceService → ControlDeviceParams → Result Device → M CommandReply
  with_device s p (err e) = pure (refused ("设备不存在: " ⧺ p.device_id))
  with_device s p (ok device) = try (get_device_state p.device_id) >>= with_state s p device

  unfoldable pub control : DeviceService → ControlDeviceParams → M CommandReply
  unfolding apply_to
  control s p = try (get_device p.device_id) >>= with_device s p

  abbrev pub decoded : DeviceService → ControlDeviceParams → Option String → M CommandReply
  decoded s p (some t) = pure (refused ("参数解析失败: " ⧺ t))
  decoded s p none = if p.device_id == "" then pure (refused "缺少 device_id 参数") else control s p

  -- `ExecuteControlDevice`.
  unfoldable pub execute_control_device : DeviceService → Raw → M CommandReply
  unfolding control
  execute_control_device s raw = let (p, e) = unmarshal_control raw in decoded s p e
