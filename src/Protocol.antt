-- ===== src/Protocol.antt =====
-- The words and structs that server and worker share: pkg/protocol/events.go.
pub mod Action
use taffy_assistant.Base.{
  String, Bool, true, false, Option, none, some, ℤ, pos, List, [], ◌∷◌, ◌==◌, ◌⧺◌, if◌then◌else◌,
}
use taffy_assistant.Json.{
  Json, Raw, empty, names, into_string, into_bool, into_int, into_int_ptr, into_raw, unmarshal,
}

abbrev pub event_type_device_info : String
event_type_device_info = "device_info"

abbrev pub event_type_device_command : String
event_type_device_command = "device_command"

abbrev pub event_type_device_command_result : String
event_type_device_command_result = "device_command_result"

abbrev pub event_type_text_input : String
event_type_text_input = "text_input"

abbrev pub function_control_device : String
function_control_device = "control_device"

abbrev pub function_activate_scene : String
function_activate_scene = "activate_scene"

abbrev pub all_aircon_modes : List String
all_aircon_modes = "cool" ∷ "heat" ∷ "auto" ∷ "fan" ∷ "dry" ∷ []

-- The label that the map holds for a mode.
unfoldable pub aircon_mode_label : String → Option String
aircon_mode_label mode =
    if mode == "cool"
    then some "制冷"
    else if mode == "heat"
    then some "制热"
    else if mode == "auto"
    then some "自动"
    else if mode == "fan"
    then some "送风"
    else if mode == "dry"
    then some "除湿"
    else none

pub record DeviceContext : Type 0 where
  pub device_id : String
  pub name : String
  pub type : String
  pub room : String
  pub power : Bool
  pub brightness : Option ℤ
  pub temperature : Option ℤ
  pub mode : String
  pub position : Option ℤ

pub record SceneContext : Type 0 where
  pub scene_id : ℤ
  pub name : String

pub record ControlDeviceParams : Type 0 where
  pub device_id : String
  pub action : String
  pub brightness : Option ℤ
  pub temperature : Option ℤ
  pub mode : String
  pub position : Option ℤ

pub record DeviceCommandEvent : Type 0 where
  pub type : String
  pub tool_id : String
  pub function : String
  pub params : Raw

pub record DeviceCommandResultEvent : Type 0 where
  pub type : String
  pub tool_id : String
  pub success : Bool
  pub message : String

-- One entry of a `control_device` object.
control_field :
    String → Json → ControlDeviceParams → Option String → ControlDeviceParams × Option String
control_field key v p e =
    if names key "device_id"
    then (let (x, e') = into_string "struct field ControlDeviceParams.device_id" v p.device_id e in
        (record p { device_id = x }, e'))
    else if names key "action"
    then (let (x, e') = into_string "struct field ControlDeviceParams.action" v p.action e in
        (record p { action = x }, e'))
    else if names key "brightness"
    then (let (x, e') =
          into_int_ptr "struct field ControlDeviceParams.brightness" v p.brightness e in
        (record p { brightness = x }, e'))
    else if names key "temperature"
    then (let (x, e') =
          into_int_ptr "struct field ControlDeviceParams.temperature" v p.temperature e in
        (record p { temperature = x }, e'))
    else if names key "mode"
    then (let (x, e') = into_string "struct field ControlDeviceParams.mode" v p.mode e in
        (record p { mode = x }, e'))
    else if names key "position"
    then (let (x, e') = into_int_ptr "struct field ControlDeviceParams.position" v p.position e in
        (record p { position = x }, e'))
    else (p, e)

abbrev pub no_params : ControlDeviceParams
no_params = record {
  device_id = "";
  action = "";
  brightness = none;
  temperature = none;
  mode = "";
  position = none;
}

unfoldable pub unmarshal_control : Raw → ControlDeviceParams × Option String
unfolding unmarshal control_field names into_string into_int_ptr
unmarshal_control = unmarshal "protocol.ControlDeviceParams" control_field no_params

-- `struct { SceneID int64 }` of `ExecuteActivateScene`, and `ActivateSceneParams`.
scene_field : String → Json → ℤ → Option String → ℤ × Option String
scene_field key v n e =
    if names key "scene_id" then into_int "struct field .scene_id" "int64" v n e else (n, e)

unfoldable pub unmarshal_scene : Raw → ℤ × Option String
unfolding unmarshal scene_field names into_int
unmarshal_scene = unmarshal "struct { SceneID int64 \"json:\\\"scene_id\\\"\" }" scene_field (pos 0)

command_field :
    String → Json → DeviceCommandEvent → Option String → DeviceCommandEvent × Option String
command_field key v c e =
    if names key "type"
    then (let (x, e') = into_string "struct field DeviceCommandEvent.type" v c.type e in
        (record c { type = x }, e'))
    else if names key "tool_id"
    then (let (x, e') = into_string "struct field DeviceCommandEvent.tool_id" v c.tool_id e in
        (record c { tool_id = x }, e'))
    else if names key "function"
    then (let (x, e') = into_string "struct field DeviceCommandEvent.function" v c.function e in
        (record c { function = x }, e'))
    else if names key "params"
    then (let (x, e') = into_raw v c.params e in (record c { params = x }, e'))
    else (c, e)

unfoldable pub unmarshal_command : Raw → DeviceCommandEvent × Option String
unfolding unmarshal command_field names into_string into_raw
unmarshal_command =
    unmarshal "protocol.DeviceCommandEvent" command_field
      (record { type = ""; tool_id = ""; function = ""; params = empty })

result_field :
    String
    → Json
    → DeviceCommandResultEvent
    → Option String
    → DeviceCommandResultEvent × Option String
result_field key v r e =
    if names key "type"
    then (let (x, e') = into_string "struct field DeviceCommandResultEvent.type" v r.type e in
        (record r { type = x }, e'))
    else if names key "tool_id"
    then (let (x, e') = into_string "struct field DeviceCommandResultEvent.tool_id" v r.tool_id e in
        (record r { tool_id = x }, e'))
    else if names key "success"
    then (let (x, e') = into_bool "struct field DeviceCommandResultEvent.success" v r.success e in
        (record r { success = x }, e'))
    else if names key "message"
    then (let (x, e') = into_string "struct field DeviceCommandResultEvent.message" v r.message e in
        (record r { message = x }, e'))
    else (r, e)

unfoldable pub unmarshal_result : Raw → DeviceCommandResultEvent × Option String
unfolding unmarshal result_field names into_string into_bool
unmarshal_result =
    unmarshal "protocol.DeviceCommandResultEvent" result_field
      (record { type = ""; tool_id = ""; success = false; message = "" })
