-- ===== src/Worker/Session.antt =====
-- `Session` of worker/internal/handler/session.go: the device context and the pending tool calls.
pub mod Pending
use taffy_assistant.Base.{
  String, Bool, true, false, Option, none, some, ℤ, pos, List, [], ◌∷◌, ◌==◌, is_none,
  if◌then◌else◌,
}
use taffy_assistant.Json.{
  Json, null, arr, obj, Items, nil, cons, Raw, names, into_string, into_bool, into_int,
  into_int_ptr, each_field, first, mismatch, unmarshal,
}
use taffy_assistant.Protocol.{DeviceContext, SceneContext}

pub record PendingToolCall : Type 0 where
  pub name : String
  pub arguments : String

pub record Session : Type 0 where
  pub devices : List DeviceContext
  pub scenes : List SceneContext
  pub tool_calls : List (String × PendingToolCall)

-- `NewSession`.
abbrev pub new_session : Session
new_session = record { devices = []; scenes = []; tool_calls = [] }

unfoldable pub lookup_call : String → List (String × PendingToolCall) → Option PendingToolCall
lookup_call id [] = none
lookup_call id ((k, p) ∷ rest) = if k == id then some p else lookup_call id rest

unfoldable pub delete_call :
    String → List (String × PendingToolCall) → List (String × PendingToolCall)
delete_call id [] = []
delete_call id ((k, p) ∷ rest) =
    let others = delete_call id rest in if k == id then others else (k, p) ∷ others

-- `RememberToolCall`.
unfoldable pub remember_tool_call : String → String → String → Session → Session
unfolding delete_call
remember_tool_call id name arguments s = record s {
  tool_calls = (id, record { name = name; arguments = arguments }) ∷ delete_call id s.tool_calls;
}

-- `PopToolCall`.
unfoldable pub pop_tool_call : String → Session → Option PendingToolCall × Session
unfolding lookup_call delete_call
pop_tool_call id s =
    (lookup_call id s.tool_calls, record s { tool_calls = delete_call id s.tool_calls })

-- Decoding a `DeviceInfoEvent`.
abbrev blank_device : DeviceContext
blank_device = record {
  device_id = "";
  name = "";
  type = "";
  room = "";
  power = false;
  brightness = none;
  temperature = none;
  mode = "";
  position = none;
}

device_field : String → Json → DeviceContext → Option String → DeviceContext × Option String
device_field key v d e =
    if names key "device_id"
    then (let (x, e') =
          into_string "struct field DeviceContext.devices.device_id" v d.device_id e in
        (record d { device_id = x }, e'))
    else if names key "name"
    then (let (x, e') = into_string "struct field DeviceContext.devices.name" v d.name e in
        (record d { name = x }, e'))
    else if names key "type"
    then (let (x, e') = into_string "struct field DeviceContext.devices.type" v d.type e in
        (record d { type = x }, e'))
    else if names key "room"
    then (let (x, e') = into_string "struct field DeviceContext.devices.room" v d.room e in
        (record d { room = x }, e'))
    else if names key "power"
    then (let (x, e') = into_bool "struct field DeviceContext.devices.power" v d.power e in
        (record d { power = x }, e'))
    else if names key "brightness"
    then (let (x, e') =
          into_int_ptr "struct field DeviceContext.devices.brightness" v d.brightness e in
        (record d { brightness = x }, e'))
    else if names key "temperature"
    then (let (x, e') =
          into_int_ptr "struct field DeviceContext.devices.temperature" v d.temperature e in
        (record d { temperature = x }, e'))
    else if names key "mode"
    then (let (x, e') = into_string "struct field DeviceContext.devices.mode" v d.mode e in
        (record d { mode = x }, e'))
    else if names key "position"
    then (let (x, e') = into_int_ptr "struct field DeviceContext.devices.position" v d.position e in
        (record d { position = x }, e'))
    else (d, e)

scene_field : String → Json → SceneContext → Option String → SceneContext × Option String
scene_field key v s e =
    if names key "scene_id"
    then (let (x, e') =
          into_int "struct field SceneContext.scenes.scene_id" "int64" v s.scene_id e in
        (record s { scene_id = x }, e'))
    else if names key "name"
    then (let (x, e') = into_string "struct field SceneContext.scenes.name" v s.name e in
        (record s { name = x }, e'))
    else (s, e)

-- A struct as an element of a slice.
unfoldable pub into_struct :
    {S : Type 0}
    → String
    → (String → Json → S → Option String → S × Option String)
    → S
    → Json
    → Option String
    → S × Option String
unfolding each_field first mismatch
into_struct type step blank (obj fs) e = each_field step fs blank e
into_struct type step blank null e = (blank, e)
into_struct type step blank v e = (blank, first e (mismatch v "struct field" type))

unfoldable pub into_items :
    {S : Type 0}
    → (Json → Option String → S × Option String)
    → Items
    → Option String
    → List S × Option String
into_items element nil e = ([], e)
into_items element (cons v rest) e =
    let (s, e') = element v e in let (ss, e'') = into_items element rest e' in (s ∷ ss, e'')

-- A slice of structs: `null` makes it nil.
unfoldable pub into_slice :
    {S : Type 0}
    → String
    → (Json → Option String → S × Option String)
    → Json
    → List S
    → Option String
    → List S × Option String
unfolding into_items first mismatch
into_slice type element (arr xs) old e = into_items element xs e
into_slice type element null old e = ([], e)
into_slice type element v old e = (old, first e (mismatch v "struct field" type))

-- `DeviceInfoEvent`, without its type.
pub record DeviceInfo : Type 0 where
  pub devices : List DeviceContext
  pub scenes : List SceneContext

info_field : String → Json → DeviceInfo → Option String → DeviceInfo × Option String
unfolding device_field scene_field
info_field key v i e =
    if names key "devices"
    then (let (x, e') =
          into_slice "[]protocol.DeviceContext"
            (into_struct "protocol.DeviceContext" device_field blank_device) v i.devices e in
        (record i { devices = x }, e'))
    else if names key "scenes"
    then (let (x, e') =
          into_slice "[]protocol.SceneContext"
            (into_struct "protocol.SceneContext" scene_field
              (record { scene_id = pos 0; name = "" }))
            v i.scenes e in
        (record i { scenes = x }, e'))
    else if names key "type"
    then (let (x, e') = into_string "struct field DeviceInfoEvent.type" v "" e in (i, e'))
    else (i, e)

unfoldable pub unmarshal_info : Raw → DeviceInfo × Option String
unfolding unmarshal info_field names into_slice into_struct into_string into_bool into_int
    into_int_ptr
unmarshal_info =
    unmarshal "protocol.DeviceInfoEvent" info_field (record { devices = []; scenes = [] })

-- `SetDeviceContext`: a frame that does not decode changes nothing.
unfoldable pub set_device_context : Raw → Session → Session
set_device_context raw s =
    let (info, e) = unmarshal_info raw in
    if is_none e then record s { devices = info.devices; scenes = info.scenes } else s
