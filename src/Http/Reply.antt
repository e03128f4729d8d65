-- ===== src/Http/Reply.antt =====
-- What a handler writes: the status and what its body holds. `writeAPIError` and `writeJSONError` of
-- server/internal/handler/auth.go, whose message is left out, and the decoding of a request's body.
use taffy_assistant.Base.{ℕ, String, Bool, false, Option, none, some, ℤ, List, if◌then◌else◌}
use taffy_assistant.Json.{
  Json, null, Raw, empty, names, into_string, into_bool, into_int_ptr, into_raw, unmarshal,
}
use taffy_assistant.Model.{User, Device, DeviceState, DeviceType, Scene}
use taffy_assistant.Service.Control.{CommandReply}

-- `BindableDeviceItem`; a bind code that is empty is left out of the JSON.
pub record BindableDeviceItem : Type 0 where
  pub device_id : String
  pub type : DeviceType
  pub name : String
  pub bind_code : String

pub data Reply : Type 0 where
  -- `writeAPIError`: the status and the code.
  api_error : ℕ → String → Reply
  -- 200 with `{"message":"ok"}` or `{"status":"ok"}`.
  done : Reply
  devices : List Device → Reply
  states : List DeviceState → Reply
  state : DeviceState → Reply
  bindable : List BindableDeviceItem → Reply
  -- 201 with the bound device.
  bound : Device → Reply
  scenes : List Scene → Reply
  scene : Scene → Reply
  -- 201 with the scene that was made.
  created : Scene → Reply
  -- A scene that could not be read again is written as `null`.
  no_scene : Reply
  results : List CommandReply → Reply
  profile : User → Reply
  -- A user that could not be read again is written as `null`.
  no_profile : Reply
  -- `TokenResponse`: the status, the access token and the seconds until it expires.
  token : ℕ → List ℕ → ℕ → Reply
  -- A handler that panics is recovered by net/http, which closes the connection.
  aborted : Reply

abbrev pub unauthorized : Reply
unauthorized = api_error 401 "unauthorized"

abbrev pub internal : Reply
internal = api_error 500 "internal_error"

-- `writeJSONError` has the message for a code.
abbrev pub internal_error : Reply
internal_error = api_error 500 "internal error"

-- `UpdateDeviceStateRequest`.
pub record UpdateDeviceStateRequest : Type 0 where
  pub device_id : String
  pub power : Option Bool
  pub brightness : Option ℤ
  pub temperature : Option ℤ
  pub mode : Option String
  pub position : Option ℤ

into_bool_ptr : Json → Option Bool → Option String → Option Bool × Option String
unfolding into_bool
into_bool_ptr null old e = (none, e)
into_bool_ptr v old e =
    let (b, e') =
      into_bool "struct field UpdateDeviceStateRequest.power" v
        (elim old [ none ↦ false | some b ↦ b ]) e in
    (some b, e')

into_string_ptr : Json → Option String → Option String → Option String × Option String
unfolding into_string
into_string_ptr null old e = (none, e)
into_string_ptr v old e =
    let (t, e') =
      into_string "struct field UpdateDeviceStateRequest.mode" v
        (elim old [ none ↦ "" | some t ↦ t ]) e in
    (some t, e')

state_field :
    String
    → Json
    → UpdateDeviceStateRequest
    → Option String
    → UpdateDeviceStateRequest × Option String
state_field key v r e =
    if names key "device_id"
    then (let (x, e') =
          into_string "struct field UpdateDeviceStateRequest.device_id" v r.device_id e in
        (record r { device_id = x }, e'))
    else if names key "power"
    then (let (x, e') = into_bool_ptr v r.power e in (record r { power = x }, e'))
    else if names key "brightness"
    then (let (x, e') =
          into_int_ptr "struct field UpdateDeviceStateRequest.brightness" v r.brightness e in
        (record r { brightness = x }, e'))
    else if names key "temperature"
    then (let (x, e') =
          into_int_ptr "struct field UpdateDeviceStateRequest.temperature" v r.temperature e in
        (record r { temperature = x }, e'))
    else if names key "mode"
    then (let (x, e') = into_string_ptr v r.mode e in (record r { mode = x }, e'))
    else if names key "position"
    then (let (x, e') =
          into_int_ptr "struct field UpdateDeviceStateRequest.position" v r.position e in
        (record r { position = x }, e'))
    else (r, e)

unfoldable pub decode_update : Raw → UpdateDeviceStateRequest × Option String
unfolding unmarshal state_field names into_string into_int_ptr into_bool_ptr into_string_ptr
decode_update = unmarshal "handler.UpdateDeviceStateRequest" state_field (record {
  device_id = "";
  power = none;
  brightness = none;
  temperature = none;
  mode = none;
  position = none;
})

-- `BindDeviceRequest`, and with its last two fields `RenameDeviceRequest`.
pub record BindDeviceRequest : Type 0 where
  pub device_id : String
  pub bind_code : String
  pub name : String
  pub room : String

bind_field : String → Json → BindDeviceRequest → Option String → BindDeviceRequest × Option String
bind_field key v r e =
    if names key "device_id"
    then (let (x, e') = into_string "struct field BindDeviceRequest.device_id" v r.device_id e in
        (record r { device_id = x }, e'))
    else if names key "bind_code"
    then (let (x, e') = into_string "struct field BindDeviceRequest.bind_code" v r.bind_code e in
        (record r { bind_code = x }, e'))
    else if names key "name"
    then (let (x, e') = into_string "struct field BindDeviceRequest.name" v r.name e in
        (record r { name = x }, e'))
    else if names key "room"
    then (let (x, e') = into_string "struct field BindDeviceRequest.room" v r.room e in
        (record r { room = x }, e'))
    else (r, e)

unfoldable pub decode_bind : Raw → BindDeviceRequest × Option String
unfolding unmarshal bind_field names into_string
decode_bind =
    unmarshal "handler.BindDeviceRequest" bind_field
      (record { device_id = ""; bind_code = ""; name = ""; room = "" })

pub record RenameDeviceRequest : Type 0 where
  pub name : String
  pub room : String

rename_field :
    String → Json → RenameDeviceRequest → Option String → RenameDeviceRequest × Option String
rename_field key v r e =
    if names key "name"
    then (let (x, e') = into_string "struct field RenameDeviceRequest.name" v r.name e in
        (record r { name = x }, e'))
    else if names key "room"
    then (let (x, e') = into_string "struct field RenameDeviceRequest.room" v r.room e in
        (record r { room = x }, e'))
    else (r, e)

unfoldable pub decode_rename : Raw → RenameDeviceRequest × Option String
unfolding unmarshal rename_field names into_string
decode_rename =
    unmarshal "handler.RenameDeviceRequest" rename_field (record { name = ""; room = "" })

-- `createSceneReq`.
pub record CreateSceneRequest : Type 0 where
  pub name : String
  pub command_list : Raw

create_field :
    String → Json → CreateSceneRequest → Option String → CreateSceneRequest × Option String
create_field key v r e =
    if names key "name"
    then (let (x, e') = into_string "struct field createSceneReq.name" v r.name e in
        (record r { name = x }, e'))
    else if names key "command_list"
    then (let (x, e') = into_raw v r.command_list e in (record r { command_list = x }, e'))
    else (r, e)

unfoldable pub decode_create : Raw → CreateSceneRequest × Option String
unfolding unmarshal create_field names into_string into_raw
decode_create =
    unmarshal "handler.createSceneReq" create_field (record { name = ""; command_list = empty })
