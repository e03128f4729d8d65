-- ===== src/Http/Devices.antt =====
-- server/internal/handler/device.go. The user is the one of the request's context, if there is one;
-- a handler replies, and may hand a state change to the hub.
use taffy_assistant.Base.{
  ℕ, String, Bool, Option, none, some, List, map, ◌==◌, is_none, trim_space, if◌then◌else◌,
}
use taffy_assistant.Errors.{Error, device_not_found, not_device_owner, invalid_bind_code, root}
use taffy_assistant.Json.{Raw}
use taffy_assistant.Model.{Device, DeviceState}
use taffy_assistant.Store.{Collation, M, Result, ok, err, pure, ◌>>=◌, try}
use taffy_assistant.Service.Devices.{
  list_devices_by_owner, list_device_states_by_owner, get_device_state, update_device_state,
  bind_device, rename_device, unbind_device,
}
use taffy_assistant.Service.Devices
use taffy_assistant.Service.Sync.{or_old, or_old_ptr}
use taffy_assistant.Voice.Command.{StateChanged}
use taffy_assistant.Http.Reply.{
  Reply, api_error, done, devices, states, state, bindable, bound, unauthorized, internal,
  internal_error, BindableDeviceItem, UpdateDeviceStateRequest, decode_update, decode_bind,
  decode_rename,
}

-- The reply and the event for the hub.
abbrev pub Handled : Type 0
Handled = Reply × Option StateChanged

abbrev pub answered : Reply → M Handled
answered r = pure (r, none)

-- The replies to the errors of the services, by `errors.Is`.
abbrev pub state_error : Error → Reply
state_error e = elim (root e) [
  | device_not_found ↦ api_error 404 "device not found"
  | _ ↦ internal_error
]

abbrev pub update_error : Error → Reply
update_error e = elim (root e) [
  | not_device_owner ↦ api_error 403 "not device owner"
  | _ ↦ internal_error
]

abbrev pub bind_error : Error → Reply
bind_error e = elim (root e) [
  | invalid_bind_code ↦ api_error 409 "invalid_bind_code"
  | _ ↦ internal
]

abbrev pub owner_error : Error → Reply
owner_error e = elim (root e) [
  | device_not_found ↦ api_error 404 "device_not_found"
  | not_device_owner ↦ api_error 403 "not_device_owner"
  | _ ↦ internal
]

-- The fields that the request has, over the current state.
unfoldable pub merge_request : DeviceState → UpdateDeviceStateRequest → DeviceState
merge_request s r = record s {
  power = or_old r.power s.power;
  brightness = or_old_ptr r.brightness s.brightness;
  temperature = or_old_ptr r.temperature s.temperature;
  mode = or_old_ptr r.mode s.mode;
  position = or_old_ptr r.position s.position;
}

-- One entry of the list of bindable devices.
abbrev pub bindable_item : Bool → Device → BindableDeviceItem
bindable_item reveal d = record {
  device_id = d.device_id;
  type = d.type;
  name = d.name;
  bind_code = if reveal then d.bind_code else "";
}

abbrev pub listed : Result (List Device) → M Handled
listed (ok ds) = answered (devices ds)
listed (err e) = answered internal_error

abbrev pub listed_states : Result (List DeviceState) → M Handled
listed_states (ok ss) = answered (states ss)
listed_states (err e) = answered internal_error

abbrev pub read_state : Result DeviceState → M Handled
read_state (ok s) = answered (state s)
read_state (err e) = answered (state_error e)

abbrev pub bound_reply : Result Device → M Handled
bound_reply (ok d) = answered (bound d)
bound_reply (err e) = answered (bind_error e)

abbrev pub owner_reply : Result (Unit {0}) → M Handled
owner_reply (ok _) = answered done
owner_reply (err e) = answered (owner_error e)

abbrev pub listed_bindable : Bool → Result (List Device) → M Handled
listed_bindable reveal (ok ds) = answered (bindable (map (bindable_item reveal) ds))
listed_bindable reveal (err e) = answered internal

module _ ⦃c : Collation⦄ where
  -- `ListDevices`.
  unfoldable pub list_devices : Option ℕ → M Handled
  list_devices none = answered unauthorized
  list_devices (some user) = try (list_devices_by_owner user) >>= listed

  -- `ListDeviceStates`.
  unfoldable pub list_device_states : Option ℕ → M Handled
  list_device_states none = answered unauthorized
  list_device_states (some user) = try (list_device_states_by_owner user) >>= listed_states

  abbrev pub updated : Bool → ℕ → String → DeviceState → Result (Unit {0}) → M Handled
  updated hub user id s (err e) = answered (update_error e)
  updated hub user id s (ok _) =
      pure (done, if hub then some (record { user_id = user; device_id = id; state = s }) else none)

  abbrev pub merged : Bool → ℕ → UpdateDeviceStateRequest → Result DeviceState → M Handled
  merged hub user r (err e) = answered (state_error e)
  merged hub user r (ok s) =
      try (update_device_state user (merge_request s r))
      >>= updated hub user r.device_id (merge_request s r)

  -- `UpdateDeviceState`; `hub` says whether there is one.
  unfoldable pub update_state : Bool → Option ℕ → Raw → M Handled
  unfolding merge_request root
  update_state hub none body = answered unauthorized
  update_state hub (some user) body =
      let (r, e) = decode_update body in
      if is_none e
      then (if r.device_id == ""
          then answered (api_error 400 "device_id is required")
          else try (get_device_state r.device_id) >>= merged hub user r)
      else answered (api_error 400 "invalid request body")

  -- `GetDeviceState`.
  unfoldable pub get_state : String → M Handled
  unfolding root
  get_state id =
      if id == ""
      then answered (api_error 400 "device_id is required")
      else try (get_device_state id) >>= read_state

  -- `ListBindableDevices`; `reveal` is the query parameter.
  unfoldable pub list_bindable_devices : Option ℕ → String → M Handled
  list_bindable_devices none reveal = answered unauthorized
  list_bindable_devices (some user) reveal =
      try Devices.list_bindable >>= listed_bindable (reveal == "1")

  -- `BindDevice`.
  unfoldable pub bind : Option ℕ → Raw → M Handled
  unfolding root
  bind none body = answered unauthorized
  bind (some user) body =
      let (r, e) = decode_bind body in
      let id = trim_space r.device_id in
      let code = trim_space r.bind_code in
      if is_none e
      then (if id == ""
          then answered (api_error 400 "device_id_required")
          else if code == ""
          then answered (api_error 400 "bind_code_required")
          else try (bind_device user id code (trim_space r.name) (trim_space r.room))
            >>= bound_reply)
      else answered (api_error 400 "invalid_request_body")

  -- `RenameDevice`.
  unfoldable pub rename : Option ℕ → String → Raw → M Handled
  unfolding root
  rename none id body = answered unauthorized
  rename (some user) id body =
      let (r, e) = decode_rename body in
      let name = trim_space r.name in
      if id == ""
      then answered (api_error 400 "device_id_required")
      else if is_none e
      then (if name == ""
          then answered (api_error 400 "name_required")
          else try (rename_device user id name (trim_space r.room)) >>= owner_reply)
      else answered (api_error 400 "invalid_request_body")

  -- `UnbindDevice`.
  unfoldable pub unbind : Option ℕ → String → M Handled
  unfolding root
  unbind none id = answered unauthorized
  unbind (some user) id =
      if id == ""
      then answered (api_error 400 "device_id_required")
      else try (unbind_device user id) >>= owner_reply
