-- ===== src/Voice/Command.antt =====
-- A `device_command` of the worker: `handleDeviceCommand`, `broadcastStateChange` and
-- `sendCommandResult` of server/internal/handler/voice.go.
pub mod Audience
use taffy_assistant.Base.{
  ℕ, String, Bool, false, Option, none, some, List, [], ◌∷◌, ◌++◌, ◌==◌, ◌⧺◌, is_none,
  if◌then◌else◌,
}
use taffy_assistant.Json.{Raw, fields_of, get_string}
use taffy_assistant.Model.{Device, DeviceState}
use taffy_assistant.Protocol.{
  DeviceContext, DeviceCommandEvent, DeviceCommandResultEvent, unmarshal_command, unmarshal_control,
  event_type_device_command, event_type_device_command_result, function_control_device,
  function_activate_scene,
}
use taffy_assistant.Store.{Collation, World, M, Result, ok, err, pure, ◌>>=◌, try}
use taffy_assistant.Service.Devices.{DeviceService, get_device, get_device_state}
use taffy_assistant.Service.Control.{CommandReply, refused, execute_control_device}
use taffy_assistant.Service.Scenes.{execute_activate_scene}
use taffy_assistant.Voice.Session.{VoiceSession, Act, record_command, mark_result}

-- A message of a WebSocket: text, or binary with its bytes.
pub data Frame : Type 0 where
  text : Raw → Frame
  binary : List ℕ → Frame

-- What the server writes to the worker.
pub data ToWorker : Type 0 where
  forwarded : Frame → ToWorker
  device_info : List DeviceContext → ToWorker
  command_result : DeviceCommandResultEvent → ToWorker

-- `device_state_changed` for a user.
pub record StateChanged : Type 0 where
  pub user_id : ℕ
  pub device_id : String
  pub state : DeviceState

-- The parts of a `VoiceHandler` that may be missing: its device service and the hub.
pub record VoiceHandler : Type 0 where
  pub device_svc : Option DeviceService
  pub pub_hub : Bool

-- One session's line: what it keeps, the world, and what it has written so far, oldest first.
pub record Line : Type 0 where
  pub session : VoiceSession
  pub world : World
  pub to_worker : List ToWorker
  pub to_client : List Frame
  pub broadcasts : List StateChanged

abbrev pub acting : Act → Line → Line
acting f l = let (s, w) = f (l.session, l.world) in record l { session = s; world = w }

-- `isDeviceCommand`.
unfoldable pub is_device_command : Raw → Bool
is_device_command raw = elim (fields_of raw) [
  | none ↦ false
  | some ev ↦ get_string "type" ev == event_type_device_command
]

-- `sendCommandResult`. A write error is only logged.
unfoldable pub send_command_result : String → Bool → String → Line → Line
send_command_result tool success message l = record l {
  to_worker =
      l.to_worker
      ++ command_result (record {
        type = event_type_device_command_result;
        tool_id = tool;
        success = success;
        message = message;
      })
        ∷ [];
}

module _ ⦃c : Collation⦄ where
  abbrev pub dispatch : DeviceService → String → Raw → M CommandReply
  dispatch s function params =
      if function == function_control_device
      then execute_control_device s params
      else if function == function_activate_scene
      then execute_activate_scene s params
      else pure (refused ("未知的控制函数: " ⧺ function))

  -- The `switch` over the function. The services return no error.
  unfoldable pub execute : Option DeviceService → String → Raw → M CommandReply
  execute none function params =
      if function == function_control_device
      then pure (refused "数据库服务不可用")
      else if function == function_activate_scene
      then pure (refused "数据库服务不可用")
      else pure (refused ("未知的控制函数: " ⧺ function))
  execute (some s) function params = dispatch s function params

  abbrev state_change : String → Result Device → M (Option StateChanged)
  state_change id (err e) = pure none
  state_change id (ok device) = elim device.owner_id [
    | none ↦ pure none
    | some owner ↦ try (get_device_state id) >>= λ r. elim r [
      | err e ↦ pure none
      | ok state ↦ pure (some (record { user_id = owner; device_id = id; state = state }))
    ]
  ]

  -- What `broadcastStateChange` hands to the hub.
  unfoldable pub state_broadcast : VoiceHandler → Raw → M (Option StateChanged)
  state_broadcast h params =
      let (p, e) = unmarshal_control params in
      if h.pub_hub
      then (if is_none h.device_svc
          then pure none
          else if is_none e
          then (if p.device_id == ""
              then pure none
              else try (get_device p.device_id) >>= state_change p.device_id)
          else pure none)
      else pure none

  abbrev pub announced : Result (Option StateChanged) × World → Line → Line
  announced (ok (some b), w) l = record l { world = w; broadcasts = l.broadcasts ++ b ∷ [] }
  announced (ok none, w) l = record l { world = w }
  announced (err e, w) l = record l { world = w }

  -- `broadcastStateChange`.
  unfoldable pub broadcast_state_change : VoiceHandler → Raw → Line → Line
  broadcast_state_change h params l = announced (state_broadcast h params l.world) l

  abbrev pub reply_of : Result CommandReply × World → CommandReply × World
  reply_of (ok r, w) = (r, w)
  reply_of (err e, w) = (refused "", w)

  -- `handleDeviceCommand` from the execution on.
  unfoldable pub answer : VoiceHandler → DeviceCommandEvent → Line → Line
  unfolding mark_result
  answer h cmd l =
      let (r, w) = reply_of (execute h.device_svc cmd.function cmd.params l.world) in
      let sent = send_command_result cmd.tool_id r.success r.message (record l { world = w }) in
      let marked = acting (mark_result cmd.tool_id r.success) sent in
      if r.success
      then (if cmd.function == function_control_device
          then broadcast_state_change h cmd.params marked
          else marked)
      else marked

  abbrev pub handled : VoiceHandler → DeviceCommandEvent → Option String → Line → Line
  handled h cmd (some t) l = send_command_result "" false "指令解析失败" l
  handled h cmd none l = answer h cmd (acting (record_command cmd) l)

  -- `handleDeviceCommand`.
  unfoldable pub handle_device_command : VoiceHandler → Raw → Line → Line
  unfolding answer record_command
  handle_device_command h raw l = let (cmd, e) = unmarshal_command raw in handled h cmd e l
