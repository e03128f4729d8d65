-- ===== src/Worker/Orchestrate.antt =====
-- One session of the worker: worker/internal/handler/orchestrate.go. The goroutines that it starts
-- are jobs that run at any later time, each at once.
pub mod Calls
use taffy_assistant.Base.{
  ℕ, String, Bool, true, false, Option, none, some, List, [], ◌∷◌, ◌++◌, ◌==◌, ◌⧺◌, is_none,
  if◌then◌else◌,
}
use taffy_assistant.Json.{Json, obj, Fields, Raw, doc, fields_of, get_string}
use taffy_assistant.Protocol.{
  DeviceContext, SceneContext, DeviceCommandResultEvent, unmarshal_result, event_type_device_info,
  event_type_device_command_result, event_type_text_input, function_control_device,
}
use taffy_assistant.Worker.Config.{AppConfig, LlmProvider}
use taffy_assistant.Worker.Llm.{
  Answer, ok, err, Http, LlmResponse, LlmMessage, ToolCall, call_llm_with_tools,
  call_llm_second_round,
}
use taffy_assistant.Worker.Session.{
  Session, PendingToolCall, set_device_context, remember_tool_call, pop_tool_call,
}
use taffy_assistant.Worker.Asr.{as_map, translate_asr_event}
use taffy_assistant.Worker.Tts.{Wav, TtsReply, tts_audio}
use taffy_assistant.Voice.Command.{Frame, text, binary}

-- What the worker writes to the server.
pub data ToServer : Type 0 where
  pong : ToServer
  passed : Frame → ToServer
  asr_final : String → ToServer
  llm_result : String → ToServer
  llm_error : String → ToServer
  device_command : String → String → Json → ToServer
  audio : Wav → ToServer

-- A goroutine that has been started.
pub data Job : Type 0 where
  ask : String → List DeviceContext → List SceneContext → Job
  conclude : DeviceCommandResultEvent → Job
  speak : String → Job

pub record Desk : Type 0 where
  pub session : Session
  pub sent : List ToServer
  pub to_asr : List Frame
  pub jobs : List Job

abbrev pub send : ToServer → Desk → Desk
send m d = record d { sent = d.sent ++ m ∷ [] }

abbrev pub start : Job → Desk → Desk
start j d = record d { jobs = d.jobs ++ j ∷ [] }

-- `h.cfg != nil && len(h.cfg.LLM.Providers) > 0`.
abbrev pub has_llm : AppConfig → Bool
has_llm cfg = elim cfg.llm.providers [ [] ↦ false | p ∷ rest ↦ true ]

-- The question goes with the device context of this moment.
abbrev asked : String → Desk → Desk
asked said d = start (ask said d.session.devices d.session.scenes) d

abbrev on_text_input : AppConfig → String → Desk → Desk
on_text_input cfg said d =
    if said == ""
    then send (llm_result "") d
    else if has_llm cfg
    then asked said (send (asr_final said) d)
    else send (llm_error "LLM 未配置") (send (asr_final said) d)

abbrev on_result : Raw → Desk → Desk
on_result raw d = let (r, e) = unmarshal_result raw in if is_none e then start (conclude r) d else d

-- The frame made anew of the entries, `json.Marshal(ev)`.
abbrev remade : Fields → Raw
remade ev = doc (obj (as_map Fields.end ev))

-- `handleUpstreamControl`: the new state where the frame is taken.
unfoldable pub handle_upstream_control : AppConfig → Raw → Desk → Option Desk
unfolding as_map
handle_upstream_control cfg raw d = elim (fields_of raw) [
  | none ↦ none
  | some ev ↦
      let type = get_string "type" ev in
      if type == "ping"
      then some (send pong d)
      else if type == event_type_device_info
      then some (record d { session = set_device_context (remade ev) d.session })
      else if type == event_type_device_command_result
      then some (on_result (remade ev) d)
      else if type == event_type_text_input
      then some (on_text_input cfg (get_string "text" ev) d)
      else none
]

abbrev or_passed : Frame → Desk → Option Desk → Desk
or_passed f d none = record d { to_asr = d.to_asr ++ f ∷ [] }
or_passed f d (some d') = d'

-- A message of the server (`pumpUpstreamToASR`).
unfoldable pub from_server : AppConfig → Frame → Desk → Desk
unfolding handle_upstream_control
from_server cfg (binary bytes) d = record d { to_asr = d.to_asr ++ binary bytes ∷ [] }
from_server cfg (text raw) d = or_passed (text raw) d (handle_upstream_control cfg raw d)

abbrev heard : Fields → Desk → Desk
heard ev d =
    if get_string "type" ev == "asr_final"
    then (if get_string "text" ev == ""
        then send (llm_result "") d
        else asked (get_string "text" ev) d)
    else d

-- `maybeTriggerLLM`.
unfoldable pub maybe_trigger_llm : Raw → Desk → Desk
maybe_trigger_llm out d = elim (fields_of out) [ none ↦ d | some ev ↦ heard ev d ]

-- A message of the speech recognition (`pumpASRToUpstream`).
unfoldable pub from_asr : AppConfig → Frame → Desk → Desk
unfolding maybe_trigger_llm
from_asr cfg (binary bytes) d = send (passed (binary bytes)) d
from_asr cfg (text raw) d =
    let out = translate_asr_event raw in
    let passed_on : Desk = send (passed (text out)) d in
    if has_llm cfg then maybe_trigger_llm out passed_on else passed_on

-- encoding/json's reading of a text, which the arguments of a tool call are.
pub record Parser : Type 0 where
  pub parse : String → Raw

module _ ⦃j : Parser⦄ where
  -- The marshalling of a `DeviceCommandEvent` fails where its arguments are no JSON, and then nothing
  -- is written: the error is dropped.
  abbrev commanded : ToolCall → Raw → Desk → Desk
  commanded tc (doc args) d = send (device_command tc.id tc.function.name args) d
  commanded tc _ d = d

  -- The loop over the tool calls.
  unfoldable pub issue_tool_calls : List ToolCall → Desk → Desk
  unfolding remember_tool_call
  issue_tool_calls [] d = d
  issue_tool_calls (tc ∷ rest) d = issue_tool_calls rest (
      commanded tc (j.parse tc.function.arguments) (record d {
        session = remember_tool_call tc.id tc.function.name tc.function.arguments d.session;
      }))

  abbrev chosen : List ToolCall → String → Desk → Desk
  chosen [] content d = start (speak content) (send (llm_result content) d)
  chosen (tc ∷ rest) content d = issue_tool_calls (tc ∷ rest) d

  abbrev first_choice : List LlmMessage → Desk → Desk
  first_choice [] d = send (llm_result "") d
  first_choice (m ∷ rest) d = chosen m.tool_calls m.content d

  abbrev answered : Answer LlmResponse → Desk → Desk
  answered (err t) d = send (llm_error t) d
  answered (ok r) d = first_choice r.choices d

  -- `handleLLMWithTools`.
  unfoldable pub handle_llm_with_tools :
      AppConfig → Http → String → List DeviceContext → List SceneContext → Desk → Desk
  unfolding issue_tool_calls
  handle_llm_with_tools cfg http said devices scenes d =
      answered (call_llm_with_tools http cfg.llm said devices scenes) d

abbrev pub result_content : DeviceCommandResultEvent → String
result_content r =
    if r.success then (if r.message == "" then "执行成功" else r.message) else "执行失败: " ⧺ r.message

-- The pending call, or the default for a result that nothing waits for.
abbrev pub or_default : Option PendingToolCall → PendingToolCall
or_default none = record { name = function_control_device; arguments = "{}" }
or_default (some p) = p

abbrev concluded : Answer String → Desk → Desk
concluded (err t) d = send (llm_error t) d
concluded (ok reply) d = start (speak reply) (send (llm_result reply) d)

-- `handleCommandResult`.
unfoldable pub handle_command_result : AppConfig → Http → DeviceCommandResultEvent → Desk → Desk
unfolding pop_tool_call
handle_command_result cfg http r d =
    let (pending, s) = pop_tool_call r.tool_id d.session in
    let p = or_default pending in
    concluded
      (call_llm_second_round http cfg.llm (result_content r) r.tool_id p.name p.arguments s.devices
        s.scenes)
      (record d { session = s })

-- `synthesizeAndSendTTS`.
unfoldable pub synthesize_and_send_tts : AppConfig → (String → TtsReply) → String → Desk → Desk
unfolding tts_audio
synthesize_and_send_tts cfg service said d = elim (tts_audio cfg.tts_url service said) [
  | none ↦ d
  | some wav ↦ send (audio wav) d
]

module _ ⦃j : Parser⦄ where
  unfoldable pub run_job : AppConfig → Http → (String → TtsReply) → Job → Desk → Desk
  unfolding handle_llm_with_tools handle_command_result synthesize_and_send_tts
  run_job cfg http service (ask said devices scenes) d =
      handle_llm_with_tools cfg http said devices scenes d
  run_job cfg http service (conclude r) d = handle_command_result cfg http r d
  run_job cfg http service (speak said) d = synthesize_and_send_tts cfg service said d
