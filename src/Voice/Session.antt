-- ===== src/Voice/Session.antt =====
-- `voiceSession` (server/internal/handler/voice_session.go): what a session writes to the history.
use taffy_assistant.Base.{
  ℕ, String, Bool, Option, none, some, List, [], ◌∷◌, ◌==◌, eqb, if◌then◌else◌,
}
use taffy_assistant.Json.{Raw, Fields, fields_of, get_string}
use taffy_assistant.Protocol.{DeviceCommandEvent, unmarshal_control}
use taffy_assistant.Store.{Collation, World, Result, ok, err}
use taffy_assistant.Service.Talks.{
  ConversationService, enabled, start_conversation, end_conversation, append_user_message,
  append_assistant_message, append_command, mark_command_result,
}

-- The `conversationID`, `lastUserMessageID` and `cmdByToolID` of a session, and its service.
pub record VoiceSession : Type 0 where
  pub conv : ConversationService
  pub conversation_id : ℕ
  pub last_user_message_id : ℕ
  pub cmd_by_tool_id : List (String × ℕ)

-- `newVoiceSession`.
unfoldable pub new_voice_session : ConversationService → VoiceSession
new_voice_session conv = record {
  conv = conv;
  conversation_id = 0;
  last_user_message_id = 0;
  cmd_by_tool_id = [];
}

-- `m[key]` of a Go map: 0 where there is no entry.
unfoldable pub command_of : String → List (String × ℕ) → ℕ
command_of key [] = 0
command_of key ((k, n) ∷ rest) = if k == key then n else command_of key rest

-- `delete(m, key)`.
unfoldable pub remove_key : String → List (String × ℕ) → List (String × ℕ)
remove_key key [] = []
remove_key key ((k, n) ∷ rest) =
    let others = remove_key key rest in if k == key then others else (k, n) ∷ others

-- A session acts on the world and on itself; no method returns an error.
abbrev pub Act : Type 0
Act = VoiceSession × World → VoiceSession × World

abbrev pub set_conversation : VoiceSession → Result ℕ × World → VoiceSession × World
set_conversation s (ok id, w) = (record s { conversation_id = id }, w)
set_conversation s (err e, w) = (s, w)

abbrev pub set_user_message : VoiceSession → Result ℕ × World → VoiceSession × World
set_user_message s (ok id, w) = (record s { last_user_message_id = id }, w)
set_user_message s (err e, w) = (s, w)

abbrev pub set_command : String → VoiceSession → Result ℕ × World → VoiceSession × World
set_command tool s (ok id, w) =
    (record s { cmd_by_tool_id = (tool, id) ∷ remove_key tool s.cmd_by_tool_id }, w)
set_command tool s (err e, w) = (s, w)

abbrev pub ignore : {A : Type 0} → VoiceSession → Result A × World → VoiceSession × World
ignore s (r, w) = (s, w)

-- `end`.
unfoldable pub end_session : Act
unfolding enabled
end_session (s, w) =
    if eqb s.conversation_id 0
    then (s, w)
    else if enabled s.conv
    then ignore s (end_conversation s.conv s.conversation_id w)
    else (s, w)

-- What `recordWorkerEvent` starts in the background.
pub data Task : Type 0 where
  nothing : Task
  append_user : ℕ → String → Task
  append_assistant : ℕ → String → Task

abbrev pub text_task : ℕ → String → String → Task
text_task conversation type text =
    if type == "asr_final"
    then append_user conversation text
    else if type == "llm_result"
    then append_assistant conversation text
    else nothing

abbrev pub event_task : ℕ → Option Fields → Task
event_task conversation none = nothing
event_task conversation (some ev) =
    if get_string "text" ev == ""
    then nothing
    else if eqb conversation 0
    then nothing
    else text_task conversation (get_string "type" ev) (get_string "text" ev)

-- `recordWorkerEvent`.
unfoldable pub record_worker_event : VoiceSession → Raw → Task
unfolding enabled
record_worker_event s data_frame =
    if enabled s.conv then event_task s.conversation_id (fields_of data_frame) else nothing

-- `appendUser` and `appendAssistant`.
unfoldable pub run_task : Task → Act
run_task nothing (s, w) = (s, w)
run_task (append_user conversation text) (s, w) =
    set_user_message s (append_user_message s.conv conversation text w)
run_task (append_assistant conversation text) (s, w) =
    ignore s (append_assistant_message s.conv conversation text w)

-- `markCommandResult`.
unfoldable pub mark_result : String → Bool → Act
unfolding enabled command_of remove_key
mark_result tool success (s, w) =
    let id = command_of tool s.cmd_by_tool_id in
    let s' : VoiceSession = record s { cmd_by_tool_id = remove_key tool s.cmd_by_tool_id } in
    if enabled s.conv
    then (if eqb id 0 then (s', w) else ignore s' (mark_command_result s.conv id success w))
    else (s, w)

module _ ⦃c : Collation⦄ where
  -- `start`.
  unfoldable pub start_session : ℕ → String → Act
  unfolding enabled
  start_session user device (s, w) =
      if enabled s.conv
      then (if eqb user 0
          then (s, w)
          else set_conversation s (start_conversation s.conv user device w))
      else (s, w)

  -- `recordCommand`. An error of `json.Unmarshal` is ignored, what it filled in is kept.
  unfoldable pub record_command : DeviceCommandEvent → Act
  unfolding enabled remove_key
  record_command cmd (s, w) =
      let (p, e) = unmarshal_control cmd.params in
      if enabled s.conv
      then (if eqb s.last_user_message_id 0
          then (s, w)
          else set_command cmd.tool_id s
              (append_command s.conv s.last_user_message_id p.device_id p.action cmd.params w))
      else (s, w)
