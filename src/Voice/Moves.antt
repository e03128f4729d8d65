-- ===== src/Voice/Moves.antt =====
-- A voice session, by what its statements do.
pub mod Lines
pub mod Entry
pub mod Wf
use taffy_assistant.Base.{
  ℕ, String, Bool, true, false, Option, none, some, List, [], ◌∷◌, ◌≡◌, refl, ◌⊎◌, inl, inr, arith,
  ◌==◌, eqb, if◌then◌else◌,
}
use taffy_assistant.Json.{Raw}
use taffy_assistant.Model.{DeviceState, Message, MessageRole, Command, CommandResult}
use taffy_assistant.Protocol.{
  DeviceCommandEvent, unmarshal_command, unmarshal_control, function_control_device,
}
use taffy_assistant.Store.{Collation, World, M, Result, ok, err}
use taffy_assistant.Store.Moves.{Preorder, Moves, moves_pure, moves_fail, moves_if, moves_wrapping}
use taffy_assistant.Repo.States
use taffy_assistant.Repo.Talks
use taffy_assistant.Service.Talks as TalkServices
use taffy_assistant.Service.Talks.{ConversationService}
use taffy_assistant.Service.Devices.{DeviceService}
use taffy_assistant.Service.Control.{CommandReply}
use taffy_assistant.Service.Moves.Scenes.{
  execute_control_device-Moves, execute_activate_scene-Moves,
}
use taffy_assistant.Voice.Session.{
  VoiceSession, Act, Task, nothing, append_user, append_assistant, start_session, end_session,
  run_task, mark_result, record_command,
}
use taffy_assistant.Voice.Command.{
  VoiceHandler, Line, acting, execute, state_broadcast, answer, handled, handle_device_command,
}
use taffy_assistant.Voice.Command
use taffy_assistant.Voice.Session

module _ ⦃c : Collation⦄ where
  -- What a voice session may write.
  pub record Talking (o : Preorder) : Type 0 where
    pub upsert_state : (s : DeviceState) → Moves o (States.upsert s)
    pub insert_conversation :
        (user : ℕ) (device : Option String) → Moves o (Talks.create_conversation user device)
    pub end_conversation : (id : ℕ) → Moves o (Talks.end_by_id id)
    pub insert_message : (m : Message) → Moves o (Talks.create_message m)
    pub insert_command : (x : Command) → Moves o (Talks.create_command x)
    pub update_result : (id : ℕ) (r : CommandResult) → Moves o (Talks.update_result id r)

module _ ⦃c : Collation⦄ {o : Preorder} (h : Talking o) where
  append_message-Moves :
      (s : ConversationService) (id : ℕ) (role : MessageRole) (content : String)
      → Moves o (TalkServices.append_message s id role content)
  unfolding TalkServices.append_message
  append_message-Moves s id role content =
      moves_if (TalkServices.enabled s) (moves_if (eqb id 0) moves_fail (h.insert_message _))
        moves_fail

  end_conversation-Moves :
      (s : ConversationService) (id : ℕ) → Moves o (TalkServices.end_conversation s id)
  unfolding TalkServices.end_conversation
  end_conversation-Moves s id =
      moves_if (TalkServices.enabled s) (moves_if (eqb id 0) moves_pure (h.end_conversation id))
        moves_pure

  mark_command_result-Moves :
      (s : ConversationService) (id : ℕ) (success : Bool)
      → Moves o (TalkServices.mark_command_result s id success)
  unfolding TalkServices.mark_command_result
  mark_command_result-Moves s id success =
      moves_if (TalkServices.enabled s)
        (moves_if (eqb id 0) moves_pure (h.update_result id (TalkServices.outcome_of success)))
        moves_pure

  start_conversation-Moves :
      (s : ConversationService) (user : ℕ) (device : String)
      → Moves o (TalkServices.start_conversation s user device)
  unfolding TalkServices.start_conversation
  start_conversation-Moves s user device =
      moves_if _ (moves_wrapping _ (h.insert_conversation user _)) moves_fail

  append_command-Moves :
      (s : ConversationService) (message : ℕ) (device action : String) (params : Raw)
      → Moves o (TalkServices.append_command s message device action params)
  unfolding TalkServices.append_command
  append_command-Moves s message device action params =
      moves_if (TalkServices.enabled s) (moves_if (eqb message 0) moves_fail (h.insert_command _))
        moves_fail

  start-world :
      (user : ℕ) (device : String) (s : VoiceSession) (w : World)
      → ((start_session user device (s, w)).1 ≡ w)
        ⊎ ((start_session user device (s, w)).1
            ≡ (TalkServices.start_conversation s.conv user device w).1)
  unfolding start_session
  start-world user device s w = ground arith

  end-world :
      (s : VoiceSession) (w : World)
      → ((end_session (s, w)).1 ≡ w)
        ⊎ ((end_session (s, w)).1 ≡ (TalkServices.end_conversation s.conv s.conversation_id w).1)
  unfolding end_session
  end-world s w = ground arith

  mark-world :
      (tool : String) (success : Bool) (s : VoiceSession) (w : World)
      → ((mark_result tool success (s, w)).1 ≡ w)
        ⊎ ((mark_result tool success (s, w)).1
            ≡ (TalkServices.mark_command_result s.conv
                (Session.command_of tool s.cmd_by_tool_id)
                success
                w).1)
  unfolding mark_result
  mark-world tool success s w = ground arith

  -- A run that ends where another one does, or that does not begin.
  either : (w x y : World) → (x ≡ w) ⊎ (x ≡ y) → o.rel w.db y.db → o.rel w.db x.db
  either w x y (inl same) k = rw same (o.stay w.db)
  either w x y (inr other) k = rw other k

  abbrev pub Acts : Act → Type 0
  Acts f = (s : VoiceSession) (w : World) → o.rel w.db (f (s, w)).1.db

  pub start_session-Moves : (user : ℕ) (device : String) → Acts (start_session user device)
  start_session-Moves user device s w =
      either w _ _ (start-world user device s w)
        ((start_conversation-Moves s.conv user device).along w)

  pub end_session-Moves : Acts end_session
  end_session-Moves s w =
      either w _ _ (end-world s w) ((end_conversation-Moves s.conv s.conversation_id).along w)

  pub mark_result-Moves : (tool : String) (success : Bool) → Acts (mark_result tool success)
  mark_result-Moves tool success s w = either w _ _ (mark-world tool success s w) (
      (mark_command_result-Moves s.conv (Session.command_of tool s.cmd_by_tool_id) success).along w)

  record-world :
      (cmd : DeviceCommandEvent) (s : VoiceSession) (w : World)
      → ((record_command cmd (s, w)).1 ≡ w)
        ⊎ (let (p, e) = unmarshal_control cmd.params in
            (record_command cmd (s, w)).1
            ≡ (TalkServices.append_command s.conv s.last_user_message_id p.device_id p.action
                cmd.params w).1)
  unfolding record_command
  record-world cmd s w = ground arith

  pub record_command-Moves : (cmd : DeviceCommandEvent) → Acts (record_command cmd)
  record_command-Moves cmd s w =
      either w _ _ (record-world cmd s w)
        ((append_command-Moves s.conv s.last_user_message_id _ _ cmd.params).along w)

  set_user_message-world :
      (s : VoiceSession) (x : Result ℕ × World) → (Session.set_user_message s x).1 ≡ x.1
  set_user_message-world s (ok id, w) = refl
  set_user_message-world s (err e, w) = refl

  pub run_task-Moves : (t : Task) → Acts (run_task t)
  unfolding run_task TalkServices.append_user_message TalkServices.append_assistant_message
  run_task-Moves nothing s w = o.stay w.db
  run_task-Moves (append_user id t) s w =
      rw (set_user_message-world s (TalkServices.append_message s.conv id MessageRole.user t w))
        ((append_message-Moves s.conv id MessageRole.user t).along w)
  run_task-Moves (append_assistant id t) s w =
      (append_message-Moves s.conv id MessageRole.assistant t).along w
