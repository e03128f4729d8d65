-- ===== src/Service/Talks.antt =====
-- server/internal/service/conversation.go. The methods run on a service whose three repositories are
-- there (`Enabled`); the guard for a service that lacks one is the caller's `enabled`.
use taffy_assistant.Base.{ℕ, String, Bool, false, Option, none, some, ◌==◌, eqb, if◌then◌else◌}
use taffy_assistant.Errors.{wrap, conversation_disabled}
use taffy_assistant.Json.{Raw, empty, malformed, doc}
use taffy_assistant.Model.{MessageRole, user, assistant, CommandResult, pending, success, failure}
use taffy_assistant.Store.{Collation, M, pure, fail, wrapping}
use taffy_assistant.Repo.Talks

-- `ConversationService`: are the three repositories there? A nil service is one without them.
pub record ConversationService : Type 0 where
  pub conv_repo : Bool
  pub msg_repo : Bool
  pub cmd_repo : Bool

-- `Enabled`.
unfoldable pub enabled : ConversationService → Bool
enabled s = if s.conv_repo then (if s.msg_repo then s.cmd_repo else false) else false

-- `appendMessage`.
unfoldable pub append_message : ConversationService → ℕ → MessageRole → String → M ℕ
unfolding enabled
append_message s conversation role content =
    if enabled s
    then (if eqb conversation 0
        then fail conversation_disabled
        else Talks.create_message (record {
          message_id = 0;
          conversation_id = conversation;
          role = role;
          content = content;
          audio_url = "";
        }))
    else fail conversation_disabled

-- `AppendUserMessage`.
unfoldable pub append_user_message : ConversationService → ℕ → String → M ℕ
unfolding append_message
append_user_message s conversation content = append_message s conversation user content

-- `AppendAssistantMessage`.
unfoldable pub append_assistant_message : ConversationService → ℕ → String → M ℕ
unfolding append_message
append_assistant_message s conversation content = append_message s conversation assistant content

-- `EndConversation`.
unfoldable pub end_conversation : ConversationService → ℕ → M (Unit {0})
unfolding enabled
end_conversation s conversation =
    if enabled s
    then (if eqb conversation 0 then pure tt else Talks.end_by_id conversation)
    else pure tt

abbrev pub outcome_of : Bool → CommandResult
outcome_of ok = if ok then success else failure

-- `MarkCommandResult`.
unfoldable pub mark_command_result : ConversationService → ℕ → Bool → M (Unit {0})
unfolding enabled
mark_command_result s command ok =
    if enabled s
    then (if eqb command 0 then pure tt else Talks.update_result command (outcome_of ok))
    else pure tt

-- `len(rawParams) > 0`.
abbrev pub stored_params : Raw → Option Raw
stored_params empty = none
stored_params (malformed t) = some (malformed t)
stored_params (doc v) = some (doc v)

module _ ⦃c : Collation⦄ where
  -- `StartConversation`.
  unfoldable pub start_conversation : ConversationService → ℕ → String → M ℕ
  unfolding enabled
  start_conversation s user_id device =
      if enabled s
      then wrapping (wrap "start conversation")
          (Talks.create_conversation user_id (if device == "" then none else some device))
      else fail conversation_disabled

  -- `AppendCommand`.
  unfoldable pub append_command : ConversationService → ℕ → String → String → Raw → M ℕ
  unfolding enabled
  append_command s message device action params =
      if enabled s
      then (if eqb message 0
          then fail conversation_disabled
          else Talks.create_command (record {
            command_id = 0;
            message_id = message;
            device_id = device;
            action = action;
            params = stored_params params;
            result = pending;
            executed_at = none;
          }))
      else fail conversation_disabled
