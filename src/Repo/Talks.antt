-- ===== src/Repo/Talks.antt =====
-- Conversations, messages and commands: the first three repositories of
-- server/internal/repository/conversation.go
use taffy_assistant.Base.{
  ℕ, suc, String, Bool, true, Option, none, some, List, [], ◌∷◌, ◌++◌, eqb, if◌then◌else◌, select,
  update_rows, exists_row,
}
use taffy_assistant.Errors.{driver, wrap}
use taffy_assistant.Json.{Raw, doc}
use taffy_assistant.Model.{Conversation, Message, Command, CommandResult}
use taffy_assistant.Store.{Collation, Db, M, Result, ok, err, ◌>>=◌, wrapping, statement, now_of}
use taffy_assistant.Repo.Devices.{has_id}
use taffy_assistant.Repo.Users.{is_user}

abbrev pub is_conversation : ℕ → Conversation → Bool
is_conversation id v = eqb v.conversation_id id

abbrev pub is_message : ℕ → Message → Bool
is_message id m = eqb m.message_id id

abbrev pub is_command : ℕ → Command → Bool
is_command id x = eqb x.command_id id

module _ ⦃c : Collation⦄ where
  -- The foreign key of `conversations.device_id`.
  abbrev pub device_exists : Option String → Db → Bool
  device_exists none db = true
  device_exists (some id) db = exists_row (has_id id) db.devices

  unfoldable pub insert_conversation : ℕ → Option String → ℕ → Db → Result ℕ × Db
  insert_conversation user device now db =
      if exists_row (is_user user) db.users
      then (if device_exists device db
          then (
            ok db.next_conversation,
            record db {
              conversations =
                  db.conversations
                  ++ record {
                    conversation_id = db.next_conversation;
                    user_id = user;
                    device_id = device;
                    started_at = now;
                    ended_at = none;
                  }
                    ∷ [];
              next_conversation = suc db.next_conversation;
            },
          )
          else (
            err (driver "Error 1452: a foreign key constraint fails (conversations_ibfk_2)"),
            db,
          ))
      else (err (driver "Error 1452: a foreign key constraint fails (conversations_ibfk_1)"), db)

  -- `ConversationRepo.Create`.
  unfoldable pub create_conversation : ℕ → Option String → M ℕ
  unfolding insert_conversation statement
  create_conversation user device = do
    now ← now_of
    wrapping (wrap "insert conversation") (statement (insert_conversation user device now))

  -- A JSON column takes no malformed text.
  abbrev pub is_storable : Option Raw → Bool
  is_storable none = true
  is_storable (some (doc v)) = true
  is_storable (some _) = Bool.false

  unfoldable pub insert_command : Command → Db → Result ℕ × Db
  insert_command x db =
      if exists_row (is_message x.message_id) db.messages
      then (if exists_row (has_id x.device_id) db.devices
          then (if is_storable x.params
              then (
                ok db.next_command,
                record db {
                  commands =
                      db.commands
                      ++ record x { command_id = db.next_command; executed_at = none } ∷ [];
                  next_command = suc db.next_command;
                },
              )
              else (err (driver "Error 3140: Invalid JSON text"), db))
          else (err (driver "Error 1452: a foreign key constraint fails (commands_ibfk_2)"), db))
      else (err (driver "Error 1452: a foreign key constraint fails (commands_ibfk_1)"), db)

  -- `CommandRepo.Create`.
  unfoldable pub create_command : Command → M ℕ
  unfolding insert_command statement
  create_command x = wrapping (wrap "insert command") (statement (insert_command x))

-- `ConversationRepo.EndByID`.
unfoldable pub end_by_id : ℕ → M (Unit {0})
unfolding statement
end_by_id id = do
  now ← now_of
  wrapping (wrap "end conversation") (
      statement (λ db. (
        ok tt,
        record db {
          conversations =
              update_rows (is_conversation id) (λ v. record v { ended_at = some now })
                db.conversations;
        },
      )))

unfoldable pub insert_message : Message → Db → Result ℕ × Db
insert_message m db =
    if exists_row (is_conversation m.conversation_id) db.conversations
    then (
      ok db.next_message,
      record db {
        messages = db.messages ++ record m { message_id = db.next_message } ∷ [];
        next_message = suc db.next_message;
      },
    )
    else (err (driver "Error 1452: a foreign key constraint fails (messages_ibfk_1)"), db)

-- `MessageRepo.Create`.
unfoldable pub create_message : Message → M ℕ
unfolding insert_message statement
create_message m = wrapping (wrap "insert message") (statement (insert_message m))

-- `MessageRepo.ListByConversation`.
unfoldable pub list_by_conversation : ℕ → M (List Message)
unfolding statement
list_by_conversation id =
    wrapping (wrap "list messages")
      (statement (λ db. (ok (select (λ (m : Message). eqb m.conversation_id id) db.messages), db)))

-- `CommandRepo.UpdateResult`.
unfoldable pub update_result : ℕ → CommandResult → M (Unit {0})
unfolding statement
update_result id result = do
  now ← now_of
  wrapping (wrap "update command result") (
      statement (λ db. (
        ok tt,
        record db {
          commands =
              update_rows (is_command id)
                (λ x. record x { result = result; executed_at = some now }) db.commands;
        },
      )))
