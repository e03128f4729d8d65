-- ===== src/Voice/Moves/Wf.antt =====
-- The statements that a voice session may run keep the tables well formed.
use taffy_assistant.Base.{
  ℕ, suc, String, true, Option, none, some, List, [], ◌∷◌, ◌++◌, ◌≡◌, refl, sym, ◌∙◌, ◌⊎◌, inl, inr,
  arith, exists_row, update_rows,
}
use taffy_assistant.Model.{Conversation, Message, Command, CommandResult}
use taffy_assistant.Store.{Collation, Db, ok}
use taffy_assistant.Store.Moves.{Moves, moves_wrapping, moves_statement}
use taffy_assistant.Repo.Users.{is_user, of_conversations, of_messages}
use taffy_assistant.Repo.Devices.{has_id}
use taffy_assistant.Repo.Talks.{
  insert_conversation, insert_message, insert_command, is_conversation, is_command,
}
use taffy_assistant.Repo.Talks
use taffy_assistant.Repo.Wf.{device_in}
use taffy_assistant.Repo.Wf.Talks.{
  IsWf-new_conversation, IsWf-changed_conversations, IsWf-new_message, IsWf-new_command,
  IsWf-changed_commands,
}
use taffy_assistant.Service.Moves.Wf.{well_formed, upsert-Wf}
use taffy_assistant.Voice.Moves.{Talking}

-- The two ways to ask whether the row of a key is there.
conversation_known :
    (m : Message) (vs : List Conversation)
    → exists_row (Talks.is_conversation m.conversation_id) vs ≡ of_conversations vs m
unfolding exists_row
conversation_known m [] = refl
conversation_known m (v ∷ vs) = ground (arith, conversation_known m vs)

message_known :
    (x : Command) (ms : List Message)
    → exists_row (Talks.is_message x.message_id) ms ≡ of_messages ms x
unfolding exists_row
message_known x [] = refl
message_known x (m ∷ ms) = ground (arith, message_known x ms)

module _ ⦃c : Collation⦄ where
  -- The row of a new conversation.
  abbrev begun : ℕ → Option String → ℕ → Db → Conversation
  begun user device now d = record {
    conversation_id = d.next_conversation;
    user_id = user;
    device_id = device;
    started_at = now;
    ended_at = none;
  }

  device_known : (o : Option String) (d : Db) → Talks.device_exists o d ≡ device_in o d.devices
  device_known none d = refl
  device_known (some id) d = refl

  insert_conversation-db :
      (user : ℕ) (device : Option String) (now : ℕ) (d : Db)
      → ((insert_conversation user device now d).1 ≡ d)
        ⊎ ((exists_row (is_user user) d.users ≡ true)
            × (Talks.device_exists device d ≡ true)
            × ((insert_conversation user device now d).1 ≡ record d {
              conversations = d.conversations ++ begun user device now d ∷ [];
              next_conversation = suc d.next_conversation;
            }))
  unfolding insert_conversation
  insert_conversation-db user device now d = ground arith

  create_conversation-Wf :
      (user : ℕ) (device : Option String)
      → Moves well_formed (Talks.create_conversation user device)
  unfolding Talks.create_conversation
  create_conversation-Wf user device = record {
    along = λ w.
        (moves_wrapping {o = well_formed} _ (
            moves_statement (insert_conversation user device w.now) (λ d k.
              elim (insert_conversation-db user device w.now d) [
                | inl same ↦ rw same k
                | inr (known, there, new) ↦ rw new (
                    IsWf-new_conversation (begun user device w.now d) (suc d.next_conversation) d
                      known (sym (device_known device d) ∙ there) k)
              ]))).along
          w;
  }

  end_by_id-Wf : (id : ℕ) → Moves well_formed (Talks.end_by_id id)
  unfolding Talks.end_by_id
  end_by_id-Wf id = record {
    along = λ w.
        (moves_wrapping {o = well_formed} _ (
            moves_statement
              (λ d. (
                ok tt,
                record d {
                  conversations =
                      update_rows (is_conversation id) (λ v. record v { ended_at = some w.now })
                        d.conversations;
                },
              ))
              (λ d k.
                IsWf-changed_conversations (is_conversation id)
                  (λ v. record v { ended_at = some w.now }) d (λ v. refl) (λ v. refl) (λ v. refl)
                  k))).along
          w;
  }

  insert_message-db :
      (m : Message) (d : Db)
      → ((insert_message m d).1 ≡ d)
        ⊎ ((of_conversations d.conversations m ≡ true)
            × ((insert_message m d).1 ≡ record d {
              messages = d.messages ++ record m { message_id = d.next_message } ∷ [];
              next_message = suc d.next_message;
            }))
  unfolding insert_message
  insert_message-db m d = ground (arith, conversation_known m d.conversations)

  create_message-Wf : (m : Message) → Moves well_formed (Talks.create_message m)
  unfolding Talks.create_message
  create_message-Wf m = moves_wrapping _ (
      moves_statement (insert_message m) (λ d k. elim (insert_message-db m d) [
        | inl same ↦ rw same k
        | inr (known, new) ↦ rw new (
            IsWf-new_message (record m { message_id = d.next_message }) (suc d.next_message) d known
              k)
      ]))

  insert_command-db :
      (x : Command) (d : Db)
      → ((insert_command x d).1 ≡ d)
        ⊎ ((of_messages d.messages x ≡ true)
            × (exists_row (has_id x.device_id) d.devices ≡ true)
            × ((insert_command x d).1 ≡ record d {
              commands =
                  d.commands ++ record x { command_id = d.next_command; executed_at = none } ∷ [];
              next_command = suc d.next_command;
            }))
  unfolding insert_command
  insert_command-db x d = ground (arith, message_known x d.messages)

  create_command-Wf : (x : Command) → Moves well_formed (Talks.create_command x)
  unfolding Talks.create_command
  create_command-Wf x = moves_wrapping _ (
      moves_statement (insert_command x) (λ d k. elim (insert_command-db x d) [
        | inl same ↦ rw same k
        | inr (known, there, new) ↦ rw new (
            IsWf-new_command (record x { command_id = d.next_command; executed_at = none })
              (suc d.next_command) d known there k)
      ]))

  update_result-Wf : (id : ℕ) (r : CommandResult) → Moves well_formed (Talks.update_result id r)
  unfolding Talks.update_result
  update_result-Wf id r = record {
    along = λ w.
        (moves_wrapping {o = well_formed} _ (
            moves_statement
              (λ d. (
                ok tt,
                record d {
                  commands =
                      update_rows (is_command id)
                        (λ x. record x { result = r; executed_at = some w.now }) d.commands;
                },
              ))
              (λ d k.
                IsWf-changed_commands (is_command id)
                  (λ x. record x { result = r; executed_at = some w.now }) d (λ x. refl) (λ x. refl)
                  k))).along
          w;
  }

  pub well_formed-Talking : Talking well_formed
  well_formed-Talking = record {
    upsert_state = upsert-Wf;
    insert_conversation = create_conversation-Wf;
    end_conversation = end_by_id-Wf;
    insert_message = create_message-Wf;
    insert_command = create_command-Wf;
    update_result = update_result-Wf;
  }
