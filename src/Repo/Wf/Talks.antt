-- ===== src/Repo/Wf/Talks.antt =====
-- The statements on conversations, messages and commands keep the tables well formed.
use taffy_assistant.Base.{
  ℕ, Bool, true, [], ◌∷◌, ◌++◌, ◌≡◌, eqb, ap, exists_row, update_rows, exists-append, exists-update,
  All-map, All-update, All-append,
}
use taffy_assistant.Model.{Conversation, Message, Command}
use taffy_assistant.Store.{Collation, Db}
use taffy_assistant.Repo.Devices.{has_id}
use taffy_assistant.Repo.Users.{is_user, of_conversations, of_messages}
use taffy_assistant.Repo.Wf.{IsWf, device_in}

module _ ⦃c : Collation⦄ where
  pub IsWf-new_conversation :
      (v : Conversation) (n : ℕ) (d : Db)
      → exists_row (is_user v.user_id) d.users ≡ true
      → device_in v.device_id d.devices ≡ true
      → IsWf d
      → IsWf (record d { conversations = d.conversations ++ v ∷ []; next_conversation = n })
  IsWf-new_conversation v n d known there w = record {
    user_ids = w.user_ids;
    below_next = w.below_next;
    device_ids = w.device_ids;
    owners = w.owners;
    codes = w.codes;
    state_ids = w.state_ids;
    state_devices = w.state_devices;
    scene_users = w.scene_users;
    talkers = All-append _ d.conversations v w.talkers known;
    talk_devices = All-append _ d.conversations v w.talk_devices there;
    message_talks =
        All-map d.messages
          (λ m h.
            exists-append (λ (v : Conversation). eqb m.conversation_id v.conversation_id)
              d.conversations _ h)
          w.message_talks;
    command_messages = w.command_messages;
    command_devices = w.command_devices;
  }

  -- Conversations that keep their number, user and device.
  pub IsWf-changed_conversations :
      (p : Conversation → Bool) (f : Conversation → Conversation) (d : Db)
      → ((v : Conversation) → (f v).conversation_id ≡ v.conversation_id)
      → ((v : Conversation) → (f v).user_id ≡ v.user_id)
      → ((v : Conversation) → (f v).device_id ≡ v.device_id)
      → IsWf d
      → IsWf (record d { conversations = update_rows p f d.conversations })
  IsWf-changed_conversations p f d number user device w = record {
    user_ids = w.user_ids;
    below_next = w.below_next;
    device_ids = w.device_ids;
    owners = w.owners;
    codes = w.codes;
    state_ids = w.state_ids;
    state_devices = w.state_devices;
    scene_users = w.scene_users;
    talkers = All-update p f d.conversations (λ v e h. rw (user v) h) (λ v n h. h) w.talkers;
    talk_devices =
        All-update p f d.conversations (λ v e h. rw (device v) h) (λ v n h. h) w.talk_devices;
    message_talks =
        All-map d.messages
          (λ m h.
            rw
              (exists-update (λ (v : Conversation). eqb m.conversation_id v.conversation_id) p f
                d.conversations (λ v. ap (λ i. eqb m.conversation_id i) (number v)))
              h)
          w.message_talks;
    command_messages = w.command_messages;
    command_devices = w.command_devices;
  }

  pub IsWf-new_message :
      (m : Message) (n : ℕ) (d : Db)
      → of_conversations d.conversations m ≡ true
      → IsWf d
      → IsWf (record d { messages = d.messages ++ m ∷ []; next_message = n })
  IsWf-new_message m n d known w = record {
    user_ids = w.user_ids;
    below_next = w.below_next;
    device_ids = w.device_ids;
    owners = w.owners;
    codes = w.codes;
    state_ids = w.state_ids;
    state_devices = w.state_devices;
    scene_users = w.scene_users;
    talkers = w.talkers;
    talk_devices = w.talk_devices;
    message_talks = All-append _ d.messages m w.message_talks known;
    command_messages =
        All-map d.commands
          (λ x h. exists-append (λ (m : Message). eqb x.message_id m.message_id) d.messages _ h)
          w.command_messages;
    command_devices = w.command_devices;
  }

  pub IsWf-new_command :
      (x : Command) (n : ℕ) (d : Db)
      → of_messages d.messages x ≡ true
      → exists_row (has_id x.device_id) d.devices ≡ true
      → IsWf d
      → IsWf (record d { commands = d.commands ++ x ∷ []; next_command = n })
  IsWf-new_command x n d known there w = record {
    user_ids = w.user_ids;
    below_next = w.below_next;
    device_ids = w.device_ids;
    owners = w.owners;
    codes = w.codes;
    state_ids = w.state_ids;
    state_devices = w.state_devices;
    scene_users = w.scene_users;
    talkers = w.talkers;
    talk_devices = w.talk_devices;
    message_talks = w.message_talks;
    command_messages = All-append _ d.commands x w.command_messages known;
    command_devices = All-append _ d.commands x w.command_devices there;
  }

  -- Commands that keep their message and device.
  pub IsWf-changed_commands :
      (p : Command → Bool) (f : Command → Command) (d : Db)
      → ((x : Command) → (f x).message_id ≡ x.message_id)
      → ((x : Command) → (f x).device_id ≡ x.device_id)
      → IsWf d
      → IsWf (record d { commands = update_rows p f d.commands })
  IsWf-changed_commands p f d message device w = record {
    user_ids = w.user_ids;
    below_next = w.below_next;
    device_ids = w.device_ids;
    owners = w.owners;
    codes = w.codes;
    state_ids = w.state_ids;
    state_devices = w.state_devices;
    scene_users = w.scene_users;
    talkers = w.talkers;
    talk_devices = w.talk_devices;
    message_talks = w.message_talks;
    command_messages =
        All-update p f d.commands (λ x e h. rw (message x) h) (λ x n h. h) w.command_messages;
    command_devices =
        All-update p f d.commands (λ x e h. rw (device x) h) (λ x n h. h) w.command_devices;
  }
