-- ===== src/Repo/Wf.antt =====
-- The well-formed tables: the keys and the foreign keys of server/migrations, and that a device with
-- an owner has no bind code left.
pub mod Users
pub mod Devices
pub mod Talks
use taffy_assistant.Base.{
  ℕ, ◌<◌, String, Bool, true, false, ◌||◌, Option, none, some, is_none, List, ◌≡◌, eqb, ltb, ◌==◌,
  All, Distinct, exists_row,
}
use taffy_assistant.Model.{User, Device, DeviceState, Conversation, Message, Command, Scene}
use taffy_assistant.Store.{Collation, Db}
use taffy_assistant.Repo.Devices.{has_id}
use taffy_assistant.Repo.Users.{is_user, of_conversations, of_messages}

abbrev pub user_in : Option ℕ → List User → Bool
user_in none us = true
user_in (some u) us = exists_row (is_user u) us

abbrev pub is_spent : Device → Bool
is_spent d = is_none d.owner_id || (d.bind_code == "")

module _ ⦃c : Collation⦄ where
  abbrev pub device_in : Option String → List Device → Bool
  device_in none ds = true
  device_in (some id) ds = exists_row (has_id id) ds

  pub record IsWf (db : Db) : Type 0 where
    pub user_ids : Distinct (λ (u : User). is_user u.user_id) db.users
    pub below_next : All (λ (u : User). ltb u.user_id db.next_user ≡ true) db.users
    pub device_ids : Distinct (λ (d : Device). has_id d.device_id) db.devices
    pub owners : All (λ (d : Device). user_in d.owner_id db.users ≡ true) db.devices
    pub codes : All (λ (d : Device). is_spent d ≡ true) db.devices
    pub state_ids :
        Distinct (λ (s : DeviceState) (t : DeviceState). c.same t.device_id s.device_id) db.states
    pub state_devices :
        All (λ (s : DeviceState). exists_row (has_id s.device_id) db.devices ≡ true) db.states
    pub scene_users : All (λ (s : Scene). exists_row (is_user s.user_id) db.users ≡ true) db.scenes
    pub talkers :
        All (λ (v : Conversation). exists_row (is_user v.user_id) db.users ≡ true) db.conversations
    pub talk_devices :
        All (λ (v : Conversation). device_in v.device_id db.devices ≡ true) db.conversations
    pub message_talks :
        All (λ (m : Message). of_conversations db.conversations m ≡ true) db.messages
    pub command_messages : All (λ (x : Command). of_messages db.messages x ≡ true) db.commands
    pub command_devices :
        All (λ (x : Command). exists_row (has_id x.device_id) db.devices ≡ true) db.commands
