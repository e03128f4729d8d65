-- ===== src/Repo/Wf/Devices.antt =====
-- The statements on devices and their states keep the tables well formed.
use taffy_assistant.Base.{
  String, Bool, true, false, Option, none, some, List, [], ◌∷◌, ◌++◌, ◌≡◌, refl, ap, Bool-cases,
  arith, inl, inr, eqb, exists_row, update_rows, delete_rows, exists-update, exists-delete,
  Distinct-append, Distinct-update, Distinct-delete, All-map, All-update, All-delete, All-append,
}
use taffy_assistant.Model.{Device, DeviceState, Conversation, Command}
use taffy_assistant.Store.{Collation, Db}
use taffy_assistant.Repo.Devices.{has_id, forget_device, without_device}
use taffy_assistant.Repo.Wf.{IsWf, user_in, is_spent, device_in}

module _ ⦃c : Collation⦄ where
  -- Devices whose ids stay, with owners that exist and codes that are spent.
  pub IsWf-changed_devices :
      (p : Device → Bool) (f : Device → Device) (d : Db)
      → ((x : Device) → (f x).device_id ≡ x.device_id)
      → ((x : Device)
          → p x ≡ true
          → user_in x.owner_id d.users ≡ true
          → user_in (f x).owner_id d.users ≡ true)
      → ((x : Device) → p x ≡ true → is_spent x ≡ true → is_spent (f x) ≡ true)
      → IsWf d
      → IsWf (record d { devices = update_rows p f d.devices })
  IsWf-changed_devices p f d keep owned spent w = record {
    user_ids = w.user_ids;
    below_next = w.below_next;
    device_ids =
        Distinct-update (λ (x : Device). has_id x.device_id) p f d.devices
          (λ x y. ap (λ i. c.same y.device_id i) (keep x))
          (λ x y. ap (λ i. c.same i x.device_id) (keep y)) w.device_ids;
    owners = All-update p f d.devices owned (λ x n h. h) w.owners;
    codes = All-update p f d.devices spent (λ x n h. h) w.codes;
    state_ids = w.state_ids;
    state_devices = All-map d.states (λ x h. still x.device_id h) w.state_devices;
    scene_users = w.scene_users;
    talkers = w.talkers;
    talk_devices = All-map d.conversations (λ x h. still_in x.device_id h) w.talk_devices;
    message_talks = w.message_talks;
    command_messages = w.command_messages;
    command_devices = All-map d.commands (λ x h. still x.device_id h) w.command_devices;
  }
    where
      still :
          (j : String)
          → exists_row (has_id j) d.devices ≡ true
          → exists_row (has_id j) (update_rows p f d.devices) ≡ true
      still j h = rw (exists-update (has_id j) p f d.devices (λ x. ap (λ i. c.same i j) (keep x))) h

      still_in :
          (o : Option String)
          → device_in o d.devices ≡ true
          → device_in o (update_rows p f d.devices) ≡ true
      still_in none h = refl
      still_in (some j) h = still j h

  -- Another device stays when one goes.
  other_device :
      (id j : String) (ds : List Device)
      → c.same j id ≡ false
      → exists_row (has_id j) ds ≡ true
      → exists_row (has_id j) (delete_rows (has_id id) ds) ≡ true
  other_device id j ds n h =
      exists-delete (has_id j) (has_id id) ds
        (λ x k. ground (arith, c.same_sym x.device_id j k, c.same_trans j x.device_id id)) h

  forgotten :
      (id : String) (v : Conversation) (ds : List Device)
      → device_in v.device_id ds ≡ true
      → device_in (forget_device id v).device_id (delete_rows (has_id id) ds) ≡ true
  forgotten id v ds h = device v.device_id h
    where
      device :
          (o : Option String)
          → device_in o ds ≡ true
          → device_in
              (forget_device id (record v { device_id = o })).device_id
              (delete_rows (has_id id) ds)
            ≡ true
      device none h = refl
      device (some j) h = elim (Bool-cases (c.same j id)) [
        | inl same ↦ rw same refl
        | inr other ↦ rw other (other_device id j ds other h)
      ]

  -- The rows that the foreign keys of a deleted device delete or change.
  pub IsWf-without_device : (id : String) (d : Db) → IsWf d → IsWf (without_device id d)
  IsWf-without_device id d w = record {
    user_ids = w.user_ids;
    below_next = w.below_next;
    device_ids =
        Distinct-delete (λ (x : Device). has_id x.device_id) (has_id id) d.devices w.device_ids;
    owners = All-delete (has_id id) d.devices (λ x n h. h) w.owners;
    codes = All-delete (has_id id) d.devices (λ x n h. h) w.codes;
    state_ids =
        Distinct-delete (λ (s : DeviceState) (t : DeviceState). c.same t.device_id s.device_id)
          (λ s. c.same s.device_id id) d.states w.state_ids;
    state_devices =
        All-delete (λ (s : DeviceState). c.same s.device_id id) d.states
          (λ x n h. other_device id x.device_id d.devices n h) w.state_devices;
    scene_users = w.scene_users;
    talkers =
        All-update (λ _. true) (forget_device id) d.conversations (λ x e h. h) (λ x n h. h)
          w.talkers;
    talk_devices =
        All-update (λ _. true) (forget_device id) d.conversations
          (λ x e h. forgotten id x d.devices h) (λ x n h. elim (apart n) [ ]) w.talk_devices;
    message_talks =
        All-map d.messages
          (λ m h.
            rw
              (exists-update (λ (v : Conversation). eqb m.conversation_id v.conversation_id)
                (λ _. true) (forget_device id) d.conversations (λ v. refl))
              h)
          w.message_talks;
    command_messages =
        All-delete (λ (x : Command). c.same x.device_id id) d.commands (λ x n h. h)
          w.command_messages;
    command_devices =
        All-delete (λ (x : Command). c.same x.device_id id) d.commands
          (λ x n h. other_device id x.device_id d.devices n h) w.command_devices;
  }
    where
      apart : ¬ (true ≡ false)
      apart e = cc

  -- A state that is new, of a device that exists.
  pub IsWf-new_state :
      (s : DeviceState) (d : Db)
      → exists_row (has_id s.device_id) d.devices ≡ true
      → exists_row (λ (t : DeviceState). c.same t.device_id s.device_id) d.states ≡ false
      → IsWf d
      → IsWf (record d { states = d.states ++ s ∷ [] })
  IsWf-new_state s d known fresh w = record {
    user_ids = w.user_ids;
    below_next = w.below_next;
    device_ids = w.device_ids;
    owners = w.owners;
    codes = w.codes;
    state_ids =
        Distinct-append (λ (s : DeviceState) (t : DeviceState). c.same t.device_id s.device_id)
          d.states s
          (λ t.
            ground (arith, c.same_sym t.device_id s.device_id, c.same_sym s.device_id t.device_id))
          fresh w.state_ids;
    state_devices = All-append _ d.states s w.state_devices known;
    scene_users = w.scene_users;
    talkers = w.talkers;
    talk_devices = w.talk_devices;
    message_talks = w.message_talks;
    command_messages = w.command_messages;
    command_devices = w.command_devices;
  }

  -- States that keep their devices.
  pub IsWf-changed_states :
      (p : DeviceState → Bool) (f : DeviceState → DeviceState) (d : Db)
      → ((s : DeviceState) → (f s).device_id ≡ s.device_id)
      → IsWf d
      → IsWf (record d { states = update_rows p f d.states })
  IsWf-changed_states p f d keep w = record {
    user_ids = w.user_ids;
    below_next = w.below_next;
    device_ids = w.device_ids;
    owners = w.owners;
    codes = w.codes;
    state_ids =
        Distinct-update (λ (s : DeviceState) (t : DeviceState). c.same t.device_id s.device_id) p f
          d.states (λ s t. ap (λ i. c.same t.device_id i) (keep s))
          (λ s t. ap (λ i. c.same i s.device_id) (keep t)) w.state_ids;
    state_devices = All-update p f d.states (λ s e h. rw (keep s) h) (λ s n h. h) w.state_devices;
    scene_users = w.scene_users;
    talkers = w.talkers;
    talk_devices = w.talk_devices;
    message_talks = w.message_talks;
    command_messages = w.command_messages;
    command_devices = w.command_devices;
  }
