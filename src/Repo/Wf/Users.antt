-- ===== src/Repo/Wf/Users.antt =====
-- The statements on users and scenes keep the tables well formed.
use taffy_assistant.Base.{
  ℕ, suc, String, Bool, true, false, Option, none, some, List, [], ◌∷◌, ◌++◌, ◌≡◌, refl, inl, inr,
  ap, Bool-cases, eqb, ltb, arith, All, exists_row, update_rows, delete_rows, exists-append,
  exists-update, exists-delete, Distinct-append, Distinct-update, Distinct-delete, All-map,
  All-update, All-delete, All-append,
}
use taffy_assistant.Model.{User, Device, Conversation, Scene}
use taffy_assistant.Store.{Collation, Db}
use taffy_assistant.Repo.Devices.{has_id}
use taffy_assistant.Repo.Users.{is_user, disowned, without_user}
use taffy_assistant.Repo.Wf.{IsWf, user_in, device_in}

apart : ¬ (true ≡ false)
apart e = cc

user_in-append :
    (o : Option ℕ) (us : List User) (u : User)
    → user_in o us ≡ true
    → user_in o (us ++ u ∷ []) ≡ true
user_in-append none us u h = refl
user_in-append (some id) us u h = exists-append (is_user id) us (u ∷ []) h

new_id :
    (us : List User) (next : ℕ)
    → All (λ (u : User). ltb u.user_id next ≡ true) us
    → exists_row (is_user next) us ≡ false
unfolding exists_row
new_id [] next h = refl
new_id (u ∷ us) next h = ground (arith, new_id us next)

module _ ⦃c : Collation⦄ where
  -- A user with the next number.
  pub IsWf-new_user :
      (u : User) (d : Db)
      → IsWf d
      → IsWf (record d {
        users = d.users ++ record u { user_id = d.next_user } ∷ [];
        next_user = suc d.next_user;
      })
  IsWf-new_user u d w = record {
    user_ids =
        Distinct-append (λ (x : User). is_user x.user_id) d.users
          (record u { user_id = d.next_user }) (λ x. ground arith)
          (new_id d.users d.next_user w.below_next) w.user_ids;
    below_next =
        All-append _ d.users (record u { user_id = d.next_user })
          (All-map d.users (λ x h. ground arith) w.below_next) (ground arith);
    device_ids = w.device_ids;
    owners = All-map d.devices (λ x h. user_in-append x.owner_id d.users _ h) w.owners;
    codes = w.codes;
    state_ids = w.state_ids;
    state_devices = w.state_devices;
    scene_users =
        All-map d.scenes (λ x h. exists-append (is_user x.user_id) d.users _ h) w.scene_users;
    talkers =
        All-map d.conversations (λ x h. exists-append (is_user x.user_id) d.users _ h) w.talkers;
    talk_devices = w.talk_devices;
    message_talks = w.message_talks;
    command_messages = w.command_messages;
    command_devices = w.command_devices;
  }

  -- Users whose ids stay.
  pub IsWf-changed_users :
      (p : User → Bool) (f : User → User) (d : Db)
      → ((u : User) → (f u).user_id ≡ u.user_id)
      → IsWf d
      → IsWf (record d { users = update_rows p f d.users })
  IsWf-changed_users p f d keep w = record {
    user_ids =
        Distinct-update (λ (x : User). is_user x.user_id) p f d.users
          (λ x y. ap (λ i. eqb y.user_id i) (keep x)) (λ x y. ap (λ i. eqb i x.user_id) (keep y))
          w.user_ids;
    below_next = All-update p f d.users (λ x hit h. rw (keep x) h) (λ x n h. h) w.below_next;
    device_ids = w.device_ids;
    owners = All-map d.devices (λ x h. user_in-update x.owner_id h) w.owners;
    codes = w.codes;
    state_ids = w.state_ids;
    state_devices = w.state_devices;
    scene_users = All-map d.scenes (λ x h. still x.user_id h) w.scene_users;
    talkers = All-map d.conversations (λ x h. still x.user_id h) w.talkers;
    talk_devices = w.talk_devices;
    message_talks = w.message_talks;
    command_messages = w.command_messages;
    command_devices = w.command_devices;
  }
    where
      still :
          (id : ℕ)
          → exists_row (is_user id) d.users ≡ true
          → exists_row (is_user id) (update_rows p f d.users) ≡ true
      still id h = rw (exists-update (is_user id) p f d.users (λ x. ap (λ i. eqb i id) (keep x))) h

      user_in-update :
          (o : Option ℕ) → user_in o d.users ≡ true → user_in o (update_rows p f d.users) ≡ true
      user_in-update none h = refl
      user_in-update (some id) h = still id h

  -- Another user stays when one goes.
  other_user :
      (id other : ℕ) (us : List User)
      → eqb other id ≡ false
      → exists_row (is_user other) us ≡ true
      → exists_row (is_user other) (delete_rows (is_user id) us) ≡ true
  other_user id other us n h = exists-delete (is_user other) (is_user id) us (λ x k. ground arith) h

  disowned-owner :
      (id : ℕ) (x : Device) (us : List User)
      → user_in x.owner_id us ≡ true
      → user_in (disowned id x).owner_id (delete_rows (is_user id) us) ≡ true
  disowned-owner id x us h = owner x.owner_id h
    where
      owner :
          (o : Option ℕ)
          → user_in o us ≡ true
          → user_in (disowned id (record x { owner_id = o })).owner_id (delete_rows (is_user id) us)
            ≡ true
      owner none h = refl
      owner (some v) h = elim (Bool-cases (eqb v id)) [
        | inl mine ↦ rw mine refl
        | inr other ↦ rw other (other_user id v us other h)
      ]

  -- The rows that the foreign keys of a deleted user delete or change.
  pub IsWf-without_user : (id : ℕ) (d : Db) → IsWf d → IsWf (without_user id d)
  IsWf-without_user id d w = record {
    user_ids = Distinct-delete (λ (x : User). is_user x.user_id) (is_user id) d.users w.user_ids;
    below_next = All-delete (is_user id) d.users (λ x n h. h) w.below_next;
    device_ids =
        Distinct-update (λ (x : Device). has_id x.device_id) (λ _. true) (disowned id) d.devices
          (λ x y. ap (λ i. c.same y.device_id i) (same_id x))
          (λ x y. ap (λ i. c.same i x.device_id) (same_id y)) w.device_ids;
    owners =
        All-update (λ _. true) (disowned id) d.devices (λ x e h. disowned-owner id x d.users h)
          (λ x n h. elim (apart n) [ ]) w.owners;
    codes =
        All-update (λ _. true) (disowned id) d.devices (λ x e h. ground arith) (λ x n h. h) w.codes;
    state_ids = w.state_ids;
    state_devices = All-map d.states (λ x h. still x.device_id h) w.state_devices;
    scene_users =
        All-delete (λ (s : Scene). eqb s.user_id id) d.scenes
          (λ x n h. other_user id x.user_id d.users n h) w.scene_users;
    talkers =
        All-delete (λ (v : Conversation). eqb v.user_id id) d.conversations
          (λ x n h. other_user id x.user_id d.users n h) w.talkers;
    talk_devices =
        All-delete (λ (v : Conversation). eqb v.user_id id) d.conversations
          (λ x n h. still_in x.device_id h) w.talk_devices;
    message_talks = All-delete _ d.messages (λ x n h. ground arith) w.message_talks;
    command_messages = All-delete _ d.commands (λ x n h. ground arith) w.command_messages;
    command_devices = All-delete _ d.commands (λ x n h. still x.device_id h) w.command_devices;
  }
    where
      same_id : (x : Device) → (disowned id x).device_id ≡ x.device_id
      same_id x = ground arith

      still :
          (j : String)
          → exists_row (has_id j) d.devices ≡ true
          → exists_row (has_id j) (update_rows (λ _. true) (disowned id) d.devices) ≡ true
      still j h =
          rw
            (exists-update (has_id j) (λ _. true) (disowned id) d.devices
              (λ x. ap (λ i. c.same i j) (same_id x)))
            h

      still_in :
          (o : Option String)
          → device_in o d.devices ≡ true
          → device_in o (update_rows (λ _. true) (disowned id) d.devices) ≡ true
      still_in none h = refl
      still_in (some j) h = still j h

  -- A scene of a user, with the next number.
  pub IsWf-new_scene :
      (s : Scene) (n : ℕ) (d : Db)
      → exists_row (is_user s.user_id) d.users ≡ true
      → IsWf d
      → IsWf (record d {
        scenes = d.scenes ++ record s { scene_id = d.next_scene } ∷ [];
        next_scene = n;
      })
  IsWf-new_scene s n d known w = record {
    user_ids = w.user_ids;
    below_next = w.below_next;
    device_ids = w.device_ids;
    owners = w.owners;
    codes = w.codes;
    state_ids = w.state_ids;
    state_devices = w.state_devices;
    scene_users = All-append _ d.scenes (record s { scene_id = d.next_scene }) w.scene_users known;
    talkers = w.talkers;
    talk_devices = w.talk_devices;
    message_talks = w.message_talks;
    command_messages = w.command_messages;
    command_devices = w.command_devices;
  }

  -- Scenes that stay with their users.
  pub IsWf-changed_scenes :
      (p : Scene → Bool) (f : Scene → Scene) (d : Db)
      → ((s : Scene) → (f s).user_id ≡ s.user_id)
      → IsWf d
      → IsWf (record d { scenes = update_rows p f d.scenes })
  IsWf-changed_scenes p f d keep w = record {
    user_ids = w.user_ids;
    below_next = w.below_next;
    device_ids = w.device_ids;
    owners = w.owners;
    codes = w.codes;
    state_ids = w.state_ids;
    state_devices = w.state_devices;
    scene_users = All-update p f d.scenes (λ x e h. rw (keep x) h) (λ x n h. h) w.scene_users;
    talkers = w.talkers;
    talk_devices = w.talk_devices;
    message_talks = w.message_talks;
    command_messages = w.command_messages;
    command_devices = w.command_devices;
  }

  pub IsWf-fewer_scenes :
      (p : Scene → Bool) (d : Db) → IsWf d → IsWf (record d { scenes = delete_rows p d.scenes })
  IsWf-fewer_scenes p d w = record {
    user_ids = w.user_ids;
    below_next = w.below_next;
    device_ids = w.device_ids;
    owners = w.owners;
    codes = w.codes;
    state_ids = w.state_ids;
    state_devices = w.state_devices;
    scene_users = All-delete p d.scenes (λ x n h. h) w.scene_users;
    talkers = w.talkers;
    talk_devices = w.talk_devices;
    message_talks = w.message_talks;
    command_messages = w.command_messages;
    command_devices = w.command_devices;
  }
