-- ===== src/Repo/Devices.antt =====
-- server/internal/repository/device.go
pub mod Keys
pub mod Calm
pub mod Writes
use taffy_assistant.Base.{
  ℕ, String, Bool, true, false, ◌&&◌, Option, none, some, is_none, List, [], ◌∷◌, ◌++◌, eqb, ◌==◌,
  if◌then◌else◌, select, select_one, update_rows, delete_rows, exists_row, count_rows,
}
use taffy_assistant.Errors.{Error, no_rows, driver, wrap}
use taffy_assistant.Model.{
  User, Device, DeviceState, DeviceStatus, unregistered, waiting_bind, online, offline, error,
  Command, Conversation,
}
use taffy_assistant.Store.{
  Collation, Db, World, M, Result, ok, err, pure, fail, ◌>>=◌, ◌>>◌, wrapping, statement, now_of,
}

abbrev pub is_waiting : DeviceStatus → Bool
is_waiting waiting_bind = true
is_waiting _ = false

-- `owner_id = ?`: false at NULL.
abbrev pub is_owner : Option ℕ → ℕ → Bool
is_owner none u = false
is_owner (some v) u = eqb v u

module _ ⦃c : Collation⦄ where
  abbrev pub has_id : String → Device → Bool
  has_id id d = c.same d.device_id id

  -- The foreign key of `devices.owner_id`.
  abbrev pub owner_exists : Option ℕ → Db → Bool
  owner_exists none db = true
  owner_exists (some u) db = exists_row (λ (x : User). eqb x.user_id u) db.users

  insert_device : Device → Db → Result (Unit {0}) × Db
  insert_device d db =
      if exists_row (has_id d.device_id) db.devices
      then (err (driver "Error 1062: Duplicate entry for key 'devices.PRIMARY'"), db)
      else if owner_exists d.owner_id db
      then (ok tt, record db { devices = db.devices ++ record d { last_seen = none } ∷ [] })
      else (err (driver "Error 1452: a foreign key constraint fails (fk_devices_owner)"), db)

  -- `Create`.
  unfoldable pub create : Device → M (Unit {0})
  unfolding insert_device statement
  create d = wrapping (wrap "insert device") (statement (insert_device d))

  one : Option Device → Db → Result Device × Db
  one none db = (err no_rows, db)
  one (some d) db = (ok d, db)

  -- `GetByID`.
  unfoldable pub get_by_id : String → M Device
  unfolding one statement
  get_by_id id =
      wrapping (wrap "get device") (statement (λ db. one (select_one (has_id id) db.devices) db))

  -- `ListByOwner`, in the order of `created_at`.
  unfoldable pub list_by_owner : ℕ → M (List Device)
  unfolding statement
  list_by_owner owner =
      wrapping (wrap "list devices by owner")
        (statement (λ db. (ok (select (λ d. is_owner d.owner_id owner) db.devices), db)))

  -- `ListBindable`.
  unfoldable pub list_bindable : M (List Device)
  unfolding statement
  list_bindable = wrapping (wrap "list bindable devices") (
      statement
        (λ db. (ok (select (λ d. is_none d.owner_id && is_waiting d.status) db.devices), db)))

  -- `UpdateStatus`.
  unfoldable pub update_status : String → DeviceStatus → M (Unit {0})
  unfolding statement
  update_status id status = wrapping (wrap "update device status") (
      statement (λ db. (
        ok tt,
        record db {
          devices = update_rows (has_id id) (λ d. record d { status = status }) db.devices;
        },
      )))

  -- `UpdateLastSeen`.
  unfoldable pub update_last_seen : String → M (Unit {0})
  unfolding statement
  update_last_seen id = do
    now ← now_of
    wrapping (wrap "update device last_seen") (
        statement (λ db. (
          ok tt,
          record db {
            devices =
                update_rows (has_id id) (λ d. record d { last_seen = some now; status = online })
                  db.devices;
          },
        )))

  -- The name and the room as their columns hold them, or the error of the first that refuses its text.
  unfoldable pub name_columns : String → String → Result (String × String)
  name_columns name room = elim (c.varchar 50 name) [
    | none ↦ err (driver "Error 1406: Data too long for column 'name'")
    | some n ↦ elim (c.varchar 50 room) [
      | none ↦ err (driver "Error 1406: Data too long for column 'room'")
      | some r ↦ ok (n, r)
    ]
  ]

  -- The WHERE clause of `BindToOwner`.
  abbrev pub is_claimable : String → String → Device → Bool
  is_claimable id code d = has_id id d && c.same d.bind_code code && is_none d.owner_id

  -- Its SET clause.
  abbrev pub claimed : ℕ → String → String → Device → Device
  claimed user name room d = record d {
    owner_id = some user;
    name = name;
    room = room;
    status = online;
    bind_code = "";
  }

  abbrev pub bind_found : String → String → ℕ → ℕ → Result (String × String) → Db → Result ℕ × Db
  bind_found id code user found (err e) db = (err e, db)
  bind_found id code user found (ok (n, r)) db =
      if owner_exists (some user) db
      then (
        ok found,
        record db { devices = update_rows (is_claimable id code) (claimed user n r) db.devices },
      )
      else (err (driver "Error 1452: a foreign key constraint fails (fk_devices_owner)"), db)

  unfoldable pub bind_rows : String → String → ℕ → String → String → Db → Result ℕ × Db
  unfolding name_columns
  bind_rows id code user name room db =
      let found = count_rows (is_claimable id code) db.devices in
      if eqb found 0 then (ok 0, db) else bind_found id code user found (name_columns name room) db

  -- `n == 0` after an UPDATE.
  abbrev pub or_no_rows : ℕ → M (Unit {0})
  or_no_rows n = if eqb n 0 then fail no_rows else pure tt

  -- `BindToOwner`. The update sets an owner that was NULL, so every row that it finds is changed.
  unfoldable pub bind_to_owner : String → String → ℕ → String → String → M (Unit {0})
  unfolding bind_rows statement
  bind_to_owner id code user name room = do
    n ← wrapping (wrap "bind device") (statement (bind_rows id code user name room))
    or_no_rows n

  -- The WHERE clause of `Rename`.
  abbrev pub is_renamable : String → ℕ → Device → Bool
  is_renamable id owner d = has_id id d && is_owner d.owner_id owner

  -- `RowsAffected` counts the rows that change, since the DSN does not set `clientFoundRows`.
  abbrev pub is_changed : String → String → Device → Bool
  is_changed name room d = if d.name == name then (if d.room == room then false else true) else true

  abbrev pub rename_found : String → ℕ → Result (String × String) → Db → Result ℕ × Db
  rename_found id owner (err e) db = (err e, db)
  rename_found id owner (ok (n, r)) db = (
    ok (count_rows (λ d. is_renamable id owner d && is_changed n r d) db.devices),
    record db {
      devices =
          update_rows (is_renamable id owner) (λ d. record d { name = n; room = r }) db.devices;
    },
  )

  -- No column is set where no row is found.
  unfoldable pub rename_rows : String → ℕ → String → String → Db → Result ℕ × Db
  unfolding name_columns
  rename_rows id owner name room db =
      if eqb (count_rows (is_renamable id owner) db.devices) 0
      then (ok 0, db)
      else rename_found id owner (name_columns name room) db

  -- `Rename`.
  unfoldable pub rename : String → ℕ → String → String → M (Unit {0})
  unfolding rename_rows statement
  rename id owner name room = do
    n ← wrapping (wrap "rename device") (statement (rename_rows id owner name room))
    or_no_rows n

  -- DELETE FROM devices, with what the foreign keys do: states and commands go, conversations keep
  -- their row with `device_id` NULL.
  abbrev pub forget_device : String → Conversation → Conversation
  forget_device id v = record v {
    device_id = elim v.device_id [ none ↦ none | some j ↦ if c.same j id then none else some j ];
  }

  abbrev pub without_device : String → Db → Db
  without_device id db = record db {
    devices = delete_rows (has_id id) db.devices;
    states = delete_rows (λ (s : DeviceState). c.same s.device_id id) db.states;
    commands = delete_rows (λ (x : Command). c.same x.device_id id) db.commands;
    conversations = update_rows (λ _. true) (forget_device id) db.conversations;
  }

  -- `Delete`.
  unfoldable pub delete : String → M (Unit {0})
  unfolding statement
  delete id = wrapping (wrap "delete device") (statement (λ db. (ok tt, without_device id db)))
