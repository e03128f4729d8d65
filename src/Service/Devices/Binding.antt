-- ===== src/Service/Devices/Binding.antt =====
-- What `BindDevice` promises.
use taffy_assistant.Base.{
  ℕ, [], String, true, false, none, some, ◌≡◌, refl, ◌==◌, arith, select_one, update_rows,
  count_rows, if◌then◌else◌, select_one-update, eqb, inl, inr,
}
use taffy_assistant.Errors.{invalid_bind_code}
use taffy_assistant.Model.{Device}
use taffy_assistant.Store.{Collation, World, Db, ok, err}
use taffy_assistant.Errors.{Error}
use taffy_assistant.Repo.Devices.{name_columns, bind_rows}
use taffy_assistant.Repo.Devices.Writes.{Columns-cases}
use taffy_assistant.Repo.Devices.{
  get_by_id, bind_to_owner, has_id, is_claimable, claimed, owner_exists,
}
use taffy_assistant.Repo.Devices.Keys.{Unique, Unique-update, count_one}
use taffy_assistant.Service.Devices.{bind_device}

module _ ⦃c : Collation⦄ where
  -- The name that a device gets.
  abbrev pub chosen_name : String → Device → String
  chosen_name name o = if name == "" then o.name else name

  -- The tables after a binding: the rows that can be claimed are, and nothing else is touched.
  abbrev pub bound : ℕ → String → String → String → String → Db → Db
  bound user id code name room db = record db {
    devices = update_rows (is_claimable id code) (claimed user name room) db.devices;
  }

  -- The row that a binding found which succeeded.
  bind_device-row :
      (user : ℕ) (id code name room : String) (w w' : World) (d : Device)
      → bind_device user id code name room w ≡ (ok d, w')
      → (o : Device) × (select_one (has_id id) w.devices ≡ some o)
        × (eqb (count_rows (is_claimable id code) w.devices) 0 ≡ false)
        × (select_one (has_id id) w'.devices ≡ some d)
  unfolding bind_device get_by_id bind_to_owner bind_rows
  bind_device-row user id code name room w w' d h = ground arith

  bind_device-refused :
      (user : ℕ) (id code name room : String) (w w' : World) (o d : Device) (e : Error)
      → bind_device user id code name room w ≡ (ok d, w')
      → select_one (has_id id) w.devices ≡ some o
      → name_columns (chosen_name name o) room ≡ err e
      → ⊥
  unfolding bind_device get_by_id bind_to_owner bind_rows
  bind_device-refused user id code name room w w' o d e h found refuses = ground arith

  bind_device-set :
      (user : ℕ) (id code name room : String) (w w' : World) (o d : Device) (n r : String)
      → bind_device user id code name room w ≡ (ok d, w')
      → select_one (has_id id) w.devices ≡ some o
      → name_columns (chosen_name name o) room ≡ ok (n, r)
      → (owner_exists (some user) w.db ≡ true) × (w'.db ≡ bound user id code n r w.db)
  unfolding bind_device get_by_id bind_to_owner bind_rows
  bind_device-set user id code name room w w' o d n r h found holds = ground arith

  -- The writes of a binding that succeeded.
  bind_device-writes :
      (user : ℕ) (id code name room : String) (w w' : World) (d : Device)
      → bind_device user id code name room w ≡ (ok d, w')
      → (o : Device) × (n : String) × (r : String) × (select_one (has_id id) w.devices ≡ some o)
        × (name_columns (chosen_name name o) room ≡ ok (n, r))
        × (eqb (count_rows (is_claimable id code) w.devices) 0 ≡ false)
        × (owner_exists (some user) w.db ≡ true)
        × (w'.db ≡ bound user id code n r w.db)
        × (select_one (has_id id) w'.devices ≡ some d)
  bind_device-writes user id code name room w w' d h =
      let (o, found, some_claimed, after) = bind_device-row user id code name room w w' d h in
      elim (Columns-cases (name_columns (chosen_name name o) room)) [
        | inl (e, refuses) ↦
            elim (bind_device-refused user id code name room w w' o d e h found refuses) [ ]
        | inr (n, r, holds) ↦
            let (known, set) = bind_device-set user id code name room w w' o d n r h found holds in
            (o, n, r, found, holds, some_claimed, known, set, after)
      ]

  claimable_id :
      (id code : String) (d : Device) → is_claimable id code d ≡ true → has_id id d ≡ true
  claimable_id id code d h = ground arith

  row_is_claimable :
      (id code : String) (w : World) (o : Device)
      → Unique w.devices
      → select_one (has_id id) w.devices ≡ some o
      → eqb (count_rows (is_claimable id code) w.devices) 0 ≡ false
      → is_claimable id code o ≡ true
  row_is_claimable id code w o u found some_claimed =
      ground (arith, count_one (is_claimable id code) id w.devices o u (claimable_id id code) found)

  unowned : (id code : String) (o : Device) → is_claimable id code o ≡ true → o.owner_id ≡ none
  unowned id code o h = ground arith

  coded :
      (id code : String) (o : Device)
      → is_claimable id code o ≡ true
      → c.same o.bind_code code ≡ true
  coded id code o h = ground arith

  bind_device-code :
      (user : ℕ) (id code name room : String) (w w' : World) (d : Device)
      → bind_device user id code name room w ≡ (ok d, w')
      → (code == "") ≡ false
  unfolding bind_device
  bind_device-code user id code name room w w' d h = ground arith

  row_after :
      (id code : String) (user : ℕ) (name room : String) (w w' : World) (o d : Device)
      → select_one (has_id id) w.devices ≡ some o
      → is_claimable id code o ≡ true
      → w'.db ≡ bound user id code name room w.db
      → select_one (has_id id) w'.devices ≡ some d
      → d ≡ claimed user name room o
  row_after id code user name room w w' o d found claimable writes after = ground (
    arith,
    select_one-update (has_id id) (is_claimable id code) (claimed user name room) w.devices
        (λ x. refl),
  )

  -- If a binding returns a device and device ids are unique, then the device was in the table with no
  -- owner and with the code that was given, which is not empty; the user exists; the device that is
  -- returned is that row with the new owner, the chosen name (its own where the given one is empty)
  -- and the room as the columns hold them, status online and no code left; and the tables are as before but for the rows claimed.
  pub bind_device-claims :
      (user : ℕ) (id code name room : String) (w w' : World) (d : Device)
      → Unique w.devices
      → bind_device user id code name room w ≡ (ok d, w')
      → (o : Device) × (n : String) × (r : String) × (select_one (has_id id) w.devices ≡ some o)
        × (o.owner_id ≡ none)
        × (c.same o.bind_code code ≡ true)
        × ((code == "") ≡ false)
        × (owner_exists (some user) w.db ≡ true)
        × (name_columns (chosen_name name o) room ≡ ok (n, r))
        × (d ≡ claimed user n r o)
        × (select_one (has_id id) w'.devices ≡ some d)
        × (w'.db ≡ bound user id code n r w.db)
  bind_device-claims user id code name room w w' d u h =
      let (o, n, r, found, holds, some_claimed, owner, writes, after) =
        bind_device-writes user id code name room w w' d h in
      let claimable = row_is_claimable id code w o u found some_claimed in
      (
        o,
        n,
        r,
        found,
        unowned id code o claimable,
        coded id code o claimable,
        bind_device-code user id code name room w w' d h,
        owner,
        holds,
        row_after id code user n r w w' o d found claimable writes after,
        after,
        writes,
      )

  not_claimable :
      (id code : String) (w : World) (o : Device) (u : ℕ)
      → Unique w.devices
      → select_one (has_id id) w.devices ≡ some o
      → o.owner_id ≡ some u
      → count_rows (is_claimable id code) w.devices ≡ 0
  not_claimable id code w o u keys found owned =
      ground
        (arith, count_one (is_claimable id code) id w.devices o keys (claimable_id id code) found)

  -- While the database answers and device ids are unique, a device that has an owner can be bound by
  -- nobody, with any code: the answer is the one for a wrong code, and nothing changes.
  pub bind_device-owned :
      (user : ℕ) (id code name room : String) (w : World) (o : Device) (u : ℕ)
      → Unique w.devices
      → w.faults ≡ []
      → select_one (has_id id) w.devices ≡ some o
      → o.owner_id ≡ some u
      → bind_device user id code name room w ≡ (err invalid_bind_code, w)
  unfolding bind_device get_by_id bind_to_owner bind_rows
  bind_device-owned user id code name room w o u keys calm found owned =
      ground (arith, not_claimable id code w o u keys found owned)

  bound-Unique :
      (user : ℕ) (id code name room : String) (w w' : World)
      → Unique w.devices
      → w'.db ≡ bound user id code name room w.db
      → Unique w'.devices
  bound-Unique user id code name room w w' keys writes =
      rw writes
        (Unique-update (is_claimable id code) (claimed user name room) w.devices (λ d. refl) keys)

  -- After a binding that succeeded, while the database answers and device ids are unique, no second
  -- binding of the device succeeds, whoever asks and with whatever code, and none changes anything.
  pub bind_device_once :
      (user user' : ℕ) (id code name room code' name' room' : String) (w w' : World) (d : Device)
      → Unique w.devices
      → bind_device user id code name room w ≡ (ok d, w')
      → w'.faults ≡ []
      → bind_device user' id code' name' room' w' ≡ (err invalid_bind_code, w')
  bind_device_once user user' id code name room code' name' room' w w' d keys h calm =
      let (o, n, r, _, _, _, _, _, _, result, after, writes) =
        bind_device-claims user id code name room w w' d keys h in
      bind_device-owned user' id code' name' room' w' d user
        (bound-Unique user id code n r w w' keys writes) calm after (rw result refl)
