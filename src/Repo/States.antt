-- ===== src/Repo/States.antt =====
-- server/internal/repository/device_state.go
use taffy_assistant.Base.{
  ℕ, String, Bool, true, false, ℤ, pos, negsuc, ltb, Option, none, some, List, [], ◌∷◌, ◌++◌,
  if◌then◌else◌, select, select_one, update_rows, exists_row,
}
use taffy_assistant.Errors.{no_rows, driver, wrap}
use taffy_assistant.Model.{Device, DeviceState}
use taffy_assistant.Store.{Collation, Db, M, Result, ok, err, wrapping, statement}
use taffy_assistant.Repo.Devices.{has_id, is_owner}

module _ ⦃c : Collation⦄ where
  abbrev pub is_state_of : String → DeviceState → Bool
  is_state_of id s = c.same s.device_id id

  one : Option DeviceState → Db → Result DeviceState × Db
  one none db = (err no_rows, db)
  one (some s) db = (ok s, db)

  -- `Get`.
  unfoldable pub get : String → M DeviceState
  unfolding one statement
  get id =
      wrapping (wrap "get device state")
        (statement (λ db. one (select_one (is_state_of id) db.states) db))

  -- ON DUPLICATE KEY UPDATE keeps the key that is stored.
  abbrev pub overwritten : DeviceState → DeviceState → DeviceState
  overwritten s old = record s { device_id = old.device_id }

  -- An INT column holds 32 bits.
  abbrev pub fits_int : Option ℤ → Bool
  fits_int none = true
  fits_int (some (pos n)) = ltb n 2147483648
  fits_int (some (negsuc n)) = ltb n 2147483648

  -- What the column `mode`, an ENUM, holds of a value; `none` where it refuses it.
  abbrev pub mode_column : Option String → Option (Option String)
  mode_column none = some none
  mode_column (some m) = elim (c.enum ("cool" ∷ "heat" ∷ "auto" ∷ "fan" ∷ "dry" ∷ []) m) [
    | none ↦ none
    | some l ↦ some (some l)
  ]

  abbrev pub with_mode_column : DeviceState → Option (Option String) → Result DeviceState
  with_mode_column s none = err (driver "Error 1265: Data truncated for column 'mode'")
  with_mode_column s (some m) = ok (record s { mode = m })

  -- A state as the columns hold it, or the error of the first that refuses its value.
  unfoldable pub in_columns : DeviceState → Result DeviceState
  in_columns s =
      if fits_int s.brightness
      then (if fits_int s.temperature
          then elim (with_mode_column s (mode_column s.mode)) [
            | err e ↦ err e
            | ok x ↦
                if fits_int s.position
                then ok x
                else err (driver "Error 1264: Out of range value for column 'position'")
          ]
          else err (driver "Error 1264: Out of range value for column 'temperature'"))
      else err (driver "Error 1264: Out of range value for column 'brightness'")

  unfoldable pub set_row : DeviceState → Db → Result (Unit {0}) × Db
  set_row s db =
      if exists_row (has_id s.device_id) db.devices
      then (
        ok tt,
        record db {
          states =
              if exists_row (is_state_of s.device_id) db.states
              then update_rows (is_state_of s.device_id) (overwritten s) db.states
              else db.states ++ s ∷ [];
        },
      )
      else (err (driver "Error 1452: a foreign key constraint fails (device_states_ibfk_1)"), db)

  abbrev pub set_columns : Result DeviceState → Db → Result (Unit {0}) × Db
  set_columns (err e) db = (err e, db)
  set_columns (ok s) db = set_row s db

  unfoldable pub upsert_row : DeviceState → Db → Result (Unit {0}) × Db
  unfolding in_columns set_row
  upsert_row s db = set_columns (in_columns s) db

  -- `Upsert`.
  unfoldable pub upsert : DeviceState → M (Unit {0})
  unfolding upsert_row statement
  upsert s = wrapping (wrap "upsert device state") (statement (upsert_row s))

  -- Does the join find a device of this owner for the state?
  abbrev pub joins_owner : ℕ → List Device → DeviceState → Bool
  joins_owner owner ds s =
      exists_row
        (λ (d : Device).
          if c.same s.device_id d.device_id then is_owner d.owner_id owner else false)
        ds

  -- `ListByOwner`. The caller makes a map of the rows, so that their order (by room and name) is left
  -- as the table has it.
  unfoldable pub list_by_owner : ℕ → M (List DeviceState)
  unfolding statement
  list_by_owner owner =
      wrapping (wrap "list device states by owner")
        (statement (λ db. (ok (select (joins_owner owner db.devices) db.states), db)))
