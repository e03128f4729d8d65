-- ===== src/Service/Devices/Ownership.antt =====
-- Who may change a device: `RenameDevice`, `UnbindDevice`, `UpdateDeviceState`, and who may speak for
-- one: `ValidateDeviceCredential`.
use taffy_assistant.Base.{
  ℕ, [], String, Bool, true, false, ◌&&◌, not, none, some, ◌≡◌, refl, ◌==◌, eqb, ap, ◌∙◌,
  Bool-cases, inl, inr, Option-cases, arith, select_one, count_rows, select_one_holds,
  if◌then◌else◌, eq_iff,
}
use taffy_assistant.Errors.{driver, wrap, device_not_found, not_device_owner, invalid_device_token}
use taffy_assistant.Model.{Device, DeviceState}
use taffy_assistant.Store.{Collation, World, Result, ok, err, is_ok}
use taffy_assistant.Repo.Devices.{
  get_by_id, delete, rename, name_columns, has_id, is_owner, is_renamable, is_changed,
  without_device,
}
use taffy_assistant.Repo.Devices.Keys.{Unique, count_one}
use taffy_assistant.Repo.Devices.Calm.{
  get_by_id-missing, get_by_id-found, rename-calm, renaming, name_columns-err,
}
use taffy_assistant.Repo.Devices.Writes.{with_renamed, Columns-cases}
use taffy_assistant.Service.Devices.{
  rename_device, unbind_device, update_device_state, validate_device_credential, is_unregistered,
}

module _ ⦃c : Collation⦄ where
  -- The credentials that a device has.
  abbrev pub is_accepted : String → String → Device → Bool
  is_accepted id token d =
      not (id == "") && (not (token == "") && (d.token == token && not (is_unregistered d.status)))

  changed_rows :
      (id name room : String) (user : ℕ) (w : World) (o : Device)
      → Unique w.devices
      → select_one (has_id id) w.devices ≡ some o
      → count_rows (λ d. is_renamable id user d && is_changed name room d) w.devices
        ≡ (elim (is_renamable id user o && is_changed name room o) [ true ↦ 1 | false ↦ 0 ])
  changed_rows id name room user w o keys found =
      count_one (λ d. is_renamable id user d && is_changed name room d) id w.devices o keys
        (λ d h. ground arith) found

  own_rows :
      (id : String) (user : ℕ) (w : World) (o : Device)
      → Unique w.devices
      → select_one (has_id id) w.devices ≡ some o
      → is_owner o.owner_id user ≡ true
      → eqb (count_rows (is_renamable id user) w.devices) 0 ≡ false
  own_rows id user w o keys found mine = ground (
    arith,
    count_one (is_renamable id user) id w.devices o keys (λ d h. ground arith) found,
    select_one_holds (has_id id) w.devices o found,
  )

  -- What a renaming by the owner is answered, by what the columns make of the texts.
  abbrev pub owner_answer :
      ℕ → String → World → Device → Result (String × String) → Result (Unit {0}) × World
  owner_answer user id w o (err e) = (err (wrap "rename device" (wrap "rename device" e)), w)
  owner_answer user id w o (ok (n, r)) = (
    if is_changed n r o then ok tt else err not_device_owner,
    record w { db = with_renamed id user n r w.db },
  )

  -- What a renaming of the device `o` is answered.
  abbrev pub rename_answer :
      ℕ → String → String → String → World → Device → Result (Unit {0}) × World
  rename_answer user id name room w o =
      if is_owner o.owner_id user
      then owner_answer user id w o (name_columns name room)
      else (err not_device_owner, w)

  rename_missing :
      (user : ℕ) (id name room : String) (w : World)
      → w.faults ≡ []
      → (id == "") ≡ false
      → select_one (has_id id) w.devices ≡ none
      → rename_device user id name room w ≡ (err device_not_found, w)
  unfolding rename_device
  rename_missing user id name room w calm named missing =
      ground (arith, get_by_id-missing id w calm missing)

  rename_stranger :
      (user : ℕ) (id name room : String) (w : World) (o : Device)
      → w.faults ≡ []
      → (id == "") ≡ false
      → select_one (has_id id) w.devices ≡ some o
      → is_owner o.owner_id user ≡ false
      → rename_device user id name room w ≡ (err not_device_owner, w)
  unfolding rename_device
  rename_stranger user id name room w o calm named found other =
      ground (arith, get_by_id-found id w o calm found)

  rename_refused :
      (user : ℕ) (id name room t : String) (w : World) (o : Device)
      → w.faults ≡ []
      → (id == "") ≡ false
      → select_one (has_id id) w.devices ≡ some o
      → is_owner o.owner_id user ≡ true
      → rename id user name room w ≡ renaming id user w (err (driver t))
      → rename_device user id name room w ≡ owner_answer user id w o (err (driver t))
  unfolding rename_device
  rename_refused user id name room t w o calm named found mine run =
      rw (named, get_by_id-found id w o calm found, mine, run) refl

  rename_held :
      (user : ℕ) (id name room n r : String) (w : World) (o : Device)
      → Unique w.devices
      → w.faults ≡ []
      → (id == "") ≡ false
      → select_one (has_id id) w.devices ≡ some o
      → is_owner o.owner_id user ≡ true
      → rename id user name room w ≡ renaming id user w (ok (n, r))
      → rename_device user id name room w ≡ owner_answer user id w o (ok (n, r))
  unfolding rename_device
  rename_held user id name room n r w o keys calm named found mine run = ground (
    arith,
    get_by_id-found id w o calm found,
    run,
    changed_rows id n r user w o keys found,
    select_one_holds (has_id id) w.devices o found,
  )

  rename_own :
      (user : ℕ) (id name room : String) (w : World) (o : Device)
      → Unique w.devices
      → w.faults ≡ []
      → (id == "") ≡ false
      → select_one (has_id id) w.devices ≡ some o
      → is_owner o.owner_id user ≡ true
      → rename_device user id name room w ≡ owner_answer user id w o (name_columns name room)
  rename_own user id name room w o keys calm named found mine =
      let run = rename-calm id user name room w calm (own_rows id user w o keys found mine) in
      elim (Columns-cases (name_columns name room)) [
        | inl (e, refuses) ↦
            let (t, e') = name_columns-err name room e refuses in
            let refuses' = refuses ∙ ap err e' in
            rw refuses' (
              rename_refused user id name room t w o calm named found mine
                (run ∙ ap (renaming id user w) refuses'))
        | inr (n, r, holds) ↦ rw holds (
            rename_held user id name room n r w o keys calm named found mine
              (run ∙ ap (renaming id user w) holds))
      ]

  rename_found :
      (user : ℕ) (id name room : String) (w : World) (o : Device)
      → Unique w.devices
      → w.faults ≡ []
      → (id == "") ≡ false
      → select_one (has_id id) w.devices ≡ some o
      → rename_device user id name room w ≡ rename_answer user id name room w o
  rename_found user id name room w o keys calm named found =
      elim (Bool-cases (is_owner o.owner_id user)) [
        | inl mine ↦ rw mine (rename_own user id name room w o keys calm named found mine)
        | inr other ↦ rw other (rename_stranger user id name room w o calm named found other)
      ]

  -- While the database answers and device ids are unique, a renaming with an id that is not empty is
  -- answered as follows: `device not found` and no change if the id is unknown; `not device owner` and
  -- no change if the device is another's or nobody's; and if the caller owns it: the
  -- database's error and no change if a column refuses the name or the room (VARCHAR(50)); success,
  -- with the name and the room stored as the columns hold them, if one of them differs from what is
  -- stored; and `not device owner` if both are what is stored already.
  pub rename_device-answer :
      (user : ℕ) (id name room : String) (w : World)
      → Unique w.devices
      → w.faults ≡ []
      → (id == "") ≡ false
      → rename_device user id name room w ≡ (elim (select_one (has_id id) w.devices) [
        | none ↦ (err device_not_found, w)
        | some o ↦ rename_answer user id name room w o
      ])
  unfolding rename_device
  rename_device-answer user id name room w keys calm named =
      elim (Option-cases (select_one (has_id id) w.devices)) [
        | inl missing ↦ rw missing (rename_missing user id name room w calm named missing)
        | inr (o, found) ↦ rw found (rename_found user id name room w o keys calm named found)
      ]

  -- While the database answers, an unbinding with an id that is not empty removes the device with its
  -- states and commands exactly if the caller owns it; otherwise it changes nothing and says whether
  -- the device is unknown or another's.
  pub unbind_device-answer :
      (user : ℕ) (id : String) (w : World)
      → w.faults ≡ []
      → (id == "") ≡ false
      → unbind_device user id w ≡ (elim (select_one (has_id id) w.devices) [
        | none ↦ (err device_not_found, w)
        | some o ↦
            if is_owner o.owner_id user
            then (ok tt, record w { db = without_device id w.db })
            else (err not_device_owner, w)
      ])
  unfolding unbind_device get_by_id delete
  unbind_device-answer user id w calm named = ground arith

  -- Whatever fails, an update of a state by somebody who does not own the device leaves the tables as
  -- they are and is refused.
  pub update_device_state-guard :
      (user : ℕ) (s : DeviceState) (w : World) (o : Device)
      → select_one (has_id s.device_id) w.devices ≡ some o
      → is_owner o.owner_id user ≡ false
      → (is_ok (update_device_state user s w).0 ≡ false)
        × ((update_device_state user s w).1.db ≡ w.db)
  unfolding update_device_state get_by_id
  update_device_state-guard user s w o found other = ground arith

  credential_missing :
      (id token : String) (w : World)
      → w.faults ≡ []
      → select_one (has_id id) w.devices ≡ none
      → validate_device_credential id token w ≡ (err invalid_device_token, w)
  unfolding validate_device_credential
  credential_missing id token w calm missing = ground (arith, get_by_id-missing id w calm missing)

  credential_found :
      (id token : String) (w : World) (o : Device)
      → w.faults ≡ []
      → select_one (has_id id) w.devices ≡ some o
      → validate_device_credential id token w
        ≡ (if is_accepted id token o then (ok o, w) else (err invalid_device_token, w))
  unfolding validate_device_credential
  credential_found id token w o calm found = ground (
    arith,
    get_by_id-found id w o calm found,
    eq_iff o.token "",
    eq_iff o.token token,
    eq_iff token "",
  )

  -- While the database answers, the credentials of a device are accepted exactly if neither is empty,
  -- the device is known, its token is the one given (compared exactly, by Go) and it is not
  -- unregistered; they are refused with one and the same error in all other cases; and the tables are
  -- left alone.
  pub validate_device_credential-exact :
      (id token : String) (w : World)
      → w.faults ≡ []
      → validate_device_credential id token w ≡ (elim (select_one (has_id id) w.devices) [
        | none ↦ (err invalid_device_token, w)
        | some o ↦ if is_accepted id token o then (ok o, w) else (err invalid_device_token, w)
      ])
  validate_device_credential-exact id token w calm =
      elim (Option-cases (select_one (has_id id) w.devices)) [
        | inl missing ↦ rw missing (credential_missing id token w calm missing)
        | inr (o, found) ↦ rw found (credential_found id token w o calm found)
      ]
