-- ===== src/Repo/Devices/Calm.antt =====
-- The statements on devices while the database answers.
use taffy_assistant.Base.{
  ℕ, [], String, false, none, some, ◌≡◌, inl, inr, Option-cases, arith, ◌&&◌, eqb, select_one,
  count_rows, if◌then◌else◌,
}
use taffy_assistant.Errors.{Error, driver, no_rows, wrap}
use taffy_assistant.Model.{Device}
use taffy_assistant.Store.{Collation, World, Result, ok, err}
use taffy_assistant.Repo.Devices.{
  get_by_id, rename, rename_rows, name_columns, has_id, is_renamable, is_changed,
}
use taffy_assistant.Repo.Devices.Writes.{Columns-cases, with_renamed}

refusal : {x : Result (String × String)} {e e' : Error} → x ≡ err e' → x ≡ err e → e ≡ e'
refusal h k = cc

not_both :
    {x : Result (String × String)} {y : String × String} {e : Error} → x ≡ ok y → x ≡ err e → ⊥
not_both h k = cc

module _ ⦃c : Collation⦄ where
  pub get_by_id-missing :
      (id : String) (w : World)
      → w.faults ≡ []
      → select_one (has_id id) w.devices ≡ none
      → get_by_id id w ≡ (err (wrap "get device" no_rows), w)
  unfolding get_by_id
  get_by_id-missing id w calm found = ground arith

  pub get_by_id-found :
      (id : String) (w : World) (o : Device)
      → w.faults ≡ []
      → select_one (has_id id) w.devices ≡ some o
      → get_by_id id w ≡ (ok o, w)
  unfolding get_by_id
  get_by_id-found id w o calm found = ground arith

  -- What a renaming that finds a row is answered, by what the columns make of the texts.
  abbrev pub renaming : String → ℕ → World → Result (String × String) → Result (Unit {0}) × World
  renaming id user w (err e) = (err (wrap "rename device" e), w)
  renaming id user w (ok (n, r)) = (
    if eqb (count_rows (λ d. is_renamable id user d && is_changed n r d) w.devices) 0
        then err no_rows
        else ok tt,
    record w { db = with_renamed id user n r w.db },
  )

  rename-refused :
      (id : String) (user : ℕ) (name room : String) (w : World) (e : Error)
      → w.faults ≡ []
      → eqb (count_rows (is_renamable id user) w.devices) 0 ≡ false
      → name_columns name room ≡ err e
      → rename id user name room w ≡ renaming id user w (err e)
  unfolding rename rename_rows
  rename-refused id user name room w e calm some_found refuses = ground arith

  rename-held :
      (id : String) (user : ℕ) (name room : String) (w : World) (n r : String)
      → w.faults ≡ []
      → eqb (count_rows (is_renamable id user) w.devices) 0 ≡ false
      → name_columns name room ≡ ok (n, r)
      → rename id user name room w ≡ renaming id user w (ok (n, r))
  unfolding rename rename_rows
  rename-held id user name room w n r calm some_found holds = ground arith

  pub rename-calm :
      (id : String) (user : ℕ) (name room : String) (w : World)
      → w.faults ≡ []
      → eqb (count_rows (is_renamable id user) w.devices) 0 ≡ false
      → rename id user name room w ≡ renaming id user w (name_columns name room)
  rename-calm id user name room w calm some_found = elim (Columns-cases (name_columns name room)) [
    | inl (e, refuses) ↦ rw refuses (rename-refused id user name room w e calm some_found refuses)
    | inr (n, r, holds) ↦ rw holds (rename-held id user name room w n r calm some_found holds)
  ]

  long_name :
      (name room : String)
      → c.varchar 50 name ≡ none
      → name_columns name room ≡ err (driver "Error 1406: Data too long for column 'name'")
  unfolding name_columns
  long_name name room long = ground arith

  long_room :
      (name room n : String)
      → c.varchar 50 name ≡ some n
      → c.varchar 50 room ≡ none
      → name_columns name room ≡ err (driver "Error 1406: Data too long for column 'room'")
  unfolding name_columns
  long_room name room n fits long = ground arith

  both_fit :
      (name room n r : String)
      → c.varchar 50 name ≡ some n
      → c.varchar 50 room ≡ some r
      → name_columns name room ≡ ok (n, r)
  unfolding name_columns
  both_fit name room n r fits fits' = ground arith

  -- The texts are refused with an error of the driver.
  pub name_columns-err :
      (name room : String) (e : Error)
      → name_columns name room ≡ err e
      → (t : String) × (e ≡ driver t)
  name_columns-err name room e h = elim (Option-cases (c.varchar 50 name)) [
    | inl long ↦ (_, refusal (long_name name room long) h)
    | inr (n, fits) ↦ elim (Option-cases (c.varchar 50 room)) [
      | inl long ↦ (_, refusal (long_room name room n fits long) h)
      | inr (r, fits') ↦ elim (not_both (both_fit name room n r fits fits') h) [ ]
    ]
  ]
