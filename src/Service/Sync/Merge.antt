-- ===== src/Service/Sync/Merge.antt =====
-- How a report of a device changes its state: `NewMQTTStatusHandler` and `SyncStateFromDevice`.
use taffy_assistant.Base.{
  String, Bool, true, false, Option, none, some, [], ℤ, ◌≡◌, refl, ◌==◌, select_one, if◌then◌else◌,
}
use taffy_assistant.Model.{Device, DeviceState}
use taffy_assistant.Store.{Collation, World, Result, ok, err}
use taffy_assistant.Repo.Devices.{has_id}
use taffy_assistant.Repo.States.{is_state_of, in_columns}
use taffy_assistant.Repo.States
use taffy_assistant.Service.Sync.{
  StatusPayload, merge_status, or_old, or_old_ptr, sync_state_from_device, on_status,
}
use taffy_assistant.Service.Devices.{get_device_state}
use taffy_assistant.Service.Control.Atomic.{with_state}
use taffy_assistant.Service.Control.Success.{get_device_state-calm, upsert-calm, written, state_row}

-- A field after a report: what is reported, or what it was.
abbrev pub Field : {A : Type 0} → Option A → A → A → Type 0
Field none old new = new ≡ old
Field (some x) old new = new ≡ x

-- The same of a field that may be missing.
abbrev pub PtrField : Option ℤ → Option ℤ → Option ℤ → Type 0
PtrField none old new = new ≡ old
PtrField (some x) old new = new ≡ some x

abbrev pub ModeField : Bool → String → Option String → Option String → Type 0
ModeField true mode old new = new ≡ old
ModeField false mode old new = new ≡ some mode

-- The state `x'` is the state `x` with what is reported, field by field.
abbrev pub Merged : StatusPayload → DeviceState → DeviceState → Type 0
Merged p x x' =
    Field p.power x.power x'.power
    × PtrField p.brightness x.brightness x'.brightness
    × PtrField p.temperature x.temperature x'.temperature
    × ModeField (p.mode == "") p.mode x.mode x'.mode
    × PtrField p.position x.position x'.position

or_old-Field : {A : Type 0} (r : Option A) (old : A) → Field r old (or_old r old)
or_old-Field none old = refl
or_old-Field (some x) old = refl

or_old_ptr-PtrField : (r : Option ℤ) (old : Option ℤ) → PtrField r old (or_old_ptr r old)
or_old_ptr-PtrField none old = refl
or_old_ptr-PtrField (some x) old = refl

mode-ModeField :
    (blank : Bool) (mode : String) (old : Option String)
    → ModeField blank mode old (if blank then old else some mode)
mode-ModeField true mode old = refl
mode-ModeField false mode old = refl

merge_status-Merged : (x : DeviceState) (p : StatusPayload) → Merged p x (merge_status x p)
unfolding merge_status
merge_status-Merged x p = (
  or_old-Field p.power x.power,
  or_old_ptr-PtrField p.brightness x.brightness,
  or_old_ptr-PtrField p.temperature x.temperature,
  mode-ModeField (p.mode == "") p.mode x.mode,
  or_old_ptr-PtrField p.position x.position,
)

module _ ⦃c : Collation⦄ where
  -- The world after a report, by what the columns make of the new state.
  abbrev pub reported : World → Result DeviceState → World
  reported w (ok y) = record w { db = with_state y w.db }
  reported w (err e) = w

  logged :
      (p : StatusPayload) (w : World) (x : DeviceState) (r : Result DeviceState)
      → (p.device_id == "") ≡ false
      → get_device_state p.device_id w ≡ (ok x, w)
      → States.upsert (merge_status x p) w ≡ written w r
      → on_status p w ≡ (ok tt, reported w r)
  unfolding on_status sync_state_from_device
  logged p w x (ok y) named read run = rw (named, read, run) refl
  logged p w x (err e) named read run = rw (named, read, run) refl

  -- While the database answers, a report of a device that is known and has a state sets in its row of
  -- the states exactly the fields that are reported (a mode where it is not empty) and keeps the
  -- others, if the columns hold the result; otherwise, and in all else, it changes nothing. The handler
  -- returns normally either way.
  pub on_status-merges :
      (p : StatusPayload) (w : World) (d : Device) (x : DeviceState)
      → w.faults ≡ []
      → (p.device_id == "") ≡ false
      → select_one (has_id p.device_id) w.devices ≡ some d
      → select_one (is_state_of p.device_id) w.states ≡ some x
      → (x' : DeviceState) × Merged p x x'
        × (x'.device_id ≡ x.device_id)
        × (on_status p w ≡ (ok tt, reported w (in_columns x')))
  unfolding merge_status
  on_status-merges p w d x calm named found current = (
    merge_status x p,
    merge_status-Merged x p,
    refl,
    logged p w x (in_columns (merge_status x p)) named
        (get_device_state-calm p.device_id w x calm current)
        (upsert-calm (merge_status x p) w d calm (state_row p.device_id w d x found current)),
  )
