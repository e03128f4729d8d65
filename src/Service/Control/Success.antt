-- ===== src/Service/Control/Success.antt =====
-- How a command is settled while the database answers.
use taffy_assistant.Base.{
  ℕ, String, Bool, true, false, none, some, List, [], ◌∷◌, ◌≡◌, refl, ◌∙◌, ◌==◌, ◌⧺◌, inl, inr,
  arith, select_one, select_one_holds, exists_row,
}
use taffy_assistant.Model.{Device, DeviceState}
use taffy_assistant.Protocol.{ControlDeviceParams, unmarshal_control}
use taffy_assistant.Json.{Raw}
use taffy_assistant.Store.{Collation, World, Result, ok, err}
use taffy_assistant.Errors.{Error, text_of, wrap}
use taffy_assistant.Repo.Devices.{has_id, is_owner}
use taffy_assistant.Repo.Devices
use taffy_assistant.Repo.Devices.Calm.{get_by_id-found}
use taffy_assistant.Repo.States.{is_state_of, in_columns}
use taffy_assistant.Repo.States
use taffy_assistant.Service.Devices.{
  DeviceService, get_device, get_device_state, update_device_state,
}
use taffy_assistant.Service.Control.{
  CommandReply, refused, done, format_success_message, control, update_and_publish,
  execute_control_device, apply_action, applied, apply_to,
}
use taffy_assistant.Service.Control.Actions.{apply_action-frame}
use taffy_assistant.Service.Control.Atomic.{with_state, with_message, publish-sends, fitted}

module _ ⦃c : Collation⦄ where
  select_one-same :
      (a b : String) (ds : List Device)
      → c.same a b ≡ true
      → select_one (has_id a) ds ≡ select_one (has_id b) ds
  unfolding select_one
  select_one-same a b [] h = refl
  select_one-same a b (d ∷ ds) h = ground (
    arith,
    select_one-same a b ds h,
    c.same_trans d.device_id a b,
    c.same_trans d.device_id b a,
    c.same_sym a b h,
  )

  exists-found :
      (p : Device → Bool) (ds : List Device) (d : Device)
      → select_one p ds ≡ some d
      → exists_row p ds ≡ true
  unfolding select_one exists_row
  exists-found p [] d h = cc
  exists-found p (x ∷ ds) d h = ground (arith, exists-found p ds d)

  get_device-calm :
      (id : String) (w : World) (d : Device)
      → w.faults ≡ []
      → select_one (has_id id) w.devices ≡ some d
      → get_device id w ≡ (ok d, w)
  unfolding get_device Devices.get_by_id
  get_device-calm id w d calm found = ground arith

  pub get_device_state-calm :
      (id : String) (w : World) (x : DeviceState)
      → w.faults ≡ []
      → select_one (is_state_of id) w.states ≡ some x
      → get_device_state id w ≡ (ok x, w)
  unfolding get_device_state States.get
  get_device_state-calm id w x calm found = ground arith

  -- What the storing of a state is answered, by what the columns make of it.
  abbrev pub written : World → Result DeviceState → Result (Unit {0}) × World
  written w (ok y) = (ok tt, record w { db = with_state y w.db })
  written w (err e) = (err (wrap "upsert device state" e), w)

  in_columns-id : (x y : DeviceState) → in_columns x ≡ ok y → y.device_id ≡ x.device_id
  unfolding in_columns
  in_columns-id x y h = ground arith

  upsert-refused :
      (x : DeviceState) (w : World) (e : Error)
      → w.faults ≡ []
      → in_columns x ≡ err e
      → States.upsert x w ≡ (err (wrap "upsert device state" e), w)
  unfolding States.upsert States.upsert_row
  upsert-refused x w e calm refuses = ground arith

  upsert-written :
      (x y : DeviceState) (w : World)
      → w.faults ≡ []
      → in_columns x ≡ ok y
      → exists_row (has_id y.device_id) w.devices ≡ true
      → States.upsert x w ≡ (ok tt, record w { db = with_state y w.db })
  unfolding States.upsert States.upsert_row States.set_row
  upsert-written x y w calm holds known = ground arith

  pub upsert-calm :
      (x : DeviceState) (w : World) (d : Device)
      → w.faults ≡ []
      → select_one (has_id x.device_id) w.devices ≡ some d
      → States.upsert x w ≡ written w (in_columns x)
  upsert-calm x w d calm found = elim (fitted (in_columns x)) [
    | inl (e, refuses) ↦ rw refuses (upsert-refused x w e calm refuses)
    | inr (y, holds) ↦ rw holds (
        upsert-written x y w calm holds
          (rw (in_columns-id x y holds) (exists-found (has_id x.device_id) w.devices d found)))
  ]

  update_device_state-allowed :
      (o : ℕ) (x : DeviceState) (w : World) (d : Device)
      → w.faults ≡ []
      → select_one (has_id x.device_id) w.devices ≡ some d
      → d.owner_id ≡ some o
      → update_device_state o x w ≡ States.upsert x w
  unfolding update_device_state
  update_device_state-allowed o x w d calm found owned =
      ground (arith, get_by_id-found x.device_id w d calm found)

  update_device_state-calm :
      (o : ℕ) (x : DeviceState) (w : World) (d : Device)
      → w.faults ≡ []
      → select_one (has_id x.device_id) w.devices ≡ some d
      → d.owner_id ≡ some o
      → update_device_state o x w ≡ written w (in_columns x)
  update_device_state-calm o x w d calm found owned =
      update_device_state-allowed o x w d calm found owned ∙ upsert-calm x w d calm found

  -- The row that a state belongs to is the device's.
  pub state_row :
      (id : String) (w : World) (d : Device) (x : DeviceState)
      → select_one (has_id id) w.devices ≡ some d
      → select_one (is_state_of id) w.states ≡ some x
      → select_one (has_id x.device_id) w.devices ≡ some d
  state_row id w d x found current =
      select_one-same x.device_id id w.devices
        (select_one_holds (is_state_of id) w.states x current)
      ∙ found

  -- The row that the new state belongs to is the device's.
  applied_row :
      (p : ControlDeviceParams) (w : World) (d : Device) (x x' : DeviceState)
      → select_one (has_id p.device_id) w.devices ≡ some d
      → select_one (is_state_of p.device_id) w.states ≡ some x
      → apply_action x p ≡ applied x'
      → select_one (has_id x'.device_id) w.devices ≡ some d
  applied_row p w d x x' found current act =
      rw (apply_action-frame x x' p act).0 (state_row p.device_id w d x found current)

  -- What a command leaves that is carried out.
  abbrev pub carried : DeviceService → ControlDeviceParams → DeviceState → World → World
  carried s p x w = record w { db = with_state x w.db; published = with_message s p w.published }

  -- What a command is answered whose new state is `x`, by what the columns make of that.
  abbrev pub settled :
      DeviceService
      → ControlDeviceParams
      → Device
      → DeviceState
      → World
      → Result DeviceState
      → Result CommandReply × World
  settled s p d x w (ok y) = (ok (done (format_success_message d p.action x)), carried s p y w)
  settled s p d x w (err e) =
      (ok (refused ("状态更新失败: " ⧺ text_of (wrap "upsert device state" e))), w)

  update_and_publish-calm :
      (s : DeviceService) (p : ControlDeviceParams) (d : Device) (x : DeviceState) (w : World)
      (o : ℕ) (r : Result DeviceState)
      → d.owner_id ≡ some o
      → update_device_state o x w ≡ written w r
      → update_and_publish s p d x w ≡ settled s p d x w r
  unfolding update_and_publish
  update_and_publish-calm s p d x w o (ok y) owned run =
      rw (owned, run, publish-sends s p (record w { db = with_state y w.db })) refl
  update_and_publish-calm s p d x w o (err e) owned run = rw (owned, run) refl

  control-calm :
      (s : DeviceService) (p : ControlDeviceParams) (w : World) (d : Device) (x x' : DeviceState)
      (o : ℕ)
      → w.faults ≡ []
      → select_one (has_id p.device_id) w.devices ≡ some d
      → d.owner_id ≡ some o
      → select_one (is_state_of p.device_id) w.states ≡ some x
      → apply_action x p ≡ applied x'
      → control s p w ≡ settled s p d x' w (in_columns x')
  unfolding control apply_to
  control-calm s p w d x x' o calm found owned current act =
      rw
        (
          get_device-calm p.device_id w d calm found,
          get_device_state-calm p.device_id w x calm current,
          act,
        )
        (update_and_publish-calm s p d x' w o (in_columns x') owned
          (update_device_state-calm o x' w d calm (applied_row p w d x x' found current act) owned))

  -- While the database answers, a command whose parameters decode and name a device that is known and
  -- bound, whose state is known, and to which the action applies, is settled by the columns, whoever
  -- gave it. If they hold the new state, it is stored as they hold it, the message is sent if there is
  -- an MQTT publisher, and the reply is the one for this device, action and state. If they refuse it
  -- (a mode that is none of the ENUM, a number of more than 32 bits), the reply is a refusal with the
  -- database's error, nothing is stored and nothing is sent.
  pub execute_control_device-succeeds :
      (s : DeviceService) (raw : Raw) (w : World) (d : Device) (x x' : DeviceState) (o : ℕ)
      → w.faults ≡ []
      → (unmarshal_control raw).1 ≡ none
      → ((unmarshal_control raw).0.device_id == "") ≡ false
      → select_one (has_id (unmarshal_control raw).0.device_id) w.devices ≡ some d
      → d.owner_id ≡ some o
      → select_one (is_state_of (unmarshal_control raw).0.device_id) w.states ≡ some x
      → apply_action x (unmarshal_control raw).0 ≡ applied x'
      → execute_control_device s raw w ≡ settled s (unmarshal_control raw).0 d x' w (in_columns x')
  unfolding execute_control_device
  execute_control_device-succeeds s raw w d x x' o calm decoded named found owned current act =
      rw (decoded, named)
        (control-calm s (unmarshal_control raw).0 w d x x' o calm found owned current act)
