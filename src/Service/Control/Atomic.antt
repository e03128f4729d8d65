-- ===== src/Service/Control/Atomic.antt =====
-- What `ExecuteControlDevice` may leave behind.
use taffy_assistant.Base.{
  ℕ, List, [], ◌∷◌, ◌++◌, String, Bool, true, false, none, some, ◌≡◌, refl, arith, select_one,
  if◌then◌else◌, exists_row, update_rows, ◌⊎◌, inl, inr, Option-cases, Bool-cases, is_none, ap, ◌∙◌,
  sym, ◌==◌,
}
use taffy_assistant.Errors.{Error}
use taffy_assistant.Model.{Device, DeviceState}
use taffy_assistant.Protocol.{ControlDeviceParams, unmarshal_control}
use taffy_assistant.Json.{Raw}
use taffy_assistant.Store.{Collation, CommandPayload, World, Db, Result, ok, err, Result-cases}
use taffy_assistant.Repo.Devices.{has_id, is_owner}
use taffy_assistant.Repo.Devices
use taffy_assistant.Repo.States.{is_state_of, overwritten, in_columns}
use taffy_assistant.Repo.States
use taffy_assistant.Service.Devices.{
  DeviceService, get_device, get_device_state, update_device_state,
}
use taffy_assistant.Service.Control.{
  CommandReply, control, update_and_publish, execute_control_device, publish_command_best_effort,
  apply_action, applied, mqtt_params, apply_to, Applied-cases,
}

module _ ⦃c : Collation⦄ where
  -- The tables after the state `s` is stored.
  abbrev pub with_state : DeviceState → Db → Db
  with_state s db = record db {
    states =
        if exists_row (is_state_of s.device_id) db.states
        then update_rows (is_state_of s.device_id) (overwritten s) db.states
        else db.states ++ s ∷ [];
  }

  update_device_state-refused :
      (user : ℕ) (s : DeviceState) (w w' : World) (e : Error)
      → update_device_state user s w ≡ (err e, w')
      → (w'.db ≡ w.db) × (w'.published ≡ w.published)
  unfolding update_device_state Devices.get_by_id States.upsert
  update_device_state-refused user s w w' e h = ground arith

  pub fitted :
      (r : Result DeviceState) → ((e : Error) × (r ≡ err e)) ⊎ ((x : DeviceState) × (r ≡ ok x))
  fitted (err e) = inl (e, refl)
  fitted (ok x) = inr (x, refl)

  update_device_state-kept :
      (user : ℕ) (s : DeviceState) (e : Error) (w w' : World)
      → update_device_state user s w ≡ (ok tt, w')
      → in_columns s ≡ err e
      → ⊥
  unfolding update_device_state Devices.get_by_id States.upsert States.upsert_row
  update_device_state-kept user s e w w' h refuses = ground arith

  update_device_state-row :
      (user : ℕ) (s x : DeviceState) (w w' : World)
      → update_device_state user s w ≡ (ok tt, w')
      → in_columns s ≡ ok x
      → (w'.db ≡ with_state x w.db) × (w'.published ≡ w.published)
  unfolding update_device_state Devices.get_by_id States.upsert States.upsert_row States.set_row
  update_device_state-row user s x w w' h holds = ground arith

  update_device_state-stored :
      (user : ℕ) (s : DeviceState) (w w' : World)
      → update_device_state user s w ≡ (ok tt, w')
      → (x : DeviceState) × (in_columns s ≡ ok x)
        × (w'.db ≡ with_state x w.db)
        × (w'.published ≡ w.published)
  update_device_state-stored user s w w' h = elim (fitted (in_columns s)) [
    | inl (e, refuses) ↦ elim (update_device_state-kept user s e w w' h refuses) [ ]
    | inr (x, holds) ↦
        let (stored, sent) = update_device_state-row user s x w w' h holds in
        (x, holds, stored, sent)
  ]

  get_device-err :
      (id : String) (w w' : World) (e : Error)
      → get_device id w ≡ (err e, w')
      → (w'.db ≡ w.db) × (w'.published ≡ w.published)
  unfolding get_device Devices.get_by_id
  get_device-err id w w' e h = ground arith

  get_device_state-err :
      (id : String) (w w' : World) (e : Error)
      → get_device_state id w ≡ (err e, w')
      → (w'.db ≡ w.db) × (w'.published ≡ w.published)
  unfolding get_device_state States.get
  get_device_state-err id w w' e h = ground arith

  get_device-ok :
      (id : String) (w w' : World) (d : Device)
      → get_device id w ≡ (ok d, w')
      → (select_one (has_id id) w.devices ≡ some d) × (w'.db ≡ w.db) × (w'.published ≡ w.published)
  unfolding get_device Devices.get_by_id
  get_device-ok id w w' d h = ground arith

  get_device_state-ok :
      (id : String) (w w' : World) (s : DeviceState)
      → get_device_state id w ≡ (ok s, w')
      → (select_one (is_state_of id) w.states ≡ some s)
        × (w'.db ≡ w.db)
        × (w'.published ≡ w.published)
  unfolding get_device_state States.get
  get_device_state-ok id w w' s h = ground arith

  -- The messages after a command that is carried out.
  abbrev pub with_message :
      DeviceService
      → ControlDeviceParams
      → List (String × CommandPayload)
      → List (String × CommandPayload)
  with_message s p sent =
      if s.mqtt_pub
      then sent
        ++ (p.device_id, record { tool_id = ""; action = p.action; params = mqtt_params p }) ∷ []
      else sent

  -- Nothing is stored and nothing is sent.
  abbrev pub Untouched : World → World → Type 0
  Untouched w w' = (w'.db ≡ w.db) × (w'.published ≡ w.published)

  -- The command is carried out: the device is known and has an owner, its state is known, the new
  -- state is stored and the message sent.
  abbrev pub Done : DeviceService → ControlDeviceParams → World → World → Type 0
  Done s p w w' =
      (d : Device) × (x : DeviceState) × (x' : DeviceState) × (y : DeviceState) × (select_one
          (has_id p.device_id) w.devices
        ≡ some d)
      × (is_none d.owner_id ≡ false)
      × (select_one (is_state_of p.device_id) w.states ≡ some x)
      × (apply_action x p ≡ applied x')
      × (in_columns x' ≡ ok y)
      × (w'.db ≡ with_state y w.db)
      × (w'.published ≡ with_message s p w.published)

  abbrev EffectOf : DeviceService → ControlDeviceParams → Bool → World → World → Type 0
  EffectOf s p false w w' = Untouched w w'
  EffectOf s p true w w' = Done s p w w'

  -- The answer is never an error of Go; a success is `Done` and a refusal leaves all `Untouched`.
  abbrev pub Effect :
      DeviceService → ControlDeviceParams → World → Result CommandReply × World → Type 0
  Effect s p w (ok r, w') = EffectOf s p r.success w w'
  Effect s p w (err e, w') = ⊥

  pub publish-sends :
      (s : DeviceService) (p : ControlDeviceParams) (w : World)
      → publish_command_best_effort s p w
        ≡ (ok tt, record w { published = with_message s p w.published })
  unfolding publish_command_best_effort
  publish-sends s p w = elim (Bool-cases s.mqtt_pub) [ inl h ↦ rw h refl | inr h ↦ rw h refl ]

  Untouched-trans : (u v w : World) → Untouched u v → Untouched v w → Untouched u w
  Untouched-trans u v w h k = (k.0 ∙ h.0, k.1 ∙ h.1)

  Effect-unowned :
      (s : DeviceService) (p : ControlDeviceParams) (d : Device) (x' : DeviceState) (w v : World)
      → Untouched w v
      → d.owner_id ≡ none
      → Effect s p w (update_and_publish s p d x' v)
  unfolding update_and_publish
  Effect-unowned s p d x' w v h unowned = rw unowned h

  Effect-failed :
      (s : DeviceService) (p : ControlDeviceParams) (d : Device) (x' : DeviceState) (w v v' : World)
      (o : ℕ) (e : Error)
      → Untouched w v
      → d.owner_id ≡ some o
      → update_device_state o x' v ≡ (err e, v')
      → Effect s p w (update_and_publish s p d x' v)
  unfolding update_and_publish
  Effect-failed s p d x' w v v' o e h owned run =
      rw (owned, run) (Untouched-trans w v v' h (update_device_state-refused o x' v v' e run))

  Effect-stored :
      (s : DeviceService) (p : ControlDeviceParams) (d : Device) (x x' : DeviceState)
      (w v v' : World) (o : ℕ)
      → Untouched w v
      → select_one (has_id p.device_id) w.devices ≡ some d
      → select_one (is_state_of p.device_id) w.states ≡ some x
      → apply_action x p ≡ applied x'
      → d.owner_id ≡ some o
      → update_device_state o x' v ≡ (ok tt, v')
      → Effect s p w (update_and_publish s p d x' v)
  unfolding update_and_publish
  Effect-stored s p d x x' w v v' o h found current act owned run =
      let (y, holds, stored, sent) = update_device_state-stored o x' v v' run in
      rw (owned, run, publish-sends s p v')
        (
          d,
          x,
          x',
          y,
          found,
          rw owned refl,
          current,
          act,
          holds,
          stored ∙ ap (with_state y) h.0,
          ap (with_message s p) (sent ∙ h.1),
        )

  update_and_publish-Effect :
      (s : DeviceService) (p : ControlDeviceParams) (d : Device) (x x' : DeviceState) (w v : World)
      → Untouched w v
      → select_one (has_id p.device_id) w.devices ≡ some d
      → select_one (is_state_of p.device_id) w.states ≡ some x
      → apply_action x p ≡ applied x'
      → Effect s p w (update_and_publish s p d x' v)
  update_and_publish-Effect s p d x x' w v h found current act = elim (Option-cases d.owner_id) [
    | inl unowned ↦ Effect-unowned s p d x' w v h unowned
    | inr (o, owned) ↦ elim (Result-cases (update_device_state o x' v)) [
      | inl (e, v', run) ↦ Effect-failed s p d x' w v v' o e h owned run
      | inr (_, v', run) ↦ Effect-stored s p d x x' w v v' o h found current act owned run
    ]
  ]

  state-Effect :
      (s : DeviceService) (p : ControlDeviceParams) (d : Device) (x : DeviceState) (w v : World)
      → Untouched w v
      → select_one (has_id p.device_id) w.devices ≡ some d
      → select_one (is_state_of p.device_id) w.states ≡ some x
      → Effect s p w (apply_to s p d x v)
  unfolding apply_to
  state-Effect s p d x w v h found current = elim (Applied-cases (apply_action x p)) [
    | inl (message, act) ↦ rw act h
    | inr (x', act) ↦ rw act (update_and_publish-Effect s p d x x' w v h found current act)
  ]

  control-Effect :
      (s : DeviceService) (p : ControlDeviceParams) (w : World) → Effect s p w (control s p w)
  unfolding control
  control-Effect s p w = elim (Result-cases (get_device p.device_id w)) [
    | inl (e, v, run) ↦ rw run (get_device-err p.device_id w v e run)
    | inr (d, v, run) ↦
        let (found, h, h') = get_device-ok p.device_id w v d run in
        elim (Result-cases (get_device_state p.device_id v)) [
          | inl (e, u, next) ↦
              rw (run, next)
                (Untouched-trans w v u (h, h') (get_device_state-err p.device_id v u e next))
          | inr (x, u, next) ↦
              let (current, k, k') = get_device_state-ok p.device_id v u x next in
              rw (run, next)
                (state-Effect s p d x w u (Untouched-trans w v u (h, h') (k, k')) found (
                  ap (λ (db : Db). select_one (is_state_of p.device_id) db.states) (sym h)
                  ∙ current))
        ]
  ]

  abbrev AnsweredOf : DeviceService → Raw → Bool → World → World → Type 0
  AnsweredOf s raw false w w' = Untouched w w'
  AnsweredOf s raw true w w' =
      ((unmarshal_control raw).1 ≡ none)
      × (((unmarshal_control raw).0.device_id == "") ≡ false)
      × Done s (unmarshal_control raw).0 w w'

  -- As `Effect`, and a success is of parameters that decode and name a device.
  abbrev pub Answered : DeviceService → Raw → World → Result CommandReply × World → Type 0
  Answered s raw w (ok r, w') = AnsweredOf s raw r.success w w'
  Answered s raw w (err e, w') = ⊥

  EffectOf-Answered :
      (s : DeviceService) (raw : Raw) (success : Bool) (w w' : World)
      → (unmarshal_control raw).1 ≡ none
      → ((unmarshal_control raw).0.device_id == "") ≡ false
      → EffectOf s (unmarshal_control raw).0 success w w'
      → AnsweredOf s raw success w w'
  EffectOf-Answered s raw false w w' decoded named h = h
  EffectOf-Answered s raw true w w' decoded named h = (decoded, named, h)

  Effect-Answered :
      (s : DeviceService) (raw : Raw) (w : World) (o : Result CommandReply × World)
      → (unmarshal_control raw).1 ≡ none
      → ((unmarshal_control raw).0.device_id == "") ≡ false
      → Effect s (unmarshal_control raw).0 w o
      → Answered s raw w o
  Effect-Answered s raw w (ok r, w') decoded named h =
      EffectOf-Answered s raw r.success w w' decoded named h
  Effect-Answered s raw w (err e, w') decoded named h = h

  -- Whatever the parameters, the tables and the outages are, where a statement that fails writes
  -- nothing: the answer of `ExecuteControlDevice` is never an error of Go. If it is a refusal, nothing
  -- is stored and nothing is sent. If it is a success, then the parameters decode without an error and
  -- their device id is not empty, the device is known and has an owner, its state is known and the
  -- action applies to it, the new state, as the columns hold it, and nothing else is stored, and
  -- exactly one message is sent, under the device id that the parameters give, if there is an MQTT
  -- publisher, and none otherwise.
  pub execute_control_device-atomic :
      (s : DeviceService) (raw : Raw) (w : World)
      → Answered s raw w (execute_control_device s raw w)
  unfolding execute_control_device
  execute_control_device-atomic s raw w = elim (Option-cases (unmarshal_control raw).1) [
    | inl decoded ↦ elim (Bool-cases ((unmarshal_control raw).0.device_id == "")) [
      | inl blank ↦ rw (decoded, blank) (refl, refl)
      | inr named ↦
          rw (decoded, named)
            (Effect-Answered s raw w (control s (unmarshal_control raw).0 w) decoded named
              (control-Effect s (unmarshal_control raw).0 w))
    ]
    | inr (t, failed) ↦ rw failed (refl, refl)
  ]
