-- ===== src/Voice/Moves/Entry.antt =====
-- The entry of the voice sessions, by what the statements of a session do.
use taffy_assistant.Base.{
  ℕ, String, Bool, true, false, Option, none, some, List, [], ◌≡◌, refl, arith, ◌==◌, is_none, ◌||◌,
  if◌then◌else◌, inl, inr, Bool-cases,
}
use taffy_assistant.Model.{Device}
use taffy_assistant.Protocol.{DeviceContext}
use taffy_assistant.Store.{Collation, World, Result, ok, err}
use taffy_assistant.Store.Moves.{
  Preorder, Moves, moves_pure, moves_fail, moves_if, moves_reading, moves_wrapping, moves_try,
  moves_bind, moves_result,
}
use taffy_assistant.Repo.Devices as DeviceRows
use taffy_assistant.Repo.States as StateRows
use taffy_assistant.Service.Devices.{DeviceService}
use taffy_assistant.Service.Devices
use taffy_assistant.Service.Moves.{device-Moves}
use taffy_assistant.Service.Context.{build_device_context, items_of_owner}
use taffy_assistant.Voice.Auth.{authenticate_device, found_or_nil}
use taffy_assistant.Voice.Session.{VoiceSession, new_voice_session}
use taffy_assistant.Voice.Command.{VoiceHandler}
use taffy_assistant.Voice.Pump.{Event, run}
use taffy_assistant.Voice.Open.{
  Door, Served, world_of, serve_voice, open_session, push_device_context, finish, build_worker_url,
}
use taffy_assistant.Voice.Open
use taffy_assistant.Voice.Moves.{Talking, start_session-Moves, end_session-Moves}
use taffy_assistant.Voice.Moves.Lines.{run-Moves}

module _ ⦃c : Collation⦄ {o : Preorder} where
  get_device-Moves : (id : String) → Moves o (Devices.get_device id)
  unfolding Devices.get_device
  get_device-Moves id = moves_wrapping _ (device-Moves id)

  list_devices-Moves : (owner : ℕ) → Moves o (Devices.list_devices_by_owner owner)
  unfolding Devices.list_devices_by_owner DeviceRows.list_by_owner
  list_devices-Moves owner = moves_reading (λ w. ground arith)

  list_states-Moves : (owner : ℕ) → Moves o (Devices.list_device_states_by_owner owner)
  unfolding Devices.list_device_states_by_owner StateRows.list_by_owner
  list_states-Moves owner = moves_reading (λ w. ground arith)

  items-Moves : (owner : Option ℕ) → Moves o (items_of_owner owner)
  items-Moves none = moves_pure
  items-Moves (some u) =
      moves_bind (moves_wrapping _ (list_devices-Moves u))
        (λ ds. moves_bind (moves_wrapping _ (list_states-Moves u)) (λ ss. moves_pure))

  context-Moves : (id : String) → Moves o (build_device_context id)
  unfolding build_device_context
  context-Moves id =
      moves_bind (moves_wrapping _ (get_device-Moves id)) (λ d. items-Moves d.owner_id)

  credential-Moves : (id token : String) → Moves o (Devices.validate_device_credential id token)
  unfolding Devices.validate_device_credential
  credential-Moves id token =
      moves_if _ moves_fail (moves_bind (moves_wrapping _ (device-Moves id)) (λ d. checked d))
    where
      checked : (d : Device) → Moves o (Devices.checked_credential token d)
      checked d =
          moves_if (d.token == "") moves_fail
            (moves_if (d.token == token) (moves_if _ moves_fail moves_pure) moves_fail)

  authenticate-Moves :
      (on : Bool) (s : Option DeviceService) (id token : String)
      → Moves o (authenticate_device on s id token)
  unfolding authenticate_device
  authenticate-Moves false none id token = moves_pure
  authenticate-Moves false (some s) id token = moves_if _ moves_pure (
      moves_bind (moves_try (get_device-Moves id))
        (moves_result found_or_nil (λ e. moves_pure) (λ d. moves_pure)))
  authenticate-Moves true none id token = moves_pure
  authenticate-Moves true (some s) id token =
      moves_if _ moves_fail (moves_bind (credential-Moves id token) (λ d. moves_pure))

pushed-world : (x : Result (List DeviceContext) × World) → (Open.pushed x).1 ≡ x.1
pushed-world (ok items, w) = refl
pushed-world (err e, w) = refl

module _ ⦃c : Collation⦄ {o : Preorder} (h : Talking o) where
  push-Moves :
      (v : VoiceHandler) (id : String) (w : World) → o.rel w.db (push_device_context v id w).1.db
  unfolding push_device_context
  push-Moves v id w = pushing (is_none v.device_svc || (id == ""))
    where
      pushing :
          (b : Bool)
          → o.rel w.db (if b then ([], w) else Open.pushed (build_device_context id w)).1.db
      pushing true = o.stay w.db
      pushing false =
          rw (pushed-world (build_device_context id w)) ((context-Moves {o = o} id).along w)

  starting-Moves :
      (device : Option Device) (id : String) (s : VoiceSession) (w : World)
      → o.rel w.db (Open.starting device id (s, w)).1.db
  starting-Moves none id s w = o.stay w.db
  starting-Moves (some d) id s w = by_owner d.owner_id
    where
      by_owner :
          (owner : Option ℕ)
          → o.rel w.db (Open.starting (some (record d { owner_id = owner })) id (s, w)).1.db
      by_owner none = o.stay w.db
      by_owner (some user) = start_session-Moves h user id s w

  talked-Moves :
      (d : Door) (id : String) (device : Option Device) (events : List Event) (w : World)
      → o.rel w.db (finish (run d.handler events (open_session d id device w))).line.world.db
  unfolding finish open_session
  talked-Moves d id device events w =
      let start = open_session d id device w in
      let last = run d.handler events start in
      o.chain w.db start.line.world.db (finish last).line.world.db
        (o.chain w.db (push_device_context d.handler id w).1.db start.line.world.db
          (push-Moves d.handler id w)
          (starting-Moves device id (new_voice_session d.conv)
            (push_device_context d.handler id w).1))
        (o.chain start.line.world.db last.line.world.db (finish last).line.world.db
          (run-Moves h d.handler events start)
          (end_session-Moves h last.line.session last.line.world))

  dialled-Moves :
      (d : Door) (id : String) (device : Option Device) (events : List Event) (w : World)
      (url : Option String)
      → o.rel w.db (world_of (Open.dialled d id device events w url)).db
  dialled-Moves d id device events w none = o.stay w.db
  dialled-Moves d id device events w (some url) = elim (Bool-cases (d.reached url)) [
    | inl yes_reached ↦ rw yes_reached (talked-Moves d id device events w)
    | inr not_reached ↦ rw not_reached (o.stay w.db)
  ]

  entered-Moves :
      (d : Door) (id : String) (events : List Event) (x : Result (Option Device) × World)
      → o.rel x.1.db (world_of (Open.entered d id events x)).db
  entered-Moves d id events (err e, w) = o.stay w.db
  entered-Moves d id events (ok device, w) = ifs d.upgraded (d.worker_ws_url == "")
    where
      ifs :
          (b1 b2 : Bool)
          → o.rel w.db
              (world_of (
                if b1
                then (if b2
                    then Served.failed "worker not configured" w
                    else Open.dialled d id device events w
                        (build_worker_url d.set_query d.time d.worker_ws_url id))
                else Served.not_upgraded w)).db
      ifs false b2 = o.stay w.db
      ifs true true = o.stay w.db
      ifs true false = dialled-Moves d id device events w _

  pub serve_voice-Moves :
      (d : Door) (id token : String) (events : List Event) (w : World)
      → o.rel w.db (world_of (serve_voice d id token events w)).db
  unfolding serve_voice
  serve_voice-Moves d id token events w =
      let x = authenticate_device d.auth_enabled d.handler.device_svc id token w in
      o.chain w.db x.1.db (world_of (Open.entered d id events x)).db
        ((authenticate-Moves {o = o} d.auth_enabled d.handler.device_svc id token).along w)
        (entered-Moves d id events x)
