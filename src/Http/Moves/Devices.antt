-- ===== src/Http/Moves/Devices.antt =====
-- The handlers of devices and scenes, by what their statements do.
use taffy_assistant.Base.{ℕ, String, Bool, Option, none, some, is_none, arith, ◌==◌, trim_space}
use taffy_assistant.Json.{Raw}
use taffy_assistant.Model.{DeviceState, Scene}
use taffy_assistant.Store.{Collation, Result, ok, err}
use taffy_assistant.Store.Moves.{
  Preorder, Moves, moves_pure, moves_if, moves_reading, moves_try, moves_bind, moves_result,
}
use taffy_assistant.Repo.Devices as DeviceRows
use taffy_assistant.Repo.States
use taffy_assistant.Repo.Scenes as SceneRows
use taffy_assistant.Service.Devices.{DeviceService}
use taffy_assistant.Service.Devices as DeviceServices
use taffy_assistant.Service.Control.{execute_control_device}
use taffy_assistant.Service.Scenes as SceneServices
use taffy_assistant.Service.Moves.{
  Statements, scene-Moves, bind_device-Moves, rename_device-Moves, update_device_state-Moves,
  get_device_state-Moves,
}
use taffy_assistant.Service.Moves.Scenes.{
  execute_control_device-Moves, trigger-Moves, create_scene-Moves, update_scene-Moves,
  delete_scene-Moves,
}
use taffy_assistant.Http.Reply.{UpdateDeviceStateRequest, decode_update, decode_bind, decode_rename}
use taffy_assistant.Http.Devices
use taffy_assistant.Http.Scenes

module _ ⦃c : Collation⦄ {o : Preorder} {actor : ℕ} (h : Statements o actor) where
  devices-Moves : (owner : ℕ) → Moves o (DeviceServices.list_devices_by_owner owner)
  unfolding DeviceServices.list_devices_by_owner DeviceRows.list_by_owner
  devices-Moves owner = moves_reading (λ w. ground arith)

  states-Moves : (owner : ℕ) → Moves o (DeviceServices.list_device_states_by_owner owner)
  unfolding DeviceServices.list_device_states_by_owner States.list_by_owner
  states-Moves owner = moves_reading (λ w. ground arith)

  bindable-Moves : Moves o DeviceServices.list_bindable
  unfolding DeviceServices.list_bindable DeviceRows.list_bindable
  bindable-Moves = moves_reading (λ w. ground arith)

  pub list_devices-Moves : Moves o (Devices.list_devices (some actor))
  unfolding Devices.list_devices
  list_devices-Moves =
      moves_bind (moves_try (devices-Moves actor))
        (moves_result Devices.listed (λ e. moves_pure) (λ ds. moves_pure))

  pub list_device_states-Moves : Moves o (Devices.list_device_states (some actor))
  unfolding Devices.list_device_states
  list_device_states-Moves =
      moves_bind (moves_try (states-Moves actor))
        (moves_result Devices.listed_states (λ e. moves_pure) (λ ss. moves_pure))

  merged-Moves :
      (r : UpdateDeviceStateRequest) (s : Result DeviceState)
      → Moves o (Devices.merged Bool.true actor r s)
  merged-Moves r (err e) = moves_pure
  merged-Moves r (ok s) =
      moves_bind
        (moves_try (update_device_state-Moves h.upsert_state actor (Devices.merge_request s r)))
        (moves_result (Devices.updated Bool.true actor r.device_id (Devices.merge_request s r))
          (λ e. moves_pure) (λ _. moves_pure))

  pub update_state-Moves : (body : Raw) → Moves o (Devices.update_state Bool.true (some actor) body)
  unfolding Devices.update_state
  update_state-Moves body =
      let (r, e) = decode_update body in
      moves_if (is_none e)
        (moves_if (r.device_id == "") moves_pure
          (moves_bind (moves_try (get_device_state-Moves r.device_id)) (merged-Moves r)))
        moves_pure

  pub get_state-Moves : (id : String) → Moves o (Devices.get_state id)
  unfolding Devices.get_state
  get_state-Moves id = moves_if _ moves_pure (
      moves_bind (moves_try (get_device_state-Moves id))
        (moves_result Devices.read_state (λ e. moves_pure) (λ s. moves_pure)))

  pub list_bindable_devices-Moves :
      (reveal : String) → Moves o (Devices.list_bindable_devices (some actor) reveal)
  unfolding Devices.list_bindable_devices
  list_bindable_devices-Moves reveal =
      moves_bind (moves_try bindable-Moves) (
        moves_result (Devices.listed_bindable (reveal == "1")) (λ e. moves_pure) (λ ds. moves_pure))

  pub bind-Moves : (body : Raw) → Moves o (Devices.bind (some actor) body)
  unfolding Devices.bind
  bind-Moves body =
      let (r, e) = decode_bind body in
      let id = trim_space r.device_id in
      let code = trim_space r.bind_code in
      moves_if (is_none e)
        (moves_if (id == "") moves_pure (
          moves_if (code == "") moves_pure (
            moves_bind
              (moves_try (bind_device-Moves h id code (trim_space r.name) (trim_space r.room)))
              (moves_result Devices.bound_reply (λ e. moves_pure) (λ d. moves_pure)))))
        moves_pure

  pub rename-Moves : (id : String) (body : Raw) → Moves o (Devices.rename (some actor) id body)
  unfolding Devices.rename
  rename-Moves id body =
      let (r, e) = decode_rename body in
      let name = trim_space r.name in
      moves_if (id == "") moves_pure (
        moves_if (is_none e)
          (moves_if (name == "") moves_pure (
            moves_bind (moves_try (rename_device-Moves h id name (trim_space r.room)))
              (moves_result Devices.owner_reply (λ e. moves_pure) (λ _. moves_pure))))
          moves_pure)

  pub unbind-Moves : (id : String) → Moves o (Devices.unbind (some actor) id)
  unfolding Devices.unbind
  unbind-Moves id = moves_if _ moves_pure (
      moves_bind (moves_try (h.unbind id))
        (moves_result Devices.owner_reply (λ e. moves_pure) (λ _. moves_pure)))

  list-Moves : (user : ℕ) → Moves o (SceneServices.list_scenes user)
  unfolding SceneServices.list_scenes SceneRows.list_by_user
  list-Moves user = moves_reading (λ w. ground arith)

  read_scene-Moves : (id : ℕ) → Moves o (SceneServices.get_scene id)
  unfolding SceneServices.get_scene
  read_scene-Moves id = scene-Moves id

  pub list_scenes-Moves : Moves o (Scenes.list_scenes (some actor))
  unfolding Scenes.list_scenes
  list_scenes-Moves =
      moves_bind (moves_try (list-Moves actor))
        (moves_result Scenes.listed (λ e. moves_pure) (λ ss. moves_pure))

  pub post_scene-Moves : (body : Raw) → Moves o (Scenes.create_scene (some actor) body)
  unfolding Scenes.create_scene
  post_scene-Moves body =
      moves_if _
        (moves_bind (moves_try (create_scene-Moves h actor _ _))
          (moves_result Scenes.made (λ e. moves_pure) (λ s. moves_pure)))
        moves_pure

  pub get_scene-Moves : (id : Option ℕ) → Moves o (Scenes.get_scene (some actor) id)
  unfolding Scenes.get_scene
  get_scene-Moves none = moves_pure
  get_scene-Moves (some id) =
      moves_bind (moves_try (read_scene-Moves id)) (
        moves_result (Scenes.shown actor) (λ e. moves_pure) (λ s. moves_if _ moves_pure moves_pure))

  changed-Moves : (id : ℕ) (r : Result (Unit {0})) → Moves o (Scenes.changed id r)
  changed-Moves id (err e) = moves_pure
  changed-Moves id (ok _) =
      moves_bind (moves_try (read_scene-Moves id))
        (moves_result Scenes.read_again (λ e. moves_pure) (λ s. moves_pure))

  pub put_scene-Moves :
      (id : Option ℕ) (body : Raw) → Moves o (Scenes.update_scene (some actor) id body)
  unfolding Scenes.update_scene
  put_scene-Moves none body = moves_pure
  put_scene-Moves (some id) body =
      moves_if _ (moves_bind (moves_try (update_scene-Moves h actor id _ _)) (changed-Moves id))
        moves_pure

  pub remove_scene-Moves : (id : Option ℕ) → Moves o (Scenes.delete_scene (some actor) id)
  unfolding Scenes.delete_scene
  remove_scene-Moves none = moves_pure
  remove_scene-Moves (some id) =
      moves_bind (moves_try (delete_scene-Moves h actor id))
        (moves_result Scenes.removed (λ e. moves_pure) (λ _. moves_pure))

  guarded-Moves :
      (s : DeviceService) (id : ℕ) (r : Result Scene) → Moves o (Scenes.guarded s actor id r)
  guarded-Moves s id (err e) = moves_pure
  guarded-Moves s id (ok x) =
      moves_if _
        (moves_bind
          (moves_try (
            trigger-Moves h.upsert_state id (execute_control_device s)
              (execute_control_device-Moves h.upsert_state s)))
          (moves_result Scenes.triggered (λ e. moves_pure) (λ rs. moves_pure)))
        moves_pure

  pub trigger_scene-Moves :
      (s : DeviceService) (id : Option ℕ) → Moves o (Scenes.trigger_scene s (some actor) id)
  unfolding Scenes.trigger_scene
  trigger_scene-Moves s none = moves_pure
  trigger_scene-Moves s (some id) =
      moves_bind (moves_try (read_scene-Moves id)) (guarded-Moves s id)
