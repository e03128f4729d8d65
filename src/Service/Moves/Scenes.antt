-- ===== src/Service/Moves/Scenes.antt =====
-- Scenes and the control of devices, by what their statements do.
use taffy_assistant.Base.{ℕ, String, Option, none, some, List, [], ◌∷◌, refl, arith}
use taffy_assistant.Json.{Raw}
use taffy_assistant.Model.{Device, DeviceState}
use taffy_assistant.Protocol.{ControlDeviceParams, unmarshal_control, unmarshal_scene}
use taffy_assistant.Repo.States
use taffy_assistant.Store.{Collation, M, Result, ok, err}
use taffy_assistant.Store.Moves.{
  Preorder, Moves, moves_pure, moves_fail, moves_if, moves_reading, moves_wrapping, moves_try,
  moves_bind,
}
use taffy_assistant.Service.Moves.{
  Statements, device-Moves, scene-Moves, update_device_state-Moves, get_device_state-Moves,
}
use taffy_assistant.Service.Devices.{DeviceService}
use taffy_assistant.Service.Devices
use taffy_assistant.Service.Control.{CommandReply, Applied, applied, rejected}
use taffy_assistant.Service.Control
use taffy_assistant.Service.Scenes

module _ ⦃c : Collation⦄ {o : Preorder}
    (upsert : (s : DeviceState) → Moves o (States.upsert s)) where
  publish-Moves :
      (s : DeviceService) (p : ControlDeviceParams)
      → Moves o (Control.publish_command_best_effort s p)
  unfolding Control.publish_command_best_effort
  publish-Moves s p = moves_reading (λ w. ground arith)

  stored-Moves :
      (s : DeviceService) (p : ControlDeviceParams) (d : Device) (state : DeviceState)
      (r : Result (Unit {0}))
      → Moves o (Control.stored s p d state r)
  stored-Moves s p d state (err e) = moves_pure
  stored-Moves s p d state (ok _) = moves_bind (publish-Moves s p) (λ _. moves_pure)

  update_for-Moves :
      (s : DeviceService) (p : ControlDeviceParams) (d : Device) (state : DeviceState)
      (owner : Option ℕ)
      → Moves o (Control.update_for s p d state owner)
  update_for-Moves s p d state none = moves_pure
  update_for-Moves s p d state (some user) =
      moves_bind (moves_try (update_device_state-Moves upsert user state))
        (stored-Moves s p d state)

  carried_out-Moves :
      (s : DeviceService) (p : ControlDeviceParams) (d : Device) (a : Applied)
      → Moves o (Control.carried_out s p d a)
  unfolding Control.update_and_publish
  carried_out-Moves s p d (rejected message) = moves_pure
  carried_out-Moves s p d (applied state) = update_for-Moves s p d state d.owner_id

  with_state-Moves :
      (s : DeviceService) (p : ControlDeviceParams) (d : Device) (r : Result DeviceState)
      → Moves o (Control.with_state s p d r)
  unfolding Control.apply_to
  with_state-Moves s p d (err e) = moves_pure
  with_state-Moves s p d (ok state) = carried_out-Moves s p d (Control.apply_action state p)

  with_device-Moves :
      (s : DeviceService) (p : ControlDeviceParams) (r : Result Device)
      → Moves o (Control.with_device s p r)
  with_device-Moves s p (err e) = moves_pure
  with_device-Moves s p (ok d) =
      moves_bind (moves_try (get_device_state-Moves p.device_id)) (with_state-Moves s p d)

  control-Moves : (s : DeviceService) (p : ControlDeviceParams) → Moves o (Control.control s p)
  unfolding Control.control Devices.get_device
  control-Moves s p =
      moves_bind (moves_try (moves_wrapping _ (device-Moves p.device_id))) (with_device-Moves s p)

  decoded-Moves :
      (s : DeviceService) (p : ControlDeviceParams) (e : Option String)
      → Moves o (Control.decoded s p e)
  decoded-Moves s p (some t) = moves_pure
  decoded-Moves s p none = moves_if _ moves_pure (control-Moves s p)

  pub execute_control_device-Moves :
      (s : DeviceService) (raw : Raw) → Moves o (Control.execute_control_device s raw)
  unfolding Control.execute_control_device
  execute_control_device-Moves s raw =
      decoded-Moves s (unmarshal_control raw).0 (unmarshal_control raw).1

  run_all-Moves :
      (exec : Raw → M CommandReply) (cmds : List Raw)
      → ((raw : Raw) → Moves o (exec raw))
      → Moves o (Scenes.run_all exec cmds)
  unfolding Scenes.run_all
  run_all-Moves exec [] k = moves_pure
  run_all-Moves exec (cmd ∷ rest) k =
      moves_bind (k cmd) (λ result. moves_bind (run_all-Moves exec rest k) (λ rs. moves_pure))

  lift-Moves : {A : Type 0} (r : Result A) → Moves o (Scenes.lift r)
  lift-Moves r = moves_reading (λ w. refl)

  pub trigger-Moves :
      (id : ℕ) (exec : Raw → M CommandReply)
      → ((raw : Raw) → Moves o (exec raw))
      → Moves o (Scenes.trigger id exec)
  unfolding Scenes.trigger Scenes.get_scene
  trigger-Moves id exec k =
      moves_bind (scene-Moves id)
        (λ s. moves_bind (lift-Moves _) (λ cmds. run_all-Moves exec cmds k))

  summarised-Moves : (r : Result (List CommandReply)) → Moves o (Scenes.summarised r)
  summarised-Moves (err e) = moves_pure
  summarised-Moves (ok results) = moves_pure

  activate-Moves :
      (s : DeviceService) (e : Option String) (id : Option ℕ) → Moves o (Scenes.activate s e id)
  activate-Moves s (some t) id = moves_pure
  activate-Moves s none none = moves_pure
  activate-Moves s none (some id) =
      moves_bind
        (moves_try
          (trigger-Moves id (Control.execute_control_device s) (execute_control_device-Moves s)))
        summarised-Moves

  pub execute_activate_scene-Moves :
      (s : DeviceService) (raw : Raw) → Moves o (Scenes.execute_activate_scene s raw)
  unfolding Scenes.execute_activate_scene
  execute_activate_scene-Moves s raw =
      let (id, e) = unmarshal_scene raw in
      moves_if s.scene_svc (activate-Moves s e (Scenes.positive id)) moves_pure

module _ ⦃c : Collation⦄ {o : Preorder} {actor : ℕ} (h : Statements o actor) where
  pub create_scene-Moves :
      (user : ℕ) (name : String) (body : Raw) → Moves o (Scenes.create_scene user name body)
  unfolding Scenes.create_scene
  create_scene-Moves user name body =
      moves_if _ moves_fail (moves_bind (h.insert_scene _) (λ id. moves_pure))

  pub update_scene-Moves :
      (user id : ℕ) (name : String) (body : Raw) → Moves o (Scenes.update_scene user id name body)
  unfolding Scenes.update_scene Scenes.get_scene
  update_scene-Moves user id name body =
      moves_if _ moves_fail
        (moves_bind (scene-Moves id) (λ s. moves_if _ (h.update_scene _) moves_fail))

  pub delete_scene-Moves : (user id : ℕ) → Moves o (Scenes.delete_scene user id)
  unfolding Scenes.delete_scene Scenes.get_scene
  delete_scene-Moves user id =
      moves_bind (scene-Moves id) (λ s. moves_if _ (h.delete_scene id) moves_fail)
