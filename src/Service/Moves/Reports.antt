-- ===== src/Service/Moves/Reports.antt =====
-- What the devices report over MQTT, by what its statements do.
use taffy_assistant.Base.{ℕ, String, List, [], ◌∷◌, is_none, ◌==◌}
use taffy_assistant.Model.{DeviceState}
use taffy_assistant.Store.{Collation}
use taffy_assistant.Store.Moves.{
  Preorder, Moves, moves_pure, moves_if, moves_wrapping, moves_try, moves_bind,
}
use taffy_assistant.Repo.States
use taffy_assistant.Repo.Devices
use taffy_assistant.Service.Devices as DeviceServices
use taffy_assistant.Service.Sync.{
  StatusPayload, on_status, on_heartbeat, sync_state_from_device, mark_online,
}
use taffy_assistant.Service.Moves.{state-Moves}
use taffy_assistant.Mqtt.{extract_device_id}
use taffy_assistant.Mqtt.Bridge.{
  Message, Filter, status, result, heartbeat, Bridge, decode_status, decode_result, handle_status,
  handle_result, handle_heartbeat, beaten, receive,
}

module _ ⦃c : Collation⦄ {o : Preorder} (upsert : (s : DeviceState) → Moves o (States.upsert s))
    (seen : (id : String) → Moves o (Devices.update_last_seen id)) where
  on_status-Moves : (p : StatusPayload) → Moves o (on_status p)
  unfolding on_status sync_state_from_device DeviceServices.get_device_state
  on_status-Moves p = moves_if _ moves_pure (
      moves_bind
        (moves_try (moves_bind (moves_wrapping _ (state-Moves p.device_id)) (λ current. upsert _)))
        (λ _. moves_pure))

  on_heartbeat-Moves : (id : String) → Moves o (on_heartbeat id)
  unfolding on_heartbeat mark_online
  on_heartbeat-Moves id = moves_if _ moves_pure (moves_bind (moves_try (seen id)) (λ _. moves_pure))

  beaten-Moves : (text_of : List ℕ → String) (id : List ℕ) → Moves o (beaten text_of id)
  beaten-Moves text_of [] = moves_pure
  beaten-Moves text_of (x ∷ xs) = on_heartbeat-Moves (text_of (x ∷ xs))

  pub receive-Moves :
      (text_of : List ℕ → String) (b : Bridge) (f : Filter) (m : Message)
      → Moves o (receive text_of b f m)
  unfolding receive handle_status handle_result handle_heartbeat
  receive-Moves text_of b status m =
      let (p, e) = decode_status m.payload in
      moves_if b.handles_status
        (moves_if (is_none e)
          (moves_if (p.device_id == "")
            (on_status-Moves (record p { device_id = text_of (extract_device_id m.topic) }))
            (on_status-Moves p))
          moves_pure)
        moves_pure
  receive-Moves text_of b result m =
      let (p, e) = decode_result m.payload in
      moves_if b.handles_result
        (moves_if (is_none e) (moves_if (p.device_id == "") moves_pure moves_pure) moves_pure)
        moves_pure
  receive-Moves text_of b heartbeat m =
      moves_if _ (beaten-Moves text_of (extract_device_id m.topic)) moves_pure
