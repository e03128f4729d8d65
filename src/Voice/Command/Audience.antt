-- ===== src/Voice/Command/Audience.antt =====
-- Who is told of a change of state.
use taffy_assistant.Base.{some, ◌≡◌, arith, select_one}
use taffy_assistant.Json.{Raw}
use taffy_assistant.Model.{Device}
use taffy_assistant.Store.{Collation, World, ok}
use taffy_assistant.Repo.Devices.{has_id}
use taffy_assistant.Repo.Devices
use taffy_assistant.Repo.States.{is_state_of}
use taffy_assistant.Repo.States
use taffy_assistant.Protocol.{unmarshal_control}
use taffy_assistant.Service.Devices.{get_device, get_device_state}
use taffy_assistant.Voice.Command.{StateChanged, VoiceHandler, state_broadcast}

module _ ⦃c : Collation⦄ where
  -- If a change of state is announced for a command that names the device `d`, then to the owner of
  -- `d`, with the stored state of `d`, and nothing is written to the tables.
  pub state_broadcast-owner :
      (h : VoiceHandler) (params : Raw) (w w' : World) (b : StateChanged) (d : Device)
      → select_one (has_id (unmarshal_control params).0.device_id) w.devices ≡ some d
      → state_broadcast h params w ≡ (ok (some b), w')
      → (b.device_id ≡ (unmarshal_control params).0.device_id)
        × (d.owner_id ≡ some b.user_id)
        × (select_one (is_state_of b.device_id) w.states ≡ some b.state)
        × (w'.db ≡ w.db)
  unfolding state_broadcast get_device get_device_state Devices.get_by_id States.get
  state_broadcast-owner h params w w' b d found run = ground arith
