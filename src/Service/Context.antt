-- ===== src/Service/Context.antt =====
-- server/internal/service/voice_context.go
pub mod Privacy
use taffy_assistant.Base.{
  ℕ, String, Bool, false, Option, none, some, List, [], ◌∷◌, map, ◌==◌, if◌then◌else◌,
}
use taffy_assistant.Errors.{wrap}
use taffy_assistant.Model.{Device, DeviceState, DeviceType, speaker, light, aircon, curtain, socket}
use taffy_assistant.Protocol.{DeviceContext}
use taffy_assistant.Store.{Collation, M, pure, ◌>>=◌, wrapping}
use taffy_assistant.Service.Devices.{get_device, list_devices_by_owner, list_device_states_by_owner}

abbrev pub type_name : DeviceType → String
type_name speaker = "SPEAKER"
type_name light = "LIGHT"
type_name aircon = "AIRCON"
type_name curtain = "CURTAIN"
type_name socket = "SOCKET"

abbrev later : Option DeviceState → Option DeviceState → Option DeviceState
later (some x) _ = some x
later none o = o

-- `stateMap[id]`: the last state with this id, by Go's equality.
unfoldable pub state_of : String → List DeviceState → Option DeviceState
state_of id [] = none
state_of id (s ∷ rest) = later (state_of id rest) (if s.device_id == id then some s else none)

abbrev pub mode_text : Option String → String
mode_text none = ""
mode_text (some m) = m

abbrev pub blank_item : Device → DeviceContext
blank_item d = record {
  device_id = d.device_id;
  name = d.name;
  type = type_name d.type;
  room = d.room;
  power = false;
  brightness = none;
  temperature = none;
  mode = "";
  position = none;
}

abbrev pub with_state : Device → Option DeviceState → DeviceContext
with_state d none = blank_item d
with_state d (some st) = record (blank_item d) {
  power = st.power;
  brightness = st.brightness;
  temperature = st.temperature;
  mode = mode_text st.mode;
  position = st.position;
}

-- The item of one device: its row, with what its state says, if it has one.
unfoldable pub item_of : List DeviceState → Device → DeviceContext
unfolding state_of
item_of states d = with_state d (state_of d.device_id states)

module _ ⦃c : Collation⦄ where
  abbrev pub items_of_owner : Option ℕ → M (List DeviceContext)
  items_of_owner none = pure []
  items_of_owner (some owner) = do
    devices ← wrapping (wrap "list devices") (list_devices_by_owner owner)
    states ← wrapping (wrap "list states") (list_device_states_by_owner owner)
    pure (map (item_of states) devices)

  -- `BuildDeviceContext`.
  unfoldable pub build_device_context : String → M (List DeviceContext)
  build_device_context id = do
    device ← wrapping (wrap "get device") (get_device id)
    items_of_owner device.owner_id
