-- ===== src/Service/Control/Actions.antt =====
-- What an action does to a state.
use taffy_assistant.Base.{
  Bool, true, false, ◌||◌, not, some, is_none, ◌≡◌, ◌==◌, arith, eq_iff, if◌then◌else◌,
}
use taffy_assistant.Model.{DeviceState}
use taffy_assistant.Protocol.{ControlDeviceParams}
use taffy_assistant.Protocol.Action
use taffy_assistant.Service.Control.{applied, rejected, apply_action, Applied}

-- The actions that have an argument, and those that have it.
abbrev pub has_argument : ControlDeviceParams → Bool
has_argument p =
    if p.action == Action.set_brightness
    then not (is_none p.brightness)
    else if p.action == Action.set_temperature
    then not (is_none p.temperature)
    else if p.action == Action.set_mode
    then not (p.mode == "")
    else if p.action == Action.set_position
    then not (is_none p.position)
    else false

abbrev pub is_legal : ControlDeviceParams → Bool
is_legal p = p.action == Action.turn_on || (p.action == Action.turn_off || has_argument p)

abbrev pub is_applied : Applied → Bool
is_applied (applied s) = true
is_applied (rejected m) = false

-- `applyAction` accepts an action exactly if it is to turn on or off, or to set what its argument
-- gives. It looks neither at the range of the argument nor at the type of the device.
pub apply_action-legal :
    (s : DeviceState) (p : ControlDeviceParams) → is_applied (apply_action s p) ≡ is_legal p
unfolding apply_action
apply_action-legal s p = ground arith

-- The new state `t` is the old one `s` but for what the action `a` is about.
abbrev pub Frame : DeviceState → ControlDeviceParams → DeviceState → Type 0
Frame s p t =
    (t.device_id ≡ s.device_id)
    × (t.power ≡ not (p.action == Action.turn_off))
    × (t.brightness ≡ (if p.action == Action.set_brightness then p.brightness else s.brightness))
    × (t.temperature
        ≡ (if p.action == Action.set_temperature then p.temperature else s.temperature))
    × (t.mode ≡ (if p.action == Action.set_mode then some p.mode else s.mode))
    × (t.position ≡ (if p.action == Action.set_position then p.position else s.position))

turn_on_frame :
    (s t : DeviceState) (p : ControlDeviceParams)
    → p.action ≡ Action.turn_on
    → apply_action s p ≡ applied t
    → Frame s p t
unfolding apply_action
turn_on_frame s t p named = rw named (λ h. ground arith)

turn_off_frame :
    (s t : DeviceState) (p : ControlDeviceParams)
    → p.action ≡ Action.turn_off
    → apply_action s p ≡ applied t
    → Frame s p t
unfolding apply_action
turn_off_frame s t p named = rw named (λ h. ground arith)

set_brightness_frame :
    (s t : DeviceState) (p : ControlDeviceParams)
    → p.action ≡ Action.set_brightness
    → apply_action s p ≡ applied t
    → Frame s p t
unfolding apply_action
set_brightness_frame s t p named = rw named (λ h. ground arith)

set_temperature_frame :
    (s t : DeviceState) (p : ControlDeviceParams)
    → p.action ≡ Action.set_temperature
    → apply_action s p ≡ applied t
    → Frame s p t
unfolding apply_action
set_temperature_frame s t p named = rw named (λ h. ground arith)

set_mode_frame :
    (s t : DeviceState) (p : ControlDeviceParams)
    → p.action ≡ Action.set_mode
    → apply_action s p ≡ applied t
    → Frame s p t
unfolding apply_action
set_mode_frame s t p named = rw named (λ h. ground arith)

set_position_frame :
    (s t : DeviceState) (p : ControlDeviceParams)
    → p.action ≡ Action.set_position
    → apply_action s p ≡ applied t
    → Frame s p t
unfolding apply_action
set_position_frame s t p named = rw named (λ h. ground arith)

-- If an action is carried out, the new state differs from the old one only in what the action is
-- about: the power is off after turning off and on after any other action; the brightness, the
-- temperature, the mode and the position are the argument's after the action that sets them and the
-- old ones else; and the device is the same.
pub apply_action-frame :
    (s t : DeviceState) (p : ControlDeviceParams) → apply_action s p ≡ applied t → Frame s p t
unfolding apply_action
apply_action-frame s t p h = ground (
  arith,
  eq_iff p.action Action.turn_on,
  eq_iff p.action Action.turn_off,
  eq_iff p.action Action.set_brightness,
  eq_iff p.action Action.set_temperature,
  eq_iff p.action Action.set_mode,
  eq_iff p.action Action.set_position,
  turn_on_frame s t p,
  turn_off_frame s t p,
  set_brightness_frame s t p,
  set_temperature_frame s t p,
  set_mode_frame s t p,
  set_position_frame s t p,
)
