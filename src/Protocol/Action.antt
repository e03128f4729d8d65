-- ===== src/Protocol/Action.antt =====
-- The legal values of `control_device.action`: the constants `Action…` of pkg/protocol/events.go.
use taffy_assistant.Base.{String, List, [], ◌∷◌}

abbrev pub turn_on : String
turn_on = "turn_on"

abbrev pub turn_off : String
turn_off = "turn_off"

abbrev pub set_brightness : String
set_brightness = "set_brightness"

abbrev pub set_temperature : String
set_temperature = "set_temperature"

abbrev pub set_mode : String
set_mode = "set_mode"

abbrev pub set_position : String
set_position = "set_position"

abbrev pub all_control_actions : List String
all_control_actions =
    turn_on ∷ turn_off ∷ set_brightness ∷ set_temperature ∷ set_mode ∷ set_position ∷ []
