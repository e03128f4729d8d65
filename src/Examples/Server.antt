-- ===== src/Examples/Server.antt =====
-- The theorems on the services, at the example household.
use taffy_assistant.Base.{
  char_count, String, ◌≤◌, true, false, none, some, List, [], ◌∷◌, ◌≡◌, ◌==◌, refl, length, select,
  select_one, exists_row, count_rows, update_rows, map,
}
use taffy_assistant.Json.{Json, str, Raw, doc}
use taffy_assistant.Model.{Device}
use taffy_assistant.Protocol.{ControlDeviceParams, DeviceContext, no_params, unmarshal_control}
use taffy_assistant.Store.{World, ok, err, is_ok}
use taffy_assistant.Errors.{invalid_bind_code, not_device_owner, plain}
use taffy_assistant.Repo.Devices.{claimed}
use taffy_assistant.Repo.Devices
use taffy_assistant.Repo.States
use taffy_assistant.Service.Devices.{
  bind_device, rename_device, unbind_device, update_device_state, validate_device_credential,
  get_device, list_devices_by_owner, list_device_states_by_owner,
}
use taffy_assistant.Service.Devices.Binding.{
  bind_device_once, bind_device-claims, bound, chosen_name,
}
use taffy_assistant.Service.Devices.Ownership.{
  rename_answer, rename_device-answer, unbind_device-answer, update_device_state-guard,
  validate_device_credential-exact,
}
use taffy_assistant.Service.Control.{
  CommandReply, done, format_success_message, execute_control_device, apply_action,
}
use taffy_assistant.Service.Control.Success.{carried, execute_control_device-succeeds}
use taffy_assistant.Service.Control.Atomic.{Answered, execute_control_device-atomic}
use taffy_assistant.Service.Control.Actions.{
  Frame, apply_action-frame, is_applied, is_legal, apply_action-legal,
}
use taffy_assistant.Service.Scenes.{
  run_all, trigger, fail_count, update_scene, delete_scene, unmarshal_commands,
}
use taffy_assistant.Service.Scenes.Guard.{update_scene-guard, delete_scene-answer}
use taffy_assistant.Service.Scenes.Trigger.{trigger-runs_all}
use taffy_assistant.Service.Context.{item_of, build_device_context}
use taffy_assistant.Service.Context.Privacy.{devices_of, build_device_context-owned}
use taffy_assistant.Service.Sync.{StatusPayload, on_status}
use taffy_assistant.Repo.States.{in_columns}
use taffy_assistant.Model.{DeviceState}
use taffy_assistant.Service.Sync.Merge.{Merged, reported, on_status-merges}
use taffy_assistant.Examples.{
  binary, lamp, fresh, lamp_state, turn_on_lamp, evening, household, service,
}

execute_control_device-atomic_example :
    Answered service turn_on_lamp household (execute_control_device service turn_on_lamp household)
execute_control_device-atomic_example = execute_control_device-atomic service turn_on_lamp household

abbrev evening_commands : List Raw
evening_commands = doc (str "bad") ∷ []

execute_control_device-succeeds_example : execute_control_device service turn_on_lamp household ≡ (
  ok (done (format_success_message lamp "turn_on" (record lamp_state { power = true }))),
  carried service (unmarshal_control turn_on_lamp).0 (record lamp_state { power = true }) household,
)
unfolding select_one unmarshal_control apply_action taffy_assistant.Repo.States.in_columns
execute_control_device-succeeds_example =
    execute_control_device-succeeds service turn_on_lamp household lamp lamp_state
      (record lamp_state { power = true }) 1 refl refl refl refl refl refl refl

abbrev dim : ControlDeviceParams
dim = record no_params { device_id = "lamp"; action = "turn_on" }

apply_action-frame_example : Frame lamp_state dim (record lamp_state { power = true })
unfolding apply_action
apply_action-frame_example =
    apply_action-frame lamp_state (record lamp_state { power = true }) dim refl

apply_action-legal_example : is_applied (apply_action lamp_state dim) ≡ is_legal dim
apply_action-legal_example = apply_action-legal lamp_state dim

abbrev after_binding : World
after_binding = (bind_device 1 "fresh" "1234" "mine" "den" household).1

abbrev bound_fresh : Device
bound_fresh = claimed 1 "mine" "den" fresh

bind_device_once_example :
    bind_device 2 "fresh" "1234" "mine" "" after_binding ≡ (err invalid_bind_code, after_binding)
unfolding bind_device Devices.get_by_id Devices.bind_to_owner exists_row select_one count_rows
    update_rows Devices.bind_rows Devices.name_columns char_count
bind_device_once_example =
    bind_device_once 1 2 "fresh" "1234" "mine" "den" "1234" "mine" "" household after_binding
      bound_fresh (refl, (refl, tt)) refl refl

bind_device-claims_example :
    (o : Device) × (n : String) × (r : String) × (select_one
        (Devices.has_id "fresh")
        household.devices
      ≡ some o)
    × (o.owner_id ≡ none)
    × (binary.same o.bind_code "1234" ≡ true)
    × (("1234" == "") ≡ false)
    × (Devices.owner_exists (some 1) household.db ≡ true)
    × (Devices.name_columns (chosen_name "mine" o) "den" ≡ ok (n, r))
    × (bound_fresh ≡ claimed 1 n r o)
    × (select_one (Devices.has_id "fresh") after_binding.devices ≡ some bound_fresh)
    × (after_binding.db ≡ bound 1 "fresh" "1234" n r household.db)
unfolding bind_device Devices.get_by_id Devices.bind_to_owner exists_row select_one count_rows
    update_rows Devices.bind_rows Devices.name_columns char_count
bind_device-claims_example =
    bind_device-claims 1 "fresh" "1234" "mine" "den" household after_binding bound_fresh
      (refl, (refl, tt)) refl

rename_device-answer_example :
    rename_device 1 "lamp" "lamp" "hall" household
    ≡ rename_answer 1 "lamp" "lamp" "hall" household lamp
unfolding select_one exists_row
rename_device-answer_example =
    rename_device-answer 1 "lamp" "lamp" "hall" household (refl, (refl, tt)) refl refl

unbind_device-answer_example : unbind_device 2 "lamp" household ≡ (err not_device_owner, household)
unfolding select_one
unbind_device-answer_example = unbind_device-answer 2 "lamp" household refl refl

update_device_state-guard_example :
    (is_ok (update_device_state 2 lamp_state household).0 ≡ false)
    × ((update_device_state 2 lamp_state household).1.db ≡ household.db)
unfolding select_one
update_device_state-guard_example = update_device_state-guard 2 lamp_state household lamp refl refl

validate_device_credential-exact_example :
    validate_device_credential "lamp" "t1" household ≡ (ok lamp, household)
unfolding select_one
validate_device_credential-exact_example =
    validate_device_credential-exact "lamp" "t1" household refl

trigger-runs_all_example :
    (rs : List CommandReply) × (w' : World) × (trigger 7 (execute_control_device service) household
      ≡ (ok rs, w'))
    × (run_all (execute_control_device service) evening_commands household ≡ (ok rs, w'))
    × (length rs ≡ length evening_commands)
    × (fail_count rs ≤ length evening_commands)
unfolding select_one unmarshal_commands taffy_assistant.Json.raw_items
trigger-runs_all_example =
    trigger-runs_all service 7 household evening evening_commands refl refl refl

update_scene-guard_example :
    (is_ok (update_scene 2 7 "mine" turn_on_lamp household).0 ≡ false)
    × ((update_scene 2 7 "mine" turn_on_lamp household).1.db ≡ household.db)
unfolding select_one
update_scene-guard_example = update_scene-guard 7 2 "mine" turn_on_lamp household evening refl refl

delete_scene-answer_example : delete_scene 2 7 household ≡ (err (plain "无权删除该场景"), household)
unfolding select_one
delete_scene-answer_example = delete_scene-answer 7 2 household refl

abbrev seen : List DeviceContext
seen = item_of (lamp_state ∷ []) lamp ∷ []

build_device_context-owned_example :
    (d : Device) × (select_one (Devices.has_id "lamp") household.devices ≡ some d)
    × (map (λ (x : DeviceContext). x.device_id) seen
        ≡ map (λ (x : Device). x.device_id) (devices_of d.owner_id household.devices))
unfolding build_device_context get_device list_devices_by_owner list_device_states_by_owner
    Devices.list_by_owner States.list_by_owner Devices.get_by_id select_one select exists_row
build_device_context-owned_example = build_device_context-owned "lamp" household household seen refl

abbrev report : StatusPayload
report = record {
  device_id = "lamp";
  power = some true;
  brightness = none;
  temperature = none;
  mode = "";
  position = none;
}

on_status-merges_example :
    (x' : DeviceState) × Merged report lamp_state x'
    × (x'.device_id ≡ "lamp")
    × (on_status report household ≡ (ok tt, reported household (in_columns x')))
unfolding select_one
on_status-merges_example = on_status-merges report household lamp lamp_state refl refl refl refl
