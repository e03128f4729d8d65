-- ===== src/Examples/Session.antt =====
-- The theorems on a voice session, the push hub, accounts and tokens, at concrete ones.
use taffy_assistant.Base.{
  ◌+◌, String, true, false, some, List, [], ◌∷◌, ◌++◌, ◌≡◌, refl, exists_row, select_one,
}
use taffy_assistant.Json.{str, obj, end, field, Raw, doc}
use taffy_assistant.Model.{User}
use taffy_assistant.Store.{World, ok}
use taffy_assistant.Voice.Session.{new_voice_session}
use taffy_assistant.Voice.Command.{text, binary, VoiceHandler}
use taffy_assistant.Voice.Command.{StateChanged, state_broadcast}
use taffy_assistant.Voice.Command.Audience.{state_broadcast-owner}
use taffy_assistant.Protocol.{unmarshal_control}
use taffy_assistant.Repo.States.{is_state_of}
use taffy_assistant.Service.Devices.{get_device, get_device_state}
use taffy_assistant.Examples.{lamp, lamp_state, turn_on_lamp}
use taffy_assistant.Voice.Pump.{Pump, Event, client, worker, job, unheard, run}
use taffy_assistant.Voice.Pump.Order.{all_shown, run-to_client}
use taffy_assistant.Voice.Pump.Answers.{
  answers, lost, commands_in, forwarded_of, sent_by_client, run-answers, run-forwarded,
}
use taffy_assistant.Hub.{Client, Hub, new, register, close, send_all, targets}
use taffy_assistant.Hub.Safety.{
  Op, registered, closed, pumped, broadcast, perform_all, IsWf, perform_all-new,
}
use taffy_assistant.Hub.Race.{broadcast-close-panics}
use taffy_assistant.Service.Users.{returned, panicked, register as sign_up, login}
use taffy_assistant.Service.Users.Accounts.{
  login-register, register-email_once, register-short_phone,
}
use taffy_assistant.Mqtt.{topic_of, extract_device_id}
use taffy_assistant.Mqtt.Topics.{extract_device_id-topic_of}
use taffy_assistant.Examples.{binary as byte_order, plain_hash, household, service}

abbrev handler : VoiceHandler
handler = record { device_svc = some service; pub_hub = true }

abbrev opened : Pump
opened = record {
  line = record {
    session = new_voice_session (record { conv_repo = false; msg_repo = false; cmd_repo = false });
    world = household;
    to_worker = [];
    to_client = [];
    broadcasts = [];
  };
  jobs = [];
}

abbrev call : Raw
call = doc (
    obj (
      field "type" (str "device_command") (
        field "tool_id" (str "c1") (
          field "function" (str "control_device") (
            field "params"
              (obj (field "device_id" (str "lamp") (field "action" (str "turn_on") end))) end)))))

abbrev talk : List Event
talk =
    client (binary (1 ∷ 2 ∷ []))
    ∷ worker (text call)
    ∷ worker (binary (3 ∷ []))
    ∷ job 0
    ∷ worker (text call)
    ∷ unheard 0
    ∷ []

run-answers_example :
    answers "c1" (run handler talk opened) + lost "c1" handler talk opened
    ≡ answers "c1" opened + commands_in "c1" talk
run-answers_example = run-answers "c1" handler talk opened

run-to_client_example :
    (run handler talk opened).line.to_client ≡ opened.line.to_client ++ all_shown talk
run-to_client_example = run-to_client handler talk opened

run-forwarded_example :
    forwarded_of (run handler talk opened).line.to_worker
    ≡ forwarded_of opened.line.to_worker ++ sent_by_client talk
run-forwarded_example = run-forwarded handler talk opened

abbrev two_clients : Hub String
two_clients = register 2 (register 1 new)

abbrev day : List (Op String)
day = registered 1 ∷ broadcast 1 "on" ∷ pumped 0 ∷ closed 0 ∷ broadcast 1 "off" ∷ []

perform_all-new_example : IsWf (perform_all day new)
perform_all-new_example = perform_all-new day

abbrev listed_client : Client String
listed_client = record { number = 0; user_id = 1; send = []; listed = true; closed = false }

broadcast-close-panics_example :
    (send_all "on" (targets 1 two_clients) (close 0 two_clients)).panicked ≡ true
unfolding register new select_one
broadcast-close-panics_example = broadcast-close-panics 1 0 "on" two_clients listed_client refl refl

abbrev signed_up : World
signed_up = (sign_up "s" "13900000002" "" "pass1" "" household).1

abbrev new_user : User
new_user = record {
  user_id = 2;
  phone = "13900000002";
  email = "";
  password_hash = "pass1";
  nickname = "用户0002";
  avatar_url = "";
}

login-register_example :
    (u : User) × (login "13900000002" "pass1" signed_up ≡ (ok u, signed_up))
    × (u.user_id ≡ 2)
    × (u.phone ≡ "13900000002")
    × (u.email ≡ "")
unfolding sign_up taffy_assistant.Repo.Users.get_by_phone select_one
    taffy_assistant.Repo.Users.create exists_row
login-register_example =
    login-register "s" "13900000002" "" "pass1" "" household signed_up 2 refl refl

register-email_once_example :
    ¬ (sign_up "s" "13900000003" "" "pass2" "" signed_up ≡ (ok (returned 3), signed_up))
unfolding sign_up taffy_assistant.Repo.Users.get_by_phone select_one
    taffy_assistant.Repo.Users.create exists_row
register-email_once_example =
    register-email_once "s" "13900000002" "" "pass1" "" "s" "13900000003" "pass2" "" household
      signed_up signed_up 2 3 refl

register-short_phone_example : sign_up "s" "911" "" "pass1" "" household ≡ (ok panicked, household)
unfolding select_one
register-short_phone_example =
    register-short_phone "s" "911" "" "pass1" "pass1" household refl refl refl refl refl

extract_device_id-topic_of_example :
    extract_device_id (topic_of (49 ∷ 50 ∷ []) (50 ∷ [])) ≡ 49 ∷ 50 ∷ []
extract_device_id-topic_of_example =
    extract_device_id-topic_of (49 ∷ 50 ∷ []) (50 ∷ []) (refl, (refl, tt))

abbrev told : StateChanged
told = record { user_id = 1; device_id = "lamp"; state = lamp_state }

state_broadcast-owner_example :
    (told.device_id ≡ (unmarshal_control turn_on_lamp).0.device_id)
    × (lamp.owner_id ≡ some told.user_id)
    × (select_one (is_state_of told.device_id) household.states ≡ some told.state)
    × (household.db ≡ household.db)
unfolding select_one unmarshal_control state_broadcast get_device get_device_state
    taffy_assistant.Repo.Devices.get_by_id taffy_assistant.Repo.States.get
state_broadcast-owner_example =
    state_broadcast-owner handler turn_on_lamp household household told lamp refl refl
