-- ===== src/Examples/Runs.antt =====
-- The theorems on runs of the server and on the start of a voice session, at concrete ones.
use taffy_assistant.Base.{
  ℕ, String, true, false, Option, none, some, List, [], ◌∷◌, ◌++◌, ◌≡◌, refl, if◌then◌else◌,
  select_one,
}
use taffy_assistant.Json.{obj, end, doc}
use taffy_assistant.Model.{Device}
use taffy_assistant.Store.{World}
use taffy_assistant.Voice.Pump.{Pump, run, client}
use taffy_assistant.Voice.Command
use taffy_assistant.Voice.Open.{Door, serve_voice, finish, open_session}
use taffy_assistant.Voice.Open.Entry.{serve_voice-device}
use taffy_assistant.Service.Devices.Ownership.{is_accepted}
use taffy_assistant.Repo.Devices.{has_id}
use taffy_assistant.Repo.Wf.{IsWf}
use taffy_assistant.Mqtt.Bridge.{heartbeat}
use taffy_assistant.Http.Router.{Server, guarded, unbind_device}
use taffy_assistant.Jwt.{Text}
use taffy_assistant.Lifecycle.{phase, owned}
use taffy_assistant.Lifecycle.Runs.{Arrival, request, report, session, run_all}
use taffy_assistant.Lifecycle.Serve.{Trace, run_all-Trace, run_all-owner}
use taffy_assistant.Lifecycle.Tables.{run_all-IsWf}
use taffy_assistant.Examples.{binary, plain_hash, household, lamp, service}
use taffy_assistant.Examples.Tokens.{
  plain_tokens, memory, equal_text, bearer, accounts, household-IsWf,
}

-- The bytes of "lamp".
abbrev lamp_bytes : Text
lamp_bytes = 108 ∷ 97 ∷ 109 ∷ 112 ∷ []

named : Text → String
named t = if equal_text t lamp_bytes then "lamp" else ""

abbrev server : Server
server = record { auth = accounts; device_svc = service }

abbrev door : Door
door = record {
  handler = record { device_svc = some service; pub_hub = true };
  conv = record { conv_repo = true; msg_repo = true; cmd_repo = true };
  auth_enabled = true;
  worker_ws_url = "ws://worker";
  set_query = λ url query. some url;
  time = "20260101T000000.000000000Z";
  upgraded = true;
  reached = λ url. true;
}

-- User 2, whose token ends at 160, tries to unbind the lamp; the lamp sends a heartbeat, and opens a
-- voice session in which it speaks.
abbrev stranger : List Arrival
stranger =
    record {
      incoming = request (record {
        route = guarded (unbind_device "lamp");
        authorization = bearer ++ 32 ∷ 2 ∷ 160 ∷ 7 ∷ [];
        salt = "";
        redis_fault = false;
      });
      now = 120;
      faults = [];
    }
    ∷ record {
      incoming =
          report
            (record {
              handles_status = true;
              handles_result = true;
              handles_heartbeat = true;
              connected = true;
            })
            heartbeat
            (record {
              topic =
                  116 ∷ 97 ∷ 102 ∷ 102 ∷ 121 ∷ 47 ∷ 100 ∷ 101 ∷ 118 ∷ 105 ∷ 99 ∷ 101 ∷ 47 ∷ 108 ∷ 97
                  ∷ 109 ∷ 112 ∷ 47 ∷ 104 ∷ 98 ∷ [];
              payload = doc (obj end);
            });
      now = 121;
      faults = none ∷ some "gone away" ∷ [];
    }
    ∷ record {
      incoming = session door "lamp" "t1" (client (Command.binary (7 ∷ [])) ∷ []);
      now = 122;
      faults = [];
    }
    ∷ []

run_all-IsWf_example : IsWf (run_all memory named server (household, some []) stranger).0.db
run_all-IsWf_example = run_all-IsWf memory named server stranger household (some []) household-IsWf

run_all-Trace_example :
    Trace
      (some 2 ∷ none ∷ none ∷ [])
      (owned 1)
      (phase "lamp" (run_all memory named server (household, some []) stranger).0.db)
unfolding taffy_assistant.Http.Accounts.bearer_token select_one taffy_assistant.Jwt.parse_token
    taffy_assistant.Examples.Tokens.read_token equal_text taffy_assistant.Examples.Tokens.holds
run_all-Trace_example = run_all-Trace memory named server stranger household (some []) "lamp"

second_user : ¬ (◌≡◌ {A = Option ℕ} (some 2) (some 1))
second_user e = cc

no_user : ¬ (◌≡◌ {A = Option ℕ} none (some 1))
no_user e = cc

run_all-owner_example :
    phase "lamp" (run_all memory named server (household, some []) stranger).0.db ≡ owned 1
unfolding taffy_assistant.Http.Accounts.bearer_token select_one taffy_assistant.Jwt.parse_token
    taffy_assistant.Examples.Tokens.read_token equal_text taffy_assistant.Examples.Tokens.holds
run_all-owner_example =
    run_all-owner memory named server stranger household (some []) "lamp" 1 refl
      (second_user, (no_user, (no_user, tt)))

abbrev finished : Pump
finished = finish (run door.handler [] (open_session door "lamp" (some lamp) household))

serve_voice-device_example :
    (o : Device) × (w : World) × (select_one (has_id "lamp") household.devices ≡ some o)
    × (is_accepted "lamp" "t1" o ≡ true)
    × (finished ≡ finish (run door.handler [] (open_session door "lamp" (some o) w)))
unfolding serve_voice taffy_assistant.Voice.Auth.authenticate_device
    taffy_assistant.Service.Devices.validate_device_credential
    taffy_assistant.Repo.Devices.get_by_id select_one
serve_voice-device_example =
    serve_voice-device door service "lamp" "t1" [] household finished refl refl refl
