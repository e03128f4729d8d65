-- ===== src/Examples/Worker.antt =====
-- The theorems on the worker, and on tokens, at concrete ones.
use taffy_assistant.Base.{
  ℕ, zero, suc, ◌≤◌, String, true, false, none, some, [], ◌∷◌, ◌++◌, ◌≡◌, ◌==◌, refl, length,
  if◌then◌else◌,
}
use taffy_assistant.Json.{obj, end, doc, malformed}
use taffy_assistant.Worker.Config.{LlmProvider, AppConfig}
use taffy_assistant.Worker.Llm.{
  Http, ok, err, LlmRequest, LlmResponse, ToolCall, post_llm_with_fallback, call_llm_with_tools,
}
use taffy_assistant.Worker.Llm.Fallback.{
  until_answer, first_answer, answer_of, post_llm_with_fallback-first,
}
use taffy_assistant.Worker.Session.{new_session, remember_tool_call, pop_tool_call}
use taffy_assistant.Worker.Session.Pending.{pop_tool_call-remember_tool_call}
use taffy_assistant.Worker.Orchestrate.{Desk, Parser, handle_llm_with_tools}
use taffy_assistant.Worker.Orchestrate.Calls.{commands_for, handle_llm_with_tools-commands}
use taffy_assistant.Worker.Tts.{Wav, TtsReply, replied, wav_header, max_wav_bytes, tts_audio}
use taffy_assistant.Worker.Tts.Bounds.{tts_audio-bounds}

abbrev lights_on : ToolCall
lights_on = record { id = "c1"; function = record { name = "control_device"; arguments = "{}" } }

abbrev broken : ToolCall
broken = record { id = "c2"; function = record { name = "control_device"; arguments = "" } }

abbrev calls : LlmResponse
calls = record {
  choices = record { content = ""; tool_calls = lights_on ∷ broken ∷ [] } ∷ [];
  error = none;
}

abbrev down : LlmProvider
down = record { url = "http://a"; api_key = "k"; model = "m" }

abbrev up : LlmProvider
up = record { url = "http://b"; api_key = "k"; model = "n" }

-- The second provider answers.
abbrev network : Http
network p req = if p.url == "http://b" then ok calls else err "connection refused"

abbrev config : AppConfig
config = record {
  asr_ws_url = "";
  llm = record { system_prompt = ""; timeout = 30; providers = down ∷ up ∷ [] };
  tts_url = "http://tts";
}

abbrev request : LlmRequest
request = record { model = ""; messages = []; tools = true }

post_llm_with_fallback-first_example :
    ((post_llm_with_fallback network config.llm request).0
      ≡ until_answer network request (down ∷ up ∷ []))
    × (answer_of (post_llm_with_fallback network config.llm request).1
        ≡ first_answer network request (down ∷ up ∷ []))
post_llm_with_fallback-first_example = post_llm_with_fallback-first network config.llm request

pop_tool_call-remember_tool_call_example :
    let s' = remember_tool_call "c1" "control_device" "{}" new_session in
    let (found, s'') = pop_tool_call "c1" s' in
    (found ≡ some (record { name = "control_device"; arguments = "{}" }))
    × ((pop_tool_call "c1" s'').0 ≡ none)
    × ((pop_tool_call "c2" s').0 ≡ (pop_tool_call "c2" new_session).0)
    × ((pop_tool_call "c2" s'').0 ≡ (pop_tool_call "c2" new_session).0)
pop_tool_call-remember_tool_call_example =
    pop_tool_call-remember_tool_call "c1" "control_device" "{}" "c2" new_session refl

-- A parser that knows the empty object.
instance abbrev objects : Parser
objects = record { parse = λ t. if t == "{}" then doc (obj end) else malformed "invalid character" }

abbrev desk : Desk
desk = record { session = new_session; sent = []; to_asr = []; jobs = [] }

handle_llm_with_tools-commands_example :
    ((handle_llm_with_tools config network "on" [] [] desk).sent
      ≡ desk.sent ++ commands_for (lights_on ∷ broken ∷ []))
    × ((handle_llm_with_tools config network "on" [] [] desk).jobs ≡ desk.jobs)
unfolding call_llm_with_tools
handle_llm_with_tools-commands_example =
    handle_llm_with_tools-commands config network "on" [] [] desk none lights_on (broken ∷ []) "" []
      refl

abbrev zeros : ℕ → Wav
zeros zero = []
zeros (suc n) = 0 ∷ zeros n

abbrev speech : String → TtsReply
speech said = replied 200 "200 OK" (ok (zeros 44))

tts_audio-bounds_example :
    (("hello" == "") ≡ false)
    × (status_text : String) × (speech "hello" ≡ replied 200 status_text (ok (zeros 44)))
    × (wav_header ≤ length (zeros 44))
    × (length (zeros 44) ≤ max_wav_bytes)
unfolding tts_audio taffy_assistant.Worker.Tts.limited
tts_audio-bounds_example = tts_audio-bounds "http://tts" speech "hello" (zeros 44) refl
