-- ===== src/Mqtt/Bridge.antt =====
-- The bridge to the devices: `Bridge` of server/internal/mqtt/bridge.go, with the handlers that the
-- server gives it (`buildDeps` of server/cmd/server/main.go, service/mqtt_handlers.go).
use taffy_assistant.Base.{
  ℕ, String, Bool, true, false, Option, none, some, is_none, pos, List, [], ◌∷◌, ◌==◌, ◌⧺◌,
  if◌then◌else◌,
}
use taffy_assistant.Errors.{Error, plain, driver, wrap}
use taffy_assistant.Json.{
  Json, null, Raw, names, into_string, into_bool, into_int, into_int_ptr, unmarshal,
}
use taffy_assistant.Store.{Collation, CommandPayload, M, Result, ok, err, pure}
use taffy_assistant.Service.Sync.{StatusPayload, on_status, on_heartbeat}
use taffy_assistant.Mqtt.{extract_device_id}

-- A message: the bytes of its topic and what its payload is.
pub record Message : Type 0 where
  pub topic : List ℕ
  pub payload : Raw

-- The topic filters that the bridge subscribes to.
pub data Filter : Type 0 where
  status result heartbeat : Filter

-- Is there a handler for each, and is the client connected?
pub record Bridge : Type 0 where
  pub handles_status : Bool
  pub handles_result : Bool
  pub handles_heartbeat : Bool
  pub connected : Bool

-- `WaitTimeout` and `Error` of a token of the client: no answer in time, or an answer.
pub data Token : Type 0 where
  timed_out : Token
  answered : Option String → Token

-- `NewBridge`: no bridge where there is no broker. The client calls `onConnect` on its own once it is
-- connected.
unfoldable pub new_bridge : String → Bool → Bool → Bool → Token → Result (Option Bridge)
new_bridge broker on_status on_result on_heartbeat connecting =
    if broker == "" then ok none else elim connecting [
      | timed_out ↦ err (plain ("mqtt connect timeout: " ⧺ broker))
      | answered e ↦ elim e [
        | some t ↦ err (wrap "mqtt connect" (driver t))
        | none ↦ ok (
            some (record {
              handles_status = on_status;
              handles_result = on_result;
              handles_heartbeat = on_heartbeat;
              connected = false;
            }))
      ]
    ]

-- `onConnect`, `onConnectionLost` and `Close` on the flag.
unfoldable pub on_connect : Bridge → Bridge
on_connect b = record b { connected = true }

unfoldable pub on_connection_lost : Bridge → Bridge
on_connection_lost b = record b { connected = false }

unfoldable pub close : Option Bridge → Option Bridge
close none = none
close (some b) = some (record b { connected = false })

-- `Status`.
unfoldable pub status_text : Option Bridge → String
status_text none = "not_configured"
status_text (some b) = if b.connected then "ok" else "error"

abbrev published : String → Token → Option Error
published topic timed_out = some (plain ("mqtt publish timeout: " ⧺ topic))
published topic (answered none) = none
published topic (answered (some t)) = some (driver t)

-- `PublishCommand`, and `PublishGenericCommand`, which makes the payload of its arguments: the topic
-- and the payload, if they are given to the client, and the error. A payload of JSON values can be
-- marshalled.
unfoldable pub publish_command :
    Option Bridge
    → String
    → CommandPayload
    → Token
    → Option (String × CommandPayload) × Option Error
publish_command none id payload token = (none, some (plain "mqtt not connected"))
publish_command (some b) id payload token =
    let topic = "taffy/device/" ⧺ id ⧺ "/cmd" in
    if b.connected
    then (some (topic, payload), published topic token)
    else (none, some (plain "mqtt not connected"))

into_power : Json → Option Bool → Option String → Option Bool × Option String
unfolding into_bool
into_power null old e = (none, e)
into_power v old e =
    let (b, e') =
      into_bool "struct field StatusPayload.power" v (elim old [ none ↦ false | some b ↦ b ]) e in
    (some b, e')

-- A field that nothing reads counts for its error only.
abbrev checked {ℓ} : {A S : Type ℓ} → S → A × Option String → S × Option String
checked p (x, e) = (p, e)

status_field : String → Json → StatusPayload → Option String → StatusPayload × Option String
status_field key v p e =
    if names key "device_id"
    then (let (x, e') = into_string "struct field StatusPayload.device_id" v p.device_id e in
        (record p { device_id = x }, e'))
    else if names key "type"
    then checked p (into_string "struct field StatusPayload.type" v "" e)
    else if names key "power"
    then (let (x, e') = into_power v p.power e in (record p { power = x }, e'))
    else if names key "brightness"
    then (let (x, e') = into_int_ptr "struct field StatusPayload.brightness" v p.brightness e in
        (record p { brightness = x }, e'))
    else if names key "temperature"
    then (let (x, e') = into_int_ptr "struct field StatusPayload.temperature" v p.temperature e in
        (record p { temperature = x }, e'))
    else if names key "mode"
    then (let (x, e') = into_string "struct field StatusPayload.mode" v p.mode e in
        (record p { mode = x }, e'))
    else if names key "position"
    then (let (x, e') = into_int_ptr "struct field StatusPayload.position" v p.position e in
        (record p { position = x }, e'))
    else if names key "updated_at"
    then checked p (into_int "struct field StatusPayload.updated_at" "int64" v (pos 0) e)
    else (p, e)

unfoldable pub decode_status : Raw → StatusPayload × Option String
unfolding unmarshal status_field names into_string into_int into_int_ptr into_power
decode_status = unmarshal "mqtt.StatusPayload" status_field (record {
  device_id = "";
  power = none;
  brightness = none;
  temperature = none;
  mode = "";
  position = none;
})

-- `ResultPayload`.
pub record ResultPayload : Type 0 where
  pub device_id : String
  pub action : String
  pub result : String
  pub tool_id : String

result_field : String → Json → ResultPayload → Option String → ResultPayload × Option String
result_field key v p e =
    if names key "device_id"
    then (let (x, e') = into_string "struct field ResultPayload.device_id" v p.device_id e in
        (record p { device_id = x }, e'))
    else if names key "action"
    then (let (x, e') = into_string "struct field ResultPayload.action" v p.action e in
        (record p { action = x }, e'))
    else if names key "result"
    then (let (x, e') = into_string "struct field ResultPayload.result" v p.result e in
        (record p { result = x }, e'))
    else if names key "tool_id"
    then (let (x, e') = into_string "struct field ResultPayload.tool_id" v p.tool_id e in
        (record p { tool_id = x }, e'))
    else (p, e)

unfoldable pub decode_result : Raw → ResultPayload × Option String
unfolding unmarshal result_field names into_string
decode_result =
    unmarshal "mqtt.ResultPayload" result_field
      (record { device_id = ""; action = ""; result = ""; tool_id = "" })

-- `text_of` is Go's conversion of bytes to a text.
module _ ⦃c : Collation⦄ (text_of : List ℕ → String) where
  -- `handleStatus`.
  unfoldable pub handle_status : Bridge → Message → M (Unit {0})
  unfolding extract_device_id on_status
  handle_status b m =
      let (p, e) = decode_status m.payload in
      if b.handles_status
      then (if is_none e
          then (if p.device_id == ""
              then on_status (record p { device_id = text_of (extract_device_id m.topic) })
              else on_status p)
          else pure tt)
      else pure tt

  -- `NewMQTTResultHandler`: the handler writes to the log, which is not modelled.
  abbrev pub on_result : ResultPayload → M (Unit {0})
  on_result p = pure tt

  -- `handleResult`.
  unfoldable pub handle_result : Bridge → Message → M (Unit {0})
  unfolding extract_device_id
  handle_result b m =
      let (p, e) = decode_result m.payload in
      if b.handles_result
      then (if is_none e
          then (if p.device_id == ""
              then on_result (record p { device_id = text_of (extract_device_id m.topic) })
              else on_result p)
          else pure tt)
      else pure tt

  abbrev pub beaten : List ℕ → M (Unit {0})
  beaten [] = pure tt
  beaten (x ∷ xs) = on_heartbeat (text_of (x ∷ xs))

  -- `handleHeartbeat`.
  unfoldable pub handle_heartbeat : Bridge → Message → M (Unit {0})
  unfolding extract_device_id on_heartbeat
  handle_heartbeat b m = if b.handles_heartbeat then beaten (extract_device_id m.topic) else pure tt

  -- A message that comes in, by the subscription that it comes through.
  unfoldable pub receive : Bridge → Filter → Message → M (Unit {0})
  unfolding handle_status handle_result handle_heartbeat
  receive b status m = handle_status b m
  receive b result m = handle_result b m
  receive b heartbeat m = handle_heartbeat b m
