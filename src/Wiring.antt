-- ===== src/Wiring.antt =====
-- What the server is made of, by what it reaches when it starts: `buildDeps` of
-- server/cmd/server/main.go, and the health check of server/internal/handler/health.go.
use taffy_assistant.Base.{
  String, Bool, true, false, ◌&&◌, not, Option, none, some, is_none, ◌==◌, if◌then◌else◌,
}
use taffy_assistant.Store.{Result, ok, err}
use taffy_assistant.Service.Devices.{
  DeviceService, new_device_service, attach_mqtt, attach_scene_service,
}
use taffy_assistant.Service.Talks.{ConversationService}
use taffy_assistant.Mqtt.Bridge.{Bridge, Token, new_bridge, status_text, close}
use taffy_assistant.Config.{AppConfig}

-- `deps`: the user and the scene service are there if the database is. The JWT middleware and the hub
-- always are.
pub record Deps : Type 0 where
  pub db : Bool
  pub rdb : Bool
  pub mqtt : Option Bridge
  pub device_svc : Option DeviceService
  pub conv_svc : Option ConversationService

-- `NewConversationService` with its three repositories.
abbrev all_talks : ConversationService
all_talks = record { conv_repo = true; msg_repo = true; cmd_repo = true }

-- The device service, where there is a bridge.
abbrev with_mqtt : Option DeviceService → Option DeviceService
with_mqtt none = none
with_mqtt (some s) = some (attach_mqtt s)

abbrev bridged : Deps → Result (Option Bridge) → Deps
bridged d (err e) = d
bridged d (ok none) = d
bridged d (ok (some b)) = record d { mqtt = some b; device_svc = with_mqtt d.device_svc }

-- `buildDeps`: whether MySQL and Redis answer, and how the connection to the broker goes. The bridge
-- gets all three handlers.
unfoldable pub build_deps : AppConfig → Bool → Bool → Token → Deps
unfolding new_bridge
build_deps cfg mysql_up redis_up connecting =
    let d : Deps = record {
      db = mysql_up;
      rdb = redis_up;
      mqtt = none;
      device_svc = if mysql_up then some (attach_scene_service new_device_service) else none;
      conv_svc = if mysql_up then some all_talks else none;
    } in
    if not (cfg.mqtt.broker == "") && not (is_none d.device_svc)
    then bridged d (new_bridge cfg.mqtt.broker true true true connecting)
    else d

-- `Close` of `deps`, on the bridge.
unfoldable pub close_deps : Deps → Deps
unfolding close
close_deps d = record d { mqtt = close d.mqtt }

-- The components of the reply of `HealthWithDB`.
pub record Health : Type 0 where
  pub worker : String
  pub db : String
  pub redis : String
  pub mqtt : String

-- `pingDB` and `pingRedis`: whether there is a client, and whether it answers.
unfoldable pub ping : Bool → Bool → String
ping false answers = "not_configured"
ping true answers = if answers then "ok" else "error"

-- `resolveMQTTStatus`; the probe is there if the bridge is.
unfoldable pub resolve_mqtt_status : Option Bridge → String
unfolding status_text
resolve_mqtt_status none = "not_configured"
resolve_mqtt_status (some b) = status_text (some b)

-- `HealthWithDB`.
unfoldable pub health_with_db : AppConfig → Deps → Bool → Bool → Health
unfolding ping resolve_mqtt_status
health_with_db cfg d mysql_answers redis_answers = record {
  worker = if cfg.worker_ws_url == "" then "unknown" else "configured";
  db = ping d.db mysql_answers;
  redis = ping d.rdb redis_answers;
  mqtt = resolve_mqtt_status d.mqtt;
}
