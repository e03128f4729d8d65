-- ===== src/Voice/Open.antt =====
-- A voice session from its request to its end: `ServeHTTP` and `pushDeviceContext` of
-- server/internal/handler/voice.go, and `buildWorkerURL` of voice_proto.go.
pub mod Entry
use taffy_assistant.Base.{
  ℕ, String, Bool, true, false, ◌||◌, Option, none, some, List, [], ◌∷◌, ◌++◌, ◌==◌, is_none,
  if◌then◌else◌,
}
use taffy_assistant.Errors.{Error}
use taffy_assistant.Model.{Device}
use taffy_assistant.Protocol.{DeviceContext}
use taffy_assistant.Store.{Collation, World, Result, ok, err}
use taffy_assistant.Service.Talks.{ConversationService}
use taffy_assistant.Service.Context.{build_device_context}
use taffy_assistant.Voice.Session.{VoiceSession, new_voice_session, start_session, end_session}
use taffy_assistant.Voice.Auth.{authenticate_device}
use taffy_assistant.Voice.Command.{ToWorker, device_info, Line, VoiceHandler, acting}
use taffy_assistant.Voice.Pump.{Event, Pump, run}

-- net/url: a URL with these query parameters set; none where it does not parse.
abbrev pub SetQuery : Type 0
SetQuery = String → List (String × String) → Option String

-- `buildWorkerURL`; the session's id is the text of the time.
unfoldable pub build_worker_url : SetQuery → String → String → String → Option String
build_worker_url set_query time base id =
    if id == "" then some base else set_query base (("device_id", id) ∷ ("session_id", time) ∷ [])

-- The rest of a `VoiceHandler`, and what the network does to one session: whether the connection
-- becomes a WebSocket, and whether the worker is reached at a URL.
pub record Door : Type 0 where
  pub handler : VoiceHandler
  pub conv : ConversationService
  pub auth_enabled : Bool
  pub worker_ws_url : String
  pub set_query : SetQuery
  pub time : String
  pub upgraded : Bool
  pub reached : String → Bool

-- How a request ends: with 401, without a WebSocket, with an error message to the client, or after a
-- session.
pub data Served : Type 0 where
  unauthorized : World → Served
  not_upgraded : World → Served
  failed : String → World → Served
  talked : Pump → Served

-- The world that a request leaves.
abbrev pub world_of : Served → World
world_of (unauthorized w) = w
world_of (not_upgraded w) = w
world_of (failed message w) = w
world_of (talked p) = p.line.world

abbrev pub pushed : Result (List DeviceContext) × World → List ToWorker × World
pushed (ok items, w) = (device_info items ∷ [], w)
pushed (err e, w) = ([], w)

module _ ⦃c : Collation⦄ where
  -- `pushDeviceContext`, where there is a device service and an id.
  unfoldable pub push_device_context : VoiceHandler → String → World → List ToWorker × World
  push_device_context h id w =
      if is_none h.device_svc || (id == "") then ([], w) else pushed (build_device_context id w)

  -- The owner of the device, if there is one, starts a conversation.
  abbrev pub starting : Option Device → String → VoiceSession × World → VoiceSession × World
  starting none id x = x
  starting (some d) id x = elim d.owner_id [ none ↦ x | some user ↦ start_session user id x ]

  -- The session at the start of the pump.
  unfoldable pub open_session : Door → String → Option Device → World → Pump
  unfolding push_device_context start_session
  open_session d id device w =
      let (context, w') = push_device_context d.handler id w in
      let (session, w'') = starting device id (new_voice_session d.conv, w') in
      record {
        line = record {
          session = session;
          world = w'';
          to_worker = context;
          to_client = [];
          broadcasts = [];
        };
        jobs = [];
      }

  -- `defer vs.end()`.
  unfoldable pub finish : Pump → Pump
  unfolding end_session
  finish p = record p { line = acting end_session p.line }

  abbrev pub dialled : Door → String → Option Device → List Event → World → Option String → Served
  dialled d id device events w none = failed "worker url invalid" w
  dialled d id device events w (some url) =
      if d.reached url
      then talked (finish (run d.handler events (open_session d id device w)))
      else failed "worker backend unreachable" w

  abbrev pub entered : Door → String → List Event → Result (Option Device) × World → Served
  entered d id events (err e, w) = unauthorized w
  entered d id events (ok device, w) =
      if d.upgraded
      then (if d.worker_ws_url == ""
          then failed "worker not configured" w
          else dialled d id device events w
              (build_worker_url d.set_query d.time d.worker_ws_url id))
      else not_upgraded w

  -- `ServeHTTP`, with what happens in the session.
  unfoldable pub serve_voice : Door → String → String → List Event → World → Served
  unfolding open_session finish build_worker_url run
  serve_voice d id token events w =
      entered d id events (authenticate_device d.auth_enabled d.handler.device_svc id token w)
