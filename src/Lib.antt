-- ===== src/Lib.antt =====
-- Taffy: a voice assistant for devices at home. A client talks over a WebSocket to the server,
-- which pumps its frames to a worker and back; the worker has speech recognised, asks a language
-- model, and sends the tool calls of its answers back as device commands; the server carries these
-- out on its database, tells the devices over MQTT and the owner's other clients through a push
-- hub. The Go code of the server (server/), of the worker (worker/) and of what they share (pkg/)
-- is modelled here.
--
-- Which file models what:
--   * Base: the numbers, texts and lists of rows that all use. Errors: Go's error values. Json: JSON
--     documents and the decoding of encoding/json into structs.
--   * Protocol: pkg/protocol/events.go. Model: server/internal/model/model.go.
--   * Store: the tables, the clock, the outages to come and the MQTT messages sent, as a record
--     `World`, and the monad `M` of operations that may fail on it.
--   * Repo: server/internal/repository, one function per SQL statement. Service:
--     server/internal/service, one function per method.
--   * Voice: server/internal/handler/voice.go, voice_proto.go and voice_session.go; Voice/Open has a
--     session from its request to its end. Hub: server/internal/hub/hub.go. Mqtt:
--     server/internal/mqtt/bridge.go. Jwt: server/internal/middleware/jwt.go.
--   * Http: the other files of server/internal/handler: Devices and Scenes, Accounts (auth.go) and
--     Profile (user.go) with their bodies in Requests and their replies in Reply; Guard has RequireAuth
--     and the door of the push hub, Router the routes of `buildRouter`.
--   * Config: server/internal/config/config.go. Wiring: `buildDeps` of server/cmd/server/main.go and
--     the health check.
--   * Store/Moves, Service/Moves, Http/Moves and Voice/Moves carry a preorder on the tables from the
--     SQL statements (`Statements`, what a request of a user may write, and `Talking`, what a voice
--     session may) through the services and handlers to `serve` and `serve_voice`.
--     Repo/Wf has the well-formed tables. Lifecycle has the abstract device, the runs of the server and
--     the two uses of the preorders.
--   * Worker: worker/internal/handler. Examples: the theorems at concrete inputs.
--
-- How state and order are modelled. A statement of the database fails where the list of outages
-- says so; past its end none fails. `w.faults ≡ []` in a theorem is "while the database answers"; a
-- theorem without it holds whatever fails. A statement that fails writes nothing: a connection that
-- is lost after the commit is not modelled. Each statement is atomic; a request is a sequence of
-- them with no other request in between. A voice session is run along a list of events (a frame
-- from either side, or one of the background jobs, whichever, run at once), so that all orders of
-- those are covered; the result of a command that cannot be written is an event too, and a message
-- that cannot be passed on ends its side of the pump and is none. The hub's operations are
-- functions; the steps that others can come between are functions of their own. There is no fuel
-- but in the decimal notation of a number, where the number itself is enough.
--
-- A run of the server (Lifecycle/Runs) is a list of REST requests, messages of devices and voice
-- sessions, each with the time at which it comes and the outages that it meets; the tables and what
-- Redis holds go from one to the next. A voice session is in it as a whole: all its events happen
-- at one time, with nothing else in between.
--
-- Columns refuse what they cannot hold, where that is modelled: the INT and ENUM columns of the
-- device states, and the names and rooms of devices (VARCHAR(50)) in renamings and bindings.
--
-- Parameters: the database's texts (`Collation`: their comparison, an equivalence, and what a
-- VARCHAR or an ENUM column holds of one), bcrypt (`Bcrypt`), golang-jwt (`JwtLibrary`), Redis
-- (`Redis`), the HTTP service of a language model (`Http`), the speech service's reply and the JSON
-- parser for the arguments of tool calls (`Parser`). Functions and values that the definitions take
-- from outside: what net/url makes of a URL (`SetQuery`), whether a peer is reached, the tokens of
-- the MQTT client, the text of the bytes of a topic, the environment, what the YAML library and
-- `time.ParseDuration` make of a text.
--
-- Not modelled: the lengths of all other texts in the database (a text that is too long is stored
-- here and refused by MySQL), two writers at once on a WebSocket, deadlines and pings, logs, the
-- shutdown of both programs and the start-up of the worker, the opening of the worker's
-- connections, a server without a database beyond which services it has, the Android client
-- (client/), the simulated devices (furniture/) and the Python model servers (model/).
pub mod Base
pub mod Errors
pub mod Json
pub mod Protocol
pub mod Model
pub mod Store
pub mod Repo
pub mod Service
pub mod Voice
pub mod Hub
pub mod Worker
pub mod Mqtt
pub mod Jwt
pub mod Http
pub mod Lifecycle
pub mod Config
pub mod Wiring
pub mod Examples
