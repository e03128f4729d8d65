-- ===== src/Lifecycle/Runs.antt =====
-- Runs of the server: REST requests, messages of devices and voice sessions, one after the other.
use taffy_assistant.Base.{ℕ, String, Option, none, some, List, [], ◌∷◌, ◌≡◌, refl}
use taffy_assistant.Store.{Collation, World, Result, ok, err}
use taffy_assistant.Service.Users.{Bcrypt}
use taffy_assistant.Jwt.{Text, Claims, JwtLibrary, Redis, parse_token}
use taffy_assistant.Mqtt.Bridge.{Bridge, Filter, Message, receive}
use taffy_assistant.Voice.Pump.{Event}
use taffy_assistant.Voice.Open.{Door, world_of, serve_voice}
use taffy_assistant.Http.Accounts.{bearer_token}
use taffy_assistant.Http.Router.{Route, Request, Server, serve, register, login, guarded, Answer}

-- What comes in: a REST request, a message of a device, or a voice session as a whole, with the id
-- and the token of its request and what happens in it.
pub data Incoming : Type 0 where
  request : Request → Incoming
  report : Bridge → Filter → Message → Incoming
  session : Door → String → String → List Event → Incoming

-- It comes at some time, and meets some outages.
pub record Arrival : Type 0 where
  pub incoming : Incoming
  pub now : ℕ
  pub faults : List (Option String)

module _ ⦃c : Collation⦄ ⦃b : Bcrypt⦄ ⦃j : JwtLibrary⦄ (r : Redis) (text_of : List ℕ → String)
    (s : Server) where
  open r use {Store}

  abbrev pub user_of : Option Claims → Option ℕ
  user_of none = none
  user_of (some claims) = some claims.user_id

  abbrev pub holder : ℕ → Option Store → Option Text → Option ℕ
  holder now store none = none
  holder now store (some t) = user_of (parse_token r s.auth.secret t now store)

  abbrev pub asks : ℕ → Option Store → Text → Route → Option ℕ
  asks now store header (register method body) = none
  asks now store header (login method body) = none
  asks now store header (guarded route) = holder now store (bearer_token header)

  -- Who a request is from: the user of its token, where the route asks for one.
  abbrev pub caller : ℕ → Option Store → Request → Option ℕ
  caller now store q = asks now store q.authorization q.route

  abbrev pub meets : World → Arrival → World
  meets w a = record w { now = a.now; faults = a.faults }

  abbrev pub kept : Option Store → Result (Answer r) × World → World × Option Store
  kept store (ok (reply, event, store'), w) = (w, store')
  kept store (err e, w) = (w, store)

  abbrev pub accepted : Option Store → World → Incoming → World × Option Store
  accepted store w (request q) = kept store (serve r s q store w)
  accepted store w (report bridge f m) = ((receive text_of bridge f m w).1, store)
  accepted store w (session d id token events) = (world_of (serve_voice d id token events w), store)

  -- The state after what comes in.
  abbrev pub accept : World → Option Store → Arrival → World × Option Store
  accept w store a = accepted store (meets w a) a.incoming

  -- The state after all that comes in, and who it was from: a message of a device
  -- and a voice session are from no user.
  abbrev pub run_all : World × Option Store → List Arrival → World × Option Store
  run_all (w, store) [] = (w, store)
  run_all (w, store) (a ∷ rest) = run_all (accept w store a) rest

  abbrev pub sender : ℕ → Option Store → Incoming → Option ℕ
  sender now store (request q) = caller now store q
  sender now store (report bridge f m) = none
  sender now store (session d id token events) = none

  abbrev pub callers : World × Option Store → List Arrival → List (Option ℕ)
  callers (w, store) [] = []
  callers (w, store) (a ∷ rest) = sender a.now store a.incoming ∷ callers (accept w store a) rest

  pub kept-db : (store : Option Store) (x : Result (Answer r) × World) → (kept store x).0 ≡ x.1
  kept-db store (ok a, w) = refl
  kept-db store (err e, w) = refl
