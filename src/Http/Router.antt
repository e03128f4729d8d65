-- ===== src/Http/Router.antt =====
-- The REST routes of a server with a database: `buildRouter` of server/cmd/server/main.go. A request
-- is taken as the pattern of net/http's mux that it matches, with the path's parameters. A pattern
-- that names no method matches all of them.
use taffy_assistant.Base.{ℕ, String, Bool, true, Option, none}
use taffy_assistant.Json.{Raw}
use taffy_assistant.Store.{Collation, M, pure, ◌>>=◌}
use taffy_assistant.Service.Devices.{DeviceService}
use taffy_assistant.Service.Users.{Bcrypt}
use taffy_assistant.Voice.Command.{StateChanged}
use taffy_assistant.Jwt.{Text, JwtLibrary, Redis}
use taffy_assistant.Http.Reply.{Reply}
use taffy_assistant.Http.Accounts.{AuthHandler}
use taffy_assistant.Http.Accounts
use taffy_assistant.Http.Profile
use taffy_assistant.Http.Devices.{Handled}
use taffy_assistant.Http.Devices
use taffy_assistant.Http.Scenes
use taffy_assistant.Http.Guard.{method_only, post_only, require_auth}

-- The routes behind `RequireAuth`.
pub data Guarded : Type 0 where
  logout : Guarded
  list_devices list_device_states : Guarded
  update_device_state bind_device : Raw → Guarded
  get_device_state unbind_device : String → Guarded
  -- The query parameter `reveal`.
  list_bindable : String → Guarded
  rename_device : String → Raw → Guarded
  get_profile : Guarded
  update_profile change_password delete_profile : Raw → Guarded
  list_scenes : Guarded
  create_scene : Raw → Guarded
  get_scene delete_scene trigger_scene : Option ℕ → Guarded
  update_scene : Option ℕ → Raw → Guarded

pub data Route : Type 0 where
  -- The method, which `postOnly` checks, and the body.
  register login : String → Raw → Route
  guarded : Guarded → Route

-- The salt that bcrypt draws, and whether Redis fails, are the environment's.
pub record Request : Type 0 where
  pub route : Route
  pub authorization : Text
  pub salt : String
  pub redis_fault : Bool

-- `deps`, where the database is there, and the hub always is.
pub record Server : Type 0 where
  pub auth : AuthHandler
  pub device_svc : DeviceService

module _ ⦃c : Collation⦄ ⦃b : Bcrypt⦄ ⦃j : JwtLibrary⦄ (r : Redis) where
  open r use {Store}

  -- The reply, the event for the hub, and what Redis holds.
  abbrev pub Answer : Type 0
  Answer = Reply × Option StateChanged × Option Store

  abbrev pub silent : Option Store → Reply → M Answer
  silent store reply = pure (reply, none, store)

  abbrev pub plainly : Option Store → M Reply → M Answer
  plainly store m = m >>= silent store

  abbrev pub loud : Option Store → Handled → M Answer
  loud store (reply, event) = pure (reply, event, store)

  abbrev pub loudly : Option Store → M Handled → M Answer
  loudly store m = m >>= loud store

  abbrev pub left : Reply × Option Store → M Answer
  left (reply, store) = pure (reply, none, store)

  abbrev pub logged_out : Server → Request → Option Store → M Answer
  logged_out s q store w =
      left (Accounts.logout r s.auth q.authorization w.now q.redis_fault store) w

  -- The handlers that `RequireAuth` guards, by the user of the context.
  unfoldable pub handle : Server → Request → Option Store → Guarded → Option ℕ → M Answer
  handle s q store logout user = logged_out s q store
  handle s q store list_devices user = loudly store (Devices.list_devices user)
  handle s q store list_device_states user = loudly store (Devices.list_device_states user)
  handle s q store (update_device_state body) user =
      loudly store (Devices.update_state true user body)
  handle s q store (bind_device body) user = loudly store (Devices.bind user body)
  handle s q store (get_device_state id) user = loudly store (Devices.get_state id)
  handle s q store (unbind_device id) user = loudly store (Devices.unbind user id)
  handle s q store (list_bindable reveal) user =
      loudly store (Devices.list_bindable_devices user reveal)
  handle s q store (rename_device id body) user = loudly store (Devices.rename user id body)
  handle s q store get_profile user = plainly store (Profile.get_profile user)
  handle s q store (update_profile body) user = plainly store (Profile.update_profile user body)
  handle s q store (change_password body) user =
      plainly store (Profile.change_password q.salt user body)
  handle s q store (delete_profile body) user = plainly store (Profile.delete_profile user body)
  handle s q store list_scenes user = plainly store (Scenes.list_scenes user)
  handle s q store (create_scene body) user = plainly store (Scenes.create_scene user body)
  handle s q store (get_scene id) user = plainly store (Scenes.get_scene user id)
  handle s q store (delete_scene id) user = plainly store (Scenes.delete_scene user id)
  handle s q store (trigger_scene id) user =
      plainly store (Scenes.trigger_scene s.device_svc user id)
  handle s q store (update_scene id body) user = plainly store (Scenes.update_scene user id body)

  abbrev pub dispatched : Server → Request → Option Store → Route → M Answer
  dispatched s q store (register method body) =
      plainly store (post_only method (Accounts.register s.auth q.salt body))
  dispatched s q store (login method body) =
      plainly store (post_only method (Accounts.login s.auth body))
  dispatched s q store (guarded route) =
      require_auth r (silent store) (handle s q store route) s.auth.secret store q.authorization

  unfoldable pub serve : Server → Request → Option Store → M Answer
  unfolding handle require_auth method_only
  serve s q store = dispatched s q store q.route
