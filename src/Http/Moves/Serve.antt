-- ===== src/Http/Moves/Serve.antt =====
-- A request of the REST server, by what the statements do that its user may run.
use taffy_assistant.Base.{ℕ, String, Option, none, some, [], ◌∷◌, refl, ◌==◌}
use taffy_assistant.Model.{User}
use taffy_assistant.Repo.Users as UserRows
use taffy_assistant.Json.{Raw}
use taffy_assistant.Store.{Collation, M}
use taffy_assistant.Store.Moves.{Preorder, Moves, moves_pure, moves_if, moves_bind, moves_reading}
use taffy_assistant.Service.Moves.{Statements}
use taffy_assistant.Service.Users.{Bcrypt}
use taffy_assistant.Jwt.{Text, Claims, JwtLibrary, Redis, parse_token}
use taffy_assistant.Http.Accounts.{bearer_token}
use taffy_assistant.Http.Reply.{Reply}
use taffy_assistant.Http.Devices.{Handled}
use taffy_assistant.Http.Guard.{method_only, require_auth, with_token, with_claims}
use taffy_assistant.Http.Router.{
  Route, Guarded, register, login, guarded, logout, list_devices, list_device_states,
  update_device_state, bind_device, get_device_state, unbind_device, list_bindable, rename_device,
  get_profile, update_profile, change_password, delete_profile, list_scenes, create_scene,
  get_scene, delete_scene, trigger_scene, update_scene, Request, Server, handle, serve,
}
use taffy_assistant.Http.Router
use taffy_assistant.Http.Moves.{
  post_register-Moves, post_login-Moves, get_profile-Moves, update_profile-Moves,
  post_password-Moves, delete_profile-Moves,
}
use taffy_assistant.Http.Moves.Devices.{
  list_devices-Moves, list_device_states-Moves, update_state-Moves, get_state-Moves,
  list_bindable_devices-Moves, bind-Moves, rename-Moves, unbind-Moves, list_scenes-Moves,
  post_scene-Moves, get_scene-Moves, put_scene-Moves, remove_scene-Moves, trigger_scene-Moves,
}

module _ ⦃c : Collation⦄ ⦃b : Bcrypt⦄ ⦃j : JwtLibrary⦄ (r : Redis) {o : Preorder} where
  open r use {Store}

  post_only-Moves :
      (requested : String) (m : M Reply) → Moves o m → Moves o (method_only "POST" requested m)
  unfolding method_only
  post_only-Moves requested m k = moves_if (requested == "POST") k moves_pure

  plainly-Moves :
      (store : Option Store) (m : M Reply) → Moves o m → Moves o (Router.plainly r store m)
  plainly-Moves store m k = moves_bind k (λ reply. moves_pure)

  loudly-Moves :
      (store : Option Store) (m : M Handled) → Moves o m → Moves o (Router.loudly r store m)
  loudly-Moves store m k = moves_bind k (λ x. moves_pure)

  pub register_route-Moves :
      ((u : User) → Moves o (UserRows.create u))
      → (s : Server) (q : Request) (store : Option Store) (method : String) (body : Raw)
      → Moves o (Router.dispatched r s q store (register method body))
  register_route-Moves k s q store method body =
      plainly-Moves store _ (post_only-Moves method _ (post_register-Moves k s.auth q.salt body))

  pub login_route-Moves :
      (s : Server) (q : Request) (store : Option Store) (method : String) (body : Raw)
      → Moves o (Router.dispatched r s q store (login method body))
  login_route-Moves s q store method body =
      plainly-Moves store _ (post_only-Moves method _ (post_login-Moves s.auth body))

  module _ {actor : ℕ} (h : Statements o actor) where
    pub handle-Moves :
        (s : Server) (q : Request) (store : Option Store) (route : Guarded)
        → Moves o (handle r s q store route (some actor))
    unfolding handle
    handle-Moves s q store logout = moves_reading (λ w. refl)
    handle-Moves s q store list_devices = loudly-Moves store _ (list_devices-Moves h)
    handle-Moves s q store list_device_states = loudly-Moves store _ (list_device_states-Moves h)
    handle-Moves s q store (update_device_state body) =
        loudly-Moves store _ (update_state-Moves h body)
    handle-Moves s q store (bind_device body) = loudly-Moves store _ (bind-Moves h body)
    handle-Moves s q store (get_device_state id) = loudly-Moves store _ (get_state-Moves h id)
    handle-Moves s q store (unbind_device id) = loudly-Moves store _ (unbind-Moves h id)
    handle-Moves s q store (list_bindable reveal) =
        loudly-Moves store _ (list_bindable_devices-Moves h reveal)
    handle-Moves s q store (rename_device id body) = loudly-Moves store _ (rename-Moves h id body)
    handle-Moves s q store get_profile = plainly-Moves store _ (get_profile-Moves h)
    handle-Moves s q store (update_profile body) =
        plainly-Moves store _ (update_profile-Moves h body)
    handle-Moves s q store (change_password body) =
        plainly-Moves store _ (post_password-Moves h q.salt body)
    handle-Moves s q store (delete_profile body) =
        plainly-Moves store _ (delete_profile-Moves h body)
    handle-Moves s q store list_scenes = plainly-Moves store _ (list_scenes-Moves h)
    handle-Moves s q store (create_scene body) = plainly-Moves store _ (post_scene-Moves h body)
    handle-Moves s q store (get_scene id) = plainly-Moves store _ (get_scene-Moves h id)
    handle-Moves s q store (delete_scene id) = plainly-Moves store _ (remove_scene-Moves h id)
    handle-Moves s q store (trigger_scene id) =
        plainly-Moves store _ (trigger_scene-Moves h s.device_svc id)
    handle-Moves s q store (update_scene id body) =
        plainly-Moves store _ (put_scene-Moves h id body)

  -- A request of anybody.
  module _ (h : (actor : ℕ) → Statements o actor) (s : Server) (q : Request)
      (store : Option Store) where
    claims-Moves :
        (route : Guarded) (x : Option Claims)
        → Moves o (with_claims r (Router.silent r store) (handle r s q store route) x)
    claims-Moves route none = moves_pure
    claims-Moves route (some claims) = handle-Moves (h claims.user_id) s q store route

    token-Moves :
        (route : Guarded) (t : Option Text)
        → Moves o
            (with_token r (Router.silent r store) (handle r s q store route) s.auth.secret store t)
    token-Moves route none = moves_pure
    token-Moves route (some t) = record {
      along = λ w. (claims-Moves route (parse_token r s.auth.secret t w.now store)).along w;
    }

    guarded-Moves :
        (route : Guarded) (header : Text)
        → Moves o (
            require_auth r
              (Router.silent r store)
              (handle r s q store route)
              s.auth.secret
              store
              header)
    unfolding require_auth
    guarded-Moves route [] = moves_pure
    guarded-Moves route (x ∷ xs) = token-Moves route (bearer_token (x ∷ xs))

    dispatched-Moves : (route : Route) → Moves o (Router.dispatched r s q store route)
    dispatched-Moves (register method body) =
        register_route-Moves (h 0).insert_user s q store method body
    dispatched-Moves (login method body) = login_route-Moves s q store method body
    dispatched-Moves (guarded route) = guarded-Moves route q.authorization

    pub serve-Moves : Moves o (serve r s q store)
    unfolding serve
    serve-Moves = dispatched-Moves q.route
