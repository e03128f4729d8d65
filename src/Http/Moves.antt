-- ===== src/Http/Moves.antt =====
-- The REST server, by what the statements do that a request of a user runs.
pub mod Devices
pub mod Serve
use Prim.Native.String.{len}
use taffy_assistant.Base.{
  ℕ, String, Bool, true, false, Option, none, some, is_none, List, refl, ◌==◌, ◌&&◌, ◌||◌, ltb, ◌≡◌,
  ◌⊎◌, inl, inr, arith,
}
use taffy_assistant.Json.{Raw}
use taffy_assistant.Model.{User, Device, DeviceState, Scene}
use taffy_assistant.Store.{Collation, World, M, Result, ok, err}
use taffy_assistant.Store.Moves.{
  Preorder, Moves, moves_pure, moves_fail, moves_if, moves_reading, moves_wrapping, moves_try,
  moves_bind, moves_result,
}
use taffy_assistant.Repo.Users as UserRows
use taffy_assistant.Repo.Devices as DeviceRows
use taffy_assistant.Repo.States
use taffy_assistant.Repo.Scenes as SceneRows
use taffy_assistant.Service.Moves.{
  Statements, scene-Moves, login-Moves, register-Moves, change_password-Moves,
  verify_password-Moves, update_user-Moves, delete_user-Moves, get_user-Moves, bind_device-Moves,
  rename_device-Moves, update_device_state-Moves, get_device_state-Moves,
}
use taffy_assistant.Service.Moves.Scenes.{
  execute_control_device-Moves, trigger-Moves, create_scene-Moves, update_scene-Moves,
  delete_scene-Moves,
}
use taffy_assistant.Service.Users.{Bcrypt, Outcome, returned, panicked}
use taffy_assistant.Service.Devices.{DeviceService}
use taffy_assistant.Service.Devices as DeviceService
use taffy_assistant.Service.Scenes as SceneService
use taffy_assistant.Jwt.{JwtLibrary, Redis}
use taffy_assistant.Http.Reply.{Reply}
use taffy_assistant.Http.Requests.{decode_register, decode_login}
use taffy_assistant.Http.Accounts.{AuthHandler}
use taffy_assistant.Http.Accounts
use taffy_assistant.Http.Profile
use taffy_assistant.Http.Guard.{method_only}
use taffy_assistant.Http.Router.{Route, Request, Server, handle, Answer}
use taffy_assistant.Http.Router

module _ ⦃c : Collation⦄ ⦃b : Bcrypt⦄ ⦃j : JwtLibrary⦄ {o : Preorder} where
  token_reply-Moves :
      (s : AuthHandler) (status user : ℕ) → Moves o (Accounts.token_reply s status user)
  unfolding Accounts.token_reply
  token_reply-Moves s status user = moves_reading (λ w. refl)

  registered-Moves : (s : AuthHandler) (r : Result (Outcome ℕ)) → Moves o (Accounts.registered s r)
  registered-Moves s (err e) = moves_pure
  registered-Moves s (ok panicked) = moves_pure
  registered-Moves s (ok (returned id)) = token_reply-Moves s 201 id

  logged_in-Moves : (s : AuthHandler) (r : Result User) → Moves o (Accounts.logged_in s r)
  logged_in-Moves s (err e) = moves_pure
  logged_in-Moves s (ok u) = token_reply-Moves s 200 u.user_id

  pub post_login-Moves : (s : AuthHandler) (body : Raw) → Moves o (Accounts.login s body)
  unfolding Accounts.login
  post_login-Moves s body =
      let (r, e) = decode_login body in
      moves_if (is_none e)
        (moves_if (r.phone == "") moves_pure
          (moves_bind (moves_try (login-Moves r.phone r.password)) (logged_in-Moves s)))
        moves_pure

  pub post_register-Moves :
      ((u : User) → Moves o (UserRows.create u))
      → (s : AuthHandler) (salt : String) (body : Raw) → Moves o (Accounts.register s salt body)
  unfolding Accounts.register
  post_register-Moves insert_user s salt body =
      let (r, e) = decode_register body in
      moves_if (is_none e)
        (moves_if (r.phone == "" && r.email == "") moves_pure (
          moves_if (r.password == "" || ltb (len r.password) 6) moves_pure (
            moves_bind
              (moves_try (register-Moves insert_user salt r.phone r.email r.password r.nickname))
              (registered-Moves s))))
        moves_pure

module _ ⦃c : Collation⦄ ⦃b : Bcrypt⦄ {o : Preorder} {actor : ℕ} (h : Statements o actor) where
  pub get_profile-Moves : Moves o (Profile.get_profile (some actor))
  unfolding Profile.get_profile
  get_profile-Moves =
      moves_bind (moves_try (get_user-Moves h))
        (moves_result Profile.shown (λ e. moves_pure) (λ a. moves_pure))

  updated-Moves : (r : Result (Unit {0})) → Moves o (Profile.updated actor r)
  updated-Moves (err e) = moves_pure
  updated-Moves (ok _) =
      moves_bind (moves_try (get_user-Moves h))
        (moves_result Profile.read_again (λ e. moves_pure) (λ a. moves_pure))

  pub update_profile-Moves : (body : Raw) → Moves o (Profile.update_profile (some actor) body)
  unfolding Profile.update_profile
  update_profile-Moves body =
      moves_if _ (moves_bind (moves_try (update_user-Moves h _ _ _)) updated-Moves) moves_pure

  pub post_password-Moves :
      (salt : String) (body : Raw) → Moves o (Profile.change_password salt (some actor) body)
  unfolding Profile.change_password
  post_password-Moves salt body =
      moves_if _
        (moves_bind (moves_try (change_password-Moves h salt _ _))
          (moves_result Profile.changed (λ e. moves_pure) (λ a. moves_pure)))
        moves_pure

  verified-Moves : (r : Result User) → Moves o (Profile.verified actor r)
  verified-Moves (err e) = moves_pure
  verified-Moves (ok _) =
      moves_bind (moves_try (delete_user-Moves h))
        (moves_result Profile.deleted (λ e. moves_pure) (λ a. moves_pure))

  pub delete_profile-Moves : (body : Raw) → Moves o (Profile.delete_profile (some actor) body)
  unfolding Profile.delete_profile
  delete_profile-Moves body =
      moves_if _ (moves_bind (moves_try (verify_password-Moves h _)) verified-Moves) moves_pure
