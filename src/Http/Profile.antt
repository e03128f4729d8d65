-- ===== src/Http/Profile.antt =====
-- server/internal/handler/user.go. The user is the one of the request's context, if there is one.
use taffy_assistant.Base.{ℕ, String, Option, none, some, is_none, if◌then◌else◌}
use taffy_assistant.Errors.{Error, root, invalid_password, weak_password}
use taffy_assistant.Json.{Raw}
use taffy_assistant.Model.{User}
use taffy_assistant.Store.{Collation, M, Result, ok, err, pure, ◌>>=◌, try}
use taffy_assistant.Service.Users.{Bcrypt}
use taffy_assistant.Service.Users
use taffy_assistant.Http.Reply.{Reply, api_error, done, profile, no_profile, unauthorized, internal}
use taffy_assistant.Http.Requests.{decode_profile, decode_passwords, decode_delete}

abbrev pub shown : Result User → M Reply
shown (ok u) = pure (profile u)
shown (err e) = pure internal

-- `GetProfile`.
unfoldable pub get_profile : Option ℕ → M Reply
get_profile none = pure unauthorized
get_profile (some user) = try (Users.get_user user) >>= shown

abbrev pub read_again : Result User → M Reply
read_again (ok u) = pure (profile u)
read_again (err e) = pure no_profile

abbrev pub updated : ℕ → Result (Unit {0}) → M Reply
updated user (err e) = pure (api_error 400 "invalid_request")
updated user (ok _) = try (Users.get_user user) >>= read_again

abbrev pub password_error : Error → Reply
password_error e = elim (root e) [
  | invalid_password ↦ api_error 401 "invalid_password"
  | weak_password ↦ api_error 400 "weak_password"
  | _ ↦ internal
]

abbrev pub changed : Result (Unit {0}) → M Reply
changed (ok _) = pure done
changed (err e) = pure (password_error e)

abbrev pub deleted : Result (Unit {0}) → M Reply
deleted (ok _) = pure done
deleted (err e) = pure internal

abbrev pub verified : ℕ → Result User → M Reply
verified user (err e) = pure (api_error 401 "invalid_password")
verified user (ok _) = try (Users.delete_user user) >>= deleted

module _ ⦃c : Collation⦄ where
  -- `UpdateProfile`.
  unfoldable pub update_profile : Option ℕ → Raw → M Reply
  update_profile none body = pure unauthorized
  update_profile (some user) body =
      let (r, e) = decode_profile body in
      if is_none e
      then try (Users.update_user user r.nickname r.email r.avatar_url) >>= updated user
      else pure (api_error 400 "invalid_request_body")

module _ ⦃c : Collation⦄ ⦃b : Bcrypt⦄ where
  -- `ChangePassword`; the salt is what bcrypt draws.
  unfoldable pub change_password : String → Option ℕ → Raw → M Reply
  unfolding root
  change_password salt none body = pure unauthorized
  change_password salt (some user) body =
      let (r, e) = decode_passwords body in
      if is_none e
      then try (Users.change_password salt user r.old_password r.new_password) >>= changed
      else pure (api_error 400 "invalid_request_body")

  -- `DeleteProfile`.
  unfoldable pub delete_profile : Option ℕ → Raw → M Reply
  delete_profile none body = pure unauthorized
  delete_profile (some user) body =
      let (password, e) = decode_delete body in
      if is_none e
      then try (Users.verify_password user password) >>= verified user
      else pure (api_error 400 "invalid_request_body")
