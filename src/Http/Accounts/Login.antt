-- ===== src/Http/Accounts/Login.antt =====
-- What a login is answered.
use taffy_assistant.Base.{
  String, false, Option, none, some, [], ◌≡◌, refl, ◌==◌, inl, inr, arith, select_one,
  if◌then◌else◌, Option-cases, Bool-cases,
}
use taffy_assistant.Errors.{root, user_not_found, invalid_password}
use taffy_assistant.Json.{Raw}
use taffy_assistant.Model.{User}
use taffy_assistant.Store.{Collation, World, Result, ok, err, try, ◌>>=◌}
use taffy_assistant.Repo.Users.{has_phone}
use taffy_assistant.Repo.Users as Rows
use taffy_assistant.Service.Users.{Bcrypt}
use taffy_assistant.Service.Users
use taffy_assistant.Jwt.{JwtLibrary, generate_access_token}
use taffy_assistant.Http.Reply.{Reply, api_error, token}
use taffy_assistant.Http.Requests.{decode_login}
use taffy_assistant.Http.Accounts.{AuthHandler, login, logged_in, token_reply}

abbrev pub refused : Reply
refused = api_error 401 "invalid_phone_or_password"

module _ ⦃c : Collation⦄ ⦃b : Bcrypt⦄ ⦃j : JwtLibrary⦄ (h : AuthHandler) where
  login-missing :
      (phone password : String) (w : World)
      → w.faults ≡ []
      → select_one (has_phone phone) w.users ≡ none
      → Users.login phone password w ≡ (err user_not_found, w)
  unfolding Users.login Rows.get_by_phone
  login-missing phone password w calm found = ground arith

  login-present :
      (phone password : String) (w : World) (u : User)
      → w.faults ≡ []
      → select_one (has_phone phone) w.users ≡ some u
      → Users.login phone password w ≡ (
        if b.compare_hash_and_password u.password_hash password then ok u else err invalid_password,
        w,
      )
  unfolding Users.login Rows.get_by_phone
  login-present phone password w u calm found = ground arith

  abbrev pub answer_of : String → Option User → World → Result Reply × World
  answer_of password none w = (ok refused, w)
  answer_of password (some u) w = (
    ok (
        if b.compare_hash_and_password u.password_hash password
        then token 200 (generate_access_token h.secret w.now u.user_id h.access_ttl) h.access_ttl
        else refused),
    w,
  )

  login_with :
      (phone password : String) (w : World)
      → w.faults ≡ []
      → (try (Users.login phone password) >>= logged_in h) w
        ≡ answer_of password (select_one (has_phone phone) w.users) w
  unfolding token_reply root
  login_with phone password w calm = elim (Option-cases (select_one (has_phone phone) w.users)) [
    | inl missing ↦ rw (missing, login-missing phone password w calm missing) refl
    | inr (u, found) ↦
        rw (found, login-present phone password w u calm found)
          (elim (Bool-cases (b.compare_hash_and_password u.password_hash password)) [
            | inl right ↦ rw right refl
            | inr wrong ↦ rw wrong refl
          ])
  ]

  -- While the database answers, a login with a body that decodes and a phone that is not empty leaves
  -- everything as it is, and is answered with a token of the user who has the phone if the password
  -- matches; an unknown phone and a wrong password are answered alike, with 401 and one and the same
  -- code.
  pub login-answer :
      (body : Raw) (w : World)
      → w.faults ≡ []
      → let (q, e) = decode_login body in
        e ≡ none
        → (q.phone == "") ≡ false
        → login h body w ≡ answer_of q.password (select_one (has_phone q.phone) w.users) w
  unfolding login
  login-answer body w calm sound named =
      let (q, e) = decode_login body in rw (sound, named) (login_with q.phone q.password w calm)
