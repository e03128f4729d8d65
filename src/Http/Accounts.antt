-- ===== src/Http/Accounts.antt =====
-- server/internal/handler/auth.go. The tokens are signed with HMAC, which fails for no claims, so that
-- the branches for an error of `GenerateAccessToken` are not there.
pub mod Tokens
pub mod Login
use Prim.Native.String.{len}
use taffy_assistant.Base.{
  ℕ, String, Bool, true, false, ◌&&◌, ◌||◌, Option, none, some, List, [], ◌∷◌, map, ◌==◌, eqb, ltb,
  is_none, if◌then◌else◌,
}
use taffy_assistant.Errors.{
  Error, root, duplicate_phone, duplicate_email, user_not_found, invalid_password,
}
use taffy_assistant.Json.{Raw, fold, same_codes}
use taffy_assistant.Model.{User}
use taffy_assistant.Store.{Collation, M, Result, ok, err, pure, ◌>>=◌, try, now_of}
use taffy_assistant.Service.Users.{Bcrypt, Outcome, returned, panicked}
use taffy_assistant.Service.Users
use taffy_assistant.Jwt.{Text, JwtLibrary, Redis, generate_access_token, revoke_token}
use taffy_assistant.Http.Reply.{Reply, api_error, done, token, aborted, internal}
use taffy_assistant.Http.Requests.{decode_register, decode_login}

-- `AuthHandler`: the secret of its JWT middleware, and `AccessTTLDuration` in whole seconds.
pub record AuthHandler : Type 0 where
  pub secret : Text
  pub access_ttl : ℕ

abbrev pub register_error : Error → Reply
register_error e = elim (root e) [
  | duplicate_phone ↦ api_error 409 "phone_already_registered"
  | duplicate_email ↦ api_error 409 "email_already_registered"
  | _ ↦ internal
]

abbrev pub login_error : Error → Reply
login_error e = elim (root e) [
  | user_not_found ↦ api_error 401 "invalid_phone_or_password"
  | invalid_password ↦ api_error 401 "invalid_phone_or_password"
  | _ ↦ internal
]

module _ ⦃j : JwtLibrary⦄ where
  -- The token of a user, from now on, with the status of the reply.
  unfoldable pub token_reply : AuthHandler → ℕ → ℕ → M Reply
  unfolding generate_access_token
  token_reply h status user = now_of >>= λ now.
      pure (token status (generate_access_token h.secret now user h.access_ttl) h.access_ttl)

  abbrev pub registered : AuthHandler → Result (Outcome ℕ) → M Reply
  registered h (err e) = pure (register_error e)
  registered h (ok panicked) = pure aborted
  registered h (ok (returned id)) = token_reply h 201 id

  abbrev pub logged_in : AuthHandler → Result User → M Reply
  logged_in h (err e) = pure (login_error e)
  logged_in h (ok u) = token_reply h 200 u.user_id

module _ ⦃c : Collation⦄ ⦃b : Bcrypt⦄ ⦃j : JwtLibrary⦄ where
  -- `Register`; the salt is what bcrypt draws.
  unfoldable pub register : AuthHandler → String → Raw → M Reply
  unfolding root token_reply
  register h salt body =
      let (r, e) = decode_register body in
      if is_none e
      then (if r.phone == "" && r.email == ""
          then pure (api_error 400 "phone_or_email_required")
          else if r.password == "" || ltb (len r.password) 6
          then pure (api_error 400 "password_too_short")
          else try (Users.register salt r.phone r.email r.password r.nickname) >>= registered h)
      else pure (api_error 400 "invalid_request_body")

  -- `Login`.
  unfoldable pub login : AuthHandler → Raw → M Reply
  unfolding root token_reply
  login h body =
      let (r, e) = decode_login body in
      if is_none e
      then (if r.phone == ""
          then pure (api_error 400 "phone_required")
          else try (Users.login r.phone r.password) >>= logged_in h)
      else pure (api_error 400 "invalid_request_body")

-- `strings.SplitN(s, " ", 2)`: the two parts, or none where there is no space.
unfoldable pub split_n : Text → Option (Text × Text)
split_n [] = none
split_n (x ∷ xs) =
    let rest = split_n xs in
    if eqb x 32
    then some ([], xs)
    else elim rest [ none ↦ none | some (front, back) ↦ some (x ∷ front, back) ]

-- `strings.EqualFold(s, "Bearer")`: no letter of "Bearer" folds to one beyond ASCII.
unfoldable pub is_bearer : Text → Bool
unfolding fold same_codes
is_bearer s = same_codes (map fold s) (98 ∷ 101 ∷ 97 ∷ 114 ∷ 101 ∷ 114 ∷ [])

abbrev with_scheme : Option (Text × Text) → Option Text
with_scheme none = none
with_scheme (some (scheme, rest)) = if is_bearer scheme then some rest else none

-- The token of an `Authorization` header; none where the header has another form.
unfoldable pub bearer_token : Text → Option Text
unfolding split_n is_bearer
bearer_token header = with_scheme (split_n header)

module _ (r : Redis) where
  open r use {Store}

  abbrev pub revoked : ℕ → ℕ → Bool → Option Text → Option Store → Reply × Option Store
  revoked ttl now fault none store = (api_error 400 "invalid_token", store)
  revoked ttl now fault (some t) none = (done, none)
  revoked ttl now fault (some t) (some s) =
      if fault then (internal, some s) else (done, revoke_token r t ttl now (some s))

  -- `Logout`; `fault` says whether Redis fails.
  unfoldable pub logout : AuthHandler → Text → ℕ → Bool → Option Store → Reply × Option Store
  unfolding bearer_token revoke_token
  logout h header now fault store = revoked h.access_ttl now fault (bearer_token header) store
