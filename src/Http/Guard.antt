-- ===== src/Http/Guard.antt =====
-- Who is let in: `RequireAuth` of server/internal/middleware/jwt.go, `ServeHTTP` of
-- server/internal/handler/realtime.go, and `postOnly` of server/cmd/server/main.go.
use taffy_assistant.Base.{ℕ, String, Bool, Option, none, some, [], ◌∷◌, ◌==◌, if◌then◌else◌}
use taffy_assistant.Store.{M, pure}
use taffy_assistant.Jwt.{Text, Claims, JwtLibrary, Redis, parse_token}
use taffy_assistant.Hub.{Hub}
use taffy_assistant.Hub
use taffy_assistant.Http.Reply.{Reply, api_error}
use taffy_assistant.Http.Accounts.{bearer_token}

-- `methodOnly`.
unfoldable pub method_only : String → String → M Reply → M Reply
method_only method requested h =
    if requested == method then h else pure (api_error 405 "method not allowed")

-- `postOnly`.
abbrev pub post_only : String → M Reply → M Reply
post_only = method_only "POST"

module _ ⦃j : JwtLibrary⦄ (r : Redis) where
  open r use {Store}

  module _ {A : Type 0} (refuse : Reply → M A) (next : Option ℕ → M A) where
    abbrev pub with_claims : Option Claims → M A
    with_claims none = refuse (api_error 401 "invalid or expired token")
    with_claims (some claims) = next (some claims.user_id)

    abbrev pub with_token : Text → Option Store → Option Text → M A
    with_token secret store none w = refuse (api_error 401 "invalid authorization format") w
    with_token secret store (some t) w = with_claims (parse_token r secret t w.now store) w

    -- `RequireAuth`, on the content of the `Authorization` header, which is empty if there is none.
    -- `refuse` is what is made of the reply of http.Error.
    unfoldable pub require_auth : Text → Option Store → Text → M A
    unfolding bearer_token parse_token
    require_auth secret store [] = refuse (api_error 401 "missing authorization header")
    require_auth secret store (x ∷ xs) = with_token secret store (bearer_token (x ∷ xs))

  abbrev joined {ℓ} : {E : Type ℓ} → Bool → Option Claims → Hub E → Option Reply × Hub E
  joined upgraded none h = (some (api_error 401 "invalid or expired token"), h)
  joined upgraded (some claims) h = (none, if upgraded then Hub.register claims.user_id h else h)

  -- `ServeHTTP` up to the loops of the new client: the reply of http.Error, if there is one, and the
  -- hub. `upgraded` says whether the connection becomes a WebSocket.
  unfoldable pub serve_realtime {ℓ} :
      {E : Type ℓ} → Text → Option Store → ℕ → Bool → Text → Hub E → Option Reply × Hub E
  unfolding parse_token Hub.register
  serve_realtime secret store now upgraded [] h = (some (api_error 401 "missing token"), h)
  serve_realtime secret store now upgraded (x ∷ xs) h =
      joined upgraded (parse_token r secret (x ∷ xs) now store) h
