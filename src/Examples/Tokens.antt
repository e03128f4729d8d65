-- ===== src/Examples/Tokens.antt =====
-- The theorems on tokens, accounts and voice sessions, at concrete ones.
use taffy_assistant.Base.{
  ℕ, ◌+◌, ◌<◌, String, Bool, true, false, ◌&&◌, Option, none, some, List, [], ◌∷◌, ◌++◌, ◌≡◌, ◌≢◌,
  refl, eqb, eqb_refl, eqb_iff, ltb, arith, if◌then◌else◌, select_one,
}
use taffy_assistant.Json.{str, obj, end, field, Raw, doc}
use taffy_assistant.Model.{User}
use taffy_assistant.Store.{World, M, ok, is_ok, pure}
use taffy_assistant.Jwt.{
  Text, Claims, JwtLibrary, Redis, generate_access_token, revoke_token, parse_token,
}
use taffy_assistant.Jwt.Revocation.{parse_token-revoke_token}
use taffy_assistant.Service.Users.{delete_user}
use taffy_assistant.Service.Devices.{bind_device}
use taffy_assistant.Service.Devices.Orphans.{delete_user-orphans}
use taffy_assistant.Repo.Wf.{IsWf}
use taffy_assistant.Repo.Devices.{has_id}
use taffy_assistant.Http.Reply.{Reply, api_error, done}
use taffy_assistant.Http.Accounts.{AuthHandler, register, login, logout}
use taffy_assistant.Http.Accounts.Tokens.{require_auth-register, require_auth-logout}
use taffy_assistant.Http.Accounts.Login.{login-answer}
use taffy_assistant.Http.Guard.{require_auth}
use taffy_assistant.Examples.{binary, plain_hash, household, lamp}

unfoldable pub equal_text : Text → Text → Bool
equal_text [] [] = true
equal_text (a ∷ as') (b ∷ bs) = eqb a b && equal_text as' bs
equal_text _ _ = false

pub equal_text_refl : (t : Text) → equal_text t t ≡ true
unfolding equal_text
equal_text_refl [] = refl
equal_text_refl (a ∷ t) = ground (arith, eqb_refl a, equal_text_refl t)

pub equal_text_sound : (s t : Text) → equal_text s t ≡ true → s ≡ t
unfolding equal_text
equal_text_sound [] [] h = refl
equal_text_sound [] (b ∷ t) h = cc
equal_text_sound (a ∷ s) [] h = cc
equal_text_sound (a ∷ s) (b ∷ t) h = ground (arith, eqb_iff a b, equal_text_sound s t)

-- A token that names its user, its end and the secret.
unfoldable pub read_token : Text → Text → ℕ → Option Claims
read_token secret (user ∷ until ∷ rest) now =
    if equal_text rest secret
    then (if ltb now until then some (record { user_id = user; expires_at = until }) else none)
    else none
read_token secret _ now = none

pub read_written :
    (secret : Text) (c : Claims) (now : ℕ)
    → read_token secret (c.user_id ∷ c.expires_at ∷ secret) now
      ≡ (if ltb now c.expires_at then some c else none)
unfolding read_token
read_written secret c now = ground (arith, equal_text_refl secret)

instance abbrev pub plain_tokens : JwtLibrary
plain_tokens = record {
  signed_string = λ secret c. c.user_id ∷ c.expires_at ∷ secret;
  parse_with_claims = read_token;
  verified = read_written;
}

-- Redis as the list of its keys with their ends.
unfoldable pub holds : Text → ℕ → List (Text × ℕ) → Bool
holds key now [] = false
holds key now ((k, until) ∷ rest) = if equal_text k key then ltb now until else holds key now rest

pub holds_new :
    (k : Text) (ttl now t : ℕ) (s : List (Text × ℕ))
    → t < now + ttl
    → holds k t ((k, now + ttl) ∷ s) ≡ true
unfolding holds
holds_new k ttl now t s h = ground (arith, equal_text_refl k)

pub holds_other :
    (k j : Text) (ttl now t : ℕ) (s : List (Text × ℕ))
    → j ≢ k
    → holds k t ((j, now + ttl) ∷ s) ≡ holds k t s
unfolding holds
holds_other k j ttl now t s h = ground (arith, equal_text_sound j k)

abbrev pub memory : Redis
memory = record {
  Store = List (Text × ℕ);
  set = λ key ttl now s. (key, now + ttl) ∷ s;
  exists = holds;
  kept = holds_new;
  others = holds_other;
}

abbrev token : Text
token = generate_access_token (7 ∷ []) 10 1 60

parse_token-revoke_token_example :
    parse_token memory (7 ∷ []) token 30 (revoke_token memory token 60 20 (some [])) ≡ none
parse_token-revoke_token_example =
    parse_token-revoke_token memory (7 ∷ []) 10 1 60 20 30 [] (omega arith)

-- "Bearer", and the same in capitals.
abbrev pub bearer : Text
bearer = 66 ∷ 101 ∷ 97 ∷ 114 ∷ 101 ∷ 114 ∷ []

abbrev capitals : Text
capitals = 66 ∷ 69 ∷ 65 ∷ 82 ∷ 69 ∷ 82 ∷ []

abbrev pub accounts : AuthHandler
accounts = record { secret = 7 ∷ []; access_ttl = 60 }

-- A handler that says who it is called by.
abbrev shown : Option ℕ → M (Option ℕ)
shown user = pure user

abbrev turned_away : Reply → M (Option ℕ)
turned_away r = pure none

require_auth-logout_example :
    (logout memory accounts (bearer ++ 32 ∷ token) 20 false (some [])).0 ≡ done
    × (require_auth memory turned_away shown
          (7 ∷ [])
          (logout memory accounts (bearer ++ 32 ∷ token) 20 false (some [])).1
          (capitals ++ 32 ∷ token)
          household
        ≡ turned_away (api_error 401 "invalid or expired token") household)
unfolding taffy_assistant.Http.Accounts.is_bearer
require_auth-logout_example =
    require_auth-logout accounts memory turned_away shown bearer capitals 10 1 20 [] household refl
      refl (omega arith)

abbrev sign_up_body : Raw
sign_up_body = doc (obj (field "phone" (str "13900000002") (field "password" (str "secret") end)))

abbrev joined : World
joined = (register accounts "s" sign_up_body household).1

require_auth-register_example :
    (u : User) × (joined.users ≡ household.users ++ u ∷ [])
    × (require_auth memory turned_away shown
          (7 ∷ [])
          (some [])
          (bearer ++ 32 ∷ 2 ∷ 160 ∷ 7 ∷ [])
          household
        ≡ shown (some u.user_id) household)
unfolding register taffy_assistant.Http.Requests.decode_register
    taffy_assistant.Service.Users.register taffy_assistant.Repo.Users.get_by_phone select_one
    taffy_assistant.Repo.Users.create taffy_assistant.Base.exists_row read_token
    taffy_assistant.Http.Accounts.is_bearer taffy_assistant.Jwt.is_revoked holds
require_auth-register_example =
    require_auth-register accounts memory turned_away shown "s" sign_up_body (2 ∷ 160 ∷ 7 ∷ [])
      bearer 201 60 household joined household (some []) refl refl refl refl

abbrev wrong_login : Raw
wrong_login = doc (obj (field "phone" (str "13800000001") (field "password" (str "guess") end)))

login-answer_example :
    login accounts wrong_login household
    ≡ (ok (api_error 401 "invalid_phone_or_password"), household)
unfolding taffy_assistant.Http.Requests.decode_login select_one
login-answer_example = login-answer accounts wrong_login household refl refl refl

pub household-IsWf : IsWf household.db
unfolding taffy_assistant.Base.exists_row
household-IsWf = record {
  user_ids = (refl, tt);
  below_next = (refl, tt);
  device_ids = (refl, (refl, tt));
  owners = (refl, (refl, tt));
  codes = (refl, (refl, tt));
  state_ids = (refl, tt);
  state_devices = (refl, tt);
  scene_users = (refl, tt);
  talkers = tt;
  talk_devices = tt;
  message_talks = tt;
  command_messages = tt;
  command_devices = tt;
}

abbrev deserted : World
deserted = (delete_user 1 household).1

delete_user-orphans_example :
    (select_one (has_id "lamp") deserted.devices ≡ some (record lamp { owner_id = none }))
    × (is_ok (bind_device 5 "lamp" "1234" "lamp" "" deserted).0 ≡ false)
unfolding select_one delete_user taffy_assistant.Repo.Users.delete
delete_user-orphans_example =
    delete_user-orphans 1 5 "lamp" "1234" "lamp" "" household deserted lamp household-IsWf refl refl
      refl refl
