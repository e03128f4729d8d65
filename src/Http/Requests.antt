-- ===== src/Http/Requests.antt =====
-- The bodies of the requests on accounts: server/internal/handler/{auth,user}.go
use taffy_assistant.Base.{String, Option, if◌then◌else◌}
use taffy_assistant.Json.{Json, Raw, names, into_string, unmarshal}

-- `RegisterRequest`.
pub record RegisterRequest : Type 0 where
  pub phone : String
  pub email : String
  pub password : String
  pub nickname : String

register_field : String → Json → RegisterRequest → Option String → RegisterRequest × Option String
register_field key v r e =
    if names key "phone"
    then (let (x, e') = into_string "struct field RegisterRequest.phone" v r.phone e in
        (record r { phone = x }, e'))
    else if names key "email"
    then (let (x, e') = into_string "struct field RegisterRequest.email" v r.email e in
        (record r { email = x }, e'))
    else if names key "password"
    then (let (x, e') = into_string "struct field RegisterRequest.password" v r.password e in
        (record r { password = x }, e'))
    else if names key "nickname"
    then (let (x, e') = into_string "struct field RegisterRequest.nickname" v r.nickname e in
        (record r { nickname = x }, e'))
    else (r, e)

unfoldable pub decode_register : Raw → RegisterRequest × Option String
unfolding unmarshal register_field names into_string
decode_register =
    unmarshal "handler.RegisterRequest" register_field
      (record { phone = ""; email = ""; password = ""; nickname = "" })

-- `LoginRequest`.
pub record LoginRequest : Type 0 where
  pub phone : String
  pub password : String

login_field : String → Json → LoginRequest → Option String → LoginRequest × Option String
login_field key v r e =
    if names key "phone"
    then (let (x, e') = into_string "struct field LoginRequest.phone" v r.phone e in
        (record r { phone = x }, e'))
    else if names key "password"
    then (let (x, e') = into_string "struct field LoginRequest.password" v r.password e in
        (record r { password = x }, e'))
    else (r, e)

unfoldable pub decode_login : Raw → LoginRequest × Option String
unfolding unmarshal login_field names into_string
decode_login = unmarshal "handler.LoginRequest" login_field (record { phone = ""; password = "" })

-- `updateUserReq`.
pub record UpdateUserRequest : Type 0 where
  pub nickname : String
  pub email : String
  pub avatar_url : String

update_field : String → Json → UpdateUserRequest → Option String → UpdateUserRequest × Option String
update_field key v r e =
    if names key "nickname"
    then (let (x, e') = into_string "struct field updateUserReq.nickname" v r.nickname e in
        (record r { nickname = x }, e'))
    else if names key "email"
    then (let (x, e') = into_string "struct field updateUserReq.email" v r.email e in
        (record r { email = x }, e'))
    else if names key "avatar_url"
    then (let (x, e') = into_string "struct field updateUserReq.avatar_url" v r.avatar_url e in
        (record r { avatar_url = x }, e'))
    else (r, e)

unfoldable pub decode_profile : Raw → UpdateUserRequest × Option String
unfolding unmarshal update_field names into_string
decode_profile =
    unmarshal "handler.updateUserReq" update_field
      (record { nickname = ""; email = ""; avatar_url = "" })

-- `changePasswordReq`.
pub record ChangePasswordRequest : Type 0 where
  pub old_password : String
  pub new_password : String

password_field :
    String → Json → ChangePasswordRequest → Option String → ChangePasswordRequest × Option String
password_field key v r e =
    if names key "old_password"
    then (let (x, e') =
          into_string "struct field changePasswordReq.old_password" v r.old_password e in
        (record r { old_password = x }, e'))
    else if names key "new_password"
    then (let (x, e') =
          into_string "struct field changePasswordReq.new_password" v r.new_password e in
        (record r { new_password = x }, e'))
    else (r, e)

unfoldable pub decode_passwords : Raw → ChangePasswordRequest × Option String
unfolding unmarshal password_field names into_string
decode_passwords =
    unmarshal "handler.changePasswordReq" password_field
      (record { old_password = ""; new_password = "" })

-- `deleteProfileReq`, whose one field is the password.
delete_field : String → Json → String → Option String → String × Option String
delete_field key v password e =
    if names key "password"
    then into_string "struct field deleteProfileReq.password" v password e
    else (password, e)

unfoldable pub decode_delete : Raw → String × Option String
unfolding unmarshal delete_field names into_string
decode_delete = unmarshal "handler.deleteProfileReq" delete_field ""
