-- ===== src/Errors.antt =====
-- Go's error values as the server uses them: sentinels, errors made from a text, and `%w` wrapping,
-- with `errors.Is` and `Error()`. (server/internal/service/{device,user,conversation}.go, database/sql)
use taffy_assistant.Base.{String, ◌≡◌, refl, Bool, true, false, ◌⧺◌}

pub data Error : Type 0 where
  -- sql.ErrNoRows
  no_rows : Error
  -- An error of the database driver, of bcrypt or of another library, with its text.
  driver : String → Error
  -- `errors.New`, or `fmt.Errorf` without `%w`.
  plain : String → Error
  device_not_found not_device_owner invalid_device_token invalid_bind_code : Error
  duplicate_phone duplicate_email user_not_found invalid_password weak_password : Error
  conversation_disabled : Error
  -- `fmt.Errorf("<text>: %w", err)`.
  wrap : String → Error → Error

-- `err.Error()`.
unfoldable pub text_of : Error → String
text_of no_rows = "sql: no rows in result set"
text_of (driver t) = t
text_of (plain t) = t
text_of device_not_found = "device not found"
text_of not_device_owner = "not device owner"
text_of invalid_device_token = "invalid device token"
text_of invalid_bind_code = "invalid bind code or device already bound"
text_of duplicate_phone = "phone already registered"
text_of duplicate_email = "email already registered"
text_of user_not_found = "user not found"
text_of invalid_password = "invalid password"
text_of weak_password = "password too short"
text_of conversation_disabled = "conversation persistence disabled"
text_of (wrap t e) = t ⧺ ": " ⧺ text_of e

-- The error that a chain of wrappings ends in. A sentinel wraps nothing.
unfoldable pub root : Error → Error
root no_rows = no_rows
root (driver t) = driver t
root (plain t) = plain t
root device_not_found = device_not_found
root not_device_owner = not_device_owner
root invalid_device_token = invalid_device_token
root invalid_bind_code = invalid_bind_code
root duplicate_phone = duplicate_phone
root duplicate_email = duplicate_email
root user_not_found = user_not_found
root invalid_password = invalid_password
root weak_password = weak_password
root conversation_disabled = conversation_disabled
root (wrap t e) = root e

-- `errors.Is(err, sql.ErrNoRows)`.
unfoldable pub is_no_rows : Error → Bool
unfolding root
is_no_rows e = elim (root e) [ no_rows ↦ true | _ ↦ false ]

pub is_no_rows-wrap : (t : String) (e : Error) → is_no_rows (wrap t e) ≡ is_no_rows e
unfolding is_no_rows
is_no_rows-wrap t e = refl
