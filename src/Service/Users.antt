-- ===== src/Service/Users.antt =====
-- server/internal/service/user.go
pub mod Accounts
use Prim.Native.String
use Prim.Native.String.{len, slice}
use taffy_assistant.Base.{
  ℕ, ◌-◌, String, Bool, true, false, Option, none, some, ◌==◌, ◌||◌, ◌⧺◌, ltb, ◌≡◌, if◌then◌else◌,
}
use taffy_assistant.Errors.{
  Error, plain, wrap, driver, is_no_rows, duplicate_phone, duplicate_email, user_not_found,
  invalid_password, weak_password,
}
use taffy_assistant.Model.{User}
use taffy_assistant.Store.{Collation, M, Result, ok, err, pure, fail, ◌>>=◌, ◌>>◌, wrapping, try}
use taffy_assistant.Service.Devices.{missing_or}
use taffy_assistant.Repo.Users

-- golang.org/x/crypto/bcrypt: a hash of a password under a salt, refused for a password that is too
-- long, and the comparison of a hash with a password, which knows the password that was hashed.
pub record Bcrypt : Type 0 where
  pub generate_from_password : String → String → Option String
  pub compare_hash_and_password : String → String → Bool
  pub compare_generated :
      (salt password hash : String)
      → generate_from_password salt password ≡ some hash
      → compare_hash_and_password hash password ≡ true

-- A slice expression out of range is a run-time panic.
pub data Outcome (A : Type 0) : Type 0 where
  returned : A → Outcome A
  panicked : Outcome A

-- `"用户" + phone[len(phone)-4:]`.
unfoldable pub default_nickname : String → Outcome String
default_nickname phone =
    if ltb (len phone) 4
    then panicked
    else returned ("用户" ⧺ slice phone (len phone - 4) (len phone))

-- The nickname that is stored.
unfoldable pub nickname_of : String → String → Outcome String
unfolding default_nickname
nickname_of nickname phone = if nickname == "" then default_nickname phone else returned nickname

module _ ⦃c : Collation⦄ where
  -- The check of `phone` or `email`: a row that is found is a duplicate.
  abbrev pub taken : Error → String → Result User → M (Unit {0})
  taken duplicate prefix (ok u) = fail duplicate
  taken duplicate prefix (err e) = if is_no_rows e then pure tt else fail (wrap prefix e)

  unfoldable pub check_phone : String → M (Unit {0})
  unfolding is_no_rows
  check_phone phone =
      if phone == ""
      then pure tt
      else try (Users.get_by_phone phone) >>= taken duplicate_phone "check phone"

  unfoldable pub check_email : String → M (Unit {0})
  unfolding is_no_rows
  check_email email =
      if email == ""
      then pure tt
      else try (Users.get_by_email email) >>= taken duplicate_email "check email"

module _ ⦃c : Collation⦄ ⦃b : Bcrypt⦄ where
  abbrev pub hashed : Option String → M String
  hashed none = fail (wrap "hash password" (driver "bcrypt: password length exceeds 72 bytes"))
  hashed (some h) = pure h

  abbrev pub stored : String → String → String → Outcome String → M (Outcome ℕ)
  stored phone email hash panicked = pure panicked
  stored phone email hash (returned nickname) =
      Users.create (record {
        user_id = 0;
        phone = phone;
        email = email;
        password_hash = hash;
        nickname = nickname;
        avatar_url = "";
      })
      >>= λ id. pure (returned id)

  -- `Register`; the salt is what bcrypt draws.
  unfoldable pub register : String → String → String → String → String → M (Outcome ℕ)
  unfolding check_phone check_email nickname_of
  register salt phone email password nickname = do
    check_phone phone
    check_email email
    hash ← hashed (b.generate_from_password salt password)
    stored phone email hash (nickname_of nickname phone)

  abbrev pub compared : String → User → M User
  compared password u =
      if b.compare_hash_and_password u.password_hash password then pure u else fail invalid_password

  -- `Login`.
  unfoldable pub login : String → String → M User
  unfolding is_no_rows
  login phone password = do
    u ← wrapping (missing_or user_not_found "get user") (Users.get_by_phone phone)
    compared password u

  -- `ChangePassword`.
  unfoldable pub change_password : String → ℕ → String → String → M (Unit {0})
  change_password salt id old new = if ltb (len new) 6 then fail weak_password else (do
    u ← wrapping (wrap "get user") (Users.get_by_id id)
    compared old u
    hash ← hashed (b.generate_from_password salt new)
    Users.update_password id hash)

  -- `VerifyPassword`.
  unfoldable pub verify_password : ℕ → String → M User
  verify_password id password = do
    u ← wrapping (λ _. user_not_found) (Users.get_by_id id)
    compared password u

module _ ⦃c : Collation⦄ where
  -- `UpdateUser`.
  unfoldable pub update_user : ℕ → String → String → String → M (Unit {0})
  update_user id nickname email avatar_url =
      if nickname == ""
      then fail (plain "nickname is required")
      else Users.update id nickname email avatar_url

-- `DeleteUser`.
unfoldable pub delete_user : ℕ → M (Unit {0})
delete_user id = Users.delete id

-- `GetUser`.
unfoldable pub get_user : ℕ → M User
unfolding is_no_rows
get_user id = wrapping (missing_or user_not_found "get user") (Users.get_by_id id)
