-- ===== src/Repo/Users.antt =====
-- server/internal/repository/user.go
use taffy_assistant.Base.{
  ℕ, suc, String, Bool, true, false, ◌&&◌, Option, none, some, List, [], ◌∷◌, ◌++◌, eqb,
  if◌then◌else◌, select_one, update_rows, delete_rows, exists_row,
}
use taffy_assistant.Errors.{no_rows, driver, wrap}
use taffy_assistant.Model.{User, Device, Conversation, Message, Command, Scene}
use taffy_assistant.Store.{Collation, Db, M, Result, ok, err, wrapping, statement}
use taffy_assistant.Repo.Devices.{is_owner}

one : Option User → Db → Result User × Db
one none db = (err no_rows, db)
one (some u) db = (ok u, db)

abbrev pub is_user : ℕ → User → Bool
is_user id u = eqb u.user_id id

module _ ⦃c : Collation⦄ where
  abbrev pub has_phone : String → User → Bool
  has_phone phone u = c.same u.phone phone

  abbrev pub has_email : String → User → Bool
  has_email email u = c.same u.email email

  -- INSERT INTO users, whose columns `phone` and `email` are UNIQUE.
  unfoldable pub insert_user : User → Db → Result ℕ × Db
  insert_user u db =
      if exists_row (has_phone u.phone) db.users
      then (err (driver "Error 1062: Duplicate entry for key 'users.phone'"), db)
      else if exists_row (has_email u.email) db.users
      then (err (driver "Error 1062: Duplicate entry for key 'users.email'"), db)
      else (
        ok db.next_user,
        record db {
          users = db.users ++ record u { user_id = db.next_user } ∷ [];
          next_user = suc db.next_user;
        },
      )

  -- `Create`.
  unfoldable pub create : User → M ℕ
  unfolding insert_user statement
  create u = wrapping (wrap "insert user") (statement (insert_user u))

  -- `GetByPhone`.
  unfoldable pub get_by_phone : String → M User
  unfolding one statement
  get_by_phone phone =
      wrapping (wrap "get user by phone")
        (statement (λ db. one (select_one (has_phone phone) db.users) db))

  -- `GetByEmail`.
  unfoldable pub get_by_email : String → M User
  unfolding one statement
  get_by_email email =
      wrapping (wrap "get user by email")
        (statement (λ db. one (select_one (has_email email) db.users) db))

  -- An email of another user is refused by the UNIQUE key.
  unfoldable pub update_user : ℕ → String → String → String → Db → Result (Unit {0}) × Db
  update_user id nickname email avatar_url db =
      if exists_row (λ u. has_email email u && (if is_user id u then false else true)) db.users
        && exists_row (is_user id) db.users
      then (err (driver "Error 1062: Duplicate entry for key 'users.email'"), db)
      else (
        ok tt,
        record db {
          users =
              update_rows (is_user id)
                (λ u. record u { nickname = nickname; email = email; avatar_url = avatar_url })
                db.users;
        },
      )

  -- `Update`.
  unfoldable pub update : ℕ → String → String → String → M (Unit {0})
  unfolding update_user statement
  update id nickname email avatar_url =
      wrapping (wrap "update user") (statement (update_user id nickname email avatar_url))

-- `GetByID`.
unfoldable pub get_by_id : ℕ → M User
unfolding one statement
get_by_id id =
    wrapping (wrap "get user by id") (statement (λ db. one (select_one (is_user id) db.users) db))

-- `UpdatePassword`.
unfoldable pub update_password : ℕ → String → M (Unit {0})
unfolding statement
update_password id hash = wrapping (wrap "update password") (
    statement (λ db. (
      ok tt,
      record db {
        users = update_rows (is_user id) (λ u. record u { password_hash = hash }) db.users;
      },
    )))

-- The owner after ON DELETE SET NULL.
abbrev pub disowned : ℕ → Device → Device
disowned id d = if is_owner d.owner_id id then record d { owner_id = none } else d

abbrev pub of_conversations : List Conversation → Message → Bool
of_conversations vs m =
    exists_row (λ (v : Conversation). eqb m.conversation_id v.conversation_id) vs

abbrev pub of_messages : List Message → Command → Bool
of_messages ms x = exists_row (λ (m : Message). eqb x.message_id m.message_id) ms

-- DELETE FROM users, with what the foreign keys do: the user's devices lose their owner, and the
-- user's conversations, their messages and commands, and the user's scenes go.
abbrev pub without_user : ℕ → Db → Db
without_user id db =
    let conversations : List Conversation =
      delete_rows (λ (v : Conversation). eqb v.user_id id) db.conversations in
    let messages : List Message =
      delete_rows (λ m. if of_conversations conversations m then false else true) db.messages in
    record db {
      users = delete_rows (is_user id) db.users;
      devices = update_rows (λ _. true) (disowned id) db.devices;
      conversations = conversations;
      messages = messages;
      commands = delete_rows (λ x. if of_messages messages x then false else true) db.commands;
      scenes = delete_rows (λ (s : Scene). eqb s.user_id id) db.scenes;
    }

-- `Delete`.
unfoldable pub delete : ℕ → M (Unit {0})
unfolding statement
delete id = wrapping (wrap "delete user") (statement (λ db. (ok tt, without_user id db)))
