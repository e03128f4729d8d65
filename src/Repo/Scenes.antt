-- ===== src/Repo/Scenes.antt =====
-- `SceneRepo` of server/internal/repository/conversation.go
use taffy_assistant.Base.{
  ℕ, suc, Bool, true, false, Option, none, some, List, [], ◌∷◌, ◌++◌, eqb, if◌then◌else◌, select,
  select_one, update_rows, delete_rows, exists_row,
}
use taffy_assistant.Errors.{no_rows, driver, wrap}
use taffy_assistant.Json.{Raw, doc}
use taffy_assistant.Model.{Scene}
use taffy_assistant.Store.{Db, M, Result, ok, err, wrapping, statement}
use taffy_assistant.Repo.Users.{is_user}

abbrev pub is_scene : ℕ → Scene → Bool
is_scene id s = eqb s.scene_id id

-- `command_list` is a JSON column that is NOT NULL.
abbrev pub is_document : Raw → Bool
is_document (doc v) = true
is_document _ = false

unfoldable pub insert_scene : Scene → Db → Result ℕ × Db
insert_scene s db =
    if is_document s.command_list
    then (if exists_row (is_user s.user_id) db.users
        then (
          ok db.next_scene,
          record db {
            scenes = db.scenes ++ record s { scene_id = db.next_scene } ∷ [];
            next_scene = suc db.next_scene;
          },
        )
        else (err (driver "Error 1452: a foreign key constraint fails (scenes_ibfk_1)"), db))
    else (err (driver "Error 3140: Invalid JSON text in column 'command_list'"), db)

-- `Create`.
unfoldable pub create : Scene → M ℕ
unfolding insert_scene statement
create s = wrapping (wrap "insert scene") (statement (insert_scene s))

one : Option Scene → Db → Result Scene × Db
one none db = (err no_rows, db)
one (some s) db = (ok s, db)

-- `GetByID`.
unfoldable pub get_by_id : ℕ → M Scene
unfolding one statement
get_by_id id =
    wrapping (wrap "get scene") (statement (λ db. one (select_one (is_scene id) db.scenes) db))

-- `ListByUser`.
unfoldable pub list_by_user : ℕ → M (List Scene)
unfolding statement
list_by_user user =
    wrapping (wrap "list scenes")
      (statement (λ db. (ok (select (λ (s : Scene). eqb s.user_id user) db.scenes), db)))

unfoldable pub update_scene : Scene → Db → Result (Unit {0}) × Db
update_scene s db =
    if is_document s.command_list
    then (
      ok tt,
      record db {
        scenes =
            update_rows (is_scene s.scene_id)
              (λ old. record old { name = s.name; command_list = s.command_list }) db.scenes;
      },
    )
    else if exists_row (is_scene s.scene_id) db.scenes
    then (err (driver "Error 3140: Invalid JSON text in column 'command_list'"), db)
    else (ok tt, db)

-- `Update`.
unfoldable pub update : Scene → M (Unit {0})
unfolding update_scene statement
update s = wrapping (wrap "update scene") (statement (update_scene s))

-- `Delete`.
unfoldable pub delete : ℕ → M (Unit {0})
unfolding statement
delete id =
    wrapping (wrap "delete scene")
      (statement (λ db. (ok tt, record db { scenes = delete_rows (is_scene id) db.scenes })))
