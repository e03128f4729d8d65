-- ===== src/Service/Scenes/Guard.antt =====
-- Who may change a scene: `UpdateScene` and `DeleteScene`.
use taffy_assistant.Base.{
  ℕ, String, false, none, some, [], ◌≡◌, arith, eqb, select_one, delete_rows, if◌then◌else◌,
}
use taffy_assistant.Json.{Raw}
use taffy_assistant.Errors.{plain, wrap, no_rows}
use taffy_assistant.Model.{Scene}
use taffy_assistant.Store.{World, ok, err, is_ok}
use taffy_assistant.Repo.Scenes.{is_scene, get_by_id}
use taffy_assistant.Repo.Scenes
use taffy_assistant.Service.Scenes.{update_scene, delete_scene}

-- Whatever fails, an update of a scene by another user than its own is refused and changes nothing.
pub update_scene-guard :
    (id user : ℕ) (name : String) (commands : Raw) (w : World) (s : Scene)
    → select_one (is_scene id) w.scenes ≡ some s
    → eqb s.user_id user ≡ false
    → (is_ok (update_scene user id name commands w).0 ≡ false)
      × ((update_scene user id name commands w).1.db ≡ w.db)
unfolding update_scene get_by_id Scenes.update
update_scene-guard id user name commands w s found other = ground arith

-- While the database answers, a deletion removes the scene exactly if it is the caller's; otherwise
-- it changes nothing and says whether there is no such scene or it is another's.
pub delete_scene-answer :
    (id user : ℕ) (w : World)
    → w.faults ≡ []
    → delete_scene user id w ≡ (elim (select_one (is_scene id) w.scenes) [
      | none ↦ (err (wrap "get scene" no_rows), w)
      | some s ↦
          if eqb s.user_id user
          then (
            ok tt,
            record w { db = record w.db { scenes = delete_rows (is_scene id) w.scenes } },
          )
          else (err (plain "无权删除该场景"), w)
    ])
unfolding delete_scene get_by_id Scenes.delete
delete_scene-answer id user w calm = ground arith
