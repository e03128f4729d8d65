-- ===== src/Service/Scenes.antt =====
-- server/internal/service/scene.go, and `ExecuteActivateScene` of voice_command.go
pub mod Guard
pub mod Trigger
use taffy_assistant.Base.{
  ℕ, zero, suc, ◌+◌, String, Bool, true, false, Option, none, some, ℤ, pos, negsuc, itoa_nat, List,
  [], ◌∷◌, ◌++◌, ◌==◌, ◌⧺◌, eqb, ltb, length, if◌then◌else◌,
}
use taffy_assistant.Errors.{Error, plain, wrap, text_of}
use taffy_assistant.Json.{Raw, Json, doc, malformed, empty, null, arr, raw_items, mismatch}
use taffy_assistant.Model.{Scene}
use taffy_assistant.Protocol.{unmarshal_scene}
use taffy_assistant.Store.{Collation, M, Result, ok, err, pure, fail, ◌>>=◌, ◌>>◌, wrapping, try}
use taffy_assistant.Repo.Scenes
use taffy_assistant.Service.Devices.{DeviceService}
use taffy_assistant.Service.Control.{CommandReply, refused, done, execute_control_device}

-- `CreateScene`.
unfoldable pub create_scene : ℕ → String → Raw → M Scene
create_scene user name command_list = if name == "" then fail (plain "场景名称不能为空") else (do
  let scene : Scene = record {
    scene_id = 0;
    user_id = user;
    name = name;
    command_list = command_list;
  }
  id ← Scenes.create scene
  pure (record scene { scene_id = id }))

-- `GetScene`.
unfoldable pub get_scene : ℕ → M Scene
get_scene id = Scenes.get_by_id id

-- `ListScenes`.
unfoldable pub list_scenes : ℕ → M (List Scene)
list_scenes user = Scenes.list_by_user user

-- `UpdateScene`.
unfoldable pub update_scene : ℕ → ℕ → String → Raw → M (Unit {0})
unfolding get_scene
update_scene user id name command_list = if name == "" then fail (plain "场景名称不能为空") else (do
  scene ← get_scene id
  if eqb scene.user_id user
      then Scenes.update (record scene { name = name; command_list = command_list })
      else fail (plain "无权修改该场景"))

-- `DeleteScene`.
unfoldable pub delete_scene : ℕ → ℕ → M (Unit {0})
unfolding get_scene
delete_scene user id = do
  scene ← get_scene id
  if eqb scene.user_id user then Scenes.delete id else fail (plain "无权删除该场景")

-- `json.Unmarshal` into a `[]json.RawMessage`: `null` leaves it nil.
unfoldable pub unmarshal_commands : Raw → Result (List Raw)
unfolding mismatch
unmarshal_commands empty = err (wrap "解析场景指令失败" (plain "unexpected end of JSON input"))
unmarshal_commands (malformed t) = err (wrap "解析场景指令失败" (plain t))
unmarshal_commands (doc (arr xs)) = ok (raw_items xs)
unmarshal_commands (doc null) = ok []
unmarshal_commands (doc v) = err (wrap "解析场景指令失败" (plain (mismatch v "value" "[]json.RawMessage")))

-- The loop of `Trigger`: a command that fails does not stop the next.
unfoldable pub run_all : (Raw → M CommandReply) → List Raw → M (List CommandReply)
run_all exec [] = pure []
run_all exec (cmd ∷ rest) = do
  result ← exec cmd
  results ← run_all exec rest
  pure (result ∷ results)

abbrev pub lift : {A : Type 0} → Result A → M A
lift r w = (r, w)

-- `Trigger`.
unfoldable pub trigger : ℕ → (Raw → M CommandReply) → M (List CommandReply)
unfolding get_scene
trigger id exec = do
  scene ← get_scene id
  commands ← lift (unmarshal_commands scene.command_list)
  run_all exec commands

-- `failCount`.
unfoldable pub fail_count : List CommandReply → ℕ
fail_count [] = 0
fail_count (r ∷ rs) = (if r.success then 0 else 1) + fail_count rs

abbrev pub summary : List CommandReply → CommandReply
summary rs =
    if ltb 0 (fail_count rs)
    then done ("场景执行完成，" ⧺ itoa_nat (fail_count rs) ⧺ "/" ⧺ itoa_nat (length rs) ⧺ " 条指令失败")
    else done ("场景执行完成，全部 " ⧺ itoa_nat (length rs) ⧺ " 条指令成功")

-- A scene id above 0.
abbrev pub positive : ℤ → Option ℕ
positive (pos zero) = none
positive (pos (suc n)) = some (suc n)
positive (negsuc n) = none

module _ ⦃c : Collation⦄ where
  abbrev pub summarised : Result (List CommandReply) → M CommandReply
  summarised (err e) = pure (refused ("场景执行失败: " ⧺ text_of e))
  summarised (ok results) = pure (summary results)

  abbrev pub activate : DeviceService → Option String → Option ℕ → M CommandReply
  activate s (some t) _ = pure (refused "缺少有效的 scene_id 参数")
  activate s none none = pure (refused "缺少有效的 scene_id 参数")
  activate s none (some id) = try (trigger id (execute_control_device s)) >>= summarised

  -- `ExecuteActivateScene`.
  unfoldable pub execute_activate_scene : DeviceService → Raw → M CommandReply
  unfolding trigger run_all fail_count
  execute_activate_scene s raw =
      if s.scene_svc
      then (let (id, e) = unmarshal_scene raw in activate s e (positive id))
      else pure (refused "场景功能未启用")
