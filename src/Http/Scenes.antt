-- ===== src/Http/Scenes.antt =====
-- server/internal/handler/scene.go. A path that is no positive int64 has no scene id.
use taffy_assistant.Base.{ℕ, Option, none, some, List, eqb, is_none, if◌then◌else◌}
use taffy_assistant.Json.{Raw}
use taffy_assistant.Model.{Scene}
use taffy_assistant.Store.{Collation, M, Result, ok, err, pure, ◌>>=◌, try}
use taffy_assistant.Service.Devices.{DeviceService}
use taffy_assistant.Service.Control.{CommandReply, execute_control_device}
use taffy_assistant.Service.Scenes
use taffy_assistant.Http.Reply.{
  Reply, api_error, done, scenes, scene, created, no_scene, results, unauthorized, internal,
  decode_create,
}

abbrev pub listed : Result (List Scene) → M Reply
listed (ok ss) = pure (scenes ss)
listed (err e) = pure internal

-- `ListScenes`.
unfoldable pub list_scenes : Option ℕ → M Reply
list_scenes none = pure unauthorized
list_scenes (some user) = try (Scenes.list_scenes user) >>= listed

abbrev pub made : Result Scene → M Reply
made (ok s) = pure (created s)
made (err e) = pure (api_error 400 "invalid_request")

-- `CreateScene`.
unfoldable pub create_scene : Option ℕ → Raw → M Reply
create_scene none body = pure unauthorized
create_scene (some user) body =
    let (r, e) = decode_create body in
    if is_none e
    then try (Scenes.create_scene user r.name r.command_list) >>= made
    else pure (api_error 400 "invalid_request_body")

abbrev bad_id : Reply
bad_id = api_error 400 "invalid_scene_id"

abbrev pub shown : ℕ → Result Scene → M Reply
shown user (err e) = pure (api_error 404 "scene_not_found")
shown user (ok s) = if eqb s.user_id user then pure (scene s) else pure (api_error 403 "not_owner")

-- `GetScene`.
unfoldable pub get_scene : Option ℕ → Option ℕ → M Reply
get_scene none id = pure unauthorized
get_scene (some user) none = pure bad_id
get_scene (some user) (some id) = try (Scenes.get_scene id) >>= shown user

abbrev pub read_again : Result Scene → M Reply
read_again (ok s) = pure (scene s)
read_again (err e) = pure no_scene

abbrev pub changed : ℕ → Result (Unit {0}) → M Reply
changed id (err e) = pure (api_error 400 "invalid_request")
changed id (ok _) = try (Scenes.get_scene id) >>= read_again

-- `UpdateScene`.
unfoldable pub update_scene : Option ℕ → Option ℕ → Raw → M Reply
update_scene none id body = pure unauthorized
update_scene (some user) none body = pure bad_id
update_scene (some user) (some id) body =
    let (r, e) = decode_create body in
    if is_none e
    then try (Scenes.update_scene user id r.name r.command_list) >>= changed id
    else pure (api_error 400 "invalid_request_body")

abbrev pub removed : Result (Unit {0}) → M Reply
removed (ok _) = pure done
removed (err e) = pure (api_error 400 "invalid_request")

-- `DeleteScene`.
unfoldable pub delete_scene : Option ℕ → Option ℕ → M Reply
delete_scene none id = pure unauthorized
delete_scene (some user) none = pure bad_id
delete_scene (some user) (some id) = try (Scenes.delete_scene user id) >>= removed

module _ ⦃c : Collation⦄ where
  abbrev pub triggered : Result (List CommandReply) → M Reply
  triggered (ok rs) = pure (results rs)
  triggered (err e) = pure (api_error 400 "trigger_failed")

  abbrev pub guarded : DeviceService → ℕ → ℕ → Result Scene → M Reply
  guarded s user id (err e) = pure (api_error 404 "scene_not_found")
  guarded s user id (ok x) =
      if eqb x.user_id user
      then try (Scenes.trigger id (execute_control_device s)) >>= triggered
      else pure (api_error 403 "not_owner")

  -- `TriggerScene`.
  unfoldable pub trigger_scene : DeviceService → Option ℕ → Option ℕ → M Reply
  trigger_scene s none id = pure unauthorized
  trigger_scene s (some user) none = pure bad_id
  trigger_scene s (some user) (some id) = try (Scenes.get_scene id) >>= guarded s user id
