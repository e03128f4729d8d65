-- ===== src/Service/Scenes/Trigger.antt =====
-- The commands of a scene: `Trigger` and `ExecuteActivateScene`.
use taffy_assistant.Base.{
  ℕ, suc, ◌≤◌, some, List, [], ◌∷◌, none, ◌≡◌, refl, arith, length, select_one, ap,
}
use taffy_assistant.Json.{Raw}
use taffy_assistant.Model.{Scene}
use taffy_assistant.Store.{Collation, World, M, Result, ok, err, strike}
use taffy_assistant.Repo.Scenes.{is_scene}
use taffy_assistant.Repo.Scenes
use taffy_assistant.Service.Devices.{DeviceService}
use taffy_assistant.Service.Control.{CommandReply, execute_control_device}
use taffy_assistant.Service.Control.Atomic.{execute_control_device-atomic, Answered}
use taffy_assistant.Service.Scenes.{run_all, trigger, get_scene, unmarshal_commands, fail_count}

-- A way to execute commands that returns no error.
abbrev pub Total : (Raw → M CommandReply) → Type 0
Total exec = (raw : Raw) (w : World) → (r : CommandReply) × (w' : World) × (exec raw w ≡ (ok r, w'))

run_all-length :
    (exec : Raw → M CommandReply) (cmds : List Raw) (w : World)
    → Total exec
    → (rs : List CommandReply) × (w' : World) × (run_all exec cmds w ≡ (ok rs, w'))
      × (length rs ≡ length cmds)
unfolding run_all
run_all-length exec [] w total = ([], w, refl, refl)
run_all-length exec (cmd ∷ rest) w total =
    let (r, v, run) = total cmd w in
    let (rs, v', runs, n) = run_all-length exec rest v total in
    (r ∷ rs, v', rw (run, runs) refl, ap suc n)

fail_count-length : (rs : List CommandReply) → fail_count rs ≤ length rs
unfolding fail_count
fail_count-length [] = omega arith
fail_count-length (r ∷ rs) = ground (arith, fail_count-length rs)

module _ ⦃c : Collation⦄ where
  from_Answered :
      (s : DeviceService) (raw : Raw) (w : World) (o : Result CommandReply × World)
      → Answered s raw w o
      → (r : CommandReply) × (w' : World) × (o ≡ (ok r, w'))
  from_Answered s raw w (ok r, w') h = (r, w', refl)
  from_Answered s raw w (err e, w') h = elim h [ ]

  execute_control_device-Total : (s : DeviceService) → Total (execute_control_device s)
  execute_control_device-Total s raw w =
      from_Answered s raw w (execute_control_device s raw w) (execute_control_device-atomic s raw w)

  -- The world after one statement that reads.
  abbrev pub struck : World → World
  struck w = record w { faults = (strike w.faults).1 }

  scene_read :
      (id : ℕ) (w : World) (sc : Scene)
      → (strike w.faults).0 ≡ none
      → select_one (is_scene id) w.scenes ≡ some sc
      → get_scene id w ≡ (ok sc, struck w)
  unfolding get_scene Scenes.get_by_id
  scene_read id w sc calm found = ground arith

  -- If the first statement does not fail, the scene is known and its list decodes, then a triggering
  -- runs every command of the list, whatever the others did and whichever later statements fail: it
  -- returns the reply of each, and never an error.
  pub trigger-runs_all :
      (s : DeviceService) (id : ℕ) (w : World) (sc : Scene) (cmds : List Raw)
      → (strike w.faults).0 ≡ none
      → select_one (is_scene id) w.scenes ≡ some sc
      → unmarshal_commands sc.command_list ≡ ok cmds
      → (rs : List CommandReply) × (w' : World) × (trigger id (execute_control_device s) w
          ≡ (ok rs, w'))
        × (run_all (execute_control_device s) cmds (struck w) ≡ (ok rs, w'))
        × (length rs ≡ length cmds)
        × (fail_count rs ≤ length cmds)
  unfolding trigger
  trigger-runs_all s id w sc cmds calm found decoded =
      let (rs, w', runs, n) =
        run_all-length (execute_control_device s) cmds (struck w)
          (execute_control_device-Total s) in
      (
        rs,
        w',
        rw (scene_read id w sc calm found, decoded, runs) refl,
        runs,
        n,
        ground (arith, fail_count-length rs),
      )
