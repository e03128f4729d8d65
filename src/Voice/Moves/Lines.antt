-- ===== src/Voice/Moves/Lines.antt =====
-- A voice session as a whole, by what its statements do.
use taffy_assistant.Base.{
  String, Bool, true, false, Option, none, some, List, [], ◌∷◌, ◌≡◌, refl, arith, subst, sym, ◌==◌,
  if◌then◌else◌,
}
use taffy_assistant.Json.{Raw}
use taffy_assistant.Protocol.{
  DeviceCommandEvent, unmarshal_command, function_control_device, function_activate_scene,
}
use taffy_assistant.Store.{Collation, World, Result, ok, err}
use taffy_assistant.Store.Moves.{Preorder, Moves, moves_pure, moves_if}
use taffy_assistant.Repo.Devices as DeviceRows
use taffy_assistant.Repo.States
use taffy_assistant.Service.Devices.{DeviceService}
use taffy_assistant.Service.Devices as DeviceServices
use taffy_assistant.Service.Control.{CommandReply}
use taffy_assistant.Service.Moves.Scenes.{
  execute_control_device-Moves, execute_activate_scene-Moves,
}
use taffy_assistant.Voice.Session.{mark_result, record_command}
use taffy_assistant.Voice.Command.{
  VoiceHandler, StateChanged, Frame, Line, acting, execute, state_broadcast, reply_of,
  send_command_result, broadcast_state_change, answer, handled, handle_device_command,
}
use taffy_assistant.Voice.Command
use taffy_assistant.Voice.Pump.{
  Pump, Job, command, history, Event, client, worker, job, unheard, run_job, step, run, take_job,
  from_client, from_worker,
}
use taffy_assistant.Voice.Pump as Pumping
use taffy_assistant.Voice.Moves.{Talking, mark_result-Moves, record_command-Moves, run_task-Moves}

module _ ⦃c : Collation⦄ {o : Preorder} (h : Talking o) where
  dispatch-Moves :
      (s : DeviceService) (function : String) (params : Raw)
      → Moves o (Command.dispatch s function params)
  dispatch-Moves s function params =
      moves_if (function == function_control_device)
        (execute_control_device-Moves h.upsert_state s params)
        (moves_if (function == function_activate_scene)
          (execute_activate_scene-Moves h.upsert_state s params) moves_pure)

  execute-Moves :
      (s : Option DeviceService) (function : String) (params : Raw)
      → Moves o (execute s function params)
  unfolding execute
  execute-Moves none function params =
      moves_if (function == function_control_device) moves_pure
        (moves_if (function == function_activate_scene) moves_pure moves_pure)
  execute-Moves (some s) function params = dispatch-Moves s function params

  reply_of-world : (x : Result CommandReply × World) → (reply_of x).1 ≡ x.1
  reply_of-world (ok r, w) = refl
  reply_of-world (err e, w) = refl

  state_broadcast-db :
      (v : VoiceHandler) (params : Raw) (w : World) → (state_broadcast v params w).1.db ≡ w.db
  unfolding state_broadcast DeviceServices.get_device DeviceServices.get_device_state
      DeviceRows.get_by_id States.get
  state_broadcast-db v params w = ground arith

  announced-world :
      (x : Result (Option StateChanged) × World) (l : Line) → (Command.announced x l).world ≡ x.1
  announced-world (ok (some b), w) l = refl
  announced-world (ok none, w) l = refl
  announced-world (err e, w) l = refl

  broadcast-db :
      (v : VoiceHandler) (params : Raw) (l : Line)
      → (broadcast_state_change v params l).world.db ≡ l.world.db
  unfolding broadcast_state_change
  broadcast-db v params l =
      rw (announced-world (state_broadcast v params l.world) l)
        (state_broadcast-db v params l.world)

  announcing :
      (v : VoiceHandler) (params : Raw) (b1 b2 : Bool) (l : Line)
      → (if b1 then (if b2 then broadcast_state_change v params l else l) else l).world.db
        ≡ l.world.db
  announcing v params false b2 l = refl
  announcing v params true false l = refl
  announcing v params true true l = broadcast-db v params l

  answer-Moves :
      (v : VoiceHandler) (cmd : DeviceCommandEvent) (l : Line)
      → o.rel l.world.db (answer v cmd l).world.db
  unfolding answer send_command_result
  answer-Moves v cmd l =
      let x = execute v.device_svc cmd.function cmd.params l.world in
      let (r, w) = reply_of x in
      let marked =
        acting (mark_result cmd.tool_id r.success)
          (send_command_result cmd.tool_id r.success r.message (record l { world = w })) in
      rw (announcing v cmd.params r.success (cmd.function == function_control_device) marked) (
        o.chain l.world.db w.db marked.world.db
          (subst (λ u. o.rel l.world.db u.db) (sym (reply_of-world x))
            ((execute-Moves v.device_svc cmd.function cmd.params).along l.world))
          (mark_result-Moves h cmd.tool_id r.success l.session w))

  handled-Moves :
      (v : VoiceHandler) (cmd : DeviceCommandEvent) (e : Option String) (l : Line)
      → o.rel l.world.db (Command.handled v cmd e l).world.db
  unfolding send_command_result
  handled-Moves v cmd (some t) l = o.stay l.world.db
  handled-Moves v cmd none l =
      o.chain _ _ _ (record_command-Moves h cmd l.session l.world)
        (answer-Moves v cmd (acting (record_command cmd) l))

  run_job-Moves :
      (v : VoiceHandler) (j : Job) (l : Line) → o.rel l.world.db (run_job v j l).world.db
  unfolding run_job handle_device_command
  run_job-Moves v (command raw) l =
      handled-Moves v (unmarshal_command raw).0 (unmarshal_command raw).1 l
  run_job-Moves v (history t) l = run_task-Moves h t l.session l.world

  taken-Moves :
      (v : VoiceHandler) (x : Option (Job × List Job)) (p : Pump)
      → o.rel p.line.world.db (Pumping.run_taken v x p).line.world.db
  taken-Moves v none p = o.stay p.line.world.db
  taken-Moves v (some (j, rest)) p = run_job-Moves v j p.line

  unheard-Moves :
      (v : VoiceHandler) (x : Option (Job × List Job)) (p : Pump)
      → o.rel p.line.world.db (Pumping.run_unheard v x p).line.world.db
  unheard-Moves v none p = o.stay p.line.world.db
  unheard-Moves v (some (j, rest)) p = run_job-Moves v j p.line

  worker-db : (f : Frame) (p : Pump) → (from_worker f p).line.world.db ≡ p.line.world.db
  unfolding from_worker
  worker-db f p = ground arith

  step-Moves :
      (v : VoiceHandler) (e : Event) (p : Pump) → o.rel p.line.world.db (step v e p).line.world.db
  unfolding step from_client
  step-Moves v (client f) p = o.stay p.line.world.db
  step-Moves v (worker f) p = rw (worker-db f p) (o.stay p.line.world.db)
  step-Moves v (job n) p = taken-Moves v (take_job n p.jobs) p
  step-Moves v (unheard n) p = unheard-Moves v (take_job n p.jobs) p

  pub run-Moves :
      (v : VoiceHandler) (es : List Event) (p : Pump)
      → o.rel p.line.world.db (run v es p).line.world.db
  unfolding run
  run-Moves v [] p = o.stay p.line.world.db
  run-Moves v (e ∷ es) p = o.chain _ _ _ (step-Moves v e p) (run-Moves v es (step v e p))
