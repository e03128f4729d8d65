-- ===== src/Voice/Pump/Order.antt =====
-- What the two sides of a session are sent, in which order.
use taffy_assistant.Base.{
  ℕ, String, Option, none, some, List, [], ◌∷◌, ◌++◌, ◌≡◌, refl, ap, ◌∙◌, append_assoc, nil_right,
  if◌then◌else◌, ◌==◌, inl, inr, Option-cases, Bool-cases,
}
use taffy_assistant.Json.{Raw}
use taffy_assistant.Store.{Collation, Result-cases}
use taffy_assistant.Protocol.{
  DeviceCommandEvent, DeviceCommandResultEvent, function_control_device, unmarshal_command,
}
use taffy_assistant.Voice.Command.{
  Frame, text, binary, Line, command_result, VoiceHandler, acting, is_device_command, execute,
  reply_of, handle_device_command, answer, broadcast_state_change, state_broadcast,
  send_command_result,
}
use taffy_assistant.Voice.Session.{record_command}
use taffy_assistant.Voice.Pump.{
  Job, command, history, Pump, Event, client, worker, job, unheard, run_job, take_job, step, run,
}

-- The tool id that a result names: the command's, or none where it does not decode.
abbrev pub tool_of : DeviceCommandEvent × Option String → String
tool_of (cmd, none) = cmd.tool_id
tool_of (cmd, some t) = ""

module _ ⦃c : Collation⦄ where
  broadcast_state_change-written :
      (h : VoiceHandler) (params : Raw) (l : Line)
      → ((broadcast_state_change h params l).to_client ≡ l.to_client)
        × ((broadcast_state_change h params l).to_worker ≡ l.to_worker)
  unfolding broadcast_state_change
  broadcast_state_change-written h params l =
      elim (Result-cases (state_broadcast h params l.world)) [
        | inl (e, w, run) ↦ rw run (refl, refl)
        | inr (b, w, run) ↦ elim (Option-cases b) [
          | inl n ↦ rw (run, n) (refl, refl)
          | inr (x, n) ↦ rw (run, n) (refl, refl)
        ]
      ]

  answer-writes :
      (h : VoiceHandler) (cmd : DeviceCommandEvent) (l : Line)
      → ((answer h cmd l).to_client ≡ l.to_client)
        × (r : DeviceCommandResultEvent) × (r.tool_id ≡ cmd.tool_id)
        × ((answer h cmd l).to_worker ≡ l.to_worker ++ command_result r ∷ [])
  unfolding answer send_command_result
  answer-writes h cmd l =
      elim (Bool-cases
        (reply_of (execute h.device_svc cmd.function cmd.params l.world)).0.success) [
          | inl done ↦ elim (Bool-cases (cmd.function == function_control_device)) [
            | inl control ↦
                rw (done, control)
                  (let (c, w) = broadcast_state_change-written h cmd.params _ in (c, _, refl, w))
            | inr other ↦ rw (done, other) (refl, _, refl, refl)
          ]
          | inr failed ↦ rw failed (refl, _, refl, refl)
        ]

  -- A device command writes nothing to the client, and to the worker one result.
  pub handle_device_command-writes :
      (h : VoiceHandler) (raw : Raw) (l : Line)
      → ((handle_device_command h raw l).to_client ≡ l.to_client)
        × (r : DeviceCommandResultEvent) × (r.tool_id ≡ tool_of (unmarshal_command raw))
        × ((handle_device_command h raw l).to_worker ≡ l.to_worker ++ command_result r ∷ [])
  unfolding handle_device_command send_command_result
  handle_device_command-writes h raw l = elim (Option-cases (unmarshal_command raw).1) [
    | inl decoded ↦ rw decoded (
        let cmd : DeviceCommandEvent = (unmarshal_command raw).0 in
        let (c, r, t, w) = answer-writes h cmd (acting (record_command cmd) l) in (c, r, t, w))
    | inr (t, failed) ↦ rw failed (refl, _, refl, refl)
  ]

  run_job-to_client :
      (h : VoiceHandler) (j : Job) (l : Line) → (run_job h j l).to_client ≡ l.to_client
  unfolding run_job
  run_job-to_client h (command raw) l = (handle_device_command-writes h raw l).0
  run_job-to_client h (history t) l = refl

  -- What the client is to see of an event: the worker's messages, but for device commands.
  abbrev pub shown : Event → List Frame
  shown (worker (binary bytes)) = binary bytes ∷ []
  shown (worker (text raw)) = if is_device_command raw then [] else text raw ∷ []
  shown (client f) = []
  shown (job n) = []
  shown (unheard n) = []

  abbrev pub all_shown : List Event → List Frame
  all_shown [] = []
  all_shown (e ∷ es) = shown e ++ all_shown es

  job-to_client :
      (h : VoiceHandler) (n : ℕ) (p : Pump) → (step h (job n) p).line.to_client ≡ p.line.to_client
  unfolding step
  job-to_client h n p = elim (Option-cases (take_job n p.jobs)) [
    | inl missing ↦ rw missing refl
    | inr ((j, rest), found) ↦ rw found (run_job-to_client h j p.line)
  ]

  unheard-to_client :
      (h : VoiceHandler) (n : ℕ) (p : Pump)
      → (step h (unheard n) p).line.to_client ≡ p.line.to_client
  unfolding step
  unheard-to_client h n p = elim (Option-cases (take_job n p.jobs)) [
    | inl missing ↦ rw missing refl
    | inr ((j, rest), found) ↦ rw found (run_job-to_client h j p.line)
  ]

  step-to_client :
      (h : VoiceHandler) (e : Event) (p : Pump)
      → (step h e p).line.to_client ≡ p.line.to_client ++ shown e
  unfolding step
  step-to_client h (client f) p = nil_right p.line.to_client
  step-to_client h (worker (binary bytes)) p = refl
  step-to_client h (worker (text raw)) p = elim (Bool-cases (is_device_command raw)) [
    | inl e ↦ rw e (nil_right p.line.to_client)
    | inr e ↦ rw e refl
  ]
  step-to_client h (job n) p = job-to_client h n p ∙ nil_right p.line.to_client
  step-to_client h (unheard n) p = unheard-to_client h n p ∙ nil_right p.line.to_client

  -- In whatever order messages come and background jobs run, the client is sent exactly the worker's
  -- messages that are not device commands, unchanged and in the order in which they came.
  pub run-to_client :
      (h : VoiceHandler) (es : List Event) (p : Pump)
      → (run h es p).line.to_client ≡ p.line.to_client ++ all_shown es
  unfolding run
  run-to_client h [] p = nil_right p.line.to_client
  run-to_client h (e ∷ es) p =
      run-to_client h es (step h e p)
      ∙ ap (λ fs. fs ++ all_shown es) (step-to_client h e p)
      ∙ append_assoc p.line.to_client (shown e) (all_shown es)
