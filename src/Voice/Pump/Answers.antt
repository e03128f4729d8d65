-- ===== src/Voice/Pump/Answers.antt =====
-- The results of device commands, and the client's messages, on their way to the worker.
use taffy_assistant.Base.{
  ℕ, zero, suc, String, Option, none, ◌==◌, ◌+◌, some, List, [], ◌∷◌, ◌++◌, ◌≡◌, refl, ap, ◌∙◌,
  arith, if◌then◌else◌, append_assoc, nil_right, inl, inr, Option-cases, Bool-cases,
}
use taffy_assistant.Store.{Collation}
use taffy_assistant.Voice.Command.{
  Frame, text, binary, Line, ToWorker, forwarded, device_info, command_result, VoiceHandler,
  is_device_command,
}
use taffy_assistant.Voice.Session.{
  Task, nothing, append_user, append_assistant, record_worker_event,
}
use taffy_assistant.Voice.Pump.{
  Job, command, history, Pump, Event, client, worker, job, unheard, run_job, take_job, started,
  step, run,
}
use taffy_assistant.Voice.Pump.Order.{tool_of, handle_device_command-writes}
use taffy_assistant.Protocol.{unmarshal_command}

-- What the worker is sent of the client's messages.
abbrev pub forwarded_of : List ToWorker → List Frame
forwarded_of [] = []
forwarded_of (forwarded f ∷ ms) = f ∷ forwarded_of ms
forwarded_of (device_info ds ∷ ms) = forwarded_of ms
forwarded_of (command_result r ∷ ms) = forwarded_of ms

-- One if the tool id is this one.
abbrev pub named_by : String → String → ℕ
named_by t u = if u == t then 1 else 0

-- The results under a tool id that the worker has been sent.
abbrev pub results_under : String → List ToWorker → ℕ
results_under t [] = 0
results_under t (forwarded f ∷ ms) = results_under t ms
results_under t (device_info ds ∷ ms) = results_under t ms
results_under t (command_result r ∷ ms) = named_by t r.tool_id + results_under t ms

abbrev pub sent_by : Event → List Frame
sent_by (client f) = f ∷ []
sent_by (worker f) = []
sent_by (job n) = []
sent_by (unheard n) = []

abbrev pub sent_by_client : List Event → List Frame
sent_by_client [] = []
sent_by_client (e ∷ es) = sent_by e ++ sent_by_client es

abbrev pub is_command : String → Job → ℕ
is_command t (command raw) = named_by t (tool_of (unmarshal_command raw))
is_command t (history x) = 0

-- The device commands with this tool id that wait for their result.
abbrev pub waiting : String → List Job → ℕ
waiting t [] = 0
waiting t (j ∷ js) = is_command t j + waiting t js

-- The device commands with this tool id that the worker sends.
abbrev pub commands_of : String → Event → ℕ
commands_of t (worker (text raw)) =
    if is_device_command raw then named_by t (tool_of (unmarshal_command raw)) else 0
commands_of t (worker (binary bytes)) = 0
commands_of t (client f) = 0
commands_of t (job n) = 0
commands_of t (unheard n) = 0

abbrev pub commands_in : String → List Event → ℕ
commands_in t [] = 0
commands_in t (e ∷ es) = commands_of t e + commands_in t es

forwarded_of-append :
    (xs ys : List ToWorker) → forwarded_of (xs ++ ys) ≡ forwarded_of xs ++ forwarded_of ys
forwarded_of-append [] ys = refl
forwarded_of-append (forwarded f ∷ xs) ys = ap (λ fs. f ∷ fs) (forwarded_of-append xs ys)
forwarded_of-append (device_info ds ∷ xs) ys = forwarded_of-append xs ys
forwarded_of-append (command_result r ∷ xs) ys = forwarded_of-append xs ys

results_under-append :
    (t : String) (xs ys : List ToWorker)
    → results_under t (xs ++ ys) ≡ results_under t xs + results_under t ys
results_under-append t [] ys = omega arith
results_under-append t (forwarded f ∷ xs) ys = results_under-append t xs ys
results_under-append t (device_info ds ∷ xs) ys = results_under-append t xs ys
results_under-append t (command_result r ∷ xs) ys = omega (arith, results_under-append t xs ys)

waiting-append :
    (t : String) (js is : List Job) → waiting t (js ++ is) ≡ waiting t js + waiting t is
waiting-append t [] is = omega arith
waiting-append t (j ∷ js) is = omega (arith, waiting-append t js is)

waiting-started : (t : String) (x : Task) → waiting t (started x) ≡ 0
waiting-started t nothing = refl
waiting-started t (append_user n x) = refl
waiting-started t (append_assistant n x) = refl

waiting-take :
    (t : String) (n : ℕ) (js rest : List Job) (j : Job)
    → take_job n js ≡ some (j, rest)
    → waiting t js ≡ is_command t j + waiting t rest
unfolding take_job
waiting-take t n [] rest j h = cc
waiting-take t zero (i ∷ js) rest j h = ground arith
waiting-take t (suc n) (i ∷ js) rest j h = elim (Option-cases (take_job n js)) [
  | inl missing ↦ ground arith
  | inr ((k, others), found) ↦ ground (arith, waiting-take t n js others k found)
]

abbrev is_taken : String → Option (Job × List Job) → ℕ
is_taken t none = 0
is_taken t (some (j, rest)) = is_command t j

-- The command with this tool id whose result cannot be written.
abbrev pub lost_by : String → Event → Pump → ℕ
lost_by t (unheard n) p = is_taken t (take_job n p.jobs)
lost_by t (client f) p = 0
lost_by t (worker f) p = 0
lost_by t (job n) p = 0

-- The answers under a tool id that a session owes and has given.
abbrev pub answers : String → Pump → ℕ
answers t p = results_under t p.line.to_worker + waiting t p.jobs

module _ ⦃c : Collation⦄ where
  -- The commands with this tool id whose results could not be written.
  abbrev pub lost : String → VoiceHandler → List Event → Pump → ℕ
  lost t h [] p = 0
  lost t h (e ∷ es) p = lost_by t e p + lost t h es (step h e p)

  run_job-results :
      (t : String) (h : VoiceHandler) (j : Job) (l : Line)
      → results_under t (run_job h j l).to_worker ≡ results_under t l.to_worker + is_command t j
  unfolding run_job
  run_job-results t h (command raw) l =
      let (_, r, id, w) = handle_device_command-writes h raw l in
      let added = results_under-append t l.to_worker (command_result r ∷ []) in
      rw w (omega (arith, added, ap (named_by t) id))
  run_job-results t h (history x) l = omega arith

  job-answers :
      (t : String) (h : VoiceHandler) (n : ℕ) (p : Pump)
      → answers t (step h (job n) p) ≡ answers t p
  unfolding step
  job-answers t h n p = elim (Option-cases (take_job n p.jobs)) [
    | inl missing ↦ rw missing refl
    | inr ((j, rest), found) ↦
        rw found (omega (arith, run_job-results t h j p.line, waiting-take t n p.jobs rest j found))
  ]

  unheard-answers :
      (t : String) (h : VoiceHandler) (n : ℕ) (p : Pump)
      → answers t (step h (unheard n) p) + lost_by t (unheard n) p ≡ answers t p
  unfolding step
  unheard-answers t h n p = elim (Option-cases (take_job n p.jobs)) [
    | inl missing ↦ rw missing (omega arith)
    | inr ((j, rest), found) ↦ rw found (omega (arith, waiting-take t n p.jobs rest j found))
  ]

  step-answers :
      (t : String) (h : VoiceHandler) (e : Event) (p : Pump)
      → answers t (step h e p) + lost_by t e p ≡ answers t p + commands_of t e
  unfolding step
  step-answers t h (client f) p =
      omega (arith, results_under-append t p.line.to_worker (forwarded f ∷ []))
  step-answers t h (worker (binary bytes)) p = omega arith
  step-answers t h (worker (text raw)) p = elim (Bool-cases (is_device_command raw)) [
    | inl e ↦ rw e (omega (arith, waiting-append t p.jobs (command raw ∷ [])))
    | inr e ↦ rw e (
        omega (
          arith,
          waiting-append t p.jobs (started (record_worker_event p.line.session raw)),
          waiting-started t (record_worker_event p.line.session raw),
        ))
  ]
  step-answers t h (job n) p = omega (arith, job-answers t h n p)
  step-answers t h (unheard n) p = omega (arith, unheard-answers t h n p)

  -- In whatever order messages come and background jobs run, and for each tool id: the results under
  -- this id that the worker has been sent, the commands with it that still wait for theirs, and those
  -- whose result could not be written, are together as many as were sent or waited before and came
  -- since. A command that does not decode counts under the empty id, which its result has.
  pub run-answers :
      (t : String) (h : VoiceHandler) (es : List Event) (p : Pump)
      → answers t (run h es p) + lost t h es p ≡ answers t p + commands_in t es
  unfolding run
  run-answers t h [] p = omega arith
  run-answers t h (e ∷ es) p = omega (arith, run-answers t h es (step h e p), step-answers t h e p)

  run_job-forwarded :
      (h : VoiceHandler) (j : Job) (l : Line)
      → forwarded_of (run_job h j l).to_worker ≡ forwarded_of l.to_worker ++ []
  unfolding run_job
  run_job-forwarded h (command raw) l =
      let (_, r, _, w) = handle_device_command-writes h raw l in
      rw w (forwarded_of-append l.to_worker (command_result r ∷ []))
  run_job-forwarded h (history t) l = nil_right (forwarded_of l.to_worker)

  job-forwarded :
      (h : VoiceHandler) (n : ℕ) (p : Pump)
      → forwarded_of (step h (job n) p).line.to_worker ≡ forwarded_of p.line.to_worker ++ []
  unfolding step
  job-forwarded h n p = elim (Option-cases (take_job n p.jobs)) [
    | inl missing ↦ rw missing (nil_right (forwarded_of p.line.to_worker))
    | inr ((j, rest), found) ↦ rw found (run_job-forwarded h j p.line)
  ]

  unheard-forwarded :
      (h : VoiceHandler) (n : ℕ) (p : Pump)
      → forwarded_of (step h (unheard n) p).line.to_worker ≡ forwarded_of p.line.to_worker ++ []
  unfolding step
  unheard-forwarded h n p = elim (Option-cases (take_job n p.jobs)) [
    | inl missing ↦ rw missing (nil_right (forwarded_of p.line.to_worker))
    | inr ((j, rest), found) ↦ rw found (nil_right (forwarded_of p.line.to_worker))
  ]

  step-forwarded :
      (h : VoiceHandler) (e : Event) (p : Pump)
      → forwarded_of (step h e p).line.to_worker ≡ forwarded_of p.line.to_worker ++ sent_by e
  unfolding step
  step-forwarded h (client f) p = forwarded_of-append p.line.to_worker (forwarded f ∷ [])
  step-forwarded h (worker (binary bytes)) p = nil_right (forwarded_of p.line.to_worker)
  step-forwarded h (worker (text raw)) p = elim (Bool-cases (is_device_command raw)) [
    | inl e ↦ rw e (nil_right (forwarded_of p.line.to_worker))
    | inr e ↦ rw e (nil_right (forwarded_of p.line.to_worker))
  ]
  step-forwarded h (job n) p = job-forwarded h n p
  step-forwarded h (unheard n) p = unheard-forwarded h n p

  -- In whatever order messages come and background jobs run, the worker is sent every message of the
  -- client, unchanged, once, and in the order in which they came.
  pub run-forwarded :
      (h : VoiceHandler) (es : List Event) (p : Pump)
      → forwarded_of (run h es p).line.to_worker
        ≡ forwarded_of p.line.to_worker ++ sent_by_client es
  unfolding run
  run-forwarded h [] p = nil_right (forwarded_of p.line.to_worker)
  run-forwarded h (e ∷ es) p =
      run-forwarded h es (step h e p)
      ∙ ap (λ fs. fs ++ sent_by_client es) (step-forwarded h e p)
      ∙ append_assoc (forwarded_of p.line.to_worker) (sent_by e) (sent_by_client es)
