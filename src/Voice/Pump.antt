-- ===== src/Voice/Pump.antt =====
-- The pump between a client and the worker (`pump` of server/internal/handler/voice.go), with the
-- goroutines that it starts as tasks that run at any later time, each at once.
pub mod Order
pub mod Answers
use taffy_assistant.Base.{
  ℕ, zero, suc, String, Bool, true, false, Option, none, some, List, [], ◌∷◌, ◌++◌, ◌≡◌,
  if◌then◌else◌,
}
use taffy_assistant.Json.{Raw}
use taffy_assistant.Store.{Collation, World}
use taffy_assistant.Voice.Session.{
  VoiceSession, Task, nothing, append_user, append_assistant, record_worker_event, run_task,
}
use taffy_assistant.Voice.Command.{
  Frame, text, binary, Line, VoiceHandler, forwarded, acting, is_device_command,
  handle_device_command,
}

-- A goroutine that has been started.
pub data Job : Type 0 where
  command : Raw → Job
  history : Task → Job

pub record Pump : Type 0 where
  pub line : Line
  pub jobs : List Job

-- The next message of the client goes to the worker as it is.
unfoldable pub from_client : Frame → Pump → Pump
from_client f p =
    let l = p.line in record p { line = record l { to_worker = l.to_worker ++ forwarded f ∷ [] } }

abbrev passed_on : Frame → Line → Line
passed_on f l = record l { to_client = l.to_client ++ f ∷ [] }

abbrev pub started : Task → List Job
started nothing = []
started (append_user n t) = history (append_user n t) ∷ []
started (append_assistant n t) = history (append_assistant n t) ∷ []

-- The next message of the worker: a device command is kept back and handled, the rest is passed on
-- and noted in the history.
unfoldable pub from_worker : Frame → Pump → Pump
unfolding is_device_command record_worker_event
from_worker (binary bytes) p = record p { line = passed_on (binary bytes) p.line }
from_worker (text raw) p =
    if is_device_command raw then record p { jobs = p.jobs ++ command raw ∷ [] } else record p {
      line = passed_on (text raw) p.line;
      jobs = p.jobs ++ started (record_worker_event p.line.session raw);
    }

-- What happens: a message of the client, which the worker is sent; a message of the worker; job
-- number `n` runs; or it runs and what it writes to the worker fails. A message that cannot be passed
-- on ends its side of the pump in the code: it is no event, and none of that side comes after it.
pub data Event : Type 0 where
  client : Frame → Event
  worker : Frame → Event
  job : ℕ → Event
  unheard : ℕ → Event

abbrev with_first : Job → Option (Job × List Job) → Option (Job × List Job)
with_first j none = none
with_first j (some (i, rest)) = some (i, j ∷ rest)

-- The job at a place, and the others.
unfoldable pub take_job : ℕ → List Job → Option (Job × List Job)
take_job n [] = none
take_job zero (j ∷ js) = some (j, js)
take_job (suc n) (j ∷ js) = with_first j (take_job n js)

module _ ⦃c : Collation⦄ where
  unfoldable pub run_job : VoiceHandler → Job → Line → Line
  run_job h (command raw) l = handle_device_command h raw l
  run_job h (history t) l = acting (run_task t) l

  -- Job number `n` leaves the list and runs; where there is none, nothing happens.
  abbrev pub run_taken : VoiceHandler → Option (Job × List Job) → Pump → Pump
  run_taken h none p = p
  run_taken h (some (j, rest)) p = record { line = run_job h j p.line; jobs = rest }

  -- The same with the write to the worker failing, which the job only logs.
  abbrev pub run_unheard : VoiceHandler → Option (Job × List Job) → Pump → Pump
  run_unheard h none p = p
  run_unheard h (some (j, rest)) p = record {
    line = record (run_job h j p.line) { to_worker = p.line.to_worker };
    jobs = rest;
  }

  -- What may happen next: a message from either side, or one of the jobs, whichever, runs.
  unfoldable pub step : VoiceHandler → Event → Pump → Pump
  unfolding from_client from_worker run_job take_job
  step h (client f) p = from_client f p
  step h (worker f) p = from_worker f p
  step h (job n) p = run_taken h (take_job n p.jobs) p
  step h (unheard n) p = run_unheard h (take_job n p.jobs) p

  -- A session from then on, along the order in which things happen.
  unfoldable pub run : VoiceHandler → List Event → Pump → Pump
  unfolding step
  run h [] p = p
  run h (e ∷ es) p = run h es (step h e p)
