-- ===== src/Server/Jobs.antt =====
-- The background jobs of server/createvm.go: creations, imports, clones and exports, which the client
-- polls.
pub mod Table
pub mod Locks
use tab_vm.Strings.{Text, txt, text_eq, is_empty, one_of}
use tab_vm.Prelude.{
  ltb, if◌then◌else◌, ℕ, ◌+◌, ◌*◌, ◌^◌, Bool, false, Option, none, some, List, [], ◌∷◌,
}
use tab_vm.Server.{
  running, done, error, Job, Api, error, Platform, Worker, Act, ServerState, http_error,
  method_not_allowed, respond, job_error_message, job_status,
}
use tab_vm.Service.{VmResult, ok, err}
use tab_vm.Server.Requests.{Created, Creation, Request}

-- One hour, in nanoseconds.
abbrev pub create_job_retention : ℕ
create_job_retention = 3600 * 10 ^ 9

abbrev pub overdue : ℕ → Option ℕ → Bool
overdue now none = false
overdue now (some ended) = ltb (ended + create_job_retention) now

-- `sweepFinishedJobsLocked`.
unfoldable pub sweep_finished_jobs : ℕ → List (Text × Job) → List (Text × Job)
sweep_finished_jobs now [] = []
sweep_finished_jobs now ((id, j) ∷ js) =
    let rest = sweep_finished_jobs now js in if overdue now j.ended_at then rest else (id, j) ∷ rest

-- The map's look-up and assignment.
unfoldable pub find_job : Text → List (Text × Job) → Option Job
find_job id [] = none
find_job id ((key, j) ∷ js) = if text_eq key id then some j else find_job id js

unfoldable pub put_job : Text → Job → List (Text × Job) → List (Text × Job)
put_job id j [] = (id, j) ∷ []
put_job id j ((key, old) ∷ js) =
    let rest = put_job id j js in if text_eq key id then (id, j) ∷ js else (key, old) ∷ rest

-- What the goroutine writes into its job when the work returns, and when it panics.
unfoldable pub ended_job : ℕ → VmResult Created → Job → Job
ended_job now (ok r) j = record j {
  state = done;
  message = r.message;
  vm_id = r.vm_id;
  name = if is_empty r.name then j.name else r.name;
  ended_at = some now;
}
ended_job now (err e) j = record j {
  state = error;
  message = job_error_message e;
  ended_at = some now;
}

unfoldable pub panicked_job : ℕ → Job → Job
panicked_job now j = record j {
  state = error;
  message = txt "Internal server error.";
  ended_at = some now;
}

abbrev pub new_job : Text → Job
new_job name = record { state = running; message = []; vm_id = []; name = name; ended_at = none }

-- A job that is gone is left alone.
abbrev pub update_found : Text → (Job → Job) → Option Job → List (Text × Job) → List (Text × Job)
update_found id f none js = js
update_found id f (some j) js = put_job id (f j) js

unfoldable pub update_job : Text → (Job → Job) → List (Text × Job) → List (Text × Job)
update_job id f js = update_found id f (find_job id js) js

-- `tryLockVm`, and the unlock that it returns.
unfoldable pub is_locked : Text → List Text → Bool
is_locked id ops = one_of ops id

unfoldable pub unlock : Text → List Text → List Text
unlock id [] = []
unlock id (held ∷ ops) = let rest = unlock id ops in if text_eq held id then ops else held ∷ rest

abbrev pub unlock_all : Option Text → List Text → List Text
unlock_all none ops = ops
unlock_all (some id) ops = unlock id ops

module _ {S P : Type 0} (api : Api S P) (platform : Platform S) where
  abbrev registered :
      Text → Creation → Option Text → ServerState S → Text × S → Text × ServerState S
  registered name work unlocks s (id, w) = (
    id,
    record s {
      service = w;
      jobs = put_job id (new_job name) (sweep_finished_jobs (platform.now w) s.jobs);
      workers = record { job = id; work = work; unlocks = unlocks } ∷ s.workers;
    },
  )

  -- `startCreateJob`: the job's identifier, and the goroutine among the workers.
  unfoldable pub start_create_job :
      Text → Creation → Option Text → ServerState S → Text × ServerState S
  start_create_job name work unlocks s =
      registered name work unlocks s (platform.new_job_id s.service)

  abbrev finished : Worker → List Worker → ServerState S → VmResult Created × S → ServerState S
  finished w ws s (r, service) = record s {
    service = service;
    ops = unlock_all w.unlocks s.ops;
    jobs = update_job w.job (ended_job (platform.now service) r) s.jobs;
    workers = ws;
  }

  -- The newest worker does its work and ends; the others are `ws`.
  unfoldable pub finish_job : Worker → List Worker → ServerState S → ServerState S
  finish_job w ws s = finished w ws s (api.create w.work s.service)

  -- The work panics, in some state that it leaves behind.
  unfoldable pub panic_job : Worker → List Worker → S → ServerState S → ServerState S
  panic_job w ws service s = record s {
    service = service;
    ops = unlock_all w.unlocks s.ops;
    jobs = update_job w.job (panicked_job (platform.now service)) s.jobs;
    workers = ws;
  }

  abbrev pub job_reply : Option Job → Act S P
  job_reply none = http_error 404 (txt "Unknown job.")
  job_reply (some j) = respond 200 (job_status j.state j.message j.vm_id j.name)

  unfoldable pub handle_create_status : Request → Act S P
  handle_create_status r s =
      if text_eq r.method (txt "GET")
      then job_reply (find_job r.query_job s.jobs) s
      else method_not_allowed s
