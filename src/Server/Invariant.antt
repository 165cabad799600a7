-- ===== src/Server/Invariant.antt =====
-- The locks and the jobs of the server, over any sequence of requests and ends of jobs.
use tab_vm.Strings.{Text}
use tab_vm.Prelude.{All, ℕ, ◌≡◌, sym, ap, ◌∙◌, Option, none, some, List, [], ◌∷◌, refl, inl, inr}
use tab_vm.Server.{running, Job, ServerState, Api, Config, Platform, Worker}
use tab_vm.Server.Contract.{Free, onto, Unchanged, Started}
use tab_vm.Server.Jobs.Locks.{
  held, Distinct, OwnJobs, Picks, unlock_all-held, OwnJobs-Picks, All-Picks, Distinct-held,
}
use tab_vm.Server.Jobs.{
  find_job, sweep_finished_jobs, finish_job, panic_job, put_job, update_found, update_job, new_job,
  unlock_all, panicked_job,
}
use mathlib.Core.Path.{subst}
use tab_vm.Server.Requests.{Request}
use tab_vm.Server.Jobs.Table.{
  find_job-sweep_finished_jobs, find_job-put_job_other, find_job-put_job,
}
use tab_vm.Server.Serve.{serve}
use tab_vm.Server.Contract.Whole.{serve-Handled}
use tab_vm.Server.Guarantees.{anything}

-- The job runs.
abbrev pub Running : Option Job → Type 0
Running none = ⊥
Running (some j) = (j.state ≡ running) × (j.ended_at ≡ none)

-- The locks that are held are those of the workers, each once; each worker has a job of its own in the
-- table, which runs.
pub record Consistent {S : Type 0} (s : ServerState S) : Type 0 where
  pub locks : s.ops ≡ held s.workers
  pub distinct : Distinct s.ops
  pub own_jobs : OwnJobs s.workers
  pub live : All (λ w. Running (find_job w.job s.jobs)) s.workers

module _ {S P : Type 0} (api : Api S P) (config : Config) (platform : Platform S) where
  -- A new worker's identifier is new in the table.
  abbrev pub Fresh : ServerState S → ServerState S → Type 0
  Fresh s t = (w : Worker) → t.workers ≡ w ∷ s.workers → find_job w.job s.jobs ≡ none

  -- A request is served from start to end, or a worker ends, by a return or by a panic.
  pub data Step : ServerState S → ServerState S → Type 0 where
    request :
        (r : Request) (s : ServerState S)
        → Fresh s (serve api config platform r s).1
        → Step s (serve api config platform r s).1
    finish :
        (s : ServerState S) (w : Worker) (rest : List Worker)
        → Picks s.workers w rest
        → Step s (finish_job api platform w rest s)
    panic :
        (s : ServerState S) (w : Worker) (rest : List Worker) (service : S)
        → Picks s.workers w rest
        → Step s (panic_job api platform w rest service s)

  pub data Reachable (start : S) : ServerState S → Type 0 where
    begin :
        Reachable start
          (record { service = start; dev_token = []; ops = []; jobs = []; workers = [] })
    step : {s t : ServerState S} → Reachable start s → Step s t → Reachable start t

-- Changes of the table leave a worker's job running.
Running-sweep :
    (id : Text) (now : ℕ) (js : List (Text × Job)) (o : Option Job)
    → find_job id js ≡ o
    → Running o
    → Running (find_job id (sweep_finished_jobs now js))
Running-sweep id now js none found live = absurd live
Running-sweep id now js (some j) found (state, ended) =
    rw (find_job-sweep_finished_jobs id now j js ended found) (state, ended)

-- A fresh identifier is no worker's.
fresh_apart :
    (id key : Text) (js : List (Text × Job))
    → find_job key js ≡ none
    → Running (find_job id js)
    → key ≡ id
    → ⊥
fresh_apart id key js fresh live same =
    subst Running (ap (λ k. find_job k js) (sym same) ∙ fresh) live

All-implies :
    {A : Type 0} (Q R : A → Type 0) (xs : List A) → ((x : A) → Q x → R x) → All Q xs → All R xs
All-implies Q R [] f all = tt
All-implies Q R (x ∷ xs) f (q, all) = (f x q, All-implies Q R xs f all)

Distinct-onto-Free :
    (u : Option Text) (ops : List Text) → Free u ops → Distinct ops → Distinct (onto u ops)
Distinct-onto-Free none ops free d = d
Distinct-onto-Free (some id) ops free d = (free, d)

Running-update :
    (key : Text) (f : Job → Job) (o : Option Job) (js : List (Text × Job)) (x : Worker)
    → (key ≡ x.job → ⊥)
    → Running (find_job x.job js)
    → Running (find_job x.job (update_found key f o js))
Running-update key f none js x apart live = live
Running-update key f (some j) js x apart live =
    rw (find_job-put_job_other x.job key (f j) js apart) live

All-both :
    {A : Type 0} (Q R T : A → Type 0) (xs : List A)
    → ((x : A) → Q x → R x → T x)
    → All Q xs
    → All R xs
    → All T xs
All-both Q R T [] f all rest = tt
All-both Q R T (x ∷ xs) f (q, all) (r, rest) = (f x q r, All-both Q R T xs f all rest)

module _ {S : Type 0} where
  Unchanged-Consistent : (s t : ServerState S) → Unchanged s t → Consistent s → Consistent t
  Unchanged-Consistent s t (ops, jobs, workers) c = record {
    locks = ops ∙ (c.locks ∙ ap held (sym workers));
    distinct = subst Distinct (sym ops) c.distinct;
    own_jobs = subst OwnJobs (sym workers) c.own_jobs;
    live =
        subst (λ js. All (λ w. Running (find_job w.job js)) t.workers) (sym jobs)
          (subst (All (λ w. Running (find_job w.job s.jobs))) (sym workers) c.live);
  }

  -- What a new job leaves of another one.
  Running-put :
      (id : Text) (name : Text) (now : ℕ) (s : ServerState S) (x : Worker)
      → find_job id s.jobs ≡ none
      → Running (find_job x.job s.jobs)
      → Running (find_job x.job (put_job id (new_job name) (sweep_finished_jobs now s.jobs)))
  Running-put id name now s x fresh live =
      rw
        (find_job-put_job_other x.job id (new_job name) (sweep_finished_jobs now s.jobs)
          (fresh_apart x.job id s.jobs fresh live))
        (Running-sweep x.job now s.jobs (find_job x.job s.jobs) refl live)

  Started-Consistent :
      (s t : ServerState S)
      → Started s t
      → ((w : Worker) → t.workers ≡ w ∷ s.workers → find_job w.job s.jobs ≡ none)
      → Consistent s
      → Consistent t
  unfolding held
  Started-Consistent s t (w, name, now, free, ops, jobs, workers) fresh c = record {
    locks = ops ∙ (ap (onto w.unlocks) c.locks ∙ ap held (sym workers));
    distinct = subst Distinct (sym ops) (Distinct-onto-Free w.unlocks s.ops free c.distinct);
    own_jobs = subst OwnJobs (sym workers) (
      All-implies _ _ s.workers (λ x. fresh_apart x.job w.job s.jobs (fresh w workers)) c.live,
      c.own_jobs,
    );
    live =
        subst (λ js. All (λ x. Running (find_job x.job js)) t.workers) (sym jobs)
          (subst
            (All (λ x.
              Running
                (find_job x.job (put_job w.job (new_job name) (sweep_finished_jobs now s.jobs)))))
            (sym workers)
            (
              rw (find_job-put_job w.job (new_job name) (sweep_finished_jobs now s.jobs))
                  (refl, refl),
              All-implies _ _ s.workers (λ x. Running-put w.job name now s x (fresh w workers))
                  c.live,
            ));
  }

  -- A worker that ends leaves the others as they were.
  ended-Consistent :
      (s t : ServerState S) (w : Worker) (rest : List Worker) (f : Job → Job)
      → Picks s.workers w rest
      → t.ops ≡ unlock_all w.unlocks s.ops
      → t.jobs ≡ update_job w.job f s.jobs
      → t.workers ≡ rest
      → Consistent s
      → Consistent t
  unfolding update_job
  ended-Consistent s t w rest f picks ops jobs workers c =
      let distinct : Distinct (held s.workers) = (subst Distinct c.locks c.distinct) in
      let freed : t.ops ≡ held rest =
        (ops ∙ (ap (unlock_all w.unlocks) c.locks ∙ unlock_all-held picks distinct)) in
      let (apart, own) = OwnJobs-Picks picks c.own_jobs in
      let (ending, others) = All-Picks (λ x. Running (find_job x.job s.jobs)) picks c.live in
      record {
        locks = freed ∙ ap held (sym workers);
        distinct = subst Distinct (sym freed) (Distinct-held picks distinct);
        own_jobs = subst OwnJobs (sym workers) own;
        live =
            subst (λ js. All (λ x. Running (find_job x.job js)) t.workers) (sym jobs)
              (subst (All (λ x. Running (find_job x.job (update_job w.job f s.jobs)))) (sym workers)
                (All-both _ _ _ rest (λ x. Running-update w.job f (find_job w.job s.jobs) s.jobs x)
                  apart others));
      }

module _ {S P : Type 0} (api : Api S P) (config : Config) (platform : Platform S) where
  moved-Consistent :
      (s t : ServerState S) → Step api config platform s t → Consistent s → Consistent t
  unfolding finish_job panic_job
  moved-Consistent s _ (request r _ fresh) c =
      let (did, books) =
        serve-Handled P api config platform (λ _. Unit) (λ _. Unit) (anything api platform)
          (anything api platform).reads r s in
      elim books [
        | inl same ↦ Unchanged-Consistent s (serve api config platform r s).1 same c
        | inr (loud, started) ↦
            Started-Consistent s (serve api config platform r s).1 started fresh c
      ]
  moved-Consistent s _ (finish _ w rest picks) c =
      ended-Consistent s (finish_job api platform w rest s) w rest _ picks refl refl refl c
  moved-Consistent s _ (panic _ w rest service picks) c =
      ended-Consistent s (panic_job api platform w rest service s) w rest
        (panicked_job (platform.now service)) picks refl refl refl c

  -- After any sequence of requests, each served from start to end, and of ends of jobs, by a return or
  -- a panic, where each new job gets an identifier that is new, the locks that are held are those that
  -- the workers will release, each once, and each worker has a job of its own in the table, which is in
  -- the state running.
  pub reachable-Consistent :
      (start : S) (s : ServerState S) → Reachable api config platform start s → Consistent s
  unfolding held
  reachable-Consistent start _ begin = record {
    locks = refl;
    distinct = tt;
    own_jobs = tt;
    live = tt;
  }
  reachable-Consistent start t (step {s} reached st) =
      moved-Consistent s t st (reachable-Consistent start s reached)
