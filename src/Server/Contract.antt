-- ===== src/Server/Contract.antt =====
-- What every handler does with the service, the locks and the jobs.
pub mod Routes
pub mod Machine
pub mod Serve
pub mod Whole
use tab_vm.Strings.{Text, txt, one_of, text_eq}
use tab_vm.Strings.Number.{itoa}
use tab_vm.Prelude.Int.{ℤ}
use tab_vm.Prelude.{
  ℕ, ◌≡◌, refl, ◌⊎◌, inl, inr, true, false, Option, none, some, List, [], ◌∷◌, ◌++◌, if◌then◌else◌,
  Bool, Bool-cases,
}
use tab_vm.Server.{
  Body, Reply, ServerState, Api, handle_vbox_error, Worker, Platform, sanitized_exec_message, plain,
  operation, validation, not_discovered, execution, other, Act, is_busy, lacks_virtualization,
  lacks_memory,
}
use tab_vm.Server.Jobs.{is_locked, put_job, new_job, sweep_finished_jobs, unlock, start_create_job}
use tab_vm.Server.Requests.{Query, Control, Aside, Change, Creation, Stream, Request}
use tab_vm.Service.{VmError, VmResult, ok, err}
use tab_vm.VmId.{is_valid_vm_id}
use tab_vm.Server.Handlers.{with_vm_lock, answered, controlled, start_locked_job, released}
use tab_vm.Strings.Laws.{text_eq_refl}
use mathlib.Core.Bool.{false≢true}

-- The texts that a reply may carry, but for those of a refused input (400) and of a missing VBoxManage
-- (503): fixed ones, and the exit code of a process.
abbrev pub fixed_texts : List Text
fixed_texts =
    txt "Method not allowed"
    ∷ txt "404 page not found"
    ∷ txt "The VM is busy or locked by another session. Wait a moment and try again."
    ∷ txt
        "Hardware virtualization is unavailable. Check that Hyper-V or Windows memory integrity is not blocking VirtualBox."
    ∷ txt "Not enough host memory to start the VM."
    ∷ txt "Internal server error."
    ∷ txt "VirtualBox is not available."
    ∷ txt "Could not capture the VM screen. Is the VM running?"
    ∷ txt "Serial terminal is not available. Enable it and start the VM."
    ∷ txt "Failed to read activity log."
    ∷ txt "Could not open the folder picker."
    ∷ txt "Could not open the file picker."
    ∷ txt "Unknown job."
    ∷ txt "Invalid Host header."
    ∷ txt "Session token is not configured."
    ∷ txt "Invalid or missing session token."
    ∷ txt "Web UI is unavailable."
    ∷ []

-- The messages of the JSON replies in which the server itself refuses a request.
abbrev pub refusal_texts : List Text
refusal_texts =
    txt "Another operation is already in progress for this VM."
    ∷ txt "Another lifecycle operation is already in progress for this VM."
    ∷ txt "Invalid VM identifier."
    ∷ []

abbrev pub exit_text : ℤ → Text
exit_text code = txt "VirtualBox operation failed (exit code " ++ (itoa code ++ txt ").")

unfoldable pub Allowed : Text → Type 0
Allowed t = (one_of fixed_texts t ≡ true) ⊎ ((code : ℤ) × (t ≡ exit_text code))

pub fixed-Allowed : (t : Text) → one_of fixed_texts t ≡ true → Allowed t
unfolding Allowed
fixed-Allowed t h = inl h

abbrev pub Harmless : {P : Type 0} → Body P → Type 0
Harmless (plain t) = Allowed t
Harmless (operation success id t) = (success ≡ true) ⊎ (one_of refusal_texts t ≡ true)
Harmless _ = Unit {0}

abbrev pub Shown : {P : Type 0} → Reply P → Type 0
Shown r = (r.status ≡ 400) ⊎ ((r.status ≡ 503) ⊎ Harmless r.body)

abbrev pub Unchanged : {S : Type 0} → ServerState S → ServerState S → Type 0
Unchanged s t = (t.ops ≡ s.ops) × (t.jobs ≡ s.jobs) × (t.workers ≡ s.workers)

abbrev pub onto : Option Text → List Text → List Text
onto none ops = ops
onto (some id) ops = id ∷ ops

-- The lock that a worker takes over was free.
abbrev pub Free : Option Text → List Text → Type 0
Free none ops = Unit {0}
Free (some id) ops = is_locked id ops ≡ false

-- A job was started: it is in the table, its worker among the workers, with the lock if it needs one.
abbrev pub Started : {S : Type 0} → ServerState S → ServerState S → Type 0
Started s t =
    (w : Worker) × (name : Text) × (now : ℕ) × Free w.unlocks s.ops
    × (t.ops ≡ onto w.unlocks s.ops)
    × (t.jobs ≡ put_job w.job (new_job name) (sweep_finished_jobs now s.jobs))
    × (t.workers ≡ w ∷ s.workers)

module _ {S P : Type 0} (api : Api S P) (platform : Platform S) (I : S → Type 0) where
  -- No read, no call that names no machine and no random number leaves the predicate.
  pub record KeptByReads : Type 0 where
    pub query :
        (q : Query) (id : Text) (w : S) → is_valid_vm_id id ≡ true → I w → I (api.query q id w).1
    pub ask : (a : Aside) (w : S) → I w → I (api.ask a w).1
    pub new_job_id : (w : S) → I w → I (platform.new_job_id w).1
    pub new_token : (w : S) → I w → I (platform.new_token w).1
    pub new_nonce : (w : S) → I w → I (platform.new_nonce w).1

  -- Nor does any other method, a stream or the upgrade of a connection.
  pub record KeptByAll : Type 0 where
    pub reads : KeptByReads
    pub control :
        (c : Control) (id : Text) (w : S)
        → is_valid_vm_id id ≡ true
        → I w
        → I (api.control c id w).1
    pub change :
        (c : Change) (id : Text) (w : S) → is_valid_vm_id id ≡ true → I w → I (api.change c id w).1
    pub create : (c : Creation) (w : S) → I w → I (api.create c w).1
    pub open_stream :
        (k : Stream) (id : Text) (w : S)
        → is_valid_vm_id id ≡ true
        → I w
        → I (api.open_stream k id w).1
    pub run_stream :
        (k : Stream) (id : Text) (w : S)
        → is_valid_vm_id id ≡ true
        → I w
        → I (api.run_stream k id w)
    pub close_stream :
        (k : Stream) (id : Text) (w : S)
        → is_valid_vm_id id ≡ true
        → I w
        → I (api.close_stream k id w)
    pub upgrade : (r : Request) (w : S) → I w → I (api.upgrade r w).1

module _ {S P : Type 0} (I R : S → Type 0) where
  -- The reply is harmless, what every method keeps is kept, and what the reads keep is kept too if
  -- `quiet`.
  abbrev pub Did : Type 0 → ServerState S → Reply P × ServerState S → Type 0
  Did quiet s (reply, t) =
      Shown reply × (I s.service → I t.service) × (quiet → R s.service → R t.service)

  abbrev pub Answered : Type 0 → ServerState S → Reply P × ServerState S → Type 0
  Answered quiet s r = Did quiet s r × Unchanged s r.1

  abbrev pub Handled : Type 0 → ServerState S → Reply P × ServerState S → Type 0
  Handled quiet s r = Did quiet s r × (Unchanged s r.1 ⊎ ((quiet → ⊥) × Started s r.1))

pub if-either :
    {A : Type 0} (Q : A → Type 0) (b : Bool) (x y : A) → Q x → Q y → Q (if b then x else y)
if-either Q true x y p q = p
if-either Q false x y p q = q

exit_text-Allowed : (code : ℤ) → Allowed (exit_text code)
unfolding Allowed
exit_text-Allowed code = inr (code, refl)

sanitized_exec_message-Allowed :
    (code : ℤ) (stderr : Text) → Allowed (sanitized_exec_message code stderr)
unfolding sanitized_exec_message one_of text_eq txt
sanitized_exec_message-Allowed code stderr =
    if-either Allowed (is_busy stderr) _ _ (fixed-Allowed _ refl) (
      if-either Allowed (lacks_virtualization stderr) _ _ (fixed-Allowed _ refl) (
        if-either Allowed (lacks_memory stderr) _ _ (fixed-Allowed _ refl)
          (exit_text-Allowed code)))

module _ {S : Type 0} (P : Type 0) (I R : S → Type 0) where
  pub error-Answered :
      (quiet : Type 0) (e : VmError) (s t : ServerState S)
      → Unchanged s t
      → (I s.service → I t.service)
      → (quiet → R s.service → R t.service)
      → Answered {P = P} I R quiet s (handle_vbox_error e t)
  unfolding handle_vbox_error one_of text_eq txt
  error-Answered quiet (validation m) s t same i r = ((inl refl, i, r), same)
  error-Answered quiet (not_discovered m) s t same i r = ((inr (inl refl), i, r), same)
  error-Answered quiet (execution code stderr m) s t same i r =
      ((inr (inr (sanitized_exec_message-Allowed code stderr)), i, r), same)
  error-Answered quiet (other m) s t same i r = ((inr (inr (fixed-Allowed _ refl)), i, r), same)

  pub answered-Answered :
      (quiet : Type 0) (s : ServerState S) (res : VmResult P × S)
      → (I s.service → I res.1)
      → (quiet → R s.service → R res.1)
      → Answered {P = P} I R quiet s (answered s res)
  answered-Answered quiet s (ok p, w) i r = ((inr (inr tt), i, r), (refl, refl, refl))
  answered-Answered quiet s (err e, w) i r =
      error-Answered quiet e s (record s { service = w }) (refl, refl, refl) i r

  pub controlled-Answered :
      (quiet : Type 0) (id message : Text) (s : ServerState S) (res : VmResult (Unit {0}) × S)
      → (I s.service → I res.1)
      → (quiet → R s.service → R res.1)
      → Answered {P = P} I R quiet s (controlled id message s res)
  controlled-Answered quiet id message s (ok p, w) i r =
      ((inr (inr (inl refl)), i, r), (refl, refl, refl))
  controlled-Answered quiet id message s (err e, w) i r =
      error-Answered quiet e s (record s { service = w }) (refl, refl, refl) i r

  unlock-first : (id : Text) (ops : List Text) → unlock id (id ∷ ops) ≡ ops
  unfolding unlock
  unlock-first id ops = rw (text_eq_refl id) refl

  released-Answered :
      (quiet : Type 0) (id : Text) (s : ServerState S) (r : Reply P × ServerState S)
      → (quiet → ⊥)
      → Answered I R ⊥ (record s { ops = id ∷ s.ops }) r
      → Answered I R quiet s (released id r)
  released-Answered quiet id s (reply, t) loud ((shown, i, _), (ops, jobs, workers)) =
      ((shown, i, λ q. absurd (loud q)), (rw ops (unlock-first id s.ops), jobs, workers))

  -- While the lock is held, nothing is done; else the lock is given back.
  pub with_vm_lock-Answered :
      (id : Text) (b : Body P) (act : Act S P) (s : ServerState S)
      → Harmless b
      → ((t : ServerState S) → Answered I R ⊥ t (act t))
      → Answered I R (is_locked id s.ops ≡ true) s (with_vm_lock id b act s)
  unfolding with_vm_lock
  with_vm_lock-Answered id b act s harmless does = elim (Bool-cases (is_locked id s.ops)) [
    | inl held ↦ rw held ((inr (inr harmless), λ i. i, λ _ r. r), (refl, refl, refl))
    | inr free ↦ rw free (
        released-Answered (false ≡ true) id s (act (record s { ops = id ∷ s.ops })) false≢true
          (does (record s { ops = id ∷ s.ops })))
  ]

  -- The lock is handed to the worker.
  pub Answered-Handled :
      (quiet : Type 0) (s : ServerState S) (r : Reply P × ServerState S)
      → Answered I R quiet s r
      → Handled I R quiet s r
  Answered-Handled quiet s r (did, same) = (did, inl same)

module _ {S P : Type 0} (api : Api S P) (platform : Platform S) (I R : S → Type 0) where
  pub start_locked_job-Handled :
      (id name : Text) (work : Creation) (s : ServerState S)
      → ((w : S) → I w → I (platform.new_job_id w).1)
      → Handled I R (is_locked id s.ops ≡ true) s (start_locked_job api platform id name work s)
  unfolding start_locked_job start_create_job one_of text_eq txt
  start_locked_job-Handled id name work s i = elim (Bool-cases (is_locked id s.ops)) [
    | inl held ↦ rw held ((inr (inr (inr refl)), λ i. i, λ _ r. r), inl (refl, refl, refl))
    | inr free ↦ rw free (
      (inr (inr tt), i s.service, λ q. absurd (false≢true q)),
      inr (λ q. false≢true q, (_, name, _, free, refl, refl, refl)),
    )
  ]
