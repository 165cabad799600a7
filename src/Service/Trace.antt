-- ===== src/Service/Trace.antt =====
-- Reasoning about the commands that an operation runs: a policy says which process may be run after
-- which, and the rules below carry it through a `do` block, one call at a time.
pub mod Discover
pub mod Rules
pub mod Reads
pub mod Probe
use tab_vm.Service.{
  VmError, VmResult, ok, err, Outcome, Host, Service, Event, State, M, and_then, require, return,
}
use tab_vm.Service.Run.{
  seconds, run_context, with_slot, exec, with_lock, run_for_vm, succeeded, checked, run_capture,
  run_control_command_timeout, run_control_command, show_vm_info_args, read_show_vm_info,
  log_operation, log_failure, run_plain,
}
use tab_vm.Service.Discover.{
  version_args, read_version, try_path, find_in_paths, find_vbox_manage, resolved,
  resolve_vbox_manage,
}
use tab_vm.Strings.{Text, is_empty}
use tab_vm.Prelude.{
  Bool-cases, ℕ, ◌≡◌, refl, inl, inr, false, Option, none, some, List, [], ◌∷◌, Bool, true,
  Option-cases, sym, ◌∙◌,
}
use mathlib.Core.Bool.{false≢true}

-- A policy: may this process be run, after those (the newest first)?
abbrev pub Policy : Type 1
Policy = Event → List Event → Type 0

-- Every process of a trace was allowed when it was run.
abbrev pub Safe : Policy → List Event → Type 0
Safe P [] = Unit
Safe P (e ∷ es) = P e es × Safe P es

abbrev pub event : List Text → Outcome → Event
event args o = record { args = args; outcome = o }

-- The state `t` behind a call is `s` with perhaps one more process.
pub data Ran {W : Type 0} (args : List Text) (s t : State W) : Outcome → Type 0 where
  refused : {o : Outcome} → t.issued ≡ s.issued → succeeded o ≡ false → Ran args s t o
  ran : {o : Outcome} → t.issued ≡ event args o ∷ s.issued → Ran args s t o

module _ {W : Type 0} (host : Host W) where
  run_context-Ran :
      (path : Text) (args : List Text) (timeout : ℕ) (s : State W)
      → Ran args s (run_context host path args timeout s).1 (run_context host path args timeout s).0
  unfolding run_context
  run_context-Ran path args timeout s = elim (Bool-cases (is_empty path)) [
    | inl e ↦ rw e (refused refl refl)
    | inr e ↦ rw e (ran refl)
  ]

  with_slot-Ran :
      (path : Text) (args : List Text) (timeout : ℕ) (s : State W) (r : Option Text × W)
      → Ran args s (with_slot host path args timeout s r).1 (with_slot host path args timeout s r).0
  unfolding with_slot
  with_slot-Ran path args timeout s (some e, w) = refused refl refl
  with_slot-Ran path args timeout s (none, w) =
      elim (run_context-Ran path args timeout (record s { world = w })) [
        | refused same failed ↦ refused same failed
        | ran same ↦ ran same
      ]

  pub exec-Ran :
      (path : Text) (args : List Text) (timeout : ℕ) (s : State W)
      → Ran args s (exec host path args timeout s).1 (exec host path args timeout s).0
  unfolding exec
  exec-Ran path args timeout s = with_slot-Ran path args timeout s (host.take_slot timeout s.world)

  with_lock-Ran :
      (vm path : Text) (args : List Text) (timeout : ℕ) (s : State W) (r : Option Text × W)
      → Ran args s
          (with_lock host vm path args timeout s r).1
          (with_lock host vm path args timeout s r).0
  unfolding with_lock
  with_lock-Ran vm path args timeout s (some e, w) = refused refl refl
  with_lock-Ran vm path args timeout s (none, w) =
      elim (exec-Ran path args timeout (record s { world = w })) [
        | refused same failed ↦ refused same failed
        | ran same ↦ ran same
      ]

  -- A call runs its command once, or fails without running it.
  pub run_for_vm-Ran :
      (vm path : Text) (args : List Text) (timeout : ℕ) (s : State W)
      → Ran args s
          (run_for_vm host vm path args timeout s).1
          (run_for_vm host vm path args timeout s).0
  unfolding run_for_vm
  run_for_vm-Ran vm path args timeout s = elim (Bool-cases (is_empty vm)) [
    | inl e ↦ rw e (exec-Ran path args timeout s)
    | inr e ↦ rw e (with_lock-Ran vm path args timeout s (host.lock_vm vm s.world))
  ]

-- What a computation has done, judged at its end: on success `Q`, on an error the policy alone.
unfoldable pub Post :
    {W A : Type 0} → Policy → (A → State W → Type 0) → VmResult A × State W → Type 0
Post P Q (ok a, t) = Q a t
Post P Q (err e, t) = Safe P t.issued

-- The goal of an operation: its trace is safe, whatever it returns.
abbrev pub IsSafe : {W A : Type 0} → Policy → VmResult A × State W → Type 0
IsSafe P r = Post P (λ _ t. Safe P t.issued) r

pub IsSafe-issued :
    {W A : Type 0} (P : Policy) (r : VmResult A × State W) → IsSafe P r → Safe P r.1.issued
unfolding Post
IsSafe-issued P (ok a, t) h = h
IsSafe-issued P (err e, t) h = h

module _ {W : Type 0} (P : Policy) where
  -- The bind of a `do` block.
  pub Post-bind :
      {A B : Type 0} (r : VmResult A × State W) (f : A → M W B) (Q : A → State W → Type 0)
      (R : B → State W → Type 0)
      → Post P Q r
      → ((a : A) (t : State W) → Q a t → Post P R (f a t))
      → Post P R (and_then r f)
  unfolding Post and_then
  Post-bind (ok a, t) f Q R h k = k a t h
  Post-bind (err e, t) f Q R h k = h

  pub require-Post :
      (b : Bool) (e : VmError) (s : State W)
      → Safe P s.issued
      → Post P (λ _ t. (b ≡ true) × (t ≡ s)) (require b e s)
  unfolding Post require
  require-Post true e s h = (refl, refl)
  require-Post false e s h = h

  -- A logged failure fails with the same trace.
  pub log_failure-Post :
      {A : Type 0} (svc : Service) (id action : Text) (message : VmError → Text)
      (r : VmResult A × State W) (Q : A → State W → Type 0)
      → Post P Q r
      → Post P Q (log_failure svc id action message r)
  unfolding Post log_failure log_operation
  log_failure-Post svc id action message (ok a, t) Q h = h
  log_failure-Post svc id action message (err e, t) Q h = elim (Bool-cases svc.has_store) [
    | inl stored ↦ rw stored h
    | inr no_store ↦ rw no_store h
  ]

-- After a run: on success the command is the newest of the trace, and its outcome a success.
abbrev pub Fresh : {W : Type 0} → List Text → State W → Outcome → State W → Type 0
Fresh args s o t = (t.issued ≡ event args o ∷ s.issued) × (succeeded o ≡ true)

module _ {W : Type 0} (host : Host W) (P : Policy) where
  pub Ran-Safe :
      {args : List Text} {s t : State W} {o : Outcome}
      → Ran args s t o
      → ((o : Outcome) → P (event args o) s.issued)
      → Safe P s.issued
      → Safe P t.issued
  Ran-Safe (refused same failed) allowed h = rw same h
  Ran-Safe {o = o} (ran same) allowed h = rw same (allowed o, h)

  -- What a captured run hands on: its output, which is that of the newest process of the trace.
  abbrev pub Captured : List Text → State W → Text → State W → Type 0
  Captured args s out t =
      (o : Outcome) × Fresh args s o t × (out ≡ o.result.standard_output) × Safe P t.issued

  -- The policy lets this command run after the processes of `s`.
  abbrev pub Allows : List Text → State W → Type 0
  Allows args s = (o : Outcome) → P (event args o) s.issued

  pub fresh :
      {args : List Text} {s t : State W} {o : Outcome}
      → Ran args s t o
      → succeeded o ≡ true
      → Allows args s
      → Safe P s.issued
      → Captured args s o.result.standard_output t
  fresh (refused same failed) good allowed h = absurd (false≢true (sym failed ∙ good))
  fresh {o = o} (ran same) good allowed h = (o, (same, good), refl, rw same (allowed o, h))

  Ran-checked :
      {args : List Text} {s t : State W} (o : Outcome) (description : Text)
      → Ran args s t o
      → Allows args s
      → Safe P s.issued
      → Post P (Captured args s) (checked description o, t)
  unfolding Post checked
  Ran-checked o description r allowed h = elim (Bool-cases (succeeded o)) [
    | inl good ↦ rw good (fresh r good allowed h)
    | inr bad ↦ rw bad (Ran-Safe r allowed h)
  ]

  pub run_capture-Post :
      (vm path : Text) (args : List Text) (description : Text) (timeout : ℕ) (s : State W)
      → Allows args s
      → Safe P s.issued
      → Post P (Captured args s) (run_capture host vm path args description timeout s)
  unfolding run_capture
  run_capture-Post vm path args description timeout s allowed h =
      Ran-checked _ description (run_for_vm-Ran host vm path args timeout s) allowed h

  pub read_show_vm_info-Post :
      (path id description : Text) (s : State W)
      → Allows (show_vm_info_args id) s
      → Safe P s.issued
      → Post P (Captured (show_vm_info_args id) s) (read_show_vm_info host path id description s)
  unfolding read_show_vm_info
  read_show_vm_info-Post path id description s allowed h =
      run_capture-Post id path (show_vm_info_args id) description (seconds 10) s allowed h

  pub run_control_command_timeout-Post :
      (vm path : Text) (args : List Text) (description : Text) (timeout : ℕ) (s : State W)
      → Allows args s
      → Safe P s.issued
      → Post P
          (λ _ t. (o : Outcome) × Fresh args s o t × Safe P t.issued)
          (run_control_command_timeout host vm path args description timeout s)
  unfolding Post run_control_command_timeout
  run_control_command_timeout-Post vm path args description timeout s allowed h =
      Post-bind P (run_capture host vm path args description timeout s) _ (Captured args s) _
        (run_capture-Post vm path args description timeout s allowed h)
        (λ out t (o, newest, _, safe). (o, newest, safe))

  pub run_control_command-Post :
      (vm path : Text) (args : List Text) (description : Text) (s : State W)
      → Allows args s
      → Safe P s.issued
      → Post P
          (λ _ t. (o : Outcome) × Fresh args s o t × Safe P t.issued)
          (run_control_command host vm path args description s)
  unfolding run_control_command
  run_control_command-Post vm path args description s allowed h =
      run_control_command_timeout-Post vm path args description (seconds 30) s allowed h

  pub run_plain-Post :
      (vm path : Text) (args : List Text) (timeout : ℕ) (message : Text) (s : State W)
      → Allows args s
      → Safe P s.issued
      → Post P
          (λ _ t. (o : Outcome) × Fresh args s o t × Safe P t.issued)
          (run_plain host vm path args timeout message s)
  unfolding Post run_plain
  run_plain-Post vm path args timeout message s allowed h =
      let r = run_for_vm-Ran host vm path args timeout s in
      elim (Bool-cases (succeeded (run_for_vm host vm path args timeout s).0)) [
        | inl good ↦
            rw good (let (o, newest, _, safe) = fresh r good allowed h in (o, newest, safe))
        | inr bad ↦ rw bad (Ran-Safe r allowed h)
      ]

pub return-Post :
    {W A : Type 0} (P : Policy) (a : A) (Q : A → State W → Type 0) (t : State W)
    → Q a t
    → Post P Q (return a t)
unfolding Post
return-Post P a Q t h = h
