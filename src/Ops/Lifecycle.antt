-- ===== src/Ops/Lifecycle.antt =====
-- Starting, stopping and saving a machine: service.go.
use tab_vm.Service.{
  VmError, not_discovered, validation, execution, other, VmResult, ok, err, Host, Service, State, M,
  ◌>>=◌, ◌>>◌, require,
}
use tab_vm.Service.Run.{read_show_vm_info, run_control_command, log_operation, log_failure, or_log}
use tab_vm.Service.Discover.{resolve_vbox_manage}
use tab_vm.Parse.{parse_vm_state, vm_state_is_live}
use tab_vm.VmId.{is_valid_vm_id}
use tab_vm.Strings.{Text, txt, to_lower, trim_space, one_of, text_eq}
use tab_vm.Prelude.{
  List, ◌∷◌, [], ◌++◌, Bool, Option, if◌then◌else◌, ℕ, true, false, ◌||◌, some, suc, none, zero,
}
use tab_vm.Prelude.Int.{negsuc}
use tab_vm.Strings.Number.{itoa}
use tab_vm.Strings.Search.{contains}

abbrev pub start_vm_args : Text → List Text
start_vm_args id = txt "startvm" ∷ id ∷ txt "--type" ∷ txt "headless" ∷ []

abbrev pub resume_vm_args : Text → List Text
resume_vm_args id = txt "controlvm" ∷ id ∷ txt "resume" ∷ []

abbrev pub stop_vm_args : Text → List Text
stop_vm_args id = txt "controlvm" ∷ id ∷ txt "acpipowerbutton" ∷ []

abbrev pub save_state_args : Text → List Text
save_state_args id = txt "controlvm" ∷ id ∷ txt "savestate" ∷ []

abbrev pub reset_vm_args : Text → List Text
reset_vm_args id = txt "controlvm" ∷ id ∷ txt "reset" ∷ []

abbrev pub power_off_vm_args : Text → List Text
power_off_vm_args id = txt "controlvm" ∷ id ∷ txt "poweroff" ∷ []

-- These operations give an execution error for a bad identifier.
abbrev pub bad_identifier : VmError
bad_identifier = execution (negsuc 0) [] (txt "Invalid VM identifier.")

unfoldable pub control_failure_message : Text → VmError → Text
control_failure_message description (execution code stderr message) =
    description ++ (txt " failed (exit code " ++ (itoa code ++ (txt "): " ++ stderr)))
control_failure_message description (not_discovered m) = txt "VirtualBox control command failed."
control_failure_message description (validation m) = txt "VirtualBox control command failed."
control_failure_message description (other m) = txt "VirtualBox control command failed."

-- Does the error's standard error, in lower case, contain one of these?
abbrev pub stderr_mentions : List Text → VmError → Bool
stderr_mentions [] e = false
stderr_mentions (t ∷ ts) (execution code stderr message) =
    contains (to_lower stderr) t || stderr_mentions ts (execution code stderr message)
stderr_mentions (t ∷ ts) (not_discovered m) = false
stderr_mentions (t ∷ ts) (validation m) = false
stderr_mentions (t ∷ ts) (other m) = false

unfoldable pub is_lock_contention : VmError → Bool
is_lock_contention e =
    stderr_mentions (txt "already locked" ∷ to_lower (txt "VBOX_E_INVALID_OBJECT_STATE") ∷ []) e

unfoldable pub is_unresolved_host_error : VmError → Bool
is_unresolved_host_error e = stderr_mentions (to_lower (txt "VERR_UNRESOLVED_ERROR") ∷ []) e

unfoldable pub is_retryable_start_error : VmError → Bool
is_retryable_start_error e = is_lock_contention e || is_unresolved_host_error e

module _ {W : Type 0} (host : Host W) where
  -- The wait of 400 ms between two attempts, unless the context ends first.
  unfoldable pub waited : M W (Unit {0}) → State W → Option Text × W → VmResult (Unit {0}) × State W
  waited rest t (some e, w) = (err (other e), record t { world = w })
  waited rest t (none, w) = rest (record t { world = w })

  -- What follows an attempt that is not the last.
  unfoldable pub retry_after :
      M W (Unit {0}) → VmResult (Unit {0}) × State W → VmResult (Unit {0}) × State W
  retry_after rest (ok a, t) = (ok a, t)
  retry_after rest (err e, t) =
      if is_retryable_start_error e then waited rest t (host.pause 400 t.world) else (err e, t)

  -- An attempt, and at most `n` more.
  unfoldable pub attempts : ℕ → Text → Text → List Text → Text → M W (Unit {0})
  attempts zero id path args description s = run_control_command host id path args description s
  attempts (suc n) id path args description s =
      retry_after (attempts n id path args description)
        (run_control_command host id path args description s)

  unfoldable pub run_control_with_lock_retry : Text → Text → List Text → Text → M W (Unit {0})
  run_control_with_lock_retry = attempts 2

module _ {W : Type 0} (host : Host W) (svc : Service) where
  -- The state, or no state if the read fails.
  unfoldable pub best_effort_state : VmResult Text × State W → VmResult Text × State W
  best_effort_state (ok info, t) = (ok (to_lower (trim_space (parse_vm_state info))), t)
  best_effort_state (err e, t) = (ok [], t)

  -- Start or resume, with the retries and the entries of the log.
  unfoldable pub bring_up : Text → Text → List Text → Text → M W (Unit {0})
  bring_up id path args description = do
    (λ s.
        log_failure svc id (txt "vm.start") (control_failure_message description)
          (run_control_with_lock_retry host id path args description s))
    log_operation svc id (txt "vm.start") true []

  -- The switch on the state.
  unfoldable pub start_from : Text → Text → Text → M W (Unit {0})
  start_from id path state =
      if one_of (txt "running" ∷ txt "starting" ∷ []) state
      then log_operation svc id (txt "vm.start") true (txt "VM already running.")
      else if text_eq state (txt "paused")
      then bring_up id path (resume_vm_args id) (txt "resuming VM")
      else bring_up id path (start_vm_args id) (txt "starting VM")

  unfoldable pub start_vm : Text → M W (Unit {0})
  start_vm id = do
    require (is_valid_vm_id id) bad_identifier
    path ←
        or_log svc (resolve_vbox_manage host svc) id (txt "vm.start")
          (txt "VirtualBox/VBoxManage not discovered.")
    state ← (λ s.
        best_effort_state (read_show_vm_info host path id (txt "reading VM state before start") s))
    start_from id path state

  unfoldable pub save_state : Text → M W (Unit {0})
  save_state id = do
    require (is_valid_vm_id id) bad_identifier
    path ←
        or_log svc (resolve_vbox_manage host svc) id (txt "vm.savestate")
          (txt "VirtualBox/VBoxManage not discovered.")
    info ← (λ s.
        log_failure svc id (txt "vm.savestate")
          (control_failure_message (txt "reading VM state before saving"))
          (read_show_vm_info host path id (txt "reading VM state before saving") s))
    or_log svc
        (require (vm_state_is_live (parse_vm_state info))
          (validation (txt "The VM is not running; there is no running state to save.")))
        id (txt "vm.savestate") (txt "The VM is not running; there is no running state to save.")
    (λ s.
        log_failure svc id (txt "vm.savestate") (control_failure_message (txt "saving VM state"))
          (run_control_command host id path (save_state_args id) (txt "saving VM state") s))
    log_operation svc id (txt "vm.savestate") true []

  unfoldable pub run_logged_control_command :
      Text → Text → (Text → List Text) → Text → M W (Unit {0})
  run_logged_control_command id action args_of description = do
    require (is_valid_vm_id id) bad_identifier
    path ←
        or_log svc (resolve_vbox_manage host svc) id action
          (txt "VirtualBox/VBoxManage not discovered.")
    (λ s.
        log_failure svc id action (control_failure_message description)
          (run_control_command host id path (args_of id) description s))
    log_operation svc id action true []

  unfoldable pub stop_vm : Text → M W (Unit {0})
  stop_vm id = run_logged_control_command id (txt "vm.stop") stop_vm_args (txt "stopping VM")

  unfoldable pub reset_vm : Text → M W (Unit {0})
  reset_vm id = run_logged_control_command id (txt "vm.reset") reset_vm_args (txt "resetting VM")

  unfoldable pub force_power_off : Text → M W (Unit {0})
  force_power_off id =
      run_logged_control_command id (txt "vm.poweroff") power_off_vm_args
        (txt "forcing VM power off")
