-- ===== src/Service/Run.antt =====
-- Running VBoxManage: runner.go's `RunContext`, gate.go's `exec` and `runForVM`, and the wrappers
-- that turn an outcome into an error.
use tab_vm.Service.{
  VmError, execution, VmResult, ok, err, Outcome, Host, Service, State, M, ◌>>=◌, return,
}
use tab_vm.Strings.{Text, txt, is_empty}
use tab_vm.Strings.Number.{itoa}
use tab_vm.Prelude.{
  ◌==◌, if◌then◌else◌, ℕ, ◌*◌, Bool, false, Option, none, some, List, [], ◌∷◌, ◌++◌,
}
use tab_vm.Prelude.Int.{ℤ, eqb_ℤ, pos, negsuc}

-- A duration in milliseconds.
abbrev pub seconds : ℕ → ℕ
seconds n = 1000 * n

abbrev pub failed_run : Text → Outcome
failed_run e = record {
  result = record { exit_code = negsuc 0; standard_output = []; standard_error = [] };
  fault = some e;
}

module _ {W : Type 0} (host : Host W) where
  -- The process runs, and the trace keeps it.
  unfoldable pub launched : List Text → State W → Outcome × W → Outcome × State W
  launched args s (o, w) =
      (o, record s { world = w; issued = record { args = args; outcome = o } ∷ s.issued })

  unfoldable pub run_context : Text → List Text → ℕ → State W → Outcome × State W
  unfolding launched
  run_context name args timeout s =
      if is_empty name
      then (
        record {
          result = record { exit_code = pos 0; standard_output = []; standard_error = [] };
          fault = some (txt "command name is required");
        },
        s,
      )
      else launched args s
          (host.process name args (if timeout == 0 then seconds 30 else timeout) s.world)

  -- Under a global slot, which is free again afterwards.
  unfoldable pub with_slot : Text → List Text → ℕ → State W → Option Text × W → Outcome × State W
  with_slot path args timeout s (some e, w) = (failed_run e, record s { world = w })
  with_slot path args timeout s (none, w) =
      let (o, t) = run_context path args timeout (record s { world = w }) in
      (o, record t { world = host.free_slot t.world })

  unfoldable pub exec : Text → List Text → ℕ → State W → Outcome × State W
  unfolding with_slot
  exec path args timeout s = with_slot path args timeout s (host.take_slot timeout s.world)

  -- Under the machine's slot too.
  unfoldable pub with_lock :
      Text → Text → List Text → ℕ → State W → Option Text × W → Outcome × State W
  with_lock vm path args timeout s (some e, w) = (failed_run e, record s { world = w })
  with_lock vm path args timeout s (none, w) =
      let (o, t) = exec path args timeout (record s { world = w }) in
      (o, record t { world = host.unlock_vm vm t.world })

  unfoldable pub run_for_vm : Text → Text → List Text → ℕ → State W → Outcome × State W
  unfolding with_lock
  run_for_vm vm path args timeout s =
      if is_empty vm
      then exec path args timeout s
      else with_lock vm path args timeout s (host.lock_vm vm s.world)

-- `err != nil || result.ExitCode != 0`.
abbrev pub succeeded : Outcome → Bool
succeeded o = elim o.fault [ some e ↦ false | none ↦ eqb_ℤ o.result.exit_code (pos 0) ]

abbrev pub run_error : Outcome → Text → VmError
run_error o message = execution o.result.exit_code o.result.standard_error message

-- The message of a failed command.
unfoldable pub failure_text : Text → ℤ → Option Text → Text
failure_text description code (some e) =
    txt "VBoxManage failed while " ++ (description ++ (txt ": " ++ e))
failure_text description code none =
    txt "VBoxManage exited with code " ++ (itoa code ++ (txt " while " ++ description))

unfoldable pub checked : Text → Outcome → VmResult Text
checked description o =
    if succeeded o
    then ok o.result.standard_output
    else err (run_error o (failure_text description o.result.exit_code o.fault))

module _ {W : Type 0} (host : Host W) where
  -- `runCapture`.
  unfoldable pub run_capture : Text → Text → List Text → Text → ℕ → M W Text
  run_capture vm path args description timeout s =
      let (o, t) = run_for_vm host vm path args timeout s in (checked description o, t)

  -- `runControlCommandTimeout`.
  unfoldable pub run_control_command_timeout : Text → Text → List Text → Text → ℕ → M W (Unit {0})
  run_control_command_timeout vm path args description timeout = do
    out ← run_capture vm path args description timeout
    return tt

  -- A command whose failure has one fixed message: `runErr != nil || result.ExitCode != 0`.
  unfoldable pub run_plain : Text → Text → List Text → ℕ → Text → M W (Unit {0})
  run_plain vm path args timeout message s =
      let (o, t) = run_for_vm host vm path args timeout s in
      ((if succeeded o then ok tt else err (run_error o message)), t)

  -- `runControlCommand`.
  unfoldable pub run_control_command : Text → Text → List Text → Text → M W (Unit {0})
  unfolding run_control_command_timeout
  run_control_command vm path args description =
      run_control_command_timeout vm path args description (seconds 30)

abbrev pub show_vm_info_args : Text → List Text
show_vm_info_args id = txt "showvminfo" ∷ id ∷ txt "--machinereadable" ∷ []

module _ {W : Type 0} (host : Host W) where
  unfoldable pub read_show_vm_info : Text → Text → Text → M W Text
  read_show_vm_info path id description =
      run_capture host id path (show_vm_info_args id) description (seconds 10)

abbrev pub show_vm_info_human_args : Text → List Text
show_vm_info_human_args id = txt "showvminfo" ∷ id ∷ []

-- `if out, err := …; err == nil`: a read that may fail.
unfoldable pub attempted : {W A : Type 0} → VmResult A × State W → VmResult (Option A) × State W
attempted (ok a, t) = (ok (some a), t)
attempted (err e, t) = (ok none, t)

unfoldable pub optional : {W A : Type 0} → M W A → M W (Option A)
optional m s = attempted (m s)

module _ {W : Type 0} (host : Host W) where
  unfoldable pub read_show_vm_info_human : Text → Text → Text → M W Text
  read_show_vm_info_human path id description =
      run_capture host id path (show_vm_info_human_args id) description (seconds 10)

  -- A read under the global slot alone, where a failure gives nothing.
  unfoldable pub exec_optional : Text → List Text → ℕ → M W (Option Text)
  exec_optional path args timeout s =
      let (o, t) = exec host path args timeout s in
      (ok (if succeeded o then some o.result.standard_output else none), t)

module _ {W : Type 0} (svc : Service) where
  -- With no store there is no log. A failure of the store is swallowed.
  unfoldable pub log_operation : Text → Text → Bool → Text → M W (Unit {0})
  log_operation id action success message s = (
    ok tt,
    if svc.has_store
        then record s {
          logged =
              record { vm_id = id; action = action; success = success; message = message }
              ∷ s.logged;
        }
        else s,
  )

  -- `if err != nil { s.logOperation(…); return err }`.
  unfoldable pub log_failure :
      {A : Type 0} → Text → Text → (VmError → Text) → VmResult A × State W → VmResult A × State W
  log_failure id action message (ok a, s) = (ok a, s)
  log_failure id action message (err e, s) =
      (err e, (log_operation id action false (message e) s).1)

  unfoldable pub or_log : {A : Type 0} → M W A → Text → Text → Text → M W A
  unfolding log_failure
  or_log m id action message s = log_failure id action (λ _. message) (m s)
