-- ===== src/Tests/Lifecycle.antt =====
-- Starting, with a machine that is locked at first, and saving.
use tab_vm.Tests.Scripted.{
  scripted, service, begin, vm1, version_line, stopped_info, running_info, printed, refused,
}
use tab_vm.Service.Trace.{Safe}
use tab_vm.Guarded.{GuardedPolicy, NoReads, Live}
use tab_vm.Guarded.Lifecycle.Retry.{Bounded, run_control_with_lock_retry-Bounded}
use tab_vm.Guarded.Lifecycle.Start.{StartPolicy, start_vm_guarded}
use tab_vm.Guarded.Lifecycle.Save.{save_state_guarded}
use tab_vm.Ops.Lifecycle.{
  start_vm_args, save_state_args, run_control_with_lock_retry, start_vm, save_state,
}
use tab_vm.Prelude.{◌≡◌, refl, [], ◌∷◌, List}
use tab_vm.Strings.{txt}
use tab_vm.Service.{Outcome}

abbrev locked_script : List Outcome
locked_script = refused (txt "The machine is already locked by a session") ∷ printed [] ∷ []

run_control_with_lock_retry-Bounded_example : Bounded (start_vm_args vm1) [] 3 (
    run_control_with_lock_retry scripted vm1
      (txt "vbox")
      (start_vm_args vm1)
      (txt "starting VM")
      (begin locked_script))
run_control_with_lock_retry-Bounded_example =
    run_control_with_lock_retry-Bounded scripted vm1 (txt "vbox") (start_vm_args vm1)
      (txt "starting VM") (begin locked_script)

abbrev start_script : List Outcome
start_script =
    version_line
    ∷ stopped_info
    ∷ refused (txt "The machine is already locked by a session")
    ∷ printed []
    ∷ []

start_vm_guarded_example :
    Safe (StartPolicy vm1) (start_vm scripted service vm1 (begin start_script)).1.issued
start_vm_guarded_example = start_vm_guarded scripted service vm1 (begin start_script) refl

abbrev save_script : List Outcome
save_script = version_line ∷ running_info ∷ printed [] ∷ []

save_state_guarded_example :
    Safe
      (GuardedPolicy NoReads (λ args. args ≡ save_state_args vm1) Live vm1)
      (save_state scripted service vm1 (begin save_script)).1.issued
save_state_guarded_example = save_state_guarded scripted service vm1 (begin save_script) refl
