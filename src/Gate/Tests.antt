-- ===== src/Gate/Tests.antt =====
-- A schedule of three calls, two of them for one machine, and the theorems applied to it.
use tab_vm.Gate.{Action, lock_vm, take_slot, give_up, waiting, running, done, System, start, run}
use tab_vm.Gate.Count.{count}
use tab_vm.Gate.Invariant.{is_running, holds, gate_slots_bound, gate_vm_bound}
use tab_vm.Gate.Progress.{Completes, gate_no_deadlock}
use mathlib.Core.Option
use tab_vm.Prelude.{◌≡◌, ◌≤◌, refl, ℕ, some, [], ◌∷◌, List, if◌then◌else◌, false}
use tab_vm.Strings.{Text, txt, text_eq, is_empty}

abbrev vms : List Text
vms = txt "a" ∷ txt "a" ∷ txt "b" ∷ []

-- The first two callers; the second gives up while the first runs.
abbrev schedule : List (ℕ × Action)
schedule = (0, lock_vm) ∷ (0, take_slot) ∷ (1, give_up) ∷ []

abbrev reached : System
reached = record {
  gate = record { slots = 1; locks = λ id. if text_eq (txt "a") id then 1 else 0 };
  callers =
      record { vm = txt "a"; phase = running }
      ∷ record { vm = txt "a"; phase = done }
      ∷ record { vm = txt "b"; phase = waiting }
      ∷ [];
}

schedule-reached : run schedule (start vms) ≡ some reached
unfolding run text_eq txt Option.bind
schedule-reached = refl

a_not_empty : is_empty (txt "a") ≡ false
unfolding txt
a_not_empty = refl

gate_slots_bound_example : count is_running reached.callers ≤ 4
gate_slots_bound_example = gate_slots_bound vms schedule reached schedule-reached

gate_vm_bound_example : count (holds (txt "a")) reached.callers ≤ 1
gate_vm_bound_example = gate_vm_bound vms schedule reached (txt "a") schedule-reached (a_not_empty)

gate_no_deadlock_example : Completes reached
gate_no_deadlock_example = gate_no_deadlock vms schedule reached schedule-reached
