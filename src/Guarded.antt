-- ===== src/Guarded.antt =====
-- Which commands the operations run, and behind which reads. Many may only change a machine that is not
-- running: VirtualBox refuses most of them on a live machine, and some would lose its state.
pub mod DeleteVm
pub mod Storage
pub mod Hardware
pub mod Serial
pub mod Clipboard
pub mod Lifecycle
pub mod Network
pub mod Forwarding
pub mod Usb
pub mod Dvd
pub mod SharedFolder
pub mod Snapshot
use tab_vm.Service.{Event, State, Host}
use tab_vm.Service.Run.{show_vm_info_args, succeeded}
use tab_vm.Service.Discover.{version_args}
use tab_vm.Service.Trace.{Policy, Safe, Captured, Allows}
use tab_vm.Parse.{parse_vm_state, vm_state_is_live}
use tab_vm.VmId.{is_valid_vm_id}
use tab_vm.Strings.{Text}
use tab_vm.Prelude.{◌≡◌, refl, ◌⊎◌, inl, Bool, true, false, List, [], ◌∷◌, inr, Bool-cases, sym}
use mathlib.Core.Path.{subst}

-- The state that a machine's settings report.
abbrev pub is_live : Text → Bool
is_live info = vm_state_is_live (parse_vm_state info)

-- A successful process with these arguments, with an output for which `C` holds.
abbrev pub Shows : List Text → (Text → Type 0) → Event → Type 0
Shows args C e = (e.args ≡ args) × (succeeded e.outcome ≡ true) × C e.outcome.result.standard_output

-- Some process of the trace was such a one.
abbrev pub SawOutput : List Text → (Text → Type 0) → List Event → Type 0
SawOutput args C [] = ⊥
SawOutput args C (e ∷ es) = Shows args C e ⊎ SawOutput args C es

-- The machine's settings were read, with settings for which `C` holds.
abbrev pub Saw : (Text → Type 0) → Text → List Event → Type 0
Saw C id = SawOutput (show_vm_info_args id) C

abbrev pub Stopped : Text → Type 0
Stopped info = is_live info ≡ false

abbrev pub Live : Text → Type 0
Live info = is_live info ≡ true

-- The processes that such an operation may run for machine `id`: the probe for VBoxManage, the read
-- of the settings, other reads, and the changes, these only for a well-formed identifier and only
-- behind a read that showed settings for which `C` holds.
abbrev pub GuardedPolicy :
    (List Text → Type 0) → (List Text → Type 0) → (Text → Type 0) → Text → Policy
GuardedPolicy Reads Changes C id e before =
    (e.args ≡ version_args)
    ⊎ ((e.args ≡ show_vm_info_args id)
        ⊎ (Reads e.args ⊎ (Changes e.args × (is_valid_vm_id id ≡ true) × Saw C id before)))

-- The changes only of a machine that was seen not to be live.
abbrev pub StoppedPolicy : (List Text → Type 0) → (List Text → Type 0) → Text → Policy
StoppedPolicy Reads Changes = GuardedPolicy Reads Changes Stopped

abbrev pub NoReads : List Text → Type 0
NoReads args = ⊥

-- One change at run time, of a machine that was seen live, and another in the settings, of one that
-- was seen not to be.
abbrev pub EitherPolicy :
    (List Text → Type 0) → (List Text → Type 0) → (List Text → Type 0) → Text → Policy
EitherPolicy Reads AtRunTime InSettings id e before =
    (e.args ≡ version_args)
    ⊎ ((e.args ≡ show_vm_info_args id)
        ⊎ (Reads e.args
            ⊎ ((is_valid_vm_id id ≡ true)
                × ((AtRunTime e.args × Saw Live id before)
                    ⊎ (InSettings e.args × Saw Stopped id before)))))

module _ {W : Type 0} (host : Host W) (P : Policy) {id info : Text} (s t : State W) where
  -- What a read hands on, if `C` holds for the settings.
  pub Captured-Saw :
      (C : Text → Type 0)
      → Captured host P (show_vm_info_args id) s info t
      → C info
      → Saw C id t.issued
  Captured-Saw C (o, newest, out, safe) c = rw newest.0 (inl (refl, newest.1, subst C out c))

  pub Captured-SawStopped :
      Captured host P (show_vm_info_args id) s info t
      → is_live info ≡ false
      → Saw Stopped id t.issued
  Captured-SawStopped read stopped = Captured-Saw Stopped read stopped

-- What was seen stays seen.
pub Saw-later :
    {W : Type 0} (args : List Text) (C : Text → Type 0) (s t : State W) (e : Event)
    → t.issued ≡ e ∷ s.issued
    → SawOutput args C s.issued
    → SawOutput args C t.issued
Saw-later args C s t e same saw = rw same (inr saw)

-- The machine was seen in the state that `info` reports.
abbrev pub Seen : Text → Text → List Event → Type 0
Seen id info es =
    ((is_live info ≡ true) × Saw Live id es) ⊎ ((is_live info ≡ false) × Saw Stopped id es)

module _ {W : Type 0} (host : Host W) (P : Policy) (id info : Text) (s t : State W) where
  pub Captured-Seen : Captured host P (show_vm_info_args id) s info t → Seen id info t.issued
  Captured-Seen read = elim (Bool-cases (is_live info)) [
    | inl live ↦ inl (live, Captured-Saw host P s t Live read live)
    | inr stopped ↦ inr (stopped, Captured-Saw host P s t Stopped read stopped)
  ]

-- The command that the state selects is allowed.
pub Seen-Allows :
    {W : Type 0} (host : Host W) (Reads AtRunTime InSettings : List Text → Type 0) (id info : Text)
    (args : Bool → List Text) (t : State W)
    → is_valid_vm_id id ≡ true
    → AtRunTime (args true)
    → InSettings (args false)
    → Seen id info t.issued
    → Allows host (EitherPolicy Reads AtRunTime InSettings id) (args (is_live info)) t
Seen-Allows host Reads AtRunTime InSettings id info args t valid at_run_time in_settings
      (inl (live, saw)) o =
    inr (inr (inr (valid, inl (subst (λ b. AtRunTime (args b)) (sym live) at_run_time, saw))))
Seen-Allows host Reads AtRunTime InSettings id info args t valid at_run_time in_settings
      (inr (stopped, saw)) o =
    inr (inr (inr (valid, inr (subst (λ b. InSettings (args b)) (sym stopped) in_settings, saw))))
