-- ===== src/Ops/Hardware.antt =====
-- The processors and the memory of a machine: hardware.go.
use tab_vm.Service.{
  validation, ok, Host, Service, M, ◌>>=◌, ◌>>◌, return, require, Outcome, Response, invalid_vm,
}
use tab_vm.Service.Run.{
  exec, read_show_vm_info, run_control_command, log_operation, or_log, seconds, succeeded,
}
use tab_vm.Service.Discover.{resolve_vbox_manage}
use tab_vm.Parse.{parse_vm_state, vm_state_is_live, parse_configured_hardware, after_label}
use tab_vm.VmId.{is_valid_vm_id}
use mathlib.Core.Option
use mathlib.Core.List.{foldl}
use tab_vm.Strings.{Text, txt, trim_space, lines, trim_suffix}
use tab_vm.Prelude.Int.{ℤ, leb_ℤ, pos, eqb_ℤ}
use tab_vm.Prelude.{ℕ, not, Option, List, [], ◌∷◌, Bool, if◌then◌else◌, ◌++◌, true, some, none}
use tab_vm.Strings.Number.{itoa, atoi}

abbrev pub min_vm_memory_mb : ℕ
min_vm_memory_mb = 128

abbrev pub max_fallback_cpus : ℕ
max_fallback_cpus = 64

abbrev pub max_fallback_mem_mb : ℕ
max_fallback_mem_mb = 1048576

abbrev pub host_info_args : List Text
host_info_args = txt "list" ∷ txt "hostinfo" ∷ []

abbrev pub modify_hardware_args : Text → ℤ → ℤ → List Text
modify_hardware_args id cpus memory =
    txt "modifyvm" ∷ id ∷ txt "--cpus" ∷ itoa cpus ∷ txt "--memory" ∷ itoa memory ∷ []

pub record VmHardware : Type 0 where
  pub vm_id : Text
  pub cpus : ℤ
  pub memory_mb : ℤ
  pub host_cpus : ℤ
  pub host_memory_mb : ℤ
  pub editable : Bool

abbrev pub memory_line : ℤ × ℤ → Option Text → ℤ × ℤ
memory_line (cpus, memory) none = (cpus, memory)
memory_line (cpus, memory) (some v) =
    (cpus, Option.get_or (atoi (trim_space (trim_suffix (trim_space v) (txt "MByte")))) memory)

-- One line of `list hostinfo`.
unfoldable pub host_info_line : ℤ × ℤ → Text → ℤ × ℤ
host_info_line (cpus, memory) l = elim (after_label (trim_space l) (txt "Processor count:")) [
  | some v ↦ (Option.get_or (atoi (trim_space v)) cpus, memory)
  | none ↦ memory_line (cpus, memory) (after_label (trim_space l) (txt "Memory size:"))
]

unfoldable pub limits_of : Outcome → ℤ × ℤ
limits_of o =
    if succeeded o
    then foldl host_info_line (pos 0, pos 0) (lines o.result.standard_output)
    else (pos 0, pos 0)

-- A limit that the host does not tell is replaced.
abbrev pub or_fallback : ℤ → ℕ → ℤ
or_fallback n fallback = if eqb_ℤ n (pos 0) then pos fallback else n

module _ {W : Type 0} (host : Host W) (svc : Service) where
  unfoldable pub read_host_limits : Text → M W (ℤ × ℤ)
  read_host_limits path s =
      let (o, t) = exec host path host_info_args (seconds 10) s in (ok (limits_of o), t)

  unfoldable pub vm_hardware : Text → M W VmHardware
  vm_hardware id = do
    require (is_valid_vm_id id) invalid_vm
    path ← resolve_vbox_manage host svc
    info ← read_show_vm_info host path id (txt "reading VM hardware")
    limits ← read_host_limits path
    return (record {
      vm_id = id;
      cpus = (parse_configured_hardware info).0;
      memory_mb = (parse_configured_hardware info).1;
      host_cpus = limits.0;
      host_memory_mb = limits.1;
      editable = not (vm_state_is_live (parse_vm_state info));
    })

  unfoldable pub set_vm_hardware : Text → ℤ → ℤ → M W Response
  set_vm_hardware id cpus memory = do
    require (is_valid_vm_id id) invalid_vm
    require (leb_ℤ (pos 1) cpus) (validation (txt "vCPU count must be at least 1."))
    require (leb_ℤ (pos min_vm_memory_mb) memory)
        (validation (txt "Memory must be at least 128 MB."))
    path ←
        or_log svc (resolve_vbox_manage host svc) id (txt "vm.hardware")
          (txt "VirtualBox/VBoxManage not discovered.")
    limits ← read_host_limits path
    require (leb_ℤ cpus (or_fallback limits.0 max_fallback_cpus)) (
        validation (
          txt "vCPU count cannot exceed the host's "
          ++ (itoa (or_fallback limits.0 max_fallback_cpus) ++ txt " processors.")))
    require (leb_ℤ memory (or_fallback limits.1 max_fallback_mem_mb)) (
        validation (
          txt "Memory cannot exceed the host's "
          ++ (itoa (or_fallback limits.1 max_fallback_mem_mb) ++ txt " MB.")))
    info ← read_show_vm_info host path id (txt "reading VM state before hardware change")
    require (not (vm_state_is_live (parse_vm_state info)))
        (validation (txt "The VM is running. Power it off before changing vCPU or memory."))
    or_log svc
        (run_control_command host id path (modify_hardware_args id cpus memory)
          (txt "changing VM hardware"))
        id (txt "vm.hardware") (txt "VBoxManage modifyvm hardware change failed.")
    log_operation svc id (txt "vm.hardware") true []
    return (record {
      success = true;
      vm_id = id;
      message =
          txt "Hardware updated: "
          ++ (itoa cpus ++ (txt " vCPU, " ++ (itoa memory ++ txt " MB memory.")));
    })
