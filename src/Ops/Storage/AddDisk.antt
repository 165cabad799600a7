-- ===== src/Ops/Storage/AddDisk.antt =====
-- `AddDisk` of storage.go.
use tab_vm.Service.{
  VmError, validation, execution, ok, err, Host, Service, M, ◌>>=◌, ◌>>◌, return, fail, require,
  Response, invalid_vm, State, VmResult,
}
use tab_vm.Service.Run.{
  read_show_vm_info, run_control_command, run_control_command_timeout, log_operation, or_log,
  seconds,
}
use tab_vm.Service.Discover.{resolve_vbox_manage}
use tab_vm.Parse.{parse_vm_state, vm_state_is_live, machine_pairs, split_machine_readable_raw_key}
use tab_vm.Parse.Controllers.{parse_storage_controllers}
use tab_vm.Parse.SataPort.{
  PickError, no_sata_controller, controller_full, Target, Pick, picked, pick_failed,
  pick_sata_target,
}
use tab_vm.VmId.{is_valid_vm_id}
use tab_vm.Strings.{Text, txt, lines, trim_suffix, text_eq, is_empty}
use tab_vm.Prelude.Int.{ℤ, leb_ℤ, ltb_ℤ, pos}
use tab_vm.Prelude.{
  ℕ, suc, zero, not, List, ◌∷◌, if◌then◌else◌, Option, some, [], ◌==◌, none, ◌&&◌, true, ◌++◌,
}
use tab_vm.Strings.Number.{itoa}

abbrev pub min_disk_mb : ℕ
min_disk_mb = 1024

abbrev pub max_disk_mb : ℕ
max_disk_mb = 2097152

abbrev pub create_disk_mb_args : Text → ℤ → List Text
create_disk_mb_args disk_path size =
    txt "createmedium"
    ∷ txt "disk"
    ∷ txt "--filename"
    ∷ disk_path
    ∷ txt "--size"
    ∷ itoa size
    ∷ txt "--format"
    ∷ txt "VDI"
    ∷ []

abbrev pub set_port_count_args : Text → Text → ℤ → List Text
set_port_count_args id ctl count =
    txt "storagectl" ∷ id ∷ txt "--name" ∷ ctl ∷ txt "--portcount" ∷ itoa count ∷ []

abbrev pub storage_attach_at_args : Text → Text → ℤ → Text → List Text
storage_attach_at_args id ctl port disk_path =
    txt "storageattach"
    ∷ id
    ∷ txt "--storagectl"
    ∷ ctl
    ∷ txt "--port"
    ∷ itoa port
    ∷ txt "--device"
    ∷ txt "0"
    ∷ txt "--type"
    ∷ txt "hdd"
    ∷ txt "--medium"
    ∷ disk_path
    ∷ []

-- `strings.ReplaceAll(value, "\\\\", "\\")`: pairs of backslashes, from the left.
unfoldable pub unescape_backslashes : Text → Text
unescape_backslashes [] = []
unescape_backslashes (c ∷ []) = c ∷ []
unescape_backslashes (c ∷ d ∷ s) =
    let pair = b'\\' ∷ unescape_backslashes s in
    let single = c ∷ unescape_backslashes (d ∷ s) in
    if c == b'\\' && d == b'\\' then pair else single

unfoldable pub value_of : Text → List (Text × Text) → Text
value_of key [] = []
value_of key ((k, v) ∷ ps) = if text_eq k key then v else value_of key ps

unfoldable pub parse_cfg_file : Text → Text
parse_cfg_file output =
    unescape_backslashes
      (value_of (txt "CfgFile") (machine_pairs split_machine_readable_raw_key (lines output)))

abbrev pub pick_message : PickError → VmError
pick_message controller_full = validation (txt "The SATA controller has no free ports left.")
pick_message no_sata_controller =
    validation (txt "This VM has no SATA controller to attach a disk to.")

abbrev pub target_of : {W : Type 0} → Pick → M W Target
target_of (picked t) = return t
target_of (pick_failed e) = fail (pick_message e)

module _ {W : Type 0} (host : Host W) (svc : Service) where
  -- `nextDiskPath`: the first name that is free, from `n` on, of the `fuel` that are left.
  unfoldable pub next_disk_path : ℕ → ℕ → Text → Text → W → Option Text
  next_disk_path zero n dir base w = none
  next_disk_path (suc fuel) n dir base w =
      let candidate = host.path_join dir (base ++ (txt "_" ++ (itoa (pos n) ++ txt ".vdi"))) in
      let rest = next_disk_path fuel (suc n) dir base w in
      if host.missing candidate w then some candidate else rest

  unfoldable pub chosen_path : State W → Option Text → VmResult Text × State W
  chosen_path s (some p) = (ok p, s)
  chosen_path s none =
      (err (execution (pos 0) [] (txt "Could not choose a filename for the new disk.")), s)

  unfoldable pub disk_path_for : Text → M W Text
  disk_path_for cfg s =
      let base = trim_suffix (host.path_base cfg) (host.path_ext cfg) in
      chosen_path s (next_disk_path 1000 1 (host.path_dir cfg) base s.world)

  -- `if bumpTo > 0`.
  unfoldable pub grow_controller : Text → Text → Target → M W (Unit {0})
  grow_controller id path t =
      if ltb_ℤ (pos 0) t.bump_to
      then or_log svc
          (run_control_command host id path (set_port_count_args id t.ctl t.bump_to)
            (txt "growing the storage controller"))
          id (txt "disk.add") (txt "VBoxManage storagectl portcount failed.")
      else return tt

  unfoldable pub add_disk : Text → ℤ → M W Response
  add_disk id size = do
    require (is_valid_vm_id id) invalid_vm
    require (leb_ℤ (pos min_disk_mb) size)
        (validation (txt "New disk must be at least 1024 MB (1 GB)."))
    require (leb_ℤ size (pos max_disk_mb)) (validation (txt "New disk cannot exceed 2 TB."))
    path ←
        or_log svc (resolve_vbox_manage host svc) id (txt "disk.add")
          (txt "VirtualBox/VBoxManage not discovered.")
    info ← read_show_vm_info host path id (txt "reading VM storage before adding a disk")
    require (not (vm_state_is_live (parse_vm_state info)))
        (validation (txt "The VM is running. Power it off before adding a disk."))
    target ← target_of (pick_sata_target (parse_storage_controllers info))
    require (not (is_empty (parse_cfg_file info)))
        (execution (pos 0) [] (txt "Could not determine the VM folder for the new disk."))
    disk_path ← disk_path_for (parse_cfg_file info)
    or_log svc
        (run_control_command_timeout host id path (create_disk_mb_args disk_path size)
          (txt "creating disk") (seconds 300))
        id (txt "disk.add") (txt "VBoxManage createmedium failed.")
    grow_controller id path target
    or_log svc
        (run_control_command host id path
          (storage_attach_at_args id target.ctl target.port disk_path) (txt "attaching disk"))
        id (txt "disk.add") (txt "VBoxManage storageattach failed.")
    log_operation svc id (txt "disk.add") true []
    return (record {
      success = true;
      vm_id = id;
      message =
          txt "Added a "
          ++ (itoa size
              ++ (txt " MB disk on "
                  ++ (target.ctl ++ (txt " port " ++ (itoa target.port ++ txt ".")))));
    })
