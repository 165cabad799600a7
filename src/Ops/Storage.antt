-- ===== src/Ops/Storage.antt =====
-- Disks of a machine: storage.go, without the listing `VmStorage`.
pub mod Medium
pub mod AddDisk
use tab_vm.Service.{
  VmError, validation, VmResult, ok, err, Host, Service, State, M, ◌>>=◌, ◌>>◌, and_then, return,
  fail, require, Response, invalid_vm, Outcome,
}
use tab_vm.Service.Run.{
  read_show_vm_info, run_for_vm, run_control_command, run_control_command_timeout, succeeded,
  run_error, log_operation, or_log, seconds,
}
use tab_vm.Service.Discover.{resolve_vbox_manage}
use tab_vm.Parse.{parse_vm_state, vm_state_is_live}
use tab_vm.Parse.Controllers.{Attachment, find_disk_attachment}
use tab_vm.Ops.Storage.Medium.{MediumDetails, parse_medium_details, disk_resizable}
use tab_vm.VmId.{is_valid_vm_id}
use tab_vm.Strings.{Text, txt}
use tab_vm.Strings.Number.{itoa}
use tab_vm.Prelude.{
  if◌then◌else◌, ℕ, true, not, ◌&&◌, Option, none, some, List, [], ◌∷◌, ◌++◌, Bool,
}
use tab_vm.Prelude.Int.{ℤ, ltb_ℤ, leb_ℤ, pos}

abbrev pub show_medium_info_args : Text → List Text
show_medium_info_args uuid = txt "showmediuminfo" ∷ uuid ∷ []

abbrev pub resize_disk_args : Text → ℤ → List Text
resize_disk_args uuid size =
    txt "modifymedium" ∷ txt "disk" ∷ uuid ∷ txt "--resize" ∷ itoa size ∷ []

abbrev pub detach_disk_args : Text → Attachment → List Text
detach_disk_args id a =
    txt "storageattach"
    ∷ id
    ∷ txt "--storagectl"
    ∷ a.ctl
    ∷ txt "--port"
    ∷ itoa a.port
    ∷ txt "--device"
    ∷ itoa a.device
    ∷ txt "--type"
    ∷ txt "hdd"
    ∷ txt "--medium"
    ∷ txt "none"
    ∷ []

abbrev pub close_medium_delete_args : Text → List Text
close_medium_delete_args uuid = txt "closemedium" ∷ txt "disk" ∷ uuid ∷ txt "--delete" ∷ []

abbrev pub invalid_disk : VmError
invalid_disk = validation (txt "Invalid disk identifier.")

abbrev pub not_found_message : Text
not_found_message = txt "VirtualBox/VBoxManage not discovered."

abbrev pub response : Text → Text → Response
response id message = record { success = true; vm_id = id; message = message }

module _ {W : Type 0} (host : Host W) (svc : Service) (scale : Text → ℕ → Option ℤ) where
  -- The disk as it is, before it is resized.
  unfoldable pub read_medium : Text → Text → Text → M W MediumDetails
  read_medium id path uuid s =
      let (o, t) = run_for_vm host id path (show_medium_info_args uuid) (seconds 10) s in
      (
        if succeeded o
            then ok (parse_medium_details scale o.result.standard_output)
            else err (run_error o (txt "VBoxManage failed while reading the disk before resize")),
        t,
      )

  unfoldable pub resize_disk : Text → Text → ℤ → M W Response
  resize_disk id uuid size = do
    require (is_valid_vm_id id) invalid_vm
    require (is_valid_vm_id uuid) invalid_disk
    require (leb_ℤ (pos 1) size)
        (validation (txt "New disk size must be a positive number of megabytes."))
    path ← or_log svc (resolve_vbox_manage host svc) id (txt "disk.resize") not_found_message
    info ← read_show_vm_info host path id (txt "reading VM state before disk resize")
    require (not (vm_state_is_live (parse_vm_state info)))
        (validation (txt "The VM is running. Power it off before resizing a disk."))
    det ← read_medium id path uuid
    require (disk_resizable det true).0 (validation (disk_resizable det true).1)
    require (ltb_ℤ det.capacity_mb size) (
        validation (
          txt "Disks can only grow. Enter a size larger than the current "
          ++ (itoa det.capacity_mb ++ txt " MB.")))
    or_log svc
        (run_control_command_timeout host id path (resize_disk_args uuid size) (txt "resizing disk")
          (seconds 600))
        id (txt "disk.resize") (txt "VBoxManage modifymedium resize failed.")
    log_operation svc id (txt "disk.resize") true []
    return (
        response id (
          txt "Disk resized to "
          ++ (itoa size ++ txt " MB. Expand the partition inside the guest to use the new space.")))

  -- Only if the file is to go: a disk with snapshots is refused. A failed read lets it pass.
  unfoldable pub refuse_children : Text → Text → Text → M W (Unit {0})
  refuse_children id path uuid s =
      let (o, t) = run_for_vm host id path (show_medium_info_args uuid) (seconds 10) s in
      (
        if succeeded o && (parse_medium_details scale o.result.standard_output).has_children
            then err
                (validation (txt "This disk has snapshots. Delete them before deleting the disk."))
            else ok tt,
        t,
      )

  -- The image is deleted once it is detached.
  unfoldable pub delete_image : Text → Text → Text → M W Response
  delete_image id path uuid = do
    or_log svc
        (run_control_command_timeout host id path (close_medium_delete_args uuid)
          (txt "deleting disk image") (seconds 300))
        id (txt "disk.detach") (txt "VBoxManage closemedium --delete failed.")
    log_operation svc id (txt "disk.detach") true (txt "deleted")
    return (response id (txt "Disk detached and its file permanently deleted."))

  unfoldable pub keep_image : Text → M W Response
  keep_image id = do
    log_operation svc id (txt "disk.detach") true []
    return (
        response id
          (txt "Disk detached from the VM. Its file was kept and can be re-attached later."))

  unfoldable pub detach_at : Text → Text → Text → Bool → Option Attachment → M W Response
  detach_at id path uuid delete_file none =
      fail (validation (txt "That disk is not attached to this VM."))
  detach_at id path uuid delete_file (some a) = do
    if delete_file then refuse_children id path uuid else return tt
    or_log svc (run_control_command host id path (detach_disk_args id a) (txt "detaching disk")) id
        (txt "disk.detach") (txt "VBoxManage storageattach detach failed.")
    if delete_file then delete_image id path uuid else keep_image id

  unfoldable pub detach_disk : Text → Text → Bool → M W Response
  detach_disk id uuid delete_file = do
    require (is_valid_vm_id id) invalid_vm
    require (is_valid_vm_id uuid) invalid_disk
    path ← or_log svc (resolve_vbox_manage host svc) id (txt "disk.detach") not_found_message
    info ← read_show_vm_info host path id (txt "reading VM storage before detaching a disk")
    require (not (vm_state_is_live (parse_vm_state info)))
        (validation (txt "The VM is running. Power it off before detaching a disk."))
    detach_at id path uuid delete_file (find_disk_attachment info uuid)
