-- ===== src/Ops/Snapshot.antt =====
-- Snapshots: snapshot.go without `RestoreSnapshot`.
-- The parameter `quote` stands for the format `%q`.
use tab_vm.Service.{
  validation, VmResult, ok, err, Outcome, Host, Service, M, ◌>>=◌, ◌>>◌, return, require, Response,
  invalid_vm,
}
use tab_vm.Service.Run.{run_for_vm, run_plain, checked, log_operation, or_log, seconds}
use tab_vm.Service.Discover.{resolve_vbox_manage}
use tab_vm.Parse.Snapshots.{Snapshot, parse_snapshots}
use tab_vm.VmId.{is_valid_vm_id}
use tab_vm.Strings.{Text, txt, is_empty, trim_space}
use tab_vm.Strings.Search.{contains}
use tab_vm.Prelude.{
  ltb, ◌==◌, if◌then◌else◌, length, ℕ, Bool, true, false, not, ◌&&◌, ◌||◌, List, [], ◌∷◌, ◌++◌,
}

abbrev pub snapshot_list_args : Text → List Text
snapshot_list_args id = txt "snapshot" ∷ id ∷ txt "list" ∷ txt "--machinereadable" ∷ []

unfoldable pub snapshot_take_args : Text → Text → Text → List Text
snapshot_take_args id name description =
    txt "snapshot"
    ∷ id
    ∷ txt "take"
    ∷ trim_space name
    ∷ (if is_empty (trim_space description) then [] else txt "--description" ∷ description ∷ [])

abbrev pub snapshot_delete_args : Text → Text → List Text
snapshot_delete_args id snapshot = txt "snapshot" ∷ id ∷ txt "delete" ∷ snapshot ∷ []

-- A control character; `text` says whether line feeds and tabs are allowed.
unfoldable pub is_control : Bool → ℕ → Bool
is_control text c = (ltb c 32 && not (text && (c == 10 || c == 9))) || c == 127

unfoldable pub has_control : Bool → Text → Bool
has_control text [] = false
has_control text (c ∷ s) = is_control text c || has_control text s

unfoldable pub starts_with_dash : Text → Bool
starts_with_dash [] = false
starts_with_dash (c ∷ s) = c == b'-'

unfoldable pub validate_snapshot_name : {W : Type 0} → Text → M W (Unit {0})
validate_snapshot_name name = do
  require
      (not (
        is_empty (trim_space name)
        || ltb 100 (length (trim_space name))
        || starts_with_dash (trim_space name)))
      (validation (txt "Snapshot name must be 1-100 characters and cannot start with a dash."))
  require (not (has_control false (trim_space name)))
      (validation (txt "Snapshot name contains unsupported characters."))

unfoldable pub validate_snapshot_description : {W : Type 0} → Text → M W (Unit {0})
validate_snapshot_description description = do
  require (not (ltb 512 (length description)))
      (validation (txt "Snapshot description must be 512 characters or fewer."))
  require (not (has_control true description))
      (validation (txt "Snapshot description contains unsupported characters."))

-- What VBoxManage prints, with an exit code other than 0, for a machine without snapshots.
unfoldable pub says_no_snapshots : Outcome → Bool
says_no_snapshots o =
    contains o.result.standard_output (txt "does not have any snapshots")
    || contains o.result.standard_error (txt "does not have any snapshots")

abbrev pub parsed : VmResult Text → VmResult (List Snapshot × Text)
parsed (ok out) = ok (parse_snapshots out)
parsed (err e) = err e

unfoldable pub snapshots_of_outcome : Outcome → VmResult (List Snapshot × Text)
snapshots_of_outcome o =
    if says_no_snapshots o then ok ([], []) else parsed (checked (txt "listing snapshots") o)

module _ {W : Type 0} (host : Host W) (svc : Service) (quote : Text → Text) where
  unfoldable pub read_snapshots : Text → Text → M W (List Snapshot × Text)
  read_snapshots id path s =
      let (o, t) = run_for_vm host id path (snapshot_list_args id) (seconds 15) s in
      (snapshots_of_outcome o, t)

  unfoldable pub list_snapshots : Text → M W (List Snapshot × Text)
  list_snapshots id = do
    require (is_valid_vm_id id) invalid_vm
    path ← resolve_vbox_manage host svc
    read_snapshots id path

  unfoldable pub take_snapshot : Text → Text → Text → M W Response
  take_snapshot id name description = do
    require (is_valid_vm_id id) invalid_vm
    validate_snapshot_name name
    validate_snapshot_description description
    path ←
        or_log svc (resolve_vbox_manage host svc) id (txt "snapshot.take")
          (txt "VirtualBox/VBoxManage not discovered.")
    or_log svc
        (run_plain host id path (snapshot_take_args id name description) (seconds 180)
          (txt "VBoxManage snapshot take failed"))
        id (txt "snapshot.take") (txt "VBoxManage snapshot take failed.")
    log_operation svc id (txt "snapshot.take") true []
    return (record {
      success = true;
      vm_id = id;
      message = txt "Snapshot " ++ (quote (trim_space name) ++ txt " created.");
    })

  unfoldable pub delete_snapshot : Text → Text → M W Response
  delete_snapshot id snapshot = do
    require (is_valid_vm_id id) invalid_vm
    require (is_valid_vm_id snapshot) (validation (txt "Invalid snapshot identifier."))
    path ←
        or_log svc (resolve_vbox_manage host svc) id (txt "snapshot.delete")
          (txt "VirtualBox/VBoxManage not discovered.")
    or_log svc
        (run_plain host id path (snapshot_delete_args id snapshot) (seconds 300)
          (txt "VBoxManage snapshot delete failed"))
        id (txt "snapshot.delete") (txt "VBoxManage snapshot delete failed.")
    log_operation svc id (txt "snapshot.delete") true []
    return (record { success = true; vm_id = id; message = txt "Snapshot deleted." })
