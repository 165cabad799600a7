-- ===== src/Ops/DeleteVm.antt =====
-- `DeleteVM` of deletevm.go.
use tab_vm.Service.{
  validation, Host, Service, M, ◌>>=◌, ◌>>◌, return, require, Response, invalid_vm,
}
use tab_vm.Service.Run.{read_show_vm_info, log_operation, or_log, seconds, run_plain}
use tab_vm.Service.Discover.{resolve_vbox_manage}
use tab_vm.Parse.{parse_vm_state, vm_state_is_live}
use tab_vm.VmId.{is_valid_vm_id}
use tab_vm.Strings.{Text, txt}
use tab_vm.Prelude.{not, List, ◌∷◌, [], true}

abbrev pub unregister_vm_args : Text → List Text
unregister_vm_args id = txt "unregistervm" ∷ id ∷ txt "--delete" ∷ []

module _ {W : Type 0} (host : Host W) (svc : Service) where
  unfoldable pub delete_vm : Text → M W Response
  delete_vm id = do
    require (is_valid_vm_id id) invalid_vm
    path ←
        or_log svc (resolve_vbox_manage host svc) id (txt "vm.delete")
          (txt "VirtualBox/VBoxManage not discovered.")
    info ← read_show_vm_info host path id (txt "reading VM state before delete")
    require (not (vm_state_is_live (parse_vm_state info)))
        (validation (txt "The VM is running. Power it off before deleting it."))
    or_log svc
        (run_plain host id path (unregister_vm_args id) (seconds 300)
          (txt "VBoxManage unregistervm failed"))
        id (txt "vm.delete") (txt "VBoxManage unregistervm failed.")
    log_operation svc id (txt "vm.delete") true []
    return (record {
      success = true;
      vm_id = id;
      message = txt "VM deleted. Its disks and configuration files were removed.";
    })
