-- ===== src/Ops/Network.antt =====
-- Network adapters: network.go.
pub mod Adapters
use tab_vm.Service.{
  validation, Host, Service, State, M, ◌>>=◌, ◌>>◌, and_then, return, require, Response, invalid_vm,
  VmResult,
}
use tab_vm.Service.Run.{
  read_show_vm_info, read_show_vm_info_human, run_control_command, log_operation, or_log, seconds,
  exec_optional, optional,
}
use tab_vm.Service.Discover.{resolve_vbox_manage}
use tab_vm.Parse.{parse_vm_state, vm_state_is_live}
use tab_vm.Ops.Network.Adapters.{NetworkAdapter, parse_network_adapters, parse_host_interface_names}
use tab_vm.Ops.Snapshot.{starts_with_dash, has_control}
use tab_vm.VmId.{is_valid_vm_id}
use tab_vm.Strings.{Text, txt, text_eq, is_empty, one_of, to_lower, trim_space}
use tab_vm.Strings.Number.{itoa}
use tab_vm.Prelude.{
  ltb, if◌then◌else◌, length, Bool, true, false, not, ◌&&◌, ◌||◌, Option, List, [], ◌∷◌, ◌++◌, none,
  some,
}
use tab_vm.Prelude.Int.{ℤ, leb_ℤ, pos}

abbrev pub network_modes : List Text
network_modes = txt "nat" ∷ txt "bridged" ∷ txt "hostonly" ∷ []

unfoldable pub is_plausible_host_interface : Text → Bool
is_plausible_host_interface name =
    not (is_empty name || (ltb 256 (length name) || starts_with_dash name))
    && not (has_control false name)

unfoldable pub network_mode_label : Text → Text
network_mode_label mode =
    if text_eq mode (txt "nat")
    then txt "NAT"
    else if text_eq mode (txt "bridged")
    then txt "bridged"
    else if text_eq mode (txt "hostonly")
    then txt "host-only"
    else mode

abbrev pub unless_blank : Text → List Text
unless_blank adapter = if is_empty adapter then [] else adapter ∷ []

unfoldable pub controlvm_nic_args : Text → ℤ → Text → Text → List Text
controlvm_nic_args id slot mode adapter =
    txt "controlvm" ∷ id ∷ (txt "nic" ++ itoa slot) ∷ mode ∷ unless_blank adapter

unfoldable pub modifyvm_nic_args : Text → ℤ → Text → Text → List Text
modifyvm_nic_args id slot mode adapter =
    txt "modifyvm"
    ∷ id
    ∷ (txt "--nic" ++ itoa slot)
    ∷ mode
    ∷ (if text_eq mode (txt "bridged")
        then (txt "--bridgeadapter" ++ itoa slot) ∷ adapter ∷ []
        else if text_eq mode (txt "hostonly")
        then (txt "--hostonlyadapter" ++ itoa slot) ∷ adapter ∷ []
        else [])

abbrev pub nic_args : Text → ℤ → Text → Text → Bool → List Text
nic_args id slot mode adapter true = controlvm_nic_args id slot mode adapter
nic_args id slot mode adapter false = modifyvm_nic_args id slot mode adapter

abbrev pub on_off : Bool → Text
on_off connected = if connected then txt "on" else txt "off"

unfoldable pub set_link_state_args : Text → ℤ → Bool → List Text
set_link_state_args id slot connected =
    txt "controlvm" ∷ id ∷ (txt "setlinkstate" ++ itoa slot) ∷ on_off connected ∷ []

unfoldable pub modify_link_state_args : Text → ℤ → Bool → List Text
modify_link_state_args id slot connected =
    txt "modifyvm" ∷ id ∷ (txt "--cableconnected" ++ itoa slot) ∷ on_off connected ∷ []

abbrev pub link_args : Text → ℤ → Bool → Bool → List Text
link_args id slot connected true = set_link_state_args id slot connected
link_args id slot connected false = modify_link_state_args id slot connected

abbrev pub is_slot : ℤ → Bool
is_slot slot = leb_ℤ (pos 1) slot && leb_ℤ slot (pos 8)

-- The adapter is needed for two of the modes, and dropped for the third.
abbrev pub needs_interface : Text → Bool
needs_interface mode = text_eq mode (txt "bridged") || text_eq mode (txt "hostonly")

abbrev pub interface_for : Text → Text → Text
interface_for mode adapter = if needs_interface mode then adapter else []

abbrev pub bad_slot : Text
bad_slot = txt "Network adapter slot must be between 1 and 8."

-- `Adapter <slot>` and the rest of a message.
unfoldable pub adapter_message : ℤ → Text → Text
adapter_message slot rest = txt "Adapter " ++ (itoa slot ++ rest)

unfoldable pub mode_message : ℤ → Text → Text → Text
mode_message slot mode adapter = adapter_message slot (
    txt " switched to "
    ++ (network_mode_label mode
        ++ (if is_empty adapter then txt "." else txt " (" ++ (adapter ++ txt ")."))))

abbrev pub list_args : Text → List Text
list_args kind = txt "list" ∷ kind ∷ []

abbrev pub named_interfaces : Option Text → List Text
named_interfaces none = []
named_interfaces (some output) = parse_host_interface_names output

module _ {W : Type 0} (host : Host W) (svc : Service) where
  unfoldable pub list_host_interfaces : Text → Text → M W (List Text)
  list_host_interfaces path kind = do
    out ← exec_optional host path (list_args kind) (seconds 10)
    return (named_interfaces out)

  unfoldable pub change_network_mode : Text → ℤ → Text → Text → M W Response
  change_network_mode id slot raw_mode raw_adapter = do
    require (is_valid_vm_id id) invalid_vm
    require (is_slot slot) (validation bad_slot)
    let mode = to_lower (trim_space raw_mode)
    let adapter = interface_for mode (trim_space raw_adapter)
    require (one_of network_modes mode)
        (validation (txt "Network mode must be one of: nat, bridged, hostonly."))
    require (not (needs_interface mode && is_empty adapter))
        (validation (txt "A host interface is required for bridged and host-only modes."))
    require (not (needs_interface mode) || is_plausible_host_interface adapter)
        (validation (txt "Host interface name contains unsupported characters."))
    path ←
        or_log svc (resolve_vbox_manage host svc) id (txt "network.mode")
          (txt "VirtualBox/VBoxManage not discovered.")
    info ← read_show_vm_info host path id (txt "reading VM state for network change")
    or_log svc
        (run_control_command host id path
          (nic_args id slot mode adapter (vm_state_is_live (parse_vm_state info)))
          (txt "changing network mode"))
        id (txt "network.mode") (txt "VBoxManage network mode change failed.")
    log_operation svc id (txt "network.mode") true []
    return (record { success = true; vm_id = id; message = mode_message slot mode adapter })

  unfoldable pub set_link_state : Text → ℤ → Bool → M W Response
  set_link_state id slot connected = do
    require (is_valid_vm_id id) invalid_vm
    require (is_slot slot) (validation bad_slot)
    path ←
        or_log svc (resolve_vbox_manage host svc) id (txt "network.link")
          (txt "VirtualBox/VBoxManage not discovered.")
    info ← read_show_vm_info host path id (txt "reading VM state for network link change")
    or_log svc
        (run_control_command host id path
          (link_args id slot connected (vm_state_is_live (parse_vm_state info)))
          (txt "changing network link state"))
        id (txt "network.link") (txt "VBoxManage network link change failed.")
    log_operation svc id (txt "network.link") true []
    return (record {
      success = true;
      vm_id = id;
      message =
          adapter_message slot
            (if connected then txt " cable connected." else txt " cable disconnected.");
    })
