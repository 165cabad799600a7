-- ===== src/Ops/PortForwarding.antt =====
-- Port forwarding: portforwarding.go, and `NetworkOptions` of network.go, which reads the rules too.
-- The parameter `is_ip` stands for `net.ParseIP(…) != nil`, and `quote` for the format `%q`.
pub mod Rules
pub mod RoundTrip
use tab_vm.Service.{
  validation, VmError, Host, Service, State, M, ◌>>=◌, ◌>>◌, and_then, return, require, Response,
  invalid_vm, VmResult,
}
use tab_vm.Service.Run.{
  read_show_vm_info, read_show_vm_info_human, run_control_command, log_operation, or_log, seconds,
  exec_optional, optional,
}
use tab_vm.Service.Discover.{resolve_vbox_manage}
use tab_vm.Parse.{parse_vm_state, vm_state_is_live}
use tab_vm.Parse.VmList.{VmInfo, parse_list_vms_output}
use tab_vm.Ops.Network.{is_slot, bad_slot, adapter_message, list_host_interfaces}
use tab_vm.Ops.Network.Adapters.{NetworkAdapter, parse_network_adapters}
use tab_vm.Ops.PortForwarding.Rules.{
  Rule, SlotRules, parse_forwarding_rules, rules_at, has_rule_named, has_host_port,
  is_plausible_forwarding_name, natpf_add_args, natpf_delete_args,
}
use tab_vm.VmId.{is_valid_vm_id}
use tab_vm.Strings.{Text, txt, text_eq, is_empty, one_of, to_lower, equal_fold, trim_space}
use tab_vm.Prelude.{
  if◌then◌else◌, Bool, false, ◌&&◌, ◌||◌, Option, none, some, List, [], ◌∷◌, true, not, ◌++◌,
}
use tab_vm.Prelude.Int.{ℤ, leb_ℤ, eqb_ℤ, pos}
use tab_vm.Strings.Number.{itoa}

pub record NetworkOptions : Type 0 where
  pub adapters : List (NetworkAdapter × List Rule)
  pub bridged_adapters : List Text
  pub host_only_adapters : List Text

pub record ForwardingRequest : Type 0 where
  pub slot : ℤ
  pub name : Text
  pub protocol : Text
  pub host_ip : Text
  pub host_port : ℤ
  pub guest_ip : Text
  pub guest_port : ℤ

abbrev pub known_rules : Option Text → SlotRules
known_rules none = []
known_rules (some human) = parse_forwarding_rules human

unfoldable pub with_rules : SlotRules → List NetworkAdapter → List (NetworkAdapter × List Rule)
with_rules rs [] = []
with_rules rs (a ∷ as') = (a, rules_at (pos a.slot) rs) ∷ with_rules rs as'

abbrev pub is_port : ℤ → Bool
is_port n = leb_ℤ (pos 1) n && leb_ℤ n (pos 65535)

abbrev pub bad_name : Text
bad_name =
    txt "Rule name must be 1-64 characters, cannot contain a comma, and cannot start with a dash."

-- No host address is the loopback one.
abbrev pub host_ip_of : Text → Text
host_ip_of ip = if is_empty ip then txt "127.0.0.1" else ip

-- The rule that a request asks for.
unfoldable pub requested_rule : ForwardingRequest → Rule
requested_rule req = record {
  name = trim_space req.name;
  protocol = to_lower (trim_space req.protocol);
  host_ip = host_ip_of (trim_space req.host_ip);
  host_port = req.host_port;
  guest_ip = trim_space req.guest_ip;
  guest_port = req.guest_port;
}

-- The mode of the first adapter with this slot.
unfoldable pub mode_at : ℤ → List NetworkAdapter → Option Text
mode_at slot [] = none
mode_at slot (a ∷ rest) = if eqb_ℤ (pos a.slot) slot then some a.mode else mode_at slot rest

unfoldable pub port_message : Rule → Text → Text
port_message r rest = txt "Host port " ++ (itoa r.host_port ++ (b'/' ∷ r.protocol ++ rest))

unfoldable pub added_message : ℤ → Rule → Text
added_message slot r =
    txt "Forwarding "
    ++ (r.host_ip
        ++ (b':' ∷ itoa r.host_port
            ++ (txt " -> guest:"
                ++ (itoa r.guest_port ++ (txt " added on adapter " ++ (itoa slot ++ txt "."))))))

abbrev pub listed_vms : Option Text → List VmInfo
listed_vms none = []
listed_vms (some output) = parse_list_vms_output output

abbrev pub list_vms_args : List Text
list_vms_args = txt "list" ∷ txt "vms" ∷ []

module _ {W : Type 0} where
  -- The checks before anything is run, in their order.
  unfoldable pub validate_forwarding : (Text → Bool) → Text → ForwardingRequest → M W (Unit {0})
  validate_forwarding is_ip id req = do
    require (is_valid_vm_id id) invalid_vm
    require (is_slot req.slot) (validation bad_slot)
    require (one_of (txt "tcp" ∷ txt "udp" ∷ []) (requested_rule req).protocol)
        (validation (txt "Protocol must be tcp or udp."))
    require (is_plausible_forwarding_name (requested_rule req).name) (validation bad_name)
    require (is_port req.host_port) (validation (txt "Host port must be between 1 and 65535."))
    require (is_port req.guest_port) (validation (txt "Guest port must be between 1 and 65535."))
    require (is_empty (trim_space req.host_ip) || is_ip (trim_space req.host_ip))
        (validation (txt "Host IP is not a valid IP address."))
    require (is_empty (trim_space req.guest_ip) || is_ip (trim_space req.guest_ip))
        (validation (txt "Guest IP is not a valid IP address."))

  -- The adapter is enabled, and in NAT mode.
  unfoldable pub check_nat : ℤ → Option Text → M W (Unit {0})
  check_nat slot none =
      λ s. require false (validation (adapter_message slot (txt " is not enabled on this VM."))) s
  check_nat slot (some mode) = require (text_eq mode (txt "nat")) (
      validation (adapter_message slot (txt " must be in NAT mode to add a port-forwarding rule.")))

module _ {W : Type 0} (host : Host W) (svc : Service) (quote : Text → Text) where
  unfoldable pub network_options : Text → M W NetworkOptions
  network_options id = do
    require (is_valid_vm_id id) invalid_vm
    path ← resolve_vbox_manage host svc
    info ← read_show_vm_info host path id (txt "reading network adapters")
    human ← optional (read_show_vm_info_human host path id (txt "reading port forwarding rules"))
    bridged ← list_host_interfaces host svc path (txt "bridgedifs")
    hostonly ← list_host_interfaces host svc path (txt "hostonlyifs")
    return (record {
      adapters = with_rules (known_rules human) (parse_network_adapters info);
      bridged_adapters = bridged;
      host_only_adapters = hostonly;
    })

  -- The name of the first of the machines that forwards the port, or no text.
  unfoldable pub forwarded_by : Text → Text → Text → ℤ → List VmInfo → M W Text
  forwarded_by path exclude proto port [] = return []
  forwarded_by path exclude proto port (vm ∷ vms) =
      let rest = forwarded_by path exclude proto port vms in
      let look = do
        human ← optional (
            read_show_vm_info_human host path vm.id
              (txt "reading port forwarding rules of another VM"))
        if has_host_port port proto (known_rules human) then return vm.name else rest
      in if is_empty vm.id || equal_fold vm.id exclude then rest else look

  unfoldable pub host_port_forwarded_by_other_vm : Text → Text → Text → ℤ → M W Text
  host_port_forwarded_by_other_vm path exclude proto port = do
    out ← exec_optional host path list_vms_args (seconds 10)
    forwarded_by path exclude proto port (listed_vms out)

  -- The read of the rules may fail, which is logged.
  unfoldable pub note_unread : Text → Option Text → M W (Unit {0})
  note_unread id (some human) = return tt
  note_unread id none =
      log_operation svc id (txt "network.forwarding.add") false (
        txt
          "Could not read current rules; local uniqueness checks skipped (relying on VBoxManage).")

  -- The rule's name is new on the adapter, and its host port on the host.
  unfoldable pub check_unique : Text → Text → ℤ → Rule → M W (Unit {0})
  check_unique id path slot rule = do
    human ←
        optional
          (read_show_vm_info_human host path id (txt "reading existing port forwarding rules"))
    note_unread id human
    require (not (has_rule_named rule.name (rules_at slot (known_rules human)))) (
        validation
          (adapter_message slot (txt " already has a rule named " ++ (quote rule.name ++ txt "."))))
    require (not (has_host_port rule.host_port rule.protocol (known_rules human)))
        (validation (port_message rule (txt " is already forwarded on this VM.")))
    owner ← host_port_forwarded_by_other_vm path id rule.protocol rule.host_port
    require (is_empty owner) (
        validation
          (port_message rule (txt " is already forwarded by VM " ++ (quote owner ++ txt "."))))

  unfoldable pub add_port_forwarding : (Text → Bool) → Text → ForwardingRequest → M W Response
  add_port_forwarding is_ip id req = do
    validate_forwarding is_ip id req
    path ←
        or_log svc (resolve_vbox_manage host svc) id (txt "network.forwarding.add")
          (txt "VirtualBox/VBoxManage not discovered.")
    info ← read_show_vm_info host path id (txt "reading VM state for port forwarding")
    check_nat req.slot (mode_at req.slot (parse_network_adapters info))
    check_unique id path req.slot (requested_rule req)
    or_log svc
        (run_control_command host id path
          (natpf_add_args id req.slot (requested_rule req) (vm_state_is_live (parse_vm_state info)))
          (txt "adding port forwarding rule"))
        id (txt "network.forwarding.add") (txt "VBoxManage port forwarding add failed.")
    log_operation svc id (txt "network.forwarding.add") true []
    return (record {
      success = true;
      vm_id = id;
      message = added_message req.slot (requested_rule req);
    })

  unfoldable pub delete_port_forwarding : Text → ℤ → Text → M W Response
  delete_port_forwarding id slot name = do
    require (is_valid_vm_id id) invalid_vm
    require (is_slot slot) (validation bad_slot)
    require (is_plausible_forwarding_name (trim_space name)) (validation bad_name)
    path ←
        or_log svc (resolve_vbox_manage host svc) id (txt "network.forwarding.delete")
          (txt "VirtualBox/VBoxManage not discovered.")
    info ← read_show_vm_info host path id (txt "reading VM state for port forwarding removal")
    or_log svc
        (run_control_command host id path
          (natpf_delete_args id slot (trim_space name) (vm_state_is_live (parse_vm_state info)))
          (txt "removing port forwarding rule"))
        id (txt "network.forwarding.delete") (txt "VBoxManage port forwarding remove failed.")
    log_operation svc id (txt "network.forwarding.delete") true []
    return (record {
      success = true;
      vm_id = id;
      message =
          txt "Forwarding rule "
          ++ (quote (trim_space name) ++ (txt " removed from adapter " ++ (itoa slot ++ txt ".")));
    })
