-- ===== src/Tests/Network.antt =====
-- Networks, port forwarding and USB devices.
use tab_vm.Tests.Scripted.{scripted, service, begin, vm1, disk1, version_line, printed}
use tab_vm.Strings.{Text, txt, text_eq, one_of, to_lower, trim_space}
use tab_vm.Strings.Search.{contains, any_byte}
use tab_vm.Prelude.Int.{pos}
use tab_vm.Prelude.{◌≡◌, refl, Bool, true, false, some, List, [], ◌∷◌, ◌++◌}
use tab_vm.Service.{Outcome}
use tab_vm.Service.Trace.{Safe}
use tab_vm.Ops.PortForwarding.{
  ForwardingRequest, delete_port_forwarding, add_port_forwarding, requested_rule,
}
use tab_vm.Ops.PortForwarding.RoundTrip.{Commaless, read_spec}
use tab_vm.VmId.{is_valid_vm_id}
use tab_vm.Guarded.{GuardedPolicy, NoReads, Live}
use tab_vm.Guarded.Network.{
  ModePolicy, LinkPolicy, RemovePolicy, set_link_state_guarded, delete_port_forwarding_guarded,
  change_network_mode_guarded,
}
use tab_vm.Guarded.Forwarding.{add_port_forwarding_guarded}
use tab_vm.Strings.Laws.{text_eq_sound}
use tab_vm.Ops.PortForwarding.Rules.{forwarding_rule_spec, is_plausible_forwarding_name}
use tab_vm.Ops.Network.{interface_for, set_link_state, change_network_mode}
use tab_vm.Guarded.Usb.{UsbChange, usb_action_guarded}
use tab_vm.Guarded.Forwarding.RoundTrip.{read_spec-requested_rule}
use tab_vm.Ops.Usb.{usb_action}
use tab_vm.Ops.Snapshot.{starts_with_dash, has_control, is_control}
use tab_vm.Guarded.Forwarding.Allowed.{AddPolicy, Validated}

-- A running machine whose first adapter is in NAT mode.
abbrev nat_info : Outcome
nat_info =
    printed (
      txt "VMState=\"running\"\nnic1=\"nat\"\nmacaddress1=\"080027AABBCC\"\ncableconnected1=\"on\"")

abbrev rule_lines : Outcome
rule_lines = printed (
    txt
      "NIC 1 Rule(0):   name = web, protocol = tcp, host ip = 127.0.0.1, host port = 8080, guest ip = , guest port = 80")

abbrev live_script : List Outcome
live_script = version_line ∷ nat_info ∷ printed [] ∷ []

usb_action_guarded_example :
    Safe
      (GuardedPolicy NoReads (UsbChange vm1 disk1 true) Live vm1)
      (usb_action scripted service vm1 disk1 true (begin live_script)).1.issued
usb_action_guarded_example =
    usb_action_guarded scripted service vm1 disk1 true (begin live_script) refl

change_network_mode_guarded_example :
    Safe
      (ModePolicy vm1
        (pos 1)
        (to_lower (trim_space (txt " Bridged")))
        (interface_for (to_lower (trim_space (txt " Bridged"))) (trim_space (txt "eth0"))))
      (change_network_mode scripted service vm1
        (pos 1)
        (txt " Bridged")
        (txt "eth0")
        (begin live_script)).1.issued
change_network_mode_guarded_example =
    change_network_mode_guarded scripted service vm1 (pos 1) (txt " Bridged") (txt "eth0")
      (begin live_script) refl

set_link_state_guarded_example :
    Safe
      (LinkPolicy vm1 (pos 1) false)
      (set_link_state scripted service vm1 (pos 1) false (begin live_script)).1.issued
set_link_state_guarded_example =
    set_link_state_guarded scripted service vm1 (pos 1) false (begin live_script) refl

-- Quotes around the text.
abbrev quoted : Text → Text
quoted t = txt "\"" ++ (t ++ txt "\"")

delete_port_forwarding_guarded_example :
    Safe
      (RemovePolicy vm1 (pos 1) (trim_space (txt "web")))
      (delete_port_forwarding scripted service quoted vm1
        (pos 1)
        (txt "web")
        (begin live_script)).1.issued
delete_port_forwarding_guarded_example =
    delete_port_forwarding_guarded scripted service quoted vm1 (pos 1) (txt "web")
      (begin live_script) refl

-- One address only.
abbrev lan_ip : Text → Bool
lan_ip t = text_eq t (txt "10.0.2.15")

abbrev ssh_request : ForwardingRequest
ssh_request = record {
  slot = pos 1;
  name = txt "ssh";
  protocol = txt "TCP";
  host_ip = [];
  host_port = pos 2222;
  guest_ip = txt "10.0.2.15";
  guest_port = pos 22;
}

abbrev add_script : List Outcome
add_script = version_line ∷ nat_info ∷ rule_lines ∷ printed [] ∷ printed [] ∷ []

add_port_forwarding_guarded_example :
    Safe
      (AddPolicy lan_ip vm1 ssh_request)
      (add_port_forwarding scripted service quoted lan_ip vm1 ssh_request
        (begin add_script)).1.issued
add_port_forwarding_guarded_example =
    add_port_forwarding_guarded scripted service quoted lan_ip vm1 ssh_request (begin add_script)
      refl

lan_ip-Commaless : (t : Text) → lan_ip t ≡ true → Commaless t
unfolding any_byte txt
lan_ip-Commaless t h = rw (text_eq_sound t (txt "10.0.2.15") h) refl

ssh_request-Validated : Validated lan_ip vm1 ssh_request
unfolding is_valid_vm_id requested_rule one_of text_eq trim_space to_lower txt
    is_plausible_forwarding_name contains starts_with_dash has_control is_control
ssh_request-Validated = (refl, refl, refl, refl, refl, refl, refl, refl)

read_spec-requested_rule_example :
    read_spec (forwarding_rule_spec (requested_rule ssh_request))
    ≡ some (requested_rule ssh_request)
read_spec-requested_rule_example =
    read_spec-requested_rule lan_ip vm1 ssh_request lan_ip-Commaless ssh_request-Validated
