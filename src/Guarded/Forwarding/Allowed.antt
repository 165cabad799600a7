-- ===== src/Guarded/Forwarding/Allowed.antt =====
-- What `AddPortForwarding` may run, and behind which reads.
use tab_vm.Service.{Event}
use tab_vm.Service.Run.{show_vm_info_args, show_vm_info_human_args}
use tab_vm.Service.Discover.{version_args}
use tab_vm.Service.Trace.{Policy}
use tab_vm.Ops.PortForwarding.{ForwardingRequest, requested_rule, mode_at, is_port, list_vms_args}
use tab_vm.Ops.PortForwarding.Rules.{
  parse_forwarding_rules, has_host_port, is_plausible_forwarding_name, natpf_add_args, Rule,
  SlotRules, has_rule_named, rules_at, forwarding_rule_spec,
}
use tab_vm.Ops.Network.{is_slot}
use tab_vm.Ops.Network.Adapters.{parse_network_adapters}
use tab_vm.Guarded.{Saw, is_live, Shows}
use tab_vm.VmId.{is_valid_vm_id}
use tab_vm.Prelude.{◌≡◌, ◌⊎◌, [], ◌∷◌, true, Bool, List, All, some, ◌||◌, refl, false, ◌++◌}
use tab_vm.Strings.{Text, txt, is_empty, one_of, trim_space}
use tab_vm.Prelude.Int.{ℤ}
use tab_vm.Strings.Number.{itoa}

-- What the checks before the first command have shown.
abbrev pub Validated : (Text → Bool) → Text → ForwardingRequest → Type 0
Validated is_ip id req =
    (is_valid_vm_id id ≡ true)
    × (is_slot req.slot ≡ true)
    × (one_of (txt "tcp" ∷ txt "udp" ∷ []) (requested_rule req).protocol ≡ true)
    × (is_plausible_forwarding_name (requested_rule req).name ≡ true)
    × (is_port req.host_port ≡ true)
    × (is_port req.guest_port ≡ true)
    × (is_empty (trim_space req.host_ip) || is_ip (trim_space req.host_ip) ≡ true)
    × (is_empty (trim_space req.guest_ip) || is_ip (trim_space req.guest_ip) ≡ true)

-- The rule's name is taken on the adapter, or its host port on the machine.
abbrev pub Conflict : ℤ → Rule → SlotRules → Type 0
Conflict slot r rs =
    (has_rule_named r.name (rules_at slot rs) ≡ true)
    ⊎ (has_host_port r.host_port r.protocol rs ≡ true)

-- No successful read of the machine's rules showed a conflict.
abbrev pub NoConflict : Text → ℤ → Rule → List Event → Type 0
NoConflict id slot r es =
    All
      (λ e.
        Shows (show_vm_info_human_args id) (λ out. Conflict slot r (parse_forwarding_rules out)) e
        → ⊥)
      es

-- The state that selects the form of the command, and the adapter in NAT mode.
abbrev pub NatAt : ℤ → Bool → Text → Type 0
NatAt slot live info =
    (is_live info ≡ live) × (mode_at slot (parse_network_adapters info) ≡ some (txt "nat"))

-- The command for a live machine and that for a stopped one.
abbrev pub add_form : Text → ℤ → Text → Bool → List Text
add_form id slot spec true = txt "controlvm" ∷ id ∷ (txt "natpf" ++ itoa slot) ∷ spec ∷ []
add_form id slot spec false = txt "modifyvm" ∷ id ∷ (txt "--natpf" ++ itoa slot) ∷ spec ∷ []

pub natpf_add_args-add_form :
    (id : Text) (slot : ℤ) (r : Rule) (live : Bool)
    → natpf_add_args id slot r live ≡ add_form id slot (forwarding_rule_spec r) live
unfolding natpf_add_args
natpf_add_args-add_form id slot r true = refl
natpf_add_args-add_form id slot r false = refl

abbrev pub AddPolicy : (Text → Bool) → Text → ForwardingRequest → Policy
AddPolicy is_ip id req e before =
    (e.args ≡ version_args)
    ⊎ ((e.args ≡ show_vm_info_args id)
        ⊎ ((e.args ≡ list_vms_args)
            ⊎ (((vm : Text) × (e.args ≡ show_vm_info_human_args vm))
                ⊎ (Validated is_ip id req
                    × NoConflict id req.slot (requested_rule req) before
                    × ((live : Bool) × (e.args
                          ≡ add_form id req.slot (forwarding_rule_spec (requested_rule req)) live)
                        × Saw (NatAt req.slot live) id before)))))
