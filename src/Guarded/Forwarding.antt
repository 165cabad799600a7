-- ===== src/Guarded/Forwarding.antt =====
-- Adding a rule of port forwarding.
pub mod Allowed
mod Checks
pub mod RoundTrip
use tab_vm.Service.{Event, Host, Service, State, Outcome, and_then}
use tab_vm.Service.Run.{
  show_vm_info_args, show_vm_info_human_args, succeeded, optional, attempted, log_operation,
  read_show_vm_info_human, run_capture, checked, seconds, run_for_vm, exec_optional,
}
use tab_vm.Service.Discover.{version_args}
use tab_vm.Service.Trace.{
  Policy, Safe, Post, event, Ran, return-Post, Post-bind, run_for_vm-Ran, refused, IsSafe,
  IsSafe-issued, ran, exec-Ran,
}
use tab_vm.Ops.PortForwarding.{
  ForwardingRequest, requested_rule, mode_at, is_port, list_vms_args, validate_forwarding,
  check_nat, known_rules, note_unread, forwarded_by, host_port_forwarded_by_other_vm, check_unique,
  add_port_forwarding,
}
use tab_vm.Ops.PortForwarding.Rules.{
  parse_forwarding_rules, has_host_port, is_plausible_forwarding_name, natpf_add_args, Rule,
  SlotRules, has_rule_named, rules_at,
}
use tab_vm.Ops.Network.{is_slot}
use tab_vm.Ops.Network.Adapters.{parse_network_adapters}
use tab_vm.Guarded.{Saw, is_live, Shows, subst, Captured-Saw}
use tab_vm.VmId.{is_valid_vm_id}
use tab_vm.Prelude.{
  ◌≡◌, ◌⊎◌, [], ◌∷◌, true, Bool, List, All, some, ◌||◌, refl, ap, Option, none, Bool-cases, sym,
  ◌∙◌, inl, inr, false, not-true,
}
use tab_vm.Strings.{Text, txt, is_empty, one_of, trim_space, equal_fold, to_lower}
use tab_vm.Prelude.Int.{ℤ}
use tab_vm.Service.Trace.Reads.{require_first, require_last}
use mathlib.Core.Bool.{false≢true}
use tab_vm.Strings.Laws.{text_eq_sound, text_eq_refl}
use tab_vm.Parse.VmList.{VmInfo}
use tab_vm.Service.Trace.Probe.{Probing, Probing-All, Probing-Safe, after_probe}
use tab_vm.Service.Trace.Rules.{after_read, after_command, log_and_return}
use tab_vm.Guarded.Forwarding.Allowed.{
  AddPolicy, Validated, Conflict, NatAt, natpf_add_args-add_form,
}
use tab_vm.Guarded.Forwarding.Checks.{
  Clear, validate_forwarding-Post, version_not_human, check_nat-Post, Kept, machine_not_human,
  check_unique-Post,
}

module _ {W : Type 0} (host : Host W) (svc : Service) (quote : Text → Text) (is_ip : Text → Bool)
    (id : Text) (req : ForwardingRequest) where
  abbrev P : Policy
  P = AddPolicy is_ip id req

  probed : (e : Event) (before : List Event) → e.args ≡ version_args → P e before
  probed e before same_args = inl same_args

  probes_kept : (es : List Event) → Safe Probing es → Clear host svc quote is_ip id req es
  probes_kept =
      Probing-All
        (λ e.
          Shows (show_vm_info_human_args id)
            (λ out. Conflict req.slot (requested_rule req) (parse_forwarding_rules out)) e
          → ⊥)
        (λ e same_args shows. version_not_human id (sym same_args ∙ shows.0))

  add_port_forwarding-IsSafe :
      (s : State W)
      → Safe Probing s.issued
      → IsSafe P (add_port_forwarding host svc quote is_ip id req s)
  unfolding add_port_forwarding
  add_port_forwarding-IsSafe s safe =
      Post-bind P _ _ (λ _ t. Validated is_ip id req × (t ≡ s)) _
        (validate_forwarding-Post host svc quote is_ip id req s
          (Probing-Safe P probed s.issued safe))
        (λ _ r (valid, still).
          after_probe P probed r (subst (λ x. Safe Probing x.issued) (sym still) safe) host svc _ _
            _ _
            (λ path t safe1.
              after_read P t (Probing-Safe P probed t.issued safe1) host svc _ _ _ _
                (λ o. inr (inl refl))
                (λ info u read.
                  Post-bind P _ _
                    (λ _ v.
                      (mode_at req.slot (parse_network_adapters info) ≡ some (txt "nat")) × (v ≡ u))
                    _
                    (check_nat-Post host svc quote is_ip id req
                      (mode_at req.slot (parse_network_adapters info)) u read.3)
                    (λ _ v (nat, still1).
                      let kept : Kept host svc quote is_ip id req (is_live info) u.issued = (
                        read.3,
                        rw read.1.0 (
                          (λ shows. machine_not_human id id shows.0),
                          probes_kept t.issued safe1,
                        ),
                        Captured-Saw host P t u (NatAt req.slot (is_live info)) read (refl, nat),
                      ) in
                      Post-bind P _ _
                        (λ _ w. Kept host svc quote is_ip id req (is_live info) w.issued) _
                        (check_unique-Post host svc quote is_ip id req (is_live info) path v (
                          subst (λ x. Kept host svc quote is_ip id req (is_live info) x.issued)
                            (sym still1) kept))
                        (λ _ w kept1.
                          after_command P w kept1.0 host svc _ _ _ _ _ _ _ _
                            (λ o. inr (
                              inr (
                                inr (
                                  inr (
                                    valid,
                                    kept1.1,
                                    (
                                      is_live info,
                                      natpf_add_args-add_form id req.slot (requested_rule req)
                                          (is_live info),
                                      kept1.2,
                                    ),
                                  )))))
                            (λ x o newest safe2. log_and_return P x safe2 host svc _ _ _ _ _))))))

-- Whatever the host answers, `AddPortForwarding` adds the requested rule only if the request is valid
-- (identifier, slot, protocol, name, ports, addresses), only behind a read of the machine's settings,
-- in the same call, which succeeded and showed the adapter in NAT mode, by `controlvm` or `modifyvm` as
-- that read showed the machine live or not, and only if no successful read of the machine's rules in
-- the call showed the rule's name on the adapter or its host port and protocol. Besides, it runs only
-- `--version` and reads.
pub add_port_forwarding_guarded :
    {W : Type 0} (host : Host W) (svc : Service) (quote : Text → Text) (is_ip : Text → Bool)
    (id : Text) (req : ForwardingRequest) (s : State W)
    → s.issued ≡ []
    → Safe (AddPolicy is_ip id req) (add_port_forwarding host svc quote is_ip id req s).1.issued
add_port_forwarding_guarded host svc quote is_ip id req s h =
    IsSafe-issued (P host svc quote is_ip id req)
      (add_port_forwarding host svc quote is_ip id req s)
      (add_port_forwarding-IsSafe host svc quote is_ip id req s (rw h tt))
