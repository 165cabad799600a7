-- ===== src/Guarded/Network.antt =====
-- Changing the mode and the cable of an adapter, and deleting a rule of port forwarding.
use tab_vm.Service.{Host, Service, State}
use tab_vm.Service.Trace.{Safe, IsSafe, IsSafe-issued, Policy}
use tab_vm.Service.Trace.Rules.{
  after_require, after_resolve, after_read, after_command, log_and_return,
}
use tab_vm.Ops.Network.{
  network_modes, is_plausible_host_interface, needs_interface, interface_for, is_slot, nic_args,
  link_args, change_network_mode, set_link_state, controlvm_nic_args, set_link_state_args,
  modifyvm_nic_args, modify_link_state_args,
}
use tab_vm.Ops.PortForwarding.{delete_port_forwarding}
use tab_vm.Ops.PortForwarding.Rules.{is_plausible_forwarding_name, natpf_delete_args}
use tab_vm.Guarded.{EitherPolicy, NoReads, Captured-Seen, Seen-Allows}
use tab_vm.Prelude.{◌≡◌, refl, inl, inr, [], true, Bool, List, ◌||◌, not, ◌∷◌, ◌++◌}
use tab_vm.Strings.{Text, one_of, to_lower, trim_space, txt}
use tab_vm.Prelude.Int.{ℤ}
use tab_vm.Strings.Number.{itoa}

-- A change that is one of the two forms of a command, for a slot from 1 to 8.
abbrev pub SlotChange : ℤ → List Text → List Text → Type 0
SlotChange slot form args = (args ≡ form) × (is_slot slot ≡ true)

-- The mode is one of the three, and an interface that it needs has a plausible name.
abbrev pub ModeChange : ℤ → Text → Text → List Text → List Text → Type 0
ModeChange slot mode adapter form args =
    (args ≡ form)
    × (is_slot slot ≡ true)
    × (one_of network_modes mode ≡ true)
    × (not (needs_interface mode) || is_plausible_host_interface adapter ≡ true)

abbrev pub ModePolicy : Text → ℤ → Text → Text → Policy
ModePolicy id slot mode adapter =
    EitherPolicy NoReads (ModeChange slot mode adapter (controlvm_nic_args id slot mode adapter))
      (ModeChange slot mode adapter (modifyvm_nic_args id slot mode adapter)) id

abbrev pub LinkPolicy : Text → ℤ → Bool → Policy
LinkPolicy id slot connected =
    EitherPolicy NoReads (SlotChange slot (set_link_state_args id slot connected))
      (SlotChange slot (modify_link_state_args id slot connected)) id

-- The rule is named by a plausible name.
abbrev pub NamedChange : ℤ → Text → List Text → List Text → Type 0
NamedChange slot name form args =
    (args ≡ form) × (is_slot slot ≡ true) × (is_plausible_forwarding_name name ≡ true)

-- The command for a live machine and that for a stopped one.
abbrev pub delete_live_args : Text → ℤ → Text → List Text
delete_live_args id slot name =
    txt "controlvm" ∷ id ∷ (txt "natpf" ++ itoa slot) ∷ txt "delete" ∷ name ∷ []

abbrev pub delete_stopped_args : Text → ℤ → Text → List Text
delete_stopped_args id slot name =
    txt "modifyvm" ∷ id ∷ (txt "--natpf" ++ itoa slot) ∷ txt "delete" ∷ name ∷ []

abbrev pub RemovePolicy : Text → ℤ → Text → Policy
RemovePolicy id slot name =
    EitherPolicy NoReads (NamedChange slot name (delete_live_args id slot name))
      (NamedChange slot name (delete_stopped_args id slot name)) id

module _ {W : Type 0} (host : Host W) (svc : Service) (id : Text) (slot : ℤ) where
  change_network_mode-IsSafe :
      (raw_mode raw_adapter : Text) (s : State W)
      → Safe
          (ModePolicy id slot
            (to_lower (trim_space raw_mode))
            (interface_for (to_lower (trim_space raw_mode)) (trim_space raw_adapter)))
          s.issued
      → IsSafe
          (ModePolicy id slot
            (to_lower (trim_space raw_mode))
            (interface_for (to_lower (trim_space raw_mode)) (trim_space raw_adapter)))
          (change_network_mode host svc id slot raw_mode raw_adapter s)
  unfolding change_network_mode
  change_network_mode-IsSafe raw_mode raw_adapter s safe =
      let mode = to_lower (trim_space raw_mode) in
      let adapter = interface_for mode (trim_space raw_adapter) in
      let P = ModePolicy id slot mode adapter in
      after_require P s safe _ _ _ (λ valid. after_require P s safe _ _ _ (λ in_range.
        after_require P s safe _ _ _ (λ known. after_require P s safe _ _ _ (λ _.
          after_require P s safe _ _ _ (λ plausible.
            after_resolve P s safe host svc (λ o b. inl refl) _ _ _ _
              (λ path t safe1.
                after_read P t safe1 host svc _ _ _ _ (λ o. inr (inl refl))
                  (λ info u read.
                    after_command P u read.3 host svc _ _ _ _ _ _ _ _
                      (Seen-Allows host NoReads
                        (ModeChange slot mode adapter (controlvm_nic_args id slot mode adapter))
                        (ModeChange slot mode adapter (modifyvm_nic_args id slot mode adapter)) id
                        info (nic_args id slot mode adapter) u valid
                        (refl, in_range, known, plausible) (refl, in_range, known, plausible)
                        (Captured-Seen host P id info t u read))
                      (λ v o newest safe2. log_and_return P v safe2 host svc _ _ _ _ _))))))))

  set_link_state-IsSafe :
      (connected : Bool) (s : State W)
      → Safe (LinkPolicy id slot connected) s.issued
      → IsSafe (LinkPolicy id slot connected) (set_link_state host svc id slot connected s)
  unfolding set_link_state
  set_link_state-IsSafe connected s safe =
      let P = LinkPolicy id slot connected in
      after_require P s safe _ _ _ (λ valid. after_require P s safe _ _ _ (λ in_range.
        after_resolve P s safe host svc (λ o b. inl refl) _ _ _ _
          (λ path t safe1.
            after_read P t safe1 host svc _ _ _ _ (λ o. inr (inl refl))
              (λ info u read.
                after_command P u read.3 host svc _ _ _ _ _ _ _ _
                  (Seen-Allows host NoReads
                    (SlotChange slot (set_link_state_args id slot connected))
                    (SlotChange slot (modify_link_state_args id slot connected)) id info
                    (link_args id slot connected) u valid (refl, in_range) (refl, in_range)
                    (Captured-Seen host P id info t u read))
                  (λ v o newest safe2. log_and_return P v safe2 host svc _ _ _ _ _)))))

  delete_port_forwarding-IsSafe :
      (quote : Text → Text) (name : Text) (s : State W)
      → Safe (RemovePolicy id slot (trim_space name)) s.issued
      → IsSafe
          (RemovePolicy id slot (trim_space name))
          (delete_port_forwarding host svc quote id slot name s)
  unfolding delete_port_forwarding natpf_delete_args
  delete_port_forwarding-IsSafe quote name s safe =
      let P = RemovePolicy id slot (trim_space name) in
      after_require P s safe _ _ _ (λ valid. after_require P s safe _ _ _ (λ in_range.
        after_require P s safe _ _ _ (λ plausible.
          after_resolve P s safe host svc (λ o b. inl refl) _ _ _ _
            (λ path t safe1.
              after_read P t safe1 host svc _ _ _ _ (λ o. inr (inl refl))
                (λ info u read.
                  after_command P u read.3 host svc _ _ _ _ _ _ _ _
                    (Seen-Allows host NoReads
                      (NamedChange slot (trim_space name)
                        (delete_live_args id slot (trim_space name)))
                      (NamedChange slot (trim_space name)
                        (delete_stopped_args id slot (trim_space name)))
                      id info (natpf_delete_args id slot (trim_space name)) u valid
                      (refl, in_range, plausible) (refl, in_range, plausible)
                      (Captured-Seen host P id info t u read))
                    (λ v o newest safe2. log_and_return P v safe2 host svc _ _ _ _ _))))))

-- Whatever the host answers, `ChangeNetworkMode` passes on only a slot from 1 to 8, one of the three
-- modes and, where the mode needs one, a plausible interface, for a well-formed identifier: by
-- `controlvm` only behind a read, in the same call, that showed the machine live, by `modifyvm` only
-- behind one that showed it not live; besides, it runs only `--version` and that read.
pub change_network_mode_guarded :
    {W : Type 0} (host : Host W) (svc : Service) (id : Text) (slot : ℤ) (mode adapter : Text)
    (s : State W)
    → s.issued ≡ []
    → Safe
        (ModePolicy id slot
          (to_lower (trim_space mode))
          (interface_for (to_lower (trim_space mode)) (trim_space adapter)))
        (change_network_mode host svc id slot mode adapter s).1.issued
change_network_mode_guarded host svc id slot mode adapter s h =
    IsSafe-issued _ (change_network_mode host svc id slot mode adapter s)
      (change_network_mode-IsSafe host svc id slot mode adapter s (rw h tt))

-- Whatever the host answers, `SetLinkState` plugs or unplugs only a slot from 1 to 8, for a
-- well-formed identifier: by `controlvm` only behind a read, in the same call, that showed the machine
-- live, by `modifyvm` only behind one that showed it not live; besides, only `--version` and that read.
pub set_link_state_guarded :
    {W : Type 0} (host : Host W) (svc : Service) (id : Text) (slot : ℤ) (connected : Bool)
    (s : State W)
    → s.issued ≡ []
    → Safe (LinkPolicy id slot connected) (set_link_state host svc id slot connected s).1.issued
set_link_state_guarded host svc id slot connected s h =
    IsSafe-issued _ (set_link_state host svc id slot connected s)
      (set_link_state-IsSafe host svc id slot connected s (rw h tt))

-- Whatever the host answers, `DeletePortForwarding` passes on only a slot from 1 to 8 and a plausible
-- name, for a well-formed identifier: by `controlvm` only behind a read, in the same call, that showed
-- the machine live, by `modifyvm` only behind one that showed it not live; besides, it runs only
-- `--version` and that read.
pub delete_port_forwarding_guarded :
    {W : Type 0} (host : Host W) (svc : Service) (quote : Text → Text) (id : Text) (slot : ℤ)
    (name : Text) (s : State W)
    → s.issued ≡ []
    → Safe
        (RemovePolicy id slot (trim_space name))
        (delete_port_forwarding host svc quote id slot name s).1.issued
delete_port_forwarding_guarded host svc quote id slot name s h =
    IsSafe-issued _ (delete_port_forwarding host svc quote id slot name s)
      (delete_port_forwarding-IsSafe host svc id slot quote name s (rw h tt))
