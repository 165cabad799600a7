-- ===== src/Guarded/Forwarding/Checks.antt =====
-- The checks of `AddPortForwarding` between its commands.
use tab_vm.Service.{Event, Host, Service, State, Outcome, and_then}
use tab_vm.Service.Run.{
  show_vm_info_args, show_vm_info_human_args, succeeded, optional, attempted, log_operation,
  read_show_vm_info_human, run_capture, checked, seconds, run_for_vm, exec_optional,
}
use tab_vm.Service.Discover.{version_args}
use tab_vm.Service.Trace.{
  Policy, Safe, Post, event, Ran, return-Post, Post-bind, run_for_vm-Ran, refused, ran, exec-Ran,
}
use tab_vm.Ops.PortForwarding.{
  ForwardingRequest, requested_rule, list_vms_args, validate_forwarding, check_nat, known_rules,
  note_unread, forwarded_by, host_port_forwarded_by_other_vm, check_unique,
}
use tab_vm.Ops.PortForwarding.Rules.{has_host_port, has_rule_named, rules_at}
use tab_vm.Guarded.{Saw, subst}
use tab_vm.Prelude.{
  ◌≡◌, [], ◌∷◌, true, Bool, List, some, ◌||◌, refl, ap, Option, none, Bool-cases, sym, ◌∙◌, inl,
  inr, false, not-true,
}
use tab_vm.Strings.{Text, txt, is_empty, equal_fold, to_lower}
use tab_vm.Prelude.Int.{ℤ}
use tab_vm.Service.Trace.Reads.{require_first, require_last}
use mathlib.Core.Bool.{false≢true}
use tab_vm.Strings.Laws.{text_eq_sound, text_eq_refl}
use tab_vm.Parse.VmList.{VmInfo}
use tab_vm.Guarded.Forwarding.Allowed.{AddPolicy, NoConflict, Validated, NatAt, Conflict}

-- Other reads are no reads of the rules.
pub machine_not_human : (id vm : Text) → show_vm_info_args id ≡ show_vm_info_human_args vm → ⊥
machine_not_human id vm h = cc

pub list_not_human : (vm : Text) → list_vms_args ≡ show_vm_info_human_args vm → ⊥
unfolding txt
list_not_human vm h = cc

pub version_not_human : (vm : Text) → version_args ≡ show_vm_info_human_args vm → ⊥
version_not_human vm h = cc

human-injective : (vm id : Text) → show_vm_info_human_args vm ≡ show_vm_info_human_args id → vm ≡ id
human-injective vm id h = cc

module _ {W : Type 0} (host : Host W) (svc : Service) (quote : Text → Text) (is_ip : Text → Bool)
    (id : Text) (req : ForwardingRequest) where
  abbrev pub P : Policy
  P = AddPolicy is_ip id req

  abbrev pub Clear : List Event → Type 0
  Clear es = NoConflict id req.slot (requested_rule req) es

  pub validate_forwarding-Post :
      (s : State W)
      → Safe P s.issued
      → Post P (λ _ t. Validated is_ip id req × (t ≡ s)) (validate_forwarding is_ip id req s)
  unfolding validate_forwarding
  validate_forwarding-Post s safe = require_first P _ _ s _ _ safe (λ v0.
      require_first P _ _ s _ _ safe (λ v1. require_first P _ _ s _ _ safe (λ v2.
        require_first P _ _ s _ _ safe (λ v3. require_first P _ _ s _ _ safe (λ v4.
          require_first P _ _ s _ _ safe (λ v5. require_first P _ _ s _ _ safe (λ v6.
            require_last P _ _ s _ safe (λ v7. ((v0, v1, v2, v3, v4, v5, v6, v7), refl)))))))))

  pub check_nat-Post :
      (mode : Option Text) (s : State W)
      → Safe P s.issued
      → Post P (λ _ t. (mode ≡ some (txt "nat")) × (t ≡ s)) (check_nat req.slot mode s)
  unfolding check_nat
  check_nat-Post none s safe = require_last P _ _ s _ safe (λ h. absurd (false≢true h))
  check_nat-Post (some mode) s safe =
      require_last P _ _ s _ safe (λ h. (ap some (text_eq_sound mode (txt "nat") h), refl))

  -- What holds between the read of the settings and the change.
  abbrev pub Kept : Bool → List Event → Type 0
  Kept live es = Safe P es × Clear es × Saw (NatAt req.slot live) id es

  -- A read that is no read of this machine's rules keeps it.
  Ran-Kept :
      (live : Bool) (args : List Text) (s t : State W) (o : Outcome)
      → ((o : Outcome) → P (event args o) s.issued)
      → (args ≡ show_vm_info_human_args id → ⊥)
      → Ran args s t o
      → Kept live s.issued
      → Kept live t.issued
  Ran-Kept live args s t o allowed apart (refused same failed) kept = rw same kept
  Ran-Kept live args s t o allowed apart (ran same) (safe, clear, saw) =
      rw same ((allowed o, safe), ((λ shows. apart shows.0), clear), inr saw)

  -- Behind the read of this machine's rules: as before, if they are free of conflicts.
  abbrev pub Unless : Bool → Option Text → State W → Type 0
  Unless live human t =
      Safe P t.issued
      × Saw (NatAt req.slot live) id t.issued
      × ((Conflict req.slot (requested_rule req) (known_rules human) → ⊥) → Clear t.issued)

  Ran-read :
      (live : Bool) (s t : State W) (o : Outcome)
      → succeeded o ≡ true
      → Ran (show_vm_info_human_args id) s t o
      → Kept live s.issued
      → Unless live (some o.result.standard_output) t
  Ran-read live s t o good (refused same failed) kept = absurd (false≢true (sym failed ∙ good))
  Ran-read live s t o good (ran same) (safe, clear, saw) = rw same (
    (inr (inr (inr (inl (id, refl)))), safe),
    inr saw,
    (λ free. ((λ shows. free shows.2), clear)),
  )

  Ran-unread :
      (live : Bool) (s t : State W) (o : Outcome)
      → succeeded o ≡ false
      → Ran (show_vm_info_human_args id) s t o
      → Kept live s.issued
      → Unless live none t
  Ran-unread live s t o bad (refused same failed) (safe, clear, saw) =
      rw same (safe, saw, (λ free. clear))
  Ran-unread live s t o bad (ran same) (safe, clear, saw) = rw same (
    (inr (inr (inr (inl (id, refl)))), safe),
    inr saw,
    (λ free. ((λ shows. false≢true (sym bad ∙ shows.1)), clear)),
  )

  read_own-Post :
      (live : Bool) (path description : Text) (s : State W)
      → Kept live s.issued
      → Post P (Unless live) (optional (read_show_vm_info_human host path id description) s)
  unfolding optional attempted read_show_vm_info_human run_capture checked Post
  read_own-Post live path description s kept =
      let r = run_for_vm-Ran host id path (show_vm_info_human_args id) (seconds 10) s in
      elim (Bool-cases
        (succeeded (run_for_vm host id path (show_vm_info_human_args id) (seconds 10) s).0)) [
          | inl good ↦ rw good (Ran-read live s _ _ good r kept)
          | inr bad ↦ rw bad (Ran-unread live s _ _ bad r kept)
        ]

  read_other-Post :
      (live : Bool) (path vm description : Text) (s : State W)
      → (vm ≡ id → ⊥)
      → Kept live s.issued
      → Post P
          (λ _ t. Kept live t.issued)
          (optional (read_show_vm_info_human host path vm description) s)
  unfolding optional attempted read_show_vm_info_human run_capture checked Post
  read_other-Post live path vm description s apart kept =
      let r = run_for_vm-Ran host vm path (show_vm_info_human_args vm) (seconds 10) s in
      let after =
        Ran-Kept live (show_vm_info_human_args vm) s _ _ (λ o. inr (inr (inr (inl (vm, refl)))))
          (λ h. apart (human-injective vm id h)) r kept in
      elim (Bool-cases
        (succeeded (run_for_vm host vm path (show_vm_info_human_args vm) (seconds 10) s).0)) [
          | inl good ↦ rw good after
          | inr bad ↦ rw bad after
        ]

  note_unread-Post :
      (human : Option Text) (s : State W)
      → Post P (λ _ t. t.issued ≡ s.issued) (note_unread host svc quote id human s)
  unfolding note_unread log_operation Post
  note_unread-Post (some human) s = refl
  note_unread-Post none s = elim (Bool-cases svc.has_store) [
    | inl stored ↦ simp stored
    | inr no_store ↦ simp no_store
  ]

  apart_of : (vm : Text) → is_empty vm || equal_fold vm id ≡ false → vm ≡ id → ⊥
  unfolding equal_fold
  apart_of vm h e = false≢true (
      sym h
      ∙ rw e (elim (Bool-cases (is_empty id)) [
        | inl blank ↦ rw blank refl
        | inr named ↦ rw named (text_eq_refl (to_lower id))
      ]))

  forwarded_by-Post :
      (live : Bool) (path proto : Text) (port : ℤ) (vms : List VmInfo) (s : State W)
      → Kept live s.issued
      → Post P (λ _ t. Kept live t.issued) (forwarded_by host svc quote path id proto port vms s)
  unfolding forwarded_by
  forwarded_by-Post live path proto port [] s kept =
      return-Post P [] (λ _ t. Kept live t.issued) s kept
  forwarded_by-Post live path proto port (vm ∷ vms) s kept =
      let rest = forwarded_by-Post live path proto port vms in
      elim (Bool-cases (is_empty vm.id || equal_fold vm.id id)) [
        | inl skipped ↦ rw skipped (rest s kept)
        | inr other ↦ rw other (
            Post-bind P _ _ (λ _ t. Kept live t.issued) _
              (read_other-Post live path vm.id _ s (apart_of vm.id other) kept)
              (λ human t kept1. elim (Bool-cases (has_host_port port proto (known_rules human))) [
                | inl taken ↦ rw taken (return-Post P vm.name (λ _ t. Kept live t.issued) t kept1)
                | inr free ↦ rw free (rest t kept1)
              ]))
      ]

  other_vm-Post :
      (live : Bool) (path proto : Text) (port : ℤ) (s : State W)
      → Kept live s.issued
      → Post P
          (λ _ t. Kept live t.issued)
          (host_port_forwarded_by_other_vm host svc quote path id proto port s)
  unfolding host_port_forwarded_by_other_vm exec_optional and_then
  other_vm-Post live path proto port s kept = forwarded_by-Post live path proto port _ _ (
      Ran-Kept live list_vms_args s _ _ (λ o. inr (inr (inl refl))) (list_not_human id)
        (exec-Ran host path list_vms_args (seconds 10) s) kept)

  none_taken :
      (human : Option Text)
      → has_rule_named (requested_rule req).name (rules_at req.slot (known_rules human)) ≡ false
      → has_host_port
          (requested_rule req).host_port
          (requested_rule req).protocol
          (known_rules human)
        ≡ false
      → Conflict req.slot (requested_rule req) (known_rules human)
      → ⊥
  none_taken human no_name no_port (inl named) = false≢true (sym no_name ∙ named)
  none_taken human no_name no_port (inr taken) = false≢true (sym no_port ∙ taken)

  pub check_unique-Post :
      (live : Bool) (path : Text) (s : State W)
      → Kept live s.issued
      → Post P
          (λ _ t. Kept live t.issued)
          (check_unique host svc quote id path req.slot (requested_rule req) s)
  unfolding check_unique
  check_unique-Post live path s kept =
      Post-bind P _ _ (Unless live) _ (read_own-Post live path _ s kept) (λ human t unless.
        Post-bind P _ _ (λ _ u. u.issued ≡ t.issued) _ (note_unread-Post human t)
          (λ _ u same.
            let safe = subst (Safe P) (sym same) unless.0 in
            require_first P _ _ u _ _ safe (λ no_name. require_first P _ _ u _ _ safe (λ no_port.
              Post-bind P _ _ (λ _ v. Kept live v.issued) _
                (other_vm-Post live path _ _ u (
                  subst (Kept live) (sym same) (
                    unless.0,
                    unless.2 (none_taken human (not-true no_name) (not-true no_port)),
                    unless.1,
                  )))
                (λ owner v kept1. require_last P _ _ v _ kept1.0 (λ _. kept1))))))
