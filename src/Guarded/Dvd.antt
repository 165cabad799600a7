-- ===== src/Guarded/Dvd.antt =====
-- Ejecting a disc.
use tab_vm.Strings.{Text, txt, is_empty}
use tab_vm.Prelude.{
  ◌≡◌, ◌⊎◌, true, false, Option, none, some, Bool-cases, refl, sym, ap, inl, inr, [],
}
use tab_vm.Ops.Dvd.{
  eject_dvd, OpticalDrive, parse_optical_drive, storage_attach_dvd_medium_args, eject_from,
  eject_loaded, already_empty,
}
use tab_vm.Service.Trace.{Policy, Post, Safe, IsSafe, IsSafe-issued, Post-bind, Captured}
use tab_vm.Service.{Host, Service, State}
use tab_vm.Service.Discover.{version_args}
use tab_vm.Service.Run.{show_vm_info_human_args}
use tab_vm.VmId.{is_valid_vm_id}
use tab_vm.Guarded.{SawOutput}
use tab_vm.Service.Trace.Rules.{log_and_return, after_require, after_command, after_resolve}
use tab_vm.Service.Trace.Reads.{read_show_vm_info_human-Post}

-- The first optical drive of the human-readable settings is this one.
abbrev pub HasDrive : OpticalDrive → Text → Type 0
HasDrive d out = parse_optical_drive out ≡ some d

abbrev pub EjectPolicy : Text → Policy
EjectPolicy id e before =
    (e.args ≡ version_args)
    ⊎ ((e.args ≡ show_vm_info_human_args id)
        ⊎ ((is_valid_vm_id id ≡ true)
            × ((d : OpticalDrive) × (e.args
                  ≡ storage_attach_dvd_medium_args id d.controller d.port d.device
                      (txt "emptydrive"))
                × (is_empty d.medium ≡ false)
                × SawOutput (show_vm_info_human_args id) (HasDrive d) before)))

module _ {W : Type 0} (host : Host W) (svc : Service) (id : Text)
    (valid : is_valid_vm_id id ≡ true) where
  abbrev P : Policy
  P = EjectPolicy id

  eject_from-IsSafe :
      (path out : Text) (found : Option OpticalDrive) (s : State W)
      → Safe P s.issued
      → SawOutput (show_vm_info_human_args id) (λ x. parse_optical_drive x ≡ found) s.issued
      → IsSafe P (eject_from host svc path id found s)
  unfolding eject_from eject_loaded already_empty Post
  eject_from-IsSafe path out none s safe saw = safe
  eject_from-IsSafe path out (some d) s safe saw = elim (Bool-cases (is_empty d.medium)) [
    | inl empty ↦ rw empty (log_and_return P s safe host svc _ _ _ _ _)
    | inr loaded ↦ rw loaded (
        after_command P s safe host svc _ _ _ _ _ _ _ _
          (λ o. inr (inr (valid, (d, refl, loaded, saw))))
          (λ x o newest safe1. log_and_return P x safe1 host svc _ _ _ _ _))
  ]

module _ {W : Type 0} (host : Host W) (svc : Service) (id : Text) where
  eject_dvd-IsSafe :
      (s : State W)
      → Safe (EjectPolicy id) s.issued
      → IsSafe (EjectPolicy id) (eject_dvd host svc id s)
  unfolding eject_dvd
  eject_dvd-IsSafe s safe =
      let P = EjectPolicy id in
      after_require P s safe _ _ _ (λ valid.
        after_resolve P s safe host svc (λ o b. inl refl) _ _ _ _
          (λ path t safe1.
            Post-bind P _ _ (Captured host P (show_vm_info_human_args id) t) _
              (read_show_vm_info_human-Post P t host path id _ safe1 (λ o. inr (inl refl)))
              (λ human u (o, newest, same, safe2).
                eject_from-IsSafe host svc id valid path human (parse_optical_drive human) u safe2
                  (rw newest.0 (inl (refl, newest.1, sym (ap parse_optical_drive same)))))))

-- Whatever the host answers, `EjectDvd` empties only the drive that a successful read of the machine, in the
-- same call, listed as its first optical one and showed to have a medium, for a well-formed identifier;
-- besides, it runs only `--version` and that read.
pub eject_dvd_guarded :
    {W : Type 0} (host : Host W) (svc : Service) (id : Text) (s : State W)
    → s.issued ≡ []
    → Safe (EjectPolicy id) (eject_dvd host svc id s).1.issued
eject_dvd_guarded host svc id s h =
    IsSafe-issued (EjectPolicy id) (eject_dvd host svc id s)
      (eject_dvd-IsSafe host svc id s (rw h tt))
