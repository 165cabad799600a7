-- ===== src/Guarded/Clipboard.antt =====
-- Setting the clipboard mode.
use tab_vm.Service.{Host, Service, State}
use tab_vm.Service.Trace.{Safe, IsSafe, IsSafe-issued, Policy, Captured, Allows}
use tab_vm.Service.Trace.Rules.{
  after_require, after_resolve, after_read, after_command, log_and_return,
}
use tab_vm.Service.Run.{show_vm_info_args}
use tab_vm.Service.Discover.{version_args}
use tab_vm.Ops.Clipboard.{
  clipboard_modes, set_clipboard_args, set_clipboard_control_args, set_clipboard_modify_args,
  set_clipboard_mode,
}
use tab_vm.Guarded.{Saw, Stopped, Live, Captured-Saw, is_live}
use tab_vm.VmId.{is_valid_vm_id}
use tab_vm.Prelude.{◌≡◌, ◌⊎◌, refl, inl, inr, [], true, Bool-cases}
use tab_vm.Strings.{Text, one_of, to_lower, trim_space}

-- The change at run time of a machine that was seen live, the change of the settings of one that was
-- seen not to be; the mode one of the four.
abbrev pub ClipboardPolicy : Text → Text → Policy
ClipboardPolicy id mode e before =
    (e.args ≡ version_args)
    ⊎ ((e.args ≡ show_vm_info_args id)
        ⊎ ((is_valid_vm_id id ≡ true)
            × (one_of clipboard_modes mode ≡ true)
            × (((e.args ≡ set_clipboard_control_args id mode) × Saw Live id before)
                ⊎ ((e.args ≡ set_clipboard_modify_args id mode) × Saw Stopped id before))))

module _ {W : Type 0} (host : Host W) (svc : Service) (id mode : Text) where
  abbrev normalized : Text
  normalized = to_lower (trim_space mode)

  abbrev P : Policy
  P = ClipboardPolicy id normalized

  allowed :
      (info : Text) (s t : State W)
      → is_valid_vm_id id ≡ true
      → one_of clipboard_modes normalized ≡ true
      → Captured host P (show_vm_info_args id) s info t
      → Allows host P (set_clipboard_args (is_live info) id normalized) t
  unfolding set_clipboard_args
  allowed info s t valid known read o = elim (Bool-cases (is_live info)) [
    | inl live ↦
        inr (inr (valid, known, inl (rw live refl, Captured-Saw host P s t Live read live)))
    | inr stopped ↦
        inr
          (inr (valid, known, inr (rw stopped refl, Captured-Saw host P s t Stopped read stopped)))
  ]

  set_clipboard_mode-IsSafe :
      (s : State W) → Safe P s.issued → IsSafe P (set_clipboard_mode host svc id mode s)
  unfolding set_clipboard_mode
  set_clipboard_mode-IsSafe s safe = after_require P s safe _ _ _ (λ valid.
      after_require P s safe _ _ _ (λ known.
        after_resolve P s safe host svc (λ o b. inl refl) _ _ _ _
          (λ path t safe1.
            after_read P t safe1 host svc _ _ _ _ (λ o. inr (inl refl))
              (λ info u read.
                after_command P u read.3 host svc _ _ _ _ _ _ _ _
                  (allowed info t u valid known read)
                  (λ x o newest safe3. log_and_return P x safe3 host svc _ _ _ _ _)))))

-- Whatever the host answers, `SetClipboardMode` passes to VBoxManage only one of the four modes, for
-- a well-formed identifier: by `controlvm` only behind a read, in the same call, that showed the
-- machine live, by `modifyvm` only behind one that showed it not live; besides, it runs only
-- `--version` and that read.
pub set_clipboard_mode_guarded :
    {W : Type 0} (host : Host W) (svc : Service) (id mode : Text) (s : State W)
    → s.issued ≡ []
    → Safe
        (ClipboardPolicy id (to_lower (trim_space mode)))
        (set_clipboard_mode host svc id mode s).1.issued
set_clipboard_mode_guarded host svc id mode s h =
    IsSafe-issued (P host svc id mode) (set_clipboard_mode host svc id mode s)
      (set_clipboard_mode-IsSafe host svc id mode s (rw h tt))
