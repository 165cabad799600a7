-- ===== src/Guarded/Lifecycle/Save.antt =====
-- Saving the state of a machine.
use tab_vm.Service.{Host, Service, State}
use tab_vm.Service.Run.{show_vm_info_args}
use tab_vm.Service.Trace.{
  Safe, IsSafe, IsSafe-issued, Policy, Post-bind, Captured, log_failure-Post,
  read_show_vm_info-Post,
}
use tab_vm.Service.Trace.Rules.{
  after_require, after_resolve, log_last, after_reported, after_logged_require,
}
use tab_vm.Ops.Lifecycle.{save_state_args, save_state}
use tab_vm.Guarded.{GuardedPolicy, Live, NoReads, Captured-Saw}
use tab_vm.Prelude.{◌≡◌, refl, inl, inr, []}
use tab_vm.Strings.{Text}

module _ {W : Type 0} (host : Host W) (svc : Service) (id : Text) where
  abbrev P : Policy
  P = GuardedPolicy NoReads (λ args. args ≡ save_state_args id) Live id

  save_state-IsSafe : (s : State W) → Safe P s.issued → IsSafe P (save_state host svc id s)
  unfolding save_state
  save_state-IsSafe s safe = after_require P s safe _ _ _ (λ valid.
      after_resolve P s safe host svc (λ o b. inl refl) _ _ _ _
        (λ path t safe1.
          Post-bind P _ _ (Captured host P (show_vm_info_args id) t) _
            (log_failure-Post P svc id _ _ _ _
              (read_show_vm_info-Post host P path id _ t (λ o. inr (inl refl)) safe1))
            (λ info u read. after_logged_require P u read.3 svc _ _ _ _ _ _ (λ live.
              after_reported P u read.3 host svc _ _ _ _ _ _ _ _
                (λ o. inr (inr (inr (refl, valid, Captured-Saw host P t u Live read live))))
                (λ v o newest safe2. log_last P v svc _ _ _ _ safe2)))))

-- Whatever the host answers, `SaveState` runs `savestate` only for a well-formed identifier and only
-- behind a read of that machine's settings, in the same call, which succeeded and reported a live
-- state; besides, it runs only `--version` and that read.
pub save_state_guarded :
    {W : Type 0} (host : Host W) (svc : Service) (id : Text) (s : State W)
    → s.issued ≡ []
    → Safe
        (GuardedPolicy NoReads (λ args. args ≡ save_state_args id) Live id)
        (save_state host svc id s).1.issued
save_state_guarded host svc id s h =
    IsSafe-issued (P host svc id) (save_state host svc id s)
      (save_state-IsSafe host svc id s (rw h tt))
