-- ===== src/Guarded/DeleteVm.antt =====
-- Deleting a machine.
use tab_vm.Service.{Host, Service, State}
use tab_vm.Service.Trace.{Safe, IsSafe, IsSafe-issued, Policy}
use tab_vm.Service.Trace.Rules.{
  after_require, after_resolve, after_read, after_plain, log_and_return,
}
use tab_vm.Ops.DeleteVm.{unregister_vm_args, delete_vm}
use tab_vm.Guarded.{StoppedPolicy, NoReads, Captured-SawStopped}
use tab_vm.Strings.{Text}
use tab_vm.Prelude.{◌≡◌, refl, inl, inr, not-true, []}

module _ {W : Type 0} (host : Host W) (svc : Service) (id : Text) where
  abbrev P : Policy
  P = StoppedPolicy NoReads (λ args. args ≡ unregister_vm_args id) id

  delete_vm-IsSafe : (s : State W) → Safe P s.issued → IsSafe P (delete_vm host svc id s)
  unfolding delete_vm
  delete_vm-IsSafe s safe = after_require P s safe _ _ _ (λ valid.
      after_resolve P s safe host svc (λ o b. inl refl) _ _ _ _
        (λ path t safe1.
          after_read P t safe1 host svc _ _ _ _ (λ o. inr (inl refl))
            (λ info u read.
              let safe2 = read.3 in
              after_require P u safe2 _ _ _ (λ stopped.
                after_plain P u safe2 host svc _ _ _ _ _ _ _ _ _
                  (λ o. inr (
                    inr
                      (inr (refl, valid, Captured-SawStopped host P t u read (not-true stopped)))))
                  (λ v o newest safe3. log_and_return P v safe3 host svc _ _ _ _ _)))))

-- Whatever the host answers, `DeleteVM` runs `unregistervm` only for a well-formed identifier and
-- only behind a read of that machine's settings, in the same call, which succeeded and reported a
-- state that is not live; besides, it runs only `--version` and that read.
pub delete_vm_guarded :
    {W : Type 0} (host : Host W) (svc : Service) (id : Text) (s : State W)
    → s.issued ≡ []
    → Safe
        (StoppedPolicy NoReads (λ args. args ≡ unregister_vm_args id) id)
        (delete_vm host svc id s).1.issued
delete_vm_guarded host svc id s h =
    IsSafe-issued (P host svc id) (delete_vm host svc id s)
      (delete_vm-IsSafe host svc id s (rw h tt))
