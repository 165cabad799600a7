-- ===== src/Guarded/Hardware.antt =====
-- Changing the processors and the memory of a machine.
use tab_vm.Service.{Host, Service, State, M, and_then}
use tab_vm.Service.Run.{seconds}
use tab_vm.Service.Trace.{Safe, IsSafe, IsSafe-issued, Policy, Ran-Safe, exec-Ran}
use tab_vm.Service.Trace.Rules.{
  after_require, after_resolve, after_read, after_command, log_and_return,
}
use tab_vm.Ops.Hardware.{
  host_info_args, modify_hardware_args, min_vm_memory_mb, read_host_limits, set_vm_hardware,
}
use tab_vm.Guarded.{StoppedPolicy, Captured-SawStopped}
use tab_vm.Prelude.{◌≡◌, refl, inl, inr, not-true, [], true, List}
use tab_vm.Strings.{Text}
use tab_vm.Prelude.Int.{ℤ, leb_ℤ, pos}

-- The change with numbers that are large enough.
abbrev pub HardwareChange : Text → ℤ → ℤ → List Text → Type 0
HardwareChange id cpus memory args =
    (args ≡ modify_hardware_args id cpus memory)
    × (leb_ℤ (pos 1) cpus ≡ true)
    × (leb_ℤ (pos min_vm_memory_mb) memory ≡ true)

module _ {W : Type 0} (host : Host W) (svc : Service) (id : Text) (cpus memory : ℤ) where
  abbrev P : Policy
  P = StoppedPolicy (λ args. args ≡ host_info_args) (HardwareChange id cpus memory) id

  after_limits :
      {B : Type 0} (s : State W) (path : Text) (f : ℤ × ℤ → M W B)
      → Safe P s.issued
      → ((limits : ℤ × ℤ) (t : State W) → Safe P t.issued → IsSafe P (f limits t))
      → IsSafe P (and_then (read_host_limits host svc path s) f)
  unfolding and_then read_host_limits
  after_limits s path f safe k = k _ _ (
      Ran-Safe host P (exec-Ran host path host_info_args (seconds 10) s) (λ o. inr (inr (inl refl)))
        safe)

  set_vm_hardware-IsSafe :
      (s : State W) → Safe P s.issued → IsSafe P (set_vm_hardware host svc id cpus memory s)
  unfolding set_vm_hardware
  set_vm_hardware-IsSafe s safe = after_require P s safe _ _ _ (λ valid.
      after_require P s safe _ _ _ (λ enough_cpus. after_require P s safe _ _ _ (λ enough_memory.
        after_resolve P s safe host svc (λ o b. inl refl) _ _ _ _
          (λ path t safe1. after_limits t path _ safe1 (λ limits v safe2.
            after_require P v safe2 _ _ _ (λ _. after_require P v safe2 _ _ _ (λ _.
              after_read P v safe2 host svc _ _ _ _ (λ o. inr (inl refl))
                (λ info u read.
                  let safe3 = read.3 in
                  after_require P u safe3 _ _ _ (λ stopped.
                    after_command P u safe3 host svc _ _ _ _ _ _ _ _
                      (λ o. inr (
                        inr (
                          inr (
                            (refl, enough_cpus, enough_memory),
                            valid,
                            Captured-SawStopped host P v u read (not-true stopped),
                          ))))
                      (λ x o newest safe4. log_and_return P x safe4 host svc _ _ _ _ _))))))))))

-- Whatever the host answers, `SetVmHardware` runs `modifyvm` only for a well-formed identifier, only
-- with at least one processor and 128 MB, and only behind a read of that machine's settings, in the
-- same call, which succeeded and reported a state that is not live; besides, it runs only
-- `--version`, `list hostinfo` and that read.
pub set_vm_hardware_guarded :
    {W : Type 0} (host : Host W) (svc : Service) (id : Text) (cpus memory : ℤ) (s : State W)
    → s.issued ≡ []
    → Safe
        (StoppedPolicy (λ args. args ≡ host_info_args) (HardwareChange id cpus memory) id)
        (set_vm_hardware host svc id cpus memory s).1.issued
set_vm_hardware_guarded host svc id cpus memory s h =
    IsSafe-issued (P host svc id cpus memory) (set_vm_hardware host svc id cpus memory s)
      (set_vm_hardware-IsSafe host svc id cpus memory s (rw h tt))
