-- ===== src/Guarded/Serial.antt =====
-- Enabling and disabling the serial console.
use tab_vm.Service.{Host, Service, State}
use tab_vm.Service.Trace.{Safe, IsSafe, IsSafe-issued, Policy}
use tab_vm.Service.Trace.Rules.{
  after_require, after_resolve, after_read, after_command, log_and_return,
}
use tab_vm.Ops.Serial.{
  enable_serial_console_args, disable_serial_console_args, serial_pipe_name, guest_family,
  enable_serial_console, disable_serial_console,
}
use tab_vm.Parse.{parse_guest_os_type}
use tab_vm.Guarded.{
  GuardedPolicy, StoppedPolicy, Stopped, NoReads, Captured-Saw, Captured-SawStopped,
}
use tab_vm.Prelude.{◌≡◌, refl, inl, inr, not-true, [], true}
use tab_vm.Strings.{Text, txt, text_eq}

-- Settings of a Linux guest that is not live.
abbrev pub StoppedLinux : Text → Type 0
StoppedLinux info =
    (text_eq (guest_family (parse_guest_os_type info)) (txt "linux") ≡ true) × Stopped info

module _ {W : Type 0} (host : Host W) (svc : Service) (id : Text) where
  abbrev EnablePolicy : Policy
  EnablePolicy =
      GuardedPolicy NoReads (λ args. args ≡ enable_serial_console_args id (serial_pipe_name id))
        StoppedLinux id

  enable-IsSafe :
      (s : State W)
      → Safe EnablePolicy s.issued
      → IsSafe EnablePolicy (enable_serial_console host svc id s)
  unfolding enable_serial_console
  enable-IsSafe s safe = after_require EnablePolicy s safe _ _ _ (λ valid.
      after_resolve EnablePolicy s safe host svc (λ o b. inl refl) _ _ _ _
        (λ path t safe1.
          after_read EnablePolicy t safe1 host svc _ _ _ _ (λ o. inr (inl refl))
            (λ info u read.
              let safe2 = read.3 in
              after_require EnablePolicy u safe2 _ _ _ (λ linux.
                after_require EnablePolicy u safe2 _ _ _ (λ stopped.
                  after_command EnablePolicy u safe2 host svc _ _ _ _ _ _ _ _
                    (λ o. inr (
                      inr (
                        inr (
                          refl,
                          valid,
                          Captured-Saw host EnablePolicy t u StoppedLinux read
                              (linux, not-true stopped),
                        ))))
                    (λ x o newest safe3.
                      log_and_return EnablePolicy x safe3 host svc _ _ _ _ _))))))

  abbrev DisablePolicy : Policy
  DisablePolicy = StoppedPolicy NoReads (λ args. args ≡ disable_serial_console_args id) id

  disable-IsSafe :
      (s : State W)
      → Safe DisablePolicy s.issued
      → IsSafe DisablePolicy (disable_serial_console host svc id s)
  unfolding disable_serial_console
  disable-IsSafe s safe = after_require DisablePolicy s safe _ _ _ (λ valid.
      after_resolve DisablePolicy s safe host svc (λ o b. inl refl) _ _ _ _
        (λ path t safe1.
          after_read DisablePolicy t safe1 host svc _ _ _ _ (λ o. inr (inl refl))
            (λ info u read.
              let safe2 = read.3 in
              after_require DisablePolicy u safe2 _ _ _ (λ stopped.
                after_command DisablePolicy u safe2 host svc _ _ _ _ _ _ _ _
                  (λ o. inr (
                    inr (
                      inr (
                        refl,
                        valid,
                        Captured-SawStopped host DisablePolicy t u read (not-true stopped),
                      ))))
                  (λ x o newest safe3. log_and_return DisablePolicy x safe3 host svc _ _ _ _ _)))))

-- Whatever the host answers, `EnableSerialConsole` wires COM1, to the pipe of that very machine, only
-- for a well-formed identifier and only behind a read of its settings, in the same call, which
-- succeeded, reported a state that is not live and a Linux guest; besides, it runs only `--version`
-- and that read.
pub enable_serial_console_guarded :
    {W : Type 0} (host : Host W) (svc : Service) (id : Text) (s : State W)
    → s.issued ≡ []
    → Safe
        (GuardedPolicy NoReads
          (λ args. args ≡ enable_serial_console_args id (serial_pipe_name id))
          StoppedLinux
          id)
        (enable_serial_console host svc id s).1.issued
enable_serial_console_guarded host svc id s h =
    IsSafe-issued _ (enable_serial_console host svc id s) (enable-IsSafe host svc id s (rw h tt))

-- Whatever the host answers, `DisableSerialConsole` turns COM1 off only for a well-formed identifier
-- and only behind a read of that machine's settings, in the same call, which succeeded and reported a
-- state that is not live; besides, it runs only `--version` and that read.
pub disable_serial_console_guarded :
    {W : Type 0} (host : Host W) (svc : Service) (id : Text) (s : State W)
    → s.issued ≡ []
    → Safe
        (StoppedPolicy NoReads (λ args. args ≡ disable_serial_console_args id) id)
        (disable_serial_console host svc id s).1.issued
disable_serial_console_guarded host svc id s h =
    IsSafe-issued _ (disable_serial_console host svc id s) (disable-IsSafe host svc id s (rw h tt))
