-- ===== src/Service/Trace/Rules.antt =====
-- The steps that the operations share, as rules over the rest of the operation.
use tab_vm.Service.{VmError, Host, Service, Event, State, Outcome, M, and_then, require, return}
use tab_vm.Service.Trace.{
  Policy, Safe, event, IsSafe, Post-bind, require-Post, log_failure-Post, Captured, Allows, Fresh,
  read_show_vm_info-Post, run_control_command_timeout-Post, Post, run_plain-Post, return-Post,
  run_control_command-Post,
}
use tab_vm.Service.Trace.Discover.{resolve_vbox_manage-Post}
use tab_vm.Service.Discover.{version_args, resolve_vbox_manage}
use tab_vm.Service.Run.{
  show_vm_info_args, read_show_vm_info, run_control_command_timeout, or_log, log_operation,
  run_control_command, seconds, run_plain, log_failure,
}
use tab_vm.Strings.{Text}
use tab_vm.Prelude.{Bool-cases, ℕ, ◌≡◌, refl, sym, inl, inr, Bool, true, List, ◌∷◌}
use mathlib.Core.Path.{subst}

pub or_log-Post :
    {W A : Type 0} (P : Policy) (svc : Service) (m : M W A) (id action message : Text) (s : State W)
    (Q : A → State W → Type 0)
    → Post P Q (m s)
    → Post P Q (or_log svc m id action message s)
unfolding or_log
or_log-Post P svc m id action message s Q h =
    log_failure-Post P svc id action (λ _. message) (m s) Q h

-- The end of an operation that returns nothing: an entry in the log.
pub log_last :
    {W : Type 0} (P : Policy) (s : State W) (svc : Service) (id action : Text) (success : Bool)
    (message : Text)
    → Safe P s.issued
    → IsSafe P (log_operation svc id action success message s)
unfolding log_operation Post
log_last P s svc id action success message safe = elim (Bool-cases svc.has_store) [
  | inl stored ↦ simp stored safe
  | inr no_store ↦ simp no_store safe
]

module _ {W : Type 0} (P : Policy) {B : Type 0} (s : State W) (safe : Safe P s.issued) where
  -- A guard: the rest may use that it held.
  pub after_require :
      (b : Bool) (e : VmError) (f : Unit {0} → M W B)
      → (b ≡ true → IsSafe P (f tt s))
      → IsSafe P (and_then (require b e s) f)
  after_require b e f k =
      Post-bind P (require b e s) f (λ _ t. (b ≡ true) × (t ≡ s)) (λ _ t. Safe P t.issued)
        (require-Post P b e s safe) (λ _ t h. subst (λ u. IsSafe P (f tt u)) (sym h.1) (k h.0))

  -- A guard whose failure is logged.
  pub after_logged_require :
      (svc : Service) (b : Bool) (e : VmError) (id action message : Text) (f : Unit {0} → M W B)
      → (b ≡ true → IsSafe P (f tt s))
      → IsSafe P (and_then (or_log svc (require b e) id action message s) f)
  after_logged_require svc b e id action message f k =
      let Q = λ (_ : Unit {0}) (t : State W). (b ≡ true) × (t ≡ s) in
      Post-bind P (or_log svc (require b e) id action message s) f Q (λ _ t. Safe P t.issued)
        (or_log-Post P svc (require b e) id action message s Q (require-Post P b e s safe))
        (λ _ t h. subst (λ u. IsSafe P (f tt u)) (sym h.1) (k h.0))

  module _ (host : Host W) (svc : Service) where
    -- VBoxManage is found; `id`, `action` and `message` are those of the log.
    pub after_resolve :
        ((o : Outcome) (before : List Event) → P (event version_args o) before)
        → (id action message : Text) (f : Text → M W B)
        → ((path : Text) (t : State W) → Safe P t.issued → IsSafe P (f path t))
        → IsSafe P (and_then (or_log svc (resolve_vbox_manage host svc) id action message s) f)
    after_resolve probes id action message f k =
        let m = resolve_vbox_manage host svc in
        let Q = λ (_ : Text) (t : State W). Safe P t.issued in
        Post-bind P (or_log svc m id action message s) f Q (λ _ t. Safe P t.issued)
          (or_log-Post P svc m id action message s Q
            (resolve_vbox_manage-Post host P probes svc s safe))
          k

    -- The machine's settings are read; the rest may use that the read was the last command.
    pub after_read :
        (path id description : Text) (f : Text → M W B)
        → Allows host P (show_vm_info_args id) s
        → ((info : Text) (t : State W)
            → Captured host P (show_vm_info_args id) s info t
            → IsSafe P (f info t))
        → IsSafe P (and_then (read_show_vm_info host path id description s) f)
    after_read path id description f allowed k =
        Post-bind P (read_show_vm_info host path id description s) f
          (Captured host P (show_vm_info_args id) s) (λ _ t. Safe P t.issued)
          (read_show_vm_info-Post host P path id description s allowed safe) k

    -- A command whose failure is logged.
    pub after_command_timeout :
        (vm path : Text) (args : List Text) (description : Text) (timeout : ℕ)
        (id action message : Text) (f : Unit {0} → M W B)
        → Allows host P args s
        → ((t : State W) (o : Outcome) → Fresh args s o t → Safe P t.issued → IsSafe P (f tt t))
        → IsSafe P (
            and_then
              (or_log svc
                (run_control_command_timeout host vm path args description timeout)
                id
                action
                message
                s)
              f)
    after_command_timeout vm path args description timeout id action message f allowed k =
        let m = run_control_command_timeout host vm path args description timeout in
        let Q =
          λ (_ : Unit {0}) (t : State W). (o : Outcome) × Fresh args s o t × Safe P t.issued in
        Post-bind P (or_log svc m id action message s) f Q (λ _ t. Safe P t.issued)
          (or_log-Post P svc m id action message s Q (
            run_control_command_timeout-Post host P vm path args description timeout s allowed
              safe))
          (λ _ t (o, newest, safe'). k t o newest safe')

    pub after_command :
        (vm path : Text) (args : List Text) (description : Text) (id action message : Text)
        (f : Unit {0} → M W B)
        → Allows host P args s
        → ((t : State W) (o : Outcome) → Fresh args s o t → Safe P t.issued → IsSafe P (f tt t))
        → IsSafe P (
            and_then
              (or_log svc (run_control_command host vm path args description) id action message s)
              f)
    unfolding run_control_command
    after_command vm path args description =
        after_command_timeout vm path args description (seconds 30)

    pub after_plain :
        (vm path : Text) (args : List Text) (timeout : ℕ) (message : Text) (id action entry : Text)
        (f : Unit {0} → M W B)
        → Allows host P args s
        → ((t : State W) (o : Outcome) → Fresh args s o t → Safe P t.issued → IsSafe P (f tt t))
        → IsSafe P (
            and_then (or_log svc (run_plain host vm path args timeout message) id action entry s) f)
    after_plain vm path args timeout message id action entry f allowed k =
        let m = run_plain host vm path args timeout message in
        let Q =
          λ (_ : Unit {0}) (t : State W). (o : Outcome) × Fresh args s o t × Safe P t.issued in
        Post-bind P (or_log svc m id action entry s) f Q (λ _ t. Safe P t.issued)
          (or_log-Post P svc m id action entry s Q
            (run_plain-Post host P vm path args timeout message s allowed safe))
          (λ _ t (o, newest, safe'). k t o newest safe')

    -- The entry in the log changes no trace.
    pub after_log :
        (id action : Text) (success : Bool) (message : Text) (f : Unit {0} → M W B)
        → ((t : State W) → t.issued ≡ s.issued → IsSafe P (f tt t))
        → IsSafe P (and_then (log_operation svc id action success message s) f)
    unfolding and_then log_operation
    after_log id action success message f k = elim (Bool-cases svc.has_store) [
      | inl stored ↦ simp stored (
          k
            (record s {
              logged =
                  record { vm_id = id; action = action; success = success; message = message }
                  ∷ s.logged;
            })
            refl)
      | inr no_store ↦ simp no_store (k s refl)
    ]

    -- The end of an operation that went well: an entry in the log and the response.
    pub log_and_return :
        (id action : Text) (success : Bool) (message : Text) (b : B)
        → IsSafe P (and_then (log_operation svc id action success message s) (λ _. return b))
    log_and_return id action success message b =
        after_log id action success message (λ _. return b)
          (λ t same. return-Post P b (λ _ u. Safe P u.issued) t (rw same safe))

    -- A command whose failure is logged with its reason.
    pub after_reported :
        (vm path : Text) (args : List Text) (description id action : Text) (reason : VmError → Text)
        (f : Unit {0} → M W B)
        → Allows host P args s
        → ((t : State W) (o : Outcome) → Fresh args s o t → Safe P t.issued → IsSafe P (f tt t))
        → IsSafe P (
            and_then
              (log_failure svc id action reason
                (run_control_command host vm path args description s))
              f)
    after_reported vm path args description id action reason f allowed k =
        let Q =
          λ (_ : Unit {0}) (t : State W). (o : Outcome) × Fresh args s o t × Safe P t.issued in
        Post-bind P _ f Q (λ _ t. Safe P t.issued)
          (log_failure-Post P svc id action reason
            (run_control_command host vm path args description s) Q
            (run_control_command-Post host P vm path args description s allowed safe))
          (λ _ t (o, newest, safe'). k t o newest safe')
