-- ===== src/Service/Trace/Reads.antt =====
-- Rules for reads that may fail, for replaced errors, and for commands behind them.
use tab_vm.Service.{
  VmError, VmResult, ok, err, Host, Service, State, Outcome, M, and_then, map_error, require,
}
use tab_vm.Service.Run.{
  seconds, run_control_command, log_failure, read_show_vm_info_human, show_vm_info_human_args,
  attempted, optional, exec_optional,
}
use tab_vm.Service.Trace.{
  Policy, Safe, IsSafe, Post, Post-bind, log_failure-Post, Captured, Allows, Fresh,
  run_control_command-Post, run_capture-Post, Ran-Safe, exec-Ran,
}
use tab_vm.Prelude.{Option, none, some, List, ℕ, ◌≡◌, refl, Bool, true, false}
use tab_vm.Strings.{Text}

module _ {W : Type 0} (P : Policy) where
  pub map_error-Post :
      {A : Type 0} (f : VmError → VmError) (r : VmResult A × State W) (Q : A → State W → Type 0)
      → Post P Q r
      → Post P Q (map_error f r)
  unfolding Post map_error
  map_error-Post f (ok a, t) Q h = h
  map_error-Post f (err e, t) Q h = h

  -- A guard in front of the rest, with any conclusion, and a guard alone.
  pub require_first :
      {B : Type 0} (b : Bool) (e : VmError) (s : State W) (f : Unit {0} → M W B)
      (Q : B → State W → Type 0)
      → Safe P s.issued
      → (b ≡ true → Post P Q (f tt s))
      → Post P Q (and_then (require b e s) f)
  unfolding Post and_then require
  require_first true e s f Q safe k = k refl
  require_first false e s f Q safe k = safe

  pub require_last :
      (b : Bool) (e : VmError) (s : State W) (Q : Unit {0} → State W → Type 0)
      → Safe P s.issued
      → (b ≡ true → Q tt s)
      → Post P Q (require b e s)
  unfolding Post require
  require_last true e s Q safe k = k refl
  require_last false e s Q safe k = safe

  -- What is known behind a read that may fail.
  abbrev pub Perhaps : {A : Type 0} → (A → State W → Type 0) → Option A → State W → Type 0
  Perhaps Q none t = Safe P t.issued
  Perhaps Q (some a) t = Q a t

  attempted-Post :
      {A : Type 0} (r : VmResult A × State W) (Q : A → State W → Type 0)
      → Post P Q r
      → Post P (Perhaps Q) (attempted r)
  unfolding Post attempted
  attempted-Post (ok a, t) Q h = h
  attempted-Post (err e, t) Q h = h

  module _ {A B : Type 0} (s : State W) where
    pub after_optional :
        (m : M W A) (Q : A → State W → Type 0) (f : Option A → M W B)
        → Post P Q (m s)
        → ((a : Option A) (t : State W) → Perhaps Q a t → IsSafe P (f a t))
        → IsSafe P (and_then (optional m s) f)
    unfolding optional
    after_optional m Q f h k =
        Post-bind P (attempted (m s)) f (Perhaps Q) _ (attempted-Post (m s) Q h) k

pub read_show_vm_info_human-Post :
    {W : Type 0} (P : Policy) (s : State W) (host : Host W) (path id description : Text)
    → Safe P s.issued
    → Allows host P (show_vm_info_human_args id) s
    → Post P
        (Captured host P (show_vm_info_human_args id) s)
        (read_show_vm_info_human host path id description s)
unfolding read_show_vm_info_human
read_show_vm_info_human-Post P s host path id description safe allowed =
    run_capture-Post host P id path (show_vm_info_human_args id) description (seconds 10) s allowed
      safe

module _ {W : Type 0} (P : Policy) {B : Type 0} (s : State W) (safe : Safe P s.issued)
    (host : Host W) where
  pub after_exec_optional :
      (path : Text) (args : List Text) (timeout : ℕ) (f : Option Text → M W B)
      → Allows host P args s
      → ((out : Option Text) (t : State W) → Safe P t.issued → IsSafe P (f out t))
      → IsSafe P (and_then (exec_optional host path args timeout s) f)
  unfolding and_then exec_optional
  after_exec_optional path args timeout f allowed k =
      k _ _ (Ran-Safe host P (exec-Ran host path args timeout s) allowed safe)

  -- A command whose failure is logged with its reason and then replaced.
  pub after_mapped :
      (svc : Service) (g : VmError → VmError) (vm path : Text) (args : List Text)
      (description id action : Text) (reason : VmError → Text) (f : Unit {0} → M W B)
      → Allows host P args s
      → ((t : State W) (o : Outcome) → Fresh args s o t → Safe P t.issued → IsSafe P (f tt t))
      → IsSafe P (
          and_then
            (map_error g (
              log_failure svc id action reason
                (run_control_command host vm path args description s)))
            f)
  after_mapped svc g vm path args description id action reason f allowed k =
      let Q = λ (_ : Unit {0}) (t : State W). (o : Outcome) × Fresh args s o t × Safe P t.issued in
      Post-bind P _ f Q (λ _ t. Safe P t.issued)
        (map_error-Post P g _ Q (
          log_failure-Post P svc id action reason
            (run_control_command host vm path args description s) Q
            (run_control_command-Post host P vm path args description s allowed safe)))
        (λ _ t (o, newest, safe'). k t o newest safe')
