-- ===== src/Guarded/Lifecycle/Retry.antt =====
-- The bounded retries of a start.
use tab_vm.Service.{Host, State, Event, Outcome, M, VmResult, ok, err, and_then}
use tab_vm.Service.Run.{
  run_for_vm, seconds, run_control_command, run_control_command_timeout, run_capture, checked,
  succeeded,
}
use tab_vm.Service.Trace.{Ran, refused, ran, event, run_for_vm-Ran}
use tab_vm.Ops.Lifecycle.{
  waited, retry_after, attempts, run_control_with_lock_retry, is_retryable_start_error,
}
use tab_vm.Prelude.{
  ◌≡◌, sym, inl, inr, ◌∷◌, true, Bool-cases, ℕ, zero, suc, Option, some, none, List, ◌∙◌,
}
use tab_vm.Strings.{Text}
use mathlib.Core.Bool.{false≢true}
use mathlib.Core.Path.{subst}

-- At most `n` runs of one command were added to a trace.
pub data Pushed (args : List Text) (es : List Event) : ℕ → List Event → Type 0 where
  same : {n : ℕ} → Pushed args es n es
  push :
      {n : ℕ} {es' : List Event} (o : Outcome)
      → Pushed args es n es'
      → Pushed args es (suc n) (event args o ∷ es')

Pushed-later :
    {args : List Text} {es : List Event} (o : Outcome) {n : ℕ} {es' : List Event}
    → Pushed args (event args o ∷ es) n es'
    → Pushed args es (suc n) es'
Pushed-later o same = push o same
Pushed-later o (push o' p) = push o' (Pushed-later o p)

Pushed-more :
    {args : List Text} {es es' : List Event} {n : ℕ}
    → Pushed args es n es'
    → Pushed args es (suc n) es'
Pushed-more same = same
Pushed-more (push o p) = push o (Pushed-more p)

-- On success the newest process of the trace is the command, and it succeeded.
abbrev pub Answered : {W : Type 0} → List Text → VmResult (Unit {0}) × State W → Type 0
Answered args (err e, t) = Unit {0}
Answered args (ok a, t) =
    (o : Outcome) × (es : List Event) × (t.issued ≡ event args o ∷ es) × (succeeded o ≡ true)

-- The control command is one call of `runForVM`, and succeeds as that does.
pub data Once {W : Type 0} (args : List Text) (s : State W)
    : VmResult (Unit {0}) × State W → Type 0 where
  once :
      {r : VmResult (Unit {0})} {t : State W} (o : Outcome)
      → Ran args s t o
      → Answered args (r, t)
      → Once args s (r, t)

module _ {W : Type 0} {args : List Text} {s : State W} where
  Ran-Once-ok :
      (o : Outcome) (t : State W) → Ran args s t o → succeeded o ≡ true → Once args s (ok tt, t)
  Ran-Once-ok o t (refused kept failed) good = absurd (false≢true (sym failed ∙ good))
  Ran-Once-ok o t (ran newest) good = once o (ran newest) (o, s.issued, newest, good)

module _ {W : Type 0} (host : Host W) where
  pub run_control_command-Once :
      (id path : Text) (args : List Text) (description : Text) (s : State W)
      → Once args s (run_control_command host id path args description s)
  unfolding run_control_command run_control_command_timeout run_capture checked and_then
  run_control_command-Once id path args description s =
      let r = run_for_vm-Ran host id path args (seconds 30) s in
      elim (Bool-cases (succeeded (run_for_vm host id path args (seconds 30) s).0)) [
        | inl good ↦ rw good (Ran-Once-ok _ _ r good)
        | inr bad ↦ rw bad (once _ r tt)
      ]

module _ {W : Type 0} {args : List Text} where
  Ran-Pushed : {s t : State W} {o : Outcome} → Ran args s t o → Pushed args s.issued 1 t.issued
  Ran-Pushed {o = o} (ran newest) = rw newest (push o same)
  Ran-Pushed (refused kept failed) = rw kept same

  -- The trace after an attempt and what followed it.
  Ran-then :
      {s t : State W} {o : Outcome} {n : ℕ} {es : List Event}
      → Ran args s t o
      → Pushed args t.issued n es
      → Pushed args s.issued (suc n) es
  Ran-then {n = n} {es = es} (refused kept failed) p =
      Pushed-more (subst (λ x. Pushed args x n es) kept p)
  Ran-then {o = o} {n = n} {es = es} (ran newest) p =
      Pushed-later o (subst (λ x. Pushed args x n es) newest p)

-- What the retries promise.
abbrev pub Bounded :
    {W : Type 0} → List Text → List Event → ℕ → VmResult (Unit {0}) × State W → Type 0
Bounded args es n r = Pushed args es n r.1.issued × Answered args r

module _ {W : Type 0} (host : Host W) (args : List Text) (n : ℕ) where
  waited-Bounded :
      (rest : M W (Unit {0})) (t : State W) (r : Option Text × W)
      → ((u : State W) → Bounded args u.issued n (rest u))
      → Bounded args t.issued n (waited host rest t r)
  unfolding waited
  waited-Bounded rest t (some e, w) k = (same, tt)
  waited-Bounded rest t (none, w) k = k (record t { world = w })

  retry_after-Bounded :
      (rest : M W (Unit {0})) (s : State W) (r : VmResult (Unit {0}) × State W)
      → Once args s r
      → ((u : State W) → Bounded args u.issued n (rest u))
      → Bounded args s.issued (suc n) (retry_after host rest r)
  unfolding retry_after
  retry_after-Bounded rest s (ok a, t) (once o r answer) k = (Ran-then r same, answer)
  retry_after-Bounded rest s (err e, t) (once o r answer) k =
      elim (Bool-cases (is_retryable_start_error e)) [
        | inl again ↦
            rw again
              (let h = waited-Bounded rest t (host.pause 400 t.world) k in (Ran-then r h.0, h.1))
        | inr final ↦ rw final (Ran-then r same, tt)
      ]

module _ {W : Type 0} (host : Host W) (id path : Text) (args : List Text) (description : Text) where
  attempts-Bounded :
      (n : ℕ) (s : State W)
      → Bounded args s.issued (suc n) (attempts host n id path args description s)
  unfolding attempts
  attempts-Bounded zero s = elim (run_control_command-Once host id path args description s) [
    | once o r answer ↦ (Ran-Pushed r, answer)
  ]
  attempts-Bounded (suc n) s =
      retry_after-Bounded host args (suc n) (attempts host n id path args description) s
        (run_control_command host id path args description s)
        (run_control_command-Once host id path args description s) (attempts-Bounded n)

  -- Whatever the host answers, `runControlWithLockRetry` runs its command at most three times and
  -- nothing else, and if it reports success, the last process it ran is that command, which succeeded.
  pub run_control_with_lock_retry-Bounded :
      (s : State W)
      → Bounded args s.issued 3 (run_control_with_lock_retry host id path args description s)
  unfolding run_control_with_lock_retry
  run_control_with_lock_retry-Bounded = attempts-Bounded 2
