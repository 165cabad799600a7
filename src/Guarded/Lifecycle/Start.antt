-- ===== src/Guarded/Lifecycle/Start.antt =====
-- Starting a machine, or resuming it.
use tab_vm.Service.{Host, Service, State, Event, Outcome, VmResult, ok, err}
use tab_vm.Service.Run.{
  show_vm_info_args, succeeded, run_for_vm, checked, read_show_vm_info, run_capture, seconds,
}
use tab_vm.Service.Discover.{version_args}
use tab_vm.Service.Trace.{
  Policy, Safe, IsSafe, IsSafe-issued, Post, Post-bind, Ran, refused, ran, event, run_for_vm-Ran,
  log_failure-Post,
}
use tab_vm.Service.Trace.Probe.{Probing, Probing-All, Probing-Safe, after_probe}
use tab_vm.Service.Trace.Rules.{after_require, log_last}
use tab_vm.Ops.Lifecycle.{
  start_vm_args, resume_vm_args, run_control_with_lock_retry, best_effort_state, bring_up,
  start_from, start_vm,
}
use tab_vm.Guarded.{Shows, Saw}
use tab_vm.Guarded.Lifecycle.Retry.{Pushed, same, push, run_control_with_lock_retry-Bounded}
use tab_vm.Parse.{parse_vm_state}
use tab_vm.VmId.{is_valid_vm_id}
use tab_vm.Prelude.{
  ◌≡◌, ◌⊎◌, refl, sym, ◌∙◌, ap, inl, inr, [], ◌∷◌, Bool-cases, true, false, Bool, ℕ, List, All,
}
use mathlib.Core.Bool.{false≢true}
use tab_vm.Strings.{Text, txt, text_eq, one_of, to_lower, trim_space}

-- The state that settings report, as the operation reads it.
abbrev pub state_of : Text → Text
state_of info = to_lower (trim_space (parse_vm_state info))

abbrev pub is_up : Text → Bool
is_up state = one_of (txt "running" ∷ txt "starting" ∷ []) state

abbrev pub ShowsUp : Text → Type 0
ShowsUp info = is_up (state_of info) ≡ true

abbrev pub ShowsPaused : Text → Type 0
ShowsPaused info = text_eq (state_of info) (txt "paused") ≡ true

-- No successful read of the machine's settings satisfied `C`.
abbrev pub NeverSaw : (Text → Type 0) → Text → List Event → Type 0
NeverSaw C id es = All (λ e. Shows (show_vm_info_args id) C e → ⊥) es

-- A start only if the machine was never seen running, starting or paused; a resume only if it was
-- seen paused and never running or starting.
abbrev pub StartPolicy : Text → Policy
StartPolicy id e before =
    (e.args ≡ version_args)
    ⊎ ((e.args ≡ show_vm_info_args id)
        ⊎ ((is_valid_vm_id id ≡ true)
            × NeverSaw ShowsUp id before
            × (((e.args ≡ start_vm_args id) × NeverSaw ShowsPaused id before)
                ⊎ ((e.args ≡ resume_vm_args id) × Saw ShowsPaused id before))))

-- The first word of a command.
verb : List Text → Text
verb [] = []
verb (a ∷ rest) = a

-- A command with another first word is no read of the settings.
other_verb :
    (C : Text → Type 0) (id : Text) (args : List Text) (o : Outcome)
    → text_eq (verb args) (txt "showvminfo") ≡ false
    → Shows (show_vm_info_args id) C (event args o)
    → ⊥
unfolding verb text_eq txt
other_verb C id args o differs (same_args, good, c) =
    false≢true (sym differs ∙ ap (λ a. text_eq (verb a) (txt "showvminfo")) same_args)

start-other : (id : Text) → text_eq (verb (start_vm_args id)) (txt "showvminfo") ≡ false
unfolding verb text_eq txt
start-other id = refl

resume-other : (id : Text) → text_eq (verb (resume_vm_args id)) (txt "showvminfo") ≡ false
unfolding verb text_eq txt
resume-other id = refl

Pushed-Inv :
    {args : List Text} {es es' : List Event} {n : ℕ} (I : List Event → Type 0)
    → ((fs : List Event) (o : Outcome) → I fs → I (event args o ∷ fs))
    → Pushed args es n es'
    → I es
    → I es'
Pushed-Inv I step same h = h
Pushed-Inv I step (push o p) h = step _ o (Pushed-Inv I step p h)

IsSafe-from :
    {W A : Type 0} (P : Policy) (r : VmResult A × State W) → Safe P r.1.issued → IsSafe P r
unfolding Post
IsSafe-from P (ok a, t) h = h
IsSafe-from P (err e, t) h = h

module _ {W : Type 0} (host : Host W) (svc : Service) (id : Text) where
  abbrev P : Policy
  P = StartPolicy id

  probed : (es : List Event) → Safe Probing es → Safe P es
  probed = Probing-Safe P (λ e before same_args. inl same_args)

  probe-NeverSaw : (C : Text → Type 0) (es : List Event) → Safe Probing es → NeverSaw C id es
  unfolding verb text_eq txt
  probe-NeverSaw C =
      Probing-All (λ e. Shows (show_vm_info_args id) C e → ⊥)
        (λ e same_args shows.
          other_verb C id version_args e.outcome refl (sym same_args ∙ shows.0, shows.1, shows.2))

  -- What is known of the trace behind the read, for the state that it gave.
  abbrev Known : Text → List Event → Type 0
  Known state es =
      Safe P es
      × (is_up state ≡ false → NeverSaw ShowsUp id es)
      × (text_eq state (txt "paused") ≡ true → Saw ShowsPaused id es)
      × (text_eq state (txt "paused") ≡ false → NeverSaw ShowsPaused id es)

  shown :
      (s t : State W) (o : Outcome)
      → Safe Probing s.issued
      → Ran (show_vm_info_args id) s t o
      → succeeded o ≡ true
      → Known (state_of o.result.standard_output) t.issued
  shown s t o safe (refused kept failed) good = absurd (false≢true (sym failed ∙ good))
  shown s t o safe (ran newest) good = rw newest (
    (inr (inl refl), probed s.issued safe),
    (λ down. ((λ shows. false≢true (sym down ∙ shows.2)), probe-NeverSaw ShowsUp s.issued safe)),
    (λ paused. inl (refl, good, paused)),
    (λ awake.
        ((λ shows. false≢true (sym awake ∙ shows.2)), probe-NeverSaw ShowsPaused s.issued safe)),
  )

  unknown :
      (s t : State W) (o : Outcome)
      → Safe Probing s.issued
      → Ran (show_vm_info_args id) s t o
      → succeeded o ≡ false
      → Known [] t.issued
  unfolding text_eq txt
  unknown s t o safe (refused kept failed) bad = rw kept (
    probed s.issued safe,
    (λ down. probe-NeverSaw ShowsUp s.issued safe),
    (λ paused. absurd (false≢true paused)),
    (λ awake. probe-NeverSaw ShowsPaused s.issued safe),
  )
  unknown s t o safe (ran newest) bad = rw newest (
    (inr (inl refl), probed s.issued safe),
    (λ down. ((λ shows. false≢true (sym bad ∙ shows.1)), probe-NeverSaw ShowsUp s.issued safe)),
    (λ paused. absurd (false≢true paused)),
    (λ awake.
        ((λ shows. false≢true (sym bad ∙ shows.1)), probe-NeverSaw ShowsPaused s.issued safe)),
  )

  read-Known :
      (path description : Text) (s : State W)
      → Safe Probing s.issued
      → Post P
          (λ state t. Known state t.issued)
          (best_effort_state host svc (read_show_vm_info host path id description s))
  unfolding best_effort_state read_show_vm_info run_capture checked Post
  read-Known path description s safe =
      let r = run_for_vm-Ran host id path (show_vm_info_args id) (seconds 10) s in
      elim (Bool-cases
        (succeeded (run_for_vm host id path (show_vm_info_args id) (seconds 10) s).0)) [
          | inl good ↦ rw good (shown s _ _ safe r good)
          | inr bad ↦ rw bad (unknown s _ _ safe r bad)
        ]

  -- The retried command, under an invariant that makes it allowed.
  bring_up-IsSafe :
      (I : List Event → Type 0) (path : Text) (args : List Text) (description : Text) (s : State W)
      → ((es : List Event) (o : Outcome) → I es → P (event args o) es × I (event args o ∷ es))
      → Safe P s.issued
      → I s.issued
      → IsSafe P (bring_up host svc id path args description s)
  unfolding bring_up
  bring_up-IsSafe I path args description s step safe h =
      let pushed = (run_control_with_lock_retry-Bounded host id path args description s).0 in
      let both =
        Pushed-Inv (λ es. Safe P es × I es) (λ es o x. let y = step es o x.1 in ((y.0, x.0), y.1))
          pushed (safe, h) in
      Post-bind P _ _ (λ _ t. Safe P t.issued) _
        (log_failure-Post P svc id _ _ (run_control_with_lock_retry host id path args description s)
          _ (IsSafe-from P _ both.0))
        (λ _ t safe1. log_last P t svc _ _ _ _ safe1)

  start_from-IsSafe :
      (path state : Text) (s : State W)
      → is_valid_vm_id id ≡ true
      → Known state s.issued
      → IsSafe P (start_from host svc id path state s)
  unfolding start_from
  start_from-IsSafe path state s valid (safe, down, paused, awake) =
      elim (Bool-cases (is_up state)) [
        | inl up ↦ rw up (log_last P s svc _ _ _ _ safe)
        | inr is_down ↦ rw is_down (elim (Bool-cases (text_eq state (txt "paused"))) [
          | inl is_paused ↦ rw is_paused (
              bring_up-IsSafe (λ es. NeverSaw ShowsUp id es × Saw ShowsPaused id es) path
                (resume_vm_args id) (txt "resuming VM") s
                (λ es o (never, saw). (
                  inr (inr (valid, never, inr (refl, saw))),
                  ((other_verb ShowsUp id (resume_vm_args id) o (resume-other id), never), inr saw),
                ))
                safe (down is_down, paused is_paused))
          | inr is_awake ↦ rw is_awake (
              bring_up-IsSafe (λ es. NeverSaw ShowsUp id es × NeverSaw ShowsPaused id es) path
                (start_vm_args id) (txt "starting VM") s
                (λ es o (never, never_paused). (
                  inr (inr (valid, never, inl (refl, never_paused))),
                  (
                    (other_verb ShowsUp id (start_vm_args id) o (start-other id), never),
                    (other_verb ShowsPaused id (start_vm_args id) o (start-other id), never_paused),
                  ),
                ))
                safe (down is_down, awake is_awake))
        ])
      ]

  start_vm-IsSafe : (s : State W) → Safe Probing s.issued → IsSafe P (start_vm host svc id s)
  unfolding start_vm
  start_vm-IsSafe s safe = after_require P s (probed s.issued safe) _ _ _ (λ valid.
      after_probe P (λ e before same_args. inl same_args) s safe host svc _ _ _ _
        (λ path t safe1.
          Post-bind P _ _ (λ state u. Known state u.issued) _ (read-Known path _ t safe1)
            (λ state u known. start_from-IsSafe path state u valid known)))

-- Whatever the host answers, `StartVM` runs `startvm` only if no read of the machine's settings in
-- the same call succeeded and showed it running, starting or paused, and `resume` only if one showed
-- it paused and none running or starting; both only for a well-formed identifier. Besides, it runs
-- only `--version` and that read: it never powers a machine off.
pub start_vm_guarded :
    {W : Type 0} (host : Host W) (svc : Service) (id : Text) (s : State W)
    → s.issued ≡ []
    → Safe (StartPolicy id) (start_vm host svc id s).1.issued
start_vm_guarded host svc id s h =
    IsSafe-issued (P host svc id) (start_vm host svc id s) (start_vm-IsSafe host svc id s (rw h tt))
