-- ===== src/Gate/Progress.antt =====
-- The two layers never deadlock: whatever state a schedule has reached, some caller can go on
-- without any context being cancelled, until all of them have returned.
use mathlib.Core.Option
use tab_vm.Gate.{
  Phase, waiting, holding, running, leaving, done, Caller, Gate, Action, lock_vm, give_up,
  take_slot, time_out, finish, release, act, System, put, fire, start, run, exit, set_lock,
}
use tab_vm.Gate.Count.{count, count-pos, count-le-of}
use tab_vm.Gate.Invariant.{is_running, has_vm_slot, holds, Inv, fire-Inv, run-Inv, start-Inv}
use tab_vm.Prelude.{
  get_elem?, set, All, ℕ, zero, suc, ◌+◌, ◌-◌, ◌<◌, ◌≡◌, refl, Bool, true, false, some, List, [],
  ◌∷◌, arith, Bool-cases, and_true, ◌⊎◌, inl, inr, dec_lt,
}
use mathlib.Core.Option.{some-injective}
use tab_vm.Strings.{Text, is_empty}

abbrev is_leaving : Caller → Bool
is_leaving c = elim c.phase [ leaving ↦ true | _ ↦ false ]

abbrev is_holding : Caller → Bool
is_holding c = elim c.phase [ holding ↦ true | _ ↦ false ]

abbrev is_waiting : Caller → Bool
is_waiting c = elim c.phase [ waiting ↦ true | _ ↦ false ]

-- A step that is no cancellation.
abbrev pub is_own : Action → Bool
is_own give_up = false
is_own time_out = false
is_own _ = true

abbrev pub IsDone : Caller → Type 0
IsDone c = c.phase ≡ done

-- The steps that a caller has still to make, at most.
abbrev pub rank : Phase → ℕ
rank waiting = 4
rank holding = 3
rank running = 2
rank leaving = 1
rank done = 0

abbrev pub steps_left : List Caller → ℕ
steps_left [] = 0
steps_left (c ∷ cs) = rank c.phase + steps_left cs

steps_left-set :
    (cs : List Caller) (i : ℕ) (c c' : Caller)
    → get_elem? cs i ≡ some c
    → steps_left (set cs i c') + rank c.phase ≡ steps_left cs + rank c'.phase
steps_left-set [] i c c' h = cc
steps_left-set (x ∷ xs) zero c c' h = rw (some-injective x c h) (omega arith)
steps_left-set (x ∷ xs) (suc i) c c' h = omega (arith, steps_left-set xs i c c' h)

abbrev CanStep : System → Type 0
CanStep s =
    (i : ℕ) × (a : Action) × (t : System) × (fire i a s ≡ some t)
    × (is_own a ≡ true)
    × (steps_left t.callers < steps_left s.callers)

fire_at :
    (s : System) (i : ℕ) (a : Action) (c : Caller) (r : Gate × Caller)
    → get_elem? s.callers i ≡ some c
    → act c.phase a c s.gate ≡ some r
    → fire i a s ≡ some (put s i r)
unfolding fire Option.bind
fire_at s i a c r at step = rw (at, step)

step_at :
    (s : System) (i : ℕ) (a : Action) (c : Caller) (r : Gate × Caller)
    → get_elem? s.callers i ≡ some c
    → act c.phase a c s.gate ≡ some r
    → is_own a ≡ true
    → rank r.1.phase < rank c.phase
    → CanStep s
step_at s i a c r at step own less = (
  i,
  a,
  put s i r,
  fire_at s i a c r at step,
  own,
  omega (arith, steps_left-set s.callers i c r.1 at),
)

count-has_vm_slot :
    (cs : List Caller)
    → count (λ c. has_vm_slot c.phase) cs
      ≡ count is_running cs + count is_leaving cs + count is_holding cs
count-has_vm_slot [] = omega arith
count-has_vm_slot (c ∷ cs) = ground (arith, count-has_vm_slot cs)

All-IsDone :
    (cs : List Caller)
    → count is_running cs ≡ 0
    → count is_leaving cs ≡ 0
    → count is_holding cs ≡ 0
    → count is_waiting cs ≡ 0
    → All IsDone cs
All-IsDone [] a b c d = tt
All-IsDone (x ∷ cs) a b c d =
    (ground arith, All-IsDone cs (omega arith) (omega arith) (omega arith) (omega arith))

module _ (s : System) (v : Inv s) where
  running_step :
      (i : ℕ) (c : Caller) → get_elem? s.callers i ≡ some c → is_running c ≡ true → CanStep s
  unfolding act
  running_step i c at e =
      let ph : c.phase ≡ running = ground arith in
      step_at s i finish c
        (record s.gate { slots = s.gate.slots - 1 }, record c { phase = leaving }) at (rw ph) refl
        (rw ph (omega arith))

  leaving_step :
      (i : ℕ) (c : Caller) → get_elem? s.callers i ≡ some c → is_leaving c ≡ true → CanStep s
  unfolding act
  leaving_step i c at e =
      let ph : c.phase ≡ leaving = ground arith in
      step_at s i release c (exit s.gate c.vm, record c { phase = done }) at (rw ph) refl
        (rw ph (omega arith))

  holding_step :
      count is_running s.callers ≡ 0
      → (i : ℕ) (c : Caller) → get_elem? s.callers i ≡ some c
      → is_holding c ≡ true
      → CanStep s
  unfolding act
  holding_step idle i c at e =
      let ph : c.phase ≡ holding = ground arith in
      step_at s i take_slot c
        (record s.gate { slots = s.gate.slots + 1 }, record c { phase = running }) at
        (rw ph (ground (arith, v.slots_owned))) refl (rw ph (omega arith))

  waiting_step :
      count (λ c. has_vm_slot c.phase) s.callers ≡ 0
      → (i : ℕ) (c : Caller) → get_elem? s.callers i ≡ some c
      → is_waiting c ≡ true
      → CanStep s
  unfolding act
  waiting_step idle i c at e =
      let ph : c.phase ≡ waiting = ground arith in
      let arrive =
        λ (g : Gate) (step : act waiting lock_vm c s.gate ≡ some (g, record c { phase = holding })).
          step_at s i lock_vm c (g, record c { phase = holding }) at (rw ph step) refl
            (rw ph (omega arith)) in
      elim (Bool-cases (is_empty c.vm)) [
        | inl no_vm ↦ arrive s.gate (rw no_vm)
        | inr vm ↦
            let free : s.gate.locks c.vm ≡ 0 = omega (
              arith,
              v.locks_owned c.vm vm,
              count-le-of (holds c.vm) (λ d. has_vm_slot d.phase) s.callers
                  (λ d h. (and_true _ _ h).0),
            ) in
            arrive (set_lock s.gate c.vm 1) (rw (vm, free))
      ]

  -- Either all the callers have returned, or one of them can go on.
  can_step : All IsDone s.callers ⊎ CanStep s
  can_step = elim (dec_lt 0 (count is_running s.callers)) [
    | yes h ↦ let (i, c, at, e) = count-pos is_running s.callers h in inr (running_step i c at e)
    | no r ↦ elim (dec_lt 0 (count is_leaving s.callers)) [
      | yes h ↦ let (i, c, at, e) = count-pos is_leaving s.callers h in inr (leaving_step i c at e)
      | no l ↦ elim (dec_lt 0 (count is_holding s.callers)) [
        | yes h ↦
            let (i, c, at, e) = count-pos is_holding s.callers h in
            inr (holding_step (omega arith) i c at e)
        | no o ↦ elim (dec_lt 0 (count is_waiting s.callers)) [
          | yes h ↦
              let (i, c, at, e) = count-pos is_waiting s.callers h in
              inr (waiting_step (omega (arith, count-has_vm_slot s.callers)) i c at e)
          | no w ↦
              inl (All-IsDone s.callers (omega arith) (omega arith) (omega arith) (omega arith))
        ]
      ]
    ]
  ]

-- A way to the end: steps that are no cancellation, after which every caller has returned.
abbrev pub Completes : System → Type 0
Completes s =
    (steps : List (ℕ × Action)) × (t : System) × (run steps s ≡ some t)
    × All (λ step. is_own step.1 ≡ true) steps
    × All IsDone t.callers

Inv-Completes : (fuel : ℕ) (s : System) → Inv s → steps_left s.callers < fuel → Completes s
unfolding run Option.bind
Inv-Completes zero s v h = elim h [ ]
Inv-Completes (suc fuel) s v h = elim (can_step s v) [
  | inl finished ↦ ([], s, refl, tt, finished)
  | inr (i, a, t, step, own, less) ↦
      let (steps, u, path, all_own, finished) =
        Inv-Completes fuel t (fire-Inv i a s t v step) (omega arith) in
      ((i, a) ∷ steps, u, rw step path, (own, all_own), finished)
]

-- Whatever a schedule has done so far, cancellations included, the callers can all return by steps
-- of their own, with no further cancellation: no state that is reached is a deadlock.
pub gate_no_deadlock :
    (vms : List Text) (steps : List (ℕ × Action)) (s : System)
    → run steps (start vms) ≡ some s
    → Completes s
gate_no_deadlock vms steps s h =
    Inv-Completes (suc (steps_left s.callers)) s (run-Inv steps (start vms) s (start-Inv vms) h)
      (omega arith)
