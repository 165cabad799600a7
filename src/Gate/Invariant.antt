-- ===== src/Gate/Invariant.antt =====
-- What holds of the gate under every schedule.
use tab_vm.Gate.{
  Phase, holding, running, leaving, Caller, Gate, max_concurrent_vbox, System, act, waiting,
  lock_vm, Action, fire, run, start, take_slot, finish, release, put,
}
use tab_vm.Gate.Count.{as_number, count, count-ge, count-set}
use tab_vm.Strings.{Text, text_eq, is_empty}
use tab_vm.Prelude.{
  ◌+◌, ◌≤◌, ◌≡◌, Bool, true, false, ◌&&◌, Option, none, some, arith, get_elem?, set, ℕ, refl, sym,
  List, [], ◌∷◌, bind-eq-some, map-eq-some,
}
use tab_vm.Strings.Laws.{text_eq_sound, text_eq-empty}
use mathlib.Core.Path.{subst}
use mathlib.Core.Option.{some-injective}

abbrev pub is_running : Caller → Bool
is_running c = elim c.phase [ running ↦ true | _ ↦ false ]

abbrev pub has_vm_slot : Phase → Bool
has_vm_slot holding = true
has_vm_slot running = true
has_vm_slot leaving = true
has_vm_slot _ = false

-- The caller has the slot of the machine `id`.
abbrev pub holds : Text → Caller → Bool
holds id c = has_vm_slot c.phase && text_eq c.vm id

-- Each token in a channel belongs to one caller, and no channel holds more than its capacity.
pub record Inv (s : System) : Type 0 where
  pub slots_owned : s.gate.slots ≡ count is_running s.callers
  pub locks_owned : (id : Text) → is_empty id ≡ false → s.gate.locks id ≡ count (holds id) s.callers
  pub slots_capped : s.gate.slots ≤ max_concurrent_vbox
  pub locks_capped : (id : Text) → s.gate.locks id ≤ 1

-- What one step does to the tokens: those of the gate change as those of the caller do.
record Balanced (g g' : Gate) (c c' : Caller) : Type 0 where
  slots_moved : g'.slots + as_number (is_running c) ≡ g.slots + as_number (is_running c')
  locks_moved :
      (id : Text)
      → is_empty id ≡ false
      → g'.locks id + as_number (holds id c) ≡ g.locks id + as_number (holds id c')
  slots_fit : g'.slots ≤ max_concurrent_vbox
  locks_fit : (id : Text) → g'.locks id ≤ 1

abbrev BalancedOption : Gate → Caller → Option (Gate × Caller) → Type 0
BalancedOption g c none = Unit
BalancedOption g c (some (g', c')) = Balanced g g' c c'

module _ (g : Gate) (c : Caller) where
  record Owned : Type 0 where
    slot_owned : as_number (is_running c) ≤ g.slots
    lock_owned : (id : Text) → is_empty id ≡ false → as_number (holds id c) ≤ g.locks id
    slots_fit : g.slots ≤ max_concurrent_vbox
    locks_fit : (id : Text) → g.locks id ≤ 1

-- Every step that is possible moves the tokens of the gate and of its caller together.
module _ (g g' : Gate) (c c' : Caller) (o : Owned g c) where
  act-slots :
      (p : Phase) (a : Action)
      → c.phase ≡ p
      → act p a c g ≡ some (g', c')
      → (g'.slots + as_number (is_running c) ≡ g.slots + as_number (is_running c'))
        × (g'.slots ≤ max_concurrent_vbox)
  unfolding act
  act-slots waiting lock_vm e h = ground (arith, o.slots_fit, o.slot_owned)
  act-slots holding take_slot e h = ground (arith, o.slots_fit, o.slot_owned)
  act-slots running finish e h = ground (arith, o.slots_fit, o.slot_owned)
  act-slots leaving release e h = ground (arith, o.slots_fit, o.slot_owned)
  act-slots _ _ e h = ground (arith, o.slots_fit, o.slot_owned)

  act-locks :
      (p : Phase) (a : Action) (id : Text)
      → c.phase ≡ p
      → act p a c g ≡ some (g', c')
      → (is_empty id ≡ false
          → g'.locks id + as_number (holds id c) ≡ g.locks id + as_number (holds id c'))
        × (g'.locks id ≤ 1)
  unfolding act
  act-locks waiting lock_vm id e h =
      ground (arith, o.locks_fit id, text_eq_sound c.vm id, text_eq-empty c.vm id)
  act-locks leaving release id e h =
      ground (arith, o.locks_fit id, text_eq_sound c.vm id, text_eq-empty c.vm id, o.lock_owned id)
  act-locks _ _ id e h = ground (arith, o.locks_fit id)

-- The caller's own tokens are among those of the gate.
Inv-Owned :
    (s : System) (i : ℕ) {c : Caller} → Inv s → get_elem? s.callers i ≡ some c → Owned s.gate c
Inv-Owned s i {c} v at = record {
  slot_owned = rw v.slots_owned (count-ge is_running s.callers i at);
  lock_owned = λ id n. rw (v.locks_owned id n) (count-ge (holds id) s.callers i at);
  slots_fit = v.slots_capped;
  locks_fit = v.locks_capped;
}

-- A step of caller `i` that ends in `g'` and `c'`.
pub Inv-set :
    (s : System) (i : ℕ) (a : Action) (c c' : Caller) (g' : Gate)
    → Inv s
    → get_elem? s.callers i ≡ some c
    → act c.phase a c s.gate ≡ some (g', c')
    → Inv (record { gate = g'; callers = set s.callers i c' })
Inv-set s i a c c' g' v at step =
    let o = Inv-Owned s i v at in
    let slots = act-slots s.gate g' c c' o c.phase a refl step in
    let locks = λ (id : Text). act-locks s.gate g' c c' o c.phase a id refl step in
    record {
      slots_owned = omega (arith, v.slots_owned, count-set is_running s.callers i c c' at);
      locks_owned = λ id n.
          omega
            (arith, v.locks_owned id n, (locks id).0 n, count-set (holds id) s.callers i c c' at);
      slots_capped = slots.1;
      locks_capped = λ id. (locks id).1;
    }

-- What a step of the system is.
pub fire_inv :
    (i : ℕ) (a : Action) (s t : System)
    → fire i a s ≡ some t
    → (c : Caller) × (r : Gate × Caller) × (get_elem? s.callers i ≡ some c)
      × (act c.phase a c s.gate ≡ some r)
      × (put s i r ≡ t)
unfolding fire
fire_inv i a s t h =
    let (c, at, step) = bind-eq-some (get_elem? s.callers i) _ h in
    let (r, move, end) = map-eq-some (act c.phase a c s.gate) (put s i) step in
    (c, r, at, move, end)

pub fire-Inv : (i : ℕ) (a : Action) (s t : System) → Inv s → fire i a s ≡ some t → Inv t
fire-Inv i a s t v h =
    let (c, r, at, step, end) = fire_inv i a s t h in
    subst Inv end (Inv-set s i a c r.1 r.0 v at step)

pub run-Inv : (steps : List (ℕ × Action)) (s t : System) → Inv s → run steps s ≡ some t → Inv t
unfolding run
run-Inv [] s t v h = subst Inv (some-injective s t h) v
run-Inv ((i, a) ∷ rest) s t v h =
    let (u, first, later) = bind-eq-some (fire i a s) (run rest) h in
    run-Inv rest u t (fire-Inv i a s u v first) later

count-start :
    (p : Caller → Bool) (vms : List Text)
    → ((vm : Text) → p (record { vm = vm; phase = waiting }) ≡ false)
    → count p (start vms).callers ≡ 0
count-start p [] h = refl
count-start p (vm ∷ vms) h = rw (h vm) (omega (arith, count-start p vms h))

pub start-Inv : (vms : List Text) → Inv (start vms)
start-Inv vms = record {
  slots_owned = sym (count-start is_running vms (λ vm. refl));
  locks_owned = λ id n. sym (count-start (holds id) vms (λ vm. refl));
  slots_capped = omega arith;
  locks_capped = λ id. omega arith;
}

-- Whatever the schedule of callers, at most four of them run VBoxManage at once.
pub gate_slots_bound :
    (vms : List Text) (steps : List (ℕ × Action)) (s : System)
    → run steps (start vms) ≡ some s
    → count is_running s.callers ≤ 4
gate_slots_bound vms steps s h =
    let v = run-Inv steps (start vms) s (start-Inv vms) h in rw (← v.slots_owned) v.slots_capped

-- Whatever the schedule of callers, of those that name one machine, by an id that is not empty, at
-- most one holds its slot; so no two of them run VBoxManage at once.
pub gate_vm_bound :
    (vms : List Text) (steps : List (ℕ × Action)) (s : System) (id : Text)
    → run steps (start vms) ≡ some s
    → is_empty id ≡ false
    → count (holds id) s.callers ≤ 1
gate_vm_bound vms steps s id h n =
    let v = run-Inv steps (start vms) s (start-Inv vms) h in
    rw (← v.locks_owned id n) (v.locks_capped id)
