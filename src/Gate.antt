-- ===== src/Gate.antt =====
-- The two layers that every VBoxManage invocation passes
-- (apps/desktop-agent/internal/vbox/gate.go): a semaphore of one slot for each machine, and a
-- global one of four slots. A channel is the number of tokens in its buffer. Each caller is a
-- process, and one step of the system is one channel operation of one process, or its context
-- being cancelled.
pub mod Count
pub mod Invariant
pub mod Progress
mod Tests
use mathlib.Core.Option
use tab_vm.Strings.{Text, text_eq, is_empty}
use tab_vm.Prelude.{
  ℕ, Option, List, if◌then◌else◌, get_elem?, map, some, ltb, ◌+◌, ◌-◌, none, set, [], ◌∷◌,
}

pub data Phase : Type 0 where
  waiting : Phase  -- in `runForVM`, before the machine's slot
  holding : Phase  -- in `exec`, before a global slot
  running : Phase  -- VBoxManage runs
  leaving : Phase  -- the deferred release of the machine's slot is due
  done : Phase

-- A call of `runForVM`; an empty `vm` skips the machine's gate.
pub record Caller : Type 0 where
  pub vm : Text
  pub phase : Phase

pub record Gate : Type 0 where
  pub slots : ℕ  -- `vboxSlots`
  pub locks : Text → ℕ  -- `vmLocker`, a fresh channel for an id not met yet

pub data Action : Type 0 where
  lock_vm give_up take_slot time_out finish release : Action

abbrev pub max_concurrent_vbox : ℕ
max_concurrent_vbox = 4

-- A send blocks on a full buffer.
abbrev pub send : ℕ → ℕ → Option ℕ
send capacity n = if ltb n capacity then some (n + 1) else none

pub set_lock : Gate → Text → ℕ → Gate
set_lock g vm n = record g { locks = λ id. if text_eq vm id then n else g.locks id }

-- `runForVM` up to its call of `exec`.
pub enter : Gate → Text → Option Gate
unfolding set_lock
enter g vm = if is_empty vm then some g else Option.map (set_lock g vm) (send 1 (g.locks vm))

-- The deferred receive of `runForVM`.
pub exit : Gate → Text → Gate
unfolding set_lock
exit g vm = if is_empty vm then g else set_lock g vm (g.locks vm - 1)

abbrev moved : Caller → Phase → Gate → Gate × Caller
moved c p g = (g, record c { phase = p })

-- One step of a caller, where it is possible.
pub act : Phase → Action → Caller → Gate → Option (Gate × Caller)
unfolding enter exit
act waiting lock_vm c g = Option.map (moved c holding) (enter g c.vm)
act waiting give_up c g = some (moved c done g)
act holding take_slot c g =
    Option.map (λ n. moved c running (record g { slots = n })) (send max_concurrent_vbox g.slots)
act holding time_out c g = some (moved c leaving g)
act running finish c g = some (moved c leaving (record g { slots = g.slots - 1 }))
act leaving release c g = some (moved c done (exit g c.vm))
act _ _ c g = none

pub record System : Type 0 where
  pub gate : Gate
  pub callers : List Caller

abbrev pub put : System → ℕ → Gate × Caller → System
put s i r = record { gate = r.0; callers = set s.callers i r.1 }

-- Caller number `i` makes a step.
pub fire : ℕ → Action → System → Option System
unfolding act
fire i a s =
    Option.bind (get_elem? s.callers i) (λ c. Option.map (put s i) (act c.phase a c s.gate))

-- All the callers have just arrived, and every channel is empty.
abbrev pub start : List Text → System
start vms = record {
  gate = record { slots = 0; locks = λ id. 0 };
  callers = map (λ vm. record { vm = vm; phase = waiting }) vms;
}

-- A schedule is any sequence of steps; a step that is not possible is not in it.
pub run : List (ℕ × Action) → System → Option System
unfolding fire
run [] s = some s
run ((i, a) ∷ rest) s = Option.bind (fire i a s) (run rest)
