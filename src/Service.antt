-- ===== src/Service.antt =====
-- The VirtualBox service of the agent (apps/desktop-agent/internal/vbox): its errors, its host and
-- its state. An operation is a function from a state to a result and the next state.
pub mod Run
pub mod Discover
pub mod Trace
use tab_vm.Prelude.{Option, ℕ, Bool, true, false, List}
use tab_vm.Strings.{Text, txt}
use tab_vm.Prelude.Int.{ℤ}

-- The error types of vbox.go; `other` is an error of another package, with its text.
pub data VmError : Type 0 where
  not_discovered : Text → VmError
  validation : Text → VmError
  execution : ℤ → Text → Text → VmError  -- exit code, standard error, message
  other : Text → VmError

pub data VmResult {ℓ} (A : Type ℓ) : Type ℓ where
  ok : A → VmResult A
  err : VmError → VmResult A

-- `runner.Result`.
pub record RunResult : Type 0 where
  pub exit_code : ℤ
  pub standard_output : Text
  pub standard_error : Text

-- What `RunContext` returns: a result beside an error, with the error's text.
pub record Outcome : Type 0 where
  pub result : RunResult
  pub fault : Option Text

-- What the operations take from the operating system, over a world `W` that changes as they run:
-- the path lookup of `resolvePath`, the channel operations of the gate (each waits, or fails with
-- the text of the context's error), the process that `os/exec` runs, `time.After` against the
-- context, the functions of `path/filepath` for the host's paths, and whether `os.Stat` finds no
-- file.
pub record Host (W : Type 0) : Type 0 where
  pub is_windows : Bool
  pub resolve_path : Text → W → Option Text
  pub lock_vm : Text → W → Option Text × W
  pub unlock_vm : Text → W → W
  pub take_slot : ℕ → W → Option Text × W
  pub free_slot : W → W
  pub process : Text → List Text → ℕ → W → Outcome × W
  pub pause : ℕ → W → Option Text × W
  pub path_dir : Text → Text
  pub path_base : Text → Text
  pub path_ext : Text → Text
  pub path_join : Text → Text → Text
  pub missing : Text → W → Bool

-- The service's own fields.
pub record Service : Type 0 where
  pub paths : List Text
  pub has_store : Bool

-- A VBoxManage process that was run, with its arguments.
pub record Event : Type 0 where
  pub args : List Text
  pub outcome : Outcome

-- A call of the store's `LogOperation`.
pub record LogEntry : Type 0 where
  pub vm_id : Text
  pub action : Text
  pub success : Bool
  pub message : Text

-- `issued` and `logged` have the newest first. Nothing reads them: they record what was done.
pub record State (W : Type 0) : Type 0 where
  pub world : W
  pub issued : List Event
  pub logged : List LogEntry

abbrev pub M : Type 0 → Type 0 → Type 0
M W A = State W → VmResult A × State W

unfoldable pub and_then :
    {W A B : Type 0} → VmResult A × State W → (A → M W B) → VmResult B × State W
and_then (ok a, s) f = f a s
and_then (err e, s) f = (err e, s)

infixl 5 ◌>>=◌ ◌>>◌
abbrev pub ◌>>=◌ : {W A B : Type 0} → M W A → (A → M W B) → M W B
◌>>=◌ m f s = and_then (m s) f

abbrev pub ◌>>◌ : {W B : Type 0} → M W (Unit {0}) → M W B → M W B
m >> k = m >>= λ _. k

abbrev pub return : {W A : Type 0} → A → M W A
return a s = (ok a, s)

abbrev pub fail : {W A : Type 0} → VmError → M W A
fail e s = (err e, s)

-- `if !b { return e }`.
unfoldable pub require : {W : Type 0} → Bool → VmError → M W (Unit {0})
require true e s = (ok tt, s)
require false e s = (err e, s)

-- `models.VmOperationResponse` and the response types like it.
pub record Response : Type 0 where
  pub success : Bool
  pub vm_id : Text
  pub message : Text

abbrev pub invalid_vm : VmError
invalid_vm = validation (txt "Invalid VM identifier.")

-- `return f(err)`: an error is replaced.
unfoldable pub map_error :
    {W A : Type 0} → (VmError → VmError) → VmResult A × State W → VmResult A × State W
map_error f (ok a, s) = (ok a, s)
map_error f (err e, s) = (err (f e), s)
