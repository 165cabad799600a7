-- ===== src/Server.antt =====
-- The HTTP server of the agent (apps/desktop-agent/internal/server): what it answers, and which calls
-- of the service it makes. A handler is a function from a state to a reply and the next state.
pub mod Requests
pub mod Access
pub mod Jobs
pub mod Handlers
pub mod Serve
pub mod Contract
pub mod Guarantees
pub mod Invariant
use tab_vm.Strings.{Text, txt, to_lower}
use tab_vm.Strings.Search.{contains}
use tab_vm.Strings.Number.{itoa}
use tab_vm.Prelude.{if◌then◌else◌, ℕ, Bool, ◌||◌, Option, List, ◌++◌}
use tab_vm.Prelude.Int.{ℤ}
use tab_vm.Server.Requests.{Creation, Query, Control, Change, Created, Aside, Stream, Request}
use tab_vm.Service.{VmError, VmResult, validation, not_discovered, execution, other}

pub data JobState : Type 0 where
  running : JobState
  done : JobState
  error : JobState

-- `createJob`; no end is the zero time.
pub record Job : Type 0 where
  pub state : JobState
  pub message : Text
  pub vm_id : Text
  pub name : Text
  pub ended_at : Option ℕ

-- What a response has in its body: the text of `http.Error`, a value of the service that is written
-- as JSON, the fields that most JSON responses share, or a file.
pub data Body (P : Type 0) : Type 0 where
  plain : Text → Body P
  payload : P → Body P
  operation : Bool → Text → Text → Body P
  clipboard_for : Text → Body P
  job_started : Text → Body P
  job_status : JobState → Text → Text → Text → Body P
  page : Text → Text → Body P  -- the document, and its Content-Security-Policy
  file : Text → Body P
  upgraded : Body P  -- the connection is a WebSocket
  not_upgraded : Text → Body P  -- what the upgrader itself answers

pub record Reply (P : Type 0) : Type 0 where
  pub status : ℕ
  pub body : Body P

-- A goroutine of `startCreateJob`: its job, its work, and the machine whose lock it holds.
pub record Worker : Type 0 where
  pub job : Text
  pub work : Creation
  pub unlocks : Option Text

-- The fields of `Server` that change, and the state of what the server calls. `ops` lists the
-- machines whose mutex is held, by requests that are being served and by workers.
pub record ServerState (S : Type 0) : Type 0 where
  pub service : S
  pub dev_token : Text
  pub ops : List Text
  pub jobs : List (Text × Job)
  pub workers : List Worker

-- `config.Agent`.
pub record Config : Type 0 where
  pub session_token : Text
  pub environment : Text
  pub bind_address : Text
  pub bind_port : ℤ

-- The service's interface, and the packages beside it, over their state. A stream may do anything to
-- the machine that it names. The WebSocket upgrader gives nothing, or the status and the text of the
-- error that it has answered.
pub record Api (S P : Type 0) : Type 0 where
  pub query : Query → Text → S → VmResult P × S
  pub control : Control → Text → S → VmResult (Unit {0}) × S
  pub change : Change → Text → S → VmResult P × S
  pub create : Creation → S → VmResult Created × S
  pub ask : Aside → S → VmResult P × S
  pub open_stream : Stream → Text → S → VmResult (Unit {0}) × S
  pub run_stream : Stream → Text → S → S  -- until either side ends it
  pub close_stream : Stream → Text → S → S
  pub upgrade : Request → S → Option (ℕ × Text) × S  -- `Upgrade`, with `checkStreamOrigin`

-- What the server takes from the standard library: `net.SplitHostPort`, `net.ParseIP` with
-- `IsLoopback`, `sha256.Sum256`, `json.Marshal` of a text, the clock, `crypto/rand`, and the
-- embedded files.
pub record Platform (S : Type 0) : Type 0 where
  pub split_host : Text → Option Text
  pub ip_is_loopback : Text → Option Bool
  pub digest : Text → Text
  pub json_text : Text → Text
  pub now : S → ℕ
  pub new_job_id : S → Text × S
  pub new_token : S → Option Text × S
  pub new_nonce : S → Option Text × S
  pub web_file : Text → Bool
  pub index_template : Text

abbrev pub Act : Type 0 → Type 0 → Type 0
Act S P = ServerState S → Reply P × ServerState S

-- `http.Error` and `respondJSON`.
abbrev pub http_error : {S P : Type 0} → ℕ → Text → Act S P
http_error status text s = (record { status = status; body = plain text }, s)

abbrev pub respond : {S P : Type 0} → ℕ → Body P → Act S P
respond status body s = (record { status = status; body = body }, s)

abbrev pub method_not_allowed : {S P : Type 0} → Act S P
method_not_allowed = http_error 405 (txt "Method not allowed")

abbrev pub not_found : {S P : Type 0} → Act S P
not_found = http_error 404 (txt "404 page not found")

-- `sanitizedExecMessage`.
abbrev pub mentions : Text → Text → Bool
mentions stderr needle = contains (to_lower stderr) (to_lower needle)

abbrev pub is_busy : Text → Bool
is_busy stderr =
    mentions stderr (txt "already locked") || mentions stderr (txt "VBOX_E_INVALID_OBJECT_STATE")

abbrev pub lacks_virtualization : Text → Bool
lacks_virtualization stderr =
    mentions stderr (txt "VERR_VMX")
    || (mentions stderr (txt "VT-x is not available")
        || (mentions stderr (txt "VERR_NEM")
            || (mentions stderr (txt "raw-mode is unavailable")
                || mentions stderr (txt "Hyper-V"))))

abbrev pub lacks_memory : Text → Bool
lacks_memory stderr =
    mentions stderr (txt "VERR_NO_MEMORY") || mentions stderr (txt "not enough memory")

unfoldable pub sanitized_exec_message : ℤ → Text → Text
sanitized_exec_message exit_code stderr =
    if is_busy stderr
    then txt "The VM is busy or locked by another session. Wait a moment and try again."
    else (if lacks_virtualization stderr
        then txt
            "Hardware virtualization is unavailable. Check that Hyper-V or Windows memory integrity is not blocking VirtualBox."
        else (if lacks_memory stderr
            then txt "Not enough host memory to start the VM."
            else txt "VirtualBox operation failed (exit code " ++ (itoa exit_code ++ txt ").")))

-- `handleVboxError`.
unfoldable pub handle_vbox_error : {S P : Type 0} → VmError → Act S P
handle_vbox_error (validation message) = http_error 400 message
handle_vbox_error (not_discovered message) = http_error 503 message
handle_vbox_error (execution exit_code stderr message) =
    http_error 502 (sanitized_exec_message exit_code stderr)
handle_vbox_error (other text) = http_error 500 (txt "Internal server error.")

-- `jobErrorMessage`.
unfoldable pub job_error_message : VmError → Text
job_error_message (validation message) = message
job_error_message (not_discovered message) = message
job_error_message (execution exit_code stderr message) = txt "VirtualBox operation failed."
job_error_message (other text) = txt "Internal server error."
