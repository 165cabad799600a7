-- ===== src/Lib.antt =====
-- The core of the TabVM desktop agent: the Go service under apps/desktop-agent/internal/vbox that
-- drives VirtualBox by running VBoxManage, the process runner below it, the HTTP server above it
-- (internal/server), and the check for updates.
--
-- How the parts interact. The HTTP server calls one method of the service for each request. A method
-- checks its input, finds VBoxManage (`resolveVBoxManage`), reads the machine's settings
-- (`readShowVmInfo`), decides, and runs further VBoxManage commands; every command passes the gate
-- of vbox/gate.go: one slot for each machine, four for all. The outcome is written to the operation log.
--
-- Files, and the code that each models:
--   Prelude, Strings: tests, lists and integers over native numbers; Go's strings and strconv functions
--     on texts, which are lists of byte values.
--   VmId: `IsValidVmID` (vbox/vbox.go); VmId.Port: `VmIDToConsolePort` (vbox/service.go).
--   Gate: vbox/gate.go as a transition system of any number of callers.
--   Service: errors, host, state and the monad; Service.Run: runner/runner.go, `exec`, `runForVM`,
--     `runCapture`, `runControlCommand`; Service.Discover: `findVBoxManage`; Service.Trace: reasoning
--     about the commands that an operation runs.
--   Parse: vbox/parser.go, snapshot_parser.go and parts of telemetry_parser.go and storage.go.
--   Ops: the operations, one module for each source file (deletevm.go, storage.go, hardware.go,
--     clipboard.go, serialconsole.go with guestos.go, snapshot.go, usb.go, network.go,
--     portforwarding.go, sharedfolder.go with its parser, dvd.go, and the lifecycle part of service.go).
--   Guarded: which commands the operations run, and behind which reads.
--   Server: server/server.go and server/createvm.go: Access is the host check and the session token,
--     Handlers the handlers and routes, Jobs the background jobs, Serve the whole; Contract is what
--     every handler does, Guarantees and Invariant what follows. The interface `vbox.Service` is the record
--     `Api` of the server's parameters, whose methods are data (`Query`,
--     `Control`, `Change`, `Creation`); the packages beside it are in it too (`Aside`, `Stream`).
--   UpdateCheck: updatecheck/updatecheck.go.
--   Tests, Gate.Tests, UpdateCheck.Tests: the theorems at concrete inputs.
--
-- How state and operations correspond. An operation is a function from a state to a result and a
-- state: `ok` and `err` for the value and the error, the world of the host, the VBoxManage processes
-- run so far with their outcomes, and the entries of the log. An error of the code is the constructor
-- of `VmError` with its fields. A method `FooBar` is `foo_bar`. The operating system is the parameter
-- `Host`: any functions of any world, so that the theorems hold whatever other processes and users do
-- between two commands. What a read showed may no longer be true when the change is made.
--
-- Bounds. Each loop of the code runs over a list or counts to a bound that the code fixes (three
-- attempts, 1000 file names, the ports of a controller), so no fuel is chosen here. Go's int is taken as
-- an integer; `atoi` gives nothing for a number beyond 64 bits, for which strconv.Atoi gives an error, and
-- `atoi_value` gives the nearest integer, which is what Atoi returns beside that error.
-- `to_lower`, `to_upper` and `equal_fold` treat the 26 letters of ASCII, and `trim_space` its six spaces.
-- VBoxManage's keys and states have no others; names, paths and descriptions come from users, and for those
-- with letters or spaces beyond ASCII, which Go folds and trims too, the model says nothing.
--
-- A stream of the screen or of the serial console is opened, upgraded, run and closed in the code's order;
-- what it does to the guest meanwhile, without the machine's lock, is a parameter (`run_stream`), and so is
-- the WebSocket upgrader with its origin check (`upgrade`).
--
-- The server's requests are served one at a time; the locks that other requests hold at that moment are
-- in its state, and a background job is a worker of its own. A job's identifier, the clock, the digest and
-- random texts are parameters. net/http has cleaned and decoded what a request contains before.
--
-- Not modelled: the web UI itself, the listener, the frames and bytes of the streams, `checkStreamOrigin`,
-- the store's database, machine creation, `RestoreSnapshot`, clones, export and guest control (the server
-- calls them through its interface), and pure I/O; `strconv.ParseFloat`, `net.ParseIP`, the format `%q` and
-- the functions of path/filepath are parameters.
pub mod Prelude
pub mod Strings
pub mod VmId
pub mod Gate
pub mod UpdateCheck
pub mod Service
pub mod Parse
pub mod Guarded
pub mod Ops
pub mod Tests
pub mod Server
