-- ===== src/Server/Handlers.antt =====
-- The handlers of server.go and the routes of `Handler` and `handleVmByID`. `net/http` has cleaned the
-- path of a request before.
pub mod Machine
pub mod Routes
use tab_vm.Strings.{Text, txt}
use tab_vm.Prelude.{if◌then◌else◌, ℕ, true, false, Option, none, some, [], ◌∷◌}
use tab_vm.Server.{
  Api, Platform, ServerState, Reply, Body, Act, operation, http_error, respond, job_started,
  payload, handle_vbox_error, upgraded, not_upgraded,
}
use tab_vm.Server.Requests.{
  oversized, no_file, unreadable, Query, Change, Control, Upload, Creation, CloneRequest, clone_vm,
  export_vm, validate_clone, validate_export, Stream, screen_stream, serial_stream, Request,
  uploaded, transfer_file, locate_vbox_manage,
}
use tab_vm.Service.{VmResult, ok, err}
use tab_vm.Server.Jobs.{unlock, is_locked, start_create_job}

abbrev pub busy : {P : Type 0} → Text → Body P
busy id = operation false id (txt "Another operation is already in progress for this VM.")

abbrev pub busy_lifecycle : {P : Type 0} → Text → Body P
busy_lifecycle id =
    operation false id (txt "Another lifecycle operation is already in progress for this VM.")

abbrev pub no_vbox : Text
no_vbox = txt "VirtualBox is not available."

abbrev pub no_screen : Text
no_screen = txt "Could not capture the VM screen. Is the VM running?"

abbrev pub no_serial : Text
no_serial = txt "Serial terminal is not available. Enable it and start the VM."

module _ {S P : Type 0} where
  -- `respondJSON` of a result, or `handleVboxError`.
  abbrev pub answered : ServerState S → VmResult P × S → Reply P × ServerState S
  answered s (ok p, w) = respond 200 (payload p) (record s { service = w })
  answered s (err e, w) = handle_vbox_error e (record s { service = w })

  abbrev pub controlled :
      Text → Text → ServerState S → VmResult (Unit {0}) × S → Reply P × ServerState S
  controlled id message s (ok _, w) =
      respond 200 (operation true id message) (record s { service = w })
  controlled id message s (err e, w) = handle_vbox_error e (record s { service = w })

  abbrev pub or_internal : Text → ServerState S → VmResult P × S → Reply P × ServerState S
  or_internal text s (ok p, w) = respond 200 (payload p) (record s { service = w })
  or_internal text s (err e, w) = http_error 500 text (record s { service = w })

  abbrev pub released : Text → Reply P × ServerState S → Reply P × ServerState S
  released id (reply, s) = (reply, record s { ops = unlock id s.ops })

  -- `tryLockVm` with the deferred unlock.
  unfoldable pub with_vm_lock : Text → Body P → Act S P → Act S P
  with_vm_lock id busy act s =
      if is_locked id s.ops
      then respond 409 busy s
      else released id (act (record s { ops = id ∷ s.ops }))

  -- `decodeJSONBody`.
  abbrev pub with_body : {B : Type 0} → Option B → (B → Act S P) → Act S P
  with_body none next = http_error 400 (txt "Invalid request body.")
  with_body (some b) next = next b

  abbrev pub accepted : Text × ServerState S → Reply P × ServerState S
  accepted (job, s) = respond 202 (job_started job) s

  abbrev pub validated : ServerState S → Act S P → VmResult P × S → Reply P × ServerState S
  validated s next (ok _, w) = next (record s { service = w })
  validated s next (err e, w) = handle_vbox_error e (record s { service = w })

  -- A screen or a serial stream: each step has its own status and text for an error.
  abbrev pub or_status :
      {B : Type 0}
      → ℕ
      → Text
      → (ServerState S → Reply P × ServerState S)
      → ServerState S
      → VmResult B × S
      → Reply P × ServerState S
  or_status status text next s (ok _, w) = next (record s { service = w })
  or_status status text next s (err e, w) = http_error status text (record s { service = w })

module _ {S P : Type 0} (api : Api S P) where
  unfoldable pub run_query : Query → Text → Act S P
  run_query q id s = answered s (api.query q id s.service)

  unfoldable pub run_change : Change → Text → Act S P
  run_change c id s = answered s (api.change c id s.service)

  unfoldable pub run_control : Control → Text → Text → Act S P
  run_control c message id s = controlled id message s (api.control c id s.service)

  -- `handleVmOperation`.
  abbrev pub handle_vm_operation : Control → Text → Text → Act S P
  handle_vm_operation c message id = with_vm_lock id (busy_lifecycle id) (run_control c message id)

  abbrev pub locked_change : Change → Text → Act S P
  locked_change c id = with_vm_lock id (busy id) (run_change c id)

  abbrev pub lifecycle_change : Change → Text → Act S P
  lifecycle_change c id = with_vm_lock id (busy_lifecycle id) (run_change c id)

  -- `handleTransferFile`.
  abbrev pub handle_transfer_file : Upload → Text → Act S P
  handle_transfer_file oversized id =
      http_error 400 (txt "Invalid or oversized upload (max 256 MB).")
  handle_transfer_file no_file id = http_error 400 (txt "No file was uploaded.")
  handle_transfer_file unreadable id = http_error 400 (txt "Could not read the uploaded file.")
  handle_transfer_file (uploaded name content login) id =
      locked_change (transfer_file name content login) id

  -- The stream that was opened is closed at the end, also if the connection is no WebSocket.
  abbrev pub streamed :
      Stream → Text → ServerState S → Option (ℕ × Text) × S → Reply P × ServerState S
  streamed k id s (none, w) =
      respond 101 upgraded (record s { service = api.close_stream k id (api.run_stream k id w) })
  streamed k id s (some (status, text), w) =
      respond status (not_upgraded text) (record s { service = api.close_stream k id w })

  unfoldable pub serve_stream : Stream → Request → Text → Act S P
  serve_stream k r id s = streamed k id s (api.upgrade r s.service)

  unfoldable pub serve_opened_screen : Request → Text → Act S P
  serve_opened_screen r id s =
      or_status 409 no_screen (serve_stream screen_stream r id) s
        (api.open_stream screen_stream id s.service)

  unfoldable pub handle_vm_screen_stream : Request → Text → Act S P
  handle_vm_screen_stream r id s =
      or_status 502 no_vbox (serve_opened_screen r id) s (api.ask locate_vbox_manage s.service)

  unfoldable pub handle_vm_serial_stream : Request → Text → Act S P
  handle_vm_serial_stream r id s =
      or_status 409 no_serial (serve_stream serial_stream r id) s
        (api.open_stream serial_stream id s.service)

module _ {S P : Type 0} (api : Api S P) (platform : Platform S) where
  -- The lock is kept for the job.
  unfoldable pub start_locked_job : Text → Text → Creation → Act S P
  start_locked_job id name work s =
      if is_locked id s.ops
      then respond 409 (busy id) s
      else accepted
          (start_create_job api platform name work (some id) (record s { ops = id ∷ s.ops }))

  -- `handleCloneVm` and `handleExportVm`.
  unfoldable pub handle_clone_vm : Text → CloneRequest → Act S P
  handle_clone_vm id body s =
      validated s (start_locked_job id body.name (clone_vm id body))
        (api.query (validate_clone body.name body.linked) id s.service)

  unfoldable pub handle_export_vm : Text → Text → Act S P
  handle_export_vm id directory s =
      validated s (start_locked_job id [] (export_vm id directory))
        (api.query (validate_export directory) id s.service)
