-- ===== src/Server/Contract/Machine.antt =====
-- The contract of every action on a machine.
use tab_vm.Strings.{Text, txt, text_eq, one_of, is_empty}
use tab_vm.Prelude.{
  Bool-cases, All, ℕ, ◌≡◌, refl, inl, inr, true, Option, none, some, [], sym, ap, ◌∙◌, ◌⊎◌, false,
  All-append, arith,
}
use tab_vm.Server.{ServerState, Api, Act, Platform, not_found, method_not_allowed, Body}
use tab_vm.Server.Contract.{
  Handled, KeptByAll, fixed-Allowed, KeptByReads, answered-Answered, Harmless,
  with_vm_lock-Answered, controlled-Answered, start_locked_job-Handled, false≢true,
}
use tab_vm.Server.Handlers.Routes.{
  dispatch, get_actions, lifecycle_actions, settings_actions, vm_action, changing_action,
  post_actions,
}
use tab_vm.Server.Handlers.{
  with_body, run_query, run_change, run_control, handle_vm_operation, with_vm_lock, busy_lifecycle,
  serve_stream, streamed, handle_vm_screen_stream, handle_vm_serial_stream, handle_clone_vm,
  handle_export_vm, start_locked_job, handle_transfer_file, busy, serve_opened_screen, no_vbox,
  no_serial, no_screen, locked_change,
}
use tab_vm.VmId.{is_valid_vm_id}
use tab_vm.Server.Requests.{
  oversized, no_file, unreadable, Query, Change, Control, Creation, Upload, locate_vbox_manage,
  CloneRequest, validate_export, Json, Stream, screen_stream, serial_stream, validate_clone,
  export_vm, uploaded, clone_vm, transfer_file, Request, delete_vm,
}
use tab_vm.Strings.Laws.{text_eq_refl, text_eq_sound}
use tab_vm.Server.Contract.Routes.{
  Keeps, Busy, is_stream_action, Calm, NoStream, or_status-Handled, validated-Handled,
  with_body-Keeps, ◌&◌, either-Handled, weaken-Handled, dispatch-Keeps, dispatch_named-Keeps,
  not_found-Keeps, method_not_allowed-Keeps,
}

module _ {S P : Type 0} (api : Api S P) (platform : Platform S) (I R : S → Type 0)
    (kept : KeptByAll api platform I) (quiet : KeptByReads api platform R) (id : Text)
    (valid : is_valid_vm_id id ≡ true) where
  query-Keeps : (action : Text) (q : Query) → Keeps I R (NoStream action) (run_query api q id)
  unfolding run_query
  query-Keeps action q s =
      let (did, same) =
        answered-Answered P I R (NoStream action s) s (api.query q id s.service)
          (kept.reads.query q id s.service valid) (λ _. quiet.query q id s.service valid) in
      (did, inl same)

  change-Keeps :
      (c : Change) (b : Body P)
      → Harmless b
      → Keeps I R (Busy id) (with_vm_lock id b (run_change api c id))
  unfolding run_change
  change-Keeps c b harmless s =
      let (did, same) = with_vm_lock-Answered P I R id b (run_change api c id) s harmless (λ t.
        answered-Answered P I R ⊥ t (api.change c id t.service) (kept.change c id t.service valid)
          absurd) in
      (did, inl same)

  control-Keeps :
      (c : Control) (message : Text) → Keeps I R (Busy id) (handle_vm_operation api c message id)
  unfolding run_control one_of text_eq txt
  control-Keeps c message s =
      let (did, same) =
        with_vm_lock-Answered P I R id (busy_lifecycle id) (run_control api c message id) s
          (inr refl)
          (λ t.
            controlled-Answered P I R ⊥ id message t (api.control c id t.service)
              (kept.control c id t.service valid) absurd) in
      (did, inl same)

  streamed-Handled :
      (k : Stream) (s : ServerState S) (res : Option (ℕ × Text) × S)
      → (I s.service → I res.1)
      → Handled I R ⊥ s (streamed api k id s res)
  streamed-Handled k s (none, w) i = (
    (
      inr (inr tt),
      λ x. kept.close_stream k id _ valid (kept.run_stream k id w valid (i x)),
      absurd,
    ),
    inl (refl, refl, refl),
  )
  streamed-Handled k s (some (status, text), w) i =
      ((inr (inr tt), λ x. kept.close_stream k id w valid (i x), absurd), inl (refl, refl, refl))

  stream-Keeps : (k : Stream) (r : Request) → Keeps I R (λ s. ⊥) (serve_stream api k r id)
  unfolding serve_stream
  stream-Keeps k r s = streamed-Handled k s (api.upgrade r s.service) (kept.upgrade r s.service)

  opened_screen-Keeps : (r : Request) → Keeps I R (λ s. ⊥) (serve_opened_screen api r id)
  unfolding serve_opened_screen one_of text_eq txt
  opened_screen-Keeps r s =
      or_status-Handled P I R ⊥ 409 no_screen (serve_stream api screen_stream r id) s
        (api.open_stream screen_stream id s.service) (fixed-Allowed no_screen refl)
        (kept.open_stream _ id _ valid) absurd (stream-Keeps screen_stream r)

  screen-Keeps : (r : Request) → Keeps I R (λ s. ⊥) (handle_vm_screen_stream api r id)
  unfolding handle_vm_screen_stream one_of text_eq txt
  screen-Keeps r s =
      or_status-Handled P I R ⊥ 502 no_vbox (serve_opened_screen api r id) s
        (api.ask locate_vbox_manage s.service) (fixed-Allowed no_vbox refl) (kept.reads.ask _ _)
        absurd (opened_screen-Keeps r)

  serial-Keeps : (r : Request) → Keeps I R (λ s. ⊥) (handle_vm_serial_stream api r id)
  unfolding handle_vm_serial_stream one_of text_eq txt
  serial-Keeps r s =
      or_status-Handled P I R ⊥ 409 no_serial (serve_stream api serial_stream r id) s
        (api.open_stream serial_stream id s.service) (fixed-Allowed no_serial refl)
        (kept.open_stream _ id _ valid) absurd (stream-Keeps serial_stream r)

  job-Keeps :
      (name : Text) (work : Creation) (s t : ServerState S)
      → t.ops ≡ s.ops
      → Handled I R (Busy id s) t (start_locked_job api platform id name work t)
  job-Keeps name work s t same =
      rw (sym same)
        (start_locked_job-Handled api platform I R id name work t (kept.reads.new_job_id))

  clone-Keeps : (b : CloneRequest) → Keeps I R (Busy id) (handle_clone_vm api platform id b)
  unfolding handle_clone_vm
  clone-Keeps b s =
      validated-Handled P I R (Busy id s) (start_locked_job api platform id b.name (clone_vm id b))
        s (api.query (validate_clone b.name b.linked) id s.service) (kept.reads.query _ id _ valid)
        (λ _. quiet.query _ id _ valid) (job-Keeps b.name (clone_vm id b) s)

  export-Keeps :
      (directory : Text) → Keeps I R (Busy id) (handle_export_vm api platform id directory)
  unfolding handle_export_vm
  export-Keeps directory s =
      validated-Handled P I R (Busy id s)
        (start_locked_job api platform id [] (export_vm id directory)) s
        (api.query (validate_export directory) id s.service) (kept.reads.query _ id _ valid)
        (λ _. quiet.query _ id _ valid) (job-Keeps [] (export_vm id directory) s)

  upload-Keeps : (u : Upload) → Keeps I R (Busy id) (handle_transfer_file api u id)
  unfolding one_of text_eq txt
  upload-Keeps oversized s = ((inl refl, λ i. i, λ _ r. r), inl (refl, refl, refl))
  upload-Keeps no_file s = ((inl refl, λ i. i, λ _ r. r), inl (refl, refl, refl))
  upload-Keeps unreadable s = ((inl refl, λ i. i, λ _ r. r), inl (refl, refl, refl))
  upload-Keeps (uploaded name content login) s =
      change-Keeps (transfer_file name content login) (busy id) (inr refl) s

  -- A body that is decoded, and a change under the lock.
  decoded-Keeps :
      {B : Type 0} (body : Option B) (c : B → Change) (b : Body P)
      → Harmless b
      → Keeps I R (Busy id) (with_body body (λ x. with_vm_lock id b (run_change api (c x) id)))
  decoded-Keeps body c b harmless =
      with_body-Keeps P I R (Busy id) body _ (λ x. change-Keeps (c x) b harmless)

  -- A stream is not quiet.
  loud_stream-Keeps :
      (action name : Text) (act : Act S P)
      → (text_eq action name ≡ true → is_stream_action action ≡ false → ⊥)
      → Keeps I R (λ s. ⊥) act
      → text_eq action name ≡ true
      → Keeps I R (NoStream action) act
  loud_stream-Keeps action name act loud all hit s =
      weaken-Handled P I R ⊥ (NoStream action s) s (act s) (loud hit) (all s)

  screen-stream_loud :
      (action : Text)
      → text_eq action (txt "screen-stream") ≡ true
      → is_stream_action action ≡ false
      → ⊥
  screen-stream_loud action hit calm = false≢true (sym calm ∙ rw hit refl)

  serial-stream_loud :
      (action : Text)
      → text_eq action (txt "serial-stream") ≡ true
      → is_stream_action action ≡ false
      → ⊥
  serial-stream_loud action hit calm = ground arith

  get_actions-Keep :
      (r : Request) (action : Text)
      → All
          (λ a. text_eq action a.0 ≡ true → Keeps I R (NoStream action) a.1)
          (get_actions api platform r id)
  unfolding get_actions
  get_actions-Keep r action =
      (λ _. query-Keeps action _)
      & (λ _. query-Keeps action _)
      & (λ _. query-Keeps action _)
      & (λ _. query-Keeps action _)
      & (λ _. query-Keeps action _)
      & (λ _. query-Keeps action _)
      & (λ _. query-Keeps action _)
      & (λ _. query-Keeps action _)
      & (λ _. query-Keeps action _)
      & (λ _. query-Keeps action _)
      & (λ _. query-Keeps action _)
      & (λ _. query-Keeps action _)
      & (λ _. query-Keeps action _)
      & loud_stream-Keeps action _ (handle_vm_screen_stream api r id) (screen-stream_loud action)
          (screen-Keeps r)
      & loud_stream-Keeps action _ (handle_vm_serial_stream api r id) (serial-stream_loud action)
          (serial-Keeps r)
      & tt

  lifecycle_actions-Keep :
      (json : Json) → All (λ a. Keeps I R (Busy id) a.1) (lifecycle_actions api platform id json)
  unfolding lifecycle_actions one_of text_eq txt
  lifecycle_actions-Keep json =
      control-Keeps _ _
      & control-Keeps _ _
      & control-Keeps _ _
      & control-Keeps _ _
      & control-Keeps _ _
      & change-Keeps _ _ (inr refl)
      & control-Keeps _ _
      & change-Keeps _ _ (inr refl)
      & change-Keeps _ _ (inr refl)
      & decoded-Keeps json.credentials _ _ (inr refl)
      & decoded-Keeps json.folder_add _ _ (inr refl)
      & decoded-Keeps json.folder_remove _ _ (inr refl)
      & upload-Keeps json.upload
      & decoded-Keeps json.guest_run _ _ (inr refl)
      & decoded-Keeps json.guest_copy_from _ _ (inr refl)
      & tt

  settings_actions-Keep :
      (json : Json) → All (λ a. Keeps I R (Busy id) a.1) (settings_actions api platform id json)
  unfolding settings_actions one_of text_eq txt
  settings_actions-Keep json =
      decoded-Keeps json.snapshot_take _ _ (inr refl)
      & decoded-Keeps json.snapshot _ _ (inr refl)
      & decoded-Keeps json.snapshot _ _ (inr refl)
      & decoded-Keeps json.network_mode _ _ (inr refl)
      & decoded-Keeps json.network_link _ _ (inr refl)
      & decoded-Keeps json.forwarding _ _ (inr refl)
      & decoded-Keeps json.forwarding_delete _ _ (inr refl)
      & decoded-Keeps json.usb_action _ _ (inr refl)
      & decoded-Keeps json.usb_action _ _ (inr refl)
      & decoded-Keeps json.hardware _ _ (inr refl)
      & decoded-Keeps json.disk_resize _ _ (inr refl)
      & decoded-Keeps json.disk_add _ _ (inr refl)
      & decoded-Keeps json.disk_detach _ _ (inr refl)
      & decoded-Keeps json.dvd_mount _ _ (inr refl)
      & change-Keeps _ _ (inr refl)
      & decoded-Keeps json.clipboard_mode _ _ tt
      & change-Keeps _ _ (inr refl)
      & decoded-Keeps json.credentials _ _ (inr refl)
      & with_body-Keeps P I R (Busy id) json.clone _ clone-Keeps
      & with_body-Keeps P I R (Busy id) json.export_to _ export-Keeps
      & tt

  -- A method that is not GET is quiet only if the machine is busy.
  other_method :
      (r : Request) (s : ServerState S)
      → text_eq r.method (txt "GET") ≡ false
      → (r.method ≡ txt "GET") ⊎ Busy id s
      → Busy id s
  other_method r s other (inl get) =
      absurd
        (false≢true (sym other ∙ (ap (λ m. text_eq m (txt "GET")) get ∙ text_eq_refl (txt "GET"))))
  other_method r s other (inr busy) = busy

  changing_action-Handled :
      (r : Request) (action : Text) → Keeps I R (Busy id) (changing_action api platform id r action)
  unfolding changing_action one_of text_eq txt
  changing_action-Handled r action s =
      either-Handled P I R (Busy id s) s _ (dispatch action (post_actions api platform id r.json) s)
        _
        (dispatch-Keeps P I R (Busy id) action (post_actions api platform id r.json)
          (All-append _ _ _ (lifecycle_actions-Keep r.json) (settings_actions-Keep r.json)) s)
        (either-Handled P I R (Busy id s) s (text_eq r.method (txt "DELETE")) _
          (method_not_allowed s)
          (either-Handled P I R (Busy id s) s (is_empty action) (locked_change api delete_vm id s)
            (not_found s) (change-Keeps delete_vm (busy id) (inr refl) s)
            (not_found-Keeps P I R (Busy id) s))
          (method_not_allowed-Keeps P I R (Busy id) s))

  pub vm_action-Handled :
      (r : Request) (action : Text) (s : ServerState S)
      → Handled I R (Calm (id, action) r s) s (vm_action api platform id r action s)
  unfolding vm_action
  vm_action-Handled r action s = elim (Bool-cases (text_eq r.method (txt "GET"))) [
    | inl get ↦ rw get (
        weaken-Handled P I R (NoStream action s) (Calm (id, action) r s) s
          (dispatch action (get_actions api platform r id) s)
          (λ calm. calm.0 (text_eq_sound r.method (txt "GET") get))
          (dispatch_named-Keeps P I R (NoStream action) action _ (get_actions-Keep r action) s))
    | inr other ↦ rw other (
        weaken-Handled P I R (Busy id s) (Calm (id, action) r s) s
          (changing_action api platform id r action s) (λ calm. other_method r s other calm.1)
          (changing_action-Handled r action s))
  ]
