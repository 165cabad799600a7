-- ===== src/Server/Handlers/Routes.antt =====
-- The routes: `handleVmByID`, the handlers that name no machine, and those of `Handler`.
use tab_vm.Strings.{Text, txt, text_eq, is_empty, has_prefix, trim_prefix, cut}
use mathlib.Core.Option
use tab_vm.Prelude.{if◌then◌else◌, false, Option, none, some, List, [], ◌∷◌, ◌++◌}
use tab_vm.Server.{Act, Api, not_found, Platform, respond, operation, method_not_allowed}
use tab_vm.Server.Handlers.{
  with_body, answered, accepted, handle_vm_screen_stream, handle_vm_serial_stream,
  handle_transfer_file, handle_clone_vm, handle_export_vm, or_internal,
}
use tab_vm.Server.Requests.{
  Json, Request, Aside, activity, Creation, discover, console_protocols, local_state, update_status,
  pick_folder, pick_file, list_vms, import_appliance, create_vm_unattended, create_vm_manual,
}
use tab_vm.VmId.{is_valid_vm_id}
use tab_vm.Server.Jobs.{start_create_job, handle_create_status}
use tab_vm.Server.Handlers.Machine.{
  handle_vm_status, handle_vm_start, handle_take_snapshot, handle_vm_delete,
  handle_vm_console_status, handle_vm_stop, handle_restore_snapshot, handle_vm_telemetry,
  handle_save_state, handle_delete_snapshot, handle_list_shared_folders, handle_vm_reset,
  handle_change_network_mode, handle_list_snapshots, handle_vm_power_off, handle_set_link_state,
  handle_network_options, handle_vm_console_prepare, handle_add_port_forwarding, handle_vm_usb,
  handle_vm_console_disable, handle_delete_port_forwarding, handle_vm_hardware,
  handle_enable_serial_console, handle_attach_usb, handle_vm_guest_os,
  handle_disable_serial_console, handle_detach_usb, handle_serial_console_status,
  handle_enable_serial_getty, handle_set_vm_hardware, handle_vm_storage, handle_add_shared_folder,
  handle_resize_disk, handle_get_clipboard_mode, handle_remove_shared_folder, handle_add_disk,
  handle_guest_additions_status, handle_guest_run, handle_detach_disk, handle_guest_copy_from,
  handle_mount_dvd, handle_eject_dvd, handle_set_clipboard_mode, handle_install_guest_additions,
  handle_update_guest_additions,
}

-- The first entry of that name, as a `switch` takes it.
unfoldable pub dispatch : {S P : Type 0} → Text → List (Text × Act S P) → Act S P
dispatch action [] s = not_found s
dispatch action ((name, act) ∷ rest) s =
    let others = dispatch action rest s in if text_eq action name then act s else others

-- `strings.SplitN(path, "/", 2)`.
abbrev pub id_and_action : Text → Option (Text × Text) → Text × Text
id_and_action path none = (path, [])
id_and_action path (some parts) = parts

unfoldable pub named_in : Text → Text × Text
named_in path = let rest = trim_prefix path (txt "/vms/") in id_and_action rest (cut rest b'/')

-- The routes of one path each, and what is behind them.
unfoldable pub first_route : {S P : Type 0} → Text → List (Text × Act S P) → Act S P → Act S P
first_route path [] otherwise s = otherwise s
first_route path ((exact, act) ∷ rest) otherwise s =
    let others = first_route path rest otherwise s in if text_eq path exact then act s else others

module _ {S P : Type 0} (api : Api S P) (platform : Platform S) where
  -- The actions of GET on a machine.
  unfoldable pub get_actions : Request → Text → List (Text × Act S P)
  get_actions r id =
      (txt "status", handle_vm_status api id)
      ∷ (txt "console", handle_vm_console_status api id)
      ∷ (txt "telemetry", handle_vm_telemetry api id)
      ∷ (txt "shared-folders", handle_list_shared_folders api id)
      ∷ (txt "snapshots", handle_list_snapshots api id)
      ∷ (txt "network", handle_network_options api id)
      ∷ (txt "usb", handle_vm_usb api id)
      ∷ (txt "hardware", handle_vm_hardware api id)
      ∷ (txt "guest-os", handle_vm_guest_os api id)
      ∷ (txt "serial-console", handle_serial_console_status api id)
      ∷ (txt "storage", handle_vm_storage api id)
      ∷ (txt "clipboard", handle_get_clipboard_mode api id)
      ∷ (txt "guest-additions", handle_guest_additions_status api id)
      ∷ (txt "screen-stream", handle_vm_screen_stream api r id)
      ∷ (txt "serial-stream", handle_vm_serial_stream api r id)
      ∷ []

  -- The actions of POST on a machine, with the body that each decodes.
  unfoldable pub lifecycle_actions : Text → Json → List (Text × Act S P)
  lifecycle_actions id json =
      (txt "start", handle_vm_start api id)
      ∷ (txt "stop", handle_vm_stop api id)
      ∷ (txt "savestate", handle_save_state api id)
      ∷ (txt "reset", handle_vm_reset api id)
      ∷ (txt "poweroff", handle_vm_power_off api id)
      ∷ (txt "console/prepare", handle_vm_console_prepare api id)
      ∷ (txt "console/disable", handle_vm_console_disable api id)
      ∷ (txt "serial-console/enable", handle_enable_serial_console api id)
      ∷ (txt "serial-console/disable", handle_disable_serial_console api id)
      ∷ (txt "serial-console/enable-getty", handle_enable_serial_getty api json id)
      ∷ (txt "shared-folders", handle_add_shared_folder api json id)
      ∷ (txt "shared-folders/remove", handle_remove_shared_folder api json id)
      ∷ (txt "files", handle_transfer_file api json.upload id)
      ∷ (txt "guest/run", handle_guest_run api json id)
      ∷ (txt "guest/copyfrom", handle_guest_copy_from api json id)
      ∷ []

  unfoldable pub settings_actions : Text → Json → List (Text × Act S P)
  settings_actions id json =
      (txt "snapshots", handle_take_snapshot api json id)
      ∷ (txt "snapshots/restore", handle_restore_snapshot api json id)
      ∷ (txt "snapshots/delete", handle_delete_snapshot api json id)
      ∷ (txt "network", handle_change_network_mode api json id)
      ∷ (txt "network/link", handle_set_link_state api json id)
      ∷ (txt "network/forwarding", handle_add_port_forwarding api json id)
      ∷ (txt "network/forwarding/delete", handle_delete_port_forwarding api json id)
      ∷ (txt "usb/attach", handle_attach_usb api json id)
      ∷ (txt "usb/detach", handle_detach_usb api json id)
      ∷ (txt "hardware", handle_set_vm_hardware api json id)
      ∷ (txt "storage/resize", handle_resize_disk api json id)
      ∷ (txt "storage/add", handle_add_disk api json id)
      ∷ (txt "storage/detach", handle_detach_disk api json id)
      ∷ (txt "storage/dvd", handle_mount_dvd api json id)
      ∷ (txt "storage/dvd/eject", handle_eject_dvd api id)
      ∷ (txt "clipboard", handle_set_clipboard_mode api json id)
      ∷ (txt "guest-additions/install", handle_install_guest_additions api id)
      ∷ (txt "guest-additions/update", handle_update_guest_additions api json id)
      ∷ (txt "clone", with_body json.clone (λ b. handle_clone_vm api platform id b))
      ∷ (txt "export", with_body json.export_to (λ b. handle_export_vm api platform id b))
      ∷ []

  abbrev pub post_actions : Text → Json → List (Text × Act S P)
  post_actions id json = lifecycle_actions id json ++ settings_actions id json

  abbrev pub invalid_identifier : Text → Act S P
  invalid_identifier id = respond 400 (operation false id (txt "Invalid VM identifier."))

  -- The methods of a machine but GET.
  unfoldable pub changing_action : Text → Request → Text → Act S P
  changing_action id r action s =
      if text_eq r.method (txt "POST")
      then dispatch action (post_actions id r.json) s
      else (if text_eq r.method (txt "DELETE")
          then (if is_empty action then handle_vm_delete api id s else not_found s)
          else method_not_allowed s)

  unfoldable pub vm_action : Text → Request → Text → Act S P
  vm_action id r action s =
      if text_eq r.method (txt "GET")
      then dispatch action (get_actions r id) s
      else changing_action id r action s

  unfoldable pub checked_action : Request → Text × Text → Act S P
  checked_action r (id, action) s =
      if is_valid_vm_id id then vm_action id r action s else invalid_identifier id s

  unfoldable pub handle_vm_by_id : Request → Act S P
  handle_vm_by_id r = checked_action r (named_in r.path)

  -- The handlers that answer only GET, from one call.
  unfoldable pub handle_get : Aside → Request → Act S P
  handle_get a r s =
      if text_eq r.method (txt "GET")
      then answered s (api.ask a s.service)
      else method_not_allowed s

  unfoldable pub handle_activity : Request → Act S P
  handle_activity r s =
      if text_eq r.method (txt "GET")
      then or_internal (txt "Failed to read activity log.") s (api.ask activity s.service)
      else method_not_allowed s

  -- `handlePickFolder` and `handlePickFile`.
  unfoldable pub handle_pick : Aside → Text → Request → Act S P
  handle_pick a text r s =
      if text_eq r.method (txt "POST")
      then or_internal text s (api.ask a s.service)
      else method_not_allowed s

  -- `handleImportVm`, `handleCreateVm` and `handleCreateVmManual`.
  unfoldable pub handle_create : Request → Option (Text × Creation) → Act S P
  handle_create r body s =
      if text_eq r.method (txt "POST")
      then with_body body (λ b s1. accepted (start_create_job api platform b.0 b.1 none s1)) s
      else method_not_allowed s

  -- The routes of `apiMux` with one path each; the longer pattern wins over `/vms/`.
  unfoldable pub api_routes : Request → List (Text × Act S P)
  api_routes r =
      (txt "/vbox/discovery", handle_get discover r)
      ∷ (txt "/console/protocols", handle_get console_protocols r)
      ∷ (txt "/local-state/status", handle_get local_state r)
      ∷ (txt "/update-status", handle_get update_status r)
      ∷ (
        txt "/host/pick-folder",
        handle_pick pick_folder (txt "Could not open the folder picker.") r,
      )
      ∷ (txt "/host/pick-file", handle_pick pick_file (txt "Could not open the file picker.") r)
      ∷ (txt "/activity", handle_activity r)
      ∷ (txt "/vms", handle_get list_vms r)
      ∷ (
        txt "/vms/import",
        handle_create r (Option.map (λ b. (b.name, import_appliance b)) r.json.import_from),
      )
      ∷ (
        txt "/vms/create",
        handle_create r (Option.map (λ b. (b.name, create_vm_unattended b)) r.json.create),
      )
      ∷ (
        txt "/vms/create-manual",
        handle_create r (Option.map (λ b. (b.name, create_vm_manual b)) r.json.create_manual),
      )
      ∷ (txt "/vms/create/status", handle_create_status api platform r)
      ∷ []

  -- The pattern `/vms/`, behind the others.
  unfoldable pub subtree : Request → Act S P
  subtree r = if has_prefix r.path (txt "/vms/") then handle_vm_by_id r else not_found

  unfoldable pub api_mux : Request → Act S P
  api_mux r = first_route r.path (api_routes r) (subtree r)
