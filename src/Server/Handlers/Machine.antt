-- ===== src/Server/Handlers/Machine.antt =====
-- The handlers of one machine (server.go): the body that each decodes, the lock and the call.
use tab_vm.Server.Requests.{
  vm_guest_os, disable_vm_console, attach_usb, vm_status, start_vm, stop_vm, save_state, reset_vm,
  force_power_off, vm_hardware, vm_usb, list_snapshots, network_options, serial_console_status,
  get_clipboard_mode, prepare_vm_console, enable_serial_console, disable_serial_console,
  take_snapshot, delete_snapshot, change_network_mode, set_link_state, add_port_forwarding,
  delete_port_forwarding, detach_usb, set_vm_hardware, resize_disk, add_disk, detach_disk,
  set_clipboard_mode, delete_vm, Json, vm_console_status, vm_telemetry, restore_snapshot,
  list_shared_folders, vm_storage, enable_serial_getty, mount_dvd, guest_additions_status,
  add_shared_folder, eject_dvd, remove_shared_folder, run_in_guest, copy_from_guest,
  install_guest_additions, update_guest_additions,
}
use tab_vm.Server.Handlers.{
  run_query, handle_vm_operation, with_body, locked_change, lifecycle_change, with_vm_lock,
  run_change,
}
use tab_vm.Strings.{Text, txt}
use tab_vm.Server.{Api, Act, clipboard_for}

module _ {S P : Type 0} (api : Api S P) where
  abbrev pub handle_vm_status : Text → Act S P
  handle_vm_status id = run_query api vm_status id

  abbrev pub handle_vm_console_status : Text → Act S P
  handle_vm_console_status id = run_query api vm_console_status id

  abbrev pub handle_vm_telemetry : Text → Act S P
  handle_vm_telemetry id = run_query api vm_telemetry id

  abbrev pub handle_list_shared_folders : Text → Act S P
  handle_list_shared_folders id = run_query api list_shared_folders id

  abbrev pub handle_list_snapshots : Text → Act S P
  handle_list_snapshots id = run_query api list_snapshots id

  abbrev pub handle_network_options : Text → Act S P
  handle_network_options id = run_query api network_options id

  abbrev pub handle_vm_usb : Text → Act S P
  handle_vm_usb id = run_query api vm_usb id

  abbrev pub handle_vm_hardware : Text → Act S P
  handle_vm_hardware id = run_query api vm_hardware id

  abbrev pub handle_vm_guest_os : Text → Act S P
  handle_vm_guest_os id = run_query api vm_guest_os id

  abbrev pub handle_serial_console_status : Text → Act S P
  handle_serial_console_status id = run_query api serial_console_status id

  abbrev pub handle_vm_storage : Text → Act S P
  handle_vm_storage id = run_query api vm_storage id

  abbrev pub handle_get_clipboard_mode : Text → Act S P
  handle_get_clipboard_mode id = run_query api get_clipboard_mode id

  abbrev pub handle_guest_additions_status : Text → Act S P
  handle_guest_additions_status id = run_query api guest_additions_status id

  abbrev pub handle_vm_start : Text → Act S P
  handle_vm_start id = handle_vm_operation api start_vm (txt "VM start requested.") id

  abbrev pub handle_vm_stop : Text → Act S P
  handle_vm_stop id =
      handle_vm_operation api stop_vm (txt "VM stop requested. ACPI shutdown signal sent.") id

  abbrev pub handle_save_state : Text → Act S P
  handle_save_state id =
      handle_vm_operation api save_state (txt "VM state saved. Start it to resume.") id

  abbrev pub handle_vm_reset : Text → Act S P
  handle_vm_reset id = handle_vm_operation api reset_vm (txt "VM reset requested.") id

  abbrev pub handle_vm_power_off : Text → Act S P
  handle_vm_power_off id = handle_vm_operation api force_power_off (txt "VM power off forced.") id

  abbrev pub handle_vm_console_prepare : Text → Act S P
  handle_vm_console_prepare id = lifecycle_change api prepare_vm_console id

  abbrev pub handle_vm_console_disable : Text → Act S P
  handle_vm_console_disable id =
      handle_vm_operation api disable_vm_console (txt "VRDE console disabled.") id

  abbrev pub handle_enable_serial_console : Text → Act S P
  handle_enable_serial_console id = locked_change api enable_serial_console id

  abbrev pub handle_disable_serial_console : Text → Act S P
  handle_disable_serial_console id = locked_change api disable_serial_console id

  abbrev pub handle_enable_serial_getty : Json → Text → Act S P
  handle_enable_serial_getty json id =
      with_body json.credentials (λ b. locked_change api (enable_serial_getty b) id)

  abbrev pub handle_add_shared_folder : Json → Text → Act S P
  handle_add_shared_folder json id =
      with_body json.folder_add (λ b. lifecycle_change api (add_shared_folder b) id)

  abbrev pub handle_remove_shared_folder : Json → Text → Act S P
  handle_remove_shared_folder json id =
      with_body json.folder_remove (λ b. lifecycle_change api (remove_shared_folder b) id)

  abbrev pub handle_guest_run : Json → Text → Act S P
  handle_guest_run json id = with_body json.guest_run (λ b. locked_change api (run_in_guest b) id)

  abbrev pub handle_guest_copy_from : Json → Text → Act S P
  handle_guest_copy_from json id =
      with_body json.guest_copy_from (λ b. locked_change api (copy_from_guest b) id)

  abbrev pub handle_take_snapshot : Json → Text → Act S P
  handle_take_snapshot json id =
      with_body json.snapshot_take (λ b. locked_change api (take_snapshot b) id)

  abbrev pub handle_restore_snapshot : Json → Text → Act S P
  handle_restore_snapshot json id =
      with_body json.snapshot (λ b. locked_change api (restore_snapshot b) id)

  abbrev pub handle_delete_snapshot : Json → Text → Act S P
  handle_delete_snapshot json id =
      with_body json.snapshot (λ b. locked_change api (delete_snapshot b) id)

  abbrev pub handle_change_network_mode : Json → Text → Act S P
  handle_change_network_mode json id =
      with_body json.network_mode (λ b. locked_change api (change_network_mode b) id)

  abbrev pub handle_set_link_state : Json → Text → Act S P
  handle_set_link_state json id =
      with_body json.network_link (λ b. locked_change api (set_link_state b) id)

  abbrev pub handle_add_port_forwarding : Json → Text → Act S P
  handle_add_port_forwarding json id =
      with_body json.forwarding (λ b. locked_change api (add_port_forwarding b) id)

  abbrev pub handle_delete_port_forwarding : Json → Text → Act S P
  handle_delete_port_forwarding json id =
      with_body json.forwarding_delete (λ b. locked_change api (delete_port_forwarding b) id)

  abbrev pub handle_attach_usb : Json → Text → Act S P
  handle_attach_usb json id = with_body json.usb_action (λ b. locked_change api (attach_usb b) id)

  abbrev pub handle_detach_usb : Json → Text → Act S P
  handle_detach_usb json id = with_body json.usb_action (λ b. locked_change api (detach_usb b) id)

  abbrev pub handle_set_vm_hardware : Json → Text → Act S P
  handle_set_vm_hardware json id =
      with_body json.hardware (λ b. locked_change api (set_vm_hardware b) id)

  abbrev pub handle_resize_disk : Json → Text → Act S P
  handle_resize_disk json id =
      with_body json.disk_resize (λ b. locked_change api (resize_disk b) id)

  abbrev pub handle_add_disk : Json → Text → Act S P
  handle_add_disk json id = with_body json.disk_add (λ b. locked_change api (add_disk b) id)

  abbrev pub handle_detach_disk : Json → Text → Act S P
  handle_detach_disk json id =
      with_body json.disk_detach (λ b. locked_change api (detach_disk b) id)

  abbrev pub handle_mount_dvd : Json → Text → Act S P
  handle_mount_dvd json id = with_body json.dvd_mount (λ b. locked_change api (mount_dvd b) id)

  abbrev pub handle_eject_dvd : Text → Act S P
  handle_eject_dvd id = locked_change api eject_dvd id

  abbrev pub handle_set_clipboard_mode : Json → Text → Act S P
  handle_set_clipboard_mode json id =
      with_body json.clipboard_mode
        (λ b. with_vm_lock id (clipboard_for id) (run_change api (set_clipboard_mode b) id))

  abbrev pub handle_install_guest_additions : Text → Act S P
  handle_install_guest_additions id = lifecycle_change api install_guest_additions id

  abbrev pub handle_update_guest_additions : Json → Text → Act S P
  handle_update_guest_additions json id =
      with_body json.credentials (λ b. lifecycle_change api (update_guest_additions b) id)

  abbrev pub handle_vm_delete : Text → Act S P
  handle_vm_delete id = locked_change api delete_vm id
