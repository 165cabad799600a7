-- ===== src/Server/Requests.antt =====
-- What a client sends (the request bodies of models.go and server.go), and the calls that the handlers
-- make: the methods of `vbox.Service`, with their arguments but the machine's identifier.
use tab_vm.Strings.{Text}
use tab_vm.Prelude.Int.{ℤ}
use tab_vm.Prelude.{Bool, Option, List}
use tab_vm.Ops.PortForwarding.{ForwardingRequest}

pub record FolderAdd : Type 0 where
  pub name : Text
  pub host_path : Text

pub record FolderRemove : Type 0 where
  pub name : Text

pub record GuestRun : Type 0 where
  pub exe : Text
  pub args : List Text
  pub username : Text
  pub password : Text

pub record GuestCopyFrom : Type 0 where
  pub guest_path : Text
  pub directory : Text
  pub username : Text
  pub password : Text

pub record NetworkMode : Type 0 where
  pub slot : ℤ
  pub mode : Text
  pub adapter : Text

pub record NetworkLink : Type 0 where
  pub slot : ℤ
  pub connected : Bool

pub record ForwardingDelete : Type 0 where
  pub slot : ℤ
  pub name : Text

pub record SnapshotTake : Type 0 where
  pub name : Text
  pub description : Text

pub record HardwareRequest : Type 0 where
  pub cpus : ℤ
  pub memory_mb : ℤ

pub record DiskResize : Type 0 where
  pub uuid : Text
  pub size_mb : ℤ

pub record DiskDetach : Type 0 where
  pub uuid : Text
  pub delete_file : Bool

-- `SerialGettyRequest` and `GuestAdditionsUpdateRequest`.
pub record Credentials : Type 0 where
  pub username : Text
  pub password : Text

pub record CloneRequest : Type 0 where
  pub name : Text
  pub linked : Bool

pub record ImportRequest : Type 0 where
  pub ova_path : Text
  pub name : Text

pub record CreateRequest : Type 0 where
  pub name : Text
  pub os_type : Text
  pub iso_path : Text
  pub memory_mb : ℤ
  pub cpus : ℤ
  pub disk_gb : ℤ
  pub username : Text
  pub password : Text
  pub hostname : Text

pub record CreateManualRequest : Type 0 where
  pub name : Text
  pub os_type : Text
  pub iso_path : Text
  pub memory_mb : ℤ
  pub cpus : ℤ
  pub disk_gb : ℤ

-- `VmCreateResponse`, as far as the server reads it.
pub record Created : Type 0 where
  pub vm_id : Text
  pub name : Text
  pub message : Text

-- The methods that only read.
pub data Query : Type 0 where
  vm_status vm_console_status vm_telemetry list_shared_folders list_snapshots : Query
  network_options vm_usb vm_hardware vm_guest_os serial_console_status : Query
  vm_storage get_clipboard_mode guest_additions_status : Query
  validate_clone : Text → Bool → Query
  validate_export : Text → Query

-- The methods that return only an error.
pub data Control : Type 0 where
  start_vm stop_vm save_state reset_vm force_power_off disable_vm_console : Control

-- The other methods that change a machine.
pub data Change : Type 0 where
  prepare_vm_console enable_serial_console disable_serial_console : Change
  eject_dvd delete_vm install_guest_additions : Change
  enable_serial_getty update_guest_additions : Credentials → Change
  add_shared_folder : FolderAdd → Change
  remove_shared_folder : FolderRemove → Change
  transfer_file : Text → Text → Credentials → Change  -- the file's name and content
  run_in_guest : GuestRun → Change
  copy_from_guest : GuestCopyFrom → Change
  take_snapshot : SnapshotTake → Change
  restore_snapshot delete_snapshot : Text → Change
  change_network_mode : NetworkMode → Change
  set_link_state : NetworkLink → Change
  add_port_forwarding : ForwardingRequest → Change
  delete_port_forwarding : ForwardingDelete → Change
  attach_usb detach_usb : Text → Change
  set_vm_hardware : HardwareRequest → Change
  resize_disk : DiskResize → Change
  add_disk : ℤ → Change
  detach_disk : DiskDetach → Change
  mount_dvd : Text → Change
  set_clipboard_mode : Text → Change

-- The work of a background job.
pub data Creation : Type 0 where
  import_appliance : ImportRequest → Creation
  create_vm_unattended : CreateRequest → Creation
  create_vm_manual : CreateManualRequest → Creation
  clone_vm : Text → CloneRequest → Creation
  export_vm : Text → Text → Creation

-- Calls that name no machine, of the service and of other packages.
pub data Aside : Type 0 where
  list_vms discover health update_status console_protocols local_state activity : Aside
  pick_folder pick_file locate_vbox_manage : Aside

-- The two streams between a client and a machine's guest: its screen, keyboard and mouse
-- (`vmscreen.Capturer`), and its serial pipe (`serialterm`).
pub data Stream : Type 0 where
  screen_stream serial_stream : Stream

-- `r.ParseMultipartForm` with the file and the fields of the form, and where it failed.
pub data Upload : Type 0 where
  oversized no_file unreadable : Upload
  uploaded : Text → Text → Credentials → Upload

-- The body that `decodeJSONBody` reads: each field is what `encoding/json` makes of the bytes as that
-- struct, if at most 8 KB of them have its fields and no other.
pub record Json : Type 0 where
  pub folder_add : Option FolderAdd
  pub folder_remove : Option FolderRemove
  pub upload : Upload
  pub guest_run : Option GuestRun
  pub guest_copy_from : Option GuestCopyFrom
  pub snapshot_take : Option SnapshotTake
  pub snapshot : Option Text
  pub network_mode : Option NetworkMode
  pub network_link : Option NetworkLink
  pub forwarding : Option ForwardingRequest
  pub forwarding_delete : Option ForwardingDelete
  pub usb_action : Option Text
  pub hardware : Option HardwareRequest
  pub disk_resize : Option DiskResize
  pub disk_add : Option ℤ
  pub disk_detach : Option DiskDetach
  pub dvd_mount : Option Text
  pub clipboard_mode : Option Text
  pub credentials : Option Credentials
  pub clone : Option CloneRequest
  pub export_to : Option Text
  pub import_from : Option ImportRequest
  pub create : Option CreateRequest
  pub create_manual : Option CreateManualRequest

pub record Request : Type 0 where
  pub method : Text
  pub host : Text
  pub path : Text
  pub session_token : Text  -- the header `X-TabVM-Session-Token`
  pub origin : Text  -- the header `Origin`
  pub protocols : List Text  -- the values of `Sec-WebSocket-Protocol`
  pub query_token : Text
  pub query_job : Text
  pub json : Json
