-- ===== src/Ops/Usb.antt =====
-- USB devices of the host and of a machine: usb.go.
use tab_vm.Service.{
  VmError, not_discovered, validation, execution, other, Host, Service, M, ◌>>=◌, ◌>>◌, return,
  require, Response, invalid_vm, map_error,
}
use tab_vm.Service.Run.{
  read_show_vm_info, read_show_vm_info_human, run_control_command, log_operation, log_failure,
  or_log, seconds, exec_optional, optional,
}
use tab_vm.Service.Discover.{resolve_vbox_manage}
use tab_vm.Ops.Lifecycle.{control_failure_message}
use tab_vm.Parse.{
  parse_vm_state, vm_state_is_live, after_label, machine_pairs, split_machine_readable,
}
use tab_vm.VmId.{is_valid_vm_id}
use mathlib.Core.Option
use tab_vm.Strings.{Text, txt, is_empty, one_of, to_lower, equal_fold, trim_space, lines, cut}
use tab_vm.Strings.Search.{contains, fields}
use tab_vm.Prelude.{
  if◌then◌else◌, Bool, true, false, not, ◌&&◌, ◌||◌, Option, none, some, List, [], ◌∷◌, map,
}

abbrev pub extension_pack_name : Text
extension_pack_name = txt "Oracle VirtualBox Extension Pack"

abbrev pub usb_attached_field_labels : List Text
usb_attached_field_labels =
    txt "uuid"
    ∷ txt "vendorid"
    ∷ txt "productid"
    ∷ txt "revision"
    ∷ txt "manufacturer"
    ∷ txt "product"
    ∷ txt "serialnumber"
    ∷ txt "address"
    ∷ txt "port"
    ∷ txt "current state"
    ∷ txt "backend"
    ∷ []

abbrev pub list_usb_host_args : List Text
list_usb_host_args = txt "list" ∷ txt "usbhost" ∷ []

abbrev pub list_extpacks_args : List Text
list_extpacks_args = txt "list" ∷ txt "extpacks" ∷ []

abbrev pub usb_attach_args : Text → Text → List Text
usb_attach_args id device = txt "controlvm" ∷ id ∷ txt "usbattach" ∷ device ∷ []

abbrev pub usb_detach_args : Text → Text → List Text
usb_detach_args id device = txt "controlvm" ∷ id ∷ txt "usbdetach" ∷ device ∷ []

pub record UsbDevice : Type 0 where
  pub uuid : Text
  pub vendor_id : Text
  pub product_id : Text
  pub manufacturer : Text
  pub product : Text
  pub state : Text
  pub attached_here : Bool

abbrev pub usb_device : Text → UsbDevice
usb_device uuid = record {
  uuid = uuid;
  vendor_id = [];
  product_id = [];
  manufacturer = [];
  product = [];
  state = [];
  attached_here = false;
}

unfoldable pub first_field : Text → Text
first_field s = elim (fields s) [ [] ↦ [] | f ∷ _ ↦ f ]

abbrev pub or_else : {A : Type 0} → Option A → A → A
or_else (some a) b = a
or_else none b = b

-- A field of the current device; the labels are tried in this order.
unfoldable pub usb_field : Text → UsbDevice → UsbDevice
usb_field line d =
    or_else
      (Option.map (λ v. record d { vendor_id = first_field v })
        (after_label line (txt "VendorId:")))
      (or_else
        (Option.map (λ v. record d { product_id = first_field v })
          (after_label line (txt "ProductId:")))
        (or_else
          (Option.map (λ v. record d { manufacturer = trim_space v })
            (after_label line (txt "Manufacturer:")))
          (or_else
            (Option.map (λ v. record d { product = trim_space v })
              (after_label line (txt "Product:")))
            (or_else
              (Option.map (λ v. record d { state = trim_space v })
                (after_label line (txt "Current State:")))
              d))))

abbrev pub flush : Option UsbDevice → List UsbDevice → List UsbDevice
flush none ds = ds
flush (some d) ds = if is_empty d.uuid then ds else d ∷ ds

-- `cur` is the device whose lines are read.
unfoldable pub usb_devices_from : Option UsbDevice → List Text → List UsbDevice
usb_devices_from cur [] = flush cur []
usb_devices_from cur (l ∷ ls) = elim (after_label (trim_space l) (txt "UUID:")) [
  | some v ↦ flush cur (usb_devices_from (some (usb_device (trim_space v))) ls)
  | none ↦ usb_devices_from (Option.map (usb_field (trim_space l)) cur) ls
]

unfoldable pub parse_usb_host_devices : Text → List UsbDevice
parse_usb_host_devices output = usb_devices_from none (lines output)

-- A line of the section without an identifier ends it if its label is no field of a device.
unfoldable pub ends_section : Text → Bool
ends_section line = elim (cut line b':') [
  | none ↦ false
  | some (label, _) ↦ not (one_of usb_attached_field_labels (to_lower (trim_space label)))
]

abbrev pub if_uuid : Text → List Text → List Text
if_uuid u us = if is_valid_vm_id u then u ∷ us else us

unfoldable pub attached_in_section : List Text → List Text
attached_in_section [] = []
attached_in_section (l ∷ ls) = elim (after_label (trim_space l) (txt "UUID:")) [
  | some v ↦ if_uuid (to_lower (trim_space v)) (attached_in_section ls)
  | none ↦ elim (ends_section (trim_space l)) [ true ↦ [] | false ↦ attached_in_section ls ]
]

unfoldable pub attached_from : List Text → List Text
attached_from [] = []
attached_from (l ∷ ls) = elim (after_label (trim_space l) (txt "Currently Attached USB Devices:")) [
  | some rest ↦ if contains (to_lower rest) (txt "none") then [] else attached_in_section ls
  | none ↦ attached_from ls
]

unfoldable pub parse_attached_usb_uuids : Text → List Text
parse_attached_usb_uuids human = attached_from (lines human)

unfoldable pub usb_enabled_in : List (Text × Text) → Bool
usb_enabled_in [] = false
usb_enabled_in ((key, value) ∷ ps) =
    (one_of (txt "usb" ∷ txt "ehci" ∷ txt "xhci" ∷ []) key && equal_fold value (txt "on"))
    || usb_enabled_in ps

unfoldable pub parse_usb_controller_enabled : Text → Bool
parse_usb_controller_enabled output =
    usb_enabled_in (machine_pairs split_machine_readable (lines output))

unfoldable pub parse_extension_pack_installed : Text → Bool
parse_extension_pack_installed output = contains (to_lower output) (to_lower extension_pack_name)

-- The three known failures, by the standard error in lower case.
unfoldable pub usb_failure : Text → Option Text
usb_failure e =
    if contains e (txt "usb proxy service")
      || (contains e (txt "vboxusb") || contains e (txt "host usb"))
    then some (
        txt
          "The host USB service is unavailable. Reinstall VirtualBox so its USB driver is registered, then reconnect the device.")
    else if contains e (txt "extension pack")
        || (contains e (txt "extpack")
            || (contains e (txt "usb 2.0") || contains e (txt "usb 3.0")))
    then some (
        txt
          "Attaching this device needs the Oracle VirtualBox Extension Pack. Install it, then try again.")
    else if contains e (txt "no usb controller") || contains e (txt "usb controller")
    then some (
        txt
          "This VM has no USB controller enabled. Power the VM off and enable USB in its settings first.")
    else none

unfoldable pub map_usb_control_error : VmError → VmError
map_usb_control_error (execution code stderr message) =
    or_else (Option.map validation (usb_failure (to_lower stderr))) (execution code stderr message)
map_usb_control_error (not_discovered m) = not_discovered m
map_usb_control_error (validation m) = validation m
map_usb_control_error (other m) = other m

pub record VmUsb : Type 0 where
  pub devices : List UsbDevice
  pub extension_pack_installed : Bool
  pub usb_controller_enabled : Bool

unfoldable pub mark_attached : List Text → UsbDevice → UsbDevice
mark_attached uuids d =
    if one_of uuids (to_lower d.uuid) then record d { attached_here = true } else d

abbrev pub usb_list : Option Text → List UsbDevice
usb_list none = []
usb_list (some output) = parse_usb_host_devices output

abbrev pub marked : Option Text → List UsbDevice → List UsbDevice
marked none ds = ds
marked (some human) ds = map (mark_attached (parse_attached_usb_uuids human)) ds

abbrev pub installed : Option Text → Bool
installed none = false
installed (some output) = parse_extension_pack_installed output

-- What differs between attaching and detaching.
abbrev pub usb_args : Bool → Text → Text → List Text
usb_args true id device = usb_attach_args id device
usb_args false id device = usb_detach_args id device

abbrev pub usb_log_action : Bool → Text
usb_log_action attach = if attach then txt "vm.usb.attach" else txt "vm.usb.detach"

abbrev pub usb_verb : Bool → Text
usb_verb attach = if attach then txt "attaching USB device" else txt "detaching USB device"

abbrev pub not_running : Text
not_running = txt "The VM must be running to attach or detach USB devices."

module _ {W : Type 0} (host : Host W) (svc : Service) where
  unfoldable pub vm_usb : Text → M W VmUsb
  vm_usb id = do
    require (is_valid_vm_id id) invalid_vm
    path ← resolve_vbox_manage host svc
    info ← read_show_vm_info host path id (txt "reading USB controller configuration")
    listed ← exec_optional host path list_usb_host_args (seconds 10)
    human ← optional (read_show_vm_info_human host path id (txt "reading attached USB devices"))
    packs ← exec_optional host path list_extpacks_args (seconds 10)
    return (record {
      devices = marked human (usb_list listed);
      extension_pack_installed = installed packs;
      usb_controller_enabled = parse_usb_controller_enabled info;
    })

  unfoldable pub usb_action : Text → Text → Bool → M W Response
  usb_action id device attach = do
    require (is_valid_vm_id id) invalid_vm
    require (is_valid_vm_id device) (validation (txt "Invalid USB device identifier."))
    path ←
        or_log svc (resolve_vbox_manage host svc) id (usb_log_action attach)
          (txt "VirtualBox/VBoxManage not discovered.")
    info ← read_show_vm_info host path id (txt "reading VM state before USB change")
    or_log svc (require (vm_state_is_live (parse_vm_state info)) (validation not_running)) id
        (usb_log_action attach) not_running
    (λ s. map_error map_usb_control_error (
        log_failure svc id (usb_log_action attach) (control_failure_message (usb_verb attach))
          (run_control_command host id path (usb_args attach id device) (usb_verb attach) s)))
    log_operation svc id (usb_log_action attach) true []
    return (record {
      success = true;
      vm_id = id;
      message =
          if attach
          then txt "USB device attached to the VM."
          else txt "USB device detached from the VM.";
    })

  unfoldable pub attach_usb : Text → Text → M W Response
  attach_usb id device = usb_action id device true

  unfoldable pub detach_usb : Text → Text → M W Response
  detach_usb id device = usb_action id device false
