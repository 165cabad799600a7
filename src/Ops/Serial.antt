-- ===== src/Ops/Serial.antt =====
-- The serial console of a machine: serialconsole.go, and the guest families of guestos.go.
use tab_vm.Service.{
  validation, Host, Service, State, M, ◌>>=◌, ◌>>◌, return, require, Response, invalid_vm, VmResult,
  ok, err,
}
use tab_vm.Service.Run.{
  read_show_vm_info, run_control_command, run_control_command_timeout, log_operation, or_log,
  seconds,
}
use tab_vm.Service.Discover.{resolve_vbox_manage}
use tab_vm.Parse.{
  parse_vm_state, parse_guest_os_type, vm_state_is_live, machine_pairs, split_machine_readable,
}
use tab_vm.VmId.{is_valid_vm_id}
use mathlib.Core.List.{foldl}
use tab_vm.Strings.{
  Text, txt, text_eq, is_empty, to_lower, trim_space, has_prefix, equal_fold, lines, trim_prefix,
}
use tab_vm.Strings.Search.{contains}
use tab_vm.Prelude.{◌++◌, if◌then◌else◌, Bool, false, not, ◌||◌, List, [], ◌∷◌, ◌&&◌, true}

abbrev pub linux_os_type_markers : List Text
linux_os_type_markers =
    txt "linux"
    ∷ txt "ubuntu"
    ∷ txt "debian"
    ∷ txt "fedora"
    ∷ txt "redhat"
    ∷ txt "gentoo"
    ∷ txt "arch"
    ∷ txt "opensuse"
    ∷ txt "suse"
    ∷ txt "mandriva"
    ∷ txt "turbolinux"
    ∷ txt "xandros"
    ∷ txt "oracle"
    ∷ txt "rhel"
    ∷ txt "centos"
    ∷ txt "rocky"
    ∷ txt "alma"
    ∷ txt "kali"
    ∷ txt "mint"
    ∷ txt "zorin"
    ∷ []

unfoldable pub contains_one : Text → List Text → Bool
contains_one s [] = false
contains_one s (m ∷ ms) = contains s m || contains_one s ms

unfoldable pub guest_family : Text → Text
guest_family os_type =
    let s = to_lower (trim_space os_type) in
    if is_empty s
    then []
    else if has_prefix s (txt "windows")
    then txt "windows"
    else if contains_one s linux_os_type_markers
    then txt "linux"
    else txt "other"

unfoldable pub guest_terminal_capable : Text → Bool
guest_terminal_capable family = text_eq family (txt "linux")

pub record GuestOs : Type 0 where
  pub vm_id : Text
  pub os_type : Text
  pub family : Text
  pub terminal_capable : Bool

pub record SerialStatus : Type 0 where
  pub vm_id : Text
  pub enabled : Bool
  pub terminal_capable : Bool
  pub running : Bool
  pub editable : Bool

unfoldable pub serial_pipe_name : Text → Text
serial_pipe_name id = txt "\\\\.\\pipe\\tabvm-serial-" ++ id

abbrev pub enable_serial_console_args : Text → Text → List Text
enable_serial_console_args id pipe =
    txt "modifyvm"
    ∷ id
    ∷ txt "--uart1"
    ∷ txt "0x3F8"
    ∷ txt "4"
    ∷ txt "--uartmode1"
    ∷ txt "server"
    ∷ pipe
    ∷ []

abbrev pub disable_serial_console_args : Text → List Text
disable_serial_console_args id = txt "modifyvm" ∷ id ∷ txt "--uart1" ∷ txt "off" ∷ []

-- The last value of each of the two keys.
unfoldable pub uart_pair : Text × Text → Text × Text → Text × Text
uart_pair (uart, mode) (key, value) =
    if text_eq key (txt "uart1")
    then (value, mode)
    else if text_eq key (txt "uartmode1")
    then (uart, value)
    else (uart, mode)

unfoldable pub serial_of : Text × Text → Bool × Text
serial_of (uart, mode) =
    if is_empty uart || equal_fold uart (txt "off")
    then (false, [])
    else if has_prefix mode (txt "server,")
    then (true, trim_prefix mode (txt "server,"))
    else (false, [])

unfoldable pub parse_serial_console : Text → Bool × Text
parse_serial_console output =
    serial_of (foldl uart_pair ([], []) (machine_pairs split_machine_readable (lines output)))

unfoldable pub serial_console_enabled_for : Text → Text → Bool
serial_console_enabled_for info id =
    (parse_serial_console info).0 && equal_fold (parse_serial_console info).1 (serial_pipe_name id)

module _ {W : Type 0} (host : Host W) (svc : Service) where
  -- `VmGuestOS` of guestos.go.
  unfoldable pub vm_guest_os : Text → M W GuestOs
  vm_guest_os id = do
    require (is_valid_vm_id id) invalid_vm
    path ← resolve_vbox_manage host svc
    info ← read_show_vm_info host path id (txt "reading guest OS")
    return (record {
      vm_id = id;
      os_type = parse_guest_os_type info;
      family = guest_family (parse_guest_os_type info);
      terminal_capable = guest_terminal_capable (guest_family (parse_guest_os_type info));
    })

  unfoldable pub serial_console_status : Text → M W SerialStatus
  serial_console_status id = do
    require (is_valid_vm_id id) invalid_vm
    path ← resolve_vbox_manage host svc
    info ← read_show_vm_info host path id (txt "reading serial console status")
    return (record {
      vm_id = id;
      enabled = serial_console_enabled_for info id;
      terminal_capable = guest_terminal_capable (guest_family (parse_guest_os_type info));
      running = vm_state_is_live (parse_vm_state info);
      editable = not (vm_state_is_live (parse_vm_state info));
    })

  unfoldable pub enable_serial_console : Text → M W Response
  enable_serial_console id = do
    require (is_valid_vm_id id) invalid_vm
    path ←
        or_log svc (resolve_vbox_manage host svc) id (txt "vm.serial.enable")
          (txt "VirtualBox/VBoxManage not discovered.")
    info ← read_show_vm_info host path id (txt "reading VM before enabling serial console")
    require (text_eq (guest_family (parse_guest_os_type info)) (txt "linux"))
        (validation (txt "The serial terminal is only available for Linux guests."))
    require (not (vm_state_is_live (parse_vm_state info)))
        (validation (txt "The VM is running. Power it off before enabling the serial terminal."))
    or_log svc
        (run_control_command host id path (enable_serial_console_args id (serial_pipe_name id))
          (txt "enabling serial console"))
        id (txt "vm.serial.enable") (txt "VBoxManage modifyvm uart failed.")
    log_operation svc id (txt "vm.serial.enable") true []
    return (record {
      success = true;
      vm_id = id;
      message = txt "Serial terminal enabled. Start the VM to use it.";
    })

  unfoldable pub disable_serial_console : Text → M W Response
  disable_serial_console id = do
    require (is_valid_vm_id id) invalid_vm
    path ←
        or_log svc (resolve_vbox_manage host svc) id (txt "vm.serial.disable")
          (txt "VirtualBox/VBoxManage not discovered.")
    info ← read_show_vm_info host path id (txt "reading VM before disabling serial console")
    require (not (vm_state_is_live (parse_vm_state info)))
        (validation (txt "The VM is running. Power it off before disabling the serial terminal."))
    or_log svc
        (run_control_command host id path (disable_serial_console_args id)
          (txt "disabling serial console"))
        id (txt "vm.serial.disable") (txt "VBoxManage modifyvm uart off failed.")
    log_operation svc id (txt "vm.serial.disable") true []
    return (record { success = true; vm_id = id; message = txt "Serial terminal disabled." })

  -- Best effort: a failure is logged, and no error. `createStepTimeout` is 120 s.
  unfoldable pub logged_wire : Text → VmResult (Unit {0}) × State W → VmResult (Unit {0}) × State W
  logged_wire id (ok a, t) = log_operation svc id (txt "vm.serial.autowire") true [] t
  logged_wire id (err e, t) =
      log_operation svc id (txt "vm.serial.autowire") false
        (txt "Could not wire the serial console; it can be enabled from the terminal tab.") t

  unfoldable pub wire_serial_console : Text → Text → M W (Unit {0})
  wire_serial_console path id s = logged_wire id (
      run_control_command_timeout host id path (enable_serial_console_args id (serial_pipe_name id))
        (txt "wiring the serial console") (seconds 120) s)
