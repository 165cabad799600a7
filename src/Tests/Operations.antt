-- ===== src/Tests/Operations.antt =====
-- The operations that only change a machine that is not running.
use tab_vm.Tests.Scripted.{
  scripted, service, begin, vm1, disk1, version_line, stopped_info, running_info, storage_info,
  medium_info, printed, one_gb,
}
use tab_vm.Service.Trace.{Safe}
use tab_vm.Guarded.{StoppedPolicy, GuardedPolicy, NoReads}
use tab_vm.Guarded.DeleteVm.{delete_vm_guarded}
use tab_vm.Guarded.Hardware.{HardwareChange, set_vm_hardware_guarded}
use tab_vm.Guarded.Serial.{
  StoppedLinux, enable_serial_console_guarded, disable_serial_console_guarded,
}
use tab_vm.Guarded.Clipboard.{ClipboardPolicy, set_clipboard_mode_guarded}
use tab_vm.Guarded.Storage.{ResizePolicy, resize_disk_guarded}
use tab_vm.Guarded.Storage.AddDisk.{AddDiskPolicy, add_disk_guarded}
use tab_vm.Guarded.Storage.DetachDisk.{DetachPolicy, detach_disk_guarded}
use tab_vm.Ops.DeleteVm.{unregister_vm_args, delete_vm}
use tab_vm.Ops.Hardware.{host_info_args, set_vm_hardware}
use tab_vm.Ops.Serial.{
  enable_serial_console_args, disable_serial_console_args, serial_pipe_name, enable_serial_console,
  disable_serial_console,
}
use tab_vm.Ops.Clipboard.{set_clipboard_mode}
use tab_vm.Ops.Storage.{resize_disk, detach_disk}
use tab_vm.Ops.Storage.AddDisk.{add_disk}
use tab_vm.Prelude.{◌≡◌, refl, true, [], ◌∷◌, List}
use tab_vm.Strings.{txt, to_lower, trim_space}
use tab_vm.Prelude.Int.{pos}
use tab_vm.Service.{Outcome}

abbrev delete_script : List Outcome
delete_script = version_line ∷ stopped_info ∷ printed [] ∷ []

delete_vm_guarded_example :
    Safe
      (StoppedPolicy NoReads (λ args. args ≡ unregister_vm_args vm1) vm1)
      (delete_vm scripted service vm1 (begin delete_script)).1.issued
delete_vm_guarded_example = delete_vm_guarded scripted service vm1 (begin delete_script) refl

abbrev hardware_script : List Outcome
hardware_script =
    version_line
    ∷ printed (txt "Processor count: 8\nMemory size: 16384 MByte")
    ∷ stopped_info
    ∷ printed []
    ∷ []

set_vm_hardware_guarded_example :
    Safe
      (StoppedPolicy (λ args. args ≡ host_info_args) (HardwareChange vm1 (pos 2) (pos 2048)) vm1)
      (set_vm_hardware scripted service vm1 (pos 2) (pos 2048) (begin hardware_script)).1.issued
set_vm_hardware_guarded_example =
    set_vm_hardware_guarded scripted service vm1 (pos 2) (pos 2048) (begin hardware_script) refl

enable_serial_console_guarded_example :
    Safe
      (GuardedPolicy NoReads
        (λ args. args ≡ enable_serial_console_args vm1 (serial_pipe_name vm1))
        StoppedLinux
        vm1)
      (enable_serial_console scripted service vm1 (begin delete_script)).1.issued
enable_serial_console_guarded_example =
    enable_serial_console_guarded scripted service vm1 (begin delete_script) refl

disable_serial_console_guarded_example :
    Safe
      (StoppedPolicy NoReads (λ args. args ≡ disable_serial_console_args vm1) vm1)
      (disable_serial_console scripted service vm1 (begin delete_script)).1.issued
disable_serial_console_guarded_example =
    disable_serial_console_guarded scripted service vm1 (begin delete_script) refl

abbrev live_script : List Outcome
live_script = version_line ∷ running_info ∷ printed [] ∷ []

set_clipboard_mode_guarded_example :
    Safe
      (ClipboardPolicy vm1 (to_lower (trim_space (txt " HostToGuest"))))
      (set_clipboard_mode scripted service vm1 (txt " HostToGuest") (begin live_script)).1.issued
set_clipboard_mode_guarded_example =
    set_clipboard_mode_guarded scripted service vm1 (txt " HostToGuest") (begin live_script) refl

abbrev resize_script : List Outcome
resize_script = version_line ∷ stopped_info ∷ medium_info ∷ printed [] ∷ []

resize_disk_guarded_example :
    Safe
      (ResizePolicy one_gb vm1 disk1 (pos 2048))
      (resize_disk scripted service one_gb vm1 disk1 (pos 2048) (begin resize_script)).1.issued
resize_disk_guarded_example =
    resize_disk_guarded scripted service one_gb vm1 disk1 (pos 2048) (begin resize_script) refl

abbrev add_script : List Outcome
add_script = version_line ∷ storage_info ∷ printed [] ∷ printed [] ∷ []

add_disk_guarded_example :
    Safe
      (AddDiskPolicy vm1 (pos 4096))
      (add_disk scripted service vm1 (pos 4096) (begin add_script)).1.issued
add_disk_guarded_example = add_disk_guarded scripted service vm1 (pos 4096) (begin add_script) refl

abbrev detach_script : List Outcome
detach_script = version_line ∷ storage_info ∷ medium_info ∷ printed [] ∷ printed [] ∷ []

detach_disk_guarded_example :
    Safe
      (DetachPolicy vm1 disk1 true)
      (detach_disk scripted service one_gb vm1 disk1 true (begin detach_script)).1.issued
detach_disk_guarded_example =
    detach_disk_guarded scripted service one_gb vm1 disk1 true (begin detach_script) refl
