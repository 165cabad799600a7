-- ===== src/Tests/Drives.antt =====
-- The optical drive.
use tab_vm.Tests.Scripted.{scripted, service, begin, vm1, version_line, printed}
use tab_vm.Ops.Dvd.{eject_dvd}
use tab_vm.Strings.{txt}
use tab_vm.Prelude.{refl, List, [], ◌∷◌}
use tab_vm.Service.{Outcome}
use tab_vm.Service.Trace.{Safe}
use tab_vm.Guarded.Dvd.{EjectPolicy, eject_dvd_guarded}

-- A machine with a floppy drive, a disk and a disc.
abbrev drive_info : Outcome
drive_info = printed (
    txt
      "#0: 'Floppy', Type: I82078, Instance: 0\n  Port 0, Unit 0: Empty\n#1: 'SATA', Type: IntelAhci, Ports: 2 (max 30)\n  Port 0, Unit 0: UUID: 846b\n    Location: \"C:\\\\a.vdi\"\n  Port 1, Unit 0: UUID: 107c\n    Location: \"C:\\\\a.iso\"")

abbrev eject_script : List Outcome
eject_script = version_line ∷ drive_info ∷ printed [] ∷ []

eject_dvd_guarded_example :
    Safe (EjectPolicy vm1) (eject_dvd scripted service vm1 (begin eject_script)).1.issued
eject_dvd_guarded_example = eject_dvd_guarded scripted service vm1 (begin eject_script) refl
