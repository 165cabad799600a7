-- ===== src/Tests/Choices.antt =====
-- Identifiers, ports and the place of a new disk.
use tab_vm.Tests.Scripted.{vm1}
use tab_vm.VmId.{is_valid_vm_id}
use tab_vm.VmId.Shape.{Agrees, dash_at, is_valid_vm_id_iff}
use tab_vm.VmId.Port.{is_valid_console_port, vm_id_to_console_port, vm_id_to_console_port-valid}
use tab_vm.Parse.Controllers.{Controller}
use tab_vm.Parse.SataPort.{pick_sata_target}
use tab_vm.Parse.SataPort.Choice.{Chosen, pick_sata_target-Chosen}
use tab_vm.Prelude.{◌≡◌, ◌↔◌, true, false, [], ◌∷◌, length, List}
use tab_vm.Strings.{txt}
use tab_vm.Prelude.Int.{pos}

is_valid_vm_id_iff_example : (is_valid_vm_id vm1 ≡ true) ↔ ((length vm1 ≡ 36) × Agrees dash_at vm1)
is_valid_vm_id_iff_example = is_valid_vm_id_iff vm1

vm_id_to_console_port-valid_example : is_valid_console_port (vm_id_to_console_port vm1) ≡ true
vm_id_to_console_port-valid_example = vm_id_to_console_port-valid vm1

abbrev full_sata : List Controller
full_sata =
    record {
      name = txt "IDE";
      ctl_type = txt "PIIX4";
      port_count = pos 2;
      max_port_count = pos 2;
      used = [];
    }
    ∷ record {
      name = txt "SATA";
      ctl_type = txt "IntelAhci";
      port_count = pos 2;
      max_port_count = pos 30;
      used = pos 0 ∷ pos 1 ∷ [];
    }
    ∷ []

pick_sata_target-Chosen_example : Chosen false full_sata (pick_sata_target full_sata)
pick_sata_target-Chosen_example = pick_sata_target-Chosen full_sata
