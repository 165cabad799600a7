-- ===== src/Tests/Scripted.antt =====
-- A host whose processes answer from a script, in order; when it is empty they fail.
use tab_vm.Service.{Host, Service, State, Outcome}
use tab_vm.Service.Run.{failed_run}
use tab_vm.Strings.{Text, txt}
use tab_vm.Prelude.{List, ℕ, ◌^◌, true, Option, none, some, [], ◌∷◌, ◌++◌}
use tab_vm.Prelude.Int.{ℤ, pos}

abbrev pub answer : List Outcome → Outcome × List Outcome
answer [] = (failed_run (txt "no answer"), [])
answer (o ∷ os) = (o, os)

abbrev pub scripted : Host (List Outcome)
scripted = record {
  is_windows = true;
  resolve_path = λ p w. some p;
  lock_vm = λ id w. (none, w);
  unlock_vm = λ id w. w;
  take_slot = λ timeout w. (none, w);
  free_slot = λ w. w;
  process = λ name args timeout w. answer w;
  pause = λ ms w. (none, w);
  path_dir = λ p. txt "C:\\VMs";
  path_base = λ p. txt "a.vbox";
  path_ext = λ p. txt ".vbox";
  path_join = λ d f. d ++ (txt "\\" ++ f);
  missing = λ p w. true;
}

abbrev pub service : Service
service = record { paths = txt "VBoxManage.exe" ∷ []; has_store = true }

abbrev pub printed : Text → Outcome
printed out = record {
  result = record { exit_code = pos 0; standard_output = out; standard_error = [] };
  fault = none;
}

abbrev pub refused : Text → Outcome
refused stderr = record {
  result = record { exit_code = pos 1; standard_output = []; standard_error = stderr };
  fault = some (txt "exit status 1");
}

abbrev pub begin : List Outcome → State (List Outcome)
begin script = record { world = script; issued = []; logged = [] }

abbrev pub vm1 : Text
vm1 = txt "12345678-1234-1234-1234-123456789abc"

abbrev pub disk1 : Text
disk1 = txt "abcdef01-2345-6789-abcd-ef0123456789"

abbrev pub version_line : Outcome
version_line = printed (txt "7.0.14r161095")

abbrev pub stopped_info : Outcome
stopped_info = printed (txt "VMState=\"poweroff\"\nostype=\"Ubuntu_64\"")

abbrev pub running_info : Outcome
running_info = printed (txt "VMState=\"running\"\nostype=\"Ubuntu_64\"")

-- A stopped machine with one AHCI controller of two ports, with a disk on the first.
abbrev pub storage_info : Outcome
storage_info = printed (
    txt
      "VMState=\"poweroff\"\nCfgFile=\"C:\\\\VMs\\\\a.vbox\"\nstoragecontrollername0=\"SATA\"\nstoragecontrollertype0=\"IntelAhci\"\nstoragecontrollermaxportcount0=\"30\"\nstoragecontrollerportcount0=\"2\"\n\"SATA-0-0\"=\"C:\\\\VMs\\\\a.vdi\"\n\"SATA-ImageUUID-0-0\"=\"abcdef01-2345-6789-abcd-ef0123456789\"")

abbrev pub medium_info : Outcome
medium_info =
    printed (txt "Storage format: VDI\nFormat variant: dynamic default\nCapacity: 1024 MBytes")

-- The number of a size in megabytes is not read from its text: every size is 1 GB.
abbrev pub one_gb : Text → ℕ → Option ℤ
one_gb number unit = some (pos (2 ^ 30))
