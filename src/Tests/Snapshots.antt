-- ===== src/Tests/Snapshots.antt =====
-- Taking and deleting a snapshot.
use tab_vm.Tests.Scripted.{scripted, service, begin, vm1, disk1, version_line, printed}
use tab_vm.Service.Trace.{Safe}
use tab_vm.Guarded.Snapshot.{
  TakePolicy, DeletePolicy, take_snapshot_guarded, delete_snapshot_guarded,
}
use tab_vm.Ops.Snapshot.{take_snapshot, delete_snapshot}
use tab_vm.Prelude.{refl, [], ◌∷◌, List, ◌++◌}
use tab_vm.Strings.{Text, txt}
use tab_vm.Service.{Outcome}

abbrev snapshot_script : List Outcome
snapshot_script = version_line ∷ printed [] ∷ []

-- Quotes around the text.
abbrev quoted : Text → Text
quoted t = txt "\"" ++ (t ++ txt "\"")

take_snapshot_guarded_example :
    Safe
      (TakePolicy vm1 (txt " Before update ") (txt "clean"))
      (take_snapshot scripted service quoted vm1
        (txt " Before update ")
        (txt "clean")
        (begin snapshot_script)).1.issued
take_snapshot_guarded_example =
    take_snapshot_guarded scripted service quoted vm1 (txt " Before update ") (txt "clean")
      (begin snapshot_script) refl

delete_snapshot_guarded_example :
    Safe
      (DeletePolicy vm1 disk1)
      (delete_snapshot scripted service quoted vm1 disk1 (begin snapshot_script)).1.issued
delete_snapshot_guarded_example =
    delete_snapshot_guarded scripted service quoted vm1 disk1 (begin snapshot_script) refl
