-- ===== src/Tests/Folders.antt =====
-- Shared folders.
use tab_vm.Tests.Scripted.{scripted, service, begin, vm1, version_line, running_info, printed}
use tab_vm.Ops.SharedFolder.{add_shared_folder, remove_shared_folder}
use tab_vm.Strings.{Text, txt, has_prefix}
use tab_vm.Prelude.{refl, Bool, true, Option, some, List, [], ◌∷◌, ◌++◌}
use tab_vm.Service.{Outcome}
use tab_vm.Service.Trace.{Safe}
use tab_vm.Guarded.SharedFolder.{
  AddFolderPolicy, RemoveFolderPolicy, add_shared_folder_guarded, remove_shared_folder_guarded,
}

abbrev absolute : Text → Bool
absolute t = has_prefix t (txt "C:")

abbrev directories : Text → List Outcome → Option Bool
directories t w = some true

abbrev quoted : Text → Text
quoted t = txt "\"" ++ (t ++ txt "\"")

abbrev add_script : List Outcome
add_script = version_line ∷ running_info ∷ printed [] ∷ []

add_shared_folder_guarded_example :
    Safe
      (AddFolderPolicy absolute directories add_script vm1 (txt "docs") (txt "C:\\docs"))
      (add_shared_folder scripted service quoted absolute directories vm1
        (txt "docs")
        (txt "C:\\docs")
        (begin add_script)).1.issued
add_shared_folder_guarded_example =
    add_shared_folder_guarded scripted service quoted absolute directories vm1 (txt "docs")
      (txt "C:\\docs") (begin add_script) refl

-- A machine with one folder for the session.
abbrev folder_info : Outcome
folder_info = printed (
    txt
      "VMState=\"running\"\nSharedFolderNameTransientMapping1=\"docs\"\nSharedFolderPathTransientMapping1=\"C:\\\\docs\"")

abbrev remove_script : List Outcome
remove_script = version_line ∷ folder_info ∷ printed [] ∷ []

remove_shared_folder_guarded_example :
    Safe
      (RemoveFolderPolicy vm1 (txt "docs"))
      (remove_shared_folder scripted service quoted vm1 (txt "docs") (begin remove_script)).1.issued
remove_shared_folder_guarded_example =
    remove_shared_folder_guarded scripted service quoted vm1 (txt "docs") (begin remove_script) refl
