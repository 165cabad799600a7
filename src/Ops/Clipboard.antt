-- ===== src/Ops/Clipboard.antt =====
-- The shared clipboard of a machine: clipboard.go.
use tab_vm.Service.{validation, Host, Service, M, ◌>>=◌, ◌>>◌, return, require, invalid_vm}
use tab_vm.Service.Run.{read_show_vm_info, run_control_command, log_operation, or_log}
use tab_vm.Service.Discover.{resolve_vbox_manage}
use tab_vm.Parse.{parse_vm_state, vm_state_is_live, machine_pairs, split_machine_readable}
use tab_vm.VmId.{is_valid_vm_id}
use tab_vm.Strings.{Text, txt, is_empty, one_of, to_lower, trim_space, lines}
use tab_vm.Prelude.{if◌then◌else◌, true, List, [], ◌∷◌, Bool, false}

abbrev pub clipboard_modes : List Text
clipboard_modes = txt "disabled" ∷ txt "hosttoguest" ∷ txt "guesttohost" ∷ txt "bidirectional" ∷ []

pub record ClipboardMode : Type 0 where
  pub vm_id : Text
  pub mode : Text

abbrev pub or_disabled : Text → Text
or_disabled mode = if is_empty mode then txt "disabled" else mode

-- The value of the first of the two keys.
unfoldable pub clipboard_of : List (Text × Text) → Text
clipboard_of [] = txt "disabled"
clipboard_of ((key, value) ∷ ps) =
    let rest = clipboard_of ps in
    if one_of (txt "clipboard" ∷ txt "clipboardmode" ∷ []) key
    then or_disabled (to_lower (trim_space value))
    else rest

unfoldable pub parse_clipboard_mode : Text → Text
parse_clipboard_mode output = clipboard_of (machine_pairs split_machine_readable (lines output))

abbrev pub set_clipboard_modify_args : Text → Text → List Text
set_clipboard_modify_args id mode = txt "modifyvm" ∷ id ∷ txt "--clipboard-mode" ∷ mode ∷ []

abbrev pub set_clipboard_control_args : Text → Text → List Text
set_clipboard_control_args id mode = txt "controlvm" ∷ id ∷ txt "clipboard" ∷ txt "mode" ∷ mode ∷ []

-- A live machine is changed at run time, another one in its settings.
unfoldable pub set_clipboard_args : Bool → Text → Text → List Text
set_clipboard_args true id mode = set_clipboard_control_args id mode
set_clipboard_args false id mode = set_clipboard_modify_args id mode

module _ {W : Type 0} (host : Host W) (svc : Service) where
  unfoldable pub get_clipboard_mode : Text → M W ClipboardMode
  get_clipboard_mode id = do
    require (is_valid_vm_id id) invalid_vm
    path ← resolve_vbox_manage host svc
    info ← read_show_vm_info host path id (txt "reading clipboard mode")
    return (record { vm_id = id; mode = parse_clipboard_mode info })

  unfoldable pub set_clipboard_mode : Text → Text → M W ClipboardMode
  set_clipboard_mode id mode = do
    require (is_valid_vm_id id) invalid_vm
    require (one_of clipboard_modes (to_lower (trim_space mode))) (
        validation
          (txt "Clipboard mode must be one of: disabled, hosttoguest, guesttohost, bidirectional."))
    path ←
        or_log svc (resolve_vbox_manage host svc) id (txt "clipboard.set")
          (txt "VirtualBox/VBoxManage not discovered.")
    info ← read_show_vm_info host path id (txt "reading VM state for clipboard change")
    or_log svc
        (run_control_command host id path
          (set_clipboard_args (vm_state_is_live (parse_vm_state info)) id
            (to_lower (trim_space mode)))
          (txt "setting clipboard mode"))
        id (txt "clipboard.set") (txt "VirtualBox clipboard change failed.")
    log_operation svc id (txt "clipboard.set") true []
    return (record { vm_id = id; mode = to_lower (trim_space mode) })
