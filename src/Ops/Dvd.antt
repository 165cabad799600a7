-- ===== src/Ops/Dvd.antt =====
-- The optical drive of a machine: dvd.go, with `validateIsoPath` of createvm.go and `baseName` of
-- telemetry_parser.go. The parameters `is_abs` and `stat` are those of the shared folders.
use tab_vm.Service.{
  ◌>>=◌, ◌>>◌, fail, return, require, M, Host, validation, Service, Response, invalid_vm,
}
use tab_vm.Strings.{
  Text, txt, is_empty, to_lower, equal_fold, trim_right, trim_space, trim_quotes, has_prefix, drop,
  trim_prefix, has_suffix, lines, cut,
}
use tab_vm.Strings.Search.{any_byte}
use tab_vm.Strings.Number.{max_int, atoi, itoa}
use tab_vm.Prelude.{
  ◌==◌, if◌then◌else◌, ℕ, Bool, true, false, not, ◌&&◌, ◌||◌, Option, none, some, List, [], ◌∷◌,
  ◌++◌,
}
use tab_vm.Prelude.Int.{ℤ, ltb_ℤ, pos}
use tab_vm.Ops.PortForwarding.Rules.{some_digits, after_word, some_blanks, skip_blanks}
use tab_vm.Parse.Controllers.{Controller, parse_storage_controllers}
use tab_vm.Parse.SataPort.{offer, Target, is_sata, free_port, ports}
use tab_vm.Ops.SharedFolder.{contains_traversal}
use tab_vm.Service.Run.{
  read_show_vm_info, optional, or_log, read_show_vm_info_human, run_control_command, log_operation,
}
use tab_vm.VmId.{is_valid_vm_id}
use tab_vm.Ops.Storage.AddDisk.{set_port_count_args}
use tab_vm.Service.Discover.{resolve_vbox_manage}

-- The pieces of the patterns, one behind the other.
abbrev pub next_piece : {A B : Type 0} → Option A → (A → Option B) → Option B
next_piece none f = none
next_piece (some a) f = f a

-- `controllerHeaderRe`: the name between the quotes.
unfoldable pub controller_header : Text → Option Text
controller_header s = next_piece (after_word (b'#' ∷ []) s) (λ t1.
    next_piece (some_digits t1) (λ number. next_piece (after_word (b':' ∷ []) number.1) (λ t2.
      next_piece (some_blanks t2) (λ t3.
        next_piece (after_word (b'\'' ∷ []) t3)
          (λ t4. next_piece (cut t4 b'\'') (λ parts. some parts.0))))))

-- `attachmentLineRe`: the port, the unit and the rest.
pub record AttachmentLine : Type 0 where
  pub port : Text
  pub device : Text
  pub rest : Text

unfoldable pub attachment_line : Text → Option AttachmentLine
attachment_line s = next_piece (after_word (txt "Port ") s) (λ t1. next_piece (some_digits t1) (λ p.
    next_piece (after_word (txt ", Unit ") p.1) (λ t2. next_piece (some_digits t2) (λ d.
      next_piece (after_word (b':' ∷ []) d.1)
        (λ t3. some (record { port = p.0; device = d.0; rest = skip_blanks t3 }))))))

unfoldable pub before_comma : Text → Text
before_comma [] = []
before_comma (c ∷ s) = let rest = before_comma s in if c == b',' then [] else c ∷ rest

-- `controllerTypeRe`: the first `Type:` with a text before the next comma, trimmed.
unfoldable pub controller_type : Text → Text
controller_type [] = []
controller_type (c ∷ s) =
    let later = controller_type s in
    let value = before_comma (drop 5 (c ∷ s)) in
    if has_prefix (c ∷ s) (txt "Type:") && not (is_empty value) then trim_space value else later

unfoldable pub is_floppy_controller : Text → Text → Bool
is_floppy_controller name header =
    equal_fold (trim_space name) (txt "Floppy")
    || equal_fold (controller_type header) (txt "I82078")

abbrev pub is_some : {A : Type 0} → Option A → Bool
is_some none = false
is_some (some a) = true

unfoldable pub location_after : List Text → Text
location_after [] = []
location_after (l ∷ ls) =
    let later = location_after ls in
    let line = trim_space l in
    if has_prefix line (txt "Location:")
    then trim_quotes (trim_space (trim_prefix line (txt "Location:")))
    else (if is_some (attachment_line line) || is_some (controller_header line) then [] else later)

unfoldable pub has_one_suffix : List Text → Text → Bool
has_one_suffix [] p = false
has_one_suffix (e ∷ es) p = has_suffix p e || has_one_suffix es p

unfoldable pub is_hard_disk_image : Text → Bool
is_hard_disk_image p =
    has_one_suffix
      (txt ".vdi"
        ∷ txt ".vmdk"
        ∷ txt ".vhd"
        ∷ txt ".vhdx"
        ∷ txt ".hdd"
        ∷ txt ".qed"
        ∷ txt ".qcow"
        ∷ txt ".qcow2"
        ∷ txt ".raw"
        ∷ [])
      (to_lower (trim_space p))

-- An empty `medium` is an empty drive; no drive is `none`.
pub record OpticalDrive : Type 0 where
  pub controller : Text
  pub port : ℤ
  pub device : ℤ
  pub medium : Text

-- `strconv.Atoi` of digits, whose error is not read: it gives the largest number for one too large.
abbrev pub clamped : Option ℤ → ℤ
clamped none = pos max_int
clamped (some n) = n

abbrev pub drive_at : Text → AttachmentLine → Text → Option OpticalDrive
drive_at ctl a medium = some (record {
  controller = ctl;
  port = clamped (atoi a.port);
  device = clamped (atoi a.device);
  medium = medium;
})

-- What an attachment is, given the medium on the lines behind it.
unfoldable pub drive_of : Text → Bool → Option AttachmentLine → Text → Option OpticalDrive
drive_of ctl floppy none medium = none
drive_of ctl floppy (some a) medium =
    if floppy
    then none
    else (if equal_fold (trim_space a.rest) (txt "Empty")
        then drive_at ctl a []
        else (if has_prefix (trim_space a.rest) (txt "UUID:")
              && (not (is_empty medium) && not (is_hard_disk_image medium))
            then drive_at ctl a medium
            else none))

abbrev pub or_later : Option OpticalDrive → Option OpticalDrive → Option OpticalDrive
or_later none later = later
or_later (some d) later = some d

-- The current controller, and whether it is the floppy bus, behind a line.
abbrev pub controller_behind : Text → Bool → Text → Option Text → Text × Bool
controller_behind ctl floppy line none = (ctl, floppy)
controller_behind ctl floppy line (some name) = (name, is_floppy_controller name line)

unfoldable pub optical_from : Text → Bool → List Text → Option OpticalDrive
optical_from ctl floppy [] = none
optical_from ctl floppy (l ∷ ls) =
    let line = trim_space l in
    let header = controller_header line in
    let current = controller_behind ctl floppy line header in
    let later = optical_from current.0 current.1 ls in
    if is_some header
    then later
    else or_later (drive_of ctl floppy (attachment_line line) (location_after ls)) later

unfoldable pub parse_optical_drive : Text → Option OpticalDrive
parse_optical_drive human = optical_from [] false (lines human)

-- `freeControllerPort`: a controller that is no AHCI one does not grow.
abbrev pub port_target : Controller → Option ℕ → Option Target
port_target c none = none
port_target c (some p) = some (record { ctl = c.name; port = pos p; bump_to = pos 0 })

unfoldable pub dvd_offer : Controller → Option Target
dvd_offer c = if is_sata c then offer c else port_target c (free_port (ports c.port_count) 0 c.used)

abbrev pub or_target : Option Target → Option Target → Option Target
or_target none later = later
or_target (some t) later = some t

unfoldable pub free_controller_port : Bool → List Controller → Option Target
free_controller_port sata_only [] = none
free_controller_port sata_only (c ∷ cs) =
    let later = free_controller_port sata_only cs in
    if sata_only && not (is_sata c) then later else or_target (dvd_offer c) later

unfoldable pub pick_dvd_target : List Controller → Option Target
pick_dvd_target cs = or_target (free_controller_port true cs) (free_controller_port false cs)

unfoldable pub storage_attach_dvd_medium_args : Text → Text → ℤ → ℤ → Text → List Text
storage_attach_dvd_medium_args id ctl port device medium =
    txt "storageattach"
    ∷ id
    ∷ txt "--storagectl"
    ∷ ctl
    ∷ txt "--port"
    ∷ itoa port
    ∷ txt "--device"
    ∷ itoa device
    ∷ txt "--type"
    ∷ txt "dvddrive"
    ∷ txt "--medium"
    ∷ medium
    ∷ []

abbrev pub is_separator : ℕ → Bool
is_separator c = c == b'/' || c == b'\\'

-- The part behind the last separator.
unfoldable pub last_part : Text → Text
last_part [] = []
last_part (c ∷ s) = if any_byte is_separator (c ∷ s) then last_part s else c ∷ s

unfoldable pub base_name : Text → Text
base_name p = last_part (trim_right is_separator p)

abbrev pub not_a_file : Option Bool → Text
not_a_file none = txt "The file does not exist or is not accessible."
not_a_file (some is_dir) = txt "The path must be a file, not a directory."

abbrev pub is_file : Option Bool → Bool
is_file none = false
is_file (some is_dir) = not is_dir

module _ {W : Type 0} where
  unfoldable pub validate_found_file : Option Bool → M W (Unit {0})
  validate_found_file found = require (is_file found) (validation (not_a_file found))

  -- `validateHostFile` with the one extension.
  unfoldable pub validate_iso_path :
      (Text → Bool) → (Text → W → Option Bool) → Text → M W (Unit {0})
  validate_iso_path is_abs stat iso_path = do
    require (not (is_empty (trim_space iso_path)))
        (validation (txt "A host file path is required."))
    require (is_abs (trim_space iso_path)) (validation (txt "The path must be absolute."))
    require (not (contains_traversal (trim_space iso_path)))
        (validation (txt "The path must not contain '..' segments."))
    require (has_suffix (to_lower (trim_space iso_path)) (txt ".iso"))
        (validation (txt "The installer must be a .iso file."))
    λ s. validate_found_file (stat (trim_space iso_path) s.world) s

-- Where a disc goes: the controller, the port, the device, and the port count to grow to, or 0.
pub record DvdTarget : Type 0 where
  pub ctl : Text
  pub port : ℤ
  pub device : ℤ
  pub bump_to : ℤ

abbrev pub drive_found : Option Text → Option OpticalDrive
drive_found none = none
drive_found (some human) = parse_optical_drive human

module _ {W : Type 0} (host : Host W) (svc : Service) where
  unfoldable pub new_drive : Option Target → M W DvdTarget
  new_drive none =
      fail (validation (txt "This VM has no optical drive and no free controller port to add one."))
  new_drive (some t) =
      return (record { ctl = t.ctl; port = t.port; device = pos 0; bump_to = t.bump_to })

  unfoldable pub target_for : Text → Text → Option OpticalDrive → M W DvdTarget
  target_for path id (some d) =
      return (record { ctl = d.controller; port = d.port; device = d.device; bump_to = pos 0 })
  target_for path id none = do
    info ← read_show_vm_info host path id (txt "reading VM storage for DVD mount")
    new_drive (pick_dvd_target (parse_storage_controllers info))

  unfoldable pub resolve_dvd_target : Text → Text → M W DvdTarget
  resolve_dvd_target path id = do
    human ← optional (read_show_vm_info_human host path id (txt "reading VM optical drive"))
    target_for path id (drive_found human)

  unfoldable pub grow_for_drive : Text → Text → DvdTarget → M W (Unit {0})
  grow_for_drive id path t =
      if ltb_ℤ (pos 0) t.bump_to
      then or_log svc
          (run_control_command host id path (set_port_count_args id t.ctl t.bump_to)
            (txt "growing the storage controller"))
          id (txt "vm.dvd.mount") (txt "VBoxManage storagectl portcount failed.")
      else return tt

  unfoldable pub mount_dvd : (Text → Bool) → (Text → W → Option Bool) → Text → Text → M W Response
  mount_dvd is_abs stat id iso_path = do
    require (is_valid_vm_id id) invalid_vm
    validate_iso_path is_abs stat iso_path
    path ←
        or_log svc (resolve_vbox_manage host svc) id (txt "vm.dvd.mount")
          (txt "VirtualBox/VBoxManage not discovered.")
    t ←
        or_log svc (resolve_dvd_target path id) id (txt "vm.dvd.mount")
          (txt "Could not resolve an optical drive target.")
    grow_for_drive id path t
    or_log svc
        (run_control_command host id path
          (storage_attach_dvd_medium_args id t.ctl t.port t.device iso_path) (txt "mounting ISO"))
        id (txt "vm.dvd.mount") (txt "VBoxManage storageattach dvddrive failed.")
    log_operation svc id (txt "vm.dvd.mount") true []
    return (record {
      success = true;
      vm_id = id;
      message = txt "Mounted " ++ (base_name iso_path ++ txt " into the DVD drive.");
    })

  unfoldable pub eject_loaded : Text → Text → OpticalDrive → M W Response
  eject_loaded path id d = do
    or_log svc
        (run_control_command host id path
          (storage_attach_dvd_medium_args id d.controller d.port d.device (txt "emptydrive"))
          (txt "ejecting ISO"))
        id (txt "vm.dvd.eject") (txt "VBoxManage storageattach emptydrive failed.")
    log_operation svc id (txt "vm.dvd.eject") true []
    return (record {
      success = true;
      vm_id = id;
      message = txt "Ejected the DVD medium; the drive is now empty.";
    })

  unfoldable pub already_empty : Text → M W Response
  already_empty id = do
    log_operation svc id (txt "vm.dvd.eject") true (txt "already empty")
    return (record { success = true; vm_id = id; message = txt "The DVD drive is already empty." })

  unfoldable pub eject_from : Text → Text → Option OpticalDrive → M W Response
  eject_from path id none = fail (validation (txt "This VM has no optical drive to eject."))
  eject_from path id (some d) =
      if is_empty d.medium then already_empty id else eject_loaded path id d

  unfoldable pub eject_dvd : Text → M W Response
  eject_dvd id = do
    require (is_valid_vm_id id) invalid_vm
    path ←
        or_log svc (resolve_vbox_manage host svc) id (txt "vm.dvd.eject")
          (txt "VirtualBox/VBoxManage not discovered.")
    human ← read_show_vm_info_human host path id (txt "reading VM optical drive before eject")
    eject_from path id (parse_optical_drive human)
