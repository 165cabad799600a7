-- ===== src/Parse/Controllers.antt =====
-- Disk controllers and attachments of a machine: the key patterns of telemetry_parser.go, and
-- `parseStorageControllers`, `findDiskAttachment`, `pickSataTarget` of storage.go.
use mathlib.Core.List.{reverse, foldl}
use tab_vm.Parse.{
  machine_pairs, split_machine_readable, split_machine_readable_raw_key, index_suffix,
}
use tab_vm.Strings.{Text, txt, text_eq, is_empty, equal_fold, has_suffix, trim_suffix, lines, cut}
use tab_vm.Strings.Number.{is_digit, atoi, atoi_value}
use tab_vm.Prelude.{
  ◌==◌, if◌then◌else◌, ℕ, Bool, true, not, ◌&&◌, ◌||◌, Option, none, some, List, [], ◌∷◌, map,
}
use tab_vm.Prelude.Int.{ℤ, pos}

pub record AttachmentKey : Type 0 where
  pub name : Text
  pub port : Text
  pub device : Text

abbrev pub all_digits : Text → Bool
all_digits [] = true
all_digits (c ∷ s) = is_digit c && all_digits s

abbrev pub some_digits : Text → Bool
some_digits s = not (is_empty s) && all_digits s

-- `attachmentKeyRe`, read from the end: digits, a dash, digits, a dash, and the name.
unfoldable pub attachment_key : Text → Option AttachmentKey
attachment_key key = elim (cut (reverse key) b'-') [
  | none ↦ none
  | some (device, rest) ↦ elim (cut rest b'-') [
    | none ↦ none
    | some (port, name) ↦
        if some_digits device && some_digits port
        then some (record { name = reverse name; port = reverse port; device = reverse device })
        else none
  ]
]

abbrev pub image_uuid_mark : Text
image_uuid_mark = txt "-ImageUUID"

-- `imageUUIDKeyRe`.
unfoldable pub image_uuid_key : Text → Option AttachmentKey
image_uuid_key key = elim (attachment_key key) [
  | none ↦ none
  | some k ↦
      if has_suffix k.name image_uuid_mark
      then some (record k { name = trim_suffix k.name image_uuid_mark })
      else none
]

-- `storageController`; `used` has the occupied ports.
pub record Controller : Type 0 where
  pub name : Text
  pub ctl_type : Text
  pub port_count : ℤ
  pub max_port_count : ℤ
  pub used : List ℤ

abbrev pub no_controller : Controller
no_controller = record {
  name = [];
  ctl_type = [];
  port_count = pos 0;
  max_port_count = pos 0;
  used = [];
}

-- `get(idx)` and a write of one field; the list is in the order of first appearance.
unfoldable pub update_at :
    ℕ → (Controller → Controller) → List (ℕ × Controller) → List (ℕ × Controller)
update_at i f [] = (i, f no_controller) ∷ []
update_at i f ((k, c) ∷ cs) = if k == i then (k, f c) ∷ cs else (k, c) ∷ update_at i f cs

abbrev pub write_field :
    Option ℕ
    → (Controller → Controller)
    → List (ℕ × Controller)
    → List (ℕ × Controller)
    → List (ℕ × Controller)
write_field none f cs other = other
write_field (some i) f cs other = update_at i f cs

unfoldable pub controller_pair : List (ℕ × Controller) → Text × Text → List (ℕ × Controller)
controller_pair cs (key, value) =
    write_field (index_suffix key (txt "storagecontrollername")) (λ c. record c { name = value }) cs
      (write_field (index_suffix key (txt "storagecontrollertype"))
        (λ c. record c { ctl_type = value }) cs
        (write_field (index_suffix key (txt "storagecontrollermaxportcount"))
          (λ c. record c { max_port_count = atoi_value value }) cs
          (write_field (index_suffix key (txt "storagecontrollerportcount"))
            (λ c. record c { port_count = atoi_value value }) cs cs)))

-- `byName`: of two controllers with one name, the one that the map's iteration visits last counts;
-- VirtualBox names them apart, and here the first counts.
unfoldable pub mark_used : Text → ℤ → List Controller → List Controller
mark_used name port [] = []
mark_used name port (c ∷ cs) =
    if text_eq c.name name
    then record c { used = port ∷ c.used } ∷ cs
    else c ∷ mark_used name port cs

unfoldable pub attach_pair : List Controller → Text × Text → List Controller
attach_pair cs (key, value) = elim (attachment_key key) [
  | none ↦ cs
  | some k ↦
      if is_empty value || equal_fold value (txt "none")
      then cs
      else elim (atoi k.port) [ none ↦ cs | some p ↦ mark_used k.name p cs ]
]

unfoldable pub parse_storage_controllers : Text → List Controller
parse_storage_controllers output =
    let indexed = foldl controller_pair [] (machine_pairs split_machine_readable (lines output)) in
    foldl attach_pair (map (λ ic. ic.1) indexed)
      (machine_pairs split_machine_readable_raw_key (lines output))

pub record Attachment : Type 0 where
  pub ctl : Text
  pub port : ℤ
  pub device : ℤ

abbrev pub attachment_of : Text → Option ℤ → Option ℤ → Option Attachment
attachment_of name (some p) (some d) = some (record { ctl = name; port = p; device = d })
attachment_of name _ _ = none

unfoldable pub attachment_of_pair : Text → Text × Text → Option Attachment
attachment_of_pair uuid (key, value) = elim (image_uuid_key key) [
  | none ↦ none
  | some k ↦
      if equal_fold value uuid then attachment_of k.name (atoi k.port) (atoi k.device) else none
]

unfoldable pub first_attachment : Text → List (Text × Text) → Option Attachment
first_attachment uuid [] = none
first_attachment uuid (p ∷ ps) =
    let rest = first_attachment uuid ps in
    elim (attachment_of_pair uuid p) [ none ↦ rest | some a ↦ some a ]

unfoldable pub find_disk_attachment : Text → Text → Option Attachment
find_disk_attachment output uuid =
    first_attachment uuid (machine_pairs split_machine_readable_raw_key (lines output))
