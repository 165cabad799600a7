-- ===== src/Parse.antt =====
-- Reading VBoxManage's output: the line splitters of telemetry_parser.go, and parser.go.
pub mod VmList
pub mod Snapshots
pub mod Controllers
pub mod SataPort
use mathlib.Core.Option
use mathlib.Core.List.{foldl}
use tab_vm.Strings.{
  Text, txt, text_eq, is_empty, one_of, to_lower, equal_fold, trim_space, trim_quotes, has_prefix,
  drop, trim_prefix, lines, cut,
}
use tab_vm.Strings.Number.{atoi}
use tab_vm.Prelude.{
  if◌then◌else◌, length, ℕ, suc, Bool, false, ◌||◌, Option, none, some, List, [], ◌∷◌, map,
}
use tab_vm.Prelude.Int.{ℤ, pos}

-- `key="value"` with the key in lower case.
unfoldable pub split_machine_readable : Text → Option (Text × Text)
split_machine_readable line =
    Option.map (λ kv. (to_lower (trim_space kv.0), trim_quotes (trim_space kv.1)))
      (cut (trim_space line) b'=')

-- The same with the case of the key kept, and its quotes stripped.
unfoldable pub split_machine_readable_raw_key : Text → Option (Text × Text)
split_machine_readable_raw_key line =
    Option.map (λ kv. (trim_quotes (trim_space kv.0), trim_quotes (trim_space kv.1)))
      (cut (trim_space line) b'=')

abbrev pub prepend {ℓ} : {A : Type ℓ} → Option A → List A → List A
prepend none xs = xs
prepend (some x) xs = x ∷ xs

-- The pairs of all the lines that have one.
unfoldable pub machine_pairs : (Text → Option (Text × Text)) → List Text → List (Text × Text)
machine_pairs splitter [] = []
machine_pairs splitter (l ∷ ls) = prepend (splitter l) (machine_pairs splitter ls)

unfoldable pub after_label : Text → Text → Option Text
after_label line label =
    if has_prefix line label then some (trim_space (trim_prefix line label)) else none

-- The value of the first line that begins with `prefix`, without its quotes.
unfoldable pub first_value : Text → List Text → Text
first_value prefix [] = []
first_value prefix (l ∷ ls) =
    let rest = first_value prefix ls in
    let line = trim_space l in
    if has_prefix line prefix then trim_quotes (trim_prefix line prefix) else rest

-- `parseVmState`.
unfoldable pub parse_vm_state : Text → Text
parse_vm_state output = first_value (txt "VMState=") (lines output)

-- `parseGuestOSType`.
unfoldable pub parse_guest_os_type : Text → Text
parse_guest_os_type output = first_value (txt "ostype=") (lines output)

-- `vmStateIsLive`.
unfoldable pub vm_state_is_live : Text → Bool
vm_state_is_live state =
    one_of (txt "running" ∷ txt "paused" ∷ txt "stuck" ∷ txt "starting" ∷ txt "restoring" ∷ [])
      (to_lower (trim_space state))

-- The renamings of `normalizeVmState`; every other token passes through in lower case.
abbrev pub state_names : List (Text × Text)
state_names =
    (txt "starting", txt "booting")
    ∷ (txt "restoring", txt "resuming")
    ∷ (txt "poweroff", txt "powered off")
    ∷ []

unfoldable pub renamed : List (Text × Text) → Text → Text
renamed [] s = s
renamed ((from, to) ∷ names) s = if text_eq s from then to else renamed names s

unfoldable pub normalize_vm_state : Text → Text
normalize_vm_state raw = renamed state_names (to_lower (trim_space raw))

-- `slotSuffix` and `sharedFolderIndex`: the prefix followed by a positive number.
abbrev pub positive : Option ℤ → Option ℕ
positive (some (pos (suc n))) = some (suc n)
positive _ = none

unfoldable pub slot_suffix : Text → Text → Option ℕ
slot_suffix key prefix =
    if has_prefix key prefix
    then (let suffix = drop (length prefix) key in
        if is_empty suffix then none else positive (atoi suffix))
    else none

-- `indexSuffix`: zero is allowed too.
abbrev pub non_negative : Option ℤ → Option ℕ
non_negative (some (pos n)) = some n
non_negative _ = none

unfoldable pub index_suffix : Text → Text → Option ℕ
index_suffix key prefix =
    if has_prefix key prefix
    then (let suffix = drop (length prefix) key in
        if is_empty suffix then none else non_negative (atoi suffix))
    else none

pub record VrdeInfo : Type 0 where
  pub enabled : Bool
  pub address : Text
  pub port : Text

-- One pair of `parseVRDEInfo`: the last line of each key counts.
unfoldable pub vrde_pair : VrdeInfo → Text × Text → VrdeInfo
vrde_pair info (key, value) =
    if text_eq key (txt "vrde")
    then record info { enabled = equal_fold value (txt "on") || equal_fold value (txt "true") }
    else if text_eq key (txt "vrdeaddress")
    then record info { address = value }
    else if text_eq key (txt "vrdeport")
    then record info { port = value }
    else info

unfoldable pub parse_vrde_info : Text → VrdeInfo
parse_vrde_info output =
    foldl vrde_pair (record { enabled = false; address = []; port = [] })
      (machine_pairs split_machine_readable (lines output))

-- One pair of `parseConfiguredHardware` and `parseVmResources`; a bad number changes nothing.
unfoldable pub hardware_pair : ℤ × ℤ → Text × Text → ℤ × ℤ
hardware_pair (cpus, memory) (key, value) =
    if text_eq key (txt "cpus")
    then (Option.get_or (atoi value) cpus, memory)
    else if text_eq key (txt "memory")
    then (cpus, Option.get_or (atoi value) memory)
    else (cpus, memory)

unfoldable pub parse_configured_hardware : Text → ℤ × ℤ
parse_configured_hardware output =
    foldl hardware_pair (pos 0, pos 0) (machine_pairs split_machine_readable (lines output))
