-- ===== src/Service/Discover.antt =====
-- Finding VBoxManage: `findVBoxManage`, `readVersion`, `resolveVBoxManage` of service.go.
use tab_vm.Service.{VmError, not_discovered, VmResult, ok, err, Outcome, Host, Service, State, M}
use tab_vm.Service.Run.{seconds, succeeded, exec}
use tab_vm.Strings.{Text, txt, is_empty, lines, trim_space}
use tab_vm.Prelude.{if◌then◌else◌, Option, none, some, List, ◌∷◌, []}

abbrev pub version_args : List Text
version_args = txt "--version" ∷ []

-- The first line that is not blank.
unfoldable pub first_line : List Text → Option Text
first_line [] = none
first_line (l ∷ ls) =
    let rest = first_line ls in let line = trim_space l in if is_empty line then rest else some line

unfoldable pub version_of : Outcome → Option Text
version_of o =
    if succeeded o then first_line (lines (trim_space o.result.standard_output)) else none

module _ {W : Type 0} (host : Host W) where
  unfoldable pub read_version : Text → State W → Option Text × State W
  read_version path s = let (o, t) = exec host path version_args (seconds 10) s in (version_of o, t)

  -- A candidate is taken if its file is there and answers with a version; an empty one is passed
  -- over. `rest` goes on with the others.
  unfoldable pub try_path :
      (State W → Option (Text × Text) × State W)
      → Text
      → Option Text × State W
      → Option (Text × Text) × State W
  try_path rest resolved (some version, t) = (some (resolved, version), t)
  try_path rest resolved (none, t) = rest t

  unfoldable pub find_in_paths : List Text → State W → Option (Text × Text) × State W
  find_in_paths [] s = (none, s)
  find_in_paths (p ∷ ps) s =
      let rest = find_in_paths ps in
      if is_empty p then rest s else elim (host.resolve_path p s.world) [
        | none ↦ rest s
        | some resolved ↦ try_path rest resolved (read_version resolved s)
      ]

  unfoldable pub find_vbox_manage : Service → State W → Option (Text × Text) × State W
  find_vbox_manage svc s = if host.is_windows then find_in_paths svc.paths s else (none, s)

  abbrev no_vbox_manage : VmError
  no_vbox_manage =
      not_discovered
        (txt "VirtualBox/VBoxManage was not discovered. VM operations are unavailable.")

  unfoldable pub resolved : Option (Text × Text) × State W → VmResult Text × State W
  resolved (some (path, version), t) = (if is_empty path then err no_vbox_manage else ok path, t)
  resolved (none, t) = (err no_vbox_manage, t)

  unfoldable pub resolve_vbox_manage : Service → M W Text
  unfolding resolved
  resolve_vbox_manage svc s = resolved (find_vbox_manage svc s)
