-- ===== src/Ops/SharedFolder.antt =====
-- Shared folders: sharedfolder.go and sharedfolder_parser.go. The parameter `is_abs` stands for
-- `filepath.IsAbs`, `stat` for `os.Stat` (nothing for an error, or whether it is a directory), and `quote`
-- for the format `%q`.
use mathlib.Core.List.{foldl}
use tab_vm.Strings.{Text, txt, text_eq, is_empty, one_of, trim_space, extend, lines}
use tab_vm.Prelude.{
  ltb, leb, ◌==◌, if◌then◌else◌, length, ℕ, Bool, true, false, not, ◌&&◌, ◌||◌, Option, none, some,
  List, [], ◌∷◌, ◌++◌,
}
use tab_vm.Parse.{
  slot_suffix, machine_pairs, split_machine_readable_raw_key, vm_state_is_live, parse_vm_state,
}
use tab_vm.Service.{
  ◌>>=◌, ◌>>◌, fail, M, Host, require, Service, validation, Response, fail, invalid_vm, return,
}
use tab_vm.VmId.{is_valid_vm_id}
use tab_vm.Service.Run.{or_log, run_control_command, log_operation, read_show_vm_info}
use tab_vm.Service.Discover.{resolve_vbox_manage}

abbrev pub is_word : ℕ → Bool
is_word c =
    (leb b'A' c && leb c b'Z')
    || ((leb b'a' c && leb c b'z') || ((leb b'0' c && leb c b'9') || (c == b'.' || c == b'_')))

abbrev pub all_words : Text → Bool
all_words [] = true
all_words (c ∷ s) = (is_word c || c == b'-') && all_words s

-- `sharedFolderNamePattern`.
unfoldable pub is_folder_name : Text → Bool
is_folder_name [] = false
is_folder_name (c ∷ s) = is_word c && (all_words s && leb (length s) 63)

-- The segments between slashes and backslashes; empty ones are no matter.
unfoldable pub segments : Text → List Text
segments [] = [] ∷ []
segments (c ∷ s) = if c == b'/' || c == b'\\' then [] ∷ segments s else extend c (segments s)

unfoldable pub contains_traversal : Text → Bool
contains_traversal p = one_of (segments p) (txt "..")

pub record SharedFolder : Type 0 where
  pub name : Text
  pub host_path : Text
  pub transient : Bool
  pub global : Bool

-- The mappings by index: the names and the paths of each scope, in the order of the indices.
pub record FolderTable : Type 0 where
  pub machine_names : List (ℕ × Text)
  pub machine_paths : List (ℕ × Text)
  pub global_names : List (ℕ × Text)
  pub global_paths : List (ℕ × Text)
  pub transient_names : List (ℕ × Text)
  pub transient_paths : List (ℕ × Text)

-- A map's assignment, on a list that is sorted by index.
unfoldable pub put_index : ℕ → Text → List (ℕ × Text) → List (ℕ × Text)
put_index i v [] = (i, v) ∷ []
put_index i v ((j, old) ∷ rest) =
    let later = put_index i v rest in
    if i == j
    then (i, v) ∷ rest
    else (if ltb i j then (i, v) ∷ (j, old) ∷ rest else (j, old) ∷ later)

abbrev pub or_set : Option ℕ → (ℕ → FolderTable) → FolderTable → FolderTable
or_set none f rest = rest
or_set (some i) f rest = f i

unfoldable pub folder_pair : FolderTable → Text × Text → FolderTable
folder_pair t (key, value) =
    or_set (slot_suffix key (txt "SharedFolderNameMachineMapping"))
      (λ i. record t { machine_names = put_index i value t.machine_names })
      (or_set (slot_suffix key (txt "SharedFolderPathMachineMapping"))
        (λ i. record t { machine_paths = put_index i value t.machine_paths })
        (or_set (slot_suffix key (txt "SharedFolderNameGlobalMapping"))
          (λ i. record t { global_names = put_index i value t.global_names })
          (or_set (slot_suffix key (txt "SharedFolderPathGlobalMapping"))
            (λ i. record t { global_paths = put_index i value t.global_paths })
            (or_set (slot_suffix key (txt "SharedFolderNameTransientMapping"))
              (λ i. record t { transient_names = put_index i value t.transient_names })
              (or_set (slot_suffix key (txt "SharedFolderPathTransientMapping"))
                (λ i. record t { transient_paths = put_index i value t.transient_paths }) t)))))

unfoldable pub path_at : ℕ → List (ℕ × Text) → Text
path_at i [] = []
path_at i ((j, path) ∷ rest) = let later = path_at i rest in if i == j then path else later

unfoldable pub collect_shared_folders :
    List (ℕ × Text) → List (ℕ × Text) → Bool → Bool → List SharedFolder
collect_shared_folders [] paths transient global = []
collect_shared_folders ((i, name) ∷ names) paths transient global =
    let rest = collect_shared_folders names paths transient global in
    if is_empty (trim_space name)
    then rest
    else record {
      name = trim_space name;
      host_path = trim_space (path_at i paths);
      transient = transient;
      global = global;
    }
      ∷ rest

abbrev pub no_folders : FolderTable
no_folders = record {
  machine_names = [];
  machine_paths = [];
  global_names = [];
  global_paths = [];
  transient_names = [];
  transient_paths = [];
}

abbrev pub folders_of : FolderTable → List SharedFolder
folders_of t =
    collect_shared_folders t.machine_names t.machine_paths false false
    ++ (collect_shared_folders t.global_names t.global_paths false true
        ++ collect_shared_folders t.transient_names t.transient_paths true false)

unfoldable pub parse_shared_folders : Text → List SharedFolder
parse_shared_folders output =
    folders_of
      (foldl folder_pair no_folders (machine_pairs split_machine_readable_raw_key (lines output)))

-- The first folder of that name.
unfoldable pub folder_named : Text → List SharedFolder → Option SharedFolder
folder_named name [] = none
folder_named name (f ∷ fs) =
    let rest = folder_named name fs in if text_eq f.name name then some f else rest

abbrev pub if_flag : Bool → Text → List Text
if_flag b flag = if b then flag ∷ [] else []

unfoldable pub add_shared_folder_args : Text → Text → Text → Bool → List Text
add_shared_folder_args id name host_path transient =
    (txt "sharedfolder" ∷ txt "add" ∷ id ∷ txt "--name" ∷ name ∷ txt "--hostpath" ∷ host_path ∷ [])
    ++ (if_flag transient (txt "--transient") ++ (txt "--automount" ∷ []))

unfoldable pub remove_shared_folder_args : Text → Text → Bool → Bool → List Text
remove_shared_folder_args id name transient global =
    (txt "sharedfolder" ∷ txt "remove" ∷ id ∷ txt "--name" ∷ name ∷ [])
    ++ (if_flag transient (txt "--transient") ++ if_flag global (txt "--global"))

unfoldable pub folder_added : Text → Bool → Text
folder_added quoted live =
    txt "Shared folder "
    ++ (quoted
        ++ (if live then txt " added for the current session (VM is running)." else txt " added."))

abbrev pub not_a_folder : Option Bool → Text
not_a_folder none = txt "Host path does not exist or is not accessible."
not_a_folder (some is_dir) = txt "Host path must be a directory."

abbrev pub is_directory : Option Bool → Bool
is_directory none = false
is_directory (some is_dir) = is_dir

module _ {W : Type 0} where
  unfoldable pub validate_shared_folder_name : Text → M W (Unit {0})
  validate_shared_folder_name name = require (is_folder_name name) (
      validation (
        txt
          "Shared folder name must be 1-64 characters using letters, digits, dot, dash or underscore."))

  unfoldable pub validate_directory : Option Bool → M W (Unit {0})
  validate_directory found = require (is_directory found) (validation (not_a_folder found))

  unfoldable pub validate_host_path :
      (Text → Bool) → (Text → W → Option Bool) → Text → M W (Unit {0})
  validate_host_path is_abs stat host_path = do
    require (not (is_empty (trim_space host_path))) (validation (txt "Host path is required."))
    require (is_abs (trim_space host_path)) (validation (txt "Host path must be an absolute path."))
    require (not (contains_traversal (trim_space host_path)))
        (validation (txt "Host path must not contain '..' segments."))
    λ s. validate_directory (stat (trim_space host_path) s.world) s

module _ {W : Type 0} (host : Host W) (svc : Service) (quote : Text → Text) where
  unfoldable pub list_shared_folders : Text → M W (List SharedFolder)
  list_shared_folders id = do
    require (is_valid_vm_id id) invalid_vm
    path ← resolve_vbox_manage host svc
    info ← read_show_vm_info host path id (txt "reading shared folders")
    return (parse_shared_folders info)

  unfoldable pub add_shared_folder :
      (Text → Bool) → (Text → W → Option Bool) → Text → Text → Text → M W Response
  add_shared_folder is_abs stat id name host_path = do
    require (is_valid_vm_id id) invalid_vm
    validate_shared_folder_name name
    validate_host_path is_abs stat host_path
    path ←
        or_log svc (resolve_vbox_manage host svc) id (txt "sharedfolder.add")
          (txt "VirtualBox/VBoxManage not discovered.")
    info ← read_show_vm_info host path id (txt "reading VM state for shared folder add")
    or_log svc
        (run_control_command host id path
          (add_shared_folder_args id name host_path (vm_state_is_live (parse_vm_state info)))
          (txt "adding shared folder"))
        id (txt "sharedfolder.add") (txt "VirtualBox shared folder add failed.")
    log_operation svc id (txt "sharedfolder.add") true []
    return (record {
      success = true;
      vm_id = id;
      message = folder_added (quote name) (vm_state_is_live (parse_vm_state info));
    })

  unfoldable pub remove_found : Text → Text → Text → Option SharedFolder → M W Response
  remove_found path id name none = fail (validation (txt "Shared folder not found."))
  remove_found path id name (some target) = do
    or_log svc
        (run_control_command host id path
          (remove_shared_folder_args id name target.transient target.global)
          (txt "removing shared folder"))
        id (txt "sharedfolder.remove") (txt "VirtualBox shared folder remove failed.")
    log_operation svc id (txt "sharedfolder.remove") true []
    return (record {
      success = true;
      vm_id = id;
      message = txt "Shared folder " ++ (quote name ++ txt " removed.");
    })

  unfoldable pub remove_shared_folder : Text → Text → M W Response
  remove_shared_folder id name = do
    require (is_valid_vm_id id) invalid_vm
    validate_shared_folder_name name
    path ←
        or_log svc (resolve_vbox_manage host svc) id (txt "sharedfolder.remove")
          (txt "VirtualBox/VBoxManage not discovered.")
    info ← read_show_vm_info host path id (txt "reading shared folders for removal")
    remove_found path id name (folder_named name (parse_shared_folders info))
