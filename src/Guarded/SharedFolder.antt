-- ===== src/Guarded/SharedFolder.antt =====
-- Adding and removing a shared folder.
use tab_vm.Strings.{Text, is_empty, trim_space}
use tab_vm.Prelude.{
  ◌≡◌, refl, sym, ap, ◌⊎◌, inl, inr, Bool, true, false, Option, none, some, List, [], not-true,
}
use tab_vm.Ops.SharedFolder.{
  add_shared_folder, remove_shared_folder, contains_traversal, is_folder_name, SharedFolder,
  folder_named, parse_shared_folders, validate_directory, validate_host_path, remove_found,
  add_shared_folder_args, remove_shared_folder_args, validate_shared_folder_name,
}
use tab_vm.Service.Trace.{Policy, Safe, Post, IsSafe-issued, IsSafe, Post-bind}
use tab_vm.Service.{Host, Service, State}
use tab_vm.Guarded.{EitherPolicy, NoReads, Saw, subst, Seen-Allows, Captured-Saw, Captured-Seen}
use tab_vm.Service.Discover.{version_args}
use tab_vm.Service.Run.{show_vm_info_args}
use tab_vm.VmId.{is_valid_vm_id}
use tab_vm.Service.Trace.Reads.{require_last, require_first}
use mathlib.Core.Bool.{false≢true}
use tab_vm.Service.Trace.Rules.{
  after_command, log_and_return, after_require, after_resolve, after_read,
}

-- The path names a directory of the host by an absolute path, with no step upwards.
abbrev pub Directory : {W : Type 0} → (Text → Bool) → (Text → W → Option Bool) → W → Text → Type 0
Directory is_abs stat w path =
    (is_empty path ≡ false)
    × (is_abs path ≡ true)
    × (contains_traversal path ≡ false)
    × (stat path w ≡ some true)

abbrev pub FolderChange :
    {W : Type 0}
    → (Text → Bool)
    → (Text → W → Option Bool)
    → W
    → Text
    → Text
    → List Text
    → List Text
    → Type 0
FolderChange is_abs stat w name host_path form args =
    (args ≡ form) × (is_folder_name name ≡ true) × Directory is_abs stat w (trim_space host_path)

abbrev pub AddFolderPolicy :
    {W : Type 0} → (Text → Bool) → (Text → W → Option Bool) → W → Text → Text → Text → Policy
AddFolderPolicy is_abs stat w id name host_path =
    EitherPolicy NoReads
      (FolderChange is_abs stat w name host_path (add_shared_folder_args id name host_path true))
      (FolderChange is_abs stat w name host_path (add_shared_folder_args id name host_path false))
      id

-- The settings list such a folder first under the name.
abbrev pub Lists : Text → SharedFolder → Text → Type 0
Lists name f info = folder_named name (parse_shared_folders info) ≡ some f

abbrev pub RemoveFolderPolicy : Text → Text → Policy
RemoveFolderPolicy id name e before =
    (e.args ≡ version_args)
    ⊎ ((e.args ≡ show_vm_info_args id)
        ⊎ ((is_valid_vm_id id ≡ true)
            × (is_folder_name name ≡ true)
            × ((f : SharedFolder) × (e.args
                  ≡ remove_shared_folder_args id name f.transient f.global)
                × Saw (Lists name f) id before)))

module _ {W : Type 0} (host : Host W) (svc : Service) (quote : Text → Text) (is_abs : Text → Bool)
    (stat : Text → W → Option Bool) where
  validate_directory-Post :
      (P : Policy) (Q : Type 0) (found : Option Bool) (s : State W)
      → Safe P s.issued
      → (found ≡ some true → Q)
      → Post P (λ _ t. Q × (t ≡ s)) (validate_directory found s)
  unfolding validate_directory
  validate_directory-Post P Q none s safe k =
      require_last P _ _ s _ safe (λ h. absurd (false≢true h))
  validate_directory-Post P Q (some is_dir) s safe k =
      require_last P _ _ s _ safe (λ h. (k (ap some h), refl))

  validate_host_path-Post :
      (P : Policy) (path : Text) (s : State W)
      → Safe P s.issued
      → Post P
          (λ _ t. Directory is_abs stat s.world (trim_space path) × (t ≡ s))
          (validate_host_path is_abs stat path s)
  unfolding validate_host_path
  validate_host_path-Post P path s safe = require_first P _ _ s _ _ safe (λ given.
      require_first P _ _ s _ _ safe (λ absolute. require_first P _ _ s _ _ safe (λ straight.
        validate_directory-Post P _ (stat (trim_space path) s.world) s safe
          (λ found. (not-true given, absolute, not-true straight, found)))))

  add_shared_folder-IsSafe :
      (id name host_path : Text) (s : State W)
      → Safe (AddFolderPolicy is_abs stat s.world id name host_path) s.issued
      → IsSafe
          (AddFolderPolicy is_abs stat s.world id name host_path)
          (add_shared_folder host svc quote is_abs stat id name host_path s)
  unfolding add_shared_folder validate_shared_folder_name
  add_shared_folder-IsSafe id name host_path s safe =
      let P = AddFolderPolicy is_abs stat s.world id name host_path in
      after_require P s safe _ _ _ (λ valid. after_require P s safe _ _ _ (λ named.
        Post-bind P (validate_host_path is_abs stat host_path s) _
          (λ _ t. Directory is_abs stat s.world (trim_space host_path) × (t ≡ s)) _
          (validate_host_path-Post P host_path s safe)
          (λ _ r (directory, still).
            after_resolve P r (subst (λ x. Safe P x.issued) (sym still) safe) host svc
              (λ o b. inl refl) _ _ _ _
              (λ path t safe1.
                after_read P t safe1 host svc _ _ _ _ (λ o. inr (inl refl))
                  (λ info u read.
                    after_command P u read.3 host svc _ _ _ _ _ _ _ _
                      (Seen-Allows host NoReads
                        (FolderChange is_abs stat s.world name host_path
                          (add_shared_folder_args id name host_path true))
                        (FolderChange is_abs stat s.world name host_path
                          (add_shared_folder_args id name host_path false))
                        id info (add_shared_folder_args id name host_path) u valid
                        (refl, named, directory) (refl, named, directory)
                        (Captured-Seen host P id info t u read))
                      (λ x o newest safe2. log_and_return P x safe2 host svc _ _ _ _ _))))))

module _ {W : Type 0} (host : Host W) (svc : Service) (quote : Text → Text) where
  remove_found-IsSafe :
      (id name path : Text) (found : Option SharedFolder) (s : State W)
      → Safe (RemoveFolderPolicy id name) s.issued
      → is_valid_vm_id id ≡ true
      → is_folder_name name ≡ true
      → Saw (λ info. folder_named name (parse_shared_folders info) ≡ found) id s.issued
      → IsSafe (RemoveFolderPolicy id name) (remove_found host svc quote path id name found s)
  unfolding remove_found Post
  remove_found-IsSafe id name path none s safe valid named saw = safe
  remove_found-IsSafe id name path (some f) s safe valid named saw =
      let P = RemoveFolderPolicy id name in
      after_command P s safe host svc _ _ _ _ _ _ _ _
        (λ o. inr (inr (valid, named, (f, refl, saw))))
        (λ x o newest safe2. log_and_return P x safe2 host svc _ _ _ _ _)

  remove_shared_folder-IsSafe :
      (id name : Text) (s : State W)
      → Safe (RemoveFolderPolicy id name) s.issued
      → IsSafe (RemoveFolderPolicy id name) (remove_shared_folder host svc quote id name s)
  unfolding remove_shared_folder validate_shared_folder_name
  remove_shared_folder-IsSafe id name s safe =
      let P = RemoveFolderPolicy id name in
      after_require P s safe _ _ _ (λ valid. after_require P s safe _ _ _ (λ named.
        after_resolve P s safe host svc (λ o b. inl refl) _ _ _ _
          (λ path t safe1.
            after_read P t safe1 host svc _ _ _ _ (λ o. inr (inl refl))
              (λ info u read.
                remove_found-IsSafe id name path (folder_named name (parse_shared_folders info)) u
                  read.3 valid named
                  (Captured-Saw host P t u
                    (λ x.
                      folder_named name (parse_shared_folders x)
                      ≡ folder_named name (parse_shared_folders info))
                    read refl)))))

-- Whatever the host answers, `AddSharedFolder` shares the path that it is given, under a name of the
-- pattern and for a well-formed identifier, and only if that path without the spaces around it is
-- absolute, has no step upwards, and was found by `os.Stat`, at the start of the call, to be a directory
-- (of a path that has such spaces, nothing is shown about the path that is shared): for the session
-- only behind a read, in the same call, that showed the machine live, for good only behind one that
-- showed it not live; besides, it runs only `--version` and that read.
pub add_shared_folder_guarded :
    {W : Type 0} (host : Host W) (svc : Service) (quote : Text → Text) (is_abs : Text → Bool)
    (stat : Text → W → Option Bool) (id name host_path : Text) (s : State W)
    → s.issued ≡ []
    → Safe
        (AddFolderPolicy is_abs stat s.world id name host_path)
        (add_shared_folder host svc quote is_abs stat id name host_path s).1.issued
add_shared_folder_guarded host svc quote is_abs stat id name host_path s h =
    IsSafe-issued _ (add_shared_folder host svc quote is_abs stat id name host_path s)
      (add_shared_folder-IsSafe host svc quote is_abs stat id name host_path s (rw h tt))

-- Whatever the host answers, `RemoveSharedFolder` removes only a folder with a name of the pattern that a
-- successful read of a machine with a well-formed identifier, in the same call, listed, and in the scope that
-- it listed; besides, it runs only `--version` and that read.
pub remove_shared_folder_guarded :
    {W : Type 0} (host : Host W) (svc : Service) (quote : Text → Text) (id name : Text)
    (s : State W)
    → s.issued ≡ []
    → Safe (RemoveFolderPolicy id name) (remove_shared_folder host svc quote id name s).1.issued
remove_shared_folder_guarded host svc quote id name s h =
    IsSafe-issued _ (remove_shared_folder host svc quote id name s)
      (remove_shared_folder-IsSafe host svc quote id name s (rw h tt))
