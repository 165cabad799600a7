-- ===== src/Service/Trace/Discover.antt =====
-- Looking for VBoxManage, under a policy.
use tab_vm.Service.{Host, Service, Event, State, Outcome}
use tab_vm.Service.Trace.{Post, Policy, Safe, event, IsSafe, Ran-Safe, exec-Ran}
use tab_vm.Service.Discover.{
  version_args, read_version, try_path, find_in_paths, find_vbox_manage, resolved,
  resolve_vbox_manage,
}
use tab_vm.Service.Run.{seconds}
use tab_vm.Strings.{Text, is_empty}
use tab_vm.Prelude.{Bool-cases, Option-cases, inl, inr, Option, none, some, List, [], ◌∷◌}

-- Looking for VBoxManage runs nothing but `--version`.
module _ {W : Type 0} (host : Host W) (P : Policy)
    (probes : (o : Outcome) (before : List Event) → P (event version_args o) before) where
  abbrev Found : Option (Text × Text) × State W → Type 0
  Found r = Safe P r.1.issued

  read_version-Safe :
      (path : Text) (s : State W) → Safe P s.issued → Safe P (read_version host path s).1.issued
  unfolding read_version
  read_version-Safe path s h =
      Ran-Safe host P (exec-Ran host path version_args (seconds 10) s) (λ o. probes o s.issued) h

  try_path-Safe :
      (rest : State W → Option (Text × Text) × State W) (path : Text) (r : Option Text × State W)
      → ((t : State W) → Safe P t.issued → Found (rest t))
      → Safe P r.1.issued
      → Found (try_path host rest path r)
  unfolding try_path
  try_path-Safe rest path (some version, t) k h = h
  try_path-Safe rest path (none, t) k h = k t h

  find_in_paths-Safe :
      (paths : List Text) (s : State W) → Safe P s.issued → Found (find_in_paths host paths s)
  unfolding find_in_paths
  find_in_paths-Safe [] s h = h
  find_in_paths-Safe (p ∷ ps) s h = elim (Bool-cases (is_empty p)) [
    | inl e ↦ rw e (find_in_paths-Safe ps s h)
    | inr e ↦ rw e (elim (Option-cases (host.resolve_path p s.world)) [
      | inl missing ↦ rw missing (find_in_paths-Safe ps s h)
      | inr (path, there) ↦ rw there (
          try_path-Safe (find_in_paths host ps) path (read_version host path s)
            (find_in_paths-Safe ps) (read_version-Safe path s h))
    ])
  ]

  find_vbox_manage-Safe :
      (svc : Service) (s : State W) → Safe P s.issued → Found (find_vbox_manage host svc s)
  unfolding find_vbox_manage
  find_vbox_manage-Safe svc s h = elim (Bool-cases host.is_windows) [
    | inl e ↦ simp e (find_in_paths-Safe svc.paths s h)
    | inr e ↦ simp e h
  ]

  resolved-Post : (r : Option (Text × Text) × State W) → Found r → IsSafe P (resolved host r)
  unfolding Post resolved
  resolved-Post (some (path, version), t) h = elim (Bool-cases (is_empty path)) [
    | inl e ↦ rw e h
    | inr e ↦ rw e h
  ]
  resolved-Post (none, t) h = h

  pub resolve_vbox_manage-Post :
      (svc : Service) (s : State W) → Safe P s.issued → IsSafe P (resolve_vbox_manage host svc s)
  unfolding resolve_vbox_manage
  resolve_vbox_manage-Post svc s h =
      resolved-Post (find_vbox_manage host svc s) (find_vbox_manage-Safe svc s h)
