-- ===== src/Guarded/Storage/AddDisk.antt =====
-- Adding a disk.
use tab_vm.Service.{Host, Service, State, Event, M, and_then}
use tab_vm.Service.Discover.{version_args}
use tab_vm.Service.Run.{show_vm_info_args}
use tab_vm.Service.Trace.{Safe, IsSafe, IsSafe-issued, Policy, Allows, Post}
use tab_vm.Service.Trace.Rules.{
  after_require, after_resolve, after_read, after_command, after_command_timeout, log_and_return,
}
use tab_vm.Parse.Controllers.{parse_storage_controllers}
use tab_vm.Parse.SataPort.{Target, Pick, picked, pick_failed, pick_sata_target}
use tab_vm.Ops.Storage.AddDisk.{
  min_disk_mb, max_disk_mb, create_disk_mb_args, set_port_count_args, storage_attach_at_args,
  target_of, disk_path_for, chosen_path, grow_controller, add_disk,
}
use tab_vm.Guarded.{Saw, Stopped, Captured-Saw, Saw-later}
use tab_vm.VmId.{is_valid_vm_id}
use tab_vm.Prelude.{
  ◌≡◌, ◌⊎◌, refl, inl, inr, not-true, [], true, Bool-cases, List, ◌∷◌, Option, none, some,
}
use tab_vm.Strings.{Text}
use tab_vm.Prelude.Int.{ℤ, ltb_ℤ, leb_ℤ, pos}

-- The settings are of a machine that is not live, with this place for a new disk.
abbrev pub HasPlace : Target → Text → Type 0
HasPlace t info = Stopped info × (pick_sata_target (parse_storage_controllers info) ≡ picked t)

-- The three commands that add a disk at `t`, with its file at some path; the controller grows only if
-- a count to grow to was chosen.
abbrev pub AddDiskChange : Text → ℤ → Target → List Text → Type 0
AddDiskChange id size t args =
    (path : Text) × ((args ≡ create_disk_mb_args path size)
      ⊎ (((args ≡ set_port_count_args id t.ctl t.bump_to) × (ltb_ℤ (pos 0) t.bump_to ≡ true))
          ⊎ (args ≡ storage_attach_at_args id t.ctl t.port path)))

abbrev pub AddDiskPolicy : Text → ℤ → Policy
AddDiskPolicy id size e before =
    (e.args ≡ version_args)
    ⊎ ((e.args ≡ show_vm_info_args id)
        ⊎ ((is_valid_vm_id id ≡ true)
            × ((leb_ℤ (pos min_disk_mb) size ≡ true) × (leb_ℤ size (pos max_disk_mb) ≡ true))
            × ((t : Target) × AddDiskChange id size t e.args × Saw (HasPlace t) id before)))

module _ {W : Type 0} (P : Policy) {B : Type 0} (s : State W) (safe : Safe P s.issued) where
  after_target :
      (pick : Pick) (f : Target → M W B)
      → ((t : Target) → pick ≡ picked t → IsSafe P (f t s))
      → IsSafe P (and_then (target_of pick s) f)
  unfolding and_then Post
  after_target (picked t) f k = k t refl
  after_target (pick_failed e) f k = safe

  after_chosen_path :
      (host : Host W) (svc : Service) (r : Option Text) (f : Text → M W B)
      → ((path : Text) → IsSafe P (f path s))
      → IsSafe P (and_then (chosen_path host svc s r) f)
  unfolding and_then Post chosen_path
  after_chosen_path host svc (some path) f k = k path
  after_chosen_path host svc none f k = safe

  after_disk_path :
      (host : Host W) (svc : Service) (cfg : Text) (f : Text → M W B)
      → ((path : Text) → IsSafe P (f path s))
      → IsSafe P (and_then (disk_path_for host svc cfg s) f)
  unfolding disk_path_for
  after_disk_path host svc cfg f k = after_chosen_path host svc _ f k

module _ {W : Type 0} (host : Host W) (svc : Service) (id : Text) (size : ℤ) where
  abbrev P : Policy
  P = AddDiskPolicy id size

  -- What is known once the place is chosen, for the commands that follow.
  abbrev Ready : Target → State W → Type 0
  Ready t s =
      (is_valid_vm_id id ≡ true)
      × ((leb_ℤ (pos min_disk_mb) size ≡ true) × (leb_ℤ size (pos max_disk_mb) ≡ true))
      × Saw (HasPlace t) id s.issued

  Ready-later :
      (t : Target) (s u : State W) (e : Event) → u.issued ≡ e ∷ s.issued → Ready t s → Ready t u
  Ready-later t s u e same (valid, bounds, saw) =
      (valid, bounds, Saw-later (show_vm_info_args id) (HasPlace t) s u e same saw)

  Ready-Allows :
      (t : Target) (args : List Text) (s : State W)
      → Ready t s
      → AddDiskChange id size t args
      → Allows host P args s
  Ready-Allows t args s (valid, bounds, saw) change o = inr (inr (valid, bounds, (t, change, saw)))

  after_grow :
      {B : Type 0} (path : Text) (t : Target) (s : State W) (f : Unit {0} → M W B)
      → Safe P s.issued
      → Ready t s
      → ((u : State W) → Safe P u.issued → Ready t u → IsSafe P (f tt u))
      → IsSafe P (and_then (grow_controller host svc id path t s) f)
  unfolding and_then grow_controller
  after_grow path t s f safe ready k = elim (Bool-cases (ltb_ℤ (pos 0) t.bump_to)) [
    | inl grows ↦ simp grows (
        after_command P s safe host svc _ _ _ _ _ _ _ f
          (Ready-Allows t _ s ready ([], inr (inl (refl, grows))))
          (λ u o newest safe1. k u safe1 (Ready-later t s u _ newest.0 ready)))
    | inr kept ↦ simp kept (k s safe ready)
  ]

  add_disk-IsSafe : (s : State W) → Safe P s.issued → IsSafe P (add_disk host svc id size s)
  unfolding add_disk
  add_disk-IsSafe s safe = after_require P s safe _ _ _ (λ valid.
      after_require P s safe _ _ _ (λ low. after_require P s safe _ _ _ (λ high.
        after_resolve P s safe host svc (λ o b. inl refl) _ _ _ _
          (λ path t safe1.
            after_read P t safe1 host svc _ _ _ _ (λ o. inr (inl refl))
              (λ info u read. after_require P u read.3 _ _ _ (λ stopped.
                after_target P u read.3 _ _ (λ place chosen.
                  let saw =
                    Captured-Saw host P t u (HasPlace place) read (not-true stopped, chosen) in
                  let ready : Ready place u = (valid, (low, high), saw) in
                  after_require P u read.3 _ _ _ (λ _.
                    after_disk_path P u read.3 host svc _ _ (λ file.
                      after_command_timeout P u read.3 host svc _ _ _ _ _ _ _ _ _
                        (Ready-Allows place _ u ready (file, inl refl))
                        (λ v o newest safe2.
                          let ready2 = Ready-later place u v _ newest.0 ready in
                          after_grow path place v _ safe2 ready2 (λ w safe3 ready3.
                            after_command P w safe3 host svc _ _ _ _ _ _ _ _
                              (Ready-Allows place _ w ready3 (file, inr (inr refl)))
                              (λ x o newest2 safe4.
                                log_and_return P x safe4 host svc _ _ _ _ _))))))))))))

-- Whatever the host answers, the commands of `AddDisk` that change something create a disk of the
-- asked size, which is between 1 GB and 2 TB, grow a controller to the count that `pickSataTarget`
-- chose, if that is above 0, or attach a file at the controller and port that it chose: for a
-- well-formed identifier, and behind a read of the machine's settings, in the same call, which succeeded, reported a state
-- that is not live, and from which that place was chosen. Besides, it runs only `--version` and that
-- read.
pub add_disk_guarded :
    {W : Type 0} (host : Host W) (svc : Service) (id : Text) (size : ℤ) (s : State W)
    → s.issued ≡ []
    → Safe (AddDiskPolicy id size) (add_disk host svc id size s).1.issued
add_disk_guarded host svc id size s h =
    IsSafe-issued (P host svc id size) (add_disk host svc id size s)
      (add_disk-IsSafe host svc id size s (rw h tt))
