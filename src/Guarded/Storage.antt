-- ===== src/Guarded/Storage.antt =====
-- Resizing a disk.
pub mod AddDisk
pub mod DetachDisk
use tab_vm.Service.{Host, Service, State, Outcome, M, and_then}
use tab_vm.Service.Run.{seconds, run_for_vm, succeeded}
use tab_vm.Service.Discover.{version_args}
use tab_vm.Service.Trace.{
  Safe, IsSafe, IsSafe-issued, Policy, Captured, Allows, Post, Post-bind, Ran-Safe, run_for_vm-Ran,
  fresh,
}
use tab_vm.Service.Run.{show_vm_info_args}
use tab_vm.Service.Trace.Rules.{
  after_require, after_resolve, after_read, after_command_timeout, log_and_return,
}
use tab_vm.Ops.Storage.{show_medium_info_args, resize_disk_args, read_medium, resize_disk}
use tab_vm.Ops.Storage.Medium.{MediumDetails, parse_medium_details, disk_resizable}
use tab_vm.Guarded.{Saw, SawOutput, Stopped, Captured-SawStopped, Saw-later}
use tab_vm.VmId.{is_valid_vm_id}
use mathlib.Core.Path.{subst}
use tab_vm.Prelude.{◌≡◌, ◌⊎◌, refl, inl, inr, not-true, [], true, Bool-cases, Option, ℕ}
use tab_vm.Strings.{Text}
use tab_vm.Prelude.Int.{ℤ, ltb_ℤ}

-- Such a disk may be resized to `size`.
abbrev pub Growable : ℤ → MediumDetails → Type 0
Growable size det = ((disk_resizable det true).0 ≡ true) × (ltb_ℤ det.capacity_mb size ≡ true)

-- The resize only of a machine that was seen not to be live, and of a disk that was seen to be
-- resizable and smaller.
abbrev pub ResizePolicy : (Text → ℕ → Option ℤ) → Text → Text → ℤ → Policy
ResizePolicy scale id uuid size e before =
    (e.args ≡ version_args)
    ⊎ ((e.args ≡ show_vm_info_args id)
        ⊎ ((e.args ≡ show_medium_info_args uuid)
            ⊎ ((e.args ≡ resize_disk_args uuid size)
                × (is_valid_vm_id id ≡ true)
                × (is_valid_vm_id uuid ≡ true)
                × Saw Stopped id before
                × SawOutput (show_medium_info_args uuid)
                    (λ out. Growable size (parse_medium_details scale out)) before)))

module _ {W : Type 0} (host : Host W) (svc : Service) (scale : Text → ℕ → Option ℤ) (id uuid : Text)
    (size : ℤ) where
  abbrev P : Policy
  P = ResizePolicy scale id uuid size

  -- The details are those of a disk that the newest process showed.
  abbrev MediumRead : State W → MediumDetails → State W → Type 0
  MediumRead s det t =
      (out : Text) × (det ≡ parse_medium_details scale out)
      × Captured host P (show_medium_info_args uuid) s out t

  read_medium-Post :
      (path : Text) (s : State W)
      → Safe P s.issued
      → Post P (MediumRead s) (read_medium host svc scale id path uuid s)
  unfolding Post read_medium
  read_medium-Post path s safe =
      let r = run_for_vm-Ran host id path (show_medium_info_args uuid) (seconds 10) s in
      let allowed = λ (o : Outcome). inr (inr (inl refl)) in
      elim (Bool-cases
        (succeeded (run_for_vm host id path (show_medium_info_args uuid) (seconds 10) s).0)) [
          | inl good ↦ rw good (_, refl, fresh host P r good allowed safe)
          | inr bad ↦ rw bad (Ran-Safe host P r allowed safe)
        ]

  MediumRead-SawOutput :
      (det : MediumDetails) (s t : State W)
      → MediumRead s det t
      → Growable size det
      → SawOutput
          (show_medium_info_args uuid)
          (λ out. Growable size (parse_medium_details scale out))
          t.issued
  MediumRead-SawOutput det s t (out, parsed, (o, newest, same, safe)) grows = rw newest.0 (
      inl (
        refl,
        newest.1,
        subst (λ x. Growable size (parse_medium_details scale x)) same
            (subst (Growable size) parsed grows),
      ))

  resize_disk-IsSafe :
      (s : State W) → Safe P s.issued → IsSafe P (resize_disk host svc scale id uuid size s)
  unfolding resize_disk
  resize_disk-IsSafe s safe = after_require P s safe _ _ _ (λ valid.
      after_require P s safe _ _ _ (λ valid_disk. after_require P s safe _ _ _ (λ _.
        after_resolve P s safe host svc (λ o b. inl refl) _ _ _ _
          (λ path t safe1.
            after_read P t safe1 host svc _ _ _ _ (λ o. inr (inl refl))
              (λ info u read. after_require P u read.3 _ _ _ (λ stopped.
                Post-bind P (read_medium host svc scale id path uuid u) _ (MediumRead u) _
                  (read_medium-Post path u read.3)
                  (λ det v shown.
                    let safe3 = shown.2.3 in
                    after_require P v safe3 _ _ _ (λ resizable.
                      after_require P v safe3 _ _ _ (λ larger.
                        let stopped_then = Captured-SawStopped host P t u read (not-true stopped) in
                        after_command_timeout P v safe3 host svc _ _ _ _ _ _ _ _ _
                          (λ o. inr (
                            inr (
                              inr (
                                refl,
                                valid,
                                valid_disk,
                                Saw-later (show_vm_info_args id) Stopped u v _ shown.2.1.0
                                    stopped_then,
                                MediumRead-SawOutput det u v shown (resizable, larger),
                              ))))
                          (λ x o newest safe4. log_and_return P x safe4 host svc _ _ _ _ _))))))))))

-- Whatever the host answers, `ResizeDisk` runs `modifymedium --resize` only for well-formed
-- identifiers, behind a read of the machine's settings that succeeded and reported a state that is
-- not live, and behind a read of the disk that succeeded and showed it to be resizable and smaller
-- than the new size, both in the same call; besides, it runs only `--version` and those two reads.
pub resize_disk_guarded :
    {W : Type 0} (host : Host W) (svc : Service) (scale : Text → ℕ → Option ℤ) (id uuid : Text)
    (size : ℤ) (s : State W)
    → s.issued ≡ []
    → Safe (ResizePolicy scale id uuid size) (resize_disk host svc scale id uuid size s).1.issued
resize_disk_guarded host svc scale id uuid size s h =
    IsSafe-issued (P host svc scale id uuid size) (resize_disk host svc scale id uuid size s)
      (resize_disk-IsSafe host svc scale id uuid size s (rw h tt))
