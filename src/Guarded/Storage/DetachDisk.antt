-- ===== src/Guarded/Storage/DetachDisk.antt =====
-- Detaching a disk, and deleting its file.
use tab_vm.Service.{Host, Service, State, Outcome, VmError, ok, err, return}
use tab_vm.Service.Discover.{version_args}
use tab_vm.Service.Run.{show_vm_info_args, seconds}
use tab_vm.Service.Trace.{
  Safe, IsSafe, IsSafe-issued, Policy, Post, Post-bind, return-Post, Ran, refused, ran,
  run_for_vm-Ran,
}
use tab_vm.Service.Trace.Rules.{
  after_require, after_resolve, after_read, after_command, after_command_timeout, log_and_return,
}
use tab_vm.Parse.Controllers.{Attachment, find_disk_attachment}
use tab_vm.Ops.Storage.{
  show_medium_info_args, detach_disk_args, close_medium_delete_args, refuse_children, delete_image,
  keep_image, detach_at, detach_disk,
}
use tab_vm.Guarded.{Saw, SawOutput, Stopped, Captured-Saw, Saw-later}
use tab_vm.VmId.{is_valid_vm_id}
use tab_vm.Prelude.{
  ◌≡◌, ◌⊎◌, refl, inl, inr, not-true, [], true, false, Bool, Option, some, none, ℕ, if◌then◌else◌,
}
use tab_vm.Strings.{Text}
use tab_vm.Prelude.Int.{ℤ}

-- The settings are of a machine that is not live, with the disk at this place.
abbrev pub AttachedAt : Text → Attachment → Text → Type 0
AttachedAt uuid a info = Stopped info × (find_disk_attachment info uuid ≡ some a)

abbrev pub DetachPolicy : Text → Text → Bool → Policy
DetachPolicy id uuid delete_file e before =
    (e.args ≡ version_args)
    ⊎ ((e.args ≡ show_vm_info_args id)
        ⊎ ((e.args ≡ show_medium_info_args uuid)
            ⊎ (((is_valid_vm_id id ≡ true) × (is_valid_vm_id uuid ≡ true))
                × ((a : Attachment) × Saw (AttachedAt uuid a) id before
                    × ((e.args ≡ detach_disk_args id a)
                        ⊎ ((e.args ≡ close_medium_delete_args uuid)
                            × (delete_file ≡ true)
                            × SawOutput (detach_disk_args id a) (λ out. Unit {0}) before))))))

module _ {W : Type 0} (host : Host W) (svc : Service) (scale : Text → ℕ → Option ℤ) (id uuid : Text)
    (delete_file : Bool) where
  abbrev P : Policy
  P = DetachPolicy id uuid delete_file

  abbrev IsValid : Type 0
  IsValid = (is_valid_vm_id id ≡ true) × (is_valid_vm_id uuid ≡ true)

  -- The look at the disk's children is a read, and keeps what was seen.
  abbrev Kept : Attachment → State W → Type 0
  Kept a t = Safe P t.issued × Saw (AttachedAt uuid a) id t.issued

  Ran-Kept :
      (a : Attachment) {s t : State W} {o : Outcome}
      → Ran (show_medium_info_args uuid) s t o
      → Kept a s
      → Kept a t
  Ran-Kept a (refused same failed) kept = rw same kept
  Ran-Kept a (ran same) (safe, saw) = rw same ((inr (inr (inl refl)), safe), inr saw)

  verdict-Post :
      (a : Attachment) (b : Bool) (e : VmError) (t : State W)
      → Kept a t
      → Post P (λ _ u. Kept a u) ((if b then err e else ok tt), t)
  unfolding Post
  verdict-Post a true e t kept = kept.0
  verdict-Post a false e t kept = kept

  refuse_children-Post :
      (a : Attachment) (path : Text) (s : State W)
      → Kept a s
      → Post P (λ _ t. Kept a t) (refuse_children host svc scale id path uuid s)
  unfolding refuse_children
  refuse_children-Post a path s kept =
      verdict-Post a _ _ _
        (Ran-Kept a (run_for_vm-Ran host id path (show_medium_info_args uuid) (seconds 10) s) kept)

  children_if-Post :
      (a : Attachment) (b : Bool) (path : Text) (s : State W)
      → Kept a s
      → Post P
          (λ _ t. Kept a t)
          ((if b then refuse_children host svc scale id path uuid else return tt) s)
  children_if-Post a true path s kept = refuse_children-Post a path s kept
  children_if-Post a false path s kept = return-Post P tt (λ _ t. Kept a t) s kept

  delete_image-IsSafe :
      (a : Attachment) (path : Text) (s : State W)
      → IsValid
      → delete_file ≡ true
      → Kept a s
      → SawOutput (detach_disk_args id a) (λ out. Unit {0}) s.issued
      → IsSafe P (delete_image host svc scale id path uuid s)
  unfolding delete_image
  delete_image-IsSafe a path s valid deletes (safe, saw) detached =
      after_command_timeout P s safe host svc _ _ _ _ _ _ _ _ _
        (λ o. inr (inr (inr (valid, (a, saw, inr (refl, deletes, detached))))))
        (λ t o newest safe1. log_and_return P t safe1 host svc _ _ _ _ _)

  keep_image-IsSafe : (s : State W) → Safe P s.issued → IsSafe P (keep_image host svc scale id s)
  unfolding keep_image
  keep_image-IsSafe s safe = log_and_return P s safe host svc _ _ _ _ _

  image_if-IsSafe :
      (b : Bool) (a : Attachment) (path : Text) (s : State W)
      → IsValid
      → (b ≡ true → delete_file ≡ true)
      → Kept a s
      → SawOutput (detach_disk_args id a) (λ out. Unit {0}) s.issued
      → IsSafe P
          ((if b then delete_image host svc scale id path uuid else keep_image host svc scale id) s)
  image_if-IsSafe true a path s valid deletes kept detached =
      delete_image-IsSafe a path s valid (deletes refl) kept detached
  image_if-IsSafe false a path s valid deletes kept detached = keep_image-IsSafe s kept.0

  detach_at-IsSafe :
      (r : Option Attachment) (path : Text) (s : State W)
      → IsValid
      → Safe P s.issued
      → ((a : Attachment) → r ≡ some a → Saw (AttachedAt uuid a) id s.issued)
      → IsSafe P (detach_at host svc scale id path uuid delete_file r s)
  unfolding detach_at Post
  detach_at-IsSafe none path s valid safe saw = safe
  detach_at-IsSafe (some a) path s valid safe saw =
      Post-bind P _ _ (λ _ t. Kept a t) _ (children_if-Post a delete_file path s (safe, saw a refl))
        (λ _ t (safe1, saw1).
          after_command P t safe1 host svc _ _ _ _ _ _ _ _
            (λ o. inr (inr (inr (valid, (a, saw1, inl refl)))))
            (λ u o newest safe2.
              image_if-IsSafe delete_file a path u valid (λ e. e)
                (safe2, Saw-later (show_vm_info_args id) (AttachedAt uuid a) t u _ newest.0 saw1)
                (rw newest.0 (inl (refl, newest.1, tt)))))

  detach_disk-IsSafe :
      (s : State W) → Safe P s.issued → IsSafe P (detach_disk host svc scale id uuid delete_file s)
  unfolding detach_disk
  detach_disk-IsSafe s safe = after_require P s safe _ _ _ (λ valid.
      after_require P s safe _ _ _ (λ valid_disk.
        after_resolve P s safe host svc (λ o b. inl refl) _ _ _ _
          (λ path t safe1.
            after_read P t safe1 host svc _ _ _ _ (λ o. inr (inl refl))
              (λ info u read. after_require P u read.3 _ _ _ (λ stopped.
                detach_at-IsSafe (find_disk_attachment info uuid) path u (valid, valid_disk) read.3
                  (λ a found.
                    Captured-Saw host P t u (AttachedAt uuid a) read (not-true stopped, found)))))))

-- Whatever the host answers, `DetachDisk` detaches only the attachment that a read of the machine's
-- settings, in the same call, showed the disk to have, the read having succeeded and reported a state
-- that is not live, for well-formed identifiers; and it deletes the disk's file only if that was
-- asked for, behind a detach that succeeded. Besides, it runs only `--version` and reads.
pub detach_disk_guarded :
    {W : Type 0} (host : Host W) (svc : Service) (scale : Text → ℕ → Option ℤ) (id uuid : Text)
    (delete_file : Bool) (s : State W)
    → s.issued ≡ []
    → Safe
        (DetachPolicy id uuid delete_file)
        (detach_disk host svc scale id uuid delete_file s).1.issued
detach_disk_guarded host svc scale id uuid delete_file s h =
    IsSafe-issued (P host svc scale id uuid delete_file)
      (detach_disk host svc scale id uuid delete_file s)
      (detach_disk-IsSafe host svc scale id uuid delete_file s (rw h tt))
