-- ===== src/Guarded/Usb.antt =====
-- Attaching and detaching a USB device.
use tab_vm.Service.{Host, Service, State}
use tab_vm.Service.Trace.{Safe, IsSafe, IsSafe-issued, Policy}
use tab_vm.Service.Trace.Rules.{
  after_require, after_resolve, after_read, after_logged_require, log_and_return,
}
use tab_vm.Service.Trace.Reads.{after_mapped}
use tab_vm.Ops.Usb.{usb_args, usb_action}
use tab_vm.Guarded.{GuardedPolicy, Live, NoReads, Captured-Saw}
use tab_vm.VmId.{is_valid_vm_id}
use tab_vm.Prelude.{◌≡◌, refl, inl, inr, [], true, Bool, List}
use tab_vm.Strings.{Text}

-- The change, with a device that is named by a well-formed identifier.
abbrev pub UsbChange : Text → Text → Bool → List Text → Type 0
UsbChange id device attach args =
    (args ≡ usb_args attach id device) × (is_valid_vm_id device ≡ true)

module _ {W : Type 0} (host : Host W) (svc : Service) (id device : Text) (attach : Bool) where
  abbrev P : Policy
  P = GuardedPolicy NoReads (UsbChange id device attach) Live id

  usb_action-IsSafe :
      (s : State W) → Safe P s.issued → IsSafe P (usb_action host svc id device attach s)
  unfolding usb_action
  usb_action-IsSafe s safe = after_require P s safe _ _ _ (λ valid.
      after_require P s safe _ _ _ (λ valid_device.
        after_resolve P s safe host svc (λ o b. inl refl) _ _ _ _
          (λ path t safe1.
            after_read P t safe1 host svc _ _ _ _ (λ o. inr (inl refl))
              (λ info u read. after_logged_require P u read.3 svc _ _ _ _ _ _ (λ live.
                after_mapped P u read.3 host svc _ _ _ _ _ _ _ _ _
                  (λ o. inr (
                    inr
                      (inr ((refl, valid_device), valid, Captured-Saw host P t u Live read live))))
                  (λ v o newest safe2. log_and_return P v safe2 host svc _ _ _ _ _))))))

-- Whatever the host answers, `AttachUsb` and `DetachUsb` run their command only for a well-formed
-- machine and a well-formed device identifier and only behind a read of that machine's settings, in
-- the same call, which succeeded and reported a live state; besides, only `--version` and that read.
pub usb_action_guarded :
    {W : Type 0} (host : Host W) (svc : Service) (id device : Text) (attach : Bool) (s : State W)
    → s.issued ≡ []
    → Safe
        (GuardedPolicy NoReads (UsbChange id device attach) Live id)
        (usb_action host svc id device attach s).1.issued
usb_action_guarded host svc id device attach s h =
    IsSafe-issued (P host svc id device attach) (usb_action host svc id device attach s)
      (usb_action-IsSafe host svc id device attach s (rw h tt))
