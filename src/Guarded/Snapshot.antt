-- ===== src/Guarded/Snapshot.antt =====
-- Taking and deleting a snapshot: what reaches VBoxManage.
use tab_vm.Service.{Host, Service, State, M, and_then, require, VmError}
use tab_vm.Service.Discover.{version_args}
use tab_vm.Service.Trace.{Safe, IsSafe, IsSafe-issued, Policy, Post}
use tab_vm.Service.Trace.Rules.{after_require, after_resolve, after_plain, log_and_return}
use tab_vm.Ops.Snapshot.{
  snapshot_take_args, snapshot_delete_args, starts_with_dash, has_control, validate_snapshot_name,
  validate_snapshot_description, take_snapshot, delete_snapshot, is_control,
}
use tab_vm.VmId.{is_valid_vm_id}
use tab_vm.Prelude.{
  ◌≡◌, ◌⊎◌, ◌≤◌, refl, inl, inr, not-true, [], true, false, arith, length, Bool, ltb, Bool-cases,
  get_elem?, All, ℕ, ◌<◌, sym, ◌∙◌, ◌≢◌, not, ◌||◌, some, ◌∷◌,
}
use tab_vm.Strings.{Text, is_empty, trim_space}
use mathlib.Core.Bool.{false≢true}
use mathlib.Core.Option.{some-injective}

-- A byte that is no control character, line feeds and tabs being allowed or not.
abbrev pub Printable : Bool → ℕ → Type 0
Printable true c = ((32 ≤ c) ⊎ ((c ≡ 10) ⊎ (c ≡ 9))) × (c ≢ 127)
Printable false c = (32 ≤ c) × (c ≢ 127)

-- A name of 1 to 100 bytes without control characters, which cannot be taken for an option.
abbrev pub SafeName : Text → Type 0
SafeName name =
    (0 < length name)
    × (length name ≤ 100)
    × (get_elem? name 0 ≢ some b'-')
    × All (Printable false) name

abbrev pub TakePolicy : Text → Text → Text → Policy
TakePolicy id name description e before =
    (e.args ≡ version_args)
    ⊎ ((e.args ≡ snapshot_take_args id name description)
        × (is_valid_vm_id id ≡ true)
        × SafeName (trim_space name)
        × (length description ≤ 512)
        × All (Printable true) description)

abbrev pub DeletePolicy : Text → Text → Policy
DeletePolicy id snapshot e before =
    (e.args ≡ version_args)
    ⊎ ((e.args ≡ snapshot_delete_args id snapshot)
        × (is_valid_vm_id id ≡ true)
        × (is_valid_vm_id snapshot ≡ true))

is_control-Printable : (text : Bool) (c : ℕ) → is_control text c ≡ false → Printable text c
unfolding is_control
is_control-Printable true c h = ground arith
is_control-Printable false c h = ground arith

has_control-Printable :
    (text : Bool) (s : Text) → has_control text s ≡ false → All (Printable text) s
unfolding has_control
has_control-Printable text [] h = tt
has_control-Printable text (c ∷ s) h = elim (Bool-cases (is_control text c)) [
  | inl bad ↦ absurd (false≢true (sym h ∙ rw bad refl))
  | inr good ↦
      (is_control-Printable text c good, has_control-Printable text s (sym (rw good refl) ∙ h))
]

SafeName-checked :
    (name : Text)
    → not (is_empty name || ltb 100 (length name) || starts_with_dash name) ≡ true
    → has_control false name ≡ false
    → SafeName name
unfolding starts_with_dash
SafeName-checked [] h printable = cc
SafeName-checked (c ∷ s) h printable = (
  omega arith,
  ground arith,
  (λ e. let dash : c ≡ b'-' = some-injective c b'-' e in ground arith),
  has_control-Printable false (c ∷ s) printable,
)

module _ {W : Type 0} (P : Policy) {B : Type 0} (s : State W) (safe : Safe P s.issued) where
  -- Two guards in a row.
  after_two :
      (a b : Bool) (e e' : VmError) (f : Unit {0} → M W B)
      → (a ≡ true → b ≡ true → IsSafe P (f tt s))
      → IsSafe P (and_then (and_then (require a e s) (λ _. require b e')) f)
  unfolding and_then require Post
  after_two true true e e' f k = k refl refl
  after_two true false e e' f k = safe
  after_two false b e e' f k = safe

  after_name :
      (name : Text) (f : Unit {0} → M W B)
      → (SafeName (trim_space name) → IsSafe P (f tt s))
      → IsSafe P (and_then (validate_snapshot_name name s) f)
  unfolding validate_snapshot_name
  after_name name f k =
      after_two _ _ _ _ f
        (λ h printable. k (SafeName-checked (trim_space name) h (not-true printable)))

  after_description :
      (description : Text) (f : Unit {0} → M W B)
      → (length description ≤ 512 → All (Printable true) description → IsSafe P (f tt s))
      → IsSafe P (and_then (validate_snapshot_description description s) f)
  unfolding validate_snapshot_description
  after_description description f k = after_two _ _ _ _ f (λ h printable.
      k (ground arith) (has_control-Printable true description (not-true printable)))

module _ {W : Type 0} (host : Host W) (svc : Service) (quote : Text → Text) where
  take_snapshot-IsSafe :
      (id name description : Text) (s : State W)
      → Safe (TakePolicy id name description) s.issued
      → IsSafe (TakePolicy id name description) (take_snapshot host svc quote id name description s)
  unfolding take_snapshot
  take_snapshot-IsSafe id name description s safe =
      let P = TakePolicy id name description in
      after_require P s safe _ _ _ (λ valid. after_name P s safe _ _ (λ safe_name.
        after_description P s safe _ _ (λ short printable.
          after_resolve P s safe host svc (λ o b. inl refl) _ _ _ _
            (λ path t safe1.
              after_plain P t safe1 host svc _ _ _ _ _ _ _ _ _
                (λ o. inr (refl, valid, safe_name, short, printable))
                (λ u o newest safe2. log_and_return P u safe2 host svc _ _ _ _ _)))))

  delete_snapshot-IsSafe :
      (id snapshot : Text) (s : State W)
      → Safe (DeletePolicy id snapshot) s.issued
      → IsSafe (DeletePolicy id snapshot) (delete_snapshot host svc quote id snapshot s)
  unfolding delete_snapshot
  delete_snapshot-IsSafe id snapshot s safe =
      let P = DeletePolicy id snapshot in
      after_require P s safe _ _ _ (λ valid. after_require P s safe _ _ _ (λ valid_snapshot.
        after_resolve P s safe host svc (λ o b. inl refl) _ _ _ _
          (λ path t safe1.
            after_plain P t safe1 host svc _ _ _ _ _ _ _ _ _
              (λ o. inr (refl, valid, valid_snapshot))
              (λ u o newest safe2. log_and_return P u safe2 host svc _ _ _ _ _))))

-- Whatever the host answers, `TakeSnapshot` runs, besides `--version`, only `snapshot take`, and that
-- only for a well-formed identifier, a name that is, trimmed, of 1 to 100 bytes, with no dash in front
-- and no control character, and a description of at most 512 bytes with no control character but line
-- feeds and tabs.
pub take_snapshot_guarded :
    {W : Type 0} (host : Host W) (svc : Service) (quote : Text → Text) (id name description : Text)
    (s : State W)
    → s.issued ≡ []
    → Safe
        (TakePolicy id name description)
        (take_snapshot host svc quote id name description s).1.issued
take_snapshot_guarded host svc quote id name description s h =
    IsSafe-issued _ (take_snapshot host svc quote id name description s)
      (take_snapshot-IsSafe host svc quote id name description s (rw h tt))

-- Whatever the host answers, `DeleteSnapshot` runs, besides `--version`, only `snapshot delete`, and
-- that only for well-formed identifiers of the machine and of the snapshot.
pub delete_snapshot_guarded :
    {W : Type 0} (host : Host W) (svc : Service) (quote : Text → Text) (id snapshot : Text)
    (s : State W)
    → s.issued ≡ []
    → Safe (DeletePolicy id snapshot) (delete_snapshot host svc quote id snapshot s).1.issued
delete_snapshot_guarded host svc quote id snapshot s h =
    IsSafe-issued _ (delete_snapshot host svc quote id snapshot s)
      (delete_snapshot-IsSafe host svc quote id snapshot s (rw h tt))
