-- ===== src/Gate/Count.antt =====
-- Counting the callers that pass a test.
use tab_vm.Gate.{Caller}
use tab_vm.Prelude.{
  Bool, ℕ, List, get_elem?, ◌<◌, ◌≡◌, some, true, set, arith, ◌≤◌, ◌+◌, Bool-cases, zero, suc, refl,
  inl, inr, false, [], ◌∷◌,
}
use mathlib.Core.Option.{some-injective}

abbrev pub as_number : Bool → ℕ
as_number true = 1
as_number false = 0

abbrev pub count : (Caller → Bool) → List Caller → ℕ
count p [] = 0
count p (c ∷ cs) = as_number (p c) + count p cs

-- A write at `i` moves the count by the difference at `i`.
pub count-set :
    (p : Caller → Bool) (cs : List Caller) (i : ℕ) (c c' : Caller)
    → get_elem? cs i ≡ some c
    → count p (set cs i c') + as_number (p c) ≡ count p cs + as_number (p c')
count-set p [] i c c' h = cc
count-set p (x ∷ xs) zero c c' h = rw (some-injective x c h) (omega arith)
count-set p (x ∷ xs) (suc i) c c' h = omega (arith, count-set p xs i c c' h)

-- A test that passes nowhere before `n` callers counts none; one that counts some passes somewhere.
pub count-pos :
    (p : Caller → Bool) (cs : List Caller)
    → 0 < count p cs
    → (i : ℕ) × (c : Caller) × (get_elem? cs i ≡ some c) × (p c ≡ true)
count-pos p [] h = absurd (omega arith)
count-pos p (c ∷ cs) h = elim (Bool-cases (p c)) [
  | inl e ↦ (0, c, refl, e)
  | inr e ↦ let (i, d, at, ok) = count-pos p cs (ground arith) in (suc i, d, at, ok)
]

pub count-le-of :
    (p q : Caller → Bool) (cs : List Caller)
    → ((c : Caller) → p c ≡ true → q c ≡ true)
    → count p cs ≤ count q cs
count-le-of p q [] h = omega arith
count-le-of p q (c ∷ cs) h = elim (Bool-cases (p c)) [
  | inl e ↦ rw (e, h c e) (omega (arith, count-le-of p q cs h))
  | inr e ↦ rw e (omega (arith, count-le-of p q cs h))
]

-- A caller in the list is counted.
pub count-ge :
    (p : Caller → Bool) (cs : List Caller) (i : ℕ) {c : Caller}
    → get_elem? cs i ≡ some c
    → as_number (p c) ≤ count p cs
count-ge p [] i h = cc
count-ge p (x ∷ xs) zero {c} h = rw (some-injective x c h) (omega arith)
count-ge p (x ∷ xs) (suc i) {c} h = omega (arith, count-ge p xs i {c = c} h)
