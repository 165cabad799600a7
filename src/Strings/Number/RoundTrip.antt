-- ===== src/Strings/Number/RoundTrip.antt =====
-- Reading back what `strconv.Itoa` writes.
use tab_vm.Strings.Number.{digits_onto, digit, itoa, is_digit, read_digits, max_int, fit_pos, atoi}
use tab_vm.Strings.Search.{any_byte}
use tab_vm.Prelude.{
  ◌≡◌, ◌∙◌, sym, ℕ, zero, suc, ◌+◌, ◌*◌, ◌/◌, ◌%◌, ◌<◌, ◌≤◌, Bool, Bool-cases, inl, inr, ltb, true,
  false, some, arith, [], ◌∷◌, ap,
}
use tab_vm.Strings.{Text}
use tab_vm.Prelude.Int.{pos}

read_digits-digit :
    (acc d : ℕ) (s : Text) → d < 10 → read_digits acc (digit d ∷ s) ≡ read_digits (acc * 10 + d) s
unfolding read_digits
read_digits-digit acc d s h = ground arith

-- Reading the digits of `n` and what follows is reading on from `n`.
read_digits-digits_onto :
    (fuel n : ℕ) (rest : Text)
    → n < fuel
    → read_digits 0 (digits_onto fuel n rest) ≡ read_digits n rest
unfolding digits_onto
read_digits-digits_onto zero n rest h = absurd (omega arith)
read_digits-digits_onto (suc fuel) n rest h = elim (Bool-cases (ltb n 10)) [
  | inl small ↦
      let e : 0 * 10 + n ≡ n = omega arith in
      rw small (read_digits-digit 0 n rest (ground arith) ∙ ap (λ k. read_digits k rest) e)
  | inr large ↦ rw large (
      read_digits-digits_onto fuel (n / 10) (digit (n % 10) ∷ rest) (ground arith)
      ∙ read_digits-digit (n / 10) (n % 10) rest (omega arith)
      ∙ (let e : n / 10 * 10 + n % 10 ≡ n = omega arith in rw e))
]

-- The first byte is a digit.
digits_onto-first :
    (fuel n : ℕ) (rest : Text)
    → n < fuel
    → (c : ℕ) × (s : Text) × (digits_onto fuel n rest ≡ c ∷ s) × (is_digit c ≡ true)
unfolding digits_onto
digits_onto-first zero n rest h = absurd (omega arith)
digits_onto-first (suc fuel) n rest h = elim (Bool-cases (ltb n 10)) [
  | inl small ↦ (digit n, rest, rw small, ground arith)
  | inr large ↦
      let (c, s, e, d) = digits_onto-first fuel (n / 10) (digit (n % 10) ∷ rest) (ground arith) in
      (c, s, rw large e, d)
]

-- A text that begins with a digit has no sign.
atoi-unsigned :
    (c : ℕ) (s : Text) → is_digit c ≡ true → atoi (c ∷ s) ≡ fit_pos (read_digits 0 (c ∷ s))
unfolding atoi
atoi-unsigned c s h = ground arith

fit_pos-small : (n : ℕ) → n ≤ max_int → fit_pos (some n) ≡ some (pos n)
fit_pos-small n h = ground arith

pub atoi-itoa : (n : ℕ) → n ≤ max_int → atoi (itoa (pos n)) ≡ some (pos n)
unfolding itoa read_digits
atoi-itoa n h =
    let (c, s, e, d) = digits_onto-first (suc n) n [] (omega arith) in
    let back : read_digits 0 (c ∷ s) ≡ some n =
      ap (read_digits 0) (sym e) ∙ read_digits-digits_onto (suc n) n [] (omega arith) in
    ap atoi e ∙ (atoi-unsigned c s d ∙ (ap fit_pos back ∙ fit_pos-small n h))

-- A byte that is no digit does not occur.
pub any_byte-digits_onto :
    (p : ℕ → Bool)
    → ((d : ℕ) → d < 10 → p (digit d) ≡ false)
    → (fuel n : ℕ) (rest : Text) → any_byte p rest ≡ false
    → any_byte p (digits_onto fuel n rest) ≡ false
unfolding digits_onto any_byte
any_byte-digits_onto p h zero n rest none_there = none_there
any_byte-digits_onto p h (suc fuel) n rest none_there = elim (Bool-cases (ltb n 10)) [
  | inl small ↦ rw (small, h n (ground arith)) none_there
  | inr large ↦ rw large (
      any_byte-digits_onto p h fuel (n / 10) (digit (n % 10) ∷ rest)
        (rw (h (n % 10) (omega arith)) none_there))
]
