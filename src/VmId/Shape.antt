-- ===== src/VmId/Shape.antt =====
-- What a valid identifier looks like, position by position.
use tab_vm.Prelude.{
  ℕ, zero, suc, ◌≡◌, refl, Bool, true, false, ◌&&◌, ◌||◌, List, [], ◌∷◌, some, arith, ◌==◌,
  get_elem?, ◌+◌, length, and_true, ◌↔◌, ap, sym, ◌∙◌,
}
use mathlib.Core.Bool.{false≢true}
use mathlib.Core.Option.{some-injective}
use tab_vm.Strings.{Text}
use tab_vm.VmId.{is_hex, match_groups, is_valid_vm_id}
use mathlib.Core.Path.{subst}

-- The positions of the four dashes.
abbrev pub dash_at : ℕ → Bool
dash_at i = i == 8 || i == 13 || i == 18 || i == 23

abbrev pub fits_byte : Bool → ℕ → Bool
fits_byte true c = c == b'-'
fits_byte false c = is_hex c

-- A text against a list of marks, one for each position: dash or digit.
fits : List Bool → Text → Bool
fits [] [] = true
fits (m ∷ ms) (c ∷ s) = fits_byte m c && fits ms s
fits _ _ = false

abbrev marks : ℕ → List ℕ → List Bool
marks (suc n) gs = false ∷ marks n gs
marks zero [] = []
marks zero (g ∷ gs) = true ∷ marks g gs

match_groups-fits : (n : ℕ) (gs : List ℕ) (s : Text) → match_groups n gs s ≡ fits (marks n gs) s
unfolding match_groups fits
match_groups-fits (suc n) gs [] = refl
match_groups-fits (suc n) gs (c ∷ s) = ground (arith, match_groups-fits n gs s)
match_groups-fits zero [] [] = refl
match_groups-fits zero [] (c ∷ s) = refl
match_groups-fits zero (g ∷ gs) [] = refl
match_groups-fits zero (g ∷ gs) (c ∷ s) = ground (arith, match_groups-fits g gs s)

-- Every byte of the text agrees with the mark at its position.
abbrev pub Agrees : (ℕ → Bool) → Text → Type 0
Agrees dash s = (i c : ℕ) → get_elem? s i ≡ some c → fits_byte (dash i) c ≡ true

-- The marks of `n` positions from position `i` on.
tabulate : (ℕ → Bool) → ℕ → ℕ → List Bool
tabulate dash i zero = []
tabulate dash i (suc n) = dash i ∷ tabulate dash (suc i) n

abbrev AgreesFrom : (ℕ → Bool) → ℕ → Text → Type 0
AgreesFrom dash i s = (k c : ℕ) → get_elem? s k ≡ some c → fits_byte (dash (i + k)) c ≡ true

AgreesFrom-tail :
    (dash : ℕ → Bool) (i c : ℕ) (s : Text) → AgreesFrom dash i (c ∷ s) → AgreesFrom dash (suc i) s
AgreesFrom-tail dash i c s h k b e =
    rw (let eq : suc i + k ≡ i + suc k = omega arith in eq) (h (suc k) b e)

AgreesFrom-cons :
    (dash : ℕ → Bool) (i c : ℕ) (s : Text)
    → fits_byte (dash i) c ≡ true
    → AgreesFrom dash (suc i) s
    → AgreesFrom dash i (c ∷ s)
AgreesFrom-cons dash i c s head tail zero b e =
    rw (let eq : i + 0 ≡ i = omega arith in eq)
      (subst (λ x. fits_byte (dash i) x ≡ true) (some-injective c b e) head)
AgreesFrom-cons dash i c s head tail (suc k) b e =
    rw (let eq : i + suc k ≡ suc i + k = omega arith in eq) (tail k b e)

fits-tabulate :
    (dash : ℕ → Bool) (n i : ℕ) (s : Text)
    → fits (tabulate dash i n) s ≡ true
    → (length s ≡ n) × AgreesFrom dash i s
unfolding fits tabulate
fits-tabulate dash zero i [] h = (refl, λ k c e. cc)
fits-tabulate dash zero i (c ∷ s) h = absurd (false≢true h)
fits-tabulate dash (suc n) i [] h = absurd (false≢true h)
fits-tabulate dash (suc n) i (c ∷ s) h =
    let (head, tail) = and_true _ _ h in
    let (len, rest) = fits-tabulate dash n (suc i) s tail in
    (ap suc len, AgreesFrom-cons dash i c s head rest)

tabulate-fits :
    (dash : ℕ → Bool) (n i : ℕ) (s : Text)
    → length s ≡ n
    → AgreesFrom dash i s
    → fits (tabulate dash i n) s ≡ true
unfolding fits tabulate
tabulate-fits dash zero i [] len h = refl
tabulate-fits dash zero i (c ∷ s) len h = absurd (omega arith)
tabulate-fits dash (suc n) i [] len h = absurd (omega arith)
tabulate-fits dash (suc n) i (c ∷ s) len h =
    let head : fits_byte (dash i) c ≡ true =
      rw (let eq : i ≡ i + 0 = omega arith in eq) (h zero c refl) in
    let tail = tabulate-fits dash n (suc i) s (omega arith) (AgreesFrom-tail dash i c s h) in
    rw (head, tail)

-- An identifier is accepted exactly if it has 36 bytes, with a dash at the positions 8, 13, 18 and
-- 23 and a hexadecimal digit at each other position.
pub is_valid_vm_id_iff :
    (id : Text) → (is_valid_vm_id id ≡ true) ↔ ((length id ≡ 36) × Agrees dash_at id)
unfolding is_valid_vm_id tabulate
is_valid_vm_id_iff id =
    let same = match_groups-fits 8 (4 ∷ 4 ∷ 4 ∷ 12 ∷ []) id in
    let zero_add = λ (k : ℕ). (let eq : 0 + k ≡ k = omega arith in eq) in
    (
      λ h.
          let (len, from) = fits-tabulate dash_at 36 0 id (sym same ∙ h) in
          (len, λ i c e. rw (zero_add i) at (from i c e)),
      λ r. same ∙ tabulate-fits dash_at 36 0 id r.0 (λ i c e. rw (zero_add i) (r.1 i c e)),
    )
