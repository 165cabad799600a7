-- ===== src/Server/Jobs/Locks.antt =====
-- The locks that the workers hold.
use tab_vm.Strings.{Text, one_of, text_eq}
use tab_vm.Prelude.{
  All, ◌≡◌, refl, sym, true, false, List, [], ◌∷◌, arith, Bool-cases, ap, ◌∙◌, inl, inr, Option,
  none, some,
}
use tab_vm.Server.{Worker}
use tab_vm.Server.Jobs.{is_locked, unlock, unlock_all}
use tab_vm.Server.Contract.{onto}
use tab_vm.Strings.Laws.{text_eq_refl, text_eq_sound}
use mathlib.Core.Path.{subst}
use mathlib.Core.Bool.{false≢true}

-- The machines whose locks the workers will release.
unfoldable pub held : List Worker → List Text
held [] = []
held (w ∷ ws) = onto w.unlocks (held ws)

-- No lock is held twice.
abbrev pub Distinct : List Text → Type 0
Distinct [] = Unit {0}
Distinct (x ∷ xs) = (is_locked x xs ≡ false) × Distinct xs

-- No two workers have one job.
abbrev pub OwnJobs : List Worker → Type 0
OwnJobs [] = Unit {0}
OwnJobs (w ∷ ws) = All (λ x. w.job ≡ x.job → ⊥) ws × OwnJobs ws

-- A worker of the list, and the others.
pub data Picks : List Worker → Worker → List Worker → Type 0 where
  here : {w : Worker} {ws : List Worker} → Picks (w ∷ ws) w ws
  there : {x w : Worker} {ws rest : List Worker} → Picks ws w rest → Picks (x ∷ ws) w (x ∷ rest)

pub All-Picks :
    (Q : Worker → Type 0) {w : Worker} {ws rest : List Worker}
    → Picks ws w rest
    → All Q ws
    → Q w × All Q rest
All-Picks Q here (q, all) = (q, all)
All-Picks Q (there p) (q, all) = let (qw, others) = All-Picks Q p all in (qw, (q, others))

pub OwnJobs-Picks :
    {w : Worker} {ws rest : List Worker}
    → Picks ws w rest
    → OwnJobs ws
    → All (λ x. w.job ≡ x.job → ⊥) rest × OwnJobs rest
OwnJobs-Picks here (own, others) = (own, others)
OwnJobs-Picks (there {x} {w} p) (own, others) =
    let (apart, rest) = OwnJobs-Picks p others in
    let (not_w, own_rest) = All-Picks (λ y. x.job ≡ y.job → ⊥) p own in
    ((λ same. not_w (sym same), apart), (own_rest, rest))

module _ (x : Text) where
  is_locked-onto :
      (u : Option Text) (ops : List Text) → is_locked x ops ≡ true → is_locked x (onto u ops) ≡ true
  unfolding is_locked one_of
  is_locked-onto none ops h = h
  is_locked-onto (some y) ops h = ground arith

  is_locked-unlock :
      (id : Text) (ops : List Text) → is_locked x ops ≡ false → is_locked x (unlock id ops) ≡ false
  unfolding is_locked one_of unlock
  is_locked-unlock id [] h = refl
  is_locked-unlock id (y ∷ ops) h = ground (arith, is_locked-unlock id ops)

Distinct-unlock : (id : Text) (ops : List Text) → Distinct ops → Distinct (unlock id ops)
unfolding unlock
Distinct-unlock id [] d = tt
Distinct-unlock id (y ∷ ops) (apart, d) = elim (Bool-cases (text_eq y id)) [
  | inl hit ↦ rw hit d
  | inr miss ↦ rw miss (is_locked-unlock y id ops apart, Distinct-unlock id ops d)
]

Distinct-unlock_all :
    (u : Option Text) (ops : List Text) → Distinct ops → Distinct (unlock_all u ops)
Distinct-unlock_all none ops d = d
Distinct-unlock_all (some id) ops d = Distinct-unlock id ops d

unlock_all-onto : (u : Option Text) (ops : List Text) → unlock_all u (onto u ops) ≡ ops
unfolding unlock
unlock_all-onto none ops = refl
unlock_all-onto (some id) ops = rw (text_eq_refl id) refl

-- The lock of another worker is passed over.
unlock_all-onto_other :
    (u v : Option Text) (ops rest : List Text)
    → ((id : Text) → u ≡ some id → is_locked id ops ≡ true)
    → Distinct (onto v ops)
    → unlock_all u ops ≡ rest
    → unlock_all u (onto v ops) ≡ onto v rest
unfolding unlock
unlock_all-onto_other none v ops rest locked d h = ap (onto v) h
unlock_all-onto_other (some id) none ops rest locked d h = h
unlock_all-onto_other (some id) (some y) ops rest locked (apart, d) h =
    elim (Bool-cases (text_eq y id)) [
      | inl hit ↦ absurd (
          false≢true
            (sym apart ∙ (ap (λ z. is_locked z ops) (text_eq_sound y id hit) ∙ locked id refl)))
      | inr miss ↦ rw miss (ap (λ t. y ∷ t) h)
    ]

-- A worker holds the lock that it will release.
holds :
    {w : Worker} {ws rest : List Worker}
    → Picks ws w rest
    → (id : Text) → w.unlocks ≡ some id
    → is_locked id (held ws) ≡ true
unfolding held is_locked one_of
holds (here {w} {ws}) id h = rw h (rw (text_eq_refl id) refl)
holds (there {x} {w} {ws} {rest} p) id h = is_locked-onto id x.unlocks (held ws) (holds p id h)

Distinct-onto : (u : Option Text) (ops : List Text) → Distinct (onto u ops) → Distinct ops
Distinct-onto none ops d = d
Distinct-onto (some y) ops (apart, d) = d

-- When a worker ends, what is still held is what the others hold.
pub unlock_all-held :
    {w : Worker} {ws rest : List Worker}
    → Picks ws w rest
    → Distinct (held ws)
    → unlock_all w.unlocks (held ws) ≡ held rest
unfolding held
unlock_all-held (here {w} {ws}) d = unlock_all-onto w.unlocks (held ws)
unlock_all-held (there {x} {w} {ws} {rest} p) d =
    unlock_all-onto_other w.unlocks x.unlocks (held ws) (held rest) (holds p) d
      (unlock_all-held p (Distinct-onto x.unlocks (held ws) d))

pub Distinct-held :
    {w : Worker} {ws rest : List Worker}
    → Picks ws w rest
    → Distinct (held ws)
    → Distinct (held rest)
Distinct-held {w} {ws} p d =
    subst Distinct (unlock_all-held p d) (Distinct-unlock_all w.unlocks (held ws) d)
