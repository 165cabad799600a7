-- ===== src/Parse/SataPort/Choice.antt =====
-- What `pickSataTarget` chooses.
use tab_vm.Parse.Controllers.{Controller}
use tab_vm.Parse.SataPort.{
  Target, Pick, picked, pick_failed, is_used, free_port, is_sata, ports, offer, pick_from,
  pick_sata_target, controller_full, no_sata_controller, offer_at,
}
use tab_vm.Prelude.{
  ◌≡◌, refl, sym, ◌∙◌, ◌⊎◌, inl, inr, Bool, true, false, Bool-cases, ℕ, zero, suc, ◌+◌, ◌<◌, ◌≤◌,
  Option, some, none, List, [], ◌∷◌, arith, ◌||◌, All, ◌++◌, ℕ_discrete, ap,
}
use mathlib.Core.Option.{some-injective}
use tab_vm.Prelude.Int.{ℤ, ltb_ℤ, succ_ℤ, pos}
use mathlib.Core.Path.{subst}
use tab_vm.Strings.{split}

-- The ports from `p` up to `q` are used.
abbrev pub UsedUpTo : ℕ → ℕ → List ℤ → Type 0
UsedUpTo p q used = (k : ℕ) → p ≤ k → k < q → is_used k used ≡ true

-- A port more in front is used too.
UsedUpTo-suc :
    (p q : ℕ) (used : List ℤ) → is_used p used ≡ true → UsedUpTo (suc p) q used → UsedUpTo p q used
UsedUpTo-suc p q used taken above k low high = elim (ℕ_discrete p k) [
  | yes same ↦ subst (λ x. is_used x used ≡ true) same taken
  | no other ↦ above k (ground arith) high
]

-- A port that is found is in the range and free, and the first such.
free_port-some :
    (n p q : ℕ) (used : List ℤ)
    → free_port n p used ≡ some q
    → (p ≤ q) × (q < p + n) × (is_used q used ≡ false) × UsedUpTo p q used
unfolding free_port
free_port-some zero p q used e = ground arith
free_port-some (suc n) p q used e = elim (Bool-cases (is_used p used)) [
  | inl taken ↦
      let (low, high, free, above) = free_port-some n (suc p) q used (sym (rw taken refl) ∙ e) in
      (omega (arith, low), omega (arith, high), free, UsedUpTo-suc p q used taken above)
  | inr free ↦
      let same : p ≡ q = some-injective p q (sym (rw free refl) ∙ e) in
      (
        ground arith,
        ground arith,
        subst (λ x. is_used x used ≡ false) same free,
        λ k low high. ground arith,
      )
]

-- If none is found, all are used.
free_port-none :
    (n p q : ℕ) (used : List ℤ)
    → free_port n p used ≡ none
    → p ≤ q
    → q < p + n
    → is_used q used ≡ true
unfolding free_port
free_port-none zero p q used e low high = ground arith
free_port-none (suc n) p q used e low high =
    let h = free_port-none n (suc p) q used in
    elim (Bool-cases (is_used p used)) [
      | inl taken ↦ elim (ℕ_discrete p q) [
        | yes same ↦ subst (λ x. is_used x used ≡ true) same taken
        | no other ↦ ground arith
      ]
      | inr free ↦ ground arith
    ]

-- The place is on this controller: its first free port, or a new port if it can grow and all the
-- ports that it has are used.
abbrev pub IsPlaceOn : Controller → Target → Type 0
IsPlaceOn c t =
    (t.ctl ≡ c.name)
    × (((p : ℕ) × (t.port ≡ pos p)
          × (p < ports c.port_count)
          × (is_used p c.used ≡ false)
          × ((q : ℕ) → q < p → is_used q c.used ≡ true)
          × (t.bump_to ≡ pos 0))
        ⊎ ((t.port ≡ c.port_count)
            × (t.bump_to ≡ succ_ℤ c.port_count)
            × (ltb_ℤ c.port_count c.max_port_count ≡ true)
            × ((p : ℕ) → p < ports c.port_count → is_used p c.used ≡ true)))

-- No port is free, and the controller cannot grow.
abbrev pub IsFull : Controller → Type 0
IsFull c =
    (ltb_ℤ c.port_count c.max_port_count ≡ false)
    × ((p : ℕ) → p < ports c.port_count → is_used p c.used ≡ true)

all_used :
    (c : Controller)
    → free_port (ports c.port_count) 0 c.used ≡ none
    → (p : ℕ) → p < ports c.port_count
    → is_used p c.used ≡ true
all_used c e p high =
    free_port-none (ports c.port_count) 0 p c.used e (omega arith) (omega (arith, high))

offer_at-cases :
    (c : Controller) (r : Option ℕ)
    → free_port (ports c.port_count) 0 c.used ≡ r
    → ((t : Target) × (offer_at c r ≡ some t) × IsPlaceOn c t) ⊎ ((offer_at c r ≡ none) × IsFull c)
unfolding offer_at
offer_at-cases c (some p) found =
    let (low, high, free, above) = free_port-some (ports c.port_count) 0 p c.used found in
    inl (
      _,
      refl,
      (
        refl,
        inl (p, refl, omega (arith, high), free, λ q below. above q (omega arith) below, refl),
      ),
    )
offer_at-cases c none missing = elim (Bool-cases (ltb_ℤ c.port_count c.max_port_count)) [
  | inl grows ↦ rw grows (inl (_, refl, (refl, inr (refl, refl, refl, all_used c missing))))
  | inr full ↦ rw full (inr (refl, (refl, all_used c missing)))
]

offer-cases :
    (c : Controller)
    → ((t : Target) × (offer c ≡ some t) × IsPlaceOn c t) ⊎ ((offer c ≡ none) × IsFull c)
unfolding offer
offer-cases c = offer_at-cases c _ refl

abbrev pub has_sata : List Controller → Bool
has_sata [] = false
has_sata (c ∷ cs) = is_sata c || has_sata cs

-- What the choice means, `saw` being whether an AHCI controller came before: a place on the first
-- AHCI controller that is not full, or the reason why there is none.
abbrev pub Chosen : Bool → List Controller → Pick → Type 0
Chosen saw cs (picked t) =
    (full : List Controller) × (c : Controller) × (rest : List Controller) × (cs
      ≡ full ++ (c ∷ rest))
    × All (λ d. (is_sata d ≡ false) ⊎ IsFull d) full
    × (is_sata c ≡ true)
    × IsPlaceOn c t
Chosen saw cs (pick_failed controller_full) =
    All (λ d. (is_sata d ≡ false) ⊎ IsFull d) cs × ((saw || has_sata cs) ≡ true)
Chosen saw cs (pick_failed no_sata_controller) = (saw ≡ false) × All (λ d. is_sata d ≡ false) cs

Chosen-later :
    (saw : Bool) (c : Controller) (cs : List Controller) (pick : Pick)
    → (is_sata c ≡ false) ⊎ IsFull c
    → Chosen (saw || is_sata c) cs pick
    → Chosen saw (c ∷ cs) pick
Chosen-later saw c cs (picked t) h (full, d, rest, split, all, sata, place) =
    (c ∷ full, d, rest, ap (λ x. c ∷ x) split, (h, all), sata, place)
Chosen-later saw c cs (pick_failed controller_full) h (all, some_sata) = ((h, all), ground arith)
Chosen-later saw c cs (pick_failed no_sata_controller) h (none_yet, all) =
    (ground arith, (ground arith, all))

module _ (saw : Bool) (c : Controller) (cs : List Controller) where
  pick_from-other : is_sata c ≡ false → pick_from saw (c ∷ cs) ≡ pick_from (saw || is_sata c) cs
  unfolding pick_from
  pick_from-other other = rw other refl

  pick_from-full :
      is_sata c ≡ true → offer c ≡ none → pick_from saw (c ∷ cs) ≡ pick_from (saw || is_sata c) cs
  unfolding pick_from
  pick_from-full sata missing = ground arith

  pick_from-found :
      (t : Target) → is_sata c ≡ true → offer c ≡ some t → pick_from saw (c ∷ cs) ≡ picked t
  unfolding pick_from
  pick_from-found t sata found = rw sata (rw found refl)

pick_from-Chosen : (saw : Bool) (cs : List Controller) → Chosen saw cs (pick_from saw cs)
unfolding pick_from
pick_from-Chosen true [] = (tt, refl)
pick_from-Chosen false [] = (refl, tt)
pick_from-Chosen saw (c ∷ cs) =
    let later = Chosen-later saw c cs (pick_from (saw || is_sata c) cs) in
    let ih = pick_from-Chosen (saw || is_sata c) cs in
    elim (Bool-cases (is_sata c)) [
      | inr other ↦
          subst (Chosen saw (c ∷ cs)) (sym (pick_from-other saw c cs other)) (later (inl other) ih)
      | inl sata ↦ elim (offer-cases c) [
        | inl (t, found, place) ↦
            subst (Chosen saw (c ∷ cs)) (sym (pick_from-found saw c cs t sata found))
              ([], c, cs, refl, tt, sata, place)
        | inr (missing, full) ↦
            subst (Chosen saw (c ∷ cs)) (sym (pick_from-full saw c cs sata missing))
              (later (inr full) ih)
      ]
    ]

-- `pickSataTarget` returns the first free port of the first AHCI controller that is not full, below
-- its port count, or, if all its ports are used and it can grow, its port count as a new port, with
-- the count to grow to; it says that the controllers are full only if there is an AHCI controller and
-- none of them has a free port or can grow, and that there is none only if no controller is AHCI.
pub pick_sata_target-Chosen : (cs : List Controller) → Chosen false cs (pick_sata_target cs)
unfolding pick_sata_target
pick_sata_target-Chosen cs = pick_from-Chosen false cs
