-- ===== src/Parse/SataPort.antt =====
-- `pickSataTarget` of storage.go: where a new disk goes.
pub mod Choice
use tab_vm.Parse.Controllers.{Controller}
use tab_vm.Strings.{Text, txt, to_lower}
use tab_vm.Strings.Search.{contains}
use tab_vm.Prelude.{
  if◌then◌else◌, ℕ, zero, suc, Bool, false, ◌||◌, Option, none, some, List, [], ◌∷◌,
}
use tab_vm.Prelude.Int.{ℤ, ltb_ℤ, eqb_ℤ, pos, negsuc, succ_ℤ}

pub data PickError : Type 0 where
  no_sata_controller controller_full : PickError

-- The controller's name, the port, and the port count that the controller has to grow to (0: none).
pub record Target : Type 0 where
  pub ctl : Text
  pub port : ℤ
  pub bump_to : ℤ

pub data Pick : Type 0 where
  picked : Target → Pick
  pick_failed : PickError → Pick

unfoldable pub is_used : ℕ → List ℤ → Bool
is_used p [] = false
is_used p (u ∷ us) = eqb_ℤ u (pos p) || is_used p us

-- The inner loop: the first free port from `p` on, `n` ports being left.
unfoldable pub free_port : ℕ → ℕ → List ℤ → Option ℕ
free_port zero p used = none
free_port (suc n) p used =
    let rest = free_port n (suc p) used in if is_used p used then rest else some p

-- A controller whose type names AHCI.
unfoldable pub is_sata : Controller → Bool
is_sata c = contains (to_lower c.ctl_type) (txt "ahci")

-- The loop `p < portCount` makes no round for a negative count.
abbrev pub ports : ℤ → ℕ
ports (pos n) = n
ports (negsuc n) = 0

-- What a controller offers, given its first free port: that port, or a new one if it can grow.
unfoldable pub offer_at : Controller → Option ℕ → Option Target
offer_at c (some p) = some (record { ctl = c.name; port = pos p; bump_to = pos 0 })
offer_at c none =
    if ltb_ℤ c.port_count c.max_port_count
    then some (record { ctl = c.name; port = c.port_count; bump_to = succ_ℤ c.port_count })
    else none

unfoldable pub offer : Controller → Option Target
offer c = offer_at c (free_port (ports c.port_count) 0 c.used)

unfoldable pub pick_from : Bool → List Controller → Pick
pick_from saw_sata [] = pick_failed (if saw_sata then controller_full else no_sata_controller)
pick_from saw_sata (c ∷ cs) =
    let rest = pick_from (saw_sata || is_sata c) cs in
    if is_sata c then elim (offer c) [ some t ↦ picked t | none ↦ rest ] else rest

unfoldable pub pick_sata_target : List Controller → Pick
pick_sata_target = pick_from false
