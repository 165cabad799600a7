-- ===== src/Strings/Search.antt =====
-- Searching: `strings.Contains`, `strings.Index`, `strings.IndexByte`, `strings.Fields`.
use tab_vm.Prelude.{
  ℕ, suc, Bool, true, false, ◌||◌, List, [], ◌∷◌, Option, none, some, ◌==◌, if◌then◌else◌,
}
use tab_vm.Strings.{Text, is_empty, is_space, has_prefix, extend}

unfoldable pub contains : Text → Text → Bool
unfolding has_prefix
contains [] sub = is_empty sub
contains (c ∷ s) sub = has_prefix (c ∷ s) sub || contains s sub

abbrev pub next_index : Option ℕ → Option ℕ
next_index none = none
next_index (some i) = some (suc i)

unfoldable pub index_byte : Text → ℕ → Option ℕ
index_byte [] b = none
index_byte (c ∷ s) b = let rest = index_byte s b in if c == b then some 0 else next_index rest

unfoldable pub index : Text → Text → Option ℕ
unfolding has_prefix
index [] sub = if is_empty sub then some 0 else none
index (c ∷ s) sub =
    let rest = index s sub in if has_prefix (c ∷ s) sub then some 0 else next_index rest

-- Does some byte of the text satisfy the test?
unfoldable pub any_byte : (ℕ → Bool) → Text → Bool
any_byte p [] = false
any_byte p (c ∷ s) = p c || any_byte p s

-- A new field begins where a byte that is no blank follows a blank or the start.
unfoldable pub fields_from : Bool → Text → List Text
unfolding is_space
fields_from inside [] = if inside then [] ∷ [] else []
fields_from inside (c ∷ s) =
    let blank = is_space c in
    let rest = fields_from (if blank then false else true) s in
    if blank then (if inside then [] ∷ rest else rest) else extend c rest

unfoldable pub fields : Text → List Text
unfolding fields_from
fields = fields_from false
