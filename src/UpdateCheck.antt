-- ===== src/UpdateCheck.antt =====
-- The check for a newer release (apps/desktop-agent/internal/updatecheck/updatecheck.go): versions
-- and their order here, the cached checker in the child module.
pub mod Order
pub mod Checker
mod Tests
use tab_vm.Strings.{Text, is_empty, trim_space, trim_prefix, split}
use tab_vm.Strings.Search.{contains}
use tab_vm.Strings.Number.{atoi}
use tab_vm.Prelude.{
  ltb, ◌==◌, if◌then◌else◌, ℕ, Bool, false, not, ◌||◌, Option, none, some, List, [], ◌∷◌,
}
use tab_vm.Prelude.Int.{ℤ, pos}

-- Major, minor, patch.
pub record Version : Type 0 where
  pub major : ℕ
  pub minor : ℕ
  pub patch : ℕ

abbrev pub strip_v : Text → Text
strip_v v = trim_prefix (trim_space v) (b'v' ∷ [])

unfoldable pub normalize_version : Text → Text
unfolding trim_prefix trim_space
normalize_version = strip_v

unfoldable pub is_pre_release : Text → Bool
unfolding trim_prefix trim_space contains
is_pre_release v = contains (strip_v v) (b'-' ∷ [])

-- What stands in front of the first `-` or `+`.
pub core_of : Text → Text
core_of [] = []
core_of (c ∷ s) = let rest = core_of s in if c == b'-' || c == b'+' then [] else c ∷ rest

-- One part: `strconv.Atoi`, and no negative number.
abbrev pub natural : Option ℤ → Option ℕ
natural (some (pos n)) = some n
natural _ = none

abbrev pub version_of : Option ℕ → Option ℕ → Option ℕ → Option Version
version_of (some a) (some b) (some c) = some (record { major = a; minor = b; patch = c })
version_of _ _ _ = none

abbrev pub parse_parts : List Text → Option Version
parse_parts (a ∷ b ∷ c ∷ []) = version_of (natural (atoi a)) (natural (atoi b)) (natural (atoi c))
parse_parts _ = none

unfoldable pub parse_version : Text → Option Version
unfolding trim_prefix trim_space core_of split atoi
parse_version v =
    let core = core_of (strip_v v) in if is_empty core then none else parse_parts (split core b'.')

-- The loop over the three parts: the first that differs decides.
pub newer_version : Version → Version → Bool
newer_version l c =
    if not (l.major == c.major)
    then ltb c.major l.major
    else if not (l.minor == c.minor)
    then ltb c.minor l.minor
    else if not (l.patch == c.patch)
    then ltb c.patch l.patch
    else false

abbrev pub newer_parsed : Option Version → Option Version → Bool
newer_parsed (some l) (some c) = newer_version l c
newer_parsed _ _ = false

unfoldable pub is_newer : Text → Text → Bool
is_newer latest current =
    if is_pre_release latest
    then false
    else newer_parsed (parse_version latest) (parse_version current)
