-- ===== src/VmId.antt =====
-- Identifiers of virtual machines (apps/desktop-agent/internal/vbox/vbox.go) and the console port
-- derived from one (service.go).
pub mod Shape
pub mod Port
use tab_vm.Prelude.{
  ℕ, zero, suc, Bool, true, false, ◌&&◌, ◌||◌, List, [], ◌∷◌, leb, ◌==◌, if◌then◌else◌,
}
use tab_vm.Strings.{Text, is_empty}

abbrev pub is_hex : ℕ → Bool
is_hex c = (leb b'0' c && leb c b'9') || (leb b'a' c && leb c b'f') || (leb b'A' c && leb c b'F')

-- What `uuidPattern` does behind a run of digits: match the end, or a dash and the other runs.
pub match_groups : ℕ → List ℕ → Text → Bool
match_groups (suc n) gs [] = false
match_groups (suc n) gs (c ∷ s) = is_hex c && match_groups n gs s
match_groups zero [] s = is_empty s
match_groups zero (g ∷ gs) [] = false
match_groups zero (g ∷ gs) (c ∷ s) = c == b'-' && match_groups g gs s

-- `IsValidVmID`, and `IsValidUsbDeviceID`, which tests the same pattern.
unfoldable pub is_valid_vm_id : Text → Bool
unfolding match_groups
is_valid_vm_id id = match_groups 8 (4 ∷ 4 ∷ 4 ∷ 12 ∷ []) id
