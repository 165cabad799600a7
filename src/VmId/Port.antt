-- ===== src/VmId/Port.antt =====
-- `VmIDToConsolePort` and `IsValidConsolePort`: FNV-1a over the bytes, folded into 5000-5999.
use tab_vm.Prelude.{ℕ, ◌+◌, ◌-◌, ◌*◌, ◌%◌, ◌^◌, ◌≡◌, Bool, true, ◌&&◌, [], ◌∷◌, arith, leb}
use Prim.Native.Nat.{bit_xor}
use tab_vm.Strings.{Text}

abbrev pub min_console_port : ℕ
min_console_port = 5000

abbrev pub max_console_port : ℕ
max_console_port = 5999

-- `fnv.New32a`: xor the byte in, multiply by the prime, modulo 2 ^ 32.
pub fnv_32a : ℕ → Text → ℕ
fnv_32a h [] = h
fnv_32a h (c ∷ s) = fnv_32a (bit_xor h c * 16777619 % 2 ^ 32) s

unfoldable pub vm_id_to_console_port : Text → ℕ
unfolding fnv_32a
vm_id_to_console_port id =
    min_console_port + fnv_32a 2166136261 id % (max_console_port - min_console_port + 1)

abbrev pub is_valid_console_port : ℕ → Bool
is_valid_console_port port = leb min_console_port port && leb port max_console_port

-- The derived port is in the range that the agent accepts, for every text.
pub vm_id_to_console_port-valid :
    (id : Text) → is_valid_console_port (vm_id_to_console_port id) ≡ true
unfolding vm_id_to_console_port
vm_id_to_console_port-valid id = ground arith
