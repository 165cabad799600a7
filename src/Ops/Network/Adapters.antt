-- ===== src/Ops/Network/Adapters.antt =====
-- The adapters and the host's interfaces, as VBoxManage prints them: the parsers of network.go, and
-- `normalizeMAC` of telemetry_parser.go.
use tab_vm.Parse.{machine_pairs, split_machine_readable, slot_suffix, after_label}
use mathlib.Core.List.{foldl}
use tab_vm.Strings.{Text, txt, text_eq, is_empty, to_lower, to_upper, trim_space, lines}
use tab_vm.Prelude.{
  ltb, ◌==◌, if◌then◌else◌, ℕ, zero, suc, Bool, not, ◌||◌, Option, none, some, List, [], ◌∷◌,
}

pub record NetworkAdapter : Type 0 where
  pub slot : ℕ
  pub mode : Text
  pub adapter : Text
  pub mac : Text
  pub cable_connected : Bool

-- The separators are dropped, the rest is in upper case.
unfoldable pub without_separators : Text → Text
without_separators [] = []
without_separators (c ∷ s) =
    let rest = without_separators s in
    if c == b':' || (c == b'-' || (c == b'.' || c == 32)) then rest else c ∷ rest

unfoldable pub normalize_mac : Text → Text
normalize_mac s = to_upper (without_separators (trim_space s))

-- The five maps by slot, and the highest slot. The newest entry of a map stands first.
pub record NicTable : Type 0 where
  pub modes : List (ℕ × Text)
  pub macs : List (ℕ × Text)
  pub bridged : List (ℕ × Text)
  pub hostonly : List (ℕ × Text)
  pub cable : List (ℕ × Text)
  pub max_slot : ℕ

abbrev pub max_of : ℕ → ℕ → ℕ
max_of a b = if ltb a b then b else a

-- `maps[slot]`, which is `""` where there is none.
unfoldable pub at_slot : ℕ → List (ℕ × Text) → Text
at_slot slot [] = []
at_slot slot ((k, v) ∷ kvs) = if k == slot then v else at_slot slot kvs

abbrev pub or_next : Option ℕ → (ℕ → NicTable) → NicTable → NicTable
or_next none f t = t
or_next (some slot) f t = f slot

-- One pair; the prefixes are tried in this order.
unfoldable pub nic_pair : NicTable → Text × Text → NicTable
nic_pair t (key, value) =
    or_next (slot_suffix key (txt "nic"))
      (λ n. record t { modes = (n, to_lower value) ∷ t.modes; max_slot = max_of t.max_slot n })
      (or_next (slot_suffix key (txt "macaddress"))
        (λ n. record t { macs = (n, normalize_mac value) ∷ t.macs; max_slot = max_of t.max_slot n })
        (or_next (slot_suffix key (txt "bridgeadapter"))
          (λ n. record t { bridged = (n, value) ∷ t.bridged; max_slot = max_of t.max_slot n })
          (or_next (slot_suffix key (txt "hostonlyadapter"))
            (λ n. record t { hostonly = (n, value) ∷ t.hostonly; max_slot = max_of t.max_slot n })
            (or_next (slot_suffix key (txt "cableconnected"))
              (λ n. record t {
                cable = (n, to_lower value) ∷ t.cable;
                max_slot = max_of t.max_slot n;
              })
              t))))

abbrev pub bound_interface : NicTable → ℕ → Text → Text
bound_interface t slot mode =
    if text_eq mode (txt "bridged")
    then at_slot slot t.bridged
    else if text_eq mode (txt "hostonly")
    then at_slot slot t.hostonly
    else []

-- The slots from `slot` on, `n` of them. A slot without a mode, or with the mode `none`, is passed over.
unfoldable pub adapters_from : NicTable → ℕ → ℕ → List NetworkAdapter
adapters_from t zero slot = []
adapters_from t (suc n) slot =
    let rest = adapters_from t n (suc slot) in
    let mode = at_slot slot t.modes in
    if is_empty mode || text_eq mode (txt "none")
    then rest
    else record {
      slot = slot;
      mode = mode;
      adapter = bound_interface t slot mode;
      mac = at_slot slot t.macs;
      cable_connected = not (text_eq (at_slot slot t.cable) (txt "off"));
    }
      ∷ rest

unfoldable pub parse_network_adapters : Text → List NetworkAdapter
parse_network_adapters output =
    let t =
      foldl nic_pair
        (record { modes = []; macs = []; bridged = []; hostonly = []; cable = []; max_slot = 0 })
        (machine_pairs split_machine_readable (lines output)) in
    adapters_from t t.max_slot 1

abbrev pub if_named : Option Text → List Text → List Text
if_named none ns = ns
if_named (some name) ns = if is_empty (trim_space name) then ns else trim_space name ∷ ns

unfoldable pub interface_names : List Text → List Text
interface_names [] = []
interface_names (l ∷ ls) = if_named (after_label (trim_space l) (txt "Name:")) (interface_names ls)

unfoldable pub parse_host_interface_names : Text → List Text
parse_host_interface_names output = interface_names (lines output)
