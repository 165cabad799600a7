-- ===== src/Ops/PortForwarding/Rules.antt =====
-- Rules of port forwarding: how VBoxManage prints them and takes them (portforwarding.go).
use tab_vm.Parse.{positive}
use tab_vm.Ops.Snapshot.{starts_with_dash, has_control}
use mathlib.Core.Option
use mathlib.Core.List.{foldl}
use tab_vm.Strings.{
  Text, txt, text_eq, is_empty, to_lower, equal_fold, trim_space, has_prefix, drop, split, lines,
  cut,
}
use tab_vm.Strings.Search.{contains, fields}
use tab_vm.Strings.Number.{itoa, is_digit, atoi}
use tab_vm.Prelude.{
  ltb, ◌==◌, if◌then◌else◌, length, ℕ, Bool, true, false, not, ◌&&◌, ◌||◌, Option, none, some, List,
  [], ◌∷◌, ◌++◌,
}
use tab_vm.Prelude.Int.{ℤ, eqb_ℤ, pos}

pub record Rule : Type 0 where
  pub name : Text
  pub protocol : Text
  pub host_ip : Text
  pub host_port : ℤ
  pub guest_ip : Text
  pub guest_port : ℤ

abbrev pub no_rule : Rule
no_rule = record {
  name = [];
  protocol = [];
  host_ip = [];
  host_port = pos 0;
  guest_ip = [];
  guest_port = pos 0;
}

-- `nicRuleLineRe`, piece by piece. Its `\\s` has no vertical tab.
abbrev pub is_blank : ℕ → Bool
is_blank c = c == 32 || (c == 9 || (c == 10 || (c == 12 || c == 13)))

unfoldable pub skip_blanks : Text → Text
skip_blanks [] = []
skip_blanks (c ∷ s) = let rest = skip_blanks s in if is_blank c then rest else c ∷ s

unfoldable pub some_blanks : Text → Option Text
some_blanks [] = none
some_blanks (c ∷ s) = if is_blank c then some (skip_blanks s) else none

unfoldable pub after_word : Text → Text → Option Text
after_word word s = if has_prefix s word then some (drop (length word) s) else none

abbrev pub on_first : ℕ → Text × Text → Text × Text
on_first c (a, b) = (c ∷ a, b)

-- The digits in front, and the rest.
unfoldable pub leading_digits : Text → Text × Text
leading_digits [] = ([], [])
leading_digits (c ∷ s) =
    let rest = leading_digits s in if is_digit c then on_first c rest else ([], c ∷ s)

unfoldable pub some_digits : Text → Option (Text × Text)
some_digits s = if is_empty (leading_digits s).0 then none else some (leading_digits s)

-- The slot's digits and the list of fields of one line.
unfoldable pub rule_line : Text → Option (Text × Text)
rule_line line = Option.bind (after_word (txt "NIC") line) (λ a. Option.bind (some_blanks a) (λ b.
    Option.bind (some_digits b) (λ slot. Option.bind (some_blanks slot.1) (λ c.
      Option.bind (after_word (txt "Rule(") c) (λ d. Option.bind (some_digits d) (λ index.
        Option.map (λ rest. (slot.0, skip_blanks rest)) (after_word (txt "):") index.1)))))))

unfoldable pub set_field : Rule → Text → Text → Rule
set_field r key value =
    if text_eq key (txt "name")
    then record r { name = value }
    else if text_eq key (txt "protocol")
    then record r { protocol = to_lower value }
    else if text_eq key (txt "host ip")
    then record r { host_ip = value }
    else if text_eq key (txt "host port")
    then record r { host_port = Option.get_or (atoi value) r.host_port }
    else if text_eq key (txt "guest ip")
    then record r { guest_ip = value }
    else if text_eq key (txt "guest port")
    then record r { guest_port = Option.get_or (atoi value) r.guest_port }
    else r

unfoldable pub rule_field : Rule → Text → Rule
rule_field r part = elim (cut part b'=') [
  | none ↦ r
  | some (key, value) ↦ set_field r (to_lower (trim_space key)) (trim_space value)
]

unfoldable pub parse_forwarding_fields : Text → Rule
parse_forwarding_fields fields = foldl rule_field no_rule (split fields b',')

-- The map from slots to rules, as its entries in the order of the lines.
abbrev pub SlotRules : Type 0
SlotRules = List (ℕ × Rule)

abbrev pub slot_rule : Option (Text × Text) → SlotRules → SlotRules
slot_rule none rs = rs
slot_rule (some (slot, fields)) rs = elim (positive (atoi slot)) [
  | none ↦ rs
  | some n ↦ (n, parse_forwarding_fields fields) ∷ rs
]

unfoldable pub rules_of_lines : List Text → SlotRules
rules_of_lines [] = []
rules_of_lines (l ∷ ls) = slot_rule (rule_line (trim_space l)) (rules_of_lines ls)

unfoldable pub parse_forwarding_rules : Text → SlotRules
parse_forwarding_rules output = rules_of_lines (lines output)

-- `rules[slot]`.
unfoldable pub rules_at : ℤ → SlotRules → List Rule
rules_at slot [] = []
rules_at slot ((n, r) ∷ rs) = if eqb_ℤ (pos n) slot then r ∷ rules_at slot rs else rules_at slot rs

unfoldable pub has_rule_named : Text → List Rule → Bool
has_rule_named name [] = false
has_rule_named name (r ∷ rs) = equal_fold r.name name || has_rule_named name rs

unfoldable pub forwards : ℤ → Text → Rule → Bool
forwards port proto r = eqb_ℤ r.host_port port && equal_fold (trim_space r.protocol) proto

unfoldable pub has_host_port : ℤ → Text → SlotRules → Bool
has_host_port port proto [] = false
has_host_port port proto ((n, r) ∷ rs) = forwards port proto r || has_host_port port proto rs

unfoldable pub is_plausible_forwarding_name : Text → Bool
is_plausible_forwarding_name name =
    not (is_empty name || (ltb 64 (length name) || starts_with_dash name))
    && (not (contains name (b',' ∷ [])) && not (has_control false name))

-- "name,proto,hostip,hostport,guestip,guestport".
unfoldable pub forwarding_rule_spec : Rule → Text
forwarding_rule_spec r =
    r.name
    ++ (b',' ∷ r.protocol
        ++ (b',' ∷ r.host_ip
            ++ (b',' ∷ itoa r.host_port ++ (b',' ∷ r.guest_ip ++ (b',' ∷ itoa r.guest_port)))))

unfoldable pub natpf_add_args : Text → ℤ → Rule → Bool → List Text
natpf_add_args id slot r true =
    txt "controlvm" ∷ id ∷ (txt "natpf" ++ itoa slot) ∷ forwarding_rule_spec r ∷ []
natpf_add_args id slot r false =
    txt "modifyvm" ∷ id ∷ (txt "--natpf" ++ itoa slot) ∷ forwarding_rule_spec r ∷ []

unfoldable pub natpf_delete_args : Text → ℤ → Text → Bool → List Text
natpf_delete_args id slot name true =
    txt "controlvm" ∷ id ∷ (txt "natpf" ++ itoa slot) ∷ txt "delete" ∷ name ∷ []
natpf_delete_args id slot name false =
    txt "modifyvm" ∷ id ∷ (txt "--natpf" ++ itoa slot) ∷ txt "delete" ∷ name ∷ []
