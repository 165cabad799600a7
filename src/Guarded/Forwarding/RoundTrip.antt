-- ===== src/Guarded/Forwarding/RoundTrip.antt =====
-- The text of a rule that passed the checks.
use tab_vm.Ops.PortForwarding.{ForwardingRequest, requested_rule, host_ip_of, is_port}
use tab_vm.Ops.PortForwarding.Rules.{forwarding_rule_spec, is_plausible_forwarding_name}
use tab_vm.Ops.PortForwarding.RoundTrip.{Commaless, read_spec, read_spec-forwarding_rule_spec}
use tab_vm.Strings.Laws.{text_eq_sound}
use tab_vm.Strings.Search.{contains, any_byte}
use tab_vm.Prelude.{
  ◌≡◌, refl, Bool, Bool-cases, inl, inr, ◌||◌, true, false, [], ◌∷◌, arith, some, ℕ, ◌≤◌,
}
use tab_vm.Strings.{Text, txt, text_eq, is_empty, one_of, to_lower, trim_space, has_prefix}
use tab_vm.Strings.Number.{max_int}
use tab_vm.Prelude.Int.{ℤ, pos, negsuc}
use tab_vm.Guarded.Forwarding.Allowed.{Validated}

contains-Commaless : (s : Text) → contains s (b',' ∷ []) ≡ false → Commaless s
unfolding contains any_byte has_prefix
contains-Commaless [] h = refl
contains-Commaless (c ∷ s) h = ground (arith, contains-Commaless s)

name-Commaless : (name : Text) → is_plausible_forwarding_name name ≡ true → Commaless name
unfolding is_plausible_forwarding_name
name-Commaless name h = contains-Commaless name (ground arith)

protocol-Commaless : (p : Text) → one_of (txt "tcp" ∷ txt "udp" ∷ []) p ≡ true → Commaless p
unfolding one_of any_byte txt
protocol-Commaless p h = elim (Bool-cases (text_eq p (txt "tcp"))) [
  | inl tcp ↦ rw (text_eq_sound p (txt "tcp") tcp) refl
  | inr other ↦ rw (text_eq_sound p (txt "udp") (ground arith)) refl
]

address-Commaless :
    (is_ip : Text → Bool)
    → ((t : Text) → is_ip t ≡ true → Commaless t)
    → (t : Text) → is_empty t || is_ip t ≡ true
    → Commaless t
unfolding any_byte
address-Commaless is_ip plain [] h = refl
address-Commaless is_ip plain (c ∷ t) h = plain (c ∷ t) h

host_ip_of-Commaless : (t : Text) → Commaless t → Commaless (host_ip_of t)
unfolding any_byte txt
host_ip_of-Commaless [] h = refl
host_ip_of-Commaless (c ∷ t) h = h

port_nat : (n : ℤ) → is_port n ≡ true → (k : ℕ) × (n ≡ pos k) × (k ≤ max_int)
port_nat (pos k) h = (k, refl, ground arith)
port_nat (negsuc k) h = absurd (ground arith)

-- For every valid request the text that `AddPortForwarding` passes to VBoxManage reads back, field by
-- field, as the requested rule, provided that an IP address has no comma.
pub read_spec-requested_rule :
    (is_ip : Text → Bool) (id : Text) (req : ForwardingRequest)
    → ((t : Text) → is_ip t ≡ true → Commaless t)
    → Validated is_ip id req
    → read_spec (forwarding_rule_spec (requested_rule req)) ≡ some (requested_rule req)
unfolding requested_rule
read_spec-requested_rule is_ip id req plain
      (_, _, tcp_or_udp, name, host, guest, host_ip, guest_ip) =
    let (h, eh, sh) = port_nat req.host_port host in
    let (g, eg, sg) = port_nat req.guest_port guest in
    rw (eh, eg)
      (read_spec-forwarding_rule_spec (trim_space req.name) (to_lower (trim_space req.protocol))
        (host_ip_of (trim_space req.host_ip)) (trim_space req.guest_ip) h g
        (name-Commaless (trim_space req.name) name) (protocol-Commaless _ tcp_or_udp)
        (host_ip_of-Commaless _ (address-Commaless is_ip plain _ host_ip))
        (address-Commaless is_ip plain _ guest_ip) sh sg)
