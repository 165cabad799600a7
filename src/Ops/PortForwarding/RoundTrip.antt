-- ===== src/Ops/PortForwarding/RoundTrip.antt =====
-- The text of a rule determines the rule: no field can spill into another.
use tab_vm.Ops.PortForwarding.Rules.{Rule, forwarding_rule_spec}
use tab_vm.Strings.Number.RoundTrip.{atoi-itoa, any_byte-digits_onto}
use tab_vm.Strings.{split, Text}
use tab_vm.Strings.Search.{any_byte}
use tab_vm.Strings.Number.{itoa, atoi, max_int}
use tab_vm.Prelude.{
  ◌≡◌, refl, ℕ, ◌==◌, ◌≤◌, Bool, false, List, [], ◌∷◌, ◌++◌, Option, some, none, arith, suc,
}
use tab_vm.Prelude.Int.{ℤ, pos}

abbrev pub is_comma : ℕ → Bool
is_comma c = c == b','

-- No comma in a text.
abbrev pub Commaless : Text → Type 0
Commaless s = any_byte is_comma s ≡ false

split-Commaless : (s : Text) → Commaless s → split s b',' ≡ s ∷ []
unfolding split any_byte
split-Commaless [] h = refl
split-Commaless (c ∷ s) h = ground (arith, split-Commaless s)

split-field : (s t : Text) → Commaless s → split (s ++ b',' ∷ t) b',' ≡ s ∷ split t b','
unfolding split any_byte
split-field [] t h = refl
split-field (c ∷ s) t h = ground (arith, split-field s t)

itoa-Commaless : (n : ℕ) → Commaless (itoa (pos n))
unfolding itoa any_byte
itoa-Commaless n = any_byte-digits_onto is_comma (λ d h. ground arith) (suc n) n [] refl

-- A reader of such texts.
abbrev pub rule_of : Text → Text → Text → Option ℤ → Text → Option ℤ → Option Rule
rule_of name protocol host_ip (some host_port) guest_ip (some guest_port) = some (record {
  name = name;
  protocol = protocol;
  host_ip = host_ip;
  host_port = host_port;
  guest_ip = guest_ip;
  guest_port = guest_port;
})
rule_of _ _ _ _ _ _ = none

abbrev pub read_fields : List Text → Option Rule
read_fields (a ∷ b ∷ c ∷ d ∷ e ∷ f ∷ []) = rule_of a b c (atoi d) e (atoi f)
read_fields _ = none

abbrev pub read_spec : Text → Option Rule
read_spec s = read_fields (split s b',')

-- The text of a rule reads back as that rule, if no field has a comma and the ports are an `int`'s.
pub read_spec-forwarding_rule_spec :
    (name protocol host_ip guest_ip : Text) (host_port guest_port : ℕ)
    → Commaless name
    → Commaless protocol
    → Commaless host_ip
    → Commaless guest_ip
    → host_port ≤ max_int
    → guest_port ≤ max_int
    → read_spec (
        forwarding_rule_spec (record {
          name = name;
          protocol = protocol;
          host_ip = host_ip;
          host_port = pos host_port;
          guest_ip = guest_ip;
          guest_port = pos guest_port;
        }))
      ≡ some (record {
        name = name;
        protocol = protocol;
        host_ip = host_ip;
        host_port = pos host_port;
        guest_ip = guest_ip;
        guest_port = pos guest_port;
      })
unfolding forwarding_rule_spec
read_spec-forwarding_rule_spec name protocol host_ip guest_ip host_port guest_port h1 h2 h3 h4 h5
      h6 =
    rw
      (
        split-field name _ h1,
        split-field protocol _ h2,
        split-field host_ip _ h3,
        split-field (itoa (pos host_port)) _ (itoa-Commaless host_port),
        split-field guest_ip _ h4,
        split-Commaless (itoa (pos guest_port)) (itoa-Commaless guest_port),
        atoi-itoa host_port h5,
        atoi-itoa guest_port h6,
      )
      refl
