-- ===== src/Firewall/Model/Valid.antt =====
-- What the validation of a rule means, src/core/firewall/model.cpp.
use sasd_gatehold.Prelude.{
  ℕ, ◌≤◌, ◌≡◌, ◌≢◌, ◌⊎◌, ◌↔◌, refl, Bool, true, false, not, ◌&&◌, ◌||◌, Option, none, List, [], ◌∷◌,
  ◌++◌, arith, is_empty, is_some, length, All,
}
use sasd_gatehold.Text.{Bytes, text}
use sasd_gatehold.Firewall.Model.Defs.{
  AddressFamily, Protocol, Endpoint, Rule, ValidationIssue, ValidationReport,
  is_identifier_character, is_ascii_alphanumeric, is_ascii_letter, all_identifier, is_valid_rule_id,
  is_valid_interface, contains_control_character, parse_network, validate_endpoint, validate_rule,
  join, add_if, issue, is_any, same_family, has_ports, is_icmp, is_icmp6,
}

abbrev IsIdentifier : Bytes → Type 0
IsIdentifier = All (λ c. is_identifier_character c ≡ true)

abbrev pub IsRuleId : Bytes → Type 0
IsRuleId [] = ⊥
IsRuleId (c ∷ s) = (length (c ∷ s) ≤ 64) × (is_ascii_alphanumeric c ≡ true) × IsIdentifier (c ∷ s)

abbrev pub IsInterface : Bytes → Type 0
IsInterface [] = Unit
IsInterface (c ∷ s) = (length (c ∷ s) ≤ 15) × (is_ascii_letter c ≡ true) × IsIdentifier (c ∷ s)

abbrev pub IsDescription : Bytes → Type 0
IsDescription s = (length s ≤ 160) × All (λ c. (32 ≤ c) × (c ≢ 127)) s

-- Two address families that can stand in one rule.
abbrev pub Compatible : AddressFamily → AddressFamily → Type 0
Compatible f g = (f ≡ AddressFamily.any) ⊎ (g ≡ AddressFamily.any) ⊎ (f ≡ g)

-- Ports only with TCP or UDP.
abbrev pub PortsFit : Option ℕ → Option ℕ → Protocol → Type 0
PortsFit p q t = ((p ≡ none) × (q ≡ none)) ⊎ (t ≡ Protocol.tcp) ⊎ (t ≡ Protocol.udp)

abbrev pub ProtocolFits : Protocol → AddressFamily → Type 0
ProtocolFits Protocol.icmp f = f ≢ AddressFamily.inet6
ProtocolFits Protocol.icmp6 f = f ≢ AddressFamily.inet
ProtocolFits _ f = Unit

all_identifier-IsIdentifier : (s : Bytes) → (all_identifier s ≡ true) ↔ IsIdentifier s
unfolding all_identifier
all_identifier-IsIdentifier [] = (λ h. tt, λ h. refl)
all_identifier-IsIdentifier (c ∷ s) =
    let (f, g) = all_identifier-IsIdentifier s in
    (λ h. (ground arith, f (ground arith)), λ h. ground (arith, g h.1))

is_valid_rule_id-IsRuleId : (s : Bytes) → (is_valid_rule_id s ≡ true) ↔ IsRuleId s
unfolding is_valid_rule_id
is_valid_rule_id-IsRuleId [] = (λ h. ground arith, λ h. absurd h)
is_valid_rule_id-IsRuleId (c ∷ s) =
    let (f, g) = all_identifier-IsIdentifier (c ∷ s) in
    (λ h. (ground arith, ground arith, f (ground arith)), λ h. ground (arith, g h.2))

is_valid_interface-IsInterface : (s : Bytes) → (is_valid_interface s ≡ true) ↔ IsInterface s
unfolding is_valid_interface
is_valid_interface-IsInterface [] = (λ h. tt, λ h. refl)
is_valid_interface-IsInterface (c ∷ s) =
    let (f, g) = all_identifier-IsIdentifier (c ∷ s) in
    (λ h. (ground arith, ground arith, f (ground arith)), λ h. ground (arith, g h.2))

control-free :
    (s : Bytes) → (contains_control_character s ≡ false) ↔ All (λ c. (32 ≤ c) × (c ≢ 127)) s
unfolding contains_control_character
control-free [] = (λ h. tt, λ h. refl)
control-free (c ∷ s) =
    let (f, g) = control-free s in
    (λ h. (ground arith, f (ground arith)), λ h. ground (arith, g h.1))

pub is_empty-append :
    (a b : ValidationReport)
    → (is_empty (a ++ b) ≡ true) ↔ ((is_empty a ≡ true) × (is_empty b ≡ true))
is_empty-append [] b = (λ h. (refl, h), λ h. h.1)
is_empty-append (i ∷ a) b = (λ h. ground arith, λ h. ground arith)

join-empty :
    (l : List ValidationReport) → (is_empty (join l) ≡ true) ↔ All (λ a. is_empty a ≡ true) l
unfolding join
join-empty [] = (λ h. tt, λ h. refl)
join-empty (a ∷ l) =
    let (f, g) = is_empty-append a (join l) in
    let (f', g') = join-empty l in (λ h. ((f h).0, f' (f h).1), λ h. g (h.0, g' h.1))

ports-PortsFit :
    (p q : Option ℕ) (t : Protocol) (i : ValidationIssue)
    → (is_empty (add_if ((is_some p || is_some q) && not (has_ports t)) i) ≡ true) ↔ PortsFit p q t
ports-PortsFit p q t i = (λ h. ground arith, λ h. ground arith)

protocol-ProtocolFits :
    (t : Protocol) (f : AddressFamily) (i j : ValidationIssue)
    → ((is_empty (add_if (is_icmp t && same_family f AddressFamily.inet6) i) ≡ true)
        × (is_empty (add_if (is_icmp6 t && same_family f AddressFamily.inet) j) ≡ true))
      ↔ ProtocolFits t f
protocol-ProtocolFits t f i j = (λ h. ground arith, λ h. ground arith)

-- The test of source and destination is made only for a rule of any family; for another rule both
-- have been compared with that family.
families-Compatible :
    (f s d : AddressFamily) (i : ValidationIssue)
    → Compatible f s
    → Compatible f d
    → (is_empty (add_if (is_any f && not (is_any s) && not (is_any d) && not (same_family s d)) i)
        ≡ true)
      ↔ Compatible s d
families-Compatible f s d i hs hd = (λ h. ground arith, λ h. ground arith)

module _ (inet_pton : AddressFamily → Bytes → Bool) where
  abbrev family_of : Endpoint → AddressFamily
  family_of e = (parse_network inet_pton e.network).family

  abbrev IsNetwork : Endpoint → Type 0
  IsNetwork e = (parse_network inet_pton e.network).valid ≡ true

  -- A rule as the documentation of the model describes it.
  pub record ValidRule (r : Rule) : Type 0 where
    pub id : IsRuleId r.id
    pub description : IsDescription r.description
    pub interface : IsInterface r.interface
    pub source : IsNetwork r.source
    pub destination : IsNetwork r.destination
    pub source_family : Compatible r.address_family (family_of r.source)
    pub destination_family : Compatible r.address_family (family_of r.destination)
    pub families : Compatible (family_of r.source) (family_of r.destination)
    pub ports : PortsFit r.source.port r.destination.port r.protocol
    pub protocol : ProtocolFits r.protocol r.address_family

  validate_endpoint-Valid :
      (e : Endpoint) (field : Bytes) (f : AddressFamily)
      → (is_empty (validate_endpoint inet_pton e field f) ≡ true)
        ↔ (IsNetwork e × Compatible f (family_of e))
  unfolding validate_endpoint
  validate_endpoint-Valid e field f = (λ h. ground arith, λ h. ground arith)

  pub validate_rule-Valid : (r : Rule) → (is_empty (validate_rule inet_pton r) ≡ true) ↔ ValidRule r
  unfolding validate_rule
  validate_rule-Valid r =
      let (id, id') = is_valid_rule_id-IsRuleId r.id in
      let (interface, interface') = is_valid_interface-IsInterface r.interface in
      let (free, free') = control-free r.description in
      let (source, source') = validate_endpoint-Valid r.source (text "source") r.address_family in
      let (destination, destination') =
        validate_endpoint-Valid r.destination (text "destination") r.address_family in
      let (ports, ports') = ports-PortsFit r.source.port r.destination.port r.protocol (
        issue (text "GH-CFG-1007") (text "protocol")
          "Ports are allowed only for TCP or UDP rules.") in
      let (protocol, protocol') =
        protocol-ProtocolFits r.protocol r.address_family
          (issue (text "GH-CFG-1008") (text "protocol")
            "ICMP cannot be used with the inet6 address family; use ICMPv6.")
          (issue (text "GH-CFG-1009") (text "protocol")
            "ICMPv6 cannot be used with the inet address family.") in
      let families =
        families-Compatible r.address_family (family_of r.source) (family_of r.destination) (
          issue (text "GH-CFG-1006") (text "address_family")
            "Source and destination must use the same address family.") in
      (
        λ h.
            let (e1, (e2, (e3, (e4, (e5, (e6, (e7, (e8, (e9, e10))))))))) = (join-empty _).0 h in
            record {
              id = id (ground arith);
              description = (ground arith, free (ground arith));
              interface = interface (ground arith);
              source = (source e4).0;
              destination = (destination e5).0;
              source_family = (source e4).1;
              destination_family = (destination e5).1;
              families = (families (source e4).1 (destination e5).1).0 e6;
              ports = ports e7;
              protocol = protocol (e8, e9);
            },
        λ h.
            let e1 = id' h.id in
            let e2 = free' h.description.1 in
            let e3 = interface' h.interface in
            let (e8, e9) = protocol' h.protocol in
            (join-empty _).1 (
              ground arith,
              (
                ground arith,
                (
                  ground arith,
                  (
                    source' (h.source, h.source_family),
                    (
                      destination' (h.destination, h.destination_family),
                      (
                        (families h.source_family h.destination_family).1 h.families,
                        (ports' h.ports, (e8, (e9, tt))),
                      ),
                    ),
                  ),
                ),
              ),
            ),
      )
