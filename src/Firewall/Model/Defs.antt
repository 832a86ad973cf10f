-- ===== src/Firewall/Model/Defs.antt =====
-- Rules and their validation, src/core/firewall/model.cpp and include/gatehold/firewall/model.hpp.
-- `inet_pton` of the system's library is a parameter, on the bytes of a C string.
use sasd_gatehold.Prelude.{
  ℕ, ◌+◌, Bool, true, false, not, ◌&&◌, ◌||◌, Option, none, some, List, [], ◌∷◌, ◌++◌, String, ltb,
  leb, ◌==◌, if◌then◌else◌, is_empty, is_some, length,
}
use sasd_gatehold.Text.{Bytes, text, eq_bytes}
use sasd_gatehold.Text.Decimal.{to_string, from_chars}

pub data Action : Type 0 where
  block pass : Action

pub data Direction : Type 0 where
  any inbound outbound : Direction

pub data AddressFamily : Type 0 where
  any inet inet6 : AddressFamily

pub data Protocol : Type 0 where
  any tcp udp icmp icmp6 : Protocol

pub record Endpoint : Type 0 where
  pub network : Bytes
  pub port : Option ℕ

pub record Rule : Type 0 where
  pub id : Bytes
  pub description : Bytes
  pub action : Action
  pub direction : Direction
  pub address_family : AddressFamily
  pub interface : Bytes
  pub protocol : Protocol
  pub source : Endpoint
  pub destination : Endpoint
  pub log : Bool
  pub quick : Bool
  pub enabled : Bool

pub record RuleSet : Type 0 where
  pub revision : ℕ
  pub rules : List Rule

pub record ValidationIssue : Type 0 where
  pub code : Bytes
  pub field : Bytes
  pub message : Bytes

-- A report is the list of its issues.
abbrev pub ValidationReport : Type 0
ValidationReport = List ValidationIssue

-- `ValidationReport::ok`.
abbrev pub report_ok : ValidationReport → Bool
report_ok r = is_empty r

abbrev pub is_ascii_digit : ℕ → Bool
is_ascii_digit c = leb b'0' c && leb c b'9'

abbrev pub is_ascii_letter : ℕ → Bool
is_ascii_letter c = leb b'A' c && leb c b'Z' || leb b'a' c && leb c b'z'

abbrev pub is_ascii_alphanumeric : ℕ → Bool
is_ascii_alphanumeric c = is_ascii_letter c || is_ascii_digit c

abbrev pub is_identifier_character : ℕ → Bool
is_identifier_character c = is_ascii_alphanumeric c || c == b'.' || c == b'_' || c == b'-'

unfoldable pub all_identifier : Bytes → Bool
all_identifier [] = true
all_identifier (c ∷ s) = is_identifier_character c && all_identifier s

unfoldable pub is_valid_rule_id : Bytes → Bool
is_valid_rule_id [] = false
is_valid_rule_id (c ∷ s) =
    leb (length s + 1) 64 && is_ascii_alphanumeric c && all_identifier (c ∷ s)

unfoldable pub is_valid_interface : Bytes → Bool
is_valid_interface [] = true
is_valid_interface (c ∷ s) = leb (length s + 1) 15 && is_ascii_letter c && all_identifier (c ∷ s)

unfoldable pub contains_control_character : Bytes → Bool
contains_control_character [] = false
contains_control_character (c ∷ s) = ltb c 32 || c == 127 || contains_control_character s

pub record ParsedNetwork : Type 0 where
  pub valid : Bool
  pub family : AddressFamily

-- `substr(0, slash)`, and `substr(slash + 1)` where there is a slash.
unfoldable pub before_slash : Bytes → Bytes
before_slash [] = []
before_slash (c ∷ s) = let rest = before_slash s in if c == b'/' then [] else c ∷ rest

unfoldable pub after_slash : Bytes → Option Bytes
after_slash [] = none
after_slash (c ∷ s) = let rest = after_slash s in if c == b'/' then some s else rest

-- `address_text.c_str()`: a C string ends at the first NUL.
unfoldable pub c_str : Bytes → Bytes
c_str [] = []
c_str (c ∷ s) = let rest = c_str s in if c == 0 then [] else c ∷ rest

abbrev pub max_u32 : ℕ
max_u32 = 4294967295

abbrev prefix_at_most : ℕ → Option ℕ → Bool
prefix_at_most m none = false
prefix_at_most m (some p) = leb p m

-- The text behind the slash, if there is one.
abbrev pub prefix_ok : ℕ → Option Bytes → Bool
prefix_ok m none = true
prefix_ok m (some s) = prefix_at_most m (from_chars max_u32 s)

abbrev pub second_slash : Option Bytes → Bool
second_slash none = false
second_slash (some s) = is_some (after_slash s)

abbrev pub invalid_network : ParsedNetwork
invalid_network = record { valid = false; family = AddressFamily.any }

abbrev pub same_family : AddressFamily → AddressFamily → Bool
same_family AddressFamily.any AddressFamily.any = true
same_family AddressFamily.inet AddressFamily.inet = true
same_family AddressFamily.inet6 AddressFamily.inet6 = true
same_family _ _ = false

abbrev pub is_any : AddressFamily → Bool
is_any AddressFamily.any = true
is_any _ = false

abbrev pub has_ports : Protocol → Bool
has_ports Protocol.tcp = true
has_ports Protocol.udp = true
has_ports _ = false

abbrev pub is_icmp : Protocol → Bool
is_icmp Protocol.icmp = true
is_icmp _ = false

abbrev pub is_icmp6 : Protocol → Bool
is_icmp6 Protocol.icmp6 = true
is_icmp6 _ = false

abbrev pub issue : Bytes → Bytes → String → ValidationIssue
issue code field words = record { code = code; field = field; message = text words }

-- `report.add` under a test, on an empty report.
abbrev pub add_if : Bool → ValidationIssue → ValidationReport
add_if true i = i ∷ []
add_if false i = []

-- The issues of the tests, in their order.
unfoldable pub join : List ValidationReport → ValidationReport
join [] = []
join (r ∷ rs) = r ++ join rs

module _ (inet_pton : AddressFamily → Bytes → Bool) where
  abbrev with_family : AddressFamily → ℕ → Option Bytes → ParsedNetwork
  with_family f maximum_prefix prefix =
      if prefix_ok maximum_prefix prefix
      then record { valid = true; family = f }
      else invalid_network

  unfoldable pub parse_network : Bytes → ParsedNetwork
  parse_network network =
      let address = before_slash network in
      let prefix = after_slash network in
      if eq_bytes network (text "any")
      then record { valid = true; family = AddressFamily.any }
      else if second_slash prefix || is_empty address
      then invalid_network
      else if inet_pton AddressFamily.inet (c_str address)
      then with_family AddressFamily.inet 32 prefix
      else if inet_pton AddressFamily.inet6 (c_str address)
      then with_family AddressFamily.inet6 128 prefix
      else invalid_network

  unfoldable pub validate_endpoint : Endpoint → Bytes → AddressFamily → ValidationReport
  validate_endpoint e field expected =
      let parsed = parse_network e.network in
      if not parsed.valid
      then issue (text "GH-CFG-1004") (field ++ text ".network")
          "Network must be 'any' or a numeric IPv4/IPv6 address with an optional prefix."
        ∷ []
      else add_if
          (not (is_any expected)
            && not (is_any parsed.family)
            && not (same_family parsed.family expected))
          (issue (text "GH-CFG-1005") (field ++ text ".network")
            "Network does not match the rule address family.")

  -- `validate(const Rule&)`.
  unfoldable pub validate_rule : Rule → ValidationReport
  validate_rule r =
      let source_family = (parse_network r.source.network).family in
      let destination_family = (parse_network r.destination.network).family in
      join (
        add_if (not (is_valid_rule_id r.id)) (
          issue (text "GH-CFG-1001") (text "id")
            "Rule ID must be 1-64 ASCII letters, digits, dots, underscores, or hyphens and start with a letter or digit.")
        ∷ add_if (ltb 160 (length r.description) || contains_control_character r.description) (
            issue (text "GH-CFG-1002") (text "description")
              "Description must be at most 160 characters and contain no control characters.")
        ∷ add_if (not (is_valid_interface r.interface)) (
            issue (text "GH-CFG-1003") (text "interface")
              "Interface must be empty or a safe OpenBSD interface name of at most 15 characters.")
        ∷ validate_endpoint r.source (text "source") r.address_family
        ∷ validate_endpoint r.destination (text "destination") r.address_family
        ∷ add_if
            (is_any r.address_family
              && not (is_any source_family)
              && not (is_any destination_family)
              && not (same_family source_family destination_family))
            (issue (text "GH-CFG-1006") (text "address_family")
              "Source and destination must use the same address family.")
        ∷ add_if
            ((is_some r.source.port || is_some r.destination.port) && not (has_ports r.protocol))
            (issue (text "GH-CFG-1007") (text "protocol")
              "Ports are allowed only for TCP or UDP rules.")
        ∷ add_if (is_icmp r.protocol && same_family r.address_family AddressFamily.inet6) (
            issue (text "GH-CFG-1008") (text "protocol")
              "ICMP cannot be used with the inet6 address family; use ICMPv6.")
        ∷ add_if (is_icmp6 r.protocol && same_family r.address_family AddressFamily.inet) (
            issue (text "GH-CFG-1009") (text "protocol")
              "ICMPv6 cannot be used with the inet address family.")
        ∷ [])

  abbrev pub located : ℕ → Bytes → Bytes
  located index field = text "rules[" ++ (to_string index ++ (text "]." ++ field))

  unfoldable pub relocate : ℕ → ValidationReport → ValidationReport
  relocate index [] = []
  relocate index (i ∷ is) =
      record { code = i.code; field = located index i.field; message = i.message }
      ∷ relocate index is

  unfoldable pub mentions : Bytes → List Bytes → Bool
  mentions a [] = false
  mentions a (b ∷ bs) = eq_bytes a b || mentions a bs

  -- The loop over the rules, with the identifiers that it has inserted in the set.
  unfoldable pub validate_rules : ℕ → List Bytes → List Rule → ValidationReport
  validate_rules index seen [] = []
  validate_rules index seen (r ∷ rs) =
      relocate index (validate_rule r)
      ++ (add_if (not (is_empty r.id) && mentions r.id seen) (
            issue (text "GH-CFG-1010") (located index (text "id"))
              "Rule IDs must be unique within a ruleset.")
          ++ validate_rules (index + 1) (if is_empty r.id then seen else r.id ∷ seen) rs)

  -- `validate(const RuleSet&)`.
  unfoldable pub validate : RuleSet → ValidationReport
  validate s =
      add_if (s.revision == 0)
        (issue (text "GH-CFG-1011") (text "revision") "Revision number must be greater than zero.")
      ++ validate_rules 0 [] s.rules
