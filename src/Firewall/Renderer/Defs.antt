-- ===== src/Firewall/Renderer/Defs.antt =====
-- `PfRenderer::render`, src/core/firewall/pf_renderer.cpp and
-- include/gatehold/firewall/pf_renderer.hpp, with the texts of the model's enumerations,
-- src/core/firewall/model.cpp. A stream is the list of what is
-- written to it. The field `ruleset` of the result is `rule_text` here.
use sasd_gatehold.Prelude.{
  ℕ, Bool, true, false, not, Option, none, some, List, [], ◌∷◌, ◌++◌, if◌then◌else◌, is_empty,
}
use sasd_gatehold.Text.{Bytes, text}
use sasd_gatehold.Text.Decimal.{to_string}
use sasd_gatehold.Firewall.Model.Defs.{
  Action, Direction, AddressFamily, Protocol, Endpoint, Rule, RuleSet, ValidationReport, report_ok,
  validate,
}

pub record RenderResult : Type 0 where
  pub validation : ValidationReport
  pub rule_text : Bytes

-- What has been written, in its order.
unfoldable pub written : List Bytes → Bytes
written [] = []
written (s ∷ ss) = s ++ written ss

unfoldable pub action_text : Action → Bytes
action_text Action.block = text "block"
action_text Action.pass = text "pass"

unfoldable pub direction_text : Direction → Bytes
direction_text Direction.any = []
direction_text Direction.inbound = text "in"
direction_text Direction.outbound = text "out"

unfoldable pub family_text : AddressFamily → Bytes
family_text AddressFamily.any = []
family_text AddressFamily.inet = text "inet"
family_text AddressFamily.inet6 = text "inet6"

unfoldable pub protocol_text : Protocol → Bytes
protocol_text Protocol.any = []
protocol_text Protocol.tcp = text "tcp"
protocol_text Protocol.udp = text "udp"
protocol_text Protocol.icmp = text "icmp"
protocol_text Protocol.icmp6 = text "icmp6"

unfoldable pub append_token : Bytes → Bytes
append_token value = if is_empty value then [] else b' ' ∷ value

unfoldable pub port_text : Option ℕ → Bytes
port_text none = []
port_text (some p) = text " port " ++ to_string p

unfoldable pub append_endpoint : Bytes → Endpoint → Bytes
append_endpoint keyword e =
    written ((b' ' ∷ []) ∷ keyword ∷ (b' ' ∷ []) ∷ e.network ∷ port_text e.port ∷ [])

abbrev pub is_pass : Action → Bool
is_pass Action.block = false
is_pass Action.pass = true

unfoldable pub proto_text : Protocol → Bytes
proto_text Protocol.any = []
proto_text p = text " proto " ++ protocol_text p

-- The line of the rule itself, from its action to `keep state`.
unfoldable pub statement : Rule → Bytes
statement r = written (
    action_text r.action
    ∷ append_token (direction_text r.direction)
    ∷ (if r.log then text " log" else [])
    ∷ (if r.quick then text " quick" else [])
    ∷ (if is_empty r.interface then [] else text " on " ++ r.interface)
    ∷ append_token (family_text r.address_family)
    ∷ proto_text r.protocol
    ∷ append_endpoint (text "from") r.source
    ∷ append_endpoint (text "to") r.destination
    ∷ (if is_pass r.action then text " keep state" else [])
    ∷ [])

-- The comment in front of it.
unfoldable pub heading : Rule → Bytes
heading r = written (
    text "# rule "
    ∷ r.id
    ∷ (if is_empty r.description then [] else text ": " ++ r.description)
    ∷ [])

unfoldable pub append_rule : Rule → Bytes → Bytes
append_rule r rest = b'\n' ∷ (heading r ++ (b'\n' ∷ (statement r ++ (b'\n' ∷ rest))))

unfoldable pub disabled_heading : Rule → Bytes
disabled_heading r = text "# disabled rule " ++ r.id

-- The loop over the rules.
unfoldable pub append_rules : List Rule → Bytes
append_rules [] = []
append_rules (r ∷ rs) =
    let rest = append_rules rs in
    if r.enabled then append_rule r rest else b'\n' ∷ (disabled_heading r ++ (b'\n' ∷ rest))

unfoldable pub append_header : ℕ → Bytes → Bytes
append_header revision rest =
    text "# Generated by SASD Gatehold. DO NOT EDIT."
    ++ (b'\n'
        ∷ ((text "# Configuration revision: " ++ to_string revision)
            ++ (b'\n'
                ∷ b'\n'
                ∷ (text "set block-policy drop"
                    ++ (b'\n'
                        ∷ (text "set skip on lo"
                            ++ (b'\n' ∷ b'\n' ∷ (text "block log all" ++ (b'\n' ∷ rest)))))))))

module _ (inet_pton : AddressFamily → Bytes → Bool) where
  unfoldable pub render : RuleSet → RenderResult
  render s =
      let report = validate inet_pton s in
      if not (report_ok report) then record { validation = report; rule_text = [] } else record {
        validation = report;
        rule_text = append_header s.revision (append_rules s.rules);
      }
