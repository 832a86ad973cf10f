-- ===== src/Firewall/Renderer/Tests.antt =====
-- A ruleset, its validation and its text, and the theorems applied to it.
use sasd_gatehold.Prelude.{
  ◌≡◌, ◌≢◌, ◌↔◌, refl, sym, subst, Bool, true, false, ◌&&◌, none, some, [], ◌∷◌, ◌++◌, arith,
  is_empty, All, &&-right,
}
use sasd_gatehold.Text.{Bytes, text, eq_bytes, eq_bytes→≡, Printable, OneLine, print_lines}
use sasd_gatehold.Text.Decimal as Decimal
use sasd_gatehold.Firewall.Model.Defs as Model
use sasd_gatehold.Firewall.Model.Defs.{
  Action, Direction, AddressFamily, Protocol, Endpoint, Rule, RuleSet, validate, report_ok,
  parse_network,
}
use sasd_gatehold.Firewall.Model.Network.{Avoids, Numeric, parse_network-after_nul}
use sasd_gatehold.Firewall.Model.Valid.{ValidRule}
use sasd_gatehold.Firewall.Model.RuleSets.{Distinct, validate-Valid}
use sasd_gatehold.Firewall.Renderer.Defs as Renderer
use sasd_gatehold.Firewall.Renderer.Defs.{render}
use sasd_gatehold.Firewall.Renderer.Lines.{header_lines, rules_lines, Whole, render-OneLine}

abbrev is_inet : AddressFamily → Bool
is_inet AddressFamily.inet = true
is_inet _ = false

abbrev localhost : Bytes
localhost = text "10.0.0.1"

-- A library that knows one address.
abbrev pton : AddressFamily → Bytes → Bool
pton f s = is_inet f && eq_bytes s localhost

localhost-Printable : Printable localhost
unfolding text
localhost-Printable = omega arith

pton-Numeric : Numeric pton
pton-Numeric f s h =
    subst Printable (sym (eq_bytes→≡ s localhost (&&-right (is_inet f) (eq_bytes s localhost) h)))
      localhost-Printable

abbrev web : Rule
web = record {
  id = text "allow-web";
  description = text "Public HTTPS";
  action = Action.pass;
  direction = Direction.inbound;
  address_family = AddressFamily.inet;
  interface = text "em0";
  protocol = Protocol.tcp;
  source = record { network = text "any"; port = none };
  destination = record { network = text "10.0.0.1/32"; port = some 443 };
  log = true;
  quick = true;
  enabled = true;
}

abbrev ssh : Rule
ssh = record web { id = text "ssh"; enabled = false }

abbrev rules : RuleSet
rules = record { revision = 7; rules = web ∷ ssh ∷ [] }

renders :
    (report_ok (render pton rules).validation ≡ true)
    × ((render pton rules).rule_text
        ≡ text
            "# Generated by SASD Gatehold. DO NOT EDIT.\n# Configuration revision: 7\n\nset block-policy drop\nset skip on lo\n\nblock log all\n\n# rule allow-web: Public HTTPS\npass in log quick on em0 inet proto tcp from any to 10.0.0.1/32 port 443 keep state\n\n# disabled rule ssh\n")
unfolding render Renderer.append_header Renderer.append_rules Renderer.append_rule Renderer.heading
    Renderer.statement Renderer.disabled_heading Renderer.written Renderer.action_text
    Renderer.direction_text Renderer.family_text Renderer.protocol_text Renderer.append_token
    Renderer.port_text Renderer.append_endpoint Renderer.proto_text validate Model.validate_rules
    Model.validate_rule Model.validate_endpoint Model.relocate Model.mentions Model.join
    parse_network Model.c_str Model.before_slash Model.after_slash Model.is_valid_rule_id
    Model.is_valid_interface Model.all_identifier Model.contains_control_character text eq_bytes
    Decimal.to_string Decimal.from_chars
renders = (refl, refl)

rules-Whole : All (Whole pton pton-Numeric) (web ∷ ssh ∷ [])
unfolding text
rules-Whole = omega arith

render-OneLine_example :
    let ls = header_lines 7 ++ rules_lines (web ∷ ssh ∷ []) in
    ((render pton rules).rule_text ≡ print_lines ls) × All OneLine ls
render-OneLine_example = render-OneLine pton pton-Numeric rules renders.0 rules-Whole

validate-Valid_example :
    (is_empty (validate pton rules) ≡ true)
    ↔ ((rules.revision ≢ 0) × All (ValidRule pton) rules.rules × Distinct rules.rules)
validate-Valid_example = validate-Valid pton rules

abbrev injected : Bytes
injected = text "\npass all #"

clean : Avoids 0 localhost × Avoids b'/' (localhost ++ 0 ∷ injected)
unfolding text
clean = omega arith

known : (pton AddressFamily.inet localhost ≡ true) × (is_empty localhost ≡ false)
unfolding text eq_bytes
known = (refl, refl)

parse_network-after_nul_example : (parse_network pton (localhost ++ 0 ∷ injected)).valid ≡ true
parse_network-after_nul_example =
    parse_network-after_nul pton localhost injected known.0 known.1 clean.0 clean.1
