-- ===== src/Firewall/Renderer/Lines.antt =====
-- The lines of a rendered ruleset, src/core/firewall/pf_renderer.cpp.
use sasd_gatehold.Prelude.{
  ℕ, ◌≤◌, ◌≡◌, ◌≢◌, refl, ap, ◌∙◌, Bool, true, false, Option, none, some, List, [], ◌∷◌, ◌++◌,
  arith, if◌then◌else◌, is_empty, All, Bool-cases, inl, inr,
}
use sasd_gatehold.Text.{
  Bytes, OneLine, Printable, Printable-append, Printable-OneLine, print_lines, text,
}
use sasd_gatehold.Text.Decimal.{to_string, to_string-Printable}
use sasd_gatehold.Firewall.Model.Defs.{
  AddressFamily, Direction, Protocol, Action, Endpoint, Rule, RuleSet, validate, report_ok,
  is_identifier_character,
}
use sasd_gatehold.Firewall.Model.Network.{Avoids, Numeric, parse_network-Printable}
use sasd_gatehold.Firewall.Model.Valid.{ValidRule, IsRuleId, IsInterface}
use sasd_gatehold.Firewall.Model.RuleSets.{validate-Valid}
use sasd_gatehold.Firewall.Renderer.Defs.{
  written, action_text, direction_text, family_text, protocol_text, append_token, port_text,
  append_endpoint, proto_text, statement, heading, append_rule, disabled_heading, append_rules,
  append_header, render, is_pass,
}

abbrev pub rule_lines : Rule → List Bytes
rule_lines r = if r.enabled then [] ∷ heading r ∷ statement r ∷ [] else [] ∷ disabled_heading r ∷ []

pub rules_lines : List Rule → List Bytes
rules_lines [] = []
rules_lines (r ∷ rs) = rule_lines r ++ rules_lines rs

abbrev pub header_lines : ℕ → List Bytes
header_lines revision =
    text "# Generated by SASD Gatehold. DO NOT EDIT."
    ∷ (text "# Configuration revision: " ++ to_string revision)
    ∷ []
    ∷ text "set block-policy drop"
    ∷ text "set skip on lo"
    ∷ []
    ∷ text "block log all"
    ∷ []

append_rules-lines : (rs : List Rule) → append_rules rs ≡ print_lines (rules_lines rs)
unfolding append_rules append_rule print_lines rules_lines
append_rules-lines [] = refl
append_rules-lines (r ∷ rs) = elim (Bool-cases r.enabled) [
  | inl e ↦ rw e (rw (append_rules-lines rs) refl)
  | inr e ↦ rw e (rw (append_rules-lines rs) refl)
]

append_header-lines :
    (n : ℕ) (ls : List Bytes)
    → append_header n (print_lines ls) ≡ print_lines (header_lines n ++ ls)
unfolding append_header print_lines
append_header-lines n ls = refl

Printable-written : (ss : List Bytes) → All Printable ss → Printable (written ss)
unfolding written
Printable-written [] h = tt
Printable-written (s ∷ ss) h = Printable-append s (written ss) h.0 (Printable-written ss h.1)

identifier-Printable : (s : Bytes) → All (λ c. is_identifier_character c ≡ true) s → Printable s
identifier-Printable [] h = tt
identifier-Printable (c ∷ s) h = (ground arith, identifier-Printable s h.1)

rule_id-Printable : (s : Bytes) → IsRuleId s → Printable s
rule_id-Printable [] h = tt
rule_id-Printable (c ∷ s) h = identifier-Printable (c ∷ s) h.2

interface-Printable : (s : Bytes) → IsInterface s → Printable s
interface-Printable [] h = tt
interface-Printable (c ∷ s) h = identifier-Printable (c ∷ s) h.2

description-Printable : (s : Bytes) → All (λ c. (32 ≤ c) × (c ≢ 127)) s → Printable s
description-Printable [] h = tt
description-Printable (c ∷ s) h = (h.0.0, description-Printable s h.1)

append_token-Printable : (s : Bytes) → Printable s → Printable (append_token s)
unfolding append_token
append_token-Printable [] h = tt
append_token-Printable (c ∷ s) h = (omega arith, h)

port_text-Printable : (p : Option ℕ) → Printable (port_text p)
unfolding port_text
port_text-Printable none = tt
port_text-Printable (some p) =
    Printable-append (text " port ") (to_string p) (unfold text in omega arith)
      (to_string-Printable p)

append_endpoint-Printable :
    (keyword : Bytes) (e : Endpoint)
    → Printable keyword
    → Printable e.network
    → Printable (append_endpoint keyword e)
unfolding append_endpoint
append_endpoint-Printable keyword e hk hn =
    Printable-written _
      ((omega arith, tt), (hk, ((omega arith, tt), (hn, (port_text-Printable e.port, tt)))))

action_text-Printable : (a : Action) → Printable (action_text a)
unfolding action_text text
action_text-Printable Action.block = omega arith
action_text-Printable Action.pass = omega arith

direction_text-Printable : (d : Direction) → Printable (direction_text d)
unfolding direction_text text
direction_text-Printable Direction.any = tt
direction_text-Printable Direction.inbound = omega arith
direction_text-Printable Direction.outbound = omega arith

family_text-Printable : (f : AddressFamily) → Printable (family_text f)
unfolding family_text text
family_text-Printable AddressFamily.any = tt
family_text-Printable AddressFamily.inet = omega arith
family_text-Printable AddressFamily.inet6 = omega arith

proto_text-Printable : (p : Protocol) → Printable (proto_text p)
unfolding proto_text protocol_text text
proto_text-Printable Protocol.any = tt
proto_text-Printable Protocol.tcp = omega arith
proto_text-Printable Protocol.udp = omega arith
proto_text-Printable Protocol.icmp = omega arith
proto_text-Printable Protocol.icmp6 = omega arith

-- A text that is written under a test.
optional-Printable : (b : Bool) (s : Bytes) → Printable s → Printable (if b then s else [])
optional-Printable true s h = h
optional-Printable false s h = tt

unless-Printable : (b : Bool) (s : Bytes) → Printable s → Printable (if b then [] else s)
unless-Printable true s h = tt
unless-Printable false s h = h

module _ (inet_pton : AddressFamily → Bytes → Bool) (numeric : Numeric inet_pton) where
  -- No network of the rule holds a NUL.
  abbrev pub Whole : Rule → Type 0
  Whole r = Avoids 0 r.source.network × Avoids 0 r.destination.network

  heading-Printable : (r : Rule) → ValidRule inet_pton r → Printable (heading r)
  unfolding heading
  heading-Printable r v = Printable-written _ (
    unfold text in omega arith,
    (
      rule_id-Printable r.id v.id,
      (
        unless-Printable (is_empty r.description) (text ": " ++ r.description) (
            Printable-append (text ": ") r.description (unfold text in omega arith)
              (description-Printable r.description v.description.1)),
        tt,
      ),
    ),
  )

  disabled_heading-Printable : (r : Rule) → ValidRule inet_pton r → Printable (disabled_heading r)
  unfolding disabled_heading
  disabled_heading-Printable r v =
      Printable-append (text "# disabled rule ") r.id (unfold text in omega arith)
        (rule_id-Printable r.id v.id)

  statement-Printable : (r : Rule) → ValidRule inet_pton r → Whole r → Printable (statement r)
  unfolding statement
  statement-Printable r v w =
      let source = parse_network-Printable inet_pton r.source.network numeric w.0 v.source in
      let destination =
        parse_network-Printable inet_pton r.destination.network numeric w.1 v.destination in
      Printable-written _ (
        action_text-Printable r.action,
        (
          append_token-Printable _ (direction_text-Printable r.direction),
          (
            optional-Printable r.log (text " log") (unfold text in omega arith),
            (
              optional-Printable r.quick (text " quick") (unfold text in omega arith),
              (
                unless-Printable (is_empty r.interface) (text " on " ++ r.interface) (
                    Printable-append (text " on ") r.interface (unfold text in omega arith)
                      (interface-Printable r.interface v.interface)),
                (
                  append_token-Printable _ (family_text-Printable r.address_family),
                  (
                    proto_text-Printable r.protocol,
                    (
                      append_endpoint-Printable (text "from") r.source (unfold text in omega arith)
                          source,
                      (
                        append_endpoint-Printable (text "to") r.destination
                            (unfold text in omega arith) destination,
                        (
                          optional-Printable (is_pass r.action) (text " keep state")
                              (unfold text in omega arith),
                          tt,
                        ),
                      ),
                    ),
                  ),
                ),
              ),
            ),
          ),
        ),
      )

  rules_lines-OneLine :
      (rs : List Rule) → All (ValidRule inet_pton) rs → All Whole rs → All OneLine (rules_lines rs)
  unfolding rules_lines heading statement disabled_heading
  rules_lines-OneLine [] v w = tt
  rules_lines-OneLine (r ∷ rs) v w =
      let rest = rules_lines-OneLine rs v.1 w.1 in
      elim (Bool-cases r.enabled) [
        | inl e ↦ rw e (
          tt,
          (
            Printable-OneLine (heading r) (heading-Printable r v.0),
            (Printable-OneLine (statement r) (statement-Printable r v.0 w.0), rest),
          ),
        )
        | inr e ↦
            rw e (
              tt,
              (Printable-OneLine (disabled_heading r) (disabled_heading-Printable r v.0), rest),
            )
      ]

  header_lines-OneLine :
      (n : ℕ) (ls : List Bytes) → All OneLine ls → All OneLine (header_lines n ++ ls)
  header_lines-OneLine n ls h =
      let line =
        Printable-append (text "# Configuration revision: ") (to_string n)
          (unfold text in omega arith) (to_string-Printable n) in
      (
        unfold text in omega arith,
        (
          Printable-OneLine _ line,
          (
            tt,
            (
              unfold text in omega arith,
              (unfold text in omega arith, (tt, (unfold text in omega arith, h))),
            ),
          ),
        ),
      )

  -- If `inet_pton` accepts only texts without control bytes, as documented, and no network of a
  -- rule holds a NUL: the text that is rendered for a ruleset with an empty report is exactly the
  -- seven lines of the header, then for each rule an empty line and its comment and, if it is
  -- enabled, its statement, and none of these lines holds a line feed. So no field of a rule can
  -- add a line to the ruleset.
  pub render-OneLine :
      (s : RuleSet)
      → report_ok (render inet_pton s).validation ≡ true
      → All Whole s.rules
      → let ls = header_lines s.revision ++ rules_lines s.rules in
        ((render inet_pton s).rule_text ≡ print_lines ls) × All OneLine ls
  unfolding render
  render-OneLine s ok w =
      let ok' : is_empty (validate inet_pton s) ≡ true = ground arith in
      let (_, valid, _) = (validate-Valid inet_pton s).0 ok' in
      (
        rw ok' (
            ap (append_header s.revision) (append_rules-lines s.rules)
            ∙ append_header-lines s.revision (rules_lines s.rules)),
        header_lines-OneLine s.revision (rules_lines s.rules) (rules_lines-OneLine s.rules valid w),
      )
