-- ===== src/Firewall/Model/RuleSets.antt =====
-- What the validation of a ruleset means, src/core/firewall/model.cpp.
use sasd_gatehold.Prelude.{
  ℕ, ◌+◌, ◌≡◌, ◌≢◌, ◌↔◌, inl, inr, refl, sym, ap, Bool, true, false, List, [], ◌∷◌, ◌++◌, arith,
  is_empty, All, ◌==◌, Bool-cases,
}
use sasd_gatehold.Text.{Bytes, text, eq_bytes, eq_bytes→≡, eq_bytes_refl}
use sasd_gatehold.Firewall.Model.Defs.{
  AddressFamily, Rule, RuleSet, ValidationReport, validate_rule, add_if, issue, located, relocate,
  mentions, validate_rules, validate,
}
use sasd_gatehold.Firewall.Model.Valid.{ValidRule, IsRuleId, is_empty-append, validate_rule-Valid}

abbrev pub Distinct : List Rule → Type 0
Distinct [] = Unit
Distinct (r ∷ rs) = All (λ q. r.id ≢ q.id) rs × Distinct rs

IsRuleId-ne_empty : (s : Bytes) → IsRuleId s → is_empty s ≡ false
IsRuleId-ne_empty [] h = absurd h
IsRuleId-ne_empty (c ∷ s) h = refl

eq_bytes_ne : (a b : Bytes) → (eq_bytes a b ≡ false) ↔ (b ≢ a)
eq_bytes_ne a b = (
  λ h e. let same = eq_bytes_refl a in cc (h, ap (λ x. eq_bytes a x) e, same),
  λ ne. elim (Bool-cases (eq_bytes a b)) [
    | inl same ↦ absurd (ne (sym (eq_bytes→≡ a b same)))
    | inr other ↦ other
  ],
)

module _ (inet_pton : AddressFamily → Bytes → Bool) where
  abbrev Unseen : List Bytes → List Rule → Type 0
  Unseen seen = All (λ (q : Rule). mentions inet_pton q.id seen ≡ false)

  Unseen-cons :
      (a : Bytes) (seen : List Bytes) (rs : List Rule)
      → Unseen (a ∷ seen) rs ↔ (All (λ (q : Rule). a ≢ q.id) rs × Unseen seen rs)
  unfolding mentions
  Unseen-cons a seen [] = (λ h. (tt, tt), λ h. tt)
  Unseen-cons a seen (q ∷ rs) =
      let (f, g) = Unseen-cons a seen rs in
      let (e, e') = eq_bytes_ne q.id a in
      (
        λ h. ((e (ground arith), (f h.1).0), (ground arith, (f h.1).1)),
        λ h. (ground (arith, e' h.0.0), g (h.0.1, h.1.1)),
      )

  relocate-empty :
      (index : ℕ) (a : ValidationReport)
      → (is_empty (relocate inet_pton index a) ≡ true) ↔ (is_empty a ≡ true)
  unfolding relocate
  relocate-empty index [] = (λ h. h, λ h. h)
  relocate-empty index (i ∷ a) = (λ h. h, λ h. h)

  -- The rules behind the first ones, whose identifiers are in the set.
  abbrev Good : List Bytes → List Rule → Type 0
  Good seen rs = All (ValidRule inet_pton) rs × Unseen seen rs × Distinct rs

  -- The issues of one rule that has an identifier, and of those behind it.
  validate_rules-cons :
      (index : ℕ) (seen : List Bytes) (r : Rule) (rs : List Rule)
      → is_empty r.id ≡ false
      → (is_empty (validate_rules inet_pton index seen (r ∷ rs)) ≡ true) ↔ (
          (is_empty (validate_rule inet_pton r) ≡ true)
          × (mentions inet_pton r.id seen ≡ false)
          × (is_empty (validate_rules inet_pton (index + 1) (r.id ∷ seen) rs) ≡ true))
  unfolding validate_rules
  validate_rules-cons index seen r rs some_id =
      let own = relocate inet_pton index (validate_rule inet_pton r) in
      let twice = add_if (mentions inet_pton r.id seen) (
        issue (text "GH-CFG-1010") (located inet_pton index (text "id"))
          "Rule IDs must be unique within a ruleset.") in
      let behind = validate_rules inet_pton (index + 1) (r.id ∷ seen) rs in
      let (here, here') = relocate-empty index (validate_rule inet_pton r) in
      let (f, g) = is_empty-append own (twice ++ behind) in
      let (f', g') = is_empty-append twice behind in
      rw some_id (
        λ h. (here (f h).0, ground (arith, (f' (f h).1).0), (f' (f h).1).1),
        λ h. g (here' h.0, g' (ground arith, h.2)),
      )

  validate_rules-Good :
      (index : ℕ) (seen : List Bytes) (rs : List Rule)
      → (is_empty (validate_rules inet_pton index seen rs) ≡ true) ↔ Good seen rs
  unfolding validate_rules
  validate_rules-Good index seen [] = (λ h. (tt, tt, tt), λ h. refl)
  validate_rules-Good index seen (r ∷ rs) =
      let (rule, rule') = validate_rule-Valid inet_pton r in
      let own = relocate inet_pton index (validate_rule inet_pton r) in
      let (f, g) = validate_rules-Good (index + 1) (r.id ∷ seen) rs in
      let (u, u') = Unseen-cons r.id seen rs in
      (
        λ h.
            let valid = rule (
              (relocate-empty index (validate_rule inet_pton r)).0
                ((is_empty-append own _).0 h).0) in
            let (e1, e2, e3) =
              (validate_rules-cons index seen r rs (IsRuleId-ne_empty r.id valid.id)).0 h in
            let (vs, us, ds) = f e3 in ((valid, vs), (e2, (u us).1), ((u us).0, ds)),
        λ h.
            (validate_rules-cons index seen r rs (IsRuleId-ne_empty r.id h.0.0.id)).1
              (rule' h.0.0, h.1.0, g (h.0.1, u' (h.2.0, h.1.1), h.2.1)),
      )

  Unseen-nil : (rs : List Rule) → Unseen [] rs
  unfolding mentions
  Unseen-nil [] = tt
  Unseen-nil (r ∷ rs) = (refl, Unseen-nil rs)

  -- Whatever `inet_pton` accepts: the report on a ruleset is empty exactly if the revision is not
  -- 0, every rule is valid, and no two rules have the same identifier. A rule is valid
  -- (`ValidRule`) if its identifier, description and interface are of the allowed length and
  -- bytes, both networks are accepted, the address families of the rule and of both networks fit
  -- in pairs, ports stand only with TCP or UDP, and ICMP and ICMPv6 do not stand with the other
  -- family.
  pub validate-Valid :
      (s : RuleSet)
      → (is_empty (validate inet_pton s) ≡ true)
        ↔ ((s.revision ≢ 0) × All (ValidRule inet_pton) s.rules × Distinct s.rules)
  unfolding validate
  validate-Valid s =
      let (f, g) = validate_rules-Good 0 [] s.rules in
      let zero_issue = add_if (s.revision == 0) (
        issue (text "GH-CFG-1011") (text "revision")
          "Revision number must be greater than zero.") in
      let (k, k') = is_empty-append zero_issue (validate_rules inet_pton 0 [] s.rules) in
      (
        λ h. let (vs, us, ds) = f (k h).1 in (let e = (k h).0 in ground arith, vs, ds),
        λ h. k' (ground arith, g (h.1, Unseen-nil s.rules, h.2)),
      )
