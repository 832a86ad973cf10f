-- ===== src/Firewall/Model/Network.antt =====
-- The bytes of the networks that src/core/firewall/model.cpp accepts.
use sasd_gatehold.Prelude.{
  ℕ, ◌≡◌, ◌≢◌, ◌⊎◌, inl, inr, refl, sym, subst, Bool, true, false, none, some, [], ◌∷◌, ◌++◌, arith,
  is_empty, All, ◌==◌, Bool-cases, Option-cases,
}
use sasd_gatehold.Text.{Bytes, text, eq_bytes, eq_bytes→≡, Printable}
use sasd_gatehold.Text.Decimal.{from_chars, from_chars-Printable}
use sasd_gatehold.Firewall.Model.Defs.{
  AddressFamily, before_slash, after_slash, c_str, prefix_ok, max_u32, parse_network,
}

abbrev pub Avoids : ℕ → Bytes → Type 0
Avoids b = All (λ c. c ≢ b)

before_slash-whole : (s : Bytes) → Avoids b'/' s → before_slash s ≡ s
unfolding before_slash
before_slash-whole [] h = refl
before_slash-whole (c ∷ s) h = ground (arith, before_slash-whole s h.1)

after_slash-none : (s : Bytes) → Avoids b'/' s → after_slash s ≡ none
unfolding after_slash
after_slash-none [] h = refl
after_slash-none (c ∷ s) h = ground (arith, after_slash-none s h.1)

c_str-append : (s t : Bytes) → Avoids 0 s → c_str (s ++ 0 ∷ t) ≡ s
unfolding c_str
c_str-append [] t h = refl
c_str-append (c ∷ s) t h = ground (arith, c_str-append s t h.1)

c_str-whole : (s : Bytes) → Avoids 0 s → c_str s ≡ s
unfolding c_str
c_str-whole [] h = refl
c_str-whole (c ∷ s) h = ground (arith, c_str-whole s h.1)

before_slash-Avoids : (b : ℕ) (s : Bytes) → Avoids b s → Avoids b (before_slash s)
unfolding before_slash
before_slash-Avoids b [] h = tt
before_slash-Avoids b (c ∷ s) h = ground (arith, before_slash-Avoids b s h.1)

-- The whole text holds no more than the address, the slash and the prefix.
split-Printable :
    (s : Bytes)
    → Printable (before_slash s)
    → ((t : Bytes) → after_slash s ≡ some t → Printable t)
    → Printable s
unfolding before_slash after_slash
split-Printable [] h k = tt
split-Printable (c ∷ s) h k = elim (Bool-cases (c == b'/')) [
  | inl e ↦ (ground arith, k s (rw e refl))
  | inr e ↦ let h' = rw e at h in (h'.0, split-Printable s h'.1 (λ t a. k t (rw e a)))
]

is_empty-append : (s : Bytes) (c : ℕ) (t : Bytes) → is_empty (s ++ c ∷ t) ≡ false
is_empty-append [] c t = refl
is_empty-append (d ∷ s) c t = refl

prefix_ok-Printable : (m : ℕ) (s : Bytes) → prefix_ok m (some s) ≡ true → Printable s
prefix_ok-Printable m s h = elim (Option-cases (from_chars max_u32 s)) [
  | inl e ↦ ground arith
  | inr (n, e) ↦ from_chars-Printable max_u32 s n e
]

module _ (inet_pton : AddressFamily → Bytes → Bool) where
  -- A network is accepted as soon as the text in front of its first NUL is not empty and an IPv4
  -- address to `inet_pton`, if it holds no slash, whatever other bytes stand behind the NUL, line
  -- feeds among them.
  pub parse_network-after_nul :
      (address junk : Bytes)
      → inet_pton AddressFamily.inet address ≡ true
      → is_empty address ≡ false
      → Avoids 0 address
      → Avoids b'/' (address ++ 0 ∷ junk)
      → (parse_network inet_pton (address ++ 0 ∷ junk)).valid ≡ true
  unfolding parse_network
  parse_network-after_nul address junk h some_byte clean whole =
      let b = before_slash-whole (address ++ 0 ∷ junk) whole in
      let a = after_slash-none (address ++ 0 ∷ junk) whole in
      let c = c_str-append address junk clean in
      let n = is_empty-append address 0 junk in rw (b, a, c) (ground arith)

  -- What the documentation of `inet_pton` says of the texts that it accepts.
  abbrev pub Numeric : Type 0
  Numeric = (f : AddressFamily) (s : Bytes) → inet_pton f s ≡ true → Printable s

  any-Printable : Printable (text "any")
  unfolding text
  any-Printable = omega arith

  parsed-cases :
      (n : Bytes)
      → (parse_network inet_pton n).valid ≡ true
      → (n ≡ text "any")
        ⊎ ((f : AddressFamily) × (m : ℕ) × (inet_pton f (c_str (before_slash n)) ≡ true)
            × (prefix_ok m (after_slash n) ≡ true))
  unfolding parse_network
  parsed-cases n h = elim (Bool-cases (eq_bytes n (text "any"))) [
    | inl e ↦ inl (eq_bytes→≡ n (text "any") e)
    | inr e ↦ elim (Bool-cases (inet_pton AddressFamily.inet (c_str (before_slash n)))) [
      | inl i ↦ inr (AddressFamily.inet, 32, i, ground arith)
      | inr i ↦ inr (AddressFamily.inet6, 128, ground arith, ground arith)
    ]
  ]

  -- A network that is accepted and holds no NUL holds no control byte either.
  pub parse_network-Printable :
      (n : Bytes) → Numeric → Avoids 0 n → (parse_network inet_pton n).valid ≡ true → Printable n
  parse_network-Printable n numeric clean h = elim (parsed-cases n h) [
    | inl e ↦ subst Printable (sym e) any-Printable
    | inr (f, m, address, prefix) ↦
        let whole = c_str-whole (before_slash n) (before_slash-Avoids 0 n clean) in
        split-Printable n (subst Printable whole (numeric f (c_str (before_slash n)) address))
          (λ t a. prefix_ok-Printable m t (subst (λ o. prefix_ok m o ≡ true) a prefix))
  ]
