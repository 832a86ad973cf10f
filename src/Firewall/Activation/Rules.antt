-- ===== src/Firewall/Activation/Rules.antt =====
-- Conditions before and after an action of the activation service, one rule for each way to build an
-- action. A condition speaks of the disk, of its earlier states and of the result so far; appending
-- to the journal, reading the clock and asking for a state change none of these.
use sasd_gatehold.Prelude.{◌≡◌, refl, Bool, true, false, List, if◌then◌else◌}
use sasd_gatehold.Host.{Os, World, Disk, M, timestamp}
use sasd_gatehold.Logging.Event.{Event}
use sasd_gatehold.Logging.Journal
use sasd_gatehold.Logging.Journal.{JournalResult, append-quiet}
use sasd_gatehold.Firewall.Activation.Flow.{
  Run, Flow, next, stop, Act, then_run, ◌>>=◌, pure, lift, asks, assign, return_with, append,
  note_journal,
}

pub record Core (R : Type 0) : Type 0 where
  pub disk : Disk
  pub past : List Disk
  pub result : R

abbrev pub core_of : {R : Type 0} → World → R → Core R
core_of w r = record { disk = w.disk; past = w.past; result = r }

abbrev pub core : {R : Type 0} → Run R → Core R
core s = core_of s.world s.result

abbrev pub Post :
    {R A : Type 0} → (A → Core R → Type 0) → (Core R → Type 0) → Flow A × Run R → Type 0
Post Q Z (next a, s) = Q a (core s)
Post Q Z (stop, s) = Z (core s)

-- From `P` the action ends in `Q` of what it yields, or it returns in `Z`.
pub record Meets {R A : Type 0} (P : Core R → Type 0) (m : Act R A) (Q : A → Core R → Type 0)
    (Z : Core R → Type 0) : Type 0 where
  pub at : (s : Run R) → P (core s) → Post Q Z (m s)

note_journal-Post :
    {R : Type 0} (P Z : Core R → Type 0) (b : Bool) (e : Event) (r : JournalResult) (s : Run R)
    → P (core s)
    → Post (λ _. P) Z (note_journal b e r s)
unfolding note_journal
note_journal-Post P Z true e r s h = h
note_journal-Post P Z false e r s h = h

module _ {R : Type 0} {Z : Core R → Type 0} where
  pub Meets-bind :
      {A B : Type 0} {P : Core R → Type 0} {Q : A → Core R → Type 0} {S : B → Core R → Type 0}
      (m : Act R A) (f : A → Act R B)
      → Meets P m Q Z
      → ((a : A) → Meets (Q a) (f a) S Z)
      → Meets P (m >>= f) S Z
  unfolding ◌>>=◌
  Meets-bind {Q = Q} {S = S} m f hm hf = record { at = λ s h. after (m s) (hm.at s h) }
    where
      after : (x : Flow _ × Run R) → Post Q Z x → Post S Z (then_run x.0 f x.1)
      after (next a, s) h = (hf a).at s h
      after (stop, s) h = h

  pub Meets-pure : {A : Type 0} {Q : A → Core R → Type 0} (a : A) → Meets (Q a) (pure a) Q Z
  unfolding pure
  Meets-pure a = record { at = λ s h. h }

  pub Meets-asks : {A : Type 0} {P : Core R → Type 0} (f : Run R → A) → Meets P (asks f) (λ _. P) Z
  unfolding asks
  Meets-asks f = record { at = λ s h. h }

  -- A call whose effect on the world is known.
  pub Meets-lift :
      {A : Type 0} {P : Core R → Type 0} {Q : A → Core R → Type 0} (m : M A)
      → ((w : World) (r : R) → P (core_of w r) → Q (m w).0 (core_of (m w).1 r))
      → Meets P (lift m) Q Z
  unfolding lift
  Meets-lift m h = record { at = λ s p. h s.world s.result p }

  pub Meets-now : {P : Core R → Type 0} (os : Os) → Meets P (lift (timestamp os)) (λ _. P) Z
  Meets-now os = Meets-lift (timestamp os) (λ w r p. p)

  pub Meets-assign :
      {P : Core R → Type 0} {Q : Core R → Type 0} (f : R → R)
      → ((w : World) (r : R) → P (core_of w r) → Q (core_of w (f r)))
      → Meets P (assign f) (λ _. Q) Z
  unfolding assign
  Meets-assign f h = record { at = λ s p. h s.world s.result p }

  pub Meets-return :
      {A : Type 0} {P : Core R → Type 0} {Q : A → Core R → Type 0} (f : R → R)
      → ((w : World) (r : R) → P (core_of w r) → Z (core_of w (f r)))
      → Meets P (return_with f) Q Z
  unfolding return_with
  Meets-return f h = record { at = λ s p. h s.world s.result p }

  -- The journal is no part of the core.
  pub Meets-append : {P : Core R → Type 0} (os : Os) (e : Event) → Meets P (append os e) (λ _. P) Z
  unfolding append
  Meets-append {P} os e = record {
    at = λ s p.
        let w = (Journal.append os e s.world).1 in
        let quiet = append-quiet os e s.world in
        note_journal-Post P Z _ e _ (record s { world = w }) (rw (quiet.0, quiet.1) p);
  }

  pub Meets-if :
      {A : Type 0} {P : Core R → Type 0} {Q : A → Core R → Type 0} (b : Bool) (m n : Act R A)
      → (b ≡ true → Meets P m Q Z)
      → (b ≡ false → Meets P n Q Z)
      → Meets P (if b then m else n) Q Z
  Meets-if true m n hm hn = hm refl
  Meets-if false m n hm hn = hn refl

  pub Meets-pre :
      {A : Type 0} {P P' : Core R → Type 0} {Q : A → Core R → Type 0} {m : Act R A}
      → ((c : Core R) → P' c → P c)
      → Meets P m Q Z
      → Meets P' m Q Z
  Meets-pre f h = record { at = λ s p. h.at s (f (core s) p) }

  -- A fact that does not depend on the state may be assumed.
  pub Meets-know :
      {A K : Type 0} {P : Core R → Type 0} {Q : A → Core R → Type 0} {m : Act R A}
      → (K → Meets P m Q Z)
      → Meets (λ c. P c × K) m Q Z
  Meets-know f = record { at = λ s h. (f h.1).at s h.0 }

  -- A condition that holds for one of several indices.
  pub Meets-any :
      {A I : Type 0} {P : I → Core R → Type 0} {Q : A → Core R → Type 0} {m : Act R A}
      → ((i : I) → Meets (P i) m Q Z)
      → Meets (λ c. (i : I) × P i c) m Q Z
  Meets-any f = record { at = λ s h. (f h.0).at s h.1 }

-- A run that ends in the same condition whether it returns or comes to its end.
pub Post-either :
    {R A : Type 0} (Z : Core R → Type 0) (x : Flow A × Run R) → Post (λ _. Z) Z x → Z (core x.1)
Post-either Z (next a, s) h = h
Post-either Z (stop, s) h = h
