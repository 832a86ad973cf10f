-- ===== src/Controller/Limiter/Bound.antt =====
-- The admissions in a window, src/core/controller/admission_rate_limiter.cpp.
use sasd_gatehold.Prelude.{
  ℕ, suc, ◌+◌, ◌-◌, ◌*◌, ◌≤◌, ◌≡◌, refl, sym, ◌∙◌, ap, inl, inr, Bool, true, false, not, ◌&&◌,
  subst, List, [], ◌∷◌, ◌++◌, append_assoc, append-nil, arith, All, ltb, leb, if◌then◌else◌, length,
  length-append, Bool-cases,
}
use sasd_gatehold.Controller.Limiter.Defs.{
  AdmissionRateLimitConfig, AdmissionRateDecision, AdmissionRateLimiter, limiter, valid,
  drop_expired, admit, try_admit, run,
}

-- How many of the admissions are in force at the instant `t`: not after it, and with less than a
-- window of `span` ticks between.
abbrev pub in_force : ℕ → ℕ → List ℕ → ℕ
in_force span t [] = 0
in_force span t (a ∷ xs) =
    let rest = in_force span t xs in if leb a t && ltb t (a + span) then suc rest else rest

module _ (span : ℕ) where
  in_force-append :
      (t : ℕ) (xs ys : List ℕ)
      → in_force span t (xs ++ ys) ≡ in_force span t xs + in_force span t ys
  in_force-append t [] ys = omega arith
  in_force-append t (a ∷ xs) ys = ground (arith, in_force-append t xs ys)

  in_force-length : (t : ℕ) (xs : List ℕ) → in_force span t xs ≤ length xs
  in_force-length t [] = omega arith
  in_force-length t (a ∷ xs) = ground (arith, in_force-length t xs)

  abbrev Expired : ℕ → List ℕ → Type 0
  Expired now = All (λ a. a + span ≤ now)

  in_force-Expired : (now t : ℕ) (xs : List ℕ) → now ≤ t → Expired now xs → in_force span t xs ≡ 0
  in_force-Expired now t [] k h = refl
  in_force-Expired now t (a ∷ xs) k h = ground (arith, in_force-Expired now t xs k h.1)

  Expired-later : (past now : ℕ) (xs : List ℕ) → past ≤ now → Expired past xs → Expired now xs
  Expired-later past now [] k h = tt
  Expired-later past now (a ∷ xs) k h = (omega (arith, h.0), Expired-later past now xs k h.1)

  Expired-append :
      (now : ℕ) (xs ys : List ℕ) → Expired now xs → Expired now ys → Expired now (xs ++ ys)
  Expired-append now [] ys h k = k
  Expired-append now (a ∷ xs) ys h k = (h.0, Expired-append now xs ys h.1 k)

-- What is dropped has expired.
drop_expired-split :
    (ticks window now : ℕ) (xs : List ℕ)
    → 1 ≤ window * ticks
    → (d : List ℕ) × (xs ≡ d ++ drop_expired ticks window now xs) × Expired (window * ticks) now d
unfolding drop_expired
drop_expired-split ticks window now [] positive = ([], refl, tt)
drop_expired-split ticks window now (a ∷ xs) positive =
    elim (Bool-cases (ltb (now - a) (window * ticks))) [
      | inl e ↦ ([], ground arith, tt)
      | inr e ↦
          (let (d, s, h) = drop_expired-split ticks window now xs positive in
            (a ∷ d, ground (arith, s), (ground arith, h)))
    ]

module _ (ticks : ℕ) (c : AdmissionRateLimitConfig) where
  abbrev span : ℕ
  span = c.window * ticks

  -- The limiter has admitted `history`, its oldest part has expired and is forgotten.
  record Within (l : AdmissionRateLimiter) (history : List ℕ) : Type 0 where
    configured : l.config ≡ c
    forgotten : List ℕ
    split : history ≡ forgotten ++ l.admissions
    expired : Expired span l.last_observation forgotten
    bounded : (t : ℕ) → in_force span t history ≤ c.maximum_admissions
    unobserved : l.has_observation ≡ false → l.last_observation ≡ 0

  abbrev extend : Bool → ℕ → List ℕ → List ℕ
  extend b now history = if b then history ++ now ∷ [] else history

  bounded_before :
      (now t : ℕ) (history : List ℕ)
      → suc t ≤ now
      → in_force span t history ≤ c.maximum_admissions
      → in_force span t (history ++ now ∷ []) ≤ c.maximum_admissions
  bounded_before now t history k h = ground (arith, in_force-append span t history (now ∷ []))

  bounded_after :
      (now t : ℕ) (d active : List ℕ)
      → now ≤ t
      → Expired span now d
      → suc (length active) ≤ c.maximum_admissions
      → in_force span t (d ++ (active ++ now ∷ [])) ≤ c.maximum_admissions
  bounded_after now t d active k h n = omega (
    arith,
    in_force-append span t d (active ++ now ∷ []),
    in_force-Expired span now t d k h,
    in_force-length span t (active ++ now ∷ []),
    length-append active (now ∷ []),
    n,
  )

  -- What a call answers and leaves keeps the condition.
  abbrev After : ℕ → List ℕ → AdmissionRateDecision × AdmissionRateLimiter → Type 0
  After now history x = Within x.1 (extend x.0.admitted now history)

  After-if :
      (now : ℕ) (history : List ℕ) (b : Bool) (x y : AdmissionRateDecision × AdmissionRateLimiter)
      → (b ≡ true → After now history x)
      → (b ≡ false → After now history y)
      → After now history (if b then x else y)
  After-if now history true x y h k = h refl
  After-if now history false x y h k = k refl

  bounded_admission :
      (now t : ℕ) (history d active : List ℕ)
      → history ≡ d ++ active
      → Expired span now d
      → suc (length active) ≤ c.maximum_admissions
      → in_force span t history ≤ c.maximum_admissions
      → in_force span t (history ++ now ∷ []) ≤ c.maximum_admissions
  bounded_admission now t history d active s h n b = elim (Bool-cases (ltb t now)) [
    | inl e ↦ bounded_before now t history (ground arith) b
    | inr e ↦
        rw (s, append_assoc d active (now ∷ [])) (bounded_after now t d active (ground arith) h n)
  ]

  admit-Within :
      (now : ℕ) (history d active : List ℕ)
      → history ≡ d ++ active
      → Expired span now d
      → ((t : ℕ) → in_force span t history ≤ c.maximum_admissions)
      → After now history (admit ticks c now active)
  admit-Within now history d active s h b =
      After-if now history (leb c.maximum_admissions (length active)) _ _
        (λ full. record {
          configured = refl;
          forgotten = d;
          split = s;
          expired = h;
          bounded = b;
          unobserved = λ u. cc;
        })
        (λ free. record {
          configured = refl;
          forgotten = d;
          split = rw s (append_assoc d active (now ∷ []));
          expired = h;
          bounded = λ t. bounded_admission now t history d active s h (ground arith) (b t);
          unobserved = λ u. cc;
        })

  try_admit-Within :
      (now : ℕ) (l : AdmissionRateLimiter) (history : List ℕ)
      → 1 ≤ span
      → Within l history
      → After now history (try_admit ticks now l)
  unfolding try_admit
  try_admit-Within now l history positive h =
      After-if now history (not (valid l.config)) _ _ (λ _. h)
        λ _.
          After-if now history (l.has_observation && ltb now l.last_observation) _ _ (λ _. h)
            λ order.
              let later : l.last_observation ≤ now = (elim (Bool-cases l.has_observation) [
                | inl e ↦ ground arith
                | inr e ↦ omega (arith, h.unobserved e)
              ]) in
              let (d, s, x) = drop_expired-split ticks c.window now l.admissions positive in
              rw (h.configured) (
                admit-Within now history (h.forgotten ++ d)
                  (drop_expired ticks c.window now l.admissions)
                  (h.split ∙ ap (λ xs. h.forgotten ++ xs) s ∙ sym (append_assoc h.forgotten d _))
                  (Expired-append span now h.forgotten d
                    (Expired-later span l.last_observation now h.forgotten later h.expired) x)
                  h.bounded)

  run-Within :
      (times : List ℕ) (l : AdmissionRateLimiter) (history : List ℕ) (t : ℕ)
      → 1 ≤ span
      → Within l history
      → in_force span t (history ++ run ticks times l) ≤ c.maximum_admissions
  unfolding run
  run-Within [] l history t positive h = rw (append-nil history) (h.bounded t)
  run-Within (now ∷ times) l history t positive h =
      let x = try_admit ticks now l in
      run_after now times history t x.0.admitted (run ticks times x.1) (
        run-Within times x.1 (extend x.0.admitted now history) t positive
          (try_admit-Within now l history positive h))
    where
      run_after :
          (now : ℕ) (times history : List ℕ) (t : ℕ) (b : Bool) (rest : List ℕ)
          → in_force span t (extend b now history ++ rest) ≤ c.maximum_admissions
          → in_force span t (history ++ (if b then now ∷ rest else rest)) ≤ c.maximum_admissions
      run_after now times history t true rest h =
          subst (λ xs. in_force span t xs ≤ c.maximum_admissions)
            (append_assoc history (now ∷ []) rest) h
      run_after now times history t false rest h = h

-- Whatever the times of the calls, in order or not, and at whatever instant one looks, the
-- admissions of a new limiter that are not after that instant and less than a window before it
-- are at most the configured maximum. The window must be at least one tick of the clock.
pub run-in_force :
    (ticks : ℕ) (c : AdmissionRateLimitConfig) (times : List ℕ) (t : ℕ)
    → 1 ≤ c.window * ticks
    → in_force (c.window * ticks) t (run ticks times (limiter c)) ≤ c.maximum_admissions
run-in_force ticks c times t positive = run-Within ticks c times (limiter c) [] t positive (record {
  configured = refl;
  forgotten = [];
  split = refl;
  expired = tt;
  bounded = λ t. omega arith;
  unobserved = λ _. refl;
})
