-- ===== src/Controller/Limiter/Defs.antt =====
-- `AdmissionRateLimiter`, src/core/controller/admission_rate_limiter.cpp and
-- include/gatehold/controller/admission_rate_limiter.hpp. A time point is a number of ticks of the
-- steady clock; `ticks` is the number of ticks in a millisecond, which the standard library fixes.
use sasd_gatehold.Prelude.{
  ℕ, ◌+◌, ◌-◌, ◌*◌, ◌/◌, Bool, true, false, not, ◌&&◌, List, [], ◌∷◌, ◌++◌, ltb, leb, if◌then◌else◌,
  length,
}

pub record AdmissionRateLimitConfig : Type 0 where
  pub maximum_admissions : ℕ
  pub window : ℕ

pub record AdmissionRateDecision : Type 0 where
  pub admitted : Bool
  pub retry_after : ℕ

pub record AdmissionRateLimiter : Type 0 where
  pub config : AdmissionRateLimitConfig
  pub admissions : List ℕ
  pub last_observation : ℕ
  pub has_observation : Bool

abbrev pub maximum_admission_limit : ℕ
maximum_admission_limit = 1024

abbrev pub minimum_window : ℕ
minimum_window = 100

abbrev pub maximum_window : ℕ
maximum_window = 3600000

-- The constructor.
abbrev pub limiter : AdmissionRateLimitConfig → AdmissionRateLimiter
limiter c = record { config = c; admissions = []; last_observation = 0; has_observation = false }

abbrev pub valid : AdmissionRateLimitConfig → Bool
valid c =
    ltb 0 c.maximum_admissions
    && leb c.maximum_admissions maximum_admission_limit
    && leb minimum_window c.window
    && leb c.window maximum_window

abbrev pub reset : AdmissionRateLimiter → AdmissionRateLimiter
reset l = limiter l.config

abbrev refused : ℕ → AdmissionRateDecision
refused ms = record { admitted = false; retry_after = ms }

-- The oldest admission; the caller has tested that there is one.
abbrev front : List ℕ → ℕ
front [] = 0
front (a ∷ _) = a

module _ (ticks : ℕ) where
  -- `find_if` and `erase`: what stands in front of the first admission in the window goes.
  unfoldable pub drop_expired : ℕ → ℕ → List ℕ → List ℕ
  drop_expired window now [] = []
  drop_expired window now (a ∷ xs) =
      if ltb (now - a) (window * ticks) then a ∷ xs else drop_expired window now xs

  -- `duration_cast` to milliseconds, rounded up.
  abbrev rounded_up : ℕ → ℕ
  rounded_up remaining =
      let ms = remaining / ticks in if ltb (ms * ticks) remaining then ms + 1 else ms

  -- From the erasure on.
  abbrev pub admit :
      AdmissionRateLimitConfig → ℕ → List ℕ → AdmissionRateDecision × AdmissionRateLimiter
  admit c now active =
      if leb c.maximum_admissions (length active)
      then (
        refused (rounded_up (c.window * ticks - (now - front active))),
        record { config = c; admissions = active; last_observation = now; has_observation = true },
      )
      else (
        record { admitted = true; retry_after = 0 },
        record {
          config = c;
          admissions = active ++ now ∷ [];
          last_observation = now;
          has_observation = true;
        },
      )

  unfoldable pub try_admit : ℕ → AdmissionRateLimiter → AdmissionRateDecision × AdmissionRateLimiter
  try_admit now l =
      if not (valid l.config)
      then (refused l.config.window, l)
      else if l.has_observation && ltb now l.last_observation
      then (refused l.config.window, l)
      else admit l.config now (drop_expired l.config.window now l.admissions)

  -- The times that a run of calls admits, in their order.
  unfoldable pub run : List ℕ → AdmissionRateLimiter → List ℕ
  run [] l = []
  run (now ∷ times) l =
      let (d, l') = try_admit now l in
      let rest = run times l' in if d.admitted then now ∷ rest else rest
