-- ===== src/Controller/Service/History.antt =====
-- The admissions that the loop of src/core/controller/controller_service.cpp has made, and what its
-- counters say of them.
use sasd_gatehold.Prelude.{
  ℕ, zero, suc, ◌+◌, ◌≡◌, refl, inl, inr, Bool, true, false, ◌&&◌, Option, none, some, List, [],
  ◌∷◌, arith, Bool-cases, subst, if◌then◌else◌,
}
use sasd_gatehold.Host.{Os, World}
use sasd_gatehold.Controller.Listener.Defs as Listener
use sasd_gatehold.Controller.Listener.Defs.{
  LocalListenerStatus, LocalListenerResult, ControllerConnectionAcceptor,
}
use sasd_gatehold.Controller.Service.Defs.{
  ControllerServiceConfig, increment_saturated, valid_config,
}
use sasd_gatehold.Controller.Service.Loop.{
  Loop, failed_session, after_rate_limit, count_admission, judge_round, round, loop,
}
use sasd_gatehold.Controller.Service.Steps.{loop-stopped, loop-left, loop-goes_on}
use sasd_gatehold.Controller.Service.Bounds.{Running, Ended, AllEnded, loop-AllEnded}

-- A status that the loop counts xs an error of the listener.
abbrev pub is_failure : LocalListenerStatus → Bool
is_failure Listener.session_completed = false
is_failure Listener.accept_timed_out = false
is_failure Listener.rate_limited = false
is_failure _ = true

abbrev is_session : LocalListenerStatus → Bool
is_session Listener.session_completed = true
is_session _ = false

abbrev is_timeout : LocalListenerStatus → Bool
is_timeout Listener.accept_timed_out = true
is_timeout _ = false

abbrev is_limited : LocalListenerStatus → Bool
is_limited Listener.rate_limited = true
is_limited _ = false

-- How many of the admissions are of a kind, up to the largest value of a counter.
abbrev pub tally : (LocalListenerResult → Bool) → List LocalListenerResult → ℕ
tally f [] = 0
tally f (a ∷ xs) = let n = tally f xs in if f a then increment_saturated n else n

-- How many of the last admissions, the last one first, have failed in a row.
abbrev pub failed_in_a_row : List LocalListenerResult → ℕ
failed_in_a_row [] = 0
failed_in_a_row (a ∷ xs) = let n = failed_in_a_row xs in if is_failure a.status then n + 1 else 0

-- The counters are those of these admissions.
pub record Tallied {L : Type 0} (xs : List LocalListenerResult) (s : Loop L) : Type 0 where
  pub sessions : s.output.sessions_handled ≡ tally (λ a. is_session a.status) xs
  pub failures :
      s.output.protocol_failures ≡ tally (λ a. is_session a.status && failed_session a.session) xs
  pub timeouts : s.output.accept_timeouts ≡ tally (λ a. is_timeout a.status) xs
  pub limited : s.output.rate_limited_connections ≡ tally (λ a. is_limited a.status) xs
  pub errors : s.output.listener_errors ≡ tally (λ a. is_failure a.status) xs
  pub in_a_row : s.consecutive_errors ≡ failed_in_a_row xs

module _ {L : Type 0} (os : Os) (acceptor : ControllerConnectionAcceptor L)
    (config : ControllerServiceConfig) where
  abbrev admission : Loop L → World → LocalListenerResult
  admission s w =
      (acceptor.serve_one config.accept_poll_interval config.session_io_timeout s.shared w).0.0

  count_admission-Tallied :
      (a : LocalListenerResult) (xs : List LocalListenerResult) (s : Loop L) (w : World)
      → Tallied xs s
      → Tallied (a ∷ xs) (count_admission os acceptor config a s w).0
  unfolding count_admission after_rate_limit
  count_admission-Tallied a xs s w h = ground arith

  judge_round-Tallied :
      (xs : List LocalListenerResult) (s : Loop L) (w : World)
      → Tallied xs s
      → Tallied xs (judge_round os acceptor config s w).0.1
  unfolding judge_round
  judge_round-Tallied xs s w h = ground arith

  round-Tallied :
      (xs : List LocalListenerResult) (s : Loop L) (w : World)
      → Tallied xs s
      → Tallied (admission s w ∷ xs) (round os acceptor config s w).0.1
  unfolding round
  round-Tallied xs s w h =
      let served =
        acceptor.serve_one config.accept_poll_interval config.session_io_timeout s.shared w in
      let s1 : Loop L = record s { shared = served.0.1 } in
      let counted = count_admission os acceptor config served.0.0 s1 served.1 in
      let h1 : Tallied xs s1 = record {
        sessions = h.sessions;
        failures = h.failures;
        timeouts = h.timeouts;
        limited = h.limited;
        errors = h.errors;
        in_a_row = h.in_a_row;
      } in
      judge_round-Tallied (served.0.0 ∷ xs) counted.0 counted.1
        (count_admission-Tallied served.0.0 xs s1 served.1 h1)

  module _ (begin : Loop L) (w0 : World) where
    -- The loop has come from its beginning to `s` and `w` by one round for each of these admissions,
    -- the last one first.
    abbrev pub History : List LocalListenerResult → Loop L → World → Type 0
    History [] s w = (s ≡ begin) × (w ≡ w0)
    History (a ∷ xs) s w =
        (s' : Loop L) × (w' : World) × History xs s' w'
        × (a ≡ admission s' w')
        × (s ≡ (round os acceptor config s' w').0.1)
        × (w ≡ (round os acceptor config s' w').1)

    -- The counters are those of the admissions that the loop has made.
    abbrev pub Told : Loop L → World → Type 0
    Told s w = (xs : List LocalListenerResult) × History xs s w × Tallied xs s

    round-Told :
        (s : Loop L) (w : World) → Told s w → let r = round os acceptor config s w in Told r.0.1 r.1
    round-Told s w (xs, h, t) =
        (admission s w ∷ xs, (s, w, h, refl, refl, refl), round-Tallied xs s w t)

    abbrev AllTold : Option (Loop L) → World → Type 0
    AllTold none w = Unit
    AllTold (some s) w = Told s w

    loop-AllTold :
        (stops : ℕ → Bool) (fuel n : ℕ) (s : Loop L) (w : World)
        → Told s w
        → let r = loop os acceptor config stops fuel n s w in AllTold r.0 r.1
    loop-AllTold stops zero n s w h = unfold loop in tt
    loop-AllTold stops (suc fuel) n s w h = elim (Bool-cases (stops n)) [
      | inl e ↦ rw (loop-stopped os acceptor config stops fuel n s w e) h
      | inr e ↦
          let r = round os acceptor config s w in
          let h' = round-Told s w h in
          elim (Bool-cases r.0.0) [
            | inl over ↦ rw (loop-left os acceptor config stops fuel n s w e over) h'
            | inr on ↦
                rw (loop-goes_on os acceptor config stops fuel n s w e on)
                  (loop-AllTold stops fuel (n + 1) r.0.1 r.1 h')
          ]
    ]

  -- The loop of a valid configuration, started in the state that `Running` describes with all
  -- counters 0, can end in three ways only: stopped, with fewer errors in a row than the limit;
  -- with status `listener_failed`, with exactly the limit of errors in a row; with status
  -- `audit_failed`. In each there is the list of the answers that the listener gave, one for each
  -- round from the beginning to the end, and the counters are those of this list: sessions,
  -- failed sessions, timeouts, limited connections and errors are the numbers of such answers, up
  -- to the largest value of a counter, and the errors in a row are the failures since the last
  -- answer that was not one.
  pub loop-Ended :
      (stops : ℕ → Bool) (fuel n : ℕ) (s s' : Loop L) (w : World)
      → valid_config config ≡ true
      → Running os acceptor config config.maximum_consecutive_listener_errors s
      → Tallied [] s
      → (loop os acceptor config stops fuel n s w).0 ≡ some s'
      → Ended os acceptor config config.maximum_consecutive_listener_errors s'
        × Told s w s' (loop os acceptor config stops fuel n s w).1
  loop-Ended stops fuel n s s' w v h t e =
      let r = loop os acceptor config stops fuel n s w in
      (
        subst (AllEnded os acceptor config config.maximum_consecutive_listener_errors) e (
            loop-AllEnded os acceptor config stops config.maximum_consecutive_listener_errors refl
              (ground arith) (ground arith) fuel n s w h),
        subst (λ o. AllTold s w o r.1) e (loop-AllTold s w stops fuel n s w ([], (refl, refl), t)),
      )
