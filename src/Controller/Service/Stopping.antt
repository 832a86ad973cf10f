-- ===== src/Controller/Service/Stopping.antt =====
-- When the admission loop, and a run, of src/core/controller/controller_service.cpp end.
use sasd_gatehold.Prelude.{
  ℕ, zero, suc, ◌+◌, ◌-◌, ◌≤◌, ◌<◌, ◌≡◌, inl, inr, refl, Bool, true, false, Option, none, some,
  arith, if-elim, not, Bool-cases, is_some, ◌∙◌, ◌≢◌,
}
use sasd_gatehold.Host.{Os, World, M}
use sasd_gatehold.Text.{text}
use sasd_gatehold.Text.Decimal.{to_string}
use sasd_gatehold.Logging.Event.{with_attribute, info}
use sasd_gatehold.Controller.Privileged.Defs.{ControllerState, ControllerStartupResult}
use sasd_gatehold.Controller.Listener.Defs.{
  LocalListenerResult, listener_ok, ControllerConnectionAcceptor,
}
use sasd_gatehold.Controller.Service.Defs.{
  ControllerServiceConfig, stopped, audit_failed, listener_failed, note, valid_config,
  ControllerServiceResult,
}
use sasd_gatehold.Controller.Service.Loop.{Loop, count_admission, judge_round, round, loop}
use sasd_gatehold.Controller.Service.Run.{
  run, continue_run, open_listener, admit_connections, finish_loop, ServiceRun,
}
use sasd_gatehold.Controller.Service.Bounds.{Running, round-Judged}
use sasd_gatehold.Controller.Service.History.{is_failure}
use sasd_gatehold.Controller.Service.Steps.{loop-stopped, loop-left, loop-goes_on}

before : (stops : ℕ → Bool) (n k : ℕ) → stops n ≡ false → stops k ≡ true → n ≤ k → n < k
before stops n k a b h = ground arith

module _ {L : Type 0} (os : Os) (acceptor : ControllerConnectionAcceptor L)
    (config : ControllerServiceConfig) where
  loop-stops :
      (stops : ℕ → Bool) (fuel n k : ℕ) (s : Loop L) (w : World)
      → stops k ≡ true
      → n ≤ k
      → k - n < fuel
      → is_some (loop os acceptor config stops fuel n s w).0 ≡ true
  loop-stops stops zero n k s w e lo hi = ground arith
  loop-stops stops (suc fuel) n k s w e lo hi = elim (Bool-cases (stops n)) [
    | inl now ↦ rw (loop-stopped os acceptor config stops fuel n s w now) refl
    | inr later ↦
        let ne : n < k = before stops n k later e lo in
        let r = round os acceptor config s w in
        elim (Bool-cases r.0.0) [
          | inl over ↦ rw (loop-left os acceptor config stops fuel n s w later over) refl
          | inr on ↦
              rw (loop-goes_on os acceptor config stops fuel n s w later on)
                (loop-stops stops fuel (n + 1) k r.0.1 r.1 e (omega arith) (omega arith))
        ]
  ]

  abbrev pub Failing : Type 0
  Failing =
      (p q : ℕ) (x : ControllerState × L) (w : World)
      → is_failure (acceptor.serve_one p q x w).0.0.status ≡ true

  count_admission-failing :
      (a : LocalListenerResult) (s : Loop L) (w : World)
      → is_failure a.status ≡ true
      → let r = count_admission os acceptor config a s w in
        (r.0.consecutive_errors ≡ s.consecutive_errors + 1) × (r.0.output.status ≡ s.output.status)
  unfolding count_admission
  count_admission-failing a s w f = ground arith

  judge_round-kept :
      (s : Loop L) (w : World)
      → s.output.status ≡ stopped
      → let r = judge_round os acceptor config s w in
        (r.0.1.consecutive_errors ≡ s.consecutive_errors) × (r.0.1.output.status ≢ audit_failed)
  unfolding judge_round
  judge_round-kept s w h = ground arith

  round-failing :
      (s : Loop L) (w : World)
      → Failing
      → s.output.status ≡ stopped
      → let r = round os acceptor config s w in
        (r.0.1.consecutive_errors ≡ s.consecutive_errors + 1) × (r.0.1.output.status ≢ audit_failed)
  unfolding round
  round-failing s w f h =
      let served =
        acceptor.serve_one config.accept_poll_interval config.session_io_timeout s.shared w in
      let s1 : Loop L = record s { shared = served.0.1 } in
      let counted = count_admission os acceptor config served.0.0 s1 served.1 in
      let (more, same) =
        count_admission-failing served.0.0 s1 served.1
          (f config.accept_poll_interval config.session_io_timeout s.shared w) in
      let (kept, ok) = judge_round-kept counted.0 counted.1 (same ∙ h) in (kept ∙ more, ok)

  -- The loop has ended, and has given up.
  abbrev pub GivenUp : Option (Loop L) → Type 0
  GivenUp none = ⊥
  GivenUp (some s) = s.output.status ≡ listener_failed

  -- If every admission fails and the token never asks for a stop, the loop of a valid
  -- configuration, started in the state that `Running` describes, ends all the same with status
  -- `listener_failed`, once there is fuel for the errors that are missing to the limit.
  pub loop-GivenUp :
      (stops : ℕ → Bool) (fuel n : ℕ) (s : Loop L) (w : World)
      → valid_config config ≡ true
      → Failing
      → ((k : ℕ) → stops k ≡ false)
      → Running os acceptor config config.maximum_consecutive_listener_errors s
      → config.maximum_consecutive_listener_errors ≤ s.consecutive_errors + fuel
      → GivenUp (loop os acceptor config stops fuel n s w).0
  loop-GivenUp stops zero n s w v f never h enough = absurd (omega arith)
  loop-GivenUp stops (suc fuel) n s w v f never h enough =
      let r = round os acceptor config s w in
      let (more, audited) = round-failing s w f h.running in
      elim (round-Judged os acceptor config config.maximum_consecutive_listener_errors refl
        (ground arith) (ground arith) s w h) [
          | inl (on, running) ↦
              rw (loop-goes_on os acceptor config stops fuel n s w (never n) on)
                (loop-GivenUp stops fuel (n + 1) r.0.1 r.1 v f never running (omega arith))
          | inr (inl (over, gave_up)) ↦
              rw (loop-left os acceptor config stops fuel n s w (never n) over) gave_up.failed
          | inr (inr (over, failed)) ↦ absurd (audited failed.failed)
        ]

  -- A run that has come to its end.
  abbrev Returns : World → M (Option (ServiceRun L)) → Type 0
  Returns w m = is_some (m w).0 ≡ true

  finish_loop-Returns :
      (stops : ℕ → Bool) (o : Option (Loop L)) (w : World)
      → is_some o ≡ true
      → Returns w (finish_loop os acceptor config stops o)
  finish_loop-Returns stops none w h = ground arith
  finish_loop-Returns stops (some s) w h = refl

  admit_connections-Returns :
      (stops : ℕ → Bool) (fuel k : ℕ) (o : ControllerServiceResult) (c : ControllerState) (l : L)
      (w : World)
      → stops k ≡ true
      → 1 ≤ k
      → k ≤ fuel
      → Returns w (admit_connections os acceptor config stops fuel o c l)
  unfolding admit_connections
  admit_connections-Returns stops fuel k o c l w e lo hi =
      let n =
        note os
          (with_attribute (text "maximum_consecutive_listener_errors")
            (to_string config.maximum_consecutive_listener_errors))
          info "GH-SVC-0002" "running" "Controller service admission loop is active." c w in
      let s : Loop L = record {
        output = o;
        consecutive_errors = 0;
        rate_limit_audited = false;
        shared = (c, l);
      } in
      let ended = loop os acceptor config stops fuel 1 s n.1 in
      if-elim (Returns n.1) (not n.0) _ _ (λ failed. refl)
        (λ noted.
          finish_loop-Returns stops ended.0 ended.1
            (loop-stops stops fuel 1 k s n.1 e lo (omega arith)))

  open_listener-Returns :
      (stops : ℕ → Bool) (fuel k : ℕ) (o : ControllerServiceResult) (c : ControllerState) (l : L)
      (w : World)
      → stops k ≡ true
      → 1 ≤ k
      → k ≤ fuel
      → Returns w (open_listener os acceptor config stops fuel o c l)
  unfolding open_listener
  open_listener-Returns stops fuel k o c l w e lo hi =
      let started = acceptor.start l w in
      if-elim (Returns started.1) (not (listener_ok started.0.0)) _ _ (λ failed. refl)
        (λ ok. admit_connections-Returns stops fuel k _ c started.0.1 started.1 e lo hi)

  continue_run-Returns :
      (stops : ℕ → Bool) (fuel k : ℕ) (audited : Bool) (startup : ControllerStartupResult) (l : L)
      (w : World)
      → stops k ≡ true
      → k ≤ fuel
      → Returns w (continue_run os acceptor config stops fuel audited startup l)
  unfolding continue_run
  continue_run-Returns stops fuel k audited startup l w e hi =
      if-elim (Returns w) (not (valid_config config)) _ _ (λ bad. refl)
        (λ good.
          if-elim (Returns w) (not audited) _ _ (λ bad. refl)
            (λ good.
              if-elim (Returns w) (stops 0) _ _ (λ now. refl)
                (λ later.
                  open_listener-Returns stops fuel k _ startup.state l w e
                    (before stops 0 k later e (omega arith)) hi)))

  -- If the stop token answers yes to test `k`, a run comes to its end with fuel for `k` rounds,
  -- whatever the host, the listener and the configuration do.
  pub run-Returns :
      (stops : ℕ → Bool) (fuel k : ℕ) (busy : Bool) (c : ControllerState) (l : L) (w : World)
      → stops k ≡ true
      → k ≤ fuel
      → is_some (run os acceptor config stops fuel busy (c, l) w).0 ≡ true
  unfolding run
  run-Returns stops fuel k true c l w e hi = refl
  run-Returns stops fuel k false c l w e hi = continue_run-Returns stops fuel k _ _ l _ e hi
