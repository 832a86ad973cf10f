-- ===== src/Controller/Service/Bounds.antt =====
-- The counters and the exits of the admission loop, src/core/controller/controller_service.cpp.
use sasd_gatehold.Prelude.{
  ℕ, zero, suc, ◌+◌, ◌≤◌, ◌<◌, ◌≡◌, ◌⊎◌, inl, inr, Bool, true, false, Option, none, some, leb,
  arith, Bool-cases,
}
use sasd_gatehold.Host.{Os, World}
use sasd_gatehold.Controller.Listener.Defs.{LocalListenerResult, ControllerConnectionAcceptor}
use sasd_gatehold.Controller.Service.Defs.{
  ControllerServiceConfig, stopped, audit_failed, listener_failed,
}
use sasd_gatehold.Controller.Service.Loop.{
  Loop, after_rate_limit, count_admission, judge_round, round, loop,
}
use sasd_gatehold.Controller.Service.Steps.{loop-stopped, loop-left, loop-goes_on}

module _ {L : Type 0} (os : Os) (acceptor : ControllerConnectionAcceptor L)
    (config : ControllerServiceConfig) where
  -- Between two rounds, `limit` errors in a row have not been reached.
  pub record Running (limit : ℕ) (s : Loop L) : Type 0 where
    pub running : s.output.status ≡ stopped
    pub failures : s.output.protocol_failures ≤ s.output.sessions_handled
    pub errors : s.consecutive_errors ≤ s.output.listener_errors
    pub below : s.consecutive_errors < limit

  -- Behind the `switch`, they may have been, and the rate limit may have failed to be audited.
  record Counted (limit : ℕ) (s : Loop L) : Type 0 where
    status :
        (s.output.status ≡ stopped)
        ⊎ ((s.output.status ≡ audit_failed) × (s.consecutive_errors ≡ 0))
    failures : s.output.protocol_failures ≤ s.output.sessions_handled
    errors : s.consecutive_errors ≤ s.output.listener_errors
    below : s.consecutive_errors ≤ limit

  after_rate_limit-Counted :
      (limit : ℕ) (s : Loop L) (w : World)
      → Running limit s
      → Counted limit (after_rate_limit os acceptor config s w).0
  unfolding after_rate_limit
  after_rate_limit-Counted limit s w h = ground arith

  count_admission-Counted :
      (limit : ℕ) (a : LocalListenerResult) (s : Loop L) (w : World)
      → limit ≤ 100
      → Running limit s
      → Counted limit (count_admission os acceptor config a s w).0
  unfolding count_admission
  count_admission-Counted limit a s w b h = ground (arith, after_rate_limit-Counted limit s w)

  -- The three exits: a stop, the limit of errors in a row, a rate limit that was not audited.
  pub record GaveUp (limit : ℕ) (s : Loop L) : Type 0 where
    pub failed : s.output.status ≡ listener_failed
    pub failures : s.output.protocol_failures ≤ s.output.sessions_handled
    pub in_a_row : s.consecutive_errors ≡ limit
    pub errors : limit ≤ s.output.listener_errors

  pub record Unaudited (s : Loop L) : Type 0 where
    pub failed : s.output.status ≡ audit_failed
    pub failures : s.output.protocol_failures ≤ s.output.sessions_handled

  abbrev pub Ended : ℕ → Loop L → Type 0
  Ended limit s = Running limit s ⊎ GaveUp limit s ⊎ Unaudited s

  abbrev reached : Loop L → Bool
  reached s = leb config.maximum_consecutive_listener_errors s.consecutive_errors

  module _ (limit : ℕ) (c : config.maximum_consecutive_listener_errors ≡ limit) (p : 0 < limit)
      (s : Loop L) (w : World) (h : Counted limit s) where
    judge_round-GaveUp :
        reached s ≡ true
        → let r = judge_round os acceptor config s w in (r.0.0 ≡ true) × GaveUp limit r.0.1
    unfolding judge_round
    judge_round-GaveUp e = ground arith

    judge_round-Running :
        reached s ≡ false
        → s.output.status ≡ stopped
        → let r = judge_round os acceptor config s w in (r.0.0 ≡ false) × Running limit r.0.1
    unfolding judge_round
    judge_round-Running e running = ground arith

    judge_round-Unaudited :
        reached s ≡ false
        → s.output.status ≡ audit_failed
        → let r = judge_round os acceptor config s w in (r.0.0 ≡ true) × Unaudited r.0.1
    unfolding judge_round
    judge_round-Unaudited e failed = ground arith

    -- A round that does not leave the loop leaves it running.
    abbrev Judged : Bool × Loop L → Type 0
    Judged r =
        ((r.0 ≡ false) × Running limit r.1)
        ⊎ ((r.0 ≡ true) × GaveUp limit r.1)
        ⊎ ((r.0 ≡ true) × Unaudited r.1)

    judge_round-Judged : Judged (judge_round os acceptor config s w).0
    judge_round-Judged = elim (Bool-cases (reached s)) [
      | inl e ↦ inr (inl (judge_round-GaveUp e))
      | inr e ↦ elim h.status [
        | inl running ↦ inl (judge_round-Running e running)
        | inr (failed, none_in_a_row) ↦ inr (inr (judge_round-Unaudited e failed))
      ]
    ]

  abbrev pub AllEnded : ℕ → Option (Loop L) → Type 0
  AllEnded limit none = Unit
  AllEnded limit (some s) = Ended limit s

  pub round-Judged :
      (limit : ℕ) (c : config.maximum_consecutive_listener_errors ≡ limit) (p : 0 < limit)
      (b : limit ≤ 100) (s : Loop L) (w : World)
      → Running limit s
      → let r = (round os acceptor config s w).0 in
        ((r.0 ≡ false) × Running limit r.1)
        ⊎ ((r.0 ≡ true) × GaveUp limit r.1)
        ⊎ ((r.0 ≡ true) × Unaudited r.1)
  unfolding round
  round-Judged limit c p b s w h =
      let served =
        acceptor.serve_one config.accept_poll_interval config.session_io_timeout s.shared w in
      let s1 : Loop L = record s { shared = served.0.1 } in
      let counted = count_admission os acceptor config served.0.0 s1 served.1 in
      judge_round-Judged limit c p counted.0 counted.1 (
        count_admission-Counted limit served.0.0 s1 served.1 b (record {
          running = h.running;
          failures = h.failures;
          errors = h.errors;
          below = h.below;
        }))

  pub loop-AllEnded :
      (stops : ℕ → Bool) (limit : ℕ) (c : config.maximum_consecutive_listener_errors ≡ limit)
      (p : 0 < limit) (b : limit ≤ 100) (fuel n : ℕ) (s : Loop L) (w : World)
      → Running limit s
      → AllEnded limit (loop os acceptor config stops fuel n s w).0
  loop-AllEnded stops limit c p b zero n s w h = unfold loop in tt
  loop-AllEnded stops limit c p b (suc fuel) n s w h = elim (Bool-cases (stops n)) [
    | inl e ↦ rw (loop-stopped os acceptor config stops fuel n s w e) (inl h)
    | inr e ↦
        let r = round os acceptor config s w in
        elim (round-Judged limit c p b s w h) [
          | inl (on, running) ↦
              rw (loop-goes_on os acceptor config stops fuel n s w e on)
                (loop-AllEnded stops limit c p b fuel (n + 1) r.0.1 r.1 running)
          | inr (inl (over, gave_up)) ↦
              rw (loop-left os acceptor config stops fuel n s w e over) (inr (inl gave_up))
          | inr (inr (over, failed)) ↦
              rw (loop-left os acceptor config stops fuel n s w e over) (inr (inr failed))
        ]
  ]
