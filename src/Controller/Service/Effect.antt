-- ===== src/Controller/Service/Effect.antt =====
-- What the admission loop of src/core/controller/controller_service.cpp does to the disk and to the
-- state of the controller: what its admissions do, and nothing else.
use sasd_gatehold.Prelude.{
  ℕ, zero, suc, ◌+◌, ◌≡◌, Bool, Option, none, some, List, String, arith, Bool-cases, inl, inr,
}
use sasd_gatehold.Host.{Os, World, Disk}
use sasd_gatehold.Logging.Event.{Event, Severity}
use sasd_gatehold.Logging.Journal.{append-quiet}
use sasd_gatehold.Controller.Privileged.Defs.{ControllerState}
use sasd_gatehold.Controller.Listener.Defs.{LocalListenerResult, ControllerConnectionAcceptor}
use sasd_gatehold.Controller.Service.Defs.{ControllerServiceConfig, note}
use sasd_gatehold.Controller.Service.Loop.{
  Loop, after_rate_limit, count_admission, judge_round, round, loop,
}
use sasd_gatehold.Controller.Service.Steps.{loop-stopped, loop-left, loop-goes_on}

module _ {L : Type 0} (os : Os) (acceptor : ControllerConnectionAcceptor L)
    (config : ControllerServiceConfig) where
  note-quiet :
      (more : Event → Event) (s : Severity) (id outcome words : String) (c : ControllerState)
      (w : World)
      → let w' = (note os more s id outcome words c w).1 in (w'.disk ≡ w.disk) × (w'.past ≡ w.past)
  unfolding note
  note-quiet more s id outcome words c w = append-quiet os _ _

  -- The disk, the disks passed through and the state of the controller are as they were.
  abbrev Same : Loop L → World → Loop L × World → Type 0
  Same s w x = (x.1.disk ≡ w.disk) × (x.1.past ≡ w.past) × (x.0.shared.0 ≡ s.shared.0)

  count_admission-Same :
      (a : LocalListenerResult) (s : Loop L) (w : World)
      → Same s w (count_admission os acceptor config a s w)
  unfolding count_admission after_rate_limit
  count_admission-Same a s w = grind (arith, note-quiet)

  judge_round-Same :
      (s : Loop L) (w : World) → let r = judge_round os acceptor config s w in Same s w (r.0.1, r.1)
  unfolding judge_round
  judge_round-Same s w = grind (arith, note-quiet)

  module _ (P : Disk → List Disk → ControllerState → Type 0) where
    -- Every admission keeps the condition.
    abbrev pub Kept : Type 0
    Kept =
        (p q : ℕ) (x : ControllerState × L) (w : World)
        → P w.disk w.past x.0
        → let r = acceptor.serve_one p q x w in P r.1.disk r.1.past r.0.1.0

    round-Kept :
        (s : Loop L) (w : World)
        → Kept
        → P w.disk w.past s.shared.0
        → let r = round os acceptor config s w in P r.1.disk r.1.past r.0.1.shared.0
    unfolding round
    round-Kept s w k h =
        let served =
          acceptor.serve_one config.accept_poll_interval config.session_io_timeout s.shared w in
        let s1 : Loop L = record s { shared = served.0.1 } in
        let counted = count_admission os acceptor config served.0.0 s1 served.1 in
        let (d, p, c) = count_admission-Same served.0.0 s1 served.1 in
        let (d', p', c') = judge_round-Same counted.0 counted.1 in
        let kept = k config.accept_poll_interval config.session_io_timeout s.shared w h in
        rw (d', p', c', d, p, c) kept

    -- The condition where the loop has ended, or where its fuel is spent.
    abbrev pub Leaves : Option (Loop L) × World → Type 0
    Leaves x = elim x.0 [
      | none ↦ (c : ControllerState) × P x.1.disk x.1.past c
      | some s ↦ P x.1.disk x.1.past s.shared.0
    ]

    -- A condition on the disk, the disks passed through and the state of the controller that every
    -- admission keeps, and that holds when the loop begins, holds after any number of rounds.
    pub loop-Leaves :
        (stops : ℕ → Bool) (fuel n : ℕ) (s : Loop L) (w : World)
        → Kept
        → P w.disk w.past s.shared.0
        → Leaves (loop os acceptor config stops fuel n s w)
    unfolding loop
    loop-Leaves stops zero n s w k h = (s.shared.0, h)
    loop-Leaves stops (suc fuel) n s w k h = elim (Bool-cases (stops n)) [
      | inl now ↦ rw (loop-stopped os acceptor config stops fuel n s w now) h
      | inr later ↦
          let r = round os acceptor config s w in
          let h' = round-Kept s w k h in
          elim (Bool-cases r.0.0) [
            | inl over ↦ rw (loop-left os acceptor config stops fuel n s w later over) h'
            | inr on ↦
                rw (loop-goes_on os acceptor config stops fuel n s w later on)
                  (loop-Leaves stops fuel (n + 1) r.0.1 r.1 k h')
          ]
    ]
