-- ===== src/Controller/Service/Startup.antt =====
-- The recovery at the beginning of a run, and what the rest of the run keeps,
-- src/core/controller/controller_service.cpp.
use sasd_gatehold.Prelude.{
  ℕ, ◌≡◌, ◌⊎◌, inl, inr, refl, sym, subst, ap, ◌∙◌, Bool, false, not, Option, none, some, List, [],
  arith, if-elim, String, Bool-cases,
}
use sasd_gatehold.Host.{Os, World, Disk, M}
use sasd_gatehold.Text.{text}
use sasd_gatehold.Text.Decimal.{to_string}
use sasd_gatehold.Logging.Event.{Event, Severity, info, error, with_attribute}
use sasd_gatehold.Logging.Journal.{append-quiet}
use sasd_gatehold.Firewall.Transaction.Record.{PendingActivation}
use sasd_gatehold.Firewall.Transaction.Effect.{Holds}
use sasd_gatehold.Firewall.Activation.Recovered.{Recovered}
use sasd_gatehold.Controller.Privileged.Defs as Controller
use sasd_gatehold.Controller.Privileged.Defs.{ControllerState, ControllerStartupResult, is_ready}
use sasd_gatehold.Controller.Privileged.States.{start-Recovered}
use sasd_gatehold.Controller.Listener.Defs.{
  LocalListenerResult, listener_ok, ControllerConnectionAcceptor,
}
use sasd_gatehold.Controller.Service.Defs.{
  ControllerServiceConfig, ControllerServiceResult, valid_config, note,
}
use sasd_gatehold.Controller.Service.Loop.{Loop, loop}
use sasd_gatehold.Controller.Service.Effect.{Kept, Leaves, loop-Leaves}
use sasd_gatehold.Controller.Service.Run.{
  run, continue_run, stop_early, announce, ServiceRun, conclude, shut_down, finish_loop, withdraw,
  admit_connections, open_listener,
}

module _ {L : Type 0} (os : Os) (acceptor : ControllerConnectionAcceptor L)
    (config : ControllerServiceConfig) (stops : ℕ → Bool) where
  note-quiet :
      (more : Event → Event) (s : Severity) (id outcome words : String) (c : ControllerState)
      (w : World)
      → let w' = (note os more s id outcome words c w).1 in (w'.disk ≡ w.disk) × (w'.past ≡ w.past)
  unfolding note
  note-quiet more s id outcome words c w = append-quiet os _ _

  announce-quiet :
      (c : ControllerState) (w : World)
      → let w' = (announce os acceptor config stops c w).1 in
        (w'.disk ≡ w.disk) × (w'.past ≡ w.past)
  unfolding announce
  announce-quiet c w = grind (arith, note-quiet)

  module _ (P : Disk → List Disk → ControllerState → Type 0)
      (opens : (l : L) (c : ControllerState) (w : World)
        → P w.disk w.past c
        → let r = acceptor.start l w in P r.1.disk r.1.past c)
      (serves : Kept os acceptor config P)
      (closes : (l : L) (c : ControllerState) (w : World)
        → P w.disk w.past c
        → let r = acceptor.stop l w in P r.1.disk r.1.past c) where
    -- A run that has ended has kept the condition.
    abbrev Keeps : World → M (Option (ServiceRun L)) → Type 0
    Keeps w m = elim (m w).0 [ none ↦ Unit | some x ↦ P (m w).1.disk (m w).1.past x.controller ]

    quiet :
        (c : ControllerState) (w w' : World)
        → (w'.disk ≡ w.disk) × (w'.past ≡ w.past)
        → P w.disk w.past c
        → P w'.disk w'.past c
    quiet c w w' q h = rw (q.0, q.1) h

    conclude-quiet :
        (a : LocalListenerResult) (o : ControllerServiceResult) (w : World)
        → let w' = (conclude os acceptor config stops a o w).1 in
          (w'.disk ≡ w.disk) × (w'.past ≡ w.past)
    unfolding conclude
    conclude-quiet a o w = grind (arith, note-quiet)

    shut_down-Keeps :
        (s : Loop L) (w : World)
        → P w.disk w.past s.shared.0
        → let r = shut_down os acceptor config stops s w in P r.1.disk r.1.past r.0.controller
    unfolding shut_down
    shut_down-Keeps s w h =
        let r = acceptor.stop s.shared.1 w in
        let o = s.output in
        let o' : ControllerServiceResult = record o {
          listener_shutdown = some r.0.0;
          controller_state = s.shared.0;
        } in
        quiet s.shared.0 r.1 (conclude os acceptor config stops r.0.0 o' r.1).1
          (conclude-quiet r.0.0 o' r.1) (closes s.shared.1 s.shared.0 w h)

    finish_loop-Keeps :
        (x : Option (Loop L) × World)
        → Leaves os acceptor config P x
        → Keeps x.1 (finish_loop os acceptor config stops x.0)
    finish_loop-Keeps (none, w) h = tt
    finish_loop-Keeps (some s, w) h = shut_down-Keeps s w h

    withdraw-Keeps :
        (o : ControllerServiceResult) (c : ControllerState) (l : L) (w : World)
        → P w.disk w.past c
        → let r = withdraw os acceptor config stops o c l w in P r.1.disk r.1.past r.0.controller
    unfolding withdraw
    withdraw-Keeps o c l w h = closes l c w h

    admit_connections-Keeps :
        (fuel : ℕ) (o : ControllerServiceResult) (c : ControllerState) (l : L) (w : World)
        → P w.disk w.past c
        → Keeps w (admit_connections os acceptor config stops fuel o c l)
    unfolding admit_connections
    admit_connections-Keeps fuel o c l w h =
        let n =
          note os
            (with_attribute (text "maximum_consecutive_listener_errors")
              (to_string config.maximum_consecutive_listener_errors))
            info "GH-SVC-0002" "running" "Controller service admission loop is active." c w in
        let s : Loop L = record {
          output = o;
          consecutive_errors = 0;
          rate_limit_audited = false;
          shared = (c, l);
        } in
        let ended = loop os acceptor config stops fuel 1 s n.1 in
        let noted = quiet c w n.1 (note-quiet _ _ _ _ _ _ w) h in
        if-elim (Keeps n.1) (not n.0) _ _ (λ failed. withdraw-Keeps o c l n.1 noted)
          (λ done.
            finish_loop-Keeps ended
              (loop-Leaves os acceptor config P stops fuel 1 s n.1 serves noted))

    open_listener-Keeps :
        (fuel : ℕ) (o : ControllerServiceResult) (c : ControllerState) (l : L) (w : World)
        → P w.disk w.past c
        → Keeps w (open_listener os acceptor config stops fuel o c l)
    unfolding open_listener
    open_listener-Keeps fuel o c l w h =
        let started = acceptor.start l w in
        let o' : ControllerServiceResult = record o { listener_startup = some started.0.0 } in
        let h' = opens l c w h in
        if-elim (Keeps started.1) (not (listener_ok started.0.0)) _ _
          (λ failed.
            let told =
              note os (with_attribute (text "listener_event_id") started.0.0.event_id) error
                "GH-SVC-2002" "failed" "Controller service listener failed to start." c started.1 in
            quiet c started.1 told.1 (note-quiet _ _ _ _ _ _ started.1) h')
          (λ ok. admit_connections-Keeps fuel o' c started.0.1 started.1 h')

    continue_run-Keeps :
        (fuel : ℕ) (audited : Bool) (startup : ControllerStartupResult) (l : L) (w : World)
        → P w.disk w.past startup.state
        → Keeps w (continue_run os acceptor config stops fuel audited startup l)
    unfolding continue_run stop_early
    continue_run-Keeps fuel audited startup l w h =
        if-elim (Keeps w) (not (valid_config config)) _ _ (λ bad. h)
          (λ valid.
            if-elim (Keeps w) (not audited) _ _ (λ bad. h)
              (λ noted.
                if-elim (Keeps w) (stops 0) _ _
                  (λ now.
                    let told =
                      note os (λ e. e) info "GH-SVC-0003" "stopped"
                        "Controller service stop was already requested after recovery."
                        startup.state w in
                    quiet startup.state w told.1 (note-quiet _ _ _ _ _ _ w) h)
                  (λ later. open_listener-Keeps fuel _ startup.state l w h)))

    -- Whatever the recovery of a new controller establishes and the listener keeps holds when a run
    -- ends, in each of its ways.
    pub run-Keeps :
        (fuel : ℕ) (l : L) (w : World) (x : ServiceRun L)
        → ((v : World)
            → (v.disk ≡ w.disk) × (v.past ≡ w.past)
            → let st = Controller.start os ControllerState.created v in
              P st.1.disk st.1.past st.0.state)
        → let r = run os acceptor config stops fuel false (ControllerState.created, l) w in
          r.0 ≡ some x → P r.1.disk r.1.past x.controller
    unfolding run
    run-Keeps fuel l w x recovers e =
        let n = announce os acceptor config stops ControllerState.created w in
        let st = Controller.start os ControllerState.created n.1 in
        let m = continue_run os acceptor config stops fuel n.0 st.0 l in
        let h =
          continue_run-Keeps fuel n.0 st.0 l st.1
            (recovers n.1 (announce-quiet ControllerState.created w)) in
        subst
          (λ o. elim o [ none ↦ Unit | some y ↦ P (m st.1).1.disk (m st.1).1.past y.controller ]) e
          h

  -- The disk is the one that the start of a new controller left, on the disk of `w`, and the state is
  -- the one that it ended in, or read-only since.
  abbrev pub Started : World → Disk → List Disk → ControllerState → Type 0
  Started w d past c =
      (v : World) × (v.disk ≡ w.disk)
      × (v.past ≡ w.past)
      × let st = Controller.start os ControllerState.created v in
        (d ≡ st.1.disk) × (past ≡ st.1.past) × ((c ≡ st.0.state) ⊎ (c ≡ ControllerState.read_only))

  Started-ready :
      (t : PendingActivation) (w : World) (d : Disk) (past : List Disk) (c : ControllerState)
      → Holds t w.disk
      → w.past ≡ []
      → Started w d past c
      → (is_ready c ≡ false) ⊎ Recovered os t w.disk d
  Started-ready t w d past c holds begins (v, vd, vp, same) = elim (Bool-cases (is_ready c)) [
    | inr other ↦ inl other
    | inl yes_ ↦ elim same.2 [
      | inr low ↦ inl (ap is_ready low)
      | inl high ↦
          let left = (Controller.start os ControllerState.created v).1.disk in
          let recovered : Recovered os t v.disk left =
            start-Recovered os t v (subst (Holds t) (sym vd) holds) (vp ∙ begins)
              (ap is_ready (sym high) ∙ yes_) in
          inr (rw (same.0) (subst (λ d0. Recovered os t d0 left) vd recovered))
    ]
  ]

  -- A listener that leaves the disk alone, and the state of the controller or takes it to read-only.
  pub record Spares : Type 0 where
    pub opening :
        (l : L) (w : World)
        → let r = acceptor.start l w in (r.1.disk ≡ w.disk) × (r.1.past ≡ w.past)
    pub serving :
        (p q : ℕ) (x : ControllerState × L) (w : World)
        → let r = acceptor.serve_one p q x w in
          (r.1.disk ≡ w.disk)
          × (r.1.past ≡ w.past)
          × ((r.0.1.0 ≡ x.0) ⊎ (r.0.1.0 ≡ ControllerState.read_only))
    pub closing :
        (l : L) (w : World) → let r = acceptor.stop l w in (r.1.disk ≡ w.disk) × (r.1.past ≡ w.past)

  Started-again :
      (w : World) (d d' : Disk) (past past' : List Disk) (c c' : ControllerState)
      → d' ≡ d
      → past' ≡ past
      → (c' ≡ c) ⊎ (c' ≡ ControllerState.read_only)
      → Started w d past c
      → Started w d' past' c'
  Started-again w d d' past past' c c' e f g (v, vd, vp, same) = (
    v,
    vd,
    vp,
    (
      e ∙ same.0,
      f ∙ same.1,
      elim g [
        | inr low ↦ inr low
        | inl kept ↦ elim same.2 [ inl high ↦ inl (kept ∙ high) | inr low ↦ inr (kept ∙ low) ]
      ],
    ),
  )

  -- A run of a new controller, while no other run is active, in whatever way it ends and for
  -- every configuration and stop token, over a listener whose operations leave the disk alone and
  -- leave the state of the controller or take it to read-only, where a readable transaction is on
  -- disk and no disk has been passed through yet: the disk and the disks passed through are those
  -- that `start` of the controller left when it was called on the disk of the beginning, and the
  -- state is the one that `start` ended in, or read-only. If it is ready, the transaction has
  -- been recovered.
  pub run-Recovered :
      (t : PendingActivation) (fuel : ℕ) (l : L) (w : World) (x : ServiceRun L)
      → Spares
      → Holds t w.disk
      → w.past ≡ []
      → (run os acceptor config stops fuel false (ControllerState.created, l) w).0 ≡ some x
      → let d = (run os acceptor config stops fuel false (ControllerState.created, l) w).1 in
        Started w d.disk d.past x.controller
        × ((is_ready x.controller ≡ false) ⊎ Recovered os t w.disk d.disk)
  run-Recovered t fuel l w x spares holds begins e =
      let r = run os acceptor config stops fuel false (ControllerState.created, l) w in
      let started : Started w r.1.disk r.1.past x.controller =
        run-Keeps (Started w)
          (λ l c v h.
            let (d, p) = spares.opening l v in Started-again w _ _ _ _ c c d p (inl refl) h)
          (λ p q y v h.
            let (d, past, c) = spares.serving p q y v in Started-again w _ _ _ _ _ _ d past c h)
          (λ l c v h.
            let (d, p) = spares.closing l v in Started-again w _ _ _ _ c c d p (inl refl) h)
          fuel l w x (λ v h. (v, h.0, h.1, (refl, refl, inl refl))) e in
      (started, Started-ready t w r.1.disk r.1.past x.controller holds begins started)
