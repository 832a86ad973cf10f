-- ===== src/Controller/Privileged/States.antt =====
-- The states of the privileged controller, src/core/controller/privileged_pf_controller.cpp.
use sasd_gatehold.Prelude.{
  ◌≤◌, ◌≡◌, ◌⊎◌, inl, inr, refl, sym, subst, ap, ◌∙◌, Bool, true, false, none, [], arith, String,
}
use sasd_gatehold.Text.{Bytes}
use sasd_gatehold.Text.Decimal.{max_u64}
use sasd_gatehold.Host.{Os, World, Disk}
use sasd_gatehold.Logging.Event.{Severity, info}
use sasd_gatehold.Logging.Journal.{append-quiet}
use sasd_gatehold.Firewall.Activation.Types.{
  ActivationStatus, ActivationRequest, ActivationResult, Service,
}
use sasd_gatehold.Firewall.Activation.Service as Activation
use sasd_gatehold.Firewall.Activation.Rules.{core}
use sasd_gatehold.Firewall.Activation.Conditions.{State, Committed, RolledBack, Untouched, Settled}
use sasd_gatehold.Firewall.Activation.Outcome.{activate-Settled}
use sasd_gatehold.Firewall.Activation.Recovery.{
  ActivationRecoveryResult, recovery_ok, recover_pending,
}
use sasd_gatehold.Firewall.Transaction.Record.{PendingActivation}
use sasd_gatehold.Firewall.Transaction.Effect.{Holds}
use sasd_gatehold.Firewall.Activation.Recovered.{Recovered}
use sasd_gatehold.Firewall.Activation.Restart.{recover_pending-Recovered}
use sasd_gatehold.Controller.Privileged.Defs.{
  ControllerState, requires_read_only, is_rollback_failed, is_ready, is_created, note,
  startup_operation, finish_start, start, judge_activation, activate,
}

module _ (os : Os) where
  note-quiet :
      (s : Severity) (id : String) (operation : Bytes) (action outcome words : String)
      (state : ControllerState) (w : World)
      → let w' = (note os s id operation action outcome words state w).1 in
        (w'.disk ≡ w.disk) × (w'.past ≡ w.past)
  unfolding note
  note-quiet s id operation action outcome words state w = append-quiet os _ _

  finish_start-ready :
      (audited : Bool) (r : ActivationRecoveryResult) (w : World)
      → is_ready (finish_start os audited r w).0.state ≡ true
      → (recovery_ok r.status ≡ true) × ((finish_start os audited r w).1.disk ≡ w.disk)
  unfolding finish_start
  finish_start-ready audited r w h = grind (arith, note-quiet)

  begun_start :
      (state : ControllerState) (w : World)
      → is_created state ≡ true
      → is_ready (start os state w).0.state ≡ true
      → (w' : World) × (w'.disk ≡ w.disk)
        × (w'.past ≡ w.past)
        × (recovery_ok (recover_pending os w').result.status ≡ true)
        × ((start os state w).1.disk ≡ (recover_pending os w').world.disk)
  unfolding start
  begun_start state w fresh h =
      let x =
        note os info "GH-CTL-0001" startup_operation "controller.start" "started"
          "Controller startup recovery began." ControllerState.starting w in
      let (d, p) =
        note-quiet info "GH-CTL-0001" startup_operation "controller.start" "started"
          "Controller startup recovery began." ControllerState.starting w in
      let s = recover_pending os x.1 in
      let same : start os state w ≡ finish_start os x.0 s.result s.world = rw fresh refl in
      let (ok, done) =
        finish_start-ready x.0 s.result s.world (ap (λ r. is_ready r.0.state) (sym same) ∙ h) in
      (x.1, d, p, ok, ap (λ r. r.1.disk) same ∙ done)

  -- Where a readable transaction is on disk and no disk has been passed through yet: if a new
  -- controller is ready after `start`, no transaction is left; one that was not committed has
  -- been rolled back (PF runs its rollback revision, and the marker names it); for one that was
  -- committed the marker was found to name its target, and PF and the marker are as they were.
  pub start-Recovered :
      (t : PendingActivation) (w : World)
      → Holds t w.disk
      → w.past ≡ []
      → is_ready (start os ControllerState.created w).0.state ≡ true
      → Recovered os t w.disk (start os ControllerState.created w).1.disk
  start-Recovered t w h begins r =
      let (w', d, p, ok, e) = begun_start ControllerState.created w refl r in
      rw e (
        subst (λ d0. Recovered os t d0 (recover_pending os w').world.disk) d
          (recover_pending-Recovered os t w' (subst (Holds t) (sym d) h) (p ∙ begins) ok))

module _ (os : Os) (svc : Service) (request : ActivationRequest) where
  -- A controller that is not ready stays in its state, runs no activation and changes nothing on
  -- disk.
  pub activate-rejected :
      (state : ControllerState) (w : World)
      → is_ready state ≡ false
      → let x = activate os svc request state w in
        (x.0.state ≡ state) × (x.0.activation ≡ none) × (x.1.disk ≡ w.disk) × (x.1.past ≡ w.past)
  unfolding activate
  activate-rejected state w h = grind (arith, note-quiet os)

  judge_activation-ready :
      (a : ActivationResult) (w : World)
      → is_ready (judge_activation os svc request a w).0.state ≡ true
      → (is_rollback_failed a.status ≡ false)
        × (requires_read_only a.status ≡ false)
        × ((judge_activation os svc request a w).1.disk ≡ w.disk)
  unfolding judge_activation
  judge_activation-ready a w h = ground arith

  -- What a status says that leaves the controller ready.
  Settled-ready :
      (status : ActivationStatus) (d0 : Disk) (c : State)
      → is_rollback_failed status ≡ false
      → requires_read_only status ≡ false
      → Settled request d0 os svc status c
      → (Committed os svc request d0 c × (c.disk.pending ≡ none))
        ⊎ RolledBack c
        ⊎ Untouched d0 c.disk
  Settled-ready ActivationStatus.committed d0 c u v h = inl h
  Settled-ready ActivationStatus.activation_failed d0 c u v h = inr (inl h)
  Settled-ready ActivationStatus.verification_failed_rolled_back d0 c u v h = inr (inl h)
  Settled-ready ActivationStatus.confirmation_failed_rolled_back d0 c u v h = inr (inl h)
  Settled-ready ActivationStatus.commit_failed_rolled_back d0 c u v h = inr (inl h)
  Settled-ready status d0 c u v h = ground arith

  -- A ready controller is given a request whose revision fits in 64 bits, and no disk has been
  -- passed through yet. If it is still ready afterwards, the disk is the one that the activation
  -- service left, and either the requested revision passed every gate (the authorizer, `pfctl
  -- -nf` on that revision, each probe of the service, the confirmation gate) and is running and
  -- marked, or the previous revision is running and marked, in both cases without a transaction,
  -- or PF and the marker are as they were.
  pub activate-ready :
      (w : World)
      → request.revision ≤ max_u64
      → w.past ≡ []
      → is_ready (activate os svc request ControllerState.ready w).0.state ≡ true
      → let c = core (Activation.activate os svc request w) in
        ((activate os svc request ControllerState.ready w).1.disk ≡ c.disk)
        × ((Committed os svc request w.disk c × (c.disk.pending ≡ none))
            ⊎ RolledBack c
            ⊎ Untouched w.disk c.disk)
  unfolding activate
  activate-ready w bound begins r =
      let s = Activation.activate os svc request w in
      let (u, v, d) = judge_activation-ready s.result s.world r in
      (
        d,
        Settled-ready s.result.status w.disk (core s) u v
            (activate-Settled os svc request w bound begins),
      )
