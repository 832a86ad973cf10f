-- ===== src/Firewall/Activation/Outcome.antt =====
-- `PfActivationService::activate` as a whole, src/core/firewall/activation_service.cpp.
use sasd_gatehold.Prelude.{◌≤◌, ◌≡◌, refl, []}
use sasd_gatehold.Text.Decimal.{max_u64}
use sasd_gatehold.Host.{Os, World}
use sasd_gatehold.Firewall.Activation.Types.{initial_result, ActivationRequest, Service}
use sasd_gatehold.Firewall.Activation.Rules.{Meets, Meets-bind, Post-either, core}
use sasd_gatehold.Firewall.Activation.Service.{workflow, activate, begin_run}
use sasd_gatehold.Firewall.Activation.Admitted.{
  Early, Meets-check_request, Meets-authorize, Meets-resolve_previous, Meets-resolve_target,
  Meets-revalidate,
}
use sasd_gatehold.Firewall.Activation.Commitment.{Meets-carry_out}
use sasd_gatehold.Firewall.Activation.Conditions.{Traced, Settled, Ends}

module _ (os : Os) (svc : Service) (request : ActivationRequest) (w : World)
    (bound : request.revision ≤ max_u64) (begins : w.past ≡ []) where
  Meets-workflow :
      Meets
        (Early os svc request w.disk)
        (workflow os svc request)
        (λ _. Ends request w.disk os svc)
        (Ends request w.disk os svc)
  unfolding workflow
  Meets-workflow = Meets-bind _ _ (Meets-check_request os svc request w.disk) λ _.
      Meets-bind _ _ (Meets-authorize os svc request w.disk) λ a.
        Meets-bind _ _ (Meets-resolve_previous os svc request w.disk) λ p.
          Meets-bind _ _ (Meets-resolve_target os svc request w.disk p) λ _.
            Meets-bind _ _ (Meets-revalidate os svc request w.disk p)
              λ _. Meets-carry_out os svc request w.disk p a bound

  activate-Ends : Ends request w.disk os svc (core (activate os svc request w))
  unfolding activate
  activate-Ends =
      let run = begin_run initial_result w in
      Post-either (Ends request w.disk os svc) (workflow os svc request run)
        (Meets-workflow.at run (refl, begins, refl, refl))

  -- For every host, service, request and starting world, where no disk has been passed through
  -- yet and the revision fits in 64 bits: the status that `activate` reports is true. A committed
  -- status means that PF runs the requested revision, the marker names it, the authorizer had
  -- permitted it, `pfctl -nf` had accepted the requested revision on the disk of the beginning,
  -- each probe of the service had returned a healthy result for the timeout of the request, these
  -- results, in the order of the probes, being those reported, and the confirmation gate had
  -- confirmed it (and that no transaction is left, unless cleanup is reported as pending); a
  -- rolled-back status means that PF runs the previous revision, the marker names it and no
  -- transaction is left; `transaction_store_failed` means one of the last two cases or an
  -- untouched ruleset and marker; every other status except `rollback_failed` means an untouched
  -- ruleset and marker. Nothing is said of `rollback_failed`.
  pub activate-Settled :
      let s = activate os svc request w in Settled request w.disk os svc s.result.status (core s)
  activate-Settled = activate-Ends.0

  -- For every host, service, request and starting world, where no disk has been passed through
  -- yet and the revision fits in 64 bits: without a previous revision `activate` changes nothing
  -- on disk; with one, every disk that it passes through and the last one are as before, or hold
  -- a readable transaction of this activation, or have no transaction and the previous or the
  -- requested revision both running and marked.
  pub activate-Traced :
      let s = activate os svc request w in
      Traced request w.disk s.result.rollback_revision s.world.disk s.world.past
  activate-Traced = activate-Ends.1
