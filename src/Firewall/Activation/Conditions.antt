-- ===== src/Firewall/Activation/Conditions.antt =====
-- What an activation leaves behind: the conditions that the proofs carry from stage to stage, and
-- the condition in which every run ends.
use sasd_gatehold.Prelude.{ℕ, ◌≡◌, ◌⊎◌, Bool, true, false, Option, none, some, List, [], ◌∷◌, All}
use sasd_gatehold.Text.{valid_identifier}
use sasd_gatehold.Host.{Os, Disk, World}
use sasd_gatehold.Firewall.Transaction.Record.{ActivationPhase, PendingActivation}
use sasd_gatehold.Firewall.Transaction.Effect.{Holds}
use sasd_gatehold.Firewall.Revision.Store.{marker_file}
use sasd_gatehold.Firewall.Pfctl.Run as Pfctl
use sasd_gatehold.Firewall.Pfctl.Run.{NativeValidationResult, validation_ok}
use sasd_gatehold.Firewall.Activation.Types.{
  AuthorizationResult, authorization_ok, HealthProbe, HealthProbeResult, probe_ok,
  ConfirmationResult, confirmation_ok, ActivationStatus, committed, activation_failed,
  verification_failed_rolled_back, confirmation_failed_rolled_back, commit_failed_rolled_back,
  transaction_store_failed, committed_with_warning, committed_cleanup_pending,
  audit_failed_rolled_back, rollback_failed, ActivationRequest, ActivationResult, Service,
}
use sasd_gatehold.Firewall.Activation.Rollback.{transaction}
use sasd_gatehold.Firewall.Activation.Rules.{Core}

-- PF runs revision `r`, and `r` is marked as last known good.
abbrev pub Restored : ℕ → Disk → Type 0
Restored r d = (d.active ≡ r) × (d.marker ≡ some (marker_file r))

-- The ruleset and the marker are as they were.
abbrev pub Untouched : Disk → Disk → Type 0
Untouched d0 d = (d.active ≡ d0.active) × (d.marker ≡ d0.marker)

abbrev pub State : Type 0
State = Core ActivationResult

-- The statuses of a run that has not changed PF.
abbrev pub is_untouched : ActivationStatus → Bool
is_untouched committed = false
is_untouched committed_with_warning = false
is_untouched committed_cleanup_pending = false
is_untouched activation_failed = false
is_untouched verification_failed_rolled_back = false
is_untouched confirmation_failed_rolled_back = false
is_untouched commit_failed_rolled_back = false
is_untouched audit_failed_rolled_back = false
is_untouched transaction_store_failed = true
is_untouched rollback_failed = true
is_untouched _ = true

module _ (svc : Service) (request : ActivationRequest) where
  -- The authorizer has permitted this operation, revision and reference, under a safe identifier.
  abbrev pub Authorized : Option AuthorizationResult → Type 0
  Authorized r =
      (a : AuthorizationResult) × (t : ℕ) × (r ≡ some a)
      × (svc.authorize t request.operation_id request.revision request.authorization_reference
          ≡ some a)
      × (authorization_ok a ≡ true)
      × (valid_identifier a.decision_id ≡ true)

  -- The confirmation gate has confirmed this operation and revision, under a safe identifier.
  abbrev pub Confirmed : Option ConfirmationResult → Type 0
  Confirmed r =
      (c : ConfirmationResult) × (t : ℕ) × (r ≡ some c)
      × (svc.await_confirmation t request.operation_id request.revision request.confirmation_timeout
          ≡ some c)
      × (confirmation_ok c ≡ true)
      × (valid_identifier c.confirmation_id ≡ true)

  -- One answer for each of these probes, in their order: what the probe returned when it ran with the
  -- timeout of the request, and healthy.
  abbrev pub Answered : List HealthProbe → List HealthProbeResult → Type 0
  Answered [] [] = Unit
  Answered (x ∷ xs) (r ∷ rs) =
      ((t : ℕ) × (x.run request.probe_timeout t ≡ some r)) × (probe_ok r ≡ true) × Answered xs rs
  Answered _ _ = ⊥

module _ (os : Os) (svc : Service) (request : ActivationRequest) (d0 : Disk) where
  -- `pfctl -nf` ran on the requested revision, on the disk of the beginning, and has accepted it.
  abbrev pub Validated : Option NativeValidationResult → Type 0
  Validated r =
      (w : World) × (w.disk ≡ d0)
      × (r ≡ some (Pfctl.validate os request.revision w).0)
      × (validation_ok (Pfctl.validate os request.revision w).0 ≡ true)

  abbrev pub Granted : ActivationResult → Type 0
  Granted r = Authorized svc request r.authorization × Validated r.native_validation

  -- A commit passed every gate, and has put the target in place: every probe of the service has
  -- answered, and each answer was healthy.
  abbrev pub Committed : State → Type 0
  Committed c =
      Restored request.revision c.disk
      × Granted c.result
      × Answered svc request svc.probes c.result.probe_results
      × Confirmed svc request c.result.confirmation

-- The previous revision is back in place, and no transaction is left.
abbrev pub RolledBack : State → Type 0
RolledBack c =
    (p : ℕ) × (c.result.rollback_revision ≡ some p) × Restored p c.disk × (c.disk.pending ≡ none)

abbrev pub transaction_at : ActivationRequest → ℕ → ActivationPhase → PendingActivation
transaction_at request p phase = let t = transaction request p in record t { phase = phase }

module _ (request : ActivationRequest) (d0 : Disk) where
  -- A disk from which the firewall comes back after a crash: as before the activation, or with a
  -- readable transaction of this activation that names the revision to return to, or with the old
  -- or the new revision in place and no transaction.
  abbrev pub Recoverable : ℕ → Disk → Type 0
  Recoverable p d =
      (d ≡ d0)
      ⊎ ((phase : ActivationPhase) × Holds (transaction_at request p phase) d)
      ⊎ ((d.pending ≡ none) × Restored p d)
      ⊎ ((d.pending ≡ none) × Restored request.revision d)

  -- Every disk that there was, and the one that there is, is recoverable; before a revision to fall
  -- back on is known, nothing has changed.
  abbrev pub Traced : Option ℕ → Disk → List Disk → Type 0
  Traced none d past = (d ≡ d0) × (past ≡ [])
  Traced (some p) d past = Recoverable p d × All (Recoverable p) past

  module _ (os : Os) (svc : Service) where
    -- What each status says of the ruleset, the marker and the transaction.
    abbrev pub Settled : ActivationStatus → State → Type 0
    Settled committed c = Committed os svc request d0 c × (c.disk.pending ≡ none)
    Settled committed_with_warning c = Committed os svc request d0 c × (c.disk.pending ≡ none)
    Settled committed_cleanup_pending c = Committed os svc request d0 c
    Settled activation_failed c = RolledBack c
    Settled verification_failed_rolled_back c = RolledBack c
    Settled confirmation_failed_rolled_back c = RolledBack c
    Settled commit_failed_rolled_back c = RolledBack c
    Settled audit_failed_rolled_back c = RolledBack c
    Settled transaction_store_failed c = Untouched d0 c.disk ⊎ RolledBack c
    Settled rollback_failed c = Unit
    Settled _ c = Untouched d0 c.disk

    abbrev pub Ends : State → Type 0
    Ends c = Settled c.result.status c × Traced c.result.rollback_revision c.disk c.past
