-- ===== src/Firewall/Activation/Admission.antt =====
-- `PfActivationService::activate` up to the durable transaction,
-- src/core/firewall/activation_service.cpp. Each stage is a stretch of the function; a stage that
-- returns ends the run.
use sasd_gatehold.Prelude.{
  ℕ, Bool, true, false, not, ◌&&◌, ◌||◌, Option, none, some, List, [], ◌∷◌, String, ltb, ◌==◌,
  if◌then◌else◌, is_empty,
}
use sasd_gatehold.Text.{Bytes, text, eq_bytes, valid_identifier}
use sasd_gatehold.Host.{Os, timestamp}
use sasd_gatehold.Logging.Event.{Severity, info, warning, with_attribute}
use sasd_gatehold.Firewall.Revision.Store as Revisions
use sasd_gatehold.Firewall.Revision.Store.{LastKnownGoodResult, pointer_ok, read_ok}
use sasd_gatehold.Firewall.Pfctl.Run as Pfctl
use sasd_gatehold.Firewall.Pfctl.Run.{NativeValidationResult, validation_ok}
use sasd_gatehold.Firewall.Activation.Types.{
  AuthorizationStatus, AuthorizationResult, authorized, denied, authorization_ok, HealthProbe,
  ActivationStatus, invalid_request, authorization_denied, authorization_error,
  last_known_good_unavailable, target_unavailable, native_revalidation_failed, audit_failed,
  ActivationRequest, ActivationResult, Service,
}
use sasd_gatehold.Firewall.Activation.Flow.{
  Act, ◌>>=◌, ◌>>◌, pure, lift, asks, assign, return_with, append,
}
use sasd_gatehold.Firewall.Activation.Events.{
  activation_event, make_validation_event, authorization_event_id,
}

abbrev pub Step : Type 0 → Type 0
Step = Act ActivationResult

abbrev pub set_status : ActivationStatus → Bytes → Bytes → ActivationResult → ActivationResult
set_status status id message r = record r { status = status; event_id = id; message = message }

-- `fail_before_activation`.
abbrev pub fail : {A : Type 0} → ActivationStatus → Bytes → Bytes → Step A
fail status id message = return_with (set_status status id message)

abbrev pub fail_audit : {A : Type 0} → Step A
fail_audit = do
  id ← asks (λ s. s.audit_event_id)
  message ← asks (λ s. s.audit_message)
  fail audit_failed id message

unfoldable pub valid_request : ActivationRequest → Bool
valid_request q =
    valid_identifier q.operation_id
    && not (q.revision == 0)
    && valid_identifier q.authorization_reference
    && not (ltb q.probe_timeout 100)
    && not (ltb 60000 q.probe_timeout)
    && not (ltb q.confirmation_timeout 1000)
    && not (ltb 600000 q.confirmation_timeout)

mentions : Bytes → List Bytes → Bool
mentions a [] = false
mentions a (b ∷ bs) = eq_bytes a b || mentions a bs

-- The loop over the probes, with the identifiers that it has seen.
unfoldable pub distinct_probes : List Bytes → List HealthProbe → Bool
unfolding mentions
distinct_probes seen [] = true
distinct_probes seen (p ∷ ps) =
    valid_identifier p.id && not (mentions p.id seen) && distinct_probes (p.id ∷ seen) ps

abbrev unavailable_authorization : String → AuthorizationResult
unavailable_authorization words = record {
  status = AuthorizationStatus.unavailable;
  decision_id = [];
  message = text words;
}

-- An exception is unavailable, and so is a permission with an unsafe identifier.
unfoldable pub judge_authorization : Option AuthorizationResult → AuthorizationResult
judge_authorization none = unavailable_authorization "Authorization provider failed."
judge_authorization (some a) =
    if authorization_ok a && not (valid_identifier a.decision_id)
    then unavailable_authorization "Authorization provider returned an invalid decision identifier."
    else a

abbrev authorization_outcome : AuthorizationStatus → String
authorization_outcome authorized = "authorized"
authorization_outcome denied = "denied"
authorization_outcome AuthorizationStatus.unavailable = "failed"

abbrev authorization_words : AuthorizationStatus → String
authorization_words authorized = "Activation authorization was verified."
authorization_words denied = "Activation authorization was denied."
authorization_words AuthorizationStatus.unavailable =
    "Activation authorization could not be verified."

abbrev pub refusal : AuthorizationStatus → ActivationStatus
refusal denied = authorization_denied
refusal _ = authorization_error

module _ (os : Os) where
  -- An event of the activation with the time of the call.
  unfoldable pub record_event : Severity → Bytes → Bytes → String → String → Bytes → ℕ → Step Bool
  record_event severity id operation action outcome message revision = do
    t ← lift (timestamp os)
    append os (activation_event t severity id operation action outcome message revision)

  -- `if (!append(...)) return fail_before_activation(audit_failed, ...)`
  unfoldable pub audited : Step Bool → Step (Unit {0})
  audited m = do done ← m; if done then pure tt else fail_audit

  module _ (svc : Service) (request : ActivationRequest) where
    unfoldable pub check_request : Step (Unit {0})
    check_request =
        if not (valid_request request)
        then fail invalid_request (text "GH-ACT-1001")
            (text "Activation request identifiers, revision, or confirmation timeout are invalid.")
        else if not (distinct_probes [] svc.probes)
        then fail invalid_request (text "GH-ACT-1002")
            (text "Health probes must have unique safe identifiers.")
        else if is_empty svc.probes
        then fail invalid_request (text "GH-ACT-1003")
            (text "At least one health probe is required for activation.")
        else audited (
            record_event info (text "GH-ACT-0001") request.operation_id "pf.activate" "started"
              (text "PF activation workflow started.") request.revision)

    -- The event of the decision, with its identifier if it is a permission.
    unfoldable pub note_authorization : AuthorizationResult → Step Bool
    note_authorization a = do
      t ← lift (timestamp os)
      let event =
          activation_event t (if authorization_ok a then info else warning)
            (text (authorization_event_id a.status)) request.operation_id "authorization.verify"
            (authorization_outcome a.status) (text (authorization_words a.status)) request.revision
      append os (
          if authorization_ok a
          then with_attribute (text "decision_id") a.decision_id event
          else event)

    unfoldable pub authorize : Step AuthorizationResult
    authorize = do
      t ← asks (λ s. s.world.clock)
      let a =
          judge_authorization
            (svc.authorize t request.operation_id request.revision request.authorization_reference)
      assign (λ r. record r { authorization = some a })
      audited (note_authorization a)
      if authorization_ok a
          then pure a
          else fail (refusal a.status) (text (authorization_event_id a.status)) a.message

    -- No usable last-known-good revision.
    unfoldable pub refuse_previous : LastKnownGoodResult → Step ℕ
    refuse_previous previous = do
      t ← lift (timestamp os)
      let event =
          activation_event t warning (text "GH-ACT-1004") request.operation_id "pf.rollback.resolve"
            "failed" (text "No safe last-known-good revision is available for rollback.")
            request.revision
      audited (append os (with_attribute (text "revision_event_id") previous.event_id event))
      fail last_known_good_unavailable (text "GH-ACT-1004")
          (text "Activation requires an available last-known-good revision.")

    unfoldable pub accept_previous : ℕ → Step ℕ
    accept_previous p = do
      assign (λ r. record r { rollback_revision = some p })
      if p == request.revision
          then (do
            audited (
                record_event warning (text "GH-ACT-1005") request.operation_id "pf.activate"
                  "rejected" (text "Requested revision is already last known good.")
                  request.revision)
            fail invalid_request (text "GH-ACT-1005")
                (text "Requested revision is already last known good."))
          else pure p

    unfoldable pub choose_previous : LastKnownGoodResult → Option ℕ → Step ℕ
    choose_previous previous none = refuse_previous previous
    choose_previous previous (some p) =
        if pointer_ok previous then accept_previous p else refuse_previous previous

    -- The revision to fall back on.
    unfoldable pub resolve_previous : Step ℕ
    resolve_previous = do
      previous ← lift (Revisions.last_known_good os)
      choose_previous previous previous.revision

    unfoldable pub resolve_target : Step (Unit {0})
    resolve_target = do
      target ← lift (Revisions.load os request.revision)
      if read_ok target then pure tt else do
        t ← lift (timestamp os)
        let event =
            activation_event t warning (text "GH-ACT-1006") request.operation_id
              "pf.revision.resolve" "failed" (text "Target revision is unavailable or unsafe.")
              request.revision
        audited (append os (with_attribute (text "revision_event_id") target.event_id event))
        fail target_unavailable (text "GH-ACT-1006")
            (text "Target revision is unavailable or unsafe.")

    unfoldable pub revalidate : Step (Unit {0})
    revalidate = do
      audited (
          record_event info (text "GH-ACT-0002") request.operation_id "pf.ruleset.revalidate"
            "started" (text "Native validation immediately before activation started.")
            request.revision)
      validation ← lift (Pfctl.validate os request.revision)
      assign (λ r. record r { native_validation = some validation })
      t ← lift (timestamp os)
      audited (append os (make_validation_event validation t request.operation_id request.revision))
      if validation_ok validation
          then pure tt
          else fail native_revalidation_failed validation.event_id validation.message
