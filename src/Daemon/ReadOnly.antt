-- ===== src/Daemon/ReadOnly.antt =====
-- The policy of the read-only daemon, src/core/daemon/read_only_activation_policy.cpp, and an
-- activation under it. The daemon constructs its activation service with these three objects.
use sasd_gatehold.Prelude.{
  ℕ, ◌≡◌, refl, ◌⊎◌, inl, inr, Bool, true, false, not, Option, none, some, [], ◌∷◌, arith,
}
use sasd_gatehold.Text.{Bytes, text, valid_identifier}
use sasd_gatehold.Host.{Os, World}
use sasd_gatehold.Firewall.Activation.Types.{
  AuthorizationResult, denied, HealthProbe, HealthProbeResult, execution_error, ConfirmationResult,
  ConfirmationStatus, ActivationStatus, invalid_request, authorization_denied, audit_failed,
  ActivationRequest, Service, initial_result,
}
use sasd_gatehold.Firewall.Activation.Flow.{asks, ◌>>=◌}
use sasd_gatehold.Firewall.Activation.Rules.{
  Meets, Meets-bind, Meets-pure, Meets-asks, Meets-now, Meets-assign, Meets-return, Meets-append,
  Meets-if, Meets-pre, Meets-know, Post-either, core,
}
use sasd_gatehold.Firewall.Activation.Admission.{
  Step, set_status, fail, record_event, audited, valid_request, judge_authorization,
  distinct_probes, check_request, authorize, note_authorization,
}
use sasd_gatehold.Firewall.Activation.Service.{workflow, activate, begin_run}
use sasd_gatehold.Firewall.Activation.Conditions.{State}

-- `ReadOnlyActivationAuthorizer::authorize`.
unfoldable pub authorize_none : ℕ → Bytes → ℕ → Bytes → Option AuthorizationResult
authorize_none _ _ _ _ = some (record {
  status = denied;
  decision_id = [];
  message = text "This bootstrap daemon does not authorize PF activation.";
})

-- `UnavailableConfirmationGate::await_confirmation`.
unfoldable pub await_nothing : ℕ → Bytes → ℕ → ℕ → Option ConfirmationResult
await_nothing _ _ _ _ = some (record {
  status = ConfirmationStatus.unavailable;
  confirmation_id = [];
  message = text "This bootstrap daemon has no confirmation provider.";
})

-- `FailClosedActivationHealthProbe::run`.
unfoldable pub run_closed : ℕ → ℕ → Option HealthProbeResult
run_closed _ _ = some (record {
  status = execution_error;
  message = text "This bootstrap daemon has no activation health probe.";
})

abbrev pub fail_closed_probe : HealthProbe
fail_closed_probe = record { id = text "read-only-daemon"; run = run_closed }

abbrev pub read_only_service : Service
read_only_service = record {
  authorize = authorize_none;
  await_confirmation = await_nothing;
  probes = fail_closed_probe ∷ [];
}

-- The identifier of the probe is a safe one.
fail_closed_probe-distinct : distinct_probes [] read_only_service.probes ≡ true
unfolding distinct_probes valid_identifier text
fail_closed_probe-distinct = refl

module _ (os : Os) (request : ActivationRequest) (w : World) where
  -- The disk and its earlier states are as before, and PF was not called.
  abbrev Idle : State → Type 0
  Idle c =
      (c.disk ≡ w.disk)
      × (c.past ≡ w.past)
      × (c.result.rollback_revision ≡ none)
      × (c.result.native_validation ≡ none)
      × (c.result.activation ≡ none)
      × (c.result.transaction ≡ none)

  -- The statuses that a refusal reports.
  abbrev pub Refusal : Bool → ActivationStatus → Type 0
  Refusal valid status =
      ((valid ≡ false) × (status ≡ invalid_request))
      ⊎ ((valid ≡ true) × ((status ≡ audit_failed) ⊎ (status ≡ authorization_denied)))

  abbrev pub Refused : State → Type 0
  Refused c = Idle c × Refusal (valid_request request) c.result.status

  Meets-refuse :
      {A : Type 0} {Q : A → State → Type 0} (status : ActivationStatus) (id message : Bytes)
      → Refusal (valid_request request) status
      → Meets Idle (fail status id message) Q Refused
  Meets-refuse status id message r = Meets-return (set_status status id message) (λ w r' h. (h, r))

  abbrev Valid : State → Type 0
  Valid c = Idle c × (valid_request request ≡ true)

  Meets-audited :
      (m : Step Bool)
      → valid_request request ≡ true
      → Meets Idle m (λ _. Idle) Refused
      → Meets Idle (audited os m) (λ _. Valid) Refused
  unfolding audited
  Meets-audited m valid h = Meets-bind m _ h λ done.
      Meets-if done _ _ (λ _. Meets-pre (λ c h. (h, valid)) (Meets-pure tt))
        λ _. Meets-bind (asks _) _ (Meets-asks _) λ id.
          Meets-bind (asks _) _ (Meets-asks _)
            λ message. Meets-refuse audit_failed id message (inr (valid, inl refl))

  Meets-check_request : Meets Idle (check_request os read_only_service request) (λ _. Valid) Refused
  unfolding check_request record_event
  Meets-check_request =
      Meets-if (not (valid_request request)) _ _
        (λ bad. Meets-refuse invalid_request _ _ (inl (ground arith, refl)))
        λ good.
          Meets-if (not (distinct_probes [] read_only_service.probes)) _ _
            (λ bad. cc (fail_closed_probe-distinct))
            λ _.
              Meets-audited _ (ground arith)
                (Meets-bind _ _ (Meets-now os) (λ t. Meets-append os _))

  -- Nothing follows a refused authorization.
  Meets-denied :
      {A : Type 0} {Q : A → State → Type 0} (f : AuthorizationResult → Step A)
      → valid_request request ≡ true
      → Meets Idle (authorize os read_only_service request >>= f) Q Refused
  unfolding authorize note_authorization authorize_none judge_authorization
  Meets-denied f valid =
      Meets-bind {Q = λ _ _. false ≡ true} _ f
        (Meets-bind _ _ (Meets-asks _) λ t.
          Meets-bind _ _ (Meets-assign {Q = Idle} _ (λ w r h. h)) λ _.
            Meets-bind _ _
              (Meets-audited _ valid (Meets-bind _ _ (Meets-now os) (λ t. Meets-append os _)))
              λ _.
                Meets-pre (λ c h. h.0)
                  (Meets-refuse authorization_denied _ _ (inr (valid, inr refl))))
        (λ a. record { at = λ s h. cc })

  -- For every host, request and starting world: an activation of the read-only daemon leaves the
  -- disk and its earlier states as they were, finds no revision to fall back on, and neither
  -- validates nor loads a revision nor begins a transaction. It reports `invalid_request` if the
  -- request is not valid, and otherwise that the audit trail failed or the authorization was
  -- denied.
  pub activate-Refused : Refused (core (activate os read_only_service request w))
  unfolding activate workflow
  activate-Refused =
      let run = begin_run initial_result w in
      Post-either Refused (workflow os read_only_service request run) (
        (Meets-bind {S = λ _. Refused} (check_request os read_only_service request) _
            Meets-check_request (λ _. Meets-know (Meets-denied _))).at
          run (refl, refl, refl, refl, refl, refl))
