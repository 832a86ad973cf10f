-- ===== src/Firewall/Activation/Admitted.antt =====
-- Lemmas on the stages of an activation before its durable transaction,
-- src/core/firewall/activation_service.cpp.
use sasd_gatehold.Prelude.{
  ℕ, String, ◌≤◌, ◌≡◌, refl, sym, ap, ◌∙◌, inl, Bool, true, not, Option, none, some, [], arith,
  ◌==◌, is_empty,
}
use sasd_gatehold.Text.{Bytes, valid_identifier}
use sasd_gatehold.Text.Decimal.{max_u64}
use sasd_gatehold.Host.{Os, World, Disk, timestamp}
use sasd_gatehold.Logging.Event.{Severity}
use sasd_gatehold.Firewall.Revision.Store as Revisions
use sasd_gatehold.Firewall.Revision.Store.{LastKnownGoodResult, pointer_ok, read_ok}
use sasd_gatehold.Firewall.Revision.Effect as RevisionEffect
use sasd_gatehold.Firewall.Pfctl.Run as Pfctl
use sasd_gatehold.Firewall.Pfctl.Run.{NativeValidationResult, validation_ok}
use sasd_gatehold.Firewall.Activation.Types.{
  AuthorizationResult, authorization_ok, ActivationStatus, audit_failed, ActivationRequest,
  ActivationResult, Service,
}
use sasd_gatehold.Firewall.Activation.Flow.{lift, asks}
use sasd_gatehold.Firewall.Activation.Rules.{
  core_of, Meets, Meets-bind, Meets-pure, Meets-asks, Meets-lift, Meets-now, Meets-assign,
  Meets-return, Meets-append, Meets-if, Meets-pre, Meets-know,
}
use sasd_gatehold.Firewall.Activation.Admission.{
  Step, set_status, fail, fail_audit, record_event, audited, valid_request, judge_authorization,
  distinct_probes, check_request, authorize, resolve_previous, resolve_target, revalidate,
  note_authorization, refusal, choose_previous, refuse_previous, accept_previous,
}
use sasd_gatehold.Firewall.Activation.Conditions.{
  is_untouched, Untouched, State, Authorized, Validated, Traced, Settled, Ends,
}

module _ (os : Os) (svc : Service) (request : ActivationRequest) (d0 : Disk) where
  abbrev End : State → Type 0
  End = Ends request d0 os svc

  pub Settled-Untouched :
      (status : ActivationStatus) (c : State)
      → is_untouched status ≡ true
      → Untouched d0 c.disk
      → Settled request d0 os svc status c
  Settled-Untouched ActivationStatus.committed c h u = cc
  Settled-Untouched status c h u = ground arith

  pub Meets-record_event :
      {P : State → Type 0} (s : Severity) (id operation : Bytes) (action outcome : String)
      (message : Bytes) (r : ℕ)
      → Meets P (record_event os s id operation action outcome message r) (λ _. P) End
  unfolding record_event
  Meets-record_event s id operation action outcome message r =
      Meets-bind (lift (timestamp os)) _ (Meets-now os) (λ t. Meets-append os _)

  -- A condition under which PF and the marker are as they were.
  abbrev pub Calm : (State → Type 0) → Type 0
  Calm P =
      (c : State)
      → P c
      → Untouched d0 c.disk × Traced request d0 c.result.rollback_revision c.disk c.past

  pub Meets-fail :
      {A : Type 0} {P : State → Type 0} {Q : A → State → Type 0} (status : ActivationStatus)
      (id message : Bytes)
      → is_untouched status ≡ true
      → Calm P
      → Meets P (fail status id message) Q End
  Meets-fail status id message u calm =
      Meets-return (set_status status id message)
        (λ w r p. (Settled-Untouched status _ u (calm _ p).0, (calm _ p).1))

  pub Meets-fail_audit :
      {A : Type 0} {P : State → Type 0} {Q : A → State → Type 0} → Calm P → Meets P fail_audit Q End
  Meets-fail_audit calm =
      Meets-bind (asks _) _ (Meets-asks _)
        (λ id. Meets-bind (asks _) _ (Meets-asks _) (λ m. Meets-fail audit_failed id m refl calm))

  pub Meets-audited :
      {P : State → Type 0} {m : Step Bool}
      → Calm P
      → Meets P m (λ _. P) End
      → Meets P (audited os m) (λ _. P) End
  unfolding audited
  Meets-audited {m} calm h =
      Meets-bind m _ h (λ done. Meets-if done _ _ (λ _. Meets-pure tt) (λ _. Meets-fail_audit calm))

  -- Nothing has changed, no revision to fall back on is known, and no probe has run.
  abbrev pub Early : State → Type 0
  Early c =
      (c.disk ≡ d0)
      × (c.past ≡ [])
      × (c.result.rollback_revision ≡ none)
      × (c.result.probe_results ≡ [])

  -- The same, with the permission.
  abbrev pub Permitted : State → Type 0
  Permitted c = Early c × Authorized svc request c.result.authorization

  -- Nothing has changed; revision `p` is the one to fall back on.
  abbrev pub Ready : ℕ → State → Type 0
  Ready p c =
      (c.disk ≡ d0)
      × (c.past ≡ [])
      × (c.result.rollback_revision ≡ some p)
      × (p ≤ max_u64)
      × (c.result.probe_results ≡ [])
      × Authorized svc request c.result.authorization

  Calm-Early : Calm Early
  Calm-Early c h = ((ground arith, ground arith), rw (h.2) (h.0, h.1))

  Calm-Permitted : Calm Permitted
  Calm-Permitted c h = Calm-Early c h.0

  pub Calm-Ready : (p : ℕ) → Calm (Ready p)
  Calm-Ready p c h = ((ground arith, ground arith), rw h.2 (inl h.0, rw h.1 tt))

  pub Meets-check_request : Meets Early (check_request os svc request) (λ _. Early) End
  unfolding check_request
  Meets-check_request =
      Meets-if (not (valid_request request)) _ _ (λ _. Meets-fail _ _ _ refl Calm-Early)
        λ _.
          Meets-if (not (distinct_probes [] svc.probes)) _ _ (λ _. Meets-fail _ _ _ refl Calm-Early)
            λ _.
              Meets-if (is_empty svc.probes) _ _ (λ _. Meets-fail _ _ _ refl Calm-Early)
                λ _. Meets-audited Calm-Early (Meets-record_event _ _ _ _ _ _ _)

  judge_authorization-ok :
      (o : Option AuthorizationResult)
      → authorization_ok (judge_authorization o) ≡ true
      → (o ≡ some (judge_authorization o))
        × (valid_identifier (judge_authorization o).decision_id ≡ true)
  unfolding judge_authorization
  judge_authorization-ok none h = cc
  judge_authorization-ok (some a) h = ground arith

  Meets-note_authorization :
      {P : State → Type 0} (a : AuthorizationResult)
      → Meets P (note_authorization os svc request a) (λ _. P) End
  unfolding note_authorization
  Meets-note_authorization a = Meets-bind _ _ (Meets-now os) (λ t. Meets-append os _)

  refusal-untouched : (a : AuthorizationResult) → is_untouched (refusal a.status) ≡ true
  refusal-untouched a = ground arith

  -- An activation goes on only with the permission of the authorizer.
  pub Meets-authorize : Meets Early (authorize os svc request) (λ _. Permitted) End
  unfolding authorize
  Meets-authorize = Meets-bind _ _ (Meets-asks _) λ t.
      let o =
        svc.authorize t request.operation_id request.revision request.authorization_reference in
      let a = judge_authorization o in
      let Asked : State → Type 0 = λ c. Early c × (c.result.authorization ≡ some a) in
      let calm : Calm Asked = λ c h. Calm-Early c h.0 in
      Meets-bind _ _ (Meets-assign {Q = Asked} _ (λ w r h. (h, refl))) λ _.
        Meets-bind _ _ (Meets-audited calm (Meets-note_authorization a)) λ _.
          Meets-if (authorization_ok a) _ _
            (λ yes_.
              let (from, safe) = judge_authorization-ok o yes_ in
              Meets-pre (λ c h. (h.0, (a, t, h.1, from, yes_, safe))) (Meets-pure a))
            (λ _. Meets-fail _ _ _ (refusal-untouched a) calm)

  Meets-refuse_previous :
      (previous : LastKnownGoodResult)
      → Meets Permitted (refuse_previous os svc request previous) Ready End
  unfolding refuse_previous
  Meets-refuse_previous previous = Meets-bind _ _ (Meets-now os) λ t.
      Meets-bind _ _ (Meets-audited Calm-Permitted (Meets-append os _))
        λ _. Meets-fail _ _ _ refl Calm-Permitted

  Meets-accept_previous :
      (p : ℕ) → p ≤ max_u64 → Meets Permitted (accept_previous os svc request p) Ready End
  unfolding accept_previous
  Meets-accept_previous p bound =
      Meets-bind _ _
        (Meets-assign {Q = Ready p} _ (λ w r h. (h.0.0, h.0.1, refl, bound, h.0.3, h.1)))
        λ _.
          Meets-if (p == request.revision) _ _
            (λ _.
              Meets-bind _ _ (Meets-audited (Calm-Ready p) (Meets-record_event _ _ _ _ _ _ _))
                λ _. Meets-fail _ _ _ refl (Calm-Ready p))
            (λ _. Meets-pure p)

  Meets-choose_previous :
      (previous : LastKnownGoodResult) (o : Option ℕ)
      → ((p : ℕ) → o ≡ some p → p ≤ max_u64)
      → Meets Permitted (choose_previous os svc request previous o) Ready End
  unfolding choose_previous
  Meets-choose_previous previous none bound = Meets-refuse_previous previous
  Meets-choose_previous previous (some p) bound =
      Meets-if (pointer_ok previous) _ _ (λ _. Meets-accept_previous p (bound p refl))
        (λ _. Meets-refuse_previous previous)

  -- The revision to fall back on is the marked one.
  pub Meets-resolve_previous : Meets Permitted (resolve_previous os svc request) Ready End
  unfolding resolve_previous
  Meets-resolve_previous =
      Meets-bind _ _
        (Meets-lift
          {Q = λ (l : LastKnownGoodResult) c.
            Permitted c × ((p : ℕ) → l.revision ≡ some p → p ≤ max_u64)}
          (Revisions.last_known_good os)
          (λ w r h.
            let (d, ps) = RevisionEffect.last_known_good-quiet os w in
            (
              ((d ∙ h.0.0, ps ∙ h.0.1, h.0.2, h.0.3), h.1),
              RevisionEffect.last_known_good-bound os w,
            )))
        (λ l. Meets-know (λ bound. Meets-choose_previous l l.revision bound))

  -- A call that leaves the disk alone keeps the condition.
  Ready-quiet :
      (p : ℕ) (w w' : World) (r : ActivationResult)
      → (w'.disk ≡ w.disk) × (w'.past ≡ w.past)
      → Ready p (core_of w r)
      → Ready p (core_of w' r)
  Ready-quiet p w w' r q h = (q.0 ∙ h.0, q.1 ∙ h.1, h.2, h.3, h.4, h.5)

  pub Meets-resolve_target :
      (p : ℕ) → Meets (Ready p) (resolve_target os svc request) (λ _. Ready p) End
  unfolding resolve_target
  Meets-resolve_target p =
      Meets-bind _ _
        (Meets-lift {Q = λ _. Ready p} (Revisions.load os request.revision) (λ w r h.
          Ready-quiet p w (Revisions.load os request.revision w).1 r
            (RevisionEffect.load-quiet os request.revision w) h))
        λ target.
          Meets-if (read_ok target) _ _ (λ _. Meets-pure tt)
            λ _. Meets-bind _ _ (Meets-now os) λ t.
              Meets-bind _ _ (Meets-audited (Calm-Ready p) (Meets-append os _))
                λ _. Meets-fail _ _ _ refl (Calm-Ready p)

  -- Ready, and the target is natively valid.
  abbrev pub Cleared : ℕ → State → Type 0
  Cleared p c = Ready p c × Validated os svc request d0 c.result.native_validation

  -- The verdict of a run of `pfctl -nf` on the target.
  abbrev Ran : NativeValidationResult → Type 0
  Ran v = (w : World) × (w.disk ≡ d0) × (v ≡ (Pfctl.validate os request.revision w).0)

  -- An activation goes on only with a target that `pfctl` has accepted.
  pub Meets-revalidate : (p : ℕ) → Meets (Ready p) (revalidate os svc request) (λ _. Cleared p) End
  unfolding revalidate
  Meets-revalidate p =
      Meets-bind _ _ (Meets-audited (Calm-Ready p) (Meets-record_event _ _ _ _ _ _ _)) λ _.
        Meets-bind _ _
          (Meets-lift {Q = λ v c. Ready p c × Ran v} (Pfctl.validate os request.revision) (λ w r h.
            (
              Ready-quiet p w (Pfctl.validate os request.revision w).1 r
                  (Pfctl.validate-quiet os request.revision w) h,
              (w, h.0, refl),
            )))
          λ v. Meets-know λ ran.
            let Tried : State → Type 0 = λ c. Ready p c × (c.result.native_validation ≡ some v) in
            let calm : Calm Tried = λ c h. Calm-Ready p c h.0 in
            Meets-bind _ _ (Meets-assign {Q = Tried} _ (λ w r h. (h, refl))) λ _.
              Meets-bind _ _ (Meets-now os) λ t.
                Meets-bind _ _ (Meets-audited calm (Meets-append os _)) λ _.
                  Meets-if (validation_ok v) _ _
                    (λ valid.
                      Meets-pre
                        (λ c h. (
                          h.0,
                          (ran.0, ran.1, h.1 ∙ ap some ran.2, ap validation_ok (sym ran.2) ∙ valid),
                        ))
                        (Meets-pure tt))
                    (λ _. Meets-fail _ _ _ refl calm)
