-- ===== src/Firewall/Activation/Approval.antt =====
-- Lemmas on the probes and the confirmation of a loaded target,
-- src/core/firewall/activation_service.cpp.
use sasd_gatehold.Prelude.{
  ℕ, ◌≡◌, refl, subst, ◌&&◌, ◌++◌, Bool, true, not, Option, none, some, List, [], ◌∷◌, arith,
  &&-right, append-nil, append_assoc,
}
use sasd_gatehold.Text.{valid_identifier}
use sasd_gatehold.Host.{Os, Disk}
use sasd_gatehold.Firewall.Transaction.Record.{ActivationPhase}
use sasd_gatehold.Firewall.Activation.Types.{
  HealthProbe, HealthProbeResult, probe_ok, ConfirmationResult, confirmation_ok, ActivationRequest,
  Service,
}
use sasd_gatehold.Firewall.Activation.Rules.{
  Meets, Meets-bind, Meets-pure, Meets-asks, Meets-now, Meets-assign, Meets-append, Meets-if,
  Meets-pre,
}
use sasd_gatehold.Firewall.Activation.Admitted.{Meets-record_event}
use sasd_gatehold.Firewall.Activation.Loading.{
  or_failed_probe, run_probe, run_probes, judge_confirmation, note_confirmation, confirm,
}
use sasd_gatehold.Firewall.Activation.Trial.{Fact, Known, Healthy, Meets-rollback, Recording-result}
use sasd_gatehold.Firewall.Activation.Recording.{Recording}
use sasd_gatehold.Firewall.Activation.Conditions.{State, Ends, Answered, Confirmed}

judge_confirmation-ok :
    (o : Option ConfirmationResult)
    → confirmation_ok (judge_confirmation o) ≡ true
    → (o ≡ some (judge_confirmation o))
      × (valid_identifier (judge_confirmation o).confirmation_id ≡ true)
unfolding judge_confirmation
judge_confirmation-ok none h = cc
judge_confirmation-ok (some a) h = ground arith

module _ (os : Os) (svc : Service) (request : ActivationRequest) (d0 : Disk) (p : ℕ) where
  abbrev End : State → Type 0
  End = Ends request d0 os svc

  abbrev Now : Fact → ActivationPhase → State → Type 0
  Now = Known os svc request d0 p

  abbrev Alive : List HealthProbe → Fact
  Alive = Healthy os svc request d0 p

  Answered-snoc :
      (xs : List HealthProbe) (rs : List HealthProbeResult) (x : HealthProbe)
      (r : HealthProbeResult) (t : ℕ)
      → Answered svc request xs rs
      → x.run request.probe_timeout t ≡ some r
      → probe_ok r ≡ true
      → Answered svc request (xs ++ x ∷ []) (rs ++ r ∷ [])
  Answered-snoc [] [] x r t h e ok = ((t, e), ok, tt)
  Answered-snoc (y ∷ ys) (s ∷ ss) x r t h e ok = (h.0, h.1, Answered-snoc ys ss x r t h.2 e ok)
  Answered-snoc [] (s ∷ ss) x r t h e ok = absurd h
  Answered-snoc (y ∷ ys) [] x r t h e ok = absurd h

  or_failed_probe-ok :
      (o : Option HealthProbeResult)
      → probe_ok (or_failed_probe o) ≡ true
      → o ≡ some (or_failed_probe o)
  or_failed_probe-ok none h = cc
  or_failed_probe-ok (some r) h = refl

  abbrev Probing : ActivationPhase → List HealthProbe → Bool → State → Type 0
  Probing phase xs ok c =
      Recording os svc request d0 p phase c × (ok ≡ true → Alive xs c.disk c.result)

  Meets-run_probe :
      (phase : ActivationPhase) (xs : List HealthProbe) (probe : HealthProbe)
      → Meets
          (Now (Alive xs) phase)
          (run_probe os request p probe)
          (λ _. Now (Alive (xs ++ probe ∷ [])) phase)
          End
  unfolding run_probe
  Meets-run_probe phase xs probe = Meets-bind _ _ (Meets-now os) λ t.
      Meets-bind _ _ (Meets-append os _) λ announced.
        Meets-if (not announced) _ _
          (λ _. Meets-rollback os svc request d0 p phase _ _ _ _ refl (λ c h. h.0))
          λ _. Meets-bind _ _ (Meets-asks _) λ clock.
            let o = probe.run request.probe_timeout clock in
            let x = or_failed_probe o in
            Meets-bind _ _
              (Meets-assign {Q = Probing phase (xs ++ probe ∷ []) (probe_ok x)} _ (λ w r h. (
                Recording-result os svc request d0 p phase w r _ refl refl refl h.0,
                λ done. (
                  h.1.0,
                  Answered-snoc xs r.probe_results probe x clock h.1.1 (or_failed_probe-ok o done)
                      done,
                ),
              )))
              λ _. Meets-bind _ _ (Meets-now os) λ t. Meets-bind _ _ (Meets-append os _) λ noted.
                Meets-if (noted && probe_ok x) _ _
                  (λ done. Meets-pre (λ c h. (h.0, h.1 (&&-right _ _ done))) (Meets-pure tt))
                  (λ _. Meets-rollback os svc request d0 p phase _ _ _ _ refl (λ c h. h.0))

  pub Meets-run_probes :
      (phase : ActivationPhase) (xs probes : List HealthProbe)
      → Meets
          (Now (Alive xs) phase)
          (run_probes os request p probes)
          (λ _. Now (Alive (xs ++ probes)) phase)
          End
  unfolding run_probes
  Meets-run_probes phase xs [] = rw append-nil (Meets-pure tt)
  Meets-run_probes phase xs (y ∷ ys) = Meets-bind _ _ (Meets-run_probe phase xs y) λ _.
      subst
        (λ zs.
          Meets (Now (Alive (xs ++ y ∷ [])) phase) (run_probes os request p ys)
            (λ _. Now (Alive zs) phase) End)
        (append_assoc xs (y ∷ []) ys) (Meets-run_probes phase (xs ++ y ∷ []) ys)

  -- The target is confirmed too.
  abbrev pub Approved : Fact
  Approved d r = Alive svc.probes d r × Confirmed svc request r.confirmation

  Meets-note_confirmation :
      {P : State → Type 0} (x : ConfirmationResult)
      → Meets P (note_confirmation os request p x) (λ _. P) End
  unfolding note_confirmation
  Meets-note_confirmation x = Meets-bind _ _ (Meets-now os) (λ t. Meets-append os _)

  abbrev Asked : ActivationPhase → Bool → State → Type 0
  Asked phase ok c = Recording os svc request d0 p phase c × (ok ≡ true → Approved c.disk c.result)

  pub Meets-confirm :
      (phase : ActivationPhase)
      → Meets
          (Now (Alive svc.probes) phase)
          (confirm os request p svc)
          (λ _. Now Approved phase)
          End
  unfolding confirm
  Meets-confirm phase =
      Meets-bind _ _ (Meets-record_event os svc request d0 _ _ _ _ _ _ _) λ announced.
        Meets-if (not announced) _ _
          (λ _. Meets-rollback os svc request d0 p phase _ _ _ _ refl (λ c h. h.0))
          λ _. Meets-bind _ _ (Meets-asks _) λ clock.
            let o =
              svc.await_confirmation clock request.operation_id request.revision
                request.confirmation_timeout in
            let x = judge_confirmation o in
            Meets-bind _ _
              (Meets-assign {Q = Asked phase (confirmation_ok x)} _ (λ w r h. (
                Recording-result os svc request d0 p phase w r _ refl refl refl h.0,
                λ done.
                    let (from, safe) = judge_confirmation-ok o done in
                    (h.1, (x, clock, refl, from, done, safe)),
              )))
              λ _. Meets-bind _ _ (Meets-note_confirmation x) λ noted.
                Meets-if (noted && confirmation_ok x) _ _
                  (λ done. Meets-pre (λ c h. (h.0, h.1 (&&-right _ _ done))) (Meets-pure tt))
                  (λ _. Meets-rollback os svc request d0 p phase _ _ _ _ refl (λ c h. h.0))
