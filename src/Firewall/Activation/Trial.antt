-- ===== src/Firewall/Activation/Trial.antt =====
-- Lemmas on the load of the target and on the phases of its transaction,
-- src/core/firewall/activation_service.cpp.
use sasd_gatehold.Prelude.{
  ℕ, ◌≡◌, refl, ap, inl, inr, ◌∙◌, ◌&&◌, Bool, true, not, Option, some, List, [], arith, &&-left,
}
use sasd_gatehold.Text.{Bytes}
use sasd_gatehold.Host.{Os, World, Disk}
use sasd_gatehold.Firewall.Transaction.Record.{ActivationPhase}
use sasd_gatehold.Firewall.Transaction.Store as Transactions
use sasd_gatehold.Firewall.Transaction.Store.{
  ActivationTransactionResult, ActivationTransactionStatus, advanced, put_pending, record_file,
}
use sasd_gatehold.Firewall.Transaction.Effect.{AtMost, Holds, advance-AtMost, advance-advanced}
use sasd_gatehold.Firewall.Pfctl.Run as Pfctl
use sasd_gatehold.Firewall.Pfctl.Run.{put_active, load_ok}
use sasd_gatehold.Firewall.Activation.Types.{
  HealthProbe, ActivationStatus, ActivationRequest, ActivationResult, Service,
}
use sasd_gatehold.Firewall.Activation.Rules.{
  core_of, Meets, Meets-bind, Meets-pure, Meets-lift, Meets-now, Meets-assign, Meets-append,
  Meets-if, Meets-pre, Meets-any,
}
use sasd_gatehold.Firewall.Activation.Rollback.{note_transaction}
use sasd_gatehold.Firewall.Activation.Loading.{is_advanced, rollback, load_target, advance_to}
use sasd_gatehold.Firewall.Activation.Undone.{is_rollback, Meets-rollback_to_previous}
use sasd_gatehold.Firewall.Activation.Recording.{
  Recording, Recording-AtMost, Recording-quiet, Recording-written,
}
use sasd_gatehold.Firewall.Activation.Conditions.{State, Answered, transaction_at, Ends}

is_advanced-advanced : (s : ActivationTransactionStatus) → is_advanced s ≡ true → s ≡ advanced
is_advanced-advanced advanced h = refl
is_advanced-advanced s h = ground arith

-- A fact that an activation carries from phase to phase.
abbrev pub Fact : Type 1
Fact = Disk → ActivationResult → Type 0

module _ (os : Os) (svc : Service) (request : ActivationRequest) (d0 : Disk) (p : ℕ) where
  abbrev End : State → Type 0
  End = Ends request d0 os svc

  abbrev Rec : ActivationPhase → State → Type 0
  Rec = Recording os svc request d0 p

  -- The rollback from a recorded transaction.
  pub Meets-rollback :
      {A : Type 0} {P : State → Type 0} {Q : A → State → Type 0} (phase : ActivationPhase)
      (status : ActivationStatus) (id message : Bytes) (compromised : Bool)
      → is_rollback status ≡ true
      → ((c : State) → P c → Rec phase c)
      → Meets P (rollback os request p status id message compromised) Q End
  Meets-rollback phase status id message compromised u recorded =
      Meets-pre recorded (Meets-rollback_to_previous os svc request d0 p phase _ compromised u)

  -- The transaction is recorded in the phase, and the fact holds.
  abbrev pub Known : Fact → ActivationPhase → State → Type 0
  Known fact phase c = Rec phase c × fact c.disk c.result

  -- A change of the result that keeps what the record of the transaction speaks of.
  pub Recording-result :
      (phase : ActivationPhase) (w : World) (r r' : ActivationResult)
      → r'.rollback_revision ≡ r.rollback_revision
      → r'.authorization ≡ r.authorization
      → r'.native_validation ≡ r.native_validation
      → Rec phase (core_of w r)
      → Rec phase (core_of w r')
  Recording-result phase w r r' k a v h = record {
    holds = h.holds;
    traced = h.traced;
    known = k ∙ h.known;
    granted = rw (a, v) h.granted;
    readable = h.readable;
  }

  -- The target is loaded, and no probe has run.
  abbrev pub Unprobed : Fact
  Unprobed d r = r.probe_results ≡ []

  -- PF runs the target, and these are the probes that have answered, each of them healthy.
  abbrev pub Healthy : List HealthProbe → Fact
  Healthy xs d r = (d.active ≡ request.revision) × Answered svc request xs r.probe_results

  Rec-active :
      (phase : ActivationPhase) (d : Disk) (k : ℕ)
      → Holds (transaction_at request p phase) d
      → Holds (transaction_at request p phase) (put_active k d)
  Rec-active phase d k h = record { stored = h.stored; readable = h.readable }

  abbrev Loaded : ActivationPhase → Bool → State → Type 0
  Loaded phase done c =
      Rec phase c × (done ≡ true → c.disk.active ≡ request.revision) × (c.result.probe_results ≡ [])

  pub Meets-load_target :
      (phase : ActivationPhase)
      → Meets (Known Unprobed phase) (load_target os request p) (λ _. Known (Healthy []) phase) End
  unfolding load_target
  Meets-load_target phase =
      Meets-bind _ _
        (Meets-lift {Q = λ x. Loaded phase (load_ok x)} (Pfctl.load os request.revision) (λ w r h. (
          Recording-AtMost os svc request d0 p phase (put_active request.revision w.disk) w
              (Pfctl.load os request.revision w).1 r
              (Rec-active phase w.disk request.revision h.0.holds)
              (Pfctl.load-AtMost os request.revision w) h.0,
          λ done. ap (λ (d : Disk). d.active) (Pfctl.load-loaded os request.revision w done).0,
          h.1,
        )))
        λ x.
          Meets-bind _ _
            (Meets-assign {Q = Loaded phase (load_ok x)} _
              (λ w r h. (Recording-result phase w r _ refl refl refl h.0, h.1, h.2)))
            λ _. Meets-bind _ _ (Meets-now os) λ t. Meets-bind _ _ (Meets-append os _) λ noted.
              Meets-if (not noted) _ _ (λ _. Meets-rollback phase _ _ _ _ refl (λ c h. h.0))
                λ _.
                  Meets-if (load_ok x) _ _
                    (λ done. Meets-pre (λ c h. (h.0, (h.1 done, rw (h.2) tt))) (Meets-pure tt))
                    (λ _. Meets-rollback phase _ _ _ _ refl (λ c h. h.0))

  -- The record may have been written although `advance` reports a failure.
  abbrev pub Advanced : Fact → ActivationPhase → Bool → State → Type 0
  Advanced fact next done c = ((q : ActivationPhase) × Rec q c) × (done ≡ true → Known fact next c)

  module _ (fact : Fact)
      (fact_pending : (f : Option _) (d : Disk) (r : ActivationResult)
        → fact d r
        → fact (put_pending f d) r)
      (fact_transaction : (t : Option ActivationTransactionResult) (d : Disk) (r : ActivationResult)
        → fact d r
        → fact d (record r { transaction = t })) where
    advance_any :
        (phase next : ActivationPhase) (w w' : World) (r : ActivationResult)
        → Rec phase (core_of w r)
        → AtMost (put_pending (some (record_file (transaction_at request p next))) w.disk) w w'
        → (q : ActivationPhase) × Rec q (core_of w' r)
    advance_any phase next w w' r h (inl q) =
        (phase, Recording-quiet os svc request d0 p phase w w' r q h)
    advance_any phase next w w' r h (inr q) = (
      next,
      Recording-written os svc request d0 p phase next
          (put_pending (some (record_file (transaction_at request p next))) w.disk) w w' r
          (record { stored = refl; readable = h.readable next }) q h,
    )

    pub advance-Known :
        (phase next : ActivationPhase) (w : World) (r : ActivationResult)
        → Known fact phase (core_of w r)
        → let x = Transactions.advance os request.operation_id next w in
          Advanced fact next (is_advanced x.0.status) (core_of x.1 r)
    advance-Known phase next w r h =
        let x = Transactions.advance os request.operation_id next w in
        let t = transaction_at request p phase in
        let d = put_pending (some (record_file (transaction_at request p next))) w.disk in
        (
          advance_any phase next w x.1 r h.0
              (advance-AtMost os t request.operation_id next w h.0.holds),
          λ done.
              let a =
                advance-advanced os t request.operation_id next w h.0.holds
                  (is_advanced-advanced x.0.status done) in
              (
                Recording-written os svc request d0 p phase next d w x.1 r
                    (record { stored = refl; readable = h.0.readable next }) (a.0, a.1) h.0,
                rw (a.0) (fact_pending _ w.disk r h.1),
              ),
        )

    -- `advance`, and the result that keeps what it returned.
    pub Meets-advance :
        (phase next : ActivationPhase)
        → Meets (Known fact phase) (advance_to os request p next) (λ _. Known fact next) End
    unfolding advance_to note_transaction
    Meets-advance phase next =
        Meets-bind _ _
          (Meets-lift {Q = λ x. Advanced fact next (is_advanced x.status)}
            (Transactions.advance os request.operation_id next)
            (λ w r h. advance-Known phase next w r h))
          λ x.
            Meets-bind _ _
              (Meets-assign {Q = Advanced fact next (is_advanced x.status)} _ (λ w r h. (
                (h.0.0, Recording-result h.0.0 w r _ refl refl refl h.0.1),
                λ done. (
                  Recording-result next w r _ refl refl refl (h.1 done).0,
                  fact_transaction _ w.disk r (h.1 done).1,
                ),
              )))
              λ _. Meets-bind _ _ (Meets-bind _ _ (Meets-now os) (λ t. Meets-append os _)) λ noted.
                Meets-if (is_advanced x.status && noted) _ _
                  (λ done. Meets-pre (λ c h. h.1 (&&-left _ _ done)) (Meets-pure tt))
                  (λ _.
                    Meets-pre (λ c h. h.0)
                      (Meets-any (λ q. Meets-rollback q _ _ _ _ refl (λ c h. h))))
