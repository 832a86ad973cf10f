-- ===== src/Firewall/Activation/Commitment.antt =====
-- Lemmas on the commit of a confirmed target, src/core/firewall/activation_service.cpp.
use sasd_gatehold.Prelude.{
  ℕ, ◌≤◌, ◌≡◌, refl, ap, ◌&&◌, inl, inr, Bool, true, not, none, some, [], &&-right,
}
use sasd_gatehold.Text.Decimal.{max_u64}
use sasd_gatehold.Host.{Os, World, Disk}
use sasd_gatehold.Firewall.Transaction.Record as Record
use sasd_gatehold.Firewall.Transaction.Record.{
  ActivationPhase, prepared_for_load, target_loaded, verified, awaiting_confirmation, committing,
}
use sasd_gatehold.Firewall.Transaction.Store as Transactions
use sasd_gatehold.Firewall.Transaction.Store.{ActivationTransactionResult, put_pending}
use sasd_gatehold.Firewall.Transaction.Effect.{AtMost, Holds, clear-AtMost, clear-cleared}
use sasd_gatehold.Firewall.Revision.Store as Revisions
use sasd_gatehold.Firewall.Revision.Store.{put_marker, marker_file, pointer_ok}
use sasd_gatehold.Firewall.Revision.Effect as RevisionEffect
use sasd_gatehold.Firewall.Activation.Types.{
  ActivationRequest, ActivationResult, Service, AuthorizationResult,
}
use sasd_gatehold.Firewall.Activation.Rules.{
  core_of, Meets, Meets-bind, Meets-pure, Meets-asks, Meets-lift, Meets-now, Meets-assign,
  Meets-return, Meets-append, Meets-if, Meets-pre, Meets-any,
}
use sasd_gatehold.Firewall.Activation.Admitted.{Meets-record_event, Cleared}
use sasd_gatehold.Firewall.Activation.Rollback.{is_cleared, clear_transaction, note_transaction}
use sasd_gatehold.Firewall.Activation.Loading.{is_advanced}
use sasd_gatehold.Firewall.Activation.Service.{
  mark_target, commit_transaction, finish_commit, carry_out,
}
use sasd_gatehold.Firewall.Activation.Undone.{is_cleared-cleared, not-false}
use sasd_gatehold.Firewall.Activation.Opening.{Meets-begin_transaction, Meets-announce_load}
use sasd_gatehold.Firewall.Activation.Trial.{
  Fact, Known, Healthy, Advanced, advance-Known, Meets-rollback, Recording-result,
  Meets-load_target, Meets-advance,
}
use sasd_gatehold.Firewall.Activation.Approval.{Approved, Meets-run_probes, Meets-confirm}
use sasd_gatehold.Firewall.Activation.Recording.{Recording, Recording-AtMost, Recording-Traced}
use sasd_gatehold.Firewall.Activation.Conditions.{State, Committed, Traced, transaction_at, Ends}

module _ (os : Os) (svc : Service) (request : ActivationRequest) (d0 : Disk) (p : ℕ) where
  abbrev End : State → Type 0
  End = Ends request d0 os svc

  abbrev Rec : ActivationPhase → State → Type 0
  Rec = Recording os svc request d0 p

  abbrev Now : Fact → ActivationPhase → State → Type 0
  Now = Known os svc request d0 p

  -- The approved target is marked.
  abbrev Marked : Fact
  Marked d r = Approved os svc request d0 p d r × (d.marker ≡ some (marker_file request.revision))

  Rec-marker :
      (phase : ActivationPhase) (d : Disk) (k : ℕ)
      → Holds (transaction_at request p phase) d
      → Holds (transaction_at request p phase) (put_marker (some (marker_file k)) d)
  Rec-marker phase d k h = record { stored = h.stored; readable = h.readable }

  abbrev Marking : ActivationPhase → Bool → State → Type 0
  Marking phase done c = Rec phase c × (done ≡ true → Marked c.disk c.result)

  Meets-mark_target :
      (phase : ActivationPhase)
      → Meets
          (Now (Approved os svc request d0 p) phase)
          (mark_target os svc request p)
          (λ _. Now Marked phase)
          End
  unfolding mark_target
  Meets-mark_target phase =
      Meets-bind _ _ (Meets-record_event os svc request d0 _ _ _ _ _ _ _) λ announced.
        Meets-if (not announced) _ _
          (λ _. Meets-rollback os svc request d0 p phase _ _ _ _ refl (λ c h. h.0))
          λ _.
            Meets-bind _ _
              (Meets-lift {Q = λ m. Marking phase (pointer_ok m)}
                (Revisions.mark_last_known_good os request.revision)
                (λ w r h. (
                  Recording-AtMost os svc request d0 p phase
                      (put_marker (some (marker_file request.revision)) w.disk) w
                      (Revisions.mark_last_known_good os request.revision w).1 r
                      (Rec-marker phase w.disk request.revision h.0.holds)
                      (RevisionEffect.mark-AtMost os request.revision w) h.0,
                  λ done.
                      rw ((RevisionEffect.mark-marked os request.revision w done).0) (h.1, refl),
                )))
              λ m. Meets-bind _ _ (Meets-record_event os svc request d0 _ _ _ _ _ _ _) λ noted.
                Meets-if (noted && pointer_ok m) _ _
                  (λ done. Meets-pre (λ c h. (h.0, h.1 (&&-right _ _ done))) (Meets-pure tt))
                  (λ _. Meets-rollback os svc request d0 p phase _ _ _ _ refl (λ c h. h.0))

  Meets-commit_transaction :
      (phase : ActivationPhase)
      → Meets
          (Now Marked phase)
          (commit_transaction os svc request p)
          (λ _. Now Marked Record.committed)
          End
  unfolding commit_transaction note_transaction
  Meets-commit_transaction phase =
      Meets-bind _ _
        (Meets-lift
          {Q = λ x. Advanced os svc request d0 p Marked Record.committed (is_advanced x.status)}
          (Transactions.advance os request.operation_id Record.committed)
          (λ w r h.
            advance-Known os svc request d0 p Marked (λ f d r h. h) (λ t d r h. h) phase
              Record.committed w r h))
        λ x.
          Meets-bind _ _
            (Meets-assign
              {Q = Advanced os svc request d0 p Marked Record.committed (is_advanced x.status)} _
              (λ w r h. (
                (h.0.0, Recording-result os svc request d0 p h.0.0 w r _ refl refl refl h.0.1),
                λ done. (
                  Recording-result os svc request d0 p Record.committed w r _ refl refl refl
                      (h.1 done).0,
                  (h.1 done).1,
                ),
              )))
            λ _. Meets-bind _ _ (Meets-bind _ _ (Meets-now os) (λ t. Meets-append os _)) λ noted.
              Meets-if (is_advanced x.status) _ _
                (λ done. Meets-pre (λ c h. h.1 done) (Meets-pure noted))
                (λ _.
                  Meets-pre (λ c h. h.0)
                    (Meets-any (λ q. Meets-rollback os svc request d0 p q _ _ _ _ refl (λ c h. h))))

  -- After the clearing: the target is committed, and its record is gone if the clearing says so.
  abbrev Finished : Bool → State → Type 0
  Finished done c =
      Traced request d0 c.result.rollback_revision c.disk c.past
      × Committed os svc request d0 c
      × (done ≡ true → c.disk.pending ≡ none)

  after_clear :
      (w w' : World) (r : ActivationResult)
      → Now Marked Record.committed (core_of w r)
      → AtMost (put_pending none w.disk) w w'
      → Traced request d0 r.rollback_revision w'.disk w'.past
        × Committed os svc request d0 (core_of w' r)
  after_clear w w' r (h, (((active, healthy), confirmed), marker)) (inl q) =
      rw (q.0, q.1)
        (
          Recording-Traced os svc request d0 p Record.committed (core_of w r) h,
          ((active, marker), h.granted, healthy, confirmed),
        )
  after_clear w w' r (h, (((active, healthy), confirmed), marker)) (inr q) =
      rw (q.0, q.1, h.known)
        (
          (
            (inr (inr (inr (refl, (active, marker))))),
            (inr (inl (Record.committed, h.holds)), h.traced),
          ),
          ((active, marker), h.granted, healthy, confirmed),
        )

  Meets-clear_transaction :
      Meets
        (Now Marked Record.committed)
        (clear_transaction os request)
        (λ x. Finished (is_cleared x.status))
        End
  unfolding clear_transaction
  Meets-clear_transaction =
      Meets-bind _ _
        (Meets-lift {Q = λ (x : ActivationTransactionResult). Finished (is_cleared x.status)}
          (Transactions.clear os request.operation_id)
          (λ w r h.
            let x = Transactions.clear os request.operation_id w in
            let (t, c) = after_clear w x.1 r h (clear-AtMost os request.operation_id w) in
            (
              t,
              c,
              λ done.
                  ap (λ (d : Disk). d.pending)
                    (clear-cleared os request.operation_id w
                      (is_cleared-cleared x.0.status done)).0,
            )))
        λ x.
          Meets-bind _ _ (Meets-assign {Q = Finished (is_cleared x.status)} _ (λ w r h. h))
            λ _. Meets-pure x

  Meets-finish_commit :
      {Q : Unit → State → Type 0} (noted : Bool)
      → Meets (Now Marked Record.committed) (finish_commit os svc request p noted) Q End
  unfolding finish_commit
  Meets-finish_commit committed_noted =
      Meets-bind _ _ (Meets-record_event os svc request d0 _ _ _ _ _ _ _) λ final_noted.
        Meets-bind _ _ Meets-clear_transaction λ x. Meets-bind _ _ (Meets-asks _) λ id.
          Meets-if (not (is_cleared x.status)) _ _ (λ _. Meets-return _ (λ w r h. (h.1, h.0)))
            λ done.
              let gone = not-false _ done in
              Meets-if (not (committed_noted && final_noted)) _ _
                (λ _. Meets-return _ (λ w r h. ((h.1, h.2 gone), h.0)))
                (λ _. Meets-return _ (λ w r h. ((h.1, h.2 gone), h.0)))

  -- From the durable transaction on.
  pub Meets-carry_out :
      (authorization : AuthorizationResult)
      → request.revision ≤ max_u64
      → Meets
          (Cleared os svc request d0 p)
          (carry_out os svc request p authorization)
          (λ _. End)
          End
  unfolding carry_out
  Meets-carry_out authorization bound =
      Meets-bind _ _ (Meets-begin_transaction os svc request d0 p bound) λ _.
        Meets-bind _ _ (Meets-announce_load os svc request d0 p authorization) λ _.
          Meets-bind _ _
            (Meets-pre (λ c h. (h.recording, h.fresh))
              (Meets-load_target os svc request d0 p prepared_for_load))
            λ _.
              Meets-bind _ _
                (Meets-advance os svc request d0 p (Healthy os svc request d0 p []) (λ f d r h. h)
                  (λ t d r h. h) prepared_for_load target_loaded)
                λ _.
                  Meets-bind _ _ (Meets-run_probes os svc request d0 p target_loaded [] svc.probes)
                    λ _.
                      Meets-bind _ _
                        (Meets-advance os svc request d0 p (Healthy os svc request d0 p svc.probes)
                          (λ f d r h. h) (λ t d r h. h) target_loaded verified)
                        λ _.
                          Meets-bind _ _
                            (Meets-advance os svc request d0 p
                              (Healthy os svc request d0 p svc.probes) (λ f d r h. h) (λ t d r h. h)
                              verified awaiting_confirmation)
                            λ _.
                              Meets-bind _ _
                                (Meets-confirm os svc request d0 p awaiting_confirmation)
                                λ _.
                                  Meets-bind _ _
                                    (Meets-advance os svc request d0 p
                                      (Approved os svc request d0 p) (λ f d r h. h) (λ t d r h. h)
                                      awaiting_confirmation committing)
                                    λ _. Meets-bind _ _ (Meets-mark_target committing) λ _.
                                      Meets-bind _ _ (Meets-commit_transaction committing)
                                        λ noted. Meets-finish_commit noted
