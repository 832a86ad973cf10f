-- ===== src/Firewall/Activation/Undone.antt =====
-- Lemmas on the rollback of an activation, src/core/firewall/activation_service.cpp.
use sasd_gatehold.Prelude.{
  ℕ, ◌≡◌, refl, ap, ◌∙◌, inl, inr, Bool, true, false, not, ◌||◌, none, some, arith,
}
use sasd_gatehold.Text.{Bytes}
use sasd_gatehold.Host.{Os, World, Disk}
use sasd_gatehold.Firewall.Transaction.Record.{ActivationPhase}
use sasd_gatehold.Firewall.Transaction.Store as Transactions
use sasd_gatehold.Firewall.Transaction.Store.{
  ActivationTransactionResult, ActivationTransactionStatus, cleared, put_pending, record_file,
}
use sasd_gatehold.Firewall.Transaction.Effect.{AtMost, Holds, clear-AtMost, clear-cleared}
use sasd_gatehold.Firewall.Revision.Store as Revisions
use sasd_gatehold.Firewall.Revision.Store.{put_marker, marker_file, pointer_ok}
use sasd_gatehold.Firewall.Revision.Effect as RevisionEffect
use sasd_gatehold.Firewall.Pfctl.Run as Pfctl
use sasd_gatehold.Firewall.Pfctl.Run.{put_active, load_ok, validation_ok}
use sasd_gatehold.Firewall.Activation.Types.{
  ActivationStatus, rollback_failed, audit_failed_rolled_back, ActivationRequest, ActivationResult,
  Service,
}
use sasd_gatehold.Firewall.Activation.Flow.{return_with}
use sasd_gatehold.Firewall.Activation.Rules.{
  core_of, Meets, Meets-bind, Meets-pure, Meets-asks, Meets-lift, Meets-now, Meets-assign,
  Meets-return, Meets-append, Meets-if, Meets-pre,
}
use sasd_gatehold.Firewall.Activation.Admission.{set_status, fail}
use sasd_gatehold.Firewall.Activation.Admitted.{Meets-record_event}
use sasd_gatehold.Firewall.Activation.Rollback.{
  Reason, is_cleared, clear_transaction, note_transaction, revalidate_previous, reload_previous,
  remark_previous, restore_failed, finish_rollback, rollback_to_previous,
}
use sasd_gatehold.Firewall.Activation.Recording.{
  Recording, Recording-AtMost, Recording-quiet, Recording-Traced,
}
use sasd_gatehold.Firewall.Activation.Conditions.{
  State, Restored, RolledBack, transaction_at, Traced, Settled, Ends,
}

-- The statuses with which a rollback may be asked for.
abbrev pub is_rollback : ActivationStatus → Bool
is_rollback ActivationStatus.activation_failed = true
is_rollback ActivationStatus.verification_failed_rolled_back = true
is_rollback ActivationStatus.confirmation_failed_rolled_back = true
is_rollback ActivationStatus.commit_failed_rolled_back = true
is_rollback ActivationStatus.transaction_store_failed = true
is_rollback audit_failed_rolled_back = true
is_rollback _ = false

pub not-false : (b : Bool) → not b ≡ false → b ≡ true
not-false true h = refl
not-false false h = cc

pub is_cleared-cleared : (s : ActivationTransactionStatus) → is_cleared s ≡ true → s ≡ cleared
is_cleared-cleared cleared h = refl
is_cleared-cleared s h = ground arith

module _ (os : Os) (svc : Service) (request : ActivationRequest) (d0 : Disk) (p : ℕ)
    (phase : ActivationPhase) where
  abbrev End : State → Type 0
  End = Ends request d0 os svc

  abbrev Rec : State → Type 0
  Rec = Recording os svc request d0 p phase

  Settled-rollback :
      (status : ActivationStatus) (c : State)
      → is_rollback status ≡ true
      → RolledBack c
      → Settled request d0 os svc status c
  Settled-rollback ActivationStatus.committed c h u = cc
  Settled-rollback status c h u = ground arith

  Meets-revalidate_previous : Meets Rec (revalidate_previous os request p) (λ _. Rec) End
  unfolding revalidate_previous
  Meets-revalidate_previous =
      Meets-bind _ _ (Meets-record_event os svc request d0 _ _ _ _ _ _ _) λ started.
        Meets-bind _ _
          (Meets-lift {Q = λ _. Rec} (Pfctl.validate os p) (λ w r h.
            Recording-quiet os svc request d0 p phase w (Pfctl.validate os p w).1 r
              (Pfctl.validate-quiet os p w) h))
          λ v.
            Meets-bind _ _ (Meets-now os)
              λ t. Meets-bind _ _ (Meets-append os _) λ noted. Meets-pure _

  -- PF runs the previous revision, if the load says so.
  abbrev Reloaded : Bool → State → Type 0
  Reloaded done c = Rec c × (done ≡ true → c.disk.active ≡ p)

  Rec-active :
      (d : Disk) (r : ℕ)
      → Holds (transaction_at request p phase) d
      → Holds (transaction_at request p phase) (put_active r d)
  Rec-active d r h = record { stored = h.stored; readable = h.readable }

  Meets-reload_previous : Meets Rec (reload_previous os request p) (λ r. Reloaded r.0) End
  unfolding reload_previous
  Meets-reload_previous =
      Meets-bind _ _
        (Meets-lift {Q = λ r. Reloaded (load_ok r)} (Pfctl.load os p) (λ w r h. (
          Recording-AtMost os svc request d0 p phase (put_active p w.disk) w (Pfctl.load os p w).1 r
              (Rec-active w.disk p h.holds) (Pfctl.load-AtMost os p w) h,
          λ done. ap (λ (d : Disk). d.active) (Pfctl.load-loaded os p w done).0,
        )))
        λ load.
          Meets-bind _ _
            (Meets-assign {Q = Reloaded (load_ok load)} _ (λ w r h. (
              record {
                holds = h.0.holds;
                traced = h.0.traced;
                known = h.0.known;
                granted = h.0.granted;
                readable = h.0.readable;
              },
              h.1,
            )))
            λ _.
              Meets-bind _ _ (Meets-now os)
                λ t. Meets-bind _ _ (Meets-append os _) λ noted. Meets-pure _

  -- PF runs the previous revision, and it is marked, if the marking says so.
  abbrev Remarked : Bool → State → Type 0
  Remarked done c = Rec c × (done ≡ true → Restored p c.disk)

  Rec-marker :
      (d : Disk) (r : ℕ)
      → Holds (transaction_at request p phase) d
      → Holds (transaction_at request p phase) (put_marker (some (marker_file r)) d)
  Rec-marker d r h = record { stored = h.stored; readable = h.readable }

  Meets-remark_previous :
      Meets
        (λ c. Rec c × (c.disk.active ≡ p))
        (remark_previous os request p)
        (λ r. Remarked r.0)
        End
  unfolding remark_previous
  Meets-remark_previous =
      Meets-bind _ _
        (Meets-lift {Q = λ m. Remarked (pointer_ok m)} (Revisions.mark_last_known_good os p)
          (λ w r h. (
            Recording-AtMost os svc request d0 p phase (put_marker (some (marker_file p)) w.disk) w
                (Revisions.mark_last_known_good os p w).1 r (Rec-marker w.disk p h.0.holds)
                (RevisionEffect.mark-AtMost os p w) h.0,
            λ done.
                let e = (RevisionEffect.mark-marked os p w done).0 in
                (ap (λ (d : Disk). d.active) e ∙ h.1, ap (λ (d : Disk). d.marker) e),
          )))
        λ m.
          Meets-bind _ _ (Meets-record_event os svc request d0 _ _ _ _ _ _ _) λ noted. Meets-pure _

  Meets-return_failed :
      {A : Type 0} {Q : A → State → Type 0} (f : ActivationResult → ActivationResult)
      → ((r : ActivationResult) → (f r).status ≡ rollback_failed)
      → ((r : ActivationResult) → (f r).rollback_revision ≡ r.rollback_revision)
      → Meets Rec (return_with f) Q End
  Meets-return_failed f s k = Meets-return f (λ w r h.
      (rw (s r) tt, rw (k r) (Recording-Traced os svc request d0 p phase (core_of w r) h)))

  abbrev Failing : State → Type 0
  Failing c = Rec c × (c.result.status ≡ rollback_failed)

  Meets-restore_failed :
      {A : Type 0} {Q : A → State → Type 0} → Meets Rec (restore_failed os request p) Q End
  unfolding restore_failed
  Meets-restore_failed =
      Meets-bind _ _
        (Meets-assign {Q = Failing} _ (λ w r h. (
          record {
            holds = h.holds;
            traced = h.traced;
            known = h.known;
            granted = h.granted;
            readable = h.readable;
          },
          refl,
        )))
        λ _. Meets-bind _ _ (Meets-record_event os svc request d0 _ _ _ _ _ _ _) λ _.
          Meets-return _
            (λ w r h. (rw h.1 tt, Recording-Traced os svc request d0 p phase (core_of w r) h.0))

  -- After the clearing: the transaction is gone, or the rollback has failed with it in place.
  abbrev Finished : Bool → State → Type 0
  Finished done c =
      Traced request d0 c.result.rollback_revision c.disk c.past
      × (c.result.rollback_revision ≡ some p)
      × (done ≡ true → Restored p c.disk × (c.disk.pending ≡ none))

  after_clear :
      (w w' : World) (r : ActivationResult)
      → Rec (core_of w r)
      → Restored p w.disk
      → AtMost (put_pending none w.disk) w w'
      → Traced request d0 r.rollback_revision w'.disk w'.past
  after_clear w w' r h restored (inl q) =
      rw (q.0, q.1) (Recording-Traced os svc request d0 p phase (core_of w r) h)
  after_clear w w' r h restored (inr q) =
      rw (q.0, q.1, h.known)
        (inr (inr (inl (refl, restored))), (inr (inl (phase, h.holds)), h.traced))

  clear-Finished :
      (w : World) (r : ActivationResult)
      → Rec (core_of w r)
      → Restored p w.disk
      → let x = Transactions.clear os request.operation_id w in
        Finished (is_cleared x.0.status) (core_of x.1 r)
  clear-Finished w r h restored =
      let x = Transactions.clear os request.operation_id w in
      (
        after_clear w x.1 r h restored (clear-AtMost os request.operation_id w),
        h.known,
        λ done.
            let e =
              (clear-cleared os request.operation_id w (is_cleared-cleared x.0.status done)).0 in
            rw e (restored, refl),
      )

  Meets-clear_transaction :
      Meets
        (λ c. Rec c × Restored p c.disk)
        (clear_transaction os request)
        (λ x. Finished (is_cleared x.status))
        End
  unfolding clear_transaction
  Meets-clear_transaction =
      Meets-bind _ _
        (Meets-lift {Q = λ (x : ActivationTransactionResult). Finished (is_cleared x.status)}
          (Transactions.clear os request.operation_id) (λ w r h. clear-Finished w r h.0 h.1))
        λ x.
          Meets-bind _ _ (Meets-assign {Q = Finished (is_cleared x.status)} _ (λ w r h. h))
            λ _. Meets-pure x

  Meets-report :
      {A : Type 0} {Q : A → State → Type 0} (status : ActivationStatus) (id message : Bytes)
      → is_rollback status ≡ true
      → Meets (Finished true) (fail status id message) Q End
  Meets-report status id message u =
      Meets-return (set_status status id message)
        (λ w r h. (Settled-rollback status _ u (p, h.1, (h.2 refl).0, (h.2 refl).1), h.0))

  Meets-finish_rollback :
      {A : Type 0} {Q : A → State → Type 0} (reason : Reason) (compromised : Bool)
      → is_rollback reason.status ≡ true
      → Meets
          (λ c. Rec c × Restored p c.disk)
          (finish_rollback os request p reason compromised)
          Q
          End
  unfolding finish_rollback note_transaction
  Meets-finish_rollback reason compromised u = Meets-bind _ _ Meets-clear_transaction λ x.
      Meets-bind _ _ (Meets-bind _ _ (Meets-now os) (λ t. Meets-append os _)) λ noted.
        Meets-if (not (is_cleared x.status)) _ _ (λ _. Meets-return _ (λ w r h. (tt, h.0)))
          λ done.
            Meets-pre (λ c h. (h.0, h.1, λ _. h.2 (not-false _ done)))
              (Meets-bind _ _ (Meets-record_event os svc request d0 _ _ _ _ _ _ _) λ reported.
                Meets-bind _ _ (Meets-asks _) λ id. Meets-bind _ _ (Meets-asks _) λ message.
                  Meets-if (compromised || not noted || not reported) _ _
                    (λ _. Meets-report audit_failed_rolled_back _ _ refl)
                    (λ _. Meets-report reason.status _ _ u))

  -- A rollback ends with the previous revision in place, or as `rollback_failed`.
  pub Meets-rollback_to_previous :
      {A : Type 0} {Q : A → State → Type 0} (reason : Reason) (compromised : Bool)
      → is_rollback reason.status ≡ true
      → Meets Rec (rollback_to_previous os request p reason compromised) Q End
  unfolding rollback_to_previous
  Meets-rollback_to_previous reason compromised u = Meets-bind _ _ Meets-revalidate_previous λ v.
      Meets-if (not v.0) _ _ (λ _. Meets-restore_failed)
        λ _. Meets-bind _ _ Meets-reload_previous λ l.
          Meets-if (not l.0) _ _ (λ _. Meets-pre (λ c h. h.0) Meets-restore_failed)
            λ loaded.
              Meets-bind _ _
                (Meets-pre (λ c h. (h.0, h.1 (not-false _ loaded))) Meets-remark_previous)
                λ m.
                  Meets-if (not m.0) _ _ (λ _. Meets-pre (λ c h. h.0) Meets-restore_failed)
                    λ marked.
                      Meets-pre (λ c h. (h.0, h.1 (not-false _ marked)))
                        (Meets-finish_rollback reason _ u)
