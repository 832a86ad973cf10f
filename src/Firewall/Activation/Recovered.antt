-- ===== src/Firewall/Activation/Recovered.antt =====
-- Lemmas on the stages of `PfActivationService::recover_pending`,
-- src/core/firewall/activation_service.cpp.
use sasd_gatehold.Prelude.{
  ℕ, ◌≡◌, ◌⊎◌, refl, ap, ◌∙◌, ◌&&◌, inl, inr, Bool, true, false, not, none, some, All, String,
}
use sasd_gatehold.Text.{Bytes}
use sasd_gatehold.Host.{Os, World, Disk}
use sasd_gatehold.Logging.Event.{Severity}
use sasd_gatehold.Firewall.Transaction.Record.{PendingActivation}
use sasd_gatehold.Firewall.Transaction.Store as Transactions
use sasd_gatehold.Firewall.Transaction.Store.{ActivationTransactionResult, put_pending, is_loaded}
use sasd_gatehold.Firewall.Transaction.Effect.{AtMost, Holds, clear-AtMost, clear-cleared}
use sasd_gatehold.Firewall.Revision.Store as Revisions
use sasd_gatehold.Firewall.Revision.Store.{
  LastKnownGoodResult, put_marker, marker_file, pointer_ok, read_ok,
}
use sasd_gatehold.Firewall.Revision.Effect as RevisionEffect
use sasd_gatehold.Firewall.Pfctl.Run as Pfctl
use sasd_gatehold.Firewall.Pfctl.Run.{put_active, load_ok, validation_ok}
use sasd_gatehold.Firewall.Activation.Flow.{return_with}
use sasd_gatehold.Firewall.Activation.Rules.{
  Core, core_of, Meets, Meets-bind, Meets-asks, Meets-lift, Meets-now, Meets-assign, Meets-return,
  Meets-append, Meets-if, Meets-pre,
}
use sasd_gatehold.Firewall.Activation.Rollback.{is_cleared}
use sasd_gatehold.Firewall.Activation.Undone.{is_cleared-cleared, not-false}
use sasd_gatehold.Firewall.Activation.Conditions.{Restored, Untouched}
use sasd_gatehold.Firewall.Activation.Recovery.{
  ActivationRecoveryStatus, failed, ActivationRecoveryResult, recovery_ok, is_committed, marks,
  finish, record_recovery, clear_pending, note_clear, report, clean_committed, clear_rolled_back,
  mark_rolled_back, load_rolled_back, recover_uncommitted,
}

abbrev pub State : Type 0
State = Core ActivationRecoveryResult

module _ (os : Os) (t : PendingActivation) (d0 : Disk) where
  -- The marker named the target of the committed transaction, and nothing but its record is gone.
  abbrev pub Cleaned : Disk → Type 0
  Cleaned d =
      Untouched d0 d
      × ((w : World) × (w.disk ≡ d0)
          × (marks (Revisions.last_known_good os w).0 t.target_revision ≡ true))

  -- A committed transaction is cleaned up; any other is rolled back.
  abbrev pub Resolved : Bool → Disk → Type 0
  Resolved true d = Cleaned d
  Resolved false d = Restored t.rollback_revision d

  -- The recovery is complete.
  abbrev pub Recovered : Disk → Type 0
  Recovered d = (d.pending ≡ none) × Resolved (is_committed t.phase) d

  -- A disk from which the recovery can be tried again, or need not be.
  abbrev pub Retriable : Disk → Type 0
  Retriable d = Holds t d ⊎ Recovered d

  abbrev pub Kept : State → Type 0
  Kept c = Holds t c.disk × All Retriable c.past

  -- How each recovery ends.
  abbrev pub End : State → Type 0
  End c =
      (recovery_ok c.result.status ≡ true → Recovered c.disk)
      × Retriable c.disk
      × All Retriable c.past

  Kept-AtMost :
      (d : Disk) (w w' : World) (r : ActivationRecoveryResult)
      → Holds t d
      → AtMost d w w'
      → Kept (core_of w r)
      → Kept (core_of w' r)
  Kept-AtMost d w w' r hd (inl q) h = rw (q.0, q.1) h
  Kept-AtMost d w w' r hd (inr q) h = rw (q.0, q.1) (hd, (inl h.0, h.1))

  pub Meets-record :
      {P : State → Type 0} (s : Severity) (id operation : Bytes) (action outcome : String)
      (message : Bytes) (r : ℕ)
      → Meets P (record_recovery os s id operation action outcome message r) (λ _. P) End
  unfolding record_recovery
  Meets-record s id operation action outcome message r =
      Meets-bind _ _ (Meets-now os) (λ t. Meets-append os _)

  -- A failure leaves the record in place.
  pub Meets-failed :
      {A : Type 0} {Q : A → State → Type 0} (id message : Bytes)
      → Meets Kept (finish failed id message) Q End
  Meets-failed id message = Meets-return _ (λ w r h. (λ ok. cc, inl h.0, h.1))

  abbrev pub Failing : State → Type 0
  Failing c = Kept c × (c.result.status ≡ failed)

  pub Meets-give_up :
      {A : Type 0} {Q : A → State → Type 0} → Meets Failing (return_with (λ r. r)) Q End
  Meets-give_up = Meets-return _ (λ w r h. (rw (h.1) (λ ok. cc), inl h.0.0, h.0.1))

  abbrev pub Cleared : Bool → State → Type 0
  Cleared done c = (done ≡ true → Recovered c.disk) × Retriable c.disk × All Retriable c.past

  cleared :
      (w w' : World) (r : ActivationRecoveryResult)
      → Kept (core_of w r)
      → Resolved (is_committed t.phase) (put_pending none w.disk)
      → AtMost (put_pending none w.disk) w w'
      → Retriable w'.disk × All Retriable w'.past
  cleared w w' r h g (inl q) = rw (q.0, q.1) (inl h.0, h.1)
  cleared w w' r h g (inr q) = rw (q.0, q.1) (inr (refl, g), (inl h.0, h.1))

  Meets-clear_pending :
      Meets
        (λ c. Kept c × Resolved (is_committed t.phase) (put_pending none c.disk))
        (clear_pending os t)
        (λ x. Cleared (is_cleared x.status))
        End
  unfolding clear_pending
  Meets-clear_pending = Meets-lift (Transactions.clear os t.operation_id) λ w r h.
      let x = Transactions.clear os t.operation_id w in
      let (again, past) = cleared w x.1 r h.0 h.1 (clear-AtMost os t.operation_id w) in
      (
        λ done.
            let e = (clear-cleared os t.operation_id w (is_cleared-cleared x.0.status done)).0 in
            rw e (refl, h.1),
        again,
        past,
      )

  Meets-note_clear :
      {P : State → Type 0} (x : ActivationTransactionResult)
      → Meets P (note_clear os t x) (λ _. P) End
  unfolding note_clear
  Meets-note_clear x = Meets-bind _ _ (Meets-now os) (λ t. Meets-append os _)

  Meets-report :
      {Q : Unit → State → Type 0} (status : ActivationRecoveryStatus) (s : Severity)
      (id outcome words summary : String) (r : ℕ) (audit_ok : Bool)
      → Meets (Cleared true) (report os t status s id outcome words summary r audit_ok) Q End
  unfolding report
  Meets-report status s id outcome words summary r audit_ok =
      Meets-bind _ _ (Meets-record _ _ _ _ _ _ _) λ noted. Meets-bind _ _ (Meets-asks _) λ i.
        Meets-bind _ _ (Meets-asks _) λ m.
          Meets-if (noted && audit_ok) _ _
            (λ _. Meets-return _ (λ w r h. (λ _. h.0 refl, h.1, h.2)))
            (λ _. Meets-return _ (λ w r h. (λ _. h.0 refl, h.1, h.2)))

  abbrev pub Clearable : State → Type 0
  Clearable c = Kept c × Resolved (is_committed t.phase) (put_pending none c.disk)

  Meets-clear_rolled_back :
      {Q : Unit → State → Type 0} (audit_ok : Bool)
      → Meets Clearable (clear_rolled_back os t audit_ok) Q End
  unfolding clear_rolled_back
  Meets-clear_rolled_back audit_ok = Meets-bind _ _ Meets-clear_pending λ x.
      Meets-bind _ _ (Meets-note_clear x) λ noted.
        Meets-if (not (is_cleared x.status)) _ _
          (λ _. Meets-return _ (λ w r h. (λ ok. cc, h.1, h.2)))
          λ done.
            Meets-pre (λ c h. (λ _. h.0 (not-false _ done), h.1, h.2))
              (Meets-report _ _ _ _ _ _ _ _)

  pub Meets-clean_committed :
      {Q : Unit → State → Type 0} (audit_ok : Bool)
      → Meets Clearable (clean_committed os t audit_ok) Q End
  unfolding clean_committed
  Meets-clean_committed audit_ok = Meets-bind _ _ Meets-clear_pending λ x.
      Meets-bind _ _ (Meets-note_clear x) λ noted.
        Meets-if (not (is_cleared x.status)) _ _
          (λ _. Meets-return _ (λ w r h. (λ ok. cc, h.1, h.2)))
          λ done.
            Meets-pre (λ c h. (λ _. h.0 (not-false _ done), h.1, h.2))
              (Meets-report _ _ _ _ _ _ _ _)

  -- Nothing but the record of the transaction matters to what follows.
  Holds-active : (d : Disk) (k : ℕ) → Holds t d → Holds t (put_active k d)
  Holds-active d k h = record { stored = h.stored; readable = h.readable }

  Holds-marker : (d : Disk) (k : ℕ) → Holds t d → Holds t (put_marker (some (marker_file k)) d)
  Holds-marker d k h = record { stored = h.stored; readable = h.readable }

  -- The stages of a rollback.
  module _ (uncommitted : is_committed t.phase ≡ false) where
    Resolved-Restored :
        (d : Disk) → Restored t.rollback_revision d → Resolved (is_committed t.phase) d
    Resolved-Restored d h = rw uncommitted h

    abbrev Marked : Bool → State → Type 0
    Marked done c = Kept c × (done ≡ true → Restored t.rollback_revision c.disk)

    Meets-mark_rolled_back :
        {Q : Unit → State → Type 0} (audit_ok : Bool)
        → Meets
            (λ c. Kept c × (c.disk.active ≡ t.rollback_revision))
            (mark_rolled_back os t audit_ok)
            Q
            End
    unfolding mark_rolled_back
    Meets-mark_rolled_back audit_ok =
        Meets-bind _ _
          (Meets-lift {Q = λ m. Marked (pointer_ok m)}
            (Revisions.mark_last_known_good os t.rollback_revision)
            (λ w r h. (
              Kept-AtMost (put_marker (some (marker_file t.rollback_revision)) w.disk) w
                  (Revisions.mark_last_known_good os t.rollback_revision w).1 r
                  (Holds-marker w.disk t.rollback_revision h.0.0)
                  (RevisionEffect.mark-AtMost os t.rollback_revision w) h.0,
              λ done.
                  let e = (RevisionEffect.mark-marked os t.rollback_revision w done).0 in
                  (ap (λ (d : Disk). d.active) e ∙ h.1, ap (λ (d : Disk). d.marker) e),
            )))
          λ m. Meets-bind _ _ (Meets-record _ _ _ _ _ _ _) λ noted.
            Meets-if (pointer_ok m) _ _
              (λ done.
                Meets-pre (λ c h. (h.0, Resolved-Restored _ (h.1 done)))
                  (Meets-clear_rolled_back _))
              (λ _. Meets-pre (λ c h. h.0) (Meets-failed _ _))

    abbrev Reloaded : Bool → State → Type 0
    Reloaded done c = Kept c × (done ≡ true → c.disk.active ≡ t.rollback_revision)

    Meets-load_rolled_back :
        {Q : Unit → State → Type 0} (audit_ok : Bool)
        → Meets Kept (load_rolled_back os t audit_ok) Q End
    unfolding load_rolled_back
    Meets-load_rolled_back audit_ok =
        Meets-bind _ _
          (Meets-lift {Q = λ x. Reloaded (load_ok x)} (Pfctl.load os t.rollback_revision) (λ w r h.
            (
              Kept-AtMost (put_active t.rollback_revision w.disk) w
                  (Pfctl.load os t.rollback_revision w).1 r
                  (Holds-active w.disk t.rollback_revision h.0)
                  (Pfctl.load-AtMost os t.rollback_revision w) h,
              λ done.
                  ap (λ (d : Disk). d.active) (Pfctl.load-loaded os t.rollback_revision w done).0,
            )))
          λ x. Meets-bind _ _ (Meets-assign {Q = Reloaded (load_ok x)} _ (λ w r h. h)) λ _.
            Meets-bind _ _ (Meets-now os) λ _. Meets-bind _ _ (Meets-append os _) λ noted.
              Meets-if (load_ok x) _ _
                (λ done. Meets-pre (λ c h. (h.0, h.1 done)) (Meets-mark_rolled_back _))
                (λ _. Meets-pre (λ c h. h.0) (Meets-failed _ _))

    pub Kept-quiet :
        (w w' : World) (r : ActivationRecoveryResult)
        → (w'.disk ≡ w.disk) × (w'.past ≡ w.past)
        → Kept (core_of w r)
        → Kept (core_of w' r)
    Kept-quiet w w' r q h = rw (q.0, q.1) h

    pub Meets-recover_uncommitted :
        {Q : Unit → State → Type 0} (audit_ok : Bool)
        → Meets Kept (recover_uncommitted os t audit_ok) Q End
    unfolding recover_uncommitted
    Meets-recover_uncommitted audit_ok =
        Meets-bind _ _
          (Meets-lift {Q = λ _. Kept} (Revisions.load os t.rollback_revision) (λ w r h.
            Kept-quiet w (Revisions.load os t.rollback_revision w).1 r
              (RevisionEffect.load-quiet os t.rollback_revision w) h))
          λ revision.
            Meets-if (not (read_ok revision)) _ _
              (λ _.
                Meets-bind _ _ (Meets-assign {Q = Failing} _ (λ w r h. (h, refl)))
                  λ _. Meets-bind _ _ (Meets-record _ _ _ _ _ _ _) λ _. Meets-give_up)
              λ _.
                Meets-bind _ _
                  (Meets-lift {Q = λ _. Kept} (Pfctl.validate os t.rollback_revision) (λ w r h.
                    Kept-quiet w (Pfctl.validate os t.rollback_revision w).1 r
                      (Pfctl.validate-quiet os t.rollback_revision w) h))
                  λ v. Meets-bind _ _ (Meets-assign {Q = Kept} _ (λ w r h. h)) λ _.
                    Meets-bind _ _ (Meets-now os) λ _. Meets-bind _ _ (Meets-append os _) λ noted.
                      Meets-if (validation_ok v) _ _ (λ _. Meets-load_rolled_back _)
                        (λ _. Meets-failed _ _)
