-- ===== src/Firewall/Activation/Restart.antt =====
-- `PfActivationService::recover_pending` as a whole, src/core/firewall/activation_service.cpp.
use sasd_gatehold.Prelude.{
  ◌≡◌, refl, ap, ◌∙◌, subst, inl, inr, Bool, true, false, none, some, [], ◌∷◌, arith, All,
  Bool-cases, Option-cases,
}
use sasd_gatehold.Host.{Os, World, Disk}
use sasd_gatehold.Firewall.Transaction.Record.{PendingActivation}
use sasd_gatehold.Firewall.Transaction.Store as Transactions
use sasd_gatehold.Firewall.Transaction.Store.{
  ActivationTransactionResult, ActivationTransactionStatus, no_pending, is_loaded,
}
use sasd_gatehold.Firewall.Transaction.Effect.{Holds, load-quiet, load-transaction, load-pending}
use sasd_gatehold.Firewall.Revision.Store as Revisions
use sasd_gatehold.Firewall.Revision.Store.{LastKnownGoodResult}
use sasd_gatehold.Firewall.Revision.Effect as RevisionEffect
use sasd_gatehold.Firewall.Activation.Flow.{lift}
use sasd_gatehold.Firewall.Activation.Rules.{
  core, Meets, Meets-bind, Meets-lift, Meets-assign, Meets-return, Meets-if, Meets-pre, Meets-know,
  Post-either,
}
use sasd_gatehold.Firewall.Activation.Service.{begin_run}
use sasd_gatehold.Firewall.Activation.Recovery.{
  recovery_ok, initial_recovery, is_no_pending, is_committed, marks, recover_committed,
  recover_transaction, dispatch_pending, recovery_workflow, recover_pending,
}
use sasd_gatehold.Firewall.Activation.Recovered.{
  State, Recovered, Retriable, Kept, End, Failing, Meets-record, Meets-failed, Meets-give_up,
  Meets-clean_committed, Meets-recover_uncommitted,
}

is_no_pending-no_pending :
    (s : ActivationTransactionStatus) → is_no_pending s ≡ true → s ≡ no_pending
is_no_pending-no_pending ActivationTransactionStatus.no_pending h = refl
is_no_pending-no_pending s h = ground arith

module _ (os : Os) (t : PendingActivation) (d0 : Disk) where
  -- Nothing has changed yet.
  abbrev Start : State → Type 0
  Start c = Kept os t d0 c × (c.disk ≡ d0)

  -- What the marker was found to name.
  abbrev Found : LastKnownGoodResult → Type 0
  Found l = (w : World) × (w.disk ≡ d0) × (l ≡ (Revisions.last_known_good os w).0)

  Meets-recover_committed :
      {Q : Unit → State → Type 0} (audit_ok : Bool)
      → is_committed t.phase ≡ true
      → Meets Start (recover_committed os t audit_ok) Q (End os t d0)
  unfolding recover_committed
  Meets-recover_committed audit_ok committed =
      Meets-bind _ _
        (Meets-lift {Q = λ l c. Start c × Found l} (Revisions.last_known_good os) (λ w r h.
          let (d, p) = RevisionEffect.last_known_good-quiet os w in (rw (d, p) h, (w, h.1, refl))))
        λ l. Meets-know λ found.
          Meets-if (marks l t.target_revision) _ _
            (λ named.
              Meets-pre
                (λ c h. (
                  h.0,
                  rw committed (
                    (ap (λ (d : Disk). d.active) h.1, ap (λ (d : Disk). d.marker) h.1),
                    (found.0, found.1, subst (λ k. marks k t.target_revision ≡ true) found.2 named),
                  ),
                ))
                (Meets-clean_committed os t d0 _))
            (λ _.
              Meets-bind _ _ (Meets-assign {Q = Failing os t d0} _ (λ w r h. (h.0, refl)))
                λ _. Meets-bind _ _ (Meets-record os t d0 _ _ _ _ _ _ _) λ _. Meets-give_up os t d0)

  Meets-recover_transaction :
      {Q : Unit → State → Type 0} → Meets Start (recover_transaction os t) Q (End os t d0)
  unfolding recover_transaction
  Meets-recover_transaction = Meets-bind _ _ (Meets-assign {Q = Start} _ (λ w r h. h)) λ _.
      Meets-bind _ _ (Meets-record os t d0 _ _ _ _ _ _ _) λ audit_ok.
        Meets-if (is_committed t.phase) _ _ (λ c. Meets-recover_committed audit_ok c)
          (λ u. Meets-pre (λ c h. h.0) (Meets-recover_uncommitted os t d0 u audit_ok))

  -- What `load` has found.
  abbrev Loaded : ActivationTransactionResult → Type 0
  Loaded r =
      (is_no_pending r.status ≡ false)
      × ((t' : PendingActivation) → r.transaction ≡ some t' → t' ≡ t)

  Meets-dispatch_pending :
      {Q : Unit → State → Type 0} (r : ActivationTransactionResult)
      → Loaded r
      → Meets Start (dispatch_pending os r) Q (End os t d0)
  unfolding dispatch_pending
  Meets-dispatch_pending r h =
      Meets-if (is_no_pending r.status) _ _ (λ e. cc)
        λ _. elim (Option-cases r.transaction) [
          | inl e ↦ rw e (Meets-pre (λ c h. h.0) (Meets-failed os t d0 _ _))
          | inr (t', e) ↦
              rw (e, h.1 t' e)
                (Meets-if (is_loaded r.status) _ _ (λ _. Meets-recover_transaction)
                  (λ _. Meets-pre (λ c h. h.0) (Meets-failed os t d0 _ _)))
        ]

  Loaded-load : (w : World) → Holds t w.disk → Loaded (Transactions.load os w).0
  Loaded-load w h = (
    elim (Bool-cases (is_no_pending (Transactions.load os w).0.status)) [
      | inl e ↦ absent ((load-pending os w).0 (is_no_pending-no_pending _ e))
      | inr e ↦ e
    ],
    λ t'. load-transaction os t t' w h,
  )
    where
      absent : w.disk.pending ≡ none → is_no_pending (Transactions.load os w).0.status ≡ false
      absent e = let stored = h.stored in cc

  Meets-recovery_workflow : Meets Start (recovery_workflow os) (λ _. End os t d0) (End os t d0)
  unfolding recovery_workflow
  Meets-recovery_workflow =
      Meets-bind _ _
        (Meets-lift {Q = λ r c. Start c × Loaded r} (Transactions.load os)
          (λ w r h. let (d, p) = load-quiet os w in (rw (d, p) h, Loaded-load w h.0.0)))
        λ r. Meets-know (λ h. Meets-dispatch_pending r h)

module _ (os : Os) (t : PendingActivation) (w : World) (holds : Holds t w.disk)
    (begins : w.past ≡ []) where
  recover_pending-End : End os t w.disk (core (recover_pending os w))
  unfolding recover_pending
  recover_pending-End =
      let run = begin_run initial_recovery w in
      Post-either (End os t w.disk) (recovery_workflow os run)
        ((Meets-recovery_workflow os t w.disk).at run ((holds, rw begins tt), refl))

  -- Where a readable transaction is on disk and no disk has been passed through yet: if
  -- `recover_pending` reports anything but a failure, no transaction is left; one that was not
  -- committed has been rolled back (PF runs its rollback revision, and the marker names it); for
  -- one that was committed the marker was found to name its target, and PF and the marker are as
  -- they were.
  pub recover_pending-Recovered :
      recovery_ok (recover_pending os w).result.status ≡ true
      → Recovered os t w.disk (recover_pending os w).world.disk
  recover_pending-Recovered = recover_pending-End.0

  -- Where a readable transaction is on disk and no disk has been passed through yet: every disk
  -- that `recover_pending` passes through, and the one it leaves, either still holds that
  -- transaction or is one of a complete recovery, so that a recovery that fails or is cut off can
  -- be run again.
  pub recover_pending-Retriable :
      let s = recover_pending os w in All (Retriable os t w.disk) (s.world.disk ∷ s.world.past)
  recover_pending-Retriable = (recover_pending-End.1, recover_pending-End.2)

module _ (os : Os) (w : World) where
  abbrev Same : State → Type 0
  Same c = (c.disk ≡ w.disk) × (c.past ≡ w.past)

  Meets-dispatch_nothing :
      (r : ActivationTransactionResult)
      → r.transaction ≡ none
      → Meets Same (dispatch_pending os r) (λ _. Same) Same
  unfolding dispatch_pending
  Meets-dispatch_nothing r e =
      Meets-if (is_no_pending r.status) _ _ (λ _. Meets-return _ (λ w r h. h))
        (λ _. rw e (Meets-return _ (λ w r h. h)))

  -- Where no transaction is on disk, `recover_pending` changes nothing on it, whatever it
  -- reports.
  pub recover_pending-idle :
      w.disk.pending ≡ none
      → let s = recover_pending os w in (s.world.disk ≡ w.disk) × (s.world.past ≡ w.past)
  unfolding recover_pending recovery_workflow
  recover_pending-idle vacant =
      let run = begin_run initial_recovery w in
      let begins : Meets (λ c. c ≡ core run) (lift (Transactions.load os))
          (λ (r : ActivationTransactionResult) c. Same c × (r.transaction ≡ none)) Same =
        Meets-lift (Transactions.load os) (λ w' r h.
          let same : w'.disk ≡ w.disk = ap (λ (c : State). c.disk) h in
          let (d, p) = load-quiet os w' in
          (
            (d ∙ same, p ∙ ap (λ (c : State). c.past) h),
            (load-pending os w').1 (ap (λ (d : Disk). d.pending) same ∙ vacant),
          )) in
      Post-either Same (recovery_workflow os run)
        ((Meets-bind _ _ begins (λ r. Meets-know (λ e. Meets-dispatch_nothing r e))).at run refl)
