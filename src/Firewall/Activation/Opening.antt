-- ===== src/Firewall/Activation/Opening.antt =====
-- Lemmas on the opening of the durable transaction, src/core/firewall/activation_service.cpp.
use sasd_gatehold.Prelude.{
  ℕ, ◌≤◌, ◌≡◌, refl, sym, ap, inl, inr, ◌∙◌, Bool, true, not, none, some, [], ◌∷◌, arith, All,
  Bool-cases,
}
use sasd_gatehold.Text.Decimal.{max_u64}
use sasd_gatehold.Host.{Os, World, Disk}
use sasd_gatehold.Firewall.Transaction.Record.{
  prepared_for_load, PendingActivation, valid_transaction,
}
use sasd_gatehold.Firewall.Transaction.RoundTrip.{parse-serialize}
use sasd_gatehold.Firewall.Transaction.Store as Transactions
use sasd_gatehold.Firewall.Transaction.Store.{
  ActivationTransactionResult, ActivationTransactionStatus, created, put_pending, record_file,
}
use sasd_gatehold.Firewall.Transaction.Effect.{
  AtMost, Holds, begin-AtMost, begin-created, begin-quiet, clear-AtMost,
}
use sasd_gatehold.Firewall.Activation.Types.{
  ActivationRequest, ActivationResult, Service, AuthorizationResult,
}
use sasd_gatehold.Firewall.Activation.Rules.{
  core_of, Meets, Meets-bind, Meets-pure, Meets-lift, Meets-now, Meets-assign, Meets-append,
  Meets-if, Meets-pre,
}
use sasd_gatehold.Firewall.Activation.Admitted.{
  Meets-record_event, Calm, Meets-fail, Meets-fail_audit, Meets-audited, Calm-Ready, Cleared,
}
use sasd_gatehold.Firewall.Activation.Rollback.{
  is_created, is_cleared, transaction, clear_transaction, note_transaction, abandon_transaction,
  begin_transaction, announce_load, refused_transaction,
}
use sasd_gatehold.Firewall.Activation.Recording.{Readable, Recording}
use sasd_gatehold.Firewall.Activation.Conditions.{
  is_untouched, Untouched, State, transaction_at, Recoverable, Traced, Ends,
}

is_created-created : (s : ActivationTransactionStatus) → is_created s ≡ true → s ≡ created
is_created-created created h = refl
is_created-created s h = ground arith

refused_transaction-untouched :
    (s : ActivationTransactionStatus) → is_untouched (refused_transaction s) ≡ true
refused_transaction-untouched s = ground arith

module _ (os : Os) (svc : Service) (request : ActivationRequest) (d0 : Disk) (p : ℕ) where
  abbrev End : State → Type 0
  End = Ends request d0 os svc

  abbrev started : PendingActivation
  started = transaction request p

  -- PF and the marker are as they were.
  abbrev Spared : State → Type 0
  Spared c = Untouched d0 c.disk × Traced request d0 c.result.rollback_revision c.disk c.past

  -- The transaction is on disk, and nothing else has changed.
  pub record Open (c : State) : Type 0 where
    pub recording : Recording os svc request d0 p prepared_for_load c
    pub fresh : c.result.probe_results ≡ []
    pub written : c.disk ≡ put_pending (some (record_file started)) d0
    pub vacant : d0.pending ≡ none

  Readable-valid :
      valid_transaction started ≡ true
      → request.revision ≤ max_u64
      → p ≤ max_u64
      → Readable request p
  unfolding valid_transaction
  Readable-valid v hr hp phase = parse-serialize (transaction_at request p phase) v hr hp

  -- After `begin`: the transaction is open if it says so, and nothing else has changed in any case.
  abbrev Begun : Bool → State → Type 0
  Begun done c = Spared c × (done ≡ true → Open c)

  Holds-written :
      (d : Disk)
      → Readable request p
      → Holds
          (transaction_at request p prepared_for_load)
          (put_pending (some (record_file started)) d)
  Holds-written d readable = record { stored = refl; readable = readable prepared_for_load }

  Open-written :
      (w w' : World) (r : ActivationResult)
      → Readable request p
      → w'.disk ≡ put_pending (some (record_file started)) w.disk
      → w'.past ≡ w.disk ∷ w.past
      → w.disk.pending ≡ none
      → Cleared os svc request d0 p (core_of w r)
      → Open (core_of w' r)
  Open-written w w' r readable e past vacant h =
      let early : All (Recoverable request d0 p) (w.disk ∷ w.past) = (inl h.0.0, rw h.0.1 tt) in
      record {
        recording = record {
          holds = rw e (Holds-written w.disk readable);
          traced = rw past early;
          known = h.0.2;
          granted = (h.0.5, h.1);
          readable = readable;
        };
        fresh = h.0.4;
        written = e ∙ ap (put_pending (some (record_file started))) h.0.0;
        vacant = sym (ap (λ (d : Disk). d.pending) h.0.0) ∙ vacant;
      }

  Spared-written :
      (w w' : World) (r : ActivationResult)
      → Readable request p
      → AtMost (put_pending (some (record_file started)) w.disk) w w'
      → Cleared os svc request d0 p (core_of w r)
      → Spared (core_of w' r)
  Spared-written w w' r readable (inl q) h =
      rw (q.0, q.1) (Calm-Ready os svc request d0 p (core_of w r) h.0)
  Spared-written w w' r readable (inr q) h =
      rw (q.0, q.1, h.0.2)
        (
          (ap (λ (d : Disk). d.active) h.0.0, ap (λ (d : Disk). d.marker) h.0.0),
          (inr (inl (prepared_for_load, Holds-written w.disk readable)), (inl h.0.0, rw h.0.1 tt)),
        )

  begun :
      (w : World) (r : ActivationResult)
      → request.revision ≤ max_u64
      → Cleared os svc request d0 p (core_of w r)
      → let x = Transactions.begin os started w in Begun (is_created x.0.status) (core_of x.1 r)
  begun w r hr h =
      let x = Transactions.begin os started w in
      elim (Bool-cases (valid_transaction started)) [
        | inl v ↦
            (let readable = Readable-valid v hr h.0.3 in
              (
                Spared-written w x.1 r readable (begin-AtMost os started w) h,
                λ done.
                    let b = begin-created os started w (is_created-created x.0.status done) in
                    Open-written w x.1 r readable b.0 b.1 b.2 h,
              ))
        | inr v ↦
            (let q = begin-quiet os started w v in
              (
                rw (q.0, q.1) (Calm-Ready os svc request d0 p (core_of w r) h.0),
                λ done. elim (q.2 (is_created-created x.0.status done)) [ ],
              ))
      ]

  calm : Calm os svc request d0 Spared
  calm c h = h

  Spared-Open : (c : State) → Open c → Spared c
  Spared-Open c h =
      rw (h.written, h.recording.known)
        (
          (refl, refl),
          (
            inr (inl (prepared_for_load, Holds-written d0 h.recording.readable)),
            h.recording.traced,
          ),
        )

  -- Once the transaction is gone, the disk is as it was before the activation.
  Spared-cleared :
      (w w' : World) (r : ActivationResult)
      → Open (core_of w r)
      → AtMost (put_pending none w.disk) w w'
      → Spared (core_of w' r)
  Spared-cleared w w' r h (inl q) = rw (q.0, q.1) (Spared-Open (core_of w r) h)
  Spared-cleared w w' r h (inr q) =
      let back : w'.disk ≡ d0 =
        q.0 ∙ ap (put_pending none) h.written ∙ ap (λ f. put_pending f d0) (sym h.vacant) in
      let earlier : All (Recoverable request d0 p) (w.disk ∷ w.past) =
        (inr (inl (prepared_for_load, h.recording.holds)), h.recording.traced) in
      (
        (ap (λ (d : Disk). d.active) back, ap (λ (d : Disk). d.marker) back),
        rw (h.recording.known, q.1) (inl back, earlier),
      )

  Meets-abandon_transaction :
      {A : Type 0} {Q : A → State → Type 0} → Meets Open (abandon_transaction os request p) Q End
  unfolding abandon_transaction clear_transaction
  Meets-abandon_transaction =
      Meets-bind _ _
        (Meets-bind _ _
          (Meets-lift {Q = λ _. Spared} (Transactions.clear os request.operation_id) (λ w r h.
            Spared-cleared w (Transactions.clear os request.operation_id w).1 r h
              (clear-AtMost os request.operation_id w)))
          λ x. Meets-bind _ _ (Meets-assign {Q = Spared} _ (λ w r h. h)) λ _. Meets-pure x)
        λ x.
          Meets-if (is_cleared x.status) _ _ (λ _. Meets-fail_audit os svc request d0 calm)
            (λ _. Meets-fail os svc request d0 _ _ _ refl calm)

  pub Meets-begin_transaction :
      request.revision ≤ max_u64
      → Meets (Cleared os svc request d0 p) (begin_transaction os request p) (λ _. Open) End
  unfolding begin_transaction note_transaction
  Meets-begin_transaction bound =
      Meets-bind _ _
        (Meets-audited os svc request d0 (λ c h. Calm-Ready os svc request d0 p c h.0)
          (Meets-record_event os svc request d0 _ _ _ _ _ _ _))
        λ _.
          Meets-bind _ _
            (Meets-lift {Q = λ (x : ActivationTransactionResult). Begun (is_created x.status)}
              (Transactions.begin os started) (λ w r h. begun w r bound h))
            λ x.
              Meets-bind _ _
                (Meets-assign {Q = Begun (is_created x.status)} _ (λ w r h. (
                  h.0,
                  λ done.
                      let o = h.1 done in
                      record {
                        recording = record {
                          holds = o.recording.holds;
                          traced = o.recording.traced;
                          known = o.recording.known;
                          granted = o.recording.granted;
                          readable = o.recording.readable;
                        };
                        fresh = o.fresh;
                        written = o.written;
                        vacant = o.vacant;
                      },
                )))
                λ _.
                  Meets-bind _ _ (Meets-bind _ _ (Meets-now os) (λ t. Meets-append os _)) λ noted.
                    Meets-if (not noted) _ _
                      (λ _.
                        Meets-if (is_created x.status) _ _
                          (λ done. Meets-pre (λ c h. h.1 done) Meets-abandon_transaction)
                          (λ _. Meets-fail_audit os svc request d0 (λ c h. h.0)))
                      λ _.
                        Meets-if (is_created x.status) _ _
                          (λ done. Meets-pre (λ c h. h.1 done) (Meets-pure tt))
                          (λ _.
                            Meets-fail os svc request d0 _ _ _
                              (refused_transaction-untouched x.status) (λ c h. h.0))

  pub Meets-announce_load :
      (authorization : AuthorizationResult)
      → Meets Open (announce_load os request p authorization) (λ _. Open) End
  unfolding announce_load
  Meets-announce_load authorization = Meets-bind _ _ (Meets-now os) λ t.
      Meets-bind _ _ (Meets-append os _)
        λ noted. Meets-if noted _ _ (λ _. Meets-pure tt) (λ _. Meets-abandon_transaction)
