-- ===== src/Firewall/Activation/Crash.antt =====
-- A crash in the middle of an activation, and the recovery after it.
use sasd_gatehold.Prelude.{
  ℕ, ◌≤◌, ◌≡◌, refl, ap, ◌∙◌, subst, ◌⊎◌, inl, inr, true, none, some, List, [], ◌∷◌, arith, All,
  Bool-cases,
}
use sasd_gatehold.Text.Decimal.{max_u64}
use sasd_gatehold.Host.{Os, World, Disk}
use sasd_gatehold.Firewall.Transaction.Record as Record
use sasd_gatehold.Firewall.Transaction.Record.{ActivationPhase}
use sasd_gatehold.Firewall.Transaction.Effect.{Holds}
use sasd_gatehold.Firewall.Activation.Types.{ActivationRequest, Service}
use sasd_gatehold.Firewall.Activation.Service.{activate}
use sasd_gatehold.Firewall.Activation.Recovery.{recovery_ok, recover_pending, is_committed}
use sasd_gatehold.Firewall.Activation.Conditions.{
  Restored, Untouched, transaction_at, Recoverable, Traced,
}
use sasd_gatehold.Firewall.Activation.Recovered.{Resolved}
use sasd_gatehold.Firewall.Activation.Restart.{recover_pending-Recovered, recover_pending-idle}
use sasd_gatehold.Firewall.Activation.Outcome.{activate-Traced}

is_committed-committed : (q : ActivationPhase) → is_committed q ≡ true → q ≡ Record.committed
is_committed-committed Record.committed h = refl
is_committed-committed q h = ground arith

-- `d` is one of the disks.
abbrev pub OneOf : Disk → List Disk → Type 0
OneOf d [] = ⊥
OneOf d (x ∷ xs) = (d ≡ x) ⊎ OneOf d xs

All-OneOf : (P : Disk → Type 0) (d : Disk) (xs : List Disk) → All P xs → OneOf d xs → P d
All-OneOf P d [] h m = elim m [ ]
All-OneOf P d (x ∷ xs) h (inl e) = rw e h.0
All-OneOf P d (x ∷ xs) h (inr m) = All-OneOf P d xs h.1 m

-- After the recovery from disk `d` no transaction is left, and the firewall is as it was before the
-- activation, or runs and marks the previous or the requested revision, or the transaction was
-- committed and the ruleset and the marker have been left alone.
abbrev pub Safe : ActivationRequest → Disk → ℕ → Disk → Disk → Type 0
Safe request d0 p d d' =
    (d'.pending ≡ none)
    × ((d' ≡ d0)
        ⊎ Restored p d'
        ⊎ Restored request.revision d'
        ⊎ (Holds (transaction_at request p Record.committed) d × Untouched d d'))

module _ (os : Os) (request : ActivationRequest) (d0 : Disk) (p : ℕ) (vacant : d0.pending ≡ none)
    (w : World) (begins : w.past ≡ []) where
  widen :
      (w.disk ≡ d0) ⊎ Restored p w.disk ⊎ Restored request.revision w.disk
      → (w.disk ≡ d0)
        ⊎ Restored p w.disk
        ⊎ Restored request.revision w.disk
        ⊎ (Holds (transaction_at request p Record.committed) w.disk × Untouched w.disk w.disk)
  widen (inl h) = inl h
  widen (inr (inl h)) = inr (inl h)
  widen (inr (inr h)) = inr (inr (inl h))

  recovered_idle :
      w.disk.pending ≡ none
      → (w.disk ≡ d0) ⊎ Restored p w.disk ⊎ Restored request.revision w.disk
      → Safe request d0 p w.disk (recover_pending os w).world.disk
  recovered_idle none_left h = rw ((recover_pending-idle os w none_left).0) (none_left, widen h)

  recovered_holding :
      (phase : ActivationPhase)
      → Holds (transaction_at request p phase) w.disk
      → recovery_ok (recover_pending os w).result.status ≡ true
      → Safe request d0 p w.disk (recover_pending os w).world.disk
  recovered_holding phase h ok =
      let t = transaction_at request p phase in
      let d' = (recover_pending os w).world.disk in
      let (gone, resolved) = recover_pending-Recovered os t w h begins ok in
      elim (Bool-cases (is_committed phase)) [
        | inl c ↦ (
          gone,
          inr (
              inr (
                inr (
                  subst (λ q. Holds (transaction_at request p q) w.disk)
                      (is_committed-committed phase c) h,
                  (subst (λ b. Resolved os t w.disk b d') c resolved).0,
                ))),
        )
        | inr u ↦ (gone, inr (inl (subst (λ b. Resolved os t w.disk b d') u resolved)))
      ]

  pub recover_pending-Safe :
      Recoverable request d0 p w.disk
      → recovery_ok (recover_pending os w).result.status ≡ true
      → Safe request d0 p w.disk (recover_pending os w).world.disk
  recover_pending-Safe (inl e) ok = recovered_idle (ap (λ (d : Disk). d.pending) e ∙ vacant) (inl e)
  recover_pending-Safe (inr (inl (phase, h))) ok = recovered_holding phase h ok
  recover_pending-Safe (inr (inr (inl h))) ok = recovered_idle h.0 (inr (inl h.1))
  recover_pending-Safe (inr (inr (inr h))) ok = recovered_idle h.0 (inr (inr h.1))

-- Take any run of `activate` that starts without a transaction on disk, with a revision that fits
-- in 64 bits, and that has found a previous revision `p`. Cut it off at any disk it passes
-- through, and run `recover_pending` there, on any other host. If the recovery reports success,
-- no transaction is left, and the disk is as before the activation, or PF runs and the marker
-- names `p` or the requested revision, or the transaction was a committed one and PF and the
-- marker are as the crash left them.
pub activate-recover :
    (os os' : Os) (svc : Service) (request : ActivationRequest) (w w' : World) (p : ℕ)
    → request.revision ≤ max_u64
    → w.past ≡ []
    → w.disk.pending ≡ none
    → let s = activate os svc request w in
      s.result.rollback_revision ≡ some p
      → OneOf w'.disk (s.world.disk ∷ s.world.past)
      → w'.past ≡ []
      → recovery_ok (recover_pending os' w').result.status ≡ true
      → Safe request w.disk p w'.disk (recover_pending os' w').world.disk
activate-recover os os' svc request w w' p bound begins vacant known crashed fresh ok =
    let s = activate os svc request w in
    let traced : Traced request w.disk (some p) s.world.disk s.world.past =
      subst (λ o. Traced request w.disk o s.world.disk s.world.past) known
        (activate-Traced os svc request w bound begins) in
    recover_pending-Safe os' request w.disk p vacant w' fresh
      (All-OneOf (Recoverable request w.disk p) w'.disk (s.world.disk ∷ s.world.past) traced
        crashed)
      ok
