-- ===== src/Firewall/Activation/Recording.antt =====
-- The condition of an activation whose transaction is on disk, and how each change of the disk
-- keeps it.
use sasd_gatehold.Prelude.{ℕ, ◌≡◌, inl, inr, some, ◌∷◌, All}
use sasd_gatehold.Host.{Os, World, Disk}
use sasd_gatehold.Firewall.Transaction.Record.{ActivationPhase, serialize, parse}
use sasd_gatehold.Firewall.Transaction.Effect.{AtMost, Holds}
use sasd_gatehold.Firewall.Activation.Types.{ActivationRequest, ActivationResult, Service}
use sasd_gatehold.Firewall.Activation.Rules.{core_of}
use sasd_gatehold.Firewall.Activation.Conditions.{
  State, Granted, transaction_at, Recoverable, Traced,
}

-- The text of the transaction reads back in every phase.
abbrev pub Readable : ActivationRequest → ℕ → Type 0
Readable request p =
    (phase : ActivationPhase)
    → parse (serialize (transaction_at request p phase)) ≡ some (transaction_at request p phase)

module _ (os : Os) (svc : Service) (request : ActivationRequest) (d0 : Disk) (p : ℕ) where
  -- The transaction is on disk in the phase, and every earlier disk is recoverable.
  pub record Recording (phase : ActivationPhase) (c : State) : Type 0 where
    pub holds : Holds (transaction_at request p phase) c.disk
    pub traced : All (Recoverable request d0 p) c.past
    pub known : c.result.rollback_revision ≡ some p
    pub granted : Granted os svc request d0 c.result
    pub readable : Readable request p

  -- A change that leaves the transaction in the same phase.
  pub Recording-AtMost :
      (phase : ActivationPhase) (d : Disk) (w w' : World) (r : ActivationResult)
      → Holds (transaction_at request p phase) d
      → AtMost d w w'
      → Recording phase (core_of w r)
      → Recording phase (core_of w' r)
  Recording-AtMost phase d w w' r hd (inl q) h = rw (q.0, q.1) h
  Recording-AtMost phase d w w' r hd (inr q) h =
      rw (q.0, q.1)
        (record {
          holds = hd;
          traced = (inr (inl (phase, h.holds)), h.traced);
          known = h.known;
          granted = h.granted;
          readable = h.readable;
        })

  -- A change that writes the transaction in another phase.
  pub Recording-written :
      (phase next : ActivationPhase) (d : Disk) (w w' : World) (r : ActivationResult)
      → Holds (transaction_at request p next) d
      → (w'.disk ≡ d) × (w'.past ≡ w.disk ∷ w.past)
      → Recording phase (core_of w r)
      → Recording next (core_of w' r)
  Recording-written phase next d w w' r hd q h =
      rw (q.0, q.1)
        (record {
          holds = hd;
          traced = (inr (inl (phase, h.holds)), h.traced);
          known = h.known;
          granted = h.granted;
          readable = h.readable;
        })

  pub Recording-quiet :
      (phase : ActivationPhase) (w w' : World) (r : ActivationResult)
      → (w'.disk ≡ w.disk) × (w'.past ≡ w.past)
      → Recording phase (core_of w r)
      → Recording phase (core_of w' r)
  Recording-quiet phase w w' r q h = rw (q.0, q.1) h

  -- What a run that ends here leaves behind.
  pub Recording-Traced :
      (phase : ActivationPhase) (c : State)
      → Recording phase c
      → Traced request d0 c.result.rollback_revision c.disk c.past
  Recording-Traced phase c h = rw h.known (inr (inl (phase, h.holds)), h.traced)
