-- ===== src/Firewall/Transaction/Effect.antt =====
-- What the operations of the transaction store do to the disk,
-- src/core/firewall/activation_transaction_store.cpp.
use sasd_gatehold.Prelude.{
  ◌≡◌, ◌≢◌, ◌⊎◌, inl, inr, true, false, none, some, ◌∷◌, arith, Option-cases,
}
use sasd_gatehold.Text.{Bytes}
use sasd_gatehold.Host.{Os, Disk, World}
use sasd_gatehold.Firewall.Transaction.Record.{
  ActivationPhase, PendingActivation, valid_transaction, valid_transition, serialize, parse,
}
use sasd_gatehold.Firewall.Transaction.Store.{
  created, advanced, cleared, no_pending, put_pending, record_file, begin, load, advance, clear,
}

-- The disk is as it was, or has become `d` in one atomic change.
abbrev pub AtMost : Disk → World → World → Type 0
AtMost d w w' =
    ((w'.disk ≡ w.disk) × (w'.past ≡ w.past)) ⊎ ((w'.disk ≡ d) × (w'.past ≡ w.disk ∷ w.past))

-- The record on disk is the text of `t`, which reads back.
pub record Holds (t : PendingActivation) (d : Disk) : Type 0 where
  pub stored : d.pending ≡ some (record_file t)
  pub readable : parse (serialize t) ≡ some t

module _ (os : Os) where
  pub begin-AtMost :
      (t : PendingActivation) (w : World)
      → AtMost (put_pending (some (record_file t)) w.disk) w (begin os t w).1
  unfolding begin
  begin-AtMost t w = ground arith

  -- If `begin` reports `created`, there was no record, and now there is the record of the
  -- transaction, in one atomic change of the disk.
  pub begin-created :
      (t : PendingActivation) (w : World)
      → (begin os t w).0.status ≡ created
      → ((begin os t w).1.disk ≡ put_pending (some (record_file t)) w.disk)
        × ((begin os t w).1.past ≡ w.disk ∷ w.past)
        × (w.disk.pending ≡ none)
  unfolding begin
  begin-created t w h = ground arith

  -- A transaction that is not valid is refused before anything is written.
  pub begin-quiet :
      (t : PendingActivation) (w : World)
      → valid_transaction t ≡ false
      → ((begin os t w).1.disk ≡ w.disk)
        × ((begin os t w).1.past ≡ w.past)
        × ((begin os t w).0.status ≢ created)
  unfolding begin
  begin-quiet t w h = ground arith

  -- Loading changes nothing.
  pub load-quiet : (w : World) → ((load os w).1.disk ≡ w.disk) × ((load os w).1.past ≡ w.past)
  unfolding load
  load-quiet w = ground arith

  -- A transaction that `load` returns was read from the record.
  pub load-transaction :
      (t t' : PendingActivation) (w : World)
      → Holds t w.disk
      → (load os w).0.transaction ≡ some t'
      → t' ≡ t
  unfolding load
  load-transaction t t' w h e = ground (arith, h.stored, h.readable)

  -- `load` finds nothing only where there is nothing.
  pub load-pending :
      (w : World)
      → ((load os w).0.status ≡ no_pending → w.disk.pending ≡ none)
        × (w.disk.pending ≡ none → (load os w).0.transaction ≡ none)
  unfolding load
  load-pending w = ground arith

  -- `load` has no status of another operation.
  load-status :
      (w : World)
      → ((load os w).0.status ≢ advanced)
        × ((load os w).0.status ≢ cleared)
        × ((load os w).0.status ≢ created)
  unfolding load
  load-status w = ground arith

  -- Where a readable transaction is on disk: whatever `advance` reports, the disk is as it was,
  -- or differs in one atomic change that puts the transaction in the phase asked for.
  pub advance-AtMost :
      (t : PendingActivation) (id : Bytes) (p : ActivationPhase) (w : World)
      → Holds t w.disk
      → AtMost
          (put_pending (some (record_file (record t { phase = p }))) w.disk)
          w
          (advance os id p w).1
  unfolding advance
  advance-AtMost t id p w h = elim (Option-cases (load os w).0.transaction) [
    | inl e ↦ ground (arith, load-quiet w)
    | inr (t', e) ↦ ground (arith, load-quiet w, load-transaction t t' w h e)
  ]

  -- Where a readable transaction is on disk: if `advance` reports `advanced`, the record holds
  -- that transaction in the phase asked for, in one atomic change of the disk, and the phase is
  -- the one after the old phase.
  pub advance-advanced :
      (t : PendingActivation) (id : Bytes) (p : ActivationPhase) (w : World)
      → Holds t w.disk
      → (advance os id p w).0.status ≡ advanced
      → ((advance os id p w).1.disk
          ≡ put_pending (some (record_file (record t { phase = p }))) w.disk)
        × ((advance os id p w).1.past ≡ w.disk ∷ w.past)
        × (valid_transition t.phase p ≡ true)
  unfolding advance
  advance-advanced t id p w h s = elim (Option-cases (load os w).0.transaction) [
    | inl e ↦ ground (arith, load-quiet w, load-status w)
    | inr (t', e) ↦ ground (arith, load-quiet w, load-transaction t t' w h e)
  ]

  pub clear-AtMost : (id : Bytes) (w : World) → AtMost (put_pending none w.disk) w (clear os id w).1
  unfolding clear
  clear-AtMost id w = elim (Option-cases (load os w).0.transaction) [
    | inl e ↦ ground (arith, load-quiet w)
    | inr (t', e) ↦ ground (arith, load-quiet w)
  ]

  -- If `clear` reports `cleared`, the record is gone and nothing else on disk has changed, in one
  -- atomic change.
  pub clear-cleared :
      (id : Bytes) (w : World)
      → (clear os id w).0.status ≡ cleared
      → ((clear os id w).1.disk ≡ put_pending none w.disk)
        × ((clear os id w).1.past ≡ w.disk ∷ w.past)
  unfolding clear
  clear-cleared id w s = elim (Option-cases (load os w).0.transaction) [
    | inl e ↦ ground (arith, load-quiet w, load-status w)
    | inr (t', e) ↦ ground (arith, load-quiet w, load-status w)
  ]
