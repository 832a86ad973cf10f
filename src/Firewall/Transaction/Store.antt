-- ===== src/Firewall/Transaction/Store.antt =====
-- The operations of `ActivationTransactionStore`,
-- src/core/firewall/activation_transaction_store.cpp. The record is the file `pending` of the disk.
use sasd_gatehold.Prelude.{
  Bool, true, false, not, ◌&&◌, Option, none, some, String, leb, ltb, if◌then◌else◌, length,
}
use sasd_gatehold.Text.{Bytes, text, eq_bytes}
use sasd_gatehold.Host.{
  Os, File, Disk, M, ◌>>=◌, ◌>>◌, pure, gets, and_then, write, Opened, opened, absent, unopened,
  syscall, error_text, open_file,
}
use sasd_gatehold.Firewall.Transaction.Record.{
  ActivationPhase, prepared_for_load, PendingActivation, valid_transaction, valid_transition,
  serialize, parse,
}

pub data ActivationTransactionStatus : Type 0 where
  created advanced loaded cleared no_pending conflict invalid_record invalid_transition :
      ActivationTransactionStatus
  unsafe_root unsafe_file io_error : ActivationTransactionStatus

pub record ActivationTransactionResult : Type 0 where
  pub status : ActivationTransactionStatus
  pub event_id : Bytes
  pub message : Bytes
  pub transaction : Option PendingActivation

abbrev pub transaction_ok : ActivationTransactionStatus → Bool
transaction_ok created = true
transaction_ok advanced = true
transaction_ok loaded = true
transaction_ok cleared = true
transaction_ok no_pending = true
transaction_ok _ = false

abbrev pub result :
    ActivationTransactionStatus
    → String
    → Bytes
    → Option PendingActivation
    → ActivationTransactionResult
result status id message t = record {
  status = status;
  event_id = text id;
  message = message;
  transaction = t;
}

abbrev pub failure : ActivationTransactionStatus → String → Bytes → ActivationTransactionResult
failure status id message = result status id message none

-- A file that the store has written: private to its owner.
abbrev pub record_file : PendingActivation → File
record_file t = record { private = true; content = serialize t }

abbrev pub put_pending : Option File → Disk → Disk
put_pending f d = record d { pending = f }

abbrev pub is_loaded : ActivationTransactionStatus → Bool
is_loaded loaded = true
is_loaded _ = false

abbrev pub is_prepared : ActivationPhase → Bool
is_prepared prepared_for_load = true
is_prepared _ = false

abbrev pub unsafe_root_failure : ActivationTransactionResult
unsafe_root_failure =
    failure unsafe_root "GH-TXN-1002"
      (text "Transaction root is not a safe owner-controlled directory.")

abbrev pub unsafe_file_failure : Bytes → ActivationTransactionResult
unsafe_file_failure = failure unsafe_file "GH-TXN-1004"

-- How `linkat` to the record's name ends.
pub data Linked : Type 0 where
  linked exists link_failed : Linked

abbrev pub link_outcome : Bool → Option File → Linked
link_outcome false _ = link_failed
link_outcome true none = linked
link_outcome true (some _) = exists

module _ (os : Os) where
  -- `open` and the tests of `fstat` on the directory.
  pub open_safe_root : M Bool
  open_safe_root = do o ← syscall os; and_then o (syscall os)

  -- The temporary file: `write_all`, `fsync` and `close`.
  pub write_temporary : M Bool
  write_temporary = do
    written ← syscall os
    synced ← and_then written (syscall os)
    closed ← syscall os
    pure (synced && closed)

  link_pending : PendingActivation → M Linked
  link_pending t = do
    o ← syscall os
    present ← gets (λ w. w.disk.pending)
    elim (link_outcome o present) [
      | linked ↦ (do write (put_pending (some (record_file t))); pure linked)
      | exists ↦ pure exists
      | link_failed ↦ pure link_failed
    ]

  publish : PendingActivation → M ActivationTransactionResult
  unfolding link_pending
  publish t = do
    outcome ← link_pending t
    elim outcome [
      | exists ↦ pure (
          failure conflict "GH-TXN-1003"
            (text "Another pending activation transaction already exists."))
      | link_failed ↦ (do
        m ← error_text os "Could not publish pending transaction atomically: "
        pure (failure io_error "GH-TXN-2002" m))
      | linked ↦ (do
        synced ← syscall os
        m ← error_text os "Could not synchronize pending transaction: "
        pure (
            if synced
            then result created "GH-TXN-0001"
                (text "Pending activation transaction created durably.") (some t)
            else failure io_error "GH-TXN-2002" m))
    ]

  persist_new : PendingActivation → M ActivationTransactionResult
  unfolding write_temporary publish
  persist_new t = do
    made ← syscall os
    if not made
        then (do
          m ← error_text os "Could not create pending transaction temporary file: "
          pure (failure io_error "GH-TXN-2001" m))
        else do
          stored ← write_temporary
          if stored then publish t else do
            m ← error_text os "Could not persist pending transaction temporary file: "
            pure (failure io_error "GH-TXN-2002" m)

  unfoldable pub begin : PendingActivation → M ActivationTransactionResult
  unfolding open_safe_root persist_new
  begin t =
      if not (valid_transaction t && is_prepared t.phase)
      then pure
          (failure invalid_record "GH-TXN-1001" (text "Pending activation transaction is invalid."))
      else do root ← open_safe_root; if root then persist_new t else pure unsafe_root_failure

  -- The safety tests of `load` on the open file, then its text.
  read_record : File → M ActivationTransactionResult
  read_record f = do
    stat ← syscall os
    if not (stat && f.private && ltb 0 (length f.content) && leb (length f.content) 1024)
        then pure
            (unsafe_file_failure (text "Pending activation transaction failed safety checks."))
        else do
          done ← syscall os
          if done
              then pure (elim (parse f.content) [
                | none ↦
                    failure invalid_record "GH-TXN-1005"
                      (text "Pending activation transaction is malformed or unsupported.")
                | some t ↦
                    result loaded "GH-TXN-0003"
                      (text "Pending activation transaction loaded safely.") (some t)
              ])
              else do
                m ← error_text os "Could not read pending transaction: "
                pure (failure io_error "GH-TXN-2005" m)

  read_opened : Opened → M ActivationTransactionResult
  unfolding read_record
  read_opened absent =
      pure (result no_pending "GH-TXN-0005" (text "No pending activation transaction exists.") none)
  read_opened unopened =
      pure (unsafe_file_failure (text "Pending activation transaction could not be opened safely."))
  read_opened (opened f) = read_record f

  unfoldable pub load : M ActivationTransactionResult
  unfolding open_safe_root read_opened
  load = do
    root ← open_safe_root
    if not root
        then pure unsafe_root_failure
        else do present ← gets (λ w. w.disk.pending); file ← open_file os present; read_opened file

  -- `renameat` over the record.
  rename_pending : PendingActivation → M Bool
  rename_pending t = do
    renamed ← syscall os
    if renamed then (do write (put_pending (some (record_file t))); pure true) else pure false

  persist_replacement : PendingActivation → M ActivationTransactionResult
  unfolding write_temporary rename_pending
  persist_replacement t = do
    made ← syscall os
    if not made
        then (do
          m ← error_text os "Could not create transaction update: "
          pure (failure io_error "GH-TXN-2003" m))
        else do
          stored ← write_temporary
          renamed ← and_then stored (rename_pending t)
          successful ← and_then renamed (syscall os)
          if successful
              then pure (
                  result advanced "GH-TXN-0002"
                    (text "Pending activation transaction advanced durably.") (some t))
              else do
                m ← error_text os "Could not atomically update transaction: "
                pure (failure io_error "GH-TXN-2004" m)

  replace_phase : PendingActivation → ActivationPhase → M ActivationTransactionResult
  unfolding open_safe_root persist_replacement
  replace_phase t next_phase = do
    root ← open_safe_root
    if root then persist_replacement (record t { phase = next_phase }) else pure unsafe_root_failure

  advance_loaded :
      Bytes
      → ActivationPhase
      → ActivationTransactionResult
      → PendingActivation
      → M ActivationTransactionResult
  unfolding replace_phase
  advance_loaded id next_phase current t =
      if not (is_loaded current.status)
      then pure current
      else if not (eq_bytes t.operation_id id && valid_transition t.phase next_phase)
      then pure (
          failure invalid_transition "GH-TXN-1006"
            (text "Pending activation transaction transition is invalid."))
      else replace_phase t next_phase

  unfoldable pub advance : Bytes → ActivationPhase → M ActivationTransactionResult
  unfolding load advance_loaded
  advance id next_phase = do
    current ← load
    elim current.transaction [
      | none ↦ pure current
      | some t ↦ advance_loaded id next_phase current t
    ]

  -- `unlinkat` of the record.
  unlink_pending : M Bool
  unlink_pending = do
    removed ← syscall os
    if removed then (do write (put_pending none); pure true) else pure false

  remove_record : PendingActivation → M ActivationTransactionResult
  unfolding open_safe_root unlink_pending
  remove_record t = do
    root ← open_safe_root
    if not root then pure unsafe_root_failure else do
      removed ← unlink_pending
      synced ← and_then removed (syscall os)
      if synced
          then pure (
              result cleared "GH-TXN-0004" (text "Pending activation transaction cleared durably.")
                (some t))
          else do
            m ← error_text os "Could not clear pending transaction: "
            pure (failure io_error "GH-TXN-2006" m)

  clear_loaded :
      Bytes → ActivationTransactionResult → PendingActivation → M ActivationTransactionResult
  unfolding remove_record
  clear_loaded id current t =
      if not (is_loaded current.status)
      then pure current
      else if not (eq_bytes t.operation_id id)
      then pure (
          failure conflict "GH-TXN-1007"
            (text "Pending transaction belongs to a different operation."))
      else remove_record t

  unfoldable pub clear : Bytes → M ActivationTransactionResult
  unfolding load clear_loaded
  clear id = do
    current ← load
    elim current.transaction [ none ↦ pure current | some t ↦ clear_loaded id current t ]
