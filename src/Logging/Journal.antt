-- ===== src/Logging/Journal.antt =====
-- `OperationJournal::append`, src/core/logging/operation_journal.cpp. The journal is the file
-- `journal` of the world; its size limit is that of the source.
use sasd_gatehold.Prelude.{
  ℕ, ◌+◌, ◌*◌, ◌≤◌, ◌≡◌, Bool, true, false, not, ◌&&◌, Option, none, some, [], ◌∷◌, ◌++◌, arith,
  String, ltb, if◌then◌else◌, length, length-append, take, is_empty,
}
use sasd_gatehold.Text.{Bytes, text}
use sasd_gatehold.Host.{Os, File, World, M, ◌>>=◌, ◌>>◌, pure, gets, and_then, syscall, error_text}
use sasd_gatehold.Logging.Event.{Event}
use sasd_gatehold.Logging.Format.Defs.{format}

pub data JournalStatus : Type 0 where
  appended invalid_event unsafe_root unsafe_journal capacity_exceeded io_error : JournalStatus

pub record JournalResult : Type 0 where
  pub status : JournalStatus
  pub event_id : Bytes
  pub message : Bytes

abbrev pub journal_ok : JournalResult → Bool
journal_ok r = elim r.status [ appended ↦ true | _ ↦ false ]

abbrev failure : JournalStatus → String → String → JournalResult
failure s id m = record { status = s; event_id = text id; message = text m }

unfoldable pub has_required_fields : Event → Bool
has_required_fields e =
    not (is_empty e.timestamp)
    && not (is_empty e.event_id)
    && not (is_empty e.component)
    && not (is_empty e.operation_id)
    && not (is_empty e.action)
    && not (is_empty e.outcome)

abbrev pub maximum_entry_size : ℕ
maximum_entry_size = 64 * 1024

abbrev pub maximum_journal_size : ℕ
maximum_journal_size = 16 * 1024 * 1024

abbrev pub entry : Event → Bytes
entry e = format e ++ b'\n' ∷ []

abbrev pub journal_text : Option File → Bytes
journal_text none = []
journal_text (some f) = f.content

-- `openat` with O_CREAT: an existing file keeps its attributes, a new one is private and empty.
abbrev opened_journal : Option File → File
opened_journal none = record { private = true; content = [] }
opened_journal (some f) = f

abbrev set_journal : File → M (Unit {0})
set_journal f w = (tt, record w { journal = some f })

module _ (os : Os) where
  open_journal : M Bool
  open_journal = do
    done ← syscall os
    f ← gets (λ w. w.journal)
    if done then (do set_journal (opened_journal f); pure true) else pure false

  -- `write_all` on a file opened with O_APPEND: the whole line, or what the failed call has written.
  write_entry : File → Bytes → M Bool
  write_entry f line = do
    part ← gets (λ w. os.torn w.clock)
    written ← syscall os
    set_journal (record f { content = f.content ++ (if written then line else take part line) })
    pure written

  -- From `write_all` to the last `fsync`.
  write_synced : File → Bytes → M JournalResult
  unfolding write_entry
  write_synced f line = do
    written ← write_entry f line
    synced ← and_then written (syscall os)
    closed ← syscall os
    successful ← and_then (synced && closed) (syscall os)
    if successful
        then pure (failure appended "GH-AUDIT-0001" "Audit event appended successfully.")
        else do
          m ← error_text os "Could not append and synchronize audit event: "
          pure (record { status = io_error; event_id = text "GH-AUDIT-2001"; message = m })

  -- Under the lock: the size test, then the write.
  append_locked : Bytes → M JournalResult
  unfolding write_synced
  append_locked line = do
    locked ← syscall os
    stat ← and_then locked (syscall os)
    f ← gets (λ w. opened_journal w.journal)
    if not stat
        then (do
          m ← error_text os "Could not append and synchronize audit event: "
          pure (record { status = io_error; event_id = text "GH-AUDIT-2001"; message = m }))
        else if ltb maximum_journal_size (length f.content + length line)
        then pure (
            failure capacity_exceeded "GH-AUDIT-1005"
              "Audit journal reached its size limit and must be rotated.")
        else write_synced f line

  append_open : Bytes → M JournalResult
  unfolding open_journal append_locked
  append_open line = do
    done ← open_journal
    if not done
        then (do
          m ← error_text os "Audit journal could not be opened safely: "
          pure (record { status = unsafe_journal; event_id = text "GH-AUDIT-1004"; message = m }))
        else do
          stat ← syscall os
          f ← gets (λ w. opened_journal w.journal)
          if not (stat && f.private)
              then pure (
                  failure unsafe_journal "GH-AUDIT-1004"
                    "Audit journal must be a private regular file owned by the current user.")
              else append_locked line

  unfoldable pub append : Event → M JournalResult
  unfolding append_open
  append e =
      if not (has_required_fields e)
      then pure (
          failure invalid_event "GH-AUDIT-1001"
            "Audit event is missing one or more required fields.")
      else if ltb maximum_entry_size (length (format e) + 1)
      then pure (
          failure invalid_event "GH-AUDIT-1002"
            "Serialized audit event exceeds the maximum entry size.")
      else do
        -- `lstat` and its tests, then `open`
        safe ← syscall os
        root ← and_then safe (syscall os)
        if root
            then append_open (entry e)
            else pure (
                failure unsafe_root "GH-AUDIT-1003" (
                  if safe
                  then "Audit root could not be opened safely."
                  else "Audit root must be a non-symlink directory owned by the current user and not group/world writable."))

  -- Appending to the journal leaves the disk of the firewall alone.
  pub append-quiet :
      (e : Event) (w : World) → ((append e w).1.disk ≡ w.disk) × ((append e w).1.past ≡ w.past)
  unfolding append
  append-quiet e w = ground arith

  -- If `append` reports success, the journal is the old journal followed by the line of the
  -- event, and is within the size limit.
  pub append-appended :
      (e : Event) (w : World)
      → journal_ok (append e w).0 ≡ true
      → (journal_text (append e w).1.journal ≡ journal_text w.journal ++ entry e)
        × (length (journal_text (append e w).1.journal) ≤ maximum_journal_size)
  unfolding append
  append-appended e w h = ground (arith, length-append (journal_text w.journal) (entry e))
