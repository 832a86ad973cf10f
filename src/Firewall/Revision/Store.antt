-- ===== src/Firewall/Revision/Store.antt =====
-- `RevisionStore`, src/core/firewall/revision_store.cpp. The file of revision `r` is
-- `revisions r` of the disk (its name is the number in twenty digits, so names and numbers
-- correspond), the marker is the file `marker`.
use sasd_gatehold.Prelude.{
  ℕ, ◌*◌, Bool, true, false, not, ◌&&◌, Option, none, some, [], ◌∷◌, ◌++◌, String, leb, ltb, ◌==◌,
  if◌then◌else◌, length, is_some, take,
}
use sasd_gatehold.Text.{Bytes, text}
use sasd_gatehold.Text.Decimal.{max_u64, to_string, from_chars}
use sasd_gatehold.Host.{
  Os, File, Disk, M, ◌>>=◌, ◌>>◌, pure, gets, and_then, write, Opened, opened, absent, unopened,
  syscall, error_text, open_file,
}

pub data RevisionStatus : Type 0 where
  stored loaded marked_last_known_good last_known_good_found invalid_revision unsafe_root :
      RevisionStatus
  unsafe_source already_exists not_found corrupt_pointer too_large io_error : RevisionStatus

-- `RevisionWriteResult`; the path of a stored revision is its number.
pub record RevisionWriteResult : Type 0 where
  pub status : RevisionStatus
  pub event_id : Bytes
  pub message : Bytes
  pub revision_path : Option ℕ

pub record RevisionReadResult : Type 0 where
  pub status : RevisionStatus
  pub event_id : Bytes
  pub message : Bytes
  pub content : Bytes

pub record LastKnownGoodResult : Type 0 where
  pub status : RevisionStatus
  pub event_id : Bytes
  pub message : Bytes
  pub revision : Option ℕ

abbrev pub read_ok : RevisionReadResult → Bool
read_ok r = elim r.status [ loaded ↦ true | _ ↦ false ]

abbrev pub write_ok : RevisionWriteResult → Bool
write_ok r = elim r.status [ stored ↦ true | _ ↦ false ]

abbrev pub pointer_ok : LastKnownGoodResult → Bool
pointer_ok r = elim r.status [
  | marked_last_known_good ↦ true
  | last_known_good_found ↦ true
  | _ ↦ false
]

abbrev pub write_failure : RevisionStatus → String → Bytes → RevisionWriteResult
write_failure s id m = record { status = s; event_id = text id; message = m; revision_path = none }

abbrev pub read_failure : RevisionStatus → Bytes → Bytes → RevisionReadResult
read_failure s id m = record { status = s; event_id = id; message = m; content = [] }

abbrev pub pointer_failure : RevisionStatus → Bytes → Bytes → LastKnownGoodResult
pointer_failure s id m = record { status = s; event_id = id; message = m; revision = none }

abbrev pub maximum_revision_size : ℕ
maximum_revision_size = 1024 * 1024

abbrev pub set_revision : ℕ → Option File → Disk → Disk
set_revision r f d =
    let old = d.revisions in record d { revisions = λ k. if k == r then f else old k }

abbrev pub put_marker : Option File → Disk → Disk
put_marker f d = record d { marker = f }

abbrev pub marker_file : ℕ → File
marker_file r = record { private = true; content = to_string r ++ b'\n' ∷ [] }

abbrev pub revision_file : Bytes → File
revision_file c = record { private = true; content = c }

-- The text in front of a final line feed: `back` and `pop_back`.
unfoldable pub chop_feed : Bytes → Option Bytes
chop_feed [] = none
chop_feed (c ∷ []) = if c == b'\n' then some [] else none
chop_feed (c ∷ d ∷ s) = elim (chop_feed (d ∷ s)) [ none ↦ none | some l ↦ some (c ∷ l) ]

abbrev pub root_message : Bool → String
root_message true = "Revision root could not be opened safely."
root_message false = "Revision root is not a safe owner-controlled directory."

module _ (os : Os) where
  -- `safe_root`, that is `lstat` and the tests of the directory; then `open_root`. Whether the
  -- directory is safe, and whether it is open.
  unfoldable pub usable_root : M (Bool × Bool)
  usable_root = do safe ← syscall os; reached ← and_then safe (syscall os); pure (safe, reached)

  read_revision : Opened → M RevisionReadResult
  read_revision absent =
      pure (read_failure not_found (text "GH-REV-1006") (text "Revision was not found."))
  read_revision unopened = do
    m ← error_text os "Could not open revision: "
    pure (read_failure io_error (text "GH-REV-2004") m)
  read_revision (opened f) = do
    stat ← syscall os
    if not (stat && f.private)
        then pure (
            read_failure unsafe_source (text "GH-REV-1007")
              (text "Revision file failed type, ownership, or permission checks."))
        else if ltb maximum_revision_size (length f.content)
        then pure (
            read_failure too_large (text "GH-REV-1004")
              (text "Stored revision exceeds the revision size limit."))
        else do
          done ← syscall os
          if done
              then pure (record {
                status = loaded;
                event_id = text "GH-REV-0002";
                message = text "PF revision loaded successfully.";
                content = f.content;
              })
              else do
                m ← error_text os "Could not read revision: "
                pure (read_failure io_error (text "GH-REV-2005") m)

  unfoldable pub load : ℕ → M RevisionReadResult
  unfolding usable_root read_revision
  load r =
      if r == 0
      then pure (
          read_failure invalid_revision (text "GH-REV-1001")
            (text "Revision number must be greater than zero."))
      else do
        (safe, root) ← usable_root
        if not root
            then pure (read_failure unsafe_root (text "GH-REV-1002") (text (root_message safe)))
            else do
              present ← gets (λ w. w.disk.revisions r)
              file ← open_file os present
              read_revision file

  -- The temporary file of the marker (`write_all`, `fsync`, `close`), `renameat` and the `fsync` of
  -- the directory.
  replace_marker : ℕ → M Bool
  replace_marker r = do
    written ← syscall os
    flushed ← and_then written (syscall os)
    closed ← syscall os
    renamed ← and_then (flushed && closed) (syscall os)
    replaced ← and_then renamed (do write (put_marker (some (marker_file r))); pure true)
    and_then replaced (syscall os)

  write_marker : ℕ → M LastKnownGoodResult
  unfolding replace_marker
  write_marker r = do
    root ← syscall os
    if not root
        then pure (
            pointer_failure unsafe_root (text "GH-REV-1002")
              (text "Revision root could not be opened safely."))
        else do
          made ← syscall os
          if not made
              then (do
                m ← error_text os "Could not create last-known-good marker: "
                pure (pointer_failure io_error (text "GH-REV-2006") m))
              else do
                successful ← replace_marker r
                if successful
                    then pure (record {
                      status = marked_last_known_good;
                      event_id = text "GH-REV-0003";
                      message = text "Revision marked as last known good.";
                      revision = some r;
                    })
                    else do
                      m ← error_text os "Could not atomically update last-known-good marker: "
                      pure (pointer_failure io_error (text "GH-REV-2007") m)

  unfoldable pub mark_last_known_good : ℕ → M LastKnownGoodResult
  unfolding write_marker
  mark_last_known_good r = do
    existing ← load r
    if read_ok existing
        then write_marker r
        else pure (
            pointer_failure existing.status existing.event_id
              (text "Cannot mark a revision that is unavailable or unsafe."))

  abbrev pub corrupt : String → LastKnownGoodResult
  corrupt words = pointer_failure corrupt_pointer (text "GH-REV-1009") (text words)

  unfoldable pub check_marker : Option ℕ → M LastKnownGoodResult
  check_marker none =
      pure (corrupt "Last-known-good marker references an invalid or unavailable revision.")
  check_marker (some r) = do
    existing ← load r
    pure (
        if read_ok existing && not (r == 0)
        then record {
          status = last_known_good_found;
          event_id = text "GH-REV-0004";
          message = text "Last-known-good revision loaded successfully.";
          revision = some r;
        }
        else corrupt "Last-known-good marker references an invalid or unavailable revision.")

  unfoldable pub parse_marker : Option Bytes → M LastKnownGoodResult
  unfolding check_marker
  parse_marker none = pure (corrupt "Last-known-good marker is incomplete or malformed.")
  parse_marker (some digits) = check_marker (from_chars max_u64 digits)

  unfoldable pub read_marker : Opened → M LastKnownGoodResult
  unfolding parse_marker
  read_marker absent = pure (
      pointer_failure not_found (text "GH-REV-1008")
        (text "No last-known-good revision is recorded."))
  read_marker unopened = pure (corrupt "Last-known-good marker could not be opened safely.")
  read_marker (opened f) = do
    stat ← syscall os
    if not (stat && f.private && leb 2 (length f.content) && leb (length f.content) 32)
        then pure (corrupt "Last-known-good marker failed validation.")
        else do done ← syscall os; parse_marker (if done then chop_feed f.content else none)

  unfoldable pub find_marker : Bool → Bool → M LastKnownGoodResult
  find_marker safe false =
      pure (pointer_failure unsafe_root (text "GH-REV-1002") (text (root_message safe)))
  find_marker safe true = do
    present ← gets (λ w. w.disk.marker)
    file ← open_file os present
    read_marker file

  unfoldable pub last_known_good : M LastKnownGoodResult
  last_known_good = do (safe, root) ← usable_root; find_marker safe root

  -- `openat` with O_EXCL: the empty file is on the disk at once.
  create_revision : ℕ → M Bool
  create_revision r = do
    made ← syscall os
    if made then (do write (set_revision r (some (revision_file []))); pure true) else pure false

  -- `write_all` of the content: all of it, or as much as the failed call has written.
  fill_revision : ℕ → Bytes → M Bool
  fill_revision r content = do
    written ← syscall os
    part ← gets (λ w. os.torn w.clock)
    write (set_revision r (some (revision_file (if written then content else take part content))))
    pure written

  -- `unlinkat`; its failure is ignored.
  drop_revision : ℕ → M (Unit {0})
  drop_revision r = do
    removed ← syscall os
    if removed then write (set_revision r none) else pure tt

  persist_revision : ℕ → Bytes → M RevisionWriteResult
  unfolding fill_revision drop_revision
  persist_revision r content = do
    written ← fill_revision r content
    flushed ← and_then written (syscall os)
    closed ← syscall os
    successful ← and_then (flushed && closed) (syscall os)
    if successful
        then pure (record {
          status = stored;
          event_id = text "GH-REV-0001";
          message = text "Validated PF revision stored immutably.";
          revision_path = some r;
        })
        else do
          drop_revision r
          m ← error_text os "Could not persist revision: "
          pure (write_failure io_error "GH-REV-2003" m)

  -- A name that exists makes O_EXCL fail with EEXIST.
  add_revision : ℕ → Bytes → M RevisionWriteResult
  unfolding create_revision persist_revision
  add_revision r content = do
    present ← gets (λ w. w.disk.revisions r)
    if is_some present
        then pure (
            write_failure already_exists "GH-REV-1005"
              (text "Revision already exists and is immutable."))
        else do
          made ← create_revision r
          if made then persist_revision r content else do
            m ← error_text os "Could not create revision: "
            pure (write_failure io_error "GH-REV-2002" m)

  store_candidate : ℕ → File → M RevisionWriteResult
  unfolding add_revision
  store_candidate r f = do
    stat ← syscall os
    if not (stat && f.private)
        then pure (
            write_failure unsafe_source "GH-REV-1003" (
              text "Validated candidate must be a private regular file owned by the current user."))
        else if ltb maximum_revision_size (length f.content)
        then pure (
            write_failure too_large "GH-REV-1004"
              (text "Validated candidate exceeds the revision size limit."))
        else do
          done ← syscall os
          if not done
              then (do
                m ← error_text os "Could not read validated candidate: "
                pure (write_failure io_error "GH-REV-2001" m))
              else do
                root ← syscall os
                if root
                    then add_revision r f.content
                    else pure (
                        write_failure unsafe_root "GH-REV-1002"
                          (text "Revision root could not be opened safely."))

  -- `store revision validated_candidate`; the candidate is the file at the given path, if any.
  unfoldable pub store : ℕ → Option File → M RevisionWriteResult
  unfolding store_candidate
  store r candidate =
      if r == 0
      then pure (
          write_failure invalid_revision "GH-REV-1001"
            (text "Revision number must be greater than zero."))
      else do
        root ← syscall os
        if not root
            then pure (
                write_failure unsafe_root "GH-REV-1002"
                  (text "Revision root is not a safe owner-controlled directory."))
            else do
              source ← open_file os candidate
              elim source [
                | opened f ↦ store_candidate r f
                | _ ↦ pure (
                    write_failure unsafe_source "GH-REV-1003"
                      (text "Validated candidate could not be opened safely."))
              ]
