-- ===== src/Firewall/Pfctl/Run.antt =====
-- `PfctlValidator::validate` and `PfctlLoader::load`, src/core/firewall/native_validator.cpp and
-- pfctl_loader.cpp. The file at a revision's path is `revisions r` of the disk. The process runner
-- is a parameter (`Os.process`); of `pfctl -f` the model says that with exit code 0 PF runs the
-- revision, and that after any other end PF runs it or what it ran before.
use sasd_gatehold.Prelude.{
  ℕ, Bool, true, false, not, ◌&&◌, ◌||◌, Option, none, some, [], ◌∷◌, String, is_empty,
  if◌then◌else◌, ◌≡◌, arith,
}
use sasd_gatehold.Prelude.Int.{ℤ, negsuc, is_int}
use sasd_gatehold.Text.{Bytes, text}
use sasd_gatehold.Host.{
  Os, ProcessResult, dry_run, load_rules, File, Disk, World, M, ◌>>=◌, ◌>>◌, pure, gets, write,
  syscall, run_process,
}
use sasd_gatehold.Firewall.Transaction.Effect.{AtMost}

pub data NativeValidationStatus : Type 0 where
  valid rejected timed_out execution_error unsafe_candidate : NativeValidationStatus

pub record NativeValidationResult : Type 0 where
  pub status : NativeValidationStatus
  pub event_id : Bytes
  pub exit_code : ℤ
  pub output_truncated : Bool
  pub standard_output : Bytes
  pub standard_error : Bytes
  pub message : Bytes

pub data PfctlLoadStatus : Type 0 where
  loaded rejected timed_out execution_error unsafe_revision : PfctlLoadStatus

pub record PfctlLoadResult : Type 0 where
  pub status : PfctlLoadStatus
  pub event_id : Bytes
  pub exit_code : ℤ
  pub output_truncated : Bool
  pub standard_output : Bytes
  pub standard_error : Bytes
  pub message : Bytes

abbrev pub validation_ok : NativeValidationResult → Bool
validation_ok r = elim r.status [ valid ↦ true | _ ↦ false ]

abbrev pub load_ok : PfctlLoadResult → Bool
load_ok r = elim r.status [ loaded ↦ true | _ ↦ false ]

-- `!launched || exit_code == 126 || exit_code == 127 || !error_message.empty()`
abbrev pub failed_to_run : ProcessResult → Bool
failed_to_run p =
    not p.launched
    || is_int p.exit_code 126
    || is_int p.exit_code 127
    || not (is_empty p.error_message)

abbrev pub or_default : Bytes → String → Bytes
or_default message words = if is_empty message then text words else message

unsafe_candidate_result : Bytes → NativeValidationResult
unsafe_candidate_result m = record {
  status = unsafe_candidate;
  event_id = text "GH-PF-1001";
  exit_code = negsuc 0;
  output_truncated = false;
  standard_output = [];
  standard_error = [];
  message = m;
}

abbrev validation_of :
    ProcessResult → NativeValidationStatus → String → Bytes → NativeValidationResult
validation_of p s id m = record {
  status = s;
  event_id = text id;
  exit_code = p.exit_code;
  output_truncated = p.output_truncated;
  standard_output = p.standard_output;
  standard_error = p.standard_error;
  message = m;
}

unfoldable pub judge_validation : ProcessResult → NativeValidationResult
judge_validation p =
    if failed_to_run p
    then validation_of p NativeValidationStatus.execution_error "GH-PF-2001"
        (or_default p.error_message "Could not execute native PF validation.")
    else if p.timed_out
    then validation_of p NativeValidationStatus.timed_out "GH-PF-2002"
        (text "Native PF validation exceeded its time limit.")
    else if not (is_int p.exit_code 0)
    then validation_of p NativeValidationStatus.rejected "GH-PF-1002"
        (text "Native PF validation rejected the candidate.")
    else validation_of p valid "GH-PF-0001" (text "Native PF validation accepted the candidate.")

unsafe_revision_result : Bytes → PfctlLoadResult
unsafe_revision_result m = record {
  status = unsafe_revision;
  event_id = text "GH-PF-1003";
  exit_code = negsuc 0;
  output_truncated = false;
  standard_output = [];
  standard_error = [];
  message = m;
}

abbrev load_of : ProcessResult → PfctlLoadStatus → String → Bytes → PfctlLoadResult
load_of p s id m = record {
  status = s;
  event_id = text id;
  exit_code = p.exit_code;
  output_truncated = p.output_truncated;
  standard_output = p.standard_output;
  standard_error = p.standard_error;
  message = m;
}

unfoldable pub judge_load : ProcessResult → PfctlLoadResult
judge_load p =
    if failed_to_run p
    then load_of p PfctlLoadStatus.execution_error "GH-PF-2003"
        (or_default p.error_message "Could not execute native PF activation.")
    else if p.timed_out
    then load_of p PfctlLoadStatus.timed_out "GH-PF-2004"
        (text "Native PF activation exceeded its time limit.")
    else if not (is_int p.exit_code 0)
    then load_of p PfctlLoadStatus.rejected "GH-PF-1004"
        (text "Native PF activation rejected the revision.")
    else load_of p loaded "GH-PF-0002" (text "Native PF activation loaded the revision.")

abbrev is_private : Option File → Bool
is_private none = false
is_private (some f) = f.private

abbrev pub put_active : ℕ → Disk → Disk
put_active r d = record d { active = r }

module _ (os : Os) where
  -- `lstat` and the tests of type, owner and permissions.
  safe_path : ℕ → M Bool
  safe_path r = do
    stat ← syscall os
    f ← gets (λ w. w.disk.revisions r)
    pure (stat && is_private f)

  unfoldable pub validate : ℕ → M NativeValidationResult
  unfolding safe_path judge_validation unsafe_candidate_result
  validate r = do
    safe ← safe_path r
    if safe
        then (do p ← run_process os (dry_run r); pure (judge_validation p))
        else pure (
            unsafe_candidate_result (
              text
                "Candidate must be a private regular, non-symlink file owned by the current user."))

  -- The run of `pfctl -f`: its effect on PF, then its result.
  run_loader : ℕ → M PfctlLoadResult
  unfolding judge_load
  run_loader r = do
    replaced ← gets (λ w. os.replaced w.clock)
    p ← run_process os (load_rules r)
    if is_int p.exit_code 0 && not p.timed_out && p.launched || replaced
        then (do write (put_active r); pure (judge_load p))
        else pure (judge_load p)

  unfoldable pub load : ℕ → M PfctlLoadResult
  unfolding safe_path run_loader unsafe_revision_result
  load r = do
    safe ← safe_path r
    if safe
        then run_loader r
        else pure (
            unsafe_revision_result (
              text
                "Revision must be a private regular, non-symlink file owned by the current user."))

  pub validate-quiet :
      (r : ℕ) (w : World) → ((validate r w).1.disk ≡ w.disk) × ((validate r w).1.past ≡ w.past)
  unfolding validate
  validate-quiet r w = ground arith

  pub load-AtMost : (r : ℕ) (w : World) → AtMost (put_active r w.disk) w (load r w).1
  unfolding load
  load-AtMost r w = ground arith

  -- If the loader reports success, PF runs the revision and nothing else on disk has changed, in
  -- one atomic change.
  pub load-loaded :
      (r : ℕ) (w : World)
      → load_ok (load r w).0 ≡ true
      → ((load r w).1.disk ≡ put_active r w.disk) × ((load r w).1.past ≡ w.disk ∷ w.past)
  unfolding load
  load-loaded r w h = ground arith
