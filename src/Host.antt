-- ===== src/Host.antt =====
-- What the program asks of its host, OpenBSD or Linux: system calls, the clock of the audit trail
-- and `pfctl`. None of it is code of the repository, so it is a parameter, `Os`: every call reads
-- its outcome at the next tick, and the outcomes of two ticks have nothing to do with each other.
-- `Disk` is what survives the process: the ruleset that PF runs and the files of the three stores.
-- `World` adds the audit journal and, for the theorems alone, the earlier states of the disk: a
-- crash can leave any of them. The loops that retry `read` and `write` on EINTR or a short
-- transfer are one call here. Calls whose result the program ignores (closing a descriptor that it
-- has read, unlinking its own temporary file) are left out.
use sasd_gatehold.Prelude.{ℕ, suc, Bool, true, false, Option, none, some, List, ◌∷◌, ◌++◌, String}
use sasd_gatehold.Prelude.Int.{ℤ}
use sasd_gatehold.Text.{Bytes, text}

-- The fields of `system::ProcessResult`.
pub record ProcessResult : Type 0 where
  pub launched : Bool
  pub timed_out : Bool
  pub output_truncated : Bool
  pub exit_code : ℤ
  pub standard_output : Bytes
  pub standard_error : Bytes
  pub error_message : Bytes

-- The arguments of a run of `pfctl`: `-nf` or `-f`, and the revision whose path follows.
pub data PfctlArguments : Type 0 where
  dry_run load_rules : ℕ → PfctlArguments

pub record Os : Type 0 where
  -- whether the system call succeeds
  pub succeeds : ℕ → Bool
  pub timestamp : ℕ → Bytes
  pub strerror : ℕ → Bytes
  -- how a run of `pfctl` ends, and whether one that failed has replaced the ruleset all the same
  pub process : ℕ → PfctlArguments → ProcessResult
  pub replaced : ℕ → Bool
  -- how many bytes a failed `write_all` has written
  pub torn : ℕ → ℕ

-- `private` is what `private_regular_file` tests: type, owner and permissions.
pub record File : Type 0 where
  pub private : Bool
  pub content : Bytes

pub record Disk : Type 0 where
  pub active : ℕ
  pub marker : Option File
  pub pending : Option File
  pub revisions : ℕ → Option File

pub record World : Type 0 where
  pub clock : ℕ
  pub disk : Disk
  pub past : List Disk
  pub journal : Option File

abbrev pub M : Type 0 → Type 0
M A = World → A × World

infixl 5 ◌>>=◌ ◌>>◌
abbrev pub ◌>>=◌ : {A B : Type 0} → M A → (A → M B) → M B
◌>>=◌ m f w = let (a, w') = m w in f a w'

abbrev pub ◌>>◌ : {A B : Type 0} → M A → M B → M B
m >> k = m >>= λ _. k

abbrev pub pure : {A : Type 0} → A → M A
pure a w = (a, w)

abbrev pub gets : {A : Type 0} → (World → A) → M A
gets f w = (f w, w)

-- `a && m`, where `m` is a call.
abbrev pub and_then : Bool → M Bool → M Bool
and_then true m = m
and_then false m = pure false

abbrev pub tick : World → World
tick w = record w { clock = suc w.clock }

-- One atomic change of the disk.
abbrev pub write : (Disk → Disk) → M (Unit {0})
write f w = (tt, record w { disk = f w.disk; past = w.disk ∷ w.past })

pub data Opened : Type 0 where
  opened : File → Opened
  absent : Opened
  unopened : Opened

abbrev pub open_outcome : Bool → Option File → Opened
open_outcome true (some f) = opened f
open_outcome true none = absent
open_outcome false _ = unopened

module _ (os : Os) where
  abbrev pub syscall : M Bool
  syscall w = (os.succeeds w.clock, tick w)

  abbrev pub timestamp : M Bytes
  timestamp w = (os.timestamp w.clock, tick w)

  abbrev pub run_process : PfctlArguments → M ProcessResult
  run_process a w = (os.process w.clock a, tick w)

  -- The message of a failed call: the caller's words and `strerror(errno)`.
  abbrev pub error_text : String → M Bytes
  error_text words w = (text words ++ os.strerror w.clock, tick w)

  -- `openat` for reading: a missing file is ENOENT, any other failure is `unopened`.
  abbrev pub open_file : Option File → M Opened
  open_file f w = (open_outcome (os.succeeds w.clock) f, tick w)
