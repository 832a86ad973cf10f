-- ===== src/Controller/Protocol/Frame.antt =====
-- Frames on a byte stream, src/core/controller/local_protocol.cpp: four bytes of length, the highest
-- first, and the payload. What the socket does is a list: `Arrival` is one round of the loop in
-- `read_exact` (`poll` and `recv`), `Departure` one round of that in `write_exact`. A call that would
-- still wait at the end of the list meets its deadline.
pub mod Reassembly
use sasd_gatehold.Prelude.{
  ℕ, zero, suc, ◌+◌, ◌-◌, ◌*◌, ◌/◌, ◌%◌, ◌^◌, Bool, true, false, ◌||◌, List, [], ◌∷◌, ◌++◌, ltb,
  leb, ◌==◌, if◌then◌else◌, is_empty, length, take, drop,
}
use sasd_gatehold.Text.{Bytes}

pub data IoStatus : Type 0 where
  completed timed_out closed invalid_size failed : IoStatus

pub record FrameResult : Type 0 where
  pub status : IoStatus
  pub payload : Bytes

-- `received` is what the socket holds: `recv` takes as much of it as is asked for, and 0 bytes are
-- the end of the stream. `retried` is EINTR or EAGAIN, `refused` any other error.
pub data Arrival : Type 0 where
  received : Bytes → Arrival
  retried refused expired : Arrival

-- `accepted n`: `send` takes `n` bytes, or all that are left.
pub data Departure : Type 0 where
  accepted : ℕ → Departure
  retried refused expired : Departure

abbrev pub maximum_payload_size : ℕ
maximum_payload_size = 4096

-- The status, the bytes read, and what is left to arrive.
pub record Reading : Type 0 where
  pub status : IoStatus
  pub bytes : Bytes
  pub left : List Arrival

abbrev ended : IoStatus → List Arrival → Reading
ended s left = record { status = s; bytes = []; left = left }

abbrev pub after : Bytes → Reading → Reading
after s r = let t = r.bytes in record r { bytes = s ++ t }

unfoldable pub read_exact : ℕ → List Arrival → Reading
read_exact zero arrivals = ended completed arrivals
read_exact (suc n) [] = ended timed_out []
read_exact (suc n) (expired ∷ arrivals) = ended timed_out arrivals
read_exact (suc n) (refused ∷ arrivals) = ended failed arrivals
read_exact (suc n) (retried ∷ arrivals) = read_exact (suc n) arrivals
read_exact (suc n) (received s ∷ arrivals) =
    let rest = read_exact (suc n - length s) arrivals in
    if is_empty s
    then ended closed arrivals
    else if ltb (suc n) (length s)
    then record {
      status = completed;
      bytes = take (suc n) s;
      left = received (drop (suc n) s) ∷ arrivals;
    }
    else after s rest

-- The length that four bytes of a header give; any other number of bytes does not occur.
abbrev pub payload_size : Bytes → ℕ
payload_size (a ∷ b ∷ c ∷ d ∷ []) = a * 2 ^ 24 + b * 2 ^ 16 + c * 2 ^ 8 + d
payload_size _ = 0

abbrev pub is_completed : IoStatus → Bool
is_completed completed = true
is_completed _ = false

-- From the header on.
unfoldable pub read_payload : ℕ → List Arrival → FrameResult
read_payload size arrivals =
    if size == 0 || ltb maximum_payload_size size
    then record { status = invalid_size; payload = [] }
    else let r = read_exact size arrivals in
      record { status = r.status; payload = if is_completed r.status then r.bytes else [] }

unfoldable pub read_frame : List Arrival → FrameResult
read_frame arrivals =
    let header = read_exact 4 arrivals in
    if is_completed header.status
    then read_payload (payload_size header.bytes) header.left
    else record { status = header.status; payload = [] }

-- The status, the bytes sent, and the rounds left.
pub record Writing : Type 0 where
  pub status : IoStatus
  pub bytes : Bytes
  pub left : List Departure

abbrev stopped : IoStatus → List Departure → Writing
stopped s left = record { status = s; bytes = []; left = left }

abbrev sent_before : Bytes → Writing → Writing
sent_before s w = let t = w.bytes in record w { bytes = s ++ t }

unfoldable pub write_exact : Bytes → List Departure → Writing
write_exact [] ds = stopped completed ds
write_exact (c ∷ s) [] = stopped timed_out []
write_exact (c ∷ s) (expired ∷ ds) = stopped timed_out ds
write_exact (c ∷ s) (refused ∷ ds) = stopped failed ds
write_exact (c ∷ s) (retried ∷ ds) = write_exact (c ∷ s) ds
write_exact (c ∷ s) (accepted n ∷ ds) =
    let rest = write_exact (drop n (c ∷ s)) ds in
    if n == 0 then stopped failed ds else sent_before (take n (c ∷ s)) rest

abbrev pub header : ℕ → Bytes
header n = n / 2 ^ 24 % 256 ∷ n / 2 ^ 16 % 256 ∷ n / 2 ^ 8 % 256 ∷ n % 256 ∷ []

unfoldable pub write_frame : Bytes → List Departure → Writing
write_frame payload ds =
    if is_empty payload || ltb maximum_payload_size (length payload)
    then stopped invalid_size ds
    else let h = write_exact (header (length payload)) ds in
      if is_completed h.status then sent_before h.bytes (write_exact payload h.left) else h
