-- ===== src/Controller/Protocol/Request.antt =====
-- The text of a request and its parser, src/core/controller/local_protocol.cpp.
pub mod Lines
pub mod RoundTrip
pub mod Sound
use sasd_gatehold.Prelude.{
  ℕ, Bool, true, false, not, ◌&&◌, Option, none, some, List, [], ◌∷◌, ◌++◌, String, ltb, ◌==◌,
  if◌then◌else◌, is_empty, length,
}
use sasd_gatehold.Prelude.Optional.{◌>>=◌, require}
use sasd_gatehold.Text.{Bytes, text, eq_bytes, strip_prefix, valid_identifier}
use sasd_gatehold.Text.Decimal.{max_u64, from_chars}
use sasd_gatehold.Firewall.Activation.Types.{ActivationRequest}

pub data RequestOperation : Type 0 where
  status activate : RequestOperation

pub record ParsedRequest : Type 0 where
  pub operation : RequestOperation
  pub request_id : Bytes
  pub activation : Option ActivationRequest

pub record ParseResult : Type 0 where
  pub valid : Bool
  pub event_id : Bytes
  pub message : Bytes
  pub request : Option ParsedRequest

abbrev pub minimum_probe_timeout : ℕ
minimum_probe_timeout = 100

abbrev pub maximum_probe_timeout : ℕ
maximum_probe_timeout = 60000

abbrev pub minimum_confirmation_timeout : ℕ
minimum_confirmation_timeout = 1000

abbrev pub maximum_confirmation_timeout : ℕ
maximum_confirmation_timeout = 600000

abbrev pub parse_unsigned : Bytes → Option ℕ
parse_unsigned = from_chars max_u64

after_equals : Bytes → Option Bytes
after_equals [] = none
after_equals (c ∷ s) = if c == b'=' then some s else none

unfoldable pub field_value : Bytes → Bytes → Option Bytes
unfolding after_equals
field_value line key = do s ← strip_prefix key line; after_equals s

-- A field whose value the caller tests by `valid_identifier`.
unfoldable pub identifier_value : Bytes → Bytes → Option Bytes
identifier_value line key = do
  s ← field_value line key
  require (valid_identifier s) >>= λ _. some s

unfoldable pub has_byte : ℕ → Bytes → Bool
has_byte b [] = false
has_byte b (c ∷ s) = if c == b then true else has_byte b s

-- Not empty, with no carriage return and no NUL.
unfoldable pub acceptable_line : Bytes → Bool
unfolding has_byte
acceptable_line l = not (is_empty l) && not (has_byte b'\r' l) && not (has_byte 0 l)

abbrev pub prepend : Bytes → Option (List Bytes) → Option (List Bytes)
prepend l none = none
prepend l (some ls) = some (l ∷ ls)

-- The loop, with the bytes since the last line feed. At the end there must be none: a text that is
-- not empty ends with a line feed.
unfoldable pub split_from : Bytes → Bytes → Option (List Bytes)
split_from l [] = if is_empty l then some [] else none
split_from l (c ∷ s) =
    let rest = split_from (if c == b'\n' then [] else l ++ c ∷ []) s in
    if c == b'\n' then (if acceptable_line l then prepend l rest else none) else rest

unfoldable pub split_lines : Bytes → Option (List Bytes)
split_lines payload = if is_empty payload then none else split_from [] payload

abbrev pub malformed : ParseResult
malformed = record {
  valid = false;
  event_id = text "GH-IPC-1002";
  message = text "Controller protocol request is malformed.";
  request = none;
}

abbrev unsupported : String → ParseResult
unsupported words = record {
  valid = false;
  event_id = text "GH-IPC-1003";
  message = text words;
  request = none;
}

abbrev pub parsed_status : Bytes → ParseResult
parsed_status id = record {
  valid = true;
  event_id = text "GH-IPC-0002";
  message = text "Controller status request parsed.";
  request = some (record { operation = status; request_id = id; activation = none });
}

abbrev pub parsed_activation : Bytes → ActivationRequest → ParseResult
parsed_activation id q = record {
  valid = true;
  event_id = text "GH-IPC-0003";
  message = text "Controller activation request parsed.";
  request = some (record { operation = activate; request_id = id; activation = some q });
}

-- The numbers, in their ranges.
unfoldable pub parse_revision : Bytes → Option ℕ
parse_revision s = do n ← parse_unsigned s; require (not (n == 0)) >>= λ _. some n

unfoldable pub parse_timeout : ℕ → ℕ → Bytes → Option ℕ
parse_timeout lo hi s = do
  n ← parse_unsigned s
  require (not (ltb n lo) && not (ltb hi n)) >>= λ _. some n

-- The fields of the last five lines of an activation request.
unfoldable pub activation_fields : Bytes → Bytes → Bytes → Bytes → Bytes → Option ActivationRequest
activation_fields operation revision reference probe confirmation = do
  id ← identifier_value operation (text "operation_id")
  revision_digits ← field_value revision (text "revision")
  ref ← identifier_value reference (text "authorization_reference")
  probe_digits ← field_value probe (text "probe_timeout_ms")
  confirmation_digits ← field_value confirmation (text "confirmation_timeout_ms")
  r ← parse_revision revision_digits
  p ← parse_timeout minimum_probe_timeout maximum_probe_timeout probe_digits
  c ← parse_timeout minimum_confirmation_timeout maximum_confirmation_timeout confirmation_digits
  some (record {
    operation_id = id;
    revision = r;
    authorization_reference = ref;
    probe_timeout = p;
    confirmation_timeout = c;
  })

abbrev pub activation_result : Bytes → Option ActivationRequest → ParseResult
activation_result id none = malformed
activation_result id (some q) = parsed_activation id q

unfoldable pub parse_activation : Bytes → List Bytes → ParseResult
parse_activation id (l3 ∷ l4 ∷ l5 ∷ l6 ∷ l7 ∷ []) =
    activation_result id (activation_fields l3 l4 l5 l6 l7)
parse_activation id _ = malformed

unfoldable pub parse_operation : Bytes → Bytes → List Bytes → ParseResult
parse_operation id operation rest =
    if eq_bytes operation (text "status")
    then (if is_empty rest then parsed_status id else malformed)
    else if not (eq_bytes operation (text "activate"))
    then unsupported "Controller protocol operation is unsupported."
    else parse_activation id rest

abbrev pub parse_head : Option Bytes → Option Bytes → List Bytes → ParseResult
parse_head none operation rest = malformed
parse_head (some id) none rest = malformed
parse_head (some id) (some operation) rest = parse_operation id operation rest

abbrev pub version_line : Bytes
version_line = text "gatehold-controller-v1"

unfoldable pub parse_lines : List Bytes → ParseResult
parse_lines (l0 ∷ l1 ∷ l2 ∷ rest) =
    if not (eq_bytes l0 version_line)
    then unsupported "Controller protocol version is unsupported."
    else parse_head (identifier_value l1 (text "request_id")) (field_value l2 (text "operation"))
        rest
parse_lines _ = malformed

abbrev pub parse_split : Option (List Bytes) → ParseResult
parse_split none = malformed
parse_split (some lines) = parse_lines lines

unfoldable pub parse_request : Bytes → ParseResult
parse_request payload = parse_split (split_lines payload)
