-- ===== src/Controller/Protocol/Request/RoundTrip.antt =====
-- Requests written line by line, as docs/reference/local-controller-protocol.md shows them, and read
-- by the parser of src/core/controller/local_protocol.cpp.
use sasd_gatehold.Prelude.{
  ℕ, ◌≤◌, ltb, ◌≡◌, refl, true, false, not, ◌&&◌, some, List, [], ◌∷◌, ◌++◌, arith, All, ◌==◌,
  is_empty,
}
use sasd_gatehold.Text.{
  print_lines, Bytes, Printable, Printable-append, valid_identifier-Printable, strip_prefix-append,
  text, eq_bytes, eq_bytes_refl, valid_identifier,
}
use sasd_gatehold.Text.Decimal.{max_u64, to_string, from_chars-to_string, to_string-Printable}
use sasd_gatehold.Firewall.Activation.Types.{ActivationRequest}
use sasd_gatehold.Firewall.Activation.Admission.{valid_request}
use sasd_gatehold.Controller.Protocol.Request.{
  field_value, identifier_value, parsed_activation, parse_revision, parse_timeout,
  activation_fields, parse_activation, parse_operation, version_line, parse_lines, parse_request,
  parsed_status, ParseResult,
}
use sasd_gatehold.Controller.Protocol.Request.Lines.{IsLine, split_lines-print_lines}

abbrev pub key_value : Bytes → Bytes → Bytes
key_value k v = k ++ b'=' ∷ v

abbrev pub status_lines : Bytes → List Bytes
status_lines id =
    version_line
    ∷ key_value (text "request_id") id
    ∷ key_value (text "operation") (text "status")
    ∷ []

abbrev pub activation_lines : Bytes → ActivationRequest → List Bytes
activation_lines id q =
    version_line
    ∷ key_value (text "request_id") id
    ∷ key_value (text "operation") (text "activate")
    ∷ key_value (text "operation_id") q.operation_id
    ∷ key_value (text "revision") (to_string q.revision)
    ∷ key_value (text "authorization_reference") q.authorization_reference
    ∷ key_value (text "probe_timeout_ms") (to_string q.probe_timeout)
    ∷ key_value (text "confirmation_timeout_ms") (to_string q.confirmation_timeout)
    ∷ []

field_value-key_value : (k v : Bytes) → field_value (key_value k v) k ≡ some v
unfolding field_value
field_value-key_value k v = rw (strip_prefix-append k (b'=' ∷ v)) refl

identifier_value-key_value :
    (k v : Bytes) → valid_identifier v ≡ true → identifier_value (key_value k v) k ≡ some v
unfolding identifier_value
identifier_value-key_value k v h = rw (field_value-key_value k v) (rw h refl)

is_empty-key_value : (k v : Bytes) → is_empty (key_value k v) ≡ false
is_empty-key_value [] v = refl
is_empty-key_value (c ∷ k) v = refl

key_value-IsLine : (k v : Bytes) → Printable k → Printable v → IsLine (key_value k v)
key_value-IsLine k v hk hv =
    (Printable-append k (b'=' ∷ v) hk (omega arith, hv), is_empty-key_value k v)

identifier-IsLine : (k v : Bytes) → Printable k → valid_identifier v ≡ true → IsLine (key_value k v)
identifier-IsLine k v hk h = key_value-IsLine k v hk (valid_identifier-Printable v h)

number-IsLine : (k : Bytes) (n : ℕ) → Printable k → IsLine (key_value k (to_string n))
number-IsLine k n hk = key_value-IsLine k (to_string n) hk (to_string-Printable n)

parse_revision-to_string :
    (n : ℕ) → not (n == 0) ≡ true → n ≤ max_u64 → parse_revision (to_string n) ≡ some n
unfolding parse_revision
parse_revision-to_string n p h = rw (from_chars-to_string max_u64 n h) (rw p refl)

parse_timeout-to_string :
    (lo hi n : ℕ) → lo ≤ n → n ≤ hi → hi ≤ max_u64 → parse_timeout lo hi (to_string n) ≡ some n
unfolding parse_timeout
parse_timeout-to_string lo hi n l h b =
    let inside : (not (ltb n lo) && not (ltb hi n)) ≡ true = ground arith in
    rw (from_chars-to_string max_u64 n (omega arith)) (rw inside refl)

activation_fields-printed :
    (q : ActivationRequest)
    → valid_request q ≡ true
    → q.revision ≤ max_u64
    → activation_fields
        (key_value (text "operation_id") q.operation_id)
        (key_value (text "revision") (to_string q.revision))
        (key_value (text "authorization_reference") q.authorization_reference)
        (key_value (text "probe_timeout_ms") (to_string q.probe_timeout))
        (key_value (text "confirmation_timeout_ms") (to_string q.confirmation_timeout))
      ≡ some q
unfolding activation_fields
activation_fields-printed q v bound =
    let id : valid_identifier q.operation_id ≡ true = unfold valid_request in ground arith in
    let ref : valid_identifier q.authorization_reference ≡ true =
      unfold valid_request in ground arith in
    let r : not (q.revision == 0) ≡ true = unfold valid_request in ground arith in
    let p : (100 ≤ q.probe_timeout) × (q.probe_timeout ≤ 60000) =
      unfold valid_request in ground arith in
    let c : (1000 ≤ q.confirmation_timeout) × (q.confirmation_timeout ≤ 600000) =
      unfold valid_request in ground arith in
    rw (identifier_value-key_value (text "operation_id") q.operation_id id) (
      rw (field_value-key_value (text "revision") (to_string q.revision)) (
        rw
          (identifier_value-key_value (text "authorization_reference") q.authorization_reference
            ref)
          (rw (field_value-key_value (text "probe_timeout_ms") (to_string q.probe_timeout)) (
            rw
              (field_value-key_value (text "confirmation_timeout_ms")
                (to_string q.confirmation_timeout))
              (rw (parse_revision-to_string q.revision r bound) (
                rw (parse_timeout-to_string 100 60000 q.probe_timeout p.0 p.1 (omega arith)) (
                  rw
                    (parse_timeout-to_string 1000 600000 q.confirmation_timeout c.0 c.1
                      (omega arith))
                    refl)))))))

activation_lines-IsLine :
    (id : Bytes) (q : ActivationRequest)
    → valid_identifier id ≡ true
    → valid_request q ≡ true
    → All IsLine (activation_lines id q)
unfolding text
activation_lines-IsLine id q h v =
    let operation : valid_identifier q.operation_id ≡ true = unfold valid_request in ground arith in
    let ref : valid_identifier q.authorization_reference ≡ true =
      unfold valid_request in ground arith in
    (
      (omega arith, refl),
      (
        identifier-IsLine (text "request_id") id (omega arith) h,
        (
          (omega arith, refl),
          (
            identifier-IsLine (text "operation_id") q.operation_id (omega arith) operation,
            (
              number-IsLine (text "revision") q.revision (omega arith),
              (
                identifier-IsLine (text "authorization_reference") q.authorization_reference
                    (omega arith) ref,
                (
                  number-IsLine (text "probe_timeout_ms") q.probe_timeout (omega arith),
                  (
                    number-IsLine (text "confirmation_timeout_ms") q.confirmation_timeout
                        (omega arith),
                    tt,
                  ),
                ),
              ),
            ),
          ),
        ),
      ),
    )

parse_activation-printed :
    (id : Bytes) (q : ActivationRequest)
    → valid_identifier id ≡ true
    → valid_request q ≡ true
    → q.revision ≤ max_u64
    → parse_lines (activation_lines id q) ≡ parsed_activation id q
unfolding parse_lines parse_operation parse_activation
parse_activation-printed id q h v bound =
    let other : eq_bytes (text "activate") (text "status") ≡ false = unfold eq_bytes text in refl in
    rw (eq_bytes_refl version_line) (
      rw (identifier_value-key_value (text "request_id") id h) (
        rw (field_value-key_value (text "operation") (text "activate")) (
          rw other (
            rw (eq_bytes_refl (text "activate")) (rw (activation_fields-printed q v bound) refl)))))

parse_request-activation :
    (id : Bytes) (q : ActivationRequest)
    → valid_identifier id ≡ true
    → valid_request q ≡ true
    → q.revision ≤ max_u64
    → parse_request (print_lines (activation_lines id q)) ≡ parsed_activation id q
unfolding parse_request
parse_request-activation id q h v bound =
    rw (split_lines-print_lines _ _ (activation_lines-IsLine id q h v))
      (parse_activation-printed id q h v bound)

parse_status-printed :
    (id : Bytes) → valid_identifier id ≡ true → parse_lines (status_lines id) ≡ parsed_status id
unfolding parse_lines parse_operation
parse_status-printed id h = rw (eq_bytes_refl version_line) (
    rw (identifier_value-key_value (text "request_id") id h) (
      rw (field_value-key_value (text "operation") (text "status"))
        (rw (eq_bytes_refl (text "status")) refl)))

status_lines-IsLine : (id : Bytes) → valid_identifier id ≡ true → All IsLine (status_lines id)
unfolding text
status_lines-IsLine id h = (
  (omega arith, refl),
  (identifier-IsLine (text "request_id") id (omega arith) h, ((omega arith, refl), tt)),
)

parse_request-status :
    (id : Bytes)
    → valid_identifier id ≡ true
    → parse_request (print_lines (status_lines id)) ≡ parsed_status id
unfolding parse_request
parse_request-status id h =
    rw (split_lines-print_lines _ _ (status_lines-IsLine id h)) (parse_status-printed id h)

-- What a client sends.
pub data Request : Type 0 where
  ask_status : Bytes → Request
  ask_activation : Bytes → ActivationRequest → Request

unfoldable pub print_request : Request → Bytes
print_request (ask_status id) = print_lines (status_lines id)
print_request (ask_activation id q) = print_lines (activation_lines id q)

abbrev pub parsed : Request → ParseResult
parsed (ask_status id) = parsed_status id
parsed (ask_activation id q) = parsed_activation id q

abbrev pub IsSendable : Request → Type 0
IsSendable (ask_status id) = valid_identifier id ≡ true
IsSendable (ask_activation id q) =
    (valid_identifier id ≡ true) × (valid_request q ≡ true) × (q.revision ≤ max_u64)

-- A request whose identifier is valid and, if it asks for an activation, whose fields the
-- activation service finds valid and whose revision fits in 64 bits, is parsed from its lines as
-- itself.
pub parse_request-print_request :
    (r : Request) → IsSendable r → parse_request (print_request r) ≡ parsed r
unfolding print_request
parse_request-print_request (ask_status id) h = parse_request-status id h
parse_request-print_request (ask_activation id q) h = parse_request-activation id q h.0 h.1 h.2
