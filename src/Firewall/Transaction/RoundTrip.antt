-- ===== src/Firewall/Transaction/RoundTrip.antt =====
-- The text of a transaction, read back, src/core/firewall/activation_transaction_store.cpp.
use sasd_gatehold.Prelude.{ℕ, ◌≤◌, ◌<◌, ◌≡◌, refl, true, some, [], ◌∷◌, ◌++◌, arith}
use sasd_gatehold.Text.{
  OneLine, OneLine-append, strip_prefix-append, Bytes, text, eq_bytes, eq_bytes_refl,
  valid_identifier-without_feed, valid_identifier,
}
use sasd_gatehold.Text.Decimal.{max_u64, to_string, from_chars-to_string, to_string-without_feed}
use sasd_gatehold.Firewall.Transaction.Record.{
  ActivationPhase, prepared_for_load, target_loaded, verified, awaiting_confirmation, committing,
  committed, PendingActivation, valid_transaction, phase_text, parse_phase, format_header, line,
  serialize, take_line, parse_revision, parse_fields, parse,
}

take_line-line : (s rest : Bytes) → OneLine s → take_line (line s rest) ≡ some (s, rest)
unfolding take_line line
take_line-line [] rest h = ground arith
take_line-line (c ∷ s) rest h = ground (arith, take_line-line s rest h.1)

parse_phase-phase_text : (p : ActivationPhase) → parse_phase (phase_text p) ≡ some p
unfolding parse_phase phase_text eq_bytes text
parse_phase-phase_text prepared_for_load = refl
parse_phase-phase_text target_loaded = refl
parse_phase-phase_text verified = refl
parse_phase-phase_text awaiting_confirmation = refl
parse_phase-phase_text committing = refl
parse_phase-phase_text committed = refl

phase_text-OneLine : (p : ActivationPhase) → OneLine (text "phase=" ++ phase_text p)
unfolding phase_text text
phase_text-OneLine prepared_for_load = omega arith
phase_text-OneLine target_loaded = omega arith
phase_text-OneLine verified = omega arith
phase_text-OneLine awaiting_confirmation = omega arith
phase_text-OneLine committing = omega arith
phase_text-OneLine committed = omega arith

operation-OneLine : (id : Bytes) → valid_identifier id ≡ true → OneLine (text "operation_id=" ++ id)
operation-OneLine id h =
    OneLine-append (text "operation_id=") id (unfold text in omega arith)
      (valid_identifier-without_feed id h)

target-OneLine : (n : ℕ) → OneLine (text "target_revision=" ++ to_string n)
target-OneLine n =
    OneLine-append (text "target_revision=") (to_string n) (unfold text in omega arith)
      (to_string-without_feed n)

rollback-OneLine : (n : ℕ) → OneLine (text "rollback_revision=" ++ to_string n)
rollback-OneLine n =
    OneLine-append (text "rollback_revision=") (to_string n) (unfold text in omega arith)
      (to_string-without_feed n)

parse_revision-to_string : (n : ℕ) → 0 < n → n ≤ max_u64 → parse_revision (to_string n) ≡ some n
unfolding parse_revision
parse_revision-to_string n p h = ground (arith, from_chars-to_string max_u64 n h)

parse_fields-printed :
    (t : PendingActivation)
    → valid_transaction t ≡ true
    → t.target_revision ≤ max_u64
    → t.rollback_revision ≤ max_u64
    → parse_fields
        (text "operation_id=" ++ t.operation_id)
        (text "target_revision=" ++ to_string t.target_revision)
        (text "rollback_revision=" ++ to_string t.rollback_revision)
        (text "phase=" ++ phase_text t.phase)
      ≡ some t
unfolding parse_fields
parse_fields-printed t v ht hr =
    let ok_target : 0 < t.target_revision = unfold valid_transaction in ground arith in
    let ok_rollback : 0 < t.rollback_revision = unfold valid_transaction in ground arith in
    rw (strip_prefix-append (text "operation_id=")) (
      rw (strip_prefix-append (text "target_revision=")) (
        rw (strip_prefix-append (text "rollback_revision=")) (
          rw (strip_prefix-append (text "phase=")) (
            rw (parse_revision-to_string t.target_revision ok_target ht) (
              rw (parse_revision-to_string t.rollback_revision ok_rollback hr)
                (rw parse_phase-phase_text (rw v)))))))

-- A valid transaction whose revisions fit in 64 bits reads back, from its text, as itself.
pub parse-serialize :
    (t : PendingActivation)
    → valid_transaction t ≡ true
    → t.target_revision ≤ max_u64
    → t.rollback_revision ≤ max_u64
    → parse (serialize t) ≡ some t
unfolding parse serialize
parse-serialize t v ht hr =
    let id_ok : valid_identifier t.operation_id ≡ true = unfold valid_transaction in ground arith in
    rw (take_line-line format_header _ (unfold text in omega arith)) (
      rw (take_line-line _ _ (operation-OneLine t.operation_id id_ok)) (
        rw (take_line-line _ _ (target-OneLine t.target_revision)) (
          rw (take_line-line _ _ (rollback-OneLine t.rollback_revision)) (
            rw (take_line-line _ _ (phase_text-OneLine t.phase))
              (rw (eq_bytes_refl format_header) (parse_fields-printed t v ht hr))))))
