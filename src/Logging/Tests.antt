-- ===== src/Logging/Tests.antt =====
-- The audit trail on a small host, and the theorems applied to it.
use sasd_gatehold.Prelude.{◌≡◌, refl, ◌≤◌, true, false, none, [], ◌∷◌, ◌++◌, length}
use sasd_gatehold.Prelude.Int.{pos}
use sasd_gatehold.Text as Text
use sasd_gatehold.Text.{text, Printable}
use sasd_gatehold.Host.{Os, World}
use sasd_gatehold.Logging.Event.{Event, warning}
use sasd_gatehold.Logging.Format.Defs as Format
use sasd_gatehold.Logging.Format.Defs.{format, is_sensitive_key}
use sasd_gatehold.Logging.Format.Lines.{format-Printable}
use sasd_gatehold.Logging.Format.Redaction.{format_redacts}
use sasd_gatehold.Logging.Journal as Journal
use sasd_gatehold.Logging.Journal.{
  append, append-appended, journal_ok, journal_text, entry, maximum_journal_size,
}

abbrev quiet_os : Os
quiet_os = record {
  succeeds = λ _. true;
  timestamp = λ _. b'T' ∷ [];
  strerror = λ _. [];
  process = λ _ _. record {
    launched = true;
    timed_out = false;
    output_truncated = false;
    exit_code = pos 0;
    standard_output = [];
    standard_error = [];
    error_message = [];
  };
  replaced = λ _. false;
  torn = λ _. 0;
}

-- A message with a line feed, and a secret among the attributes.
abbrev sample : Event
sample = record {
  timestamp = b'T' ∷ [];
  severity = warning;
  event_id = b'e' ∷ [];
  component = b'c' ∷ [];
  operation_id = b'o' ∷ [];
  action = b'a' ∷ [];
  outcome = b'u' ∷ [];
  message = b'm' ∷ b'\n' ∷ [];
  attributes = (text "password", b'x' ∷ []) ∷ [];
}

abbrev empty_world : World
empty_world = record {
  clock = 0;
  disk = record { active = 0; marker = none; pending = none; revisions = λ _. none };
  past = [];
  journal = none;
}

format-Printable_example : Printable (format sample)
format-Printable_example = format-Printable sample

password_is_sensitive : is_sensitive_key (text "password") ≡ true
unfolding is_sensitive_key Format.lowercase Format.starts_with Format.contains Format.any_within
    Text.text
password_is_sensitive = refl

format_redacts_example :
    format (record sample { attributes = (text "password", b'y' ∷ []) ∷ [] }) ≡ format sample
format_redacts_example =
    format_redacts sample ((text "password", b'y' ∷ []) ∷ [])
      (refl, (λ open_key. let secret = password_is_sensitive in cc), tt)

appends : journal_ok (append quiet_os sample empty_world).0 ≡ true
unfolding append Journal.has_required_fields format Format.severity_text Format.escape_byte
    Format.escape Format.quoted Format.field Format.lowercase Format.starts_with Format.contains
    Format.any_within is_sensitive_key Format.attribute_fields Text.text
appends = refl

append-appended_example :
    (journal_text (append quiet_os sample empty_world).1.journal ≡ [] ++ entry sample)
    × (length (journal_text (append quiet_os sample empty_world).1.journal) ≤ maximum_journal_size)
append-appended_example = append-appended quiet_os sample empty_world appends
