-- ===== src/Logging/Format/Defs.antt =====
-- The text of an event, src/core/logging/json_event_formatter.cpp.
use sasd_gatehold.Prelude.{
  ℕ, ◌+◌, ◌/◌, ◌%◌, Bool, true, false, ◌&&◌, ◌||◌, List, [], ◌∷◌, ◌++◌, ltb, leb, ◌==◌,
  if◌then◌else◌,
}
use sasd_gatehold.Text.{Bytes, text}
use sasd_gatehold.Logging.Event.{Severity, debug, info, warning, error, critical, Event}

unfoldable pub severity_text : Severity → Bytes
severity_text debug = text "debug"
severity_text info = text "info"
severity_text warning = text "warning"
severity_text error = text "error"
severity_text critical = text "critical"

-- The digit of a number below 16.
abbrev pub hexadecimal : ℕ → ℕ
hexadecimal n = if ltb n 10 then b'0' + n else 87 + n

unfoldable pub escape_byte : ℕ → Bytes
escape_byte c =
    if c == b'"'
    then b'\\' ∷ b'"' ∷ []
    else if c == b'\\'
    then b'\\' ∷ b'\\' ∷ []
    else if c == 8
    then b'\\' ∷ b'b' ∷ []
    else if c == 12
    then b'\\' ∷ b'f' ∷ []
    else if c == 10
    then b'\\' ∷ b'n' ∷ []
    else if c == 13
    then b'\\' ∷ b'r' ∷ []
    else if c == 9
    then b'\\' ∷ b't' ∷ []
    else if ltb c 32
    then b'\\' ∷ b'u' ∷ b'0' ∷ b'0' ∷ hexadecimal (c / 16 % 16) ∷ hexadecimal (c % 16) ∷ []
    else c ∷ []

unfoldable pub escape : Bytes → Bytes
unfolding escape_byte
escape [] = []
escape (c ∷ s) = escape_byte c ++ escape s

unfoldable pub quoted : Bytes → Bytes
unfolding escape
quoted s = b'"' ∷ (escape s ++ b'"' ∷ [])

-- A field behind the ones that stand before it, if any.
unfoldable pub field : Bool → Bytes → Bytes → Bytes
unfolding quoted
field first key value = (if first then [] else b',' ∷ []) ++ (quoted key ++ (b':' ∷ quoted value))

abbrev pub lower : ℕ → ℕ
lower c = if leb b'A' c && leb c b'Z' then c + 32 else c

unfoldable pub lowercase : Bytes → Bytes
lowercase [] = []
lowercase (c ∷ s) = lower c ∷ lowercase s

unfoldable pub starts_with : Bytes → Bytes → Bool
starts_with [] s = true
starts_with (p ∷ ps) [] = false
starts_with (p ∷ ps) (c ∷ s) = p == c && starts_with ps s

-- `find(fragment) != npos`
unfoldable pub contains : Bytes → Bytes → Bool
unfolding starts_with
contains fragment [] = starts_with fragment []
contains fragment (c ∷ s) = starts_with fragment (c ∷ s) || contains fragment s

unfoldable pub any_within : List Bytes → Bytes → Bool
unfolding contains
any_within [] s = false
any_within (f ∷ fs) s = contains f s || any_within fs s

abbrev pub sensitive_fragments : List Bytes
sensitive_fragments =
    text "password"
    ∷ text "passwd"
    ∷ text "secret"
    ∷ text "token"
    ∷ text "api_key"
    ∷ text "api-key"
    ∷ text "apikey"
    ∷ text "private_key"
    ∷ text "cookie"
    ∷ text "authorization"
    ∷ text "credential"
    ∷ text "session"
    ∷ text "bearer"
    ∷ []

unfoldable pub is_sensitive_key : Bytes → Bool
unfolding any_within lowercase text
is_sensitive_key key = any_within sensitive_fragments (lowercase key)

abbrev pub shown_value : Bytes → Bytes → Bytes
shown_value key value = if is_sensitive_key key then text "[REDACTED]" else value

unfoldable pub attribute_fields : Bool → List (Bytes × Bytes) → Bytes
attribute_fields first [] = []
attribute_fields first ((k, v) ∷ m) = field first k (shown_value k v) ++ attribute_fields false m

unfoldable pub format : Event → Bytes
format e =
    b'{'
    ∷ (field true (text "schema") (text "gatehold.event.v1")
        ++ (field false (text "timestamp") e.timestamp
            ++ (field false (text "severity") (severity_text e.severity)
                ++ (field false (text "event_id") e.event_id
                    ++ (field false (text "component") e.component
                        ++ (field false (text "operation_id") e.operation_id
                            ++ (field false (text "action") e.action
                                ++ (field false (text "outcome") e.outcome
                                    ++ (field false (text "message") e.message
                                        ++ (b','
                                            ∷ (quoted (text "attributes")
                                                ++ (b':'
                                                    ∷ b'{'
                                                    ∷ (attribute_fields true e.attributes
                                                        ++ b'}' ∷ b'}' ∷ [])))))))))))))
