-- ===== src/Logging/Format/Lines.antt =====
-- The bytes of the text of an event, src/core/logging/json_event_formatter.cpp.
use sasd_gatehold.Prelude.{ℕ, Bool, true, false, List, [], ◌∷◌, ◌++◌, arith}
use sasd_gatehold.Text.{Bytes, text, Printable, Printable-append}
use sasd_gatehold.Logging.Event.{Event}
use sasd_gatehold.Logging.Format.Defs.{
  escape_byte, escape, quoted, field, attribute_fields, shown_value, format,
}

escape_byte-Printable : (c : ℕ) → Printable (escape_byte c)
unfolding escape_byte
escape_byte-Printable c = ground arith

escape-Printable : (s : Bytes) → Printable (escape s)
unfolding escape
escape-Printable [] = tt
escape-Printable (c ∷ s) =
    Printable-append (escape_byte c) (escape s) (escape_byte-Printable c) (escape-Printable s)

quoted-Printable : (s : Bytes) → Printable (quoted s)
unfolding quoted
quoted-Printable s =
    (omega arith, Printable-append (escape s) (b'"' ∷ []) (escape-Printable s) (omega arith))

field-Printable : (first : Bool) (k v : Bytes) → Printable (field first k v)
unfolding field
field-Printable true k v =
    Printable-append (quoted k) (b':' ∷ quoted v) (quoted-Printable k)
      (omega arith, quoted-Printable v)
field-Printable false k v = (
  omega arith,
  Printable-append (quoted k) (b':' ∷ quoted v) (quoted-Printable k)
      (omega arith, quoted-Printable v),
)

attribute_fields-Printable :
    (first : Bool) (m : List (Bytes × Bytes)) → Printable (attribute_fields first m)
unfolding attribute_fields
attribute_fields-Printable first [] = tt
attribute_fields-Printable first ((k, v) ∷ m) =
    Printable-append (field first k (shown_value k v)) (attribute_fields false m)
      (field-Printable first k (shown_value k v)) (attribute_fields-Printable false m)

after_field :
    (first : Bool) (k v rest : Bytes) → Printable rest → Printable (field first k v ++ rest)
after_field first k v rest h = Printable-append (field first k v) rest (field-Printable first k v) h

-- The text of an event holds no byte below 0x20, so no line feed, whatever bytes its fields and
-- attributes hold: a journal entry is one line. The byte 0x7f is not excluded.
pub format-Printable : (e : Event) → Printable (format e)
unfolding format
format-Printable e = (
  omega arith,
  after_field true _ _ _ (
      after_field false _ _ _ (
        after_field false _ _ _ (
          after_field false _ _ _ (
            after_field false _ _ _ (
              after_field false _ _ _ (
                after_field false _ _ _ (
                  after_field false _ _ _ (
                    after_field false _ _ _ (
                      omega arith,
                      Printable-append (quoted (text "attributes")) _
                          (quoted-Printable (text "attributes"))
                          (
                            omega arith,
                            (
                              omega arith,
                              Printable-append (attribute_fields true e.attributes) _
                                  (attribute_fields-Printable true e.attributes) (omega arith),
                            ),
                          ),
                    ))))))))),
)
