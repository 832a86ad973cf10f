-- ===== src/Controller/Protocol/Request/Lines.antt =====
-- A text written line by line, and the lines that the parser of
-- src/core/controller/local_protocol.cpp splits it into.
use sasd_gatehold.Prelude.{
  ℕ, ◌<◌, ◌≡◌, refl, sym, true, false, none, some, List, [], ◌∷◌, ◌++◌, append_assoc, append-nil,
  arith, All, ◌==◌, if◌then◌else◌, is_empty,
}
use sasd_gatehold.Text.{print_lines, Bytes, OneLine, Printable, Printable-OneLine}
use sasd_gatehold.Controller.Protocol.Request.{
  has_byte, acceptable_line, prepend, split_from, split_lines,
}

-- A line that `split_lines` keeps whole.
abbrev pub IsLine : Bytes → Type 0
IsLine l = Printable l × (is_empty l ≡ false)

Printable-has_byte : (b : ℕ) (l : Bytes) → b < 32 → Printable l → has_byte b l ≡ false
unfolding has_byte
Printable-has_byte b [] k h = refl
Printable-has_byte b (c ∷ l) k h = ground (arith, Printable-has_byte b l k h.1)

IsLine-acceptable : (l : Bytes) → IsLine l → acceptable_line l ≡ true
unfolding acceptable_line
IsLine-acceptable l h = rw h.1 (
    rw (Printable-has_byte b'\r' l (omega arith) h.0)
      (rw (Printable-has_byte 0 l (omega arith) h.0) refl))

split_from-line :
    (seen l rest : Bytes)
    → OneLine l
    → split_from seen (l ++ b'\n' ∷ rest)
      ≡ (if acceptable_line (seen ++ l) then prepend (seen ++ l) (split_from [] rest) else none)
unfolding split_from
split_from-line seen [] rest h = rw append-nil refl
split_from-line seen (c ∷ l) rest h =
    let e : (c == b'\n') ≡ false = ground arith in
    let again = split_from-line (seen ++ c ∷ []) l rest h.1 in
    rw e (rw (sym (append_assoc seen (c ∷ []) l)) again)

split_from-print_lines :
    (ls : List Bytes) → All IsLine ls → split_from [] (print_lines ls) ≡ some ls
unfolding split_from print_lines
split_from-print_lines [] h = refl
split_from-print_lines (l ∷ ls) h =
    let again = split_from-print_lines ls h.1 in
    rw (split_from-line [] l (print_lines ls) (Printable-OneLine l h.0.0))
      (rw (IsLine-acceptable l h.0) (rw again refl))

pub split_lines-print_lines :
    (l : Bytes) (ls : List Bytes)
    → All IsLine (l ∷ ls)
    → split_lines (print_lines (l ∷ ls)) ≡ some (l ∷ ls)
unfolding split_lines print_lines
split_lines-print_lines [] ls h = ground arith
split_lines-print_lines (c ∷ l) ls h = unfold print_lines in split_from-print_lines ((c ∷ l) ∷ ls) h
