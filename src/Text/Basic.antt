-- ===== src/Text/Basic.antt =====
-- Texts as lists of bytes, comparisons of whole texts, and the identifiers that the components accept.
use Prim.Native.Char.{code}
use sasd_gatehold.Prelude.{
  ℕ, ◌≤◌, ◌≡◌, ◌≢◌, refl, Bool, true, false, not, ◌&&◌, ◌||◌, List, [], ◌∷◌, arith, String, leb,
  ◌==◌, is_empty, length, All, ◌++◌, Option, none, some, if◌then◌else◌,
}

abbrev pub Bytes : Type 0
Bytes = List ℕ

-- The bytes of a literal. It stays shut, so that no proof computes with a message.
unfoldable pub text : String → Bytes
text String.[] = []
text (String.◌∷◌ c s) = code c ∷ text s

unfoldable pub eq_bytes : Bytes → Bytes → Bool
eq_bytes [] [] = true
eq_bytes (x ∷ xs) (y ∷ ys) = x == y && eq_bytes xs ys
eq_bytes _ _ = false

pub eq_bytes→≡ : (a b : Bytes) → eq_bytes a b ≡ true → a ≡ b
unfolding eq_bytes
eq_bytes→≡ [] [] h = refl
eq_bytes→≡ [] (y ∷ b) h = ground arith
eq_bytes→≡ (x ∷ a) [] h = ground arith
eq_bytes→≡ (x ∷ a) (y ∷ b) h = ground (arith, eq_bytes→≡ a b)

pub eq_bytes_refl : (a : Bytes) → eq_bytes a a ≡ true
unfolding eq_bytes
eq_bytes_refl [] = refl
eq_bytes_refl (x ∷ a) = ground (arith, eq_bytes_refl a)

-- Each line with its line feed.
unfoldable pub print_lines : List Bytes → Bytes
print_lines [] = []
print_lines (l ∷ ls) = l ++ b'\n' ∷ print_lines ls

abbrev pub OneLine : Bytes → Type 0
OneLine = All (λ c. c ≢ b'\n')

pub OneLine-append : (s t : Bytes) → OneLine s → OneLine t → OneLine (s ++ t)
OneLine-append [] t hs ht = ht
OneLine-append (c ∷ s) t hs ht = (hs.0, OneLine-append s t hs.1 ht)

-- No byte is a control character below the space: no line feed, no carriage return, no NUL.
abbrev pub Printable : Bytes → Type 0
Printable = All (λ c. 32 ≤ c)

pub Printable-append : (s t : Bytes) → Printable s → Printable t → Printable (s ++ t)
Printable-append [] t hs ht = ht
Printable-append (c ∷ s) t hs ht = (hs.0, Printable-append s t hs.1 ht)

pub Printable-OneLine : (s : Bytes) → Printable s → OneLine s
Printable-OneLine [] h = tt
Printable-OneLine (c ∷ s) h = (ground arith, Printable-OneLine s h.1)

-- `starts_with` and `substr`.
unfoldable pub strip_prefix : Bytes → Bytes → Option Bytes
strip_prefix [] s = some s
strip_prefix (p ∷ ps) [] = none
strip_prefix (p ∷ ps) (c ∷ s) = if p == c then strip_prefix ps s else none

pub strip_prefix-append : (p s : Bytes) → strip_prefix p (p ++ s) ≡ some s
unfolding strip_prefix
strip_prefix-append [] s = refl
strip_prefix-append (c ∷ p) s = ground (arith, strip_prefix-append p s)

-- A byte that `valid_identifier` lets pass.
abbrev pub is_identifier_byte : ℕ → Bool
is_identifier_byte c =
    leb b'a' c && leb c b'z'
    || leb b'A' c && leb c b'Z'
    || leb b'0' c && leb c b'9'
    || c == b'-'
    || c == b'_'
    || c == b'.'
    || c == b':'

identifier_bytes : Bytes → Bool
identifier_bytes [] = true
identifier_bytes (c ∷ s) = is_identifier_byte c && identifier_bytes s

unfoldable pub valid_identifier : Bytes → Bool
unfolding identifier_bytes
valid_identifier s = not (is_empty s) && leb (length s) 128 && identifier_bytes s

identifier_bytes-Printable : (s : Bytes) → identifier_bytes s ≡ true → Printable s
unfolding identifier_bytes
identifier_bytes-Printable [] h = tt
identifier_bytes-Printable (c ∷ s) h = ground (arith, identifier_bytes-Printable s)

pub valid_identifier-Printable : (s : Bytes) → valid_identifier s ≡ true → Printable s
unfolding valid_identifier
valid_identifier-Printable s h = identifier_bytes-Printable s (ground arith)

-- An identifier stays on one line.
pub valid_identifier-without_feed : (s : Bytes) → valid_identifier s ≡ true → OneLine s
valid_identifier-without_feed s h = Printable-OneLine s (valid_identifier-Printable s h)
