-- ===== src/Text/Decimal.antt =====
-- `std::to_string` and `std::from_chars` on unsigned numbers, in base ten.
use sasd_gatehold.Text.Basic.{text, OneLine, Printable, Printable-OneLine}
use sasd_gatehold.Prelude.{
  ℕ, zero, suc, ◌+◌, ◌-◌, ◌*◌, ◌/◌, ◌%◌, ◌^◌, ◌≤◌, ◌≡◌, refl, Bool, true, ◌&&◌, Option, none, some,
  List, [], ◌∷◌, arith, leb, ◌==◌, if◌then◌else◌, false, is_empty,
}

abbrev pub max_u64 : ℕ
max_u64 = 2 ^ 64 - 1

abbrev pub is_digit : ℕ → Bool
is_digit c = leb b'0' c && leb c b'9'

-- The digits of `n` in front of `out`, none for 0. A number is at least as large as it is long, so
-- fuel `n` is enough.
digits : ℕ → ℕ → List ℕ → List ℕ
digits zero n out = out
digits (suc f) n out =
    let rest = digits f (n / 10) ((b'0' + n % 10) ∷ out) in if n == 0 then out else rest

unfoldable pub to_string : ℕ → List ℕ
unfolding digits
to_string n = if n == 0 then b'0' ∷ [] else digits n n []

-- The value of a text of digits behind the value `n`, unless it passes `max`.
scan : ℕ → List ℕ → ℕ → Option ℕ
scan max [] n = some n
scan max (c ∷ s) n =
    if is_digit c && leb (n * 10 + (c - b'0')) max then scan max s (n * 10 + (c - b'0')) else none

-- `from_chars` with the callers' tests that it reports no error and has read the whole text.
unfoldable pub from_chars : ℕ → List ℕ → Option ℕ
unfolding scan
from_chars max s = if is_empty s then none else scan max s 0

scan-digits :
    (max f n : ℕ) (out : List ℕ) → n ≤ f → n ≤ max → scan max (digits f n out) 0 ≡ scan max out n
unfolding scan digits
scan-digits max zero n out h k = let e : n ≡ 0 = omega arith in rw e
scan-digits max (suc f) n out h k =
    ground (arith, scan-digits max f (n / 10) ((b'0' + n % 10) ∷ out))

digits-ne_empty : (f n c : ℕ) (out : List ℕ) → is_empty (digits f n (c ∷ out)) ≡ false
unfolding digits
digits-ne_empty zero n c out = refl
digits-ne_empty (suc f) n c out =
    ground (arith, digits-ne_empty f (n / 10) (b'0' + n % 10) (c ∷ out))

pub to_string-ne_empty : (n : ℕ) → is_empty (to_string n) ≡ false
unfolding to_string digits
to_string-ne_empty zero = refl
to_string-ne_empty (suc n) = ground (arith, digits-ne_empty n (suc n / 10) (b'0' + suc n % 10) [])

scan-to_string : (max n : ℕ) → n ≤ max → scan max (to_string n) 0 ≡ some n
unfolding scan to_string
scan-to_string max n h = ground (arith, scan-digits max n n [])

-- `from_chars` reads back what `to_string` prints, whatever number within its type it is.
pub from_chars-to_string : (max n : ℕ) → n ≤ max → from_chars max (to_string n) ≡ some n
unfolding from_chars
from_chars-to_string max n h = ground (arith, scan-to_string max n h, to_string-ne_empty n)

is_digits : List ℕ → Bool
is_digits [] = true
is_digits (c ∷ s) = is_digit c && is_digits s

digits-is_digits :
    (f n : ℕ) (out : List ℕ) → is_digits out ≡ true → is_digits (digits f n out) ≡ true
unfolding digits is_digits
digits-is_digits zero n out h = h
digits-is_digits (suc f) n out h =
    ground (arith, digits-is_digits f (n / 10) ((b'0' + n % 10) ∷ out))

is_digits-Printable : (s : List ℕ) → is_digits s ≡ true → Printable s
unfolding is_digits
is_digits-Printable [] h = tt
is_digits-Printable (c ∷ s) h = ground (arith, is_digits-Printable s)

pub to_string-Printable : (n : ℕ) → Printable (to_string n)
unfolding to_string is_digits
to_string-Printable n = is_digits-Printable (to_string n) (ground (arith, digits-is_digits n n []))

pub to_string-without_feed : (n : ℕ) → OneLine (to_string n)
to_string-without_feed n = Printable-OneLine (to_string n) (to_string-Printable n)

-- `from_chars` never returns a value that its type cannot hold.
scan_bound : (max : ℕ) (s : List ℕ) (n r : ℕ) → n ≤ max → scan max s n ≡ some r → r ≤ max
unfolding scan
scan_bound max [] n r h e = ground arith
scan_bound max (c ∷ s) n r h e = ground (arith, scan_bound max s (n * 10 + (c - b'0')) r)

pub from_chars_bound : (max : ℕ) (s : List ℕ) (r : ℕ) → from_chars max s ≡ some r → r ≤ max
unfolding from_chars
from_chars_bound max s r e = ground (arith, scan_bound max s 0 r)

scan-Printable : (max : ℕ) (s : List ℕ) (n r : ℕ) → scan max s n ≡ some r → Printable s
unfolding scan
scan-Printable max [] n r e = tt
scan-Printable max (c ∷ s) n r e = ground (arith, scan-Printable max s (n * 10 + (c - b'0')) r)

pub from_chars-Printable : (max : ℕ) (s : List ℕ) (r : ℕ) → from_chars max s ≡ some r → Printable s
unfolding from_chars
from_chars-Printable max s r e = ground (arith, scan-Printable max s 0 r)

to_string_zero : to_string 0 ≡ text "0"
unfolding to_string text
to_string_zero = refl

to_string_max : to_string max_u64 ≡ text "18446744073709551615"
unfolding to_string text
to_string_max = refl

from_chars_overflow : from_chars max_u64 (text "18446744073709551616") ≡ none
unfolding from_chars text
from_chars_overflow = refl

from_chars_signed : from_chars max_u64 (text "-1") ≡ none
unfolding from_chars text
from_chars_signed = refl
