-- ===== src/Text.antt =====
-- Text as the program sees it: a `std::string` is the list of its bytes. `Basic` has whole texts and
-- safe identifiers, `Decimal` the standard library's `std::to_string` and `std::from_chars`.
pub mod Basic
pub mod Decimal
pub use Basic.{
  Bytes, OneLine, OneLine-append, Printable, Printable-append, Printable-OneLine,
  valid_identifier-Printable, strip_prefix-append, eq_bytes→≡, eq_bytes_refl,
  valid_identifier-without_feed,
}
unfoldable pub use Basic.{print_lines, strip_prefix, text, eq_bytes, valid_identifier}
