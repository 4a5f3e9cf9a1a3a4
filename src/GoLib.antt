-- ===== src/GoLib.antt =====
-- What the program uses of Go's standard library: packages unicode, strings, strconv and bufio.
mod Unicode
mod Strings
mod Search
mod Split
mod Strconv
pub mod Lines
mod Cases
pub mod Decimal
unfoldable pub use Unicode.{is_digit, is_letter, is_number, to_lower}
unfoldable pub use Strings.{trim_space, index, last_index, slice, equal_fold}
unfoldable pub use Search.{has_prefix, index_text, contains, replace_from, replace_all}
unfoldable pub use Split.{split}
unfoldable pub use Strconv.{
  atoi, atoi_value, scan_uint, itoa, read_number, read_digits, write_digits,
}
unfoldable pub use Lines.{split_lines, drop_return, fitting, scan_lines}
unfoldable pub use Cases.{lower_text, to_upper, title_from, title}
