-- ===== src/Resp/Encode.antt =====
-- nimbis-resp/src/encode.rs: values to bytes. Encoding returns `Ok` on every branch, so the functions
-- return the buffer alone.
use nimbis.Prelude.{ℕ, ◌+◌, Bool, ◌++◌, [], ◌∷◌, Bytes, codes, length, if◌then◌else◌}
use nimbis.Prelude.Int.{ℤ}
use nimbis.Prelude.Decimal.{print_ℕ, print_ℤ}
use nimbis.Resp.Types.{
  F64, RespValue, RespValues, RespEntries, simple_string, error, integer, bulk_string, array, null,
  boolean, double, big_number, bulk_error, verbatim_string, map, set, push, no_values, value,
  no_entries, entry, count_values, count_entries,
}
use nimbis.Resp.External.{External, is_infinite, is_sign_positive}
use nimbis.Resp.Utils.{crlf}

-- `buf.put_u8(marker); buf.put_slice(body); buf.put_slice(CRLF)`
abbrev pub put_line : Bytes → ℕ → Bytes → Bytes
put_line buf marker body = ((buf ++ marker ∷ []) ++ body) ++ crlf

unfoldable pub encode_length : Bytes → ℕ → ℕ → Bytes
encode_length buf marker n = put_line buf marker (print_ℕ n)

unfoldable pub encode_simple_string : Bytes → Bytes → Bytes
encode_simple_string buf s = put_line buf b'+' s

unfoldable pub encode_error : Bytes → Bytes → Bytes
encode_error buf e = put_line buf b'-' e

unfoldable pub encode_integer : Bytes → ℤ → Bytes
encode_integer buf i = put_line buf b':' (print_ℤ i)

unfoldable pub encode_bulk_string : Bytes → Bytes → Bytes
encode_bulk_string buf s = (encode_length buf b'$' (length s) ++ s) ++ crlf

unfoldable pub encode_null : Bytes → Bytes
encode_null buf = (buf ++ b'_' ∷ []) ++ crlf

unfoldable pub encode_boolean : Bytes → Bool → Bytes
encode_boolean buf b = put_line buf b'#' ((if b then b't' else b'f') ∷ [])

unfoldable pub encode_double : ⦃x : External⦄ → Bytes → F64 → Bytes
encode_double ⦃x⦄ buf d = put_line buf b',' (
    if is_infinite d
    then (if is_sign_positive d then codes "inf" else codes "-inf")
    else x.show_f64 d)

unfoldable pub encode_big_number : Bytes → Bytes → Bytes
encode_big_number buf n = put_line buf b'(' n

unfoldable pub encode_bulk_error : Bytes → Bytes → Bytes
encode_bulk_error buf e = (encode_length buf b'!' (length e) ++ e) ++ crlf

unfoldable pub encode_verbatim_string : Bytes → Bytes → Bytes → Bytes
encode_verbatim_string buf format body =
    (((encode_length buf b'=' (4 + length body) ++ format) ++ b':' ∷ []) ++ body) ++ crlf

-- The encoder on a buffer: one function for a value, and one for each loop over elements.
unfoldable mutual
  pub encode_to : ⦃x : External⦄ → Bytes → RespValue → Bytes
  encode_to buf (simple_string s) = encode_simple_string buf s
  encode_to buf (error e) = encode_error buf e
  encode_to buf (integer i) = encode_integer buf i
  encode_to buf (bulk_string s) = encode_bulk_string buf s
  encode_to buf (array xs) = encode_values (encode_length buf b'*' (count_values xs)) xs
  encode_to buf null = encode_null buf
  encode_to buf (boolean b) = encode_boolean buf b
  encode_to buf (double d) = encode_double buf d
  encode_to buf (big_number n) = encode_big_number buf n
  encode_to buf (bulk_error e) = encode_bulk_error buf e
  encode_to buf (verbatim_string format body) = encode_verbatim_string buf format body
  encode_to buf (map es) = encode_entries (encode_length buf b'%' (count_entries es)) es
  encode_to buf (set xs) = encode_values (encode_length buf b'~' (count_values xs)) xs
  encode_to buf (push xs) = encode_values (encode_length buf b'>' (count_values xs)) xs

  pub encode_values : ⦃x : External⦄ → Bytes → RespValues → Bytes
  encode_values buf no_values = buf
  encode_values buf (value v xs) = encode_values (encode_to buf v) xs

  pub encode_entries : ⦃x : External⦄ → Bytes → RespEntries → Bytes
  encode_entries buf no_entries = buf
  encode_entries buf (entry k v es) = encode_entries (encode_to (encode_to buf k) v) es

unfoldable pub encode : ⦃x : External⦄ → RespValue → Bytes
encode v = encode_to [] v
