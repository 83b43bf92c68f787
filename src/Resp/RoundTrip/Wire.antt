-- ===== src/Resp/RoundTrip/Wire.antt =====
-- The wire form of a value in front of further input, as a plain recursion, and the encoder of
-- nimbis-resp/src/encode.rs against it.
use nimbis.Prelude.{
  ℕ, ◌+◌, Bool, ◌≡◌, refl, ◌∙◌, ◌++◌, [], ◌∷◌, Bytes, codes, length, if◌then◌else◌, append_assoc,
  append-nil,
}
use nimbis.Prelude.Decimal.{print_ℕ, print_ℤ}
use nimbis.Resp.Types.{
  F64, RespValue, RespValues, RespEntries, simple_string, error, integer, bulk_string, array, null,
  boolean, double, big_number, bulk_error, verbatim_string, map, set, push, no_values, value,
  no_entries, entry, count_values, count_entries,
}
use nimbis.Resp.External.{External, is_infinite, is_sign_positive}
use nimbis.Resp.Utils.{cr, lf}
use nimbis.Resp.Encode.{
  encode_to, encode_values, encode_entries, encode, encode_length, encode_simple_string,
  encode_error, encode_integer, encode_bulk_string, encode_null, encode_boolean, encode_double,
  encode_big_number, encode_bulk_error, encode_verbatim_string,
}

abbrev pub line : ℕ → Bytes → Bytes → Bytes
line marker body rest = marker ∷ (body ++ (cr ∷ lf ∷ rest))

abbrev pub sized : ℕ → Bytes → Bytes → Bytes
sized marker s rest = line marker (print_ℕ (length s)) (s ++ (cr ∷ lf ∷ rest))

abbrev pub boolean_text : Bool → Bytes
boolean_text b = (if b then b't' else b'f') ∷ []

abbrev pub double_text : ⦃x : External⦄ → F64 → Bytes
double_text ⦃x⦄ d =
    if is_infinite d
    then (if is_sign_positive d then codes "inf" else codes "-inf")
    else x.show_f64 d

unfoldable mutual
  pub wire : ⦃x : External⦄ → RespValue → Bytes → Bytes
  wire (simple_string s) rest = line b'+' s rest
  wire (error e) rest = line b'-' e rest
  wire (integer i) rest = line b':' (print_ℤ i) rest
  wire (bulk_string s) rest = sized b'$' s rest
  wire (array xs) rest = line b'*' (print_ℕ (count_values xs)) (wire_values xs rest)
  wire null rest = line b'_' [] rest
  wire (boolean b) rest = line b'#' (boolean_text b) rest
  wire (double d) rest = line b',' (double_text d) rest
  wire (big_number n) rest = line b'(' n rest
  wire (bulk_error e) rest = sized b'!' e rest
  wire (verbatim_string format s) rest =
      line b'=' (print_ℕ (4 + length s)) (format ++ (b':' ∷ (s ++ (cr ∷ lf ∷ rest))))
  wire (map es) rest = line b'%' (print_ℕ (count_entries es)) (wire_entries es rest)
  wire (set xs) rest = line b'~' (print_ℕ (count_values xs)) (wire_values xs rest)
  wire (push xs) rest = line b'>' (print_ℕ (count_values xs)) (wire_values xs rest)

  pub wire_values : ⦃x : External⦄ → RespValues → Bytes → Bytes
  wire_values no_values rest = rest
  wire_values (value v xs) rest = wire v (wire_values xs rest)

  pub wire_entries : ⦃x : External⦄ → RespEntries → Bytes → Bytes
  wire_entries no_entries rest = rest
  wire_entries (entry k v es) rest = wire k (wire v (wire_entries es rest))

mutual
  unfolding encode_to wire encode_length encode_simple_string encode_error encode_integer
      encode_bulk_string encode_null encode_boolean encode_double encode_big_number
      encode_bulk_error encode_verbatim_string

  encode_to-wire :
      ⦃x : External⦄ (v : RespValue) (buf rest : Bytes)
      → encode_to buf v ++ rest ≡ buf ++ wire v rest
  encode_to-wire (array xs) buf rest = simp (encode_values-wire xs, append_assoc)
  encode_to-wire (map es) buf rest = simp (encode_entries-wire es, append_assoc)
  encode_to-wire (set xs) buf rest = simp (encode_values-wire xs, append_assoc)
  encode_to-wire (push xs) buf rest = simp (encode_values-wire xs, append_assoc)
  encode_to-wire v buf rest = simp append_assoc

  encode_values-wire :
      ⦃x : External⦄ (xs : RespValues) (buf rest : Bytes)
      → encode_values buf xs ++ rest ≡ buf ++ wire_values xs rest
  encode_values-wire no_values buf rest = refl
  encode_values-wire (value v xs) buf rest =
      encode_values-wire xs (encode_to buf v) rest ∙ encode_to-wire v buf (wire_values xs rest)

  encode_entries-wire :
      ⦃x : External⦄ (es : RespEntries) (buf rest : Bytes)
      → encode_entries buf es ++ rest ≡ buf ++ wire_entries es rest
  encode_entries-wire no_entries buf rest = refl
  encode_entries-wire (entry k v es) buf rest =
      encode_entries-wire es (encode_to (encode_to buf k) v) rest
      ∙ encode_to-wire v (encode_to buf k) (wire_entries es rest)
      ∙ encode_to-wire k buf (wire v (wire_entries es rest))

-- What `encode` returns, in front of further input.
pub encode-wire : ⦃x : External⦄ (v : RespValue) (rest : Bytes) → encode v ++ rest ≡ wire v rest
unfolding encode
encode-wire v rest = encode_to-wire v [] rest

-- Encoding appends to the buffer, and changes nothing of it.
pub encode_to-append :
    ⦃x : External⦄ (v : RespValue) (buf : Bytes) → encode_to buf v ≡ buf ++ encode v
unfolding encode
encode_to-append v buf = cc (
  encode_to-wire v buf [],
  encode_to-wire v [] [],
  append-nil (encode_to buf v),
  append-nil (encode_to [] v),
)
