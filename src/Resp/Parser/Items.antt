-- ===== src/Resp/Parser/Items.antt =====
-- nimbis-resp/src/parser.rs: the parsing of one item, by its type marker.
use nimbis.Prelude.{
  ℕ, zero, suc, ◌+◌, Option, none, some, [], ◌∷◌, true, false, ◌||◌, not, Bytes, length, get_or,
  take, drop, Result, ok, err, ltb, ◌==◌, if◌then◌else◌,
}
use nimbis.Prelude.Int.{ℤ, pos, negsuc}
use nimbis.Resp.Types.{
  RespValue, ParseError, no_values, no_entries, invalid_format, invalid_bulk_string_length,
  invalid_array_length, capacity_overflow, eq_bytes,
}
use nimbis.Resp.External.{External, Capacity, values_capacity, set_capacity, map_capacity}
use nimbis.Resp.Utils.{crlf, peek_line, parse_integer, parse_double}
use nimbis.Resp.Parser.Frames.{Frame, array_frame, map_frame, set_frame, push_frame}

-- `Result<Option<ParsedItem>, ParseError>` with the buffer that is left: a value, a collection that
-- was started, too little input, an error. `ran_out` has no counterpart: a loop in the item had no more rounds.
pub data Step : Type 0 where
  parsed : RespValue → Bytes → Step
  pushed : Frame → Bytes → Step
  incomplete : Bytes → Step
  failed : ParseError → Bytes → Step
  ran_out : Step

-- The items that are one line: `convert` reads the line behind the marker, and the buffer moves on
-- only if it succeeds.
abbrev pub line_converted : Bytes → ℕ → Result ParseError RespValue → Step
line_converted buf total_len (ok v) = parsed v (drop (1 + total_len) buf)
line_converted buf total_len (err e) = failed e buf

abbrev pub line_found : (Bytes → Result ParseError RespValue) → Bytes → Option (Bytes × ℕ) → Step
line_found convert buf none = incomplete buf
line_found convert buf (some (line, total_len)) = line_converted buf total_len (convert line)

unfoldable pub parse_line_item :
    ⦃x : External⦄ → (Bytes → Result ParseError RespValue) → Bytes → Step
parse_line_item convert buf = line_found convert buf (peek_line (drop 1 buf))

abbrev pub map_ok {ℓ} :
    {A : Type ℓ} → (A → RespValue) → Result ParseError A → Result ParseError RespValue
map_ok f (ok a) = ok (f a)
map_ok f (err e) = err e

unfoldable pub to_boolean : Bytes → Result ParseError RespValue
unfolding eq_bytes
to_boolean line =
    if eq_bytes line (b't' ∷ [])
    then ok (RespValue.boolean true)
    else if eq_bytes line (b'f' ∷ [])
    then ok (RespValue.boolean false)
    else err invalid_format

unfoldable pub parse_simple_string : ⦃x : External⦄ → Bytes → Step
parse_simple_string = parse_line_item (λ line. ok (RespValue.simple_string line))

unfoldable pub parse_error : ⦃x : External⦄ → Bytes → Step
parse_error = parse_line_item (λ line. ok (RespValue.error line))

unfoldable pub parse_integer_item : ⦃x : External⦄ → Bytes → Step
parse_integer_item = parse_line_item (λ line. map_ok RespValue.integer (parse_integer line))

unfoldable pub parse_boolean : ⦃x : External⦄ → Bytes → Step
parse_boolean = parse_line_item to_boolean

unfoldable pub parse_double_item : ⦃x : External⦄ → Bytes → Step
parse_double_item = parse_line_item (λ line. map_ok RespValue.double (parse_double line))

unfoldable pub parse_big_number : ⦃x : External⦄ → Bytes → Step
parse_big_number = parse_line_item (λ line. ok (RespValue.big_number line))

unfoldable pub parse_null : ⦃x : External⦄ → Bytes → Step
parse_null = parse_line_item (λ line. ok RespValue.null)

-- The items with a length in front: `body` goes on with the length, in `buf` with the marker and the
-- line consumed only where it says so.
abbrev pub length_read : Bytes → (ℤ → Step) → Result ParseError ℤ → Step
length_read buf body (ok n) = body n
length_read buf body (err e) = failed e buf

abbrev pub length_found : (Bytes → ℕ → ℤ → Step) → Bytes → Option (Bytes × ℕ) → Step
length_found body buf none = incomplete buf
length_found body buf (some (line, consumed)) =
    length_read buf (body buf consumed) (parse_integer line)

unfoldable pub parse_length_item : ⦃x : External⦄ → (Bytes → ℕ → ℤ → Step) → Bytes → Step
parse_length_item body buf = length_found body buf (peek_line (drop 1 buf))

-- `length` bytes and a CRLF behind the line. The sum does not wrap: `length` is below 2^63.
unfoldable pub read_sized : (Bytes → Bytes → Step) → Bytes → ℕ → ℕ → Step
unfolding eq_bytes
read_sized finish buf consumed n =
    let body = drop (1 + consumed) buf in
    let rest = drop n body in
    if ltb (length buf) (1 + consumed + n + 2)
    then incomplete buf
    else if ltb (length rest) 2 || not (eq_bytes (take 2 rest) crlf)
    then failed invalid_format rest
    else finish (take n body) (drop 2 rest)

unfoldable pub bulk_string_body : Bytes → ℕ → ℤ → Step
bulk_string_body buf consumed (pos n) =
    read_sized (λ s rest. parsed (RespValue.bulk_string s) rest) buf consumed n
bulk_string_body buf consumed (negsuc zero) = parsed RespValue.null (drop (1 + consumed) buf)
bulk_string_body buf consumed (negsuc (suc n)) =
    failed (invalid_bulk_string_length (negsuc (suc n))) buf

unfoldable pub parse_bulk_string : ⦃x : External⦄ → Bytes → Step
parse_bulk_string = parse_length_item bulk_string_body

unfoldable pub bulk_error_body : Bytes → ℕ → ℤ → Step
bulk_error_body buf consumed (pos n) =
    read_sized (λ s rest. parsed (RespValue.bulk_error s) rest) buf consumed n
bulk_error_body buf consumed (negsuc n) = failed (invalid_bulk_string_length (negsuc n)) buf

unfoldable pub parse_bulk_error : ⦃x : External⦄ → Bytes → Step
parse_bulk_error = parse_length_item bulk_error_body

-- `txt:Some string`: three bytes of format, a colon, the text.
unfoldable pub split_verbatim : Bytes → Bytes → Step
split_verbatim s rest =
    if ltb (length s) 4 || not (get_or s 3 0 == b':')
    then failed invalid_format rest
    else parsed (RespValue.verbatim_string (take 3 s) (drop 4 s)) rest

unfoldable pub verbatim_body : Bytes → ℕ → ℤ → Step
verbatim_body buf consumed (pos n) = read_sized split_verbatim buf consumed n
verbatim_body buf consumed (negsuc n) = failed (invalid_bulk_string_length (negsuc n)) buf

unfoldable pub parse_verbatim_string : ⦃x : External⦄ → Bytes → Step
parse_verbatim_string = parse_length_item verbatim_body

-- The start of a collection, with `with_capacity` of its length. The line is consumed before the length is
-- judged.
unfoldable pub start_collection :
    ⦃x : External⦄ → Capacity → RespValue → (ℕ → Frame) → Bytes → ℕ → ℤ → Step
start_collection c empty frame buf consumed (pos zero) = parsed empty (drop (1 + consumed) buf)
start_collection ⦃x⦄ c empty frame buf consumed (pos (suc n)) =
    if x.has_room c (suc n)
    then pushed (frame (suc n)) (drop (1 + consumed) buf)
    else failed capacity_overflow (drop (1 + consumed) buf)
start_collection c empty frame buf consumed (negsuc zero) =
    parsed RespValue.null (drop (1 + consumed) buf)
start_collection c empty frame buf consumed (negsuc (suc n)) =
    failed (invalid_array_length (negsuc (suc n))) (drop (1 + consumed) buf)

unfoldable pub start_array : ⦃x : External⦄ → Bytes → Step
start_array =
    parse_length_item
      (start_collection values_capacity (RespValue.array no_values) (λ n. array_frame n no_values))

unfoldable pub start_set : ⦃x : External⦄ → Bytes → Step
start_set =
    parse_length_item
      (start_collection set_capacity (RespValue.set no_values) (λ n. set_frame n no_values))

unfoldable pub start_map : ⦃x : External⦄ → Bytes → Step
start_map =
    parse_length_item
      (start_collection map_capacity (RespValue.map no_entries) (λ n. map_frame n no_entries none))

unfoldable pub start_push : ⦃x : External⦄ → Bytes → Step
start_push =
    parse_length_item
      (start_collection values_capacity (RespValue.push no_values) (λ n. push_frame n no_values))
