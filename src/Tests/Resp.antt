-- ===== src/Tests/Resp.antt =====
-- Runs of nimbis-resp and instances of its theorems. The external functions are a search byte by byte,
-- and the bits of a float in decimal.
use mathlib.Core.Option
use nimbis.Prelude.{
  ltb, ◌^◌, ℕ, suc, ◌≡◌, ◌≢◌, refl, true, Option, none, some, [], ◌∷◌, ◌++◌, arith, Bytes, codes,
  ◌==◌, if◌then◌else◌, append-nil, All, List,
}
use nimbis.Prelude.Int.{pos, negsuc}
use nimbis.Prelude.Decimal.{print_ℕ, digits_value, digits_value-print_ℕ, print_ℕ-IsDigit, IsDigit}
use nimbis.Resp.Types.{
  RespValue, no_values, value, no_entries, entry, F64, eq_bytes, append_value, count_values,
  count_entries, invalid_integer,
}
use nimbis.Resp.External.{External, IsDecimal}
use nimbis.Resp.Utils.{
  cr, lf, find_crlf, scan_crlf, peek_line, parse_integer, parse_digits, add_digit, is_utf8,
  utf8_run, utf8_next, utf8_lead,
}
use nimbis.Resp.Utils.Line.{line_end}
use nimbis.Resp.Utils.Integer.{parse_integer-value, integer_value}
use nimbis.Resp.Encode.{encode}
use nimbis.Resp.Parser.{parse, parse_loop, parse_step, step_for, complete, needs_more, error}
use nimbis.Resp.Parser.Inline.{
  judge_line, command_line, split_whitespace, split_words, space_width, bulk_strings,
}
use nimbis.Resp.Parser.Frames.{Frame, root, array_frame, handle_parsed_value}
use nimbis.Resp.Parser.Items
use nimbis.Resp.Parser.Stream.{waiting_at, waiting_loop}
use nimbis.Resp.Parser.Resume.{parse_total, parse-append_complete, parse-append_error, parse_resume}
use nimbis.Resp.Parser.Blank.{parse-empty_line}
use nimbis.Resp.RoundTrip.Encodable.{IsEncodable}
use nimbis.Resp.RoundTrip.Items.{All-map}
use nimbis.Resp.RoundTrip.Whole.{parse-encode, encode_prefix_free}

abbrev first_index : ℕ → Bytes → Option ℕ
first_index c [] = none
first_index c (x ∷ s) = if x == c then some 0 else Option.map suc (first_index c s)

pub read-print : (d : F64) → digits_value 0 (print_ℕ d) ≡ some d
unfolding digits_value
read-print d = rw append-nil at (digits_value-print_ℕ d [])

pub print-IsDecimal : (d : F64) → All IsDecimal (print_ℕ d)
print-IsDecimal d = All-map IsDigit IsDecimal (print_ℕ d) (λ c h. omega arith) (print_ℕ-IsDigit d)

instance abbrev pub toy : External
toy = record {
  memchr = first_index;
  memchr-nil = λ c. refl;
  memchr-cons = λ c x s. refl;
  has_room = λ c n. ltb n (2 ^ 57);
  show_f64 = print_ℕ;
  read_f64 = digits_value 0;
  read-show = λ d h. read-print d;
  show-IsDecimal = λ d h. print-IsDecimal d;
}

-- ["GET", {:7 ⇒ #t}, -5]
abbrev request : RespValue
request = RespValue.array (
    value (RespValue.bulk_string (codes "GET")) (
      value (RespValue.map (entry (RespValue.integer (pos 7)) (RespValue.boolean true) no_entries))
        (value (RespValue.integer (negsuc 4)) no_values)))

request-IsEncodable : IsEncodable request
unfolding count_values count_entries
request-IsEncodable = (
  omega arith,
  (omega arith, ((omega arith, (omega arith, tt, tt), (refl, tt), refl), (omega arith, tt))),
  refl,
)

parse-encode_example :
    parse [] (encode request ++ codes ":1") ≡ some (complete request, [], codes ":1")
parse-encode_example = parse-encode request (codes ":1") request-IsEncodable

encode_prefix_free_example : (request ≡ request) × (codes ":1" ≡ codes ":1")
encode_prefix_free_example =
    encode_prefix_free request request (codes ":1") (codes ":1") request-IsEncodable
      request-IsEncodable refl

-- An array that is cut inside its first element: the frame of the array stays on the stack.
abbrev half_frames : List Frame
half_frames = array_frame 2 no_values ∷ root ∷ []

abbrev half : Bytes
half = codes "*2\r\n$4\r\nPI"

abbrev second : Bytes
second = codes "NG\r\n:7\r\n"

half-parse : parse [] half ≡ some (needs_more, half_frames, codes "$4\r\nPI")
unfolding parse parse_loop parse_step step_for waiting_at waiting_loop Items.start_array
    Items.start_collection Items.parse_length_item Items.parse_bulk_string Items.bulk_string_body
    Items.read_sized Items.parse_integer_item Items.parse_line_item peek_line find_crlf scan_crlf
    parse_integer parse_digits add_digit handle_parsed_value append_value eq_bytes
half-parse = refl

half-waiting_at : waiting_at [] half ≡ codes "$4\r\nPI"
unfolding parse parse_loop parse_step step_for waiting_at waiting_loop Items.start_array
    Items.start_collection Items.parse_length_item Items.parse_bulk_string Items.bulk_string_body
    Items.read_sized Items.parse_integer_item Items.parse_line_item peek_line find_crlf scan_crlf
    parse_integer parse_digits add_digit handle_parsed_value append_value eq_bytes
half-waiting_at = refl

parse_resume_example : parse [] (half ++ second) ≡ parse half_frames (codes "$4\r\nPI" ++ second)
parse_resume_example =
    parse_resume [] half_frames half (codes "$4\r\nPI") second half-parse half-waiting_at

abbrev ping : RespValue
ping =
    RespValue.array
      (value (RespValue.bulk_string (codes "PING")) (value (RespValue.integer (pos 7)) no_values))

ping-parse : parse [] (half ++ second) ≡ some (complete ping, [], [])
unfolding parse parse_loop parse_step step_for waiting_at waiting_loop Items.start_array
    Items.start_collection Items.parse_length_item Items.parse_bulk_string Items.bulk_string_body
    Items.read_sized Items.parse_integer_item Items.parse_line_item peek_line find_crlf scan_crlf
    parse_integer parse_digits add_digit handle_parsed_value append_value eq_bytes
ping-parse = refl

parse-append_complete_example : parse [] ((half ++ second) ++ half) ≡ some (complete ping, [], half)
parse-append_complete_example = parse-append_complete [] [] (half ++ second) [] half ping ping-parse

bad-parse :
    parse [] (codes "*1\r\n$x\r\n")
    ≡ some (error invalid_integer, array_frame 1 no_values ∷ root ∷ [], codes "$x\r\n")
unfolding parse parse_loop parse_step step_for waiting_at waiting_loop Items.start_array
    Items.start_collection Items.parse_length_item Items.parse_bulk_string Items.bulk_string_body
    Items.read_sized Items.parse_integer_item Items.parse_line_item peek_line find_crlf scan_crlf
    parse_integer parse_digits add_digit handle_parsed_value append_value eq_bytes
bad-parse = refl

parse-append_error_example :
    parse [] (codes "*1\r\n$x\r\n" ++ half)
    ≡ some (error invalid_integer, array_frame 1 no_values ∷ root ∷ [], codes "$x\r\n" ++ half)
parse-append_error_example =
    parse-append_error [] (array_frame 1 no_values ∷ root ∷ []) (codes "*1\r\n$x\r\n")
      (codes "$x\r\n") half invalid_integer bad-parse

parse_total_example : parse [] half ≢ none
parse_total_example = parse_total [] half

parse_integer-value_example :
    parse_integer (codes "-9223372036854775808") ≡ integer_value (codes "-9223372036854775808")
parse_integer-value_example = parse_integer-value (codes "-9223372036854775808")

abbrev array_head : RespValue
array_head = RespValue.array (value (RespValue.bulk_string (codes "*1")) no_values)

array_head-judge_line : judge_line (codes "*1") ≡ command_line array_head
unfolding judge_line is_utf8 utf8_run utf8_next utf8_lead split_whitespace split_words space_width
    bulk_strings
array_head-judge_line = refl

array_head-IsLine : line_end (codes "*1") ≡ none
unfolding line_end
array_head-IsLine = refl

parse-empty_line_example :
    parse [] (cr ∷ lf ∷ (codes "*1" ++ (cr ∷ lf ∷ codes "$4\r\nPING\r\n")))
    ≡ some (complete array_head, [], codes "$4\r\nPING\r\n")
parse-empty_line_example =
    parse-empty_line (codes "*1") (codes "$4\r\nPING\r\n") array_head array_head-IsLine
      array_head-judge_line
