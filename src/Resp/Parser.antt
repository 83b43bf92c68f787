-- ===== src/Resp/Parser.antt =====
-- nimbis-resp/src/parser.rs: the streaming parser. A parser is its stack of frames, the top first; a
-- buffer is what is left of it.
pub mod Inline
pub mod Frames
pub mod Items
pub mod Extends
pub mod Steady
pub mod Stream
pub mod Resume
pub mod Advance
pub mod Blank
use nimbis.Prelude.{
  ℕ, zero, suc, ◌+◌, Option, none, some, List, [], ◌∷◌, Bytes, length, Result, ok, err,
  if◌then◌else◌, ltb, leb, ◌||◌, ◌==◌, Bool, true, false,
}
use nimbis.Resp.Types.{RespValue, ParseError, invalid_type_marker, unexpected_eof}
use nimbis.Resp.External.{External}
use nimbis.Resp.Parser.Inline.{parse_inline_command, is_ascii_graphic}
use nimbis.Resp.Parser.Frames.{Frame, root, Handled, done, absorbed, refused, handle_parsed_value}
use nimbis.Resp.Parser.Items
use nimbis.Resp.Parser.Items.{Step, parsed, pushed, incomplete, failed, ran_out}

-- Printable ASCII, a space, or `\r` for an empty line.
abbrev pub is_possible_inline_type_marker : ℕ → Bool
is_possible_inline_type_marker c = is_ascii_graphic c || c == 32 || c == 13

-- The match on the type marker.
unfoldable pub step_for : ⦃x : External⦄ → ℕ → Bytes → Step
step_for m =
    if m == b'+'
    then Items.parse_simple_string
    else if m == b'-'
    then Items.parse_error
    else if m == b':'
    then Items.parse_integer_item
    else if m == b'$'
    then Items.parse_bulk_string
    else if m == b'#'
    then Items.parse_boolean
    else if m == b','
    then Items.parse_double_item
    else if m == b'('
    then Items.parse_big_number
    else if m == b'!'
    then Items.parse_bulk_error
    else if m == b'='
    then Items.parse_verbatim_string
    else if m == b'_'
    then Items.parse_null
    else if m == b'*'
    then Items.start_array
    else if m == b'%'
    then Items.start_map
    else if m == b'~'
    then Items.start_set
    else if m == b'>'
    then Items.start_push
    else if is_possible_inline_type_marker m
    then parse_inline_command
    else failed (invalid_type_marker m)

unfoldable pub parse_step : ⦃x : External⦄ → Bytes → Step
unfolding step_for
parse_step [] = incomplete []
parse_step (m ∷ s) = step_for m (m ∷ s)

pub data RespParseResult : Type 0 where
  complete : RespValue → RespParseResult
  needs_more : RespParseResult
  error : ParseError → RespParseResult

-- What a call of `parse` leaves: its result, the stack and the buffer. `none` has no counterpart in
-- the program: the rounds ran out.
abbrev pub Outcome : Type 0
Outcome = Option (RespParseResult × List Frame × Bytes)

-- The loop of `parse`.
unfoldable pub parse_loop : ⦃x : External⦄ → ℕ → List Frame → Bytes → Outcome
parse_loop zero frames buf = none
parse_loop (suc fuel) frames buf = elim (parse_step buf) [
  | pushed frame rest ↦ parse_loop fuel (frame ∷ frames) rest
  | parsed v rest ↦ elim (handle_parsed_value frames v) [
    | done final frames' ↦ some (complete final, frames', rest)
    | absorbed frames' ↦ parse_loop fuel frames' rest
    | refused e frames' ↦ some (error e, frames', rest)
  ]
  | incomplete rest ↦ some (needs_more, frames, rest)
  | failed e rest ↦ some (error e, frames, rest)
  | ran_out ↦ none
]

-- `if self.frames.is_empty() { self.frames.push(Frame::Root) }`
abbrev pub with_root : List Frame → List Frame
with_root [] = root ∷ []
with_root (f ∷ fs) = f ∷ fs

-- Each round consumes a byte, so the length of the buffer bounds the rounds.
unfoldable pub parse : ⦃x : External⦄ → List Frame → Bytes → Outcome
parse frames buf = parse_loop (length buf + 1) (with_root frames) buf

abbrev pub one_off : Outcome → Result ParseError RespValue
one_off (some (complete v, frames, rest)) = ok v
one_off (some (error e, frames, rest)) = err e
one_off _ = err unexpected_eof

-- The convenience function, on a parser of its own.
unfoldable pub parse_once : ⦃x : External⦄ → Bytes → Result ParseError RespValue
unfolding parse
parse_once buf = one_off (parse [] buf)
