-- ===== src/Resp/Parser/Frames.antt =====
-- nimbis-resp/src/parser.rs: the stack of collections that are being read.
use nimbis.Prelude.{ℕ, ◌+◌, ◌-◌, ◌%◌, ◌^◌, Option, none, some, List, [], ◌∷◌, ◌==◌, if◌then◌else◌}
use nimbis.Resp.Types.{
  RespValue, RespValues, RespEntries, ParseError, invalid_format, append_value, insert_value,
  insert_entry,
}

pub data Frame : Type 0 where
  root : Frame
  array_frame : ℕ → RespValues → Frame
  map_frame : ℕ → RespEntries → Option RespValue → Frame
  set_frame : ℕ → RespValues → Frame
  push_frame : ℕ → RespValues → Frame

-- `*expected -= 1` in `usize`.
abbrev pub decrement : ℕ → ℕ
decrement n = (n + 2 ^ 64 - 1) % 2 ^ 64

-- `Ok(Some(value))`, `Ok(None)` and `Err`, with the stack that is left.
pub data Handled : Type 0 where
  done : RespValue → List Frame → Handled
  absorbed : List Frame → Handled
  refused : ParseError → List Frame → Handled

-- A value goes into the top frame; a collection that it completes goes into the frame below.
unfoldable pub handle_parsed_value : List Frame → RespValue → Handled
handle_parsed_value [] v = refused invalid_format []
handle_parsed_value (root ∷ below) v = done v below
handle_parsed_value (array_frame expected elements ∷ below) v =
    let elements' = append_value elements v in
    let expected' = decrement expected in
    if expected' == 0
    then handle_parsed_value below (RespValue.array elements')
    else absorbed (array_frame expected' elements' ∷ below)
handle_parsed_value (map_frame expected elements (some key) ∷ below) v =
    let elements' = insert_entry elements key v in
    let expected' = decrement expected in
    if expected' == 0
    then handle_parsed_value below (RespValue.map elements')
    else absorbed (map_frame expected' elements' none ∷ below)
handle_parsed_value (map_frame expected elements none ∷ below) v =
    if expected == 0
    then handle_parsed_value below (RespValue.map elements)
    else absorbed (map_frame expected elements (some v) ∷ below)
handle_parsed_value (set_frame expected elements ∷ below) v =
    let elements' = insert_value elements v in
    let expected' = decrement expected in
    if expected' == 0
    then handle_parsed_value below (RespValue.set elements')
    else absorbed (set_frame expected' elements' ∷ below)
handle_parsed_value (push_frame expected elements ∷ below) v =
    let elements' = append_value elements v in
    let expected' = decrement expected in
    if expected' == 0
    then handle_parsed_value below (RespValue.push elements')
    else absorbed (push_frame expected' elements' ∷ below)
