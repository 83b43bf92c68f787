-- ===== src/Resp/Parser/Inline.antt =====
-- nimbis-resp/src/parser.rs: inline commands, a line of words.
use nimbis.Prelude.{
  ℕ, zero, suc, ◌+◌, none, some, List, [], ◌∷◌, ◌++◌, Bool, false, ◌||◌, ◌&&◌, not, Bytes, length,
  drop, ltb, ◌==◌, if◌then◌else◌,
}
use nimbis.Resp.Types.{RespValue, RespValues, no_values, value, invalid_format}
use nimbis.Resp.External.{External}
use nimbis.Resp.Utils.{peek_line, is_utf8, between}
use nimbis.Resp.Parser.Items.{Step, parsed, incomplete, failed, ran_out}

abbrev pub is_ascii_graphic : ℕ → Bool
is_ascii_graphic c = between 0x21 0x7e c

abbrev pub max_inline_command_len : ℕ
max_inline_command_len = 65536

-- How many bytes the white space (`char::is_whitespace`) in front of a UTF-8 text takes; 0 if the text
-- does not begin with white space.
unfoldable pub space_width : Bytes → ℕ
space_width [] = 0
space_width (a ∷ []) = if between 9 13 a || a == 32 then 1 else 0
space_width (a ∷ b ∷ []) =
    if between 9 13 a || a == 32 then 1 else if a == 0xc2 && (b == 0x85 || b == 0xa0) then 2 else 0
space_width (a ∷ b ∷ c ∷ s) =
    if between 9 13 a || a == 32
    then 1
    else if a == 0xc2 && (b == 0x85 || b == 0xa0)
    then 2
    else if a == 0xe1 && b == 0x9a && c == 0x80
        || a == 0xe2 && b == 0x80 && (between 0x80 0x8a c || c == 0xa8 || c == 0xa9 || c == 0xaf)
        || a == 0xe2 && b == 0x81 && c == 0x9f
        || a == 0xe3 && b == 0x80 && c == 0x80
    then 3
    else 0

abbrev pub end_word : Bytes → List Bytes → List Bytes
end_word [] words = words
end_word (c ∷ w) words = (c ∷ w) ∷ words

-- `str::split_whitespace`. `skip` counts the bytes of a white space that are still to be passed over.
unfoldable pub split_words : ℕ → Bytes → Bytes → List Bytes
unfolding space_width
split_words skip word [] = end_word word []
split_words (suc skip) word (c ∷ s) = split_words skip word s
split_words zero word (c ∷ s) = elim (space_width (c ∷ s)) [
  | zero ↦ split_words zero (word ++ c ∷ []) s
  | suc w ↦ end_word word (split_words w [] s)
]

unfoldable pub split_whitespace : Bytes → List Bytes
unfolding split_words
split_whitespace s = split_words 0 [] s

unfoldable pub bulk_strings : List Bytes → RespValues
bulk_strings [] = no_values
bulk_strings (w ∷ ws) = value (RespValue.bulk_string w) (bulk_strings ws)

-- The secondary check of the first byte.
abbrev pub starts_badly : Bytes → Bool
starts_badly [] = false
starts_badly (c ∷ s) = not (is_ascii_graphic c || c == 32)

-- What a line of an inline command is: refused, without a word, or a command.
pub data InlineLine : Type 0 where
  bad_line blank_line : InlineLine
  command_line : RespValue → InlineLine

abbrev pub words_command : List Bytes → InlineLine
words_command [] = blank_line
words_command (w ∷ ws) = command_line (RespValue.array (bulk_strings (w ∷ ws)))

unfoldable pub judge_line : Bytes → InlineLine
judge_line line =
    if ltb max_inline_command_len (length line)
    then bad_line
    else if starts_badly line
    then bad_line
    else if not (is_utf8 line)
    then bad_line
    else words_command (split_whitespace line)

-- The loop passes over lines with no word, and does not look at the type marker again. Each round
-- consumes a CRLF at least, so the length of the buffer bounds the rounds.
unfoldable pub inline_loop : ⦃x : External⦄ → ℕ → Bytes → Step
inline_loop zero buf = ran_out
inline_loop (suc fuel) buf = elim (peek_line buf) [
  | none ↦ incomplete buf
  | some (line, total_len) ↦ elim (judge_line line) [
    | bad_line ↦ failed invalid_format buf
    | blank_line ↦ inline_loop fuel (drop total_len buf)
    | command_line v ↦ parsed v (drop total_len buf)
  ]
]

unfoldable pub parse_inline_command : ⦃x : External⦄ → Bytes → Step
parse_inline_command buf = inline_loop (length buf + 1) buf
