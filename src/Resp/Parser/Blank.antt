-- ===== src/Resp/Parser/Blank.antt =====
-- Empty lines in front of a command (nimbis-resp/src/parser.rs, the inline loop).
use nimbis.Prelude.{ℕ, suc, ◌+◌, ◌≡◌, refl, ◌∙◌, [], ◌∷◌, ◌++◌, some, arith, Bytes, length}
use nimbis.Resp.Types.{RespValue}
use nimbis.Resp.External.{External}
use nimbis.Resp.Utils.{cr, lf, is_utf8, utf8_run}
use nimbis.Resp.Utils.Line.{IsLine, peek_line-line, line_end, drop-line}
use nimbis.Resp.Parser.{step_for, parse_step, parse_loop, parse, complete}
use nimbis.Resp.Parser.Inline.{
  judge_line, blank_line, command_line, inline_loop, parse_inline_command, split_whitespace,
  split_words,
}
use nimbis.Resp.Parser.Frames.{handle_parsed_value}
use nimbis.Resp.Parser.Items.{parsed}

blank_line_empty : judge_line [] ≡ blank_line
unfolding judge_line is_utf8 utf8_run split_whitespace split_words
blank_line_empty = refl

module _ ⦃x : External⦄ where
  inline_blank : (f : ℕ) (s : Bytes) → inline_loop (suc f) (cr ∷ lf ∷ s) ≡ inline_loop f s
  unfolding inline_loop line_end
  inline_blank f s =
      let e : 0 + 2 ≡ 2 = refl in rw (peek_line-line [] s refl, blank_line_empty, inline_loop)

  inline_command :
      (f : ℕ) (l rest : Bytes) (v : RespValue)
      → IsLine l
      → judge_line l ≡ command_line v
      → inline_loop (suc f) (l ++ (cr ∷ lf ∷ rest)) ≡ parsed v rest
  unfolding inline_loop
  inline_command f l rest v h j = rw (peek_line-line l rest h, j, inline_loop, drop-line l rest)

  step_empty_line :
      (l rest : Bytes) (v : RespValue)
      → IsLine l
      → judge_line l ≡ command_line v
      → parse_step (cr ∷ lf ∷ (l ++ (cr ∷ lf ∷ rest))) ≡ parsed v rest
  unfolding parse_step step_for parse_inline_command
  step_empty_line l rest v h j =
      let s = l ++ (cr ∷ lf ∷ rest) in
      let e : length (cr ∷ lf ∷ s) + 1 ≡ suc (suc (suc (length s))) = omega arith in
      rw e (inline_blank (suc (suc (length s))) s ∙ inline_command (suc (length s)) l rest v h j)

  -- The line behind an empty line is taken for an inline command, whatever its first byte is: also if
  -- the line is the head of a RESP array, such as `*1`.
  pub parse-empty_line :
      (l rest : Bytes) (v : RespValue)
      → IsLine l
      → judge_line l ≡ command_line v
      → parse [] (cr ∷ lf ∷ (l ++ (cr ∷ lf ∷ rest))) ≡ some (complete v, [], rest)
  unfolding parse parse_loop handle_parsed_value
  parse-empty_line l rest v h j =
      let s = l ++ (cr ∷ lf ∷ rest) in
      let e : length (cr ∷ lf ∷ s) + 1 ≡ suc (suc (suc (length s))) = omega arith in
      rw (e, step_empty_line l rest v h j, parse_loop)
