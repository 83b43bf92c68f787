-- ===== src/Resp/RoundTrip/Steps.antt =====
-- `parse_step` of nimbis-resp/src/parser.rs on the wire form of a value.
use nimbis.Prelude.{
  ℕ, zero, suc, ◌+◌, ◌^◌, ◌<◌, ◌≡◌, refl, ap, ◌∙◌, Bool, true, false, ◌⊎◌, inl, inr, [], ◌∷◌, ◌++◌,
  arith, Bytes, codes, length, if◌then◌else◌, ◌==◌, append_assoc, none, length-append,
}
use nimbis.Prelude.Int.{ℤ, IsI64}
use nimbis.Prelude.Decimal.{print_ℕ, print_ℤ}
use nimbis.Resp.Types.{F64, RespValue, no_values, no_entries}
use nimbis.Resp.External.{
  Capacity, values_capacity, set_capacity, map_capacity, External, is_infinite, IsFinite, infinity,
  neg_infinity,
}
use nimbis.Resp.Utils.{cr, lf, parse_double, is_utf8, utf8_run, utf8_next, utf8_lead, same_bytes}
use nimbis.Resp.Utils.Line.{IsLine, line_end}
use nimbis.Resp.Utils.Integer.{parse_integer-print_ℤ}
use nimbis.Resp.Parser.{parse_step}
use nimbis.Resp.Parser.Frames.{Frame, array_frame, map_frame, set_frame, push_frame}
use nimbis.Resp.Parser.Items.{
  parsed, pushed, parse_length_item, start_collection, parse_simple_string, parse_error,
  parse_integer_item, parse_bulk_string, parse_boolean, parse_double_item, parse_big_number,
  parse_bulk_error, parse_verbatim_string, parse_null, start_array, start_map, start_set,
  start_push, to_boolean, bulk_string_body, bulk_error_body, verbatim_body, split_verbatim,
}
use nimbis.Resp.RoundTrip.Wire.{line, sized, boolean_text, double_text}
use nimbis.Resp.RoundTrip.Items.{
  drop-line_behind, parse_line_item-line, parse_length_item-line, read_sized-sized, print_ℤ-IsLine,
  parse_double-show, show-IsLine,
}

module _ ⦃x : External⦄ where
  pub step_simple_string :
      (s rest : Bytes)
      → IsLine s
      → parse_step (line b'+' s rest) ≡ parsed (RespValue.simple_string s) rest
  unfolding parse_step parse_simple_string
  step_simple_string s rest h = parse_line_item-line _ b'+' s rest h refl

  pub step_error :
      (s rest : Bytes) → IsLine s → parse_step (line b'-' s rest) ≡ parsed (RespValue.error s) rest
  unfolding parse_step parse_error
  step_error s rest h = parse_line_item-line _ b'-' s rest h refl

  pub step_big_number :
      (s rest : Bytes)
      → IsLine s
      → parse_step (line b'(' s rest) ≡ parsed (RespValue.big_number s) rest
  unfolding parse_step parse_big_number
  step_big_number s rest h = parse_line_item-line _ b'(' s rest h refl

  pub step_integer :
      (z : ℤ) (rest : Bytes)
      → IsI64 z
      → parse_step (line b':' (print_ℤ z) rest) ≡ parsed (RespValue.integer z) rest
  unfolding parse_step parse_integer_item
  step_integer z rest h =
      parse_line_item-line _ b':' (print_ℤ z) rest (print_ℤ-IsLine z)
        (rw (parse_integer-print_ℤ z h))

  pub step_null : (rest : Bytes) → parse_step (line b'_' [] rest) ≡ parsed RespValue.null rest
  unfolding parse_step parse_null line_end
  step_null rest = parse_line_item-line _ b'_' [] rest refl refl

  pub step_boolean :
      (b : Bool) (rest : Bytes)
      → parse_step (line b'#' (boolean_text b) rest) ≡ parsed (RespValue.boolean b) rest
  unfolding parse_step parse_boolean to_boolean line_end
  step_boolean true rest = parse_line_item-line _ b'#' (b't' ∷ []) rest refl refl
  step_boolean false rest = parse_line_item-line _ b'#' (b'f' ∷ []) rest refl refl

  step_infinity :
      (d : F64) (rest : Bytes)
      → (d ≡ infinity) ⊎ (d ≡ neg_infinity)
      → parse_step (line b',' (double_text d) rest) ≡ parsed (RespValue.double d) rest
  unfolding parse_step parse_double_item parse_double is_utf8 line_end same_bytes utf8_run utf8_next
      utf8_lead
  step_infinity d rest (inl e) = rw e (parse_line_item-line _ b',' (codes "inf") rest refl refl)
  step_infinity d rest (inr e) = rw e (parse_line_item-line _ b',' (codes "-inf") rest refl refl)

  step_finite :
      (d : F64) (rest : Bytes)
      → is_infinite d ≡ false
      → IsFinite d
      → parse_step (line b',' (double_text d) rest) ≡ parsed (RespValue.double d) rest
  unfolding parse_step parse_double_item
  step_finite d rest e h = rw e (
      parse_line_item-line _ b',' (x.show_f64 d) rest (show-IsLine d h)
        (rw (parse_double-show d h)))

  pub step_double :
      (d : F64) (rest : Bytes)
      → (is_infinite d ≡ true) ⊎ IsFinite d
      → parse_step (line b',' (double_text d) rest) ≡ parsed (RespValue.double d) rest
  step_double d rest (inl h) = step_infinity d rest (ground arith)
  step_double d rest (inr h) = step_finite d rest (ground arith) h

  pub step_bulk_string :
      (s rest : Bytes)
      → length s < 2 ^ 63
      → parse_step (sized b'$' s rest) ≡ parsed (RespValue.bulk_string s) rest
  unfolding parse_step parse_bulk_string bulk_string_body
  step_bulk_string s rest h =
      parse_length_item-line _ b'$' (length s) (s ++ (cr ∷ lf ∷ rest)) h
      ∙ read_sized-sized _ b'$' (print_ℕ (length s)) s rest

  pub step_bulk_error :
      (s rest : Bytes)
      → length s < 2 ^ 63
      → parse_step (sized b'!' s rest) ≡ parsed (RespValue.bulk_error s) rest
  unfolding parse_step parse_bulk_error bulk_error_body
  step_bulk_error s rest h =
      parse_length_item-line _ b'!' (length s) (s ++ (cr ∷ lf ∷ rest)) h
      ∙ read_sized-sized _ b'!' (print_ℕ (length s)) s rest

  split_verbatim-join :
      (format s rest : Bytes)
      → length format ≡ 3
      → split_verbatim (format ++ (b':' ∷ s)) rest
        ≡ parsed (RespValue.verbatim_string format s) rest
  unfolding split_verbatim
  split_verbatim-join (a ∷ b ∷ c ∷ []) s rest h = ground arith
  split_verbatim-join (a ∷ b ∷ c ∷ d ∷ f) s rest h = absurd (omega arith)
  split_verbatim-join [] s rest h = absurd (omega arith)
  split_verbatim-join (a ∷ []) s rest h = absurd (omega arith)
  split_verbatim-join (a ∷ b ∷ []) s rest h = absurd (omega arith)

  step_payload :
      (p rest : Bytes) → length p < 2 ^ 63 → parse_step (sized b'=' p rest) ≡ split_verbatim p rest
  unfolding parse_step parse_verbatim_string verbatim_body
  step_payload p rest h =
      parse_length_item-line _ b'=' (length p) (p ++ (cr ∷ lf ∷ rest)) h
      ∙ read_sized-sized split_verbatim b'=' (print_ℕ (length p)) p rest

  pub step_verbatim_string :
      (format s rest : Bytes)
      → length format ≡ 3
      → 4 + length s < 2 ^ 63
      → parse_step (line b'=' (print_ℕ (4 + length s)) (format ++ (b':' ∷ (s ++ (cr ∷ lf ∷ rest)))))
        ≡ parsed (RespValue.verbatim_string format s) rest
  step_verbatim_string format s rest h k =
      let e : length (format ++ (b':' ∷ s)) ≡ 4 + length s =
        omega (arith, length-append format (b':' ∷ s)) in
      cc (
        e,
        append_assoc format (b':' ∷ s) (cr ∷ lf ∷ rest),
        step_payload (format ++ (b':' ∷ s)) rest (omega arith),
        split_verbatim-join format s rest h,
      )

  start_step :
      (c : Capacity) (empty : RespValue) (frame : ℕ → Frame) (m n : ℕ) (rest : Bytes)
      → n < 2 ^ 63
      → x.has_room c n ≡ true
      → parse_length_item (start_collection c empty frame) (line m (print_ℕ n) rest)
        ≡ (if n == 0 then parsed empty rest else pushed (frame n) rest)
  unfolding start_collection
  start_step c empty frame m zero rest h k =
      parse_length_item-line _ m 0 rest h
      ∙ ap (λ b. parsed empty b) (drop-line_behind m (print_ℕ 0) rest)
  start_step c empty frame m (suc n) rest h k =
      parse_length_item-line _ m (suc n) rest h
      ∙ rw k (
          ap (λ b. pushed (frame (suc n)) b) (drop-line_behind m (print_ℕ (suc n)) rest)
          ∙ ground arith)

  pub step_array :
      (n : ℕ) (rest : Bytes)
      → n < 2 ^ 63
      → x.has_room values_capacity n ≡ true
      → parse_step (line b'*' (print_ℕ n) rest) ≡ (
          if n == 0
          then parsed (RespValue.array no_values) rest
          else pushed (array_frame n no_values) rest)
  unfolding parse_step start_array
  step_array n rest h k = start_step _ _ _ b'*' n rest h k

  pub step_set :
      (n : ℕ) (rest : Bytes)
      → n < 2 ^ 63
      → x.has_room set_capacity n ≡ true
      → parse_step (line b'~' (print_ℕ n) rest) ≡ (
          if n == 0
          then parsed (RespValue.set no_values) rest
          else pushed (set_frame n no_values) rest)
  unfolding parse_step start_set
  step_set n rest h k = start_step _ _ _ b'~' n rest h k

  pub step_push :
      (n : ℕ) (rest : Bytes)
      → n < 2 ^ 63
      → x.has_room values_capacity n ≡ true
      → parse_step (line b'>' (print_ℕ n) rest) ≡ (
          if n == 0
          then parsed (RespValue.push no_values) rest
          else pushed (push_frame n no_values) rest)
  unfolding parse_step start_push
  step_push n rest h k = start_step _ _ _ b'>' n rest h k

  pub step_map :
      (n : ℕ) (rest : Bytes)
      → n < 2 ^ 63
      → x.has_room map_capacity n ≡ true
      → parse_step (line b'%' (print_ℕ n) rest) ≡ (
          if n == 0
          then parsed (RespValue.map no_entries) rest
          else pushed (map_frame n no_entries none) rest)
  unfolding parse_step start_map
  step_map n rest h k = start_step _ _ _ b'%' n rest h k
