-- ===== src/Resp/Parser/Steady.antt =====
-- Every item of nimbis-resp/src/parser.rs, and the dispatch over them, takes its bytes from the front
-- of the buffer and does not depend on what stands behind them.
use nimbis.Prelude.{
  ℕ, zero, suc, ◌+◌, ◌≤◌, ◌<◌, ◌≡◌, ◌⊎◌, refl, Bool, true, false, not, ◌||◌, [], ◌∷◌, ◌++◌, some,
  arith, Bytes, length, take, drop, drop-append_le, length-append, length-drop, if◌then◌else◌, ltb,
  ◌==◌, inl, inr, Bool-cases, Option-cases, get_or, Result,
}
use nimbis.Prelude.Int.{ℤ, pos, negsuc}
use nimbis.Resp.Types.{RespValue, ParseError, invalid_format, invalid_type_marker}
use nimbis.Resp.External.{External, Capacity}
use nimbis.Resp.Utils.{peek_line}
use nimbis.Resp.Utils.Line.{peek_line-append, peek_line_bound}
use nimbis.Resp.Parser.{step_for, parse_step, is_possible_inline_type_marker}
use nimbis.Resp.Parser.Inline.{
  InlineLine, bad_line, blank_line, command_line, judge_line, inline_loop, parse_inline_command,
}
use nimbis.Resp.Parser.Frames.{Frame}
use nimbis.Resp.Parser.Items
use nimbis.Resp.Parser.Items.{
  parse_line_item, parse_length_item, Step, parsed, pushed, incomplete, failed, ran_out,
  start_collection, split_verbatim, bulk_string_body, bulk_error_body, verbatim_body,
}
use nimbis.Resp.Parser.Extends.{
  IsSteady, IsSteadyBody, Shrinks, Extends, Judges, parse_line_item-IsSteady,
  parse_length_item-IsSteady, read_sized-IsSteady, length-behind, behind-append,
}

split_verbatim-Judges : Judges split_verbatim
unfolding split_verbatim
split_verbatim-Judges s = elim (Bool-cases (ltb (length s) 4 || not (get_or s 3 0 == b':'))) [
  | inl e ↦ inr (invalid_format, λ r. rw e)
  | inr e ↦ inl (RespValue.verbatim_string (take 3 s) (drop 4 s), λ r. rw e)
]

-- A step that takes the marker and the line, and no more.
consumed-IsSteady :
    (m n : ℕ) (s : Bytes) (step : Bytes → Step)
    → n ≤ length s
    → ((v : RespValue) × ((b : Bytes) → step b ≡ parsed v (drop (1 + n) b)))
      ⊎ ((f : Frame) × ((b : Bytes) → step b ≡ pushed f (drop (1 + n) b)))
    → IsSteady step (m ∷ s)
consumed-IsSteady m n s step h (inl (v, e)) = record {
  shrinks = rw e (length-behind m n s);
  waits = rw e tt;
  extends = λ more. rw (e (m ∷ s), e (m ∷ (s ++ more)), behind-append m n s more h);
}
consumed-IsSteady m n s step h (inr (f, e)) = record {
  shrinks = rw e (length-behind m n s);
  waits = rw e tt;
  extends = λ more. rw (e (m ∷ s), e (m ∷ (s ++ more)), behind-append m n s more h);
}

bulk_string-IsSteady : IsSteadyBody bulk_string_body
unfolding bulk_string_body
bulk_string-IsSteady m n s (pos k) h =
    read_sized-IsSteady _ m n s k (λ t. inl (RespValue.bulk_string t, λ r. refl))
bulk_string-IsSteady m n s (negsuc zero) h =
    consumed-IsSteady m n s _ h (inl (RespValue.null, λ b. refl))
bulk_string-IsSteady m n s (negsuc (suc k)) h = record {
  shrinks = omega arith;
  waits = tt;
  extends = λ more. refl;
}

bulk_error-IsSteady : IsSteadyBody bulk_error_body
unfolding bulk_error_body
bulk_error-IsSteady m n s (pos k) h =
    read_sized-IsSteady _ m n s k (λ t. inl (RespValue.bulk_error t, λ r. refl))
bulk_error-IsSteady m n s (negsuc k) h = record {
  shrinks = omega arith;
  waits = tt;
  extends = λ more. refl;
}

verbatim-IsSteady : IsSteadyBody verbatim_body
unfolding verbatim_body
verbatim-IsSteady m n s (pos k) h = read_sized-IsSteady _ m n s k split_verbatim-Judges
verbatim-IsSteady m n s (negsuc k) h = record {
  shrinks = omega arith;
  waits = tt;
  extends = λ more. refl;
}

start-IsSteady :
    ⦃x : External⦄ (c : Capacity) (empty : RespValue) (frame : ℕ → Frame)
    → IsSteadyBody (start_collection c empty frame)
unfolding start_collection
start-IsSteady c empty frame m n s (pos zero) h =
    consumed-IsSteady m n s _ h (inl (empty, λ b. refl))
start-IsSteady ⦃x⦄ c empty frame m n s (pos (suc k)) h = elim (Bool-cases (x.has_room c (suc k))) [
  | inl e ↦ consumed-IsSteady m n s _ h (inr (frame (suc k), λ b. rw e refl))
  | inr e ↦ record {
    shrinks = rw e (omega (arith, length-behind m n s));
    waits = rw e tt;
    extends = λ more. rw e (rw (behind-append m n s more h) refl);
  }
]
start-IsSteady c empty frame m n s (negsuc zero) h =
    consumed-IsSteady m n s _ h (inl (RespValue.null, λ b. refl))
start-IsSteady c empty frame m n s (negsuc (suc k)) h = record {
  shrinks = omega (arith, length-behind m n s);
  waits = tt;
  extends = λ more. rw (behind-append m n s more h);
}

Shrinks-drop : (n : ℕ) (buf : Bytes) (t : Step) → Shrinks (drop n buf) t → Shrinks buf t
Shrinks-drop n buf (parsed v r) h = omega (arith, length-drop n buf)
Shrinks-drop n buf (pushed v r) h = omega (arith, length-drop n buf)
Shrinks-drop n buf (incomplete r) h = omega (arith, length-drop n buf)
Shrinks-drop n buf (failed v r) h = omega (arith, length-drop n buf)
Shrinks-drop n buf ran_out h = h

record IsForward (step : Bytes → Step) (buf : Bytes) : Type 0 where
  shrinks : Shrinks buf (step buf)
  extends : (more : Bytes) → Extends more (step buf) (step (buf ++ more))

forward : {step : Bytes → Step} {buf : Bytes} → IsSteady step buf → IsForward step buf
forward h = record { shrinks = h.shrinks; extends = h.extends }

choose :
    (b : Bool) {f g : Bytes → Step} {buf : Bytes}
    → IsForward f buf
    → IsForward g buf
    → IsForward (if b then f else g) buf
choose true h k = h
choose false h k = k

refused_marker : (m : ℕ) (s : Bytes) → IsForward (failed (invalid_type_marker m)) (m ∷ s)
refused_marker m s = record { shrinks = omega arith; extends = λ more. refl }

module _ ⦃x : External⦄ where
  -- One round of the inline loop, by what its line is.
  round-Shrinks :
      (f : ℕ) (buf l : Bytes) (n : ℕ)
      → ((b : Bytes) → length b < f → Shrinks b (inline_loop f b))
      → length buf < suc f
      → peek_line buf ≡ some (l, n)
      → (j : InlineLine) → judge_line l ≡ j
      → Shrinks buf (inline_loop (suc f) buf)
  unfolding inline_loop
  round-Shrinks f buf l n ih h e bad_line j = rw (e, j, inline_loop) (omega arith)
  round-Shrinks f buf l n ih h e blank_line j =
      rw (e, j, inline_loop)
        (Shrinks-drop n buf (inline_loop f (drop n buf))
          (ih (drop n buf) (omega (arith, peek_line_bound buf e, length-drop n buf))))
  round-Shrinks f buf l n ih h e (command_line v) j =
      rw (e, j, inline_loop) (omega (arith, peek_line_bound buf e, length-drop n buf))

  inline_loop-Shrinks : (f : ℕ) (buf : Bytes) → length buf < f → Shrinks buf (inline_loop f buf)
  unfolding inline_loop
  inline_loop-Shrinks zero buf h = absurd (omega arith)
  inline_loop-Shrinks (suc f) buf h = elim (Option-cases (peek_line buf)) [
    | inl e ↦ rw (e, inline_loop) (omega arith)
    | inr (p, e) ↦ round-Shrinks f buf p.0 p.1 (inline_loop-Shrinks f) h e (judge_line p.0) refl
  ]

  round-Extends :
      (f g : ℕ) (buf more l : Bytes) (n : ℕ)
      → ((b : Bytes)
          → length (b ++ more) < g
          → Extends more (inline_loop f b) (inline_loop g (b ++ more)))
      → length (buf ++ more) < suc g
      → peek_line buf ≡ some (l, n)
      → (j : InlineLine) → judge_line l ≡ j
      → Extends more (inline_loop (suc f) buf) (inline_loop (suc g) (buf ++ more))
  unfolding inline_loop
  round-Extends f g buf more l n ih h e bad_line j =
      rw (e, j, peek_line-append buf more e, inline_loop, j)
  round-Extends f g buf more l n ih h e blank_line j =
      let b = peek_line_bound buf e in
      rw (e, j, peek_line-append buf more e, inline_loop, j, drop-append_le n buf more b.1)
        (ih (drop n buf) (
          omega
            (arith, b, length-append (drop n buf) more, length-append buf more, length-drop n buf)))
  round-Extends f g buf more l n ih h e (command_line v) j = rw (
    e,
    j,
    peek_line-append buf more e,
    inline_loop,
    j,
    drop-append_le n buf more ((peek_line_bound buf e).1),
  )

  inline_loop-Extends :
      (f g : ℕ) (buf more : Bytes)
      → length (buf ++ more) < g
      → Extends more (inline_loop f buf) (inline_loop g (buf ++ more))
  unfolding inline_loop
  inline_loop-Extends zero g buf more h = tt
  inline_loop-Extends (suc f) zero buf more h = absurd (omega arith)
  inline_loop-Extends (suc f) (suc g) buf more h = elim (Option-cases (peek_line buf)) [
    | inl e ↦ rw (e, inline_loop) tt
    | inr (p, e) ↦
        round-Extends f g buf more p.0 p.1 (λ b. inline_loop-Extends f g b more) h e
          (judge_line p.0) refl
  ]

  line_item :
      (convert : Bytes → Result ParseError RespValue) (m : ℕ) (s : Bytes)
      → IsForward (parse_line_item convert) (m ∷ s)
  line_item convert m s = forward (parse_line_item-IsSteady convert m s)

  length_item :
      (body : Bytes → ℕ → ℤ → Step) (m : ℕ) (s : Bytes)
      → IsSteadyBody body
      → IsForward (parse_length_item body) (m ∷ s)
  length_item body m s h = forward (parse_length_item-IsSteady body m s h)

  inline-IsForward : (buf : Bytes) → IsForward parse_inline_command buf
  unfolding parse_inline_command
  inline-IsForward buf = record {
    shrinks = inline_loop-Shrinks (length buf + 1) buf (omega arith);
    extends = λ more.
        inline_loop-Extends (length buf + 1) (length (buf ++ more) + 1) buf more (omega arith);
  }

  step_for-IsForward : (m : ℕ) (s : Bytes) → IsForward (step_for m) (m ∷ s)
  unfolding step_for Items.parse_simple_string Items.parse_error Items.parse_integer_item
      Items.parse_bulk_string Items.parse_boolean Items.parse_double_item Items.parse_big_number
      Items.parse_bulk_error Items.parse_verbatim_string Items.parse_null Items.start_array
      Items.start_map Items.start_set Items.start_push
  step_for-IsForward m s = choose (m == b'+') (line_item _ m s) (
      choose (m == b'-') (line_item _ m s) (
        choose (m == b':') (line_item _ m s) (
          choose (m == b'$') (length_item _ m s bulk_string-IsSteady) (
            choose (m == b'#') (line_item _ m s) (
              choose (m == b',') (line_item _ m s) (
                choose (m == b'(') (line_item _ m s) (
                  choose (m == b'!') (length_item _ m s bulk_error-IsSteady) (
                    choose (m == b'=') (length_item _ m s verbatim-IsSteady) (
                      choose (m == b'_') (line_item _ m s) (
                        choose (m == b'*') (length_item _ m s (start-IsSteady _ _ _)) (
                          choose (m == b'%') (length_item _ m s (start-IsSteady _ _ _)) (
                            choose (m == b'~') (length_item _ m s (start-IsSteady _ _ _)) (
                              choose (m == b'>') (length_item _ m s (start-IsSteady _ _ _)) (
                                choose (is_possible_inline_type_marker m) (inline-IsForward _)
                                  (refused_marker m s)))))))))))))))

  -- A step takes its bytes from the front of the buffer, and at least one for a value or a frame.
  pub parse_step-Shrinks : (buf : Bytes) → Shrinks buf (parse_step buf)
  unfolding parse_step
  parse_step-Shrinks [] = omega arith
  parse_step-Shrinks (m ∷ s) = (step_for-IsForward m s).shrinks

  -- A step that is complete or fails does the same with more input behind the buffer.
  pub parse_step-Extends :
      (buf more : Bytes) → Extends more (parse_step buf) (parse_step (buf ++ more))
  unfolding parse_step
  parse_step-Extends [] more = tt
  parse_step-Extends (m ∷ s) more = (step_for-IsForward m s).extends more
