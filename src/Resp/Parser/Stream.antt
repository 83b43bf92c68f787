-- ===== src/Resp/Parser/Stream.antt =====
-- The loop of `parse` (nimbis-resp/src/parser.rs): it ends, and input may come in pieces.
use nimbis.Prelude.{
  ℕ, zero, suc, ◌+◌, ◌<◌, ◌≡◌, refl, ◌∙◌, ◌∷◌, ◌++◌, some, none, arith, Bytes, length,
  length-append, List,
}
use nimbis.Resp.Types.{RespValue}
use nimbis.Resp.External.{External}
use nimbis.Resp.Parser.{parse_step, parse_loop, with_root, Outcome, complete, needs_more, error}
use nimbis.Resp.Parser.Frames.{Frame, Handled, done, absorbed, refused, handle_parsed_value}
use nimbis.Resp.Parser.Items.{Step, parsed, pushed, incomplete, failed, ran_out}
use nimbis.Resp.Parser.Extends.{Shrinks, Extends}
use nimbis.Resp.Parser.Steady.{parse_step-Shrinks, parse_step-Extends}

length-append_bytes : (s t : Bytes) → length (s ++ t) ≡ length s + length t
length-append_bytes = length-append

module _ ⦃x : External⦄ where
  -- The buffer that the last round of the loop looks at.
  unfoldable pub waiting_loop : ℕ → List Frame → Bytes → Bytes
  waiting_loop zero frames buf = buf
  waiting_loop (suc fuel) frames buf = elim (parse_step buf) [
    | pushed frame rest ↦ waiting_loop fuel (frame ∷ frames) rest
    | parsed v rest ↦ elim (handle_parsed_value frames v) [
      | done final frames' ↦ buf
      | absorbed frames' ↦ waiting_loop fuel frames' rest
      | refused e frames' ↦ buf
    ]
    | incomplete rest ↦ buf
    | failed e rest ↦ buf
    | ran_out ↦ buf
  ]

  unfoldable pub waiting_at : List Frame → Bytes → Bytes
  unfolding waiting_loop
  waiting_at frames buf = waiting_loop (length buf + 1) (with_root frames) buf

  -- More rounds than bytes are enough, and any number of them gives the same.
  fuel_handled :
      (f g : ℕ) (fs : List Frame) (buf rest : Bytes) (v : RespValue)
      → ((fs' : List Frame) → parse_loop f fs' rest ≡ parse_loop g fs' rest)
      → parse_step buf ≡ parsed v rest
      → (h : Handled) → handle_parsed_value fs v ≡ h
      → parse_loop (suc f) fs buf ≡ parse_loop (suc g) fs buf
  unfolding parse_loop
  fuel_handled f g fs buf rest v ih e (done w fs') k = rw (e, k, parse_loop)
  fuel_handled f g fs buf rest v ih e (absorbed fs') k = rw (e, k, parse_loop) (ih fs')
  fuel_handled f g fs buf rest v ih e (refused w fs') k = rw (e, k, parse_loop)

  fuel_step :
      (f g : ℕ) (fs : List Frame) (buf : Bytes)
      → ((fs' : List Frame) (rest : Bytes)
          → length rest < length buf
          → parse_loop f fs' rest ≡ parse_loop g fs' rest)
      → (t : Step) → parse_step buf ≡ t
      → Shrinks buf t
      → parse_loop (suc f) fs buf ≡ parse_loop (suc g) fs buf
  unfolding parse_loop
  fuel_step f g fs buf ih (pushed fr rest) e s = rw (e, parse_loop) (ih (fr ∷ fs) rest s)
  fuel_step f g fs buf ih (incomplete rest) e s = rw (e, parse_loop)
  fuel_step f g fs buf ih (failed w rest) e s = rw (e, parse_loop)
  fuel_step f g fs buf ih ran_out e s = absurd s
  fuel_step f g fs buf ih (parsed v rest) e s =
      fuel_handled f g fs buf rest v (λ fs'. ih fs' rest s) e (handle_parsed_value fs v) refl

  pub parse_loop_fuel :
      (f g : ℕ) (fs : List Frame) (buf : Bytes)
      → length buf < f
      → length buf < g
      → parse_loop f fs buf ≡ parse_loop g fs buf
  parse_loop_fuel zero g fs buf h k = absurd (omega arith)
  parse_loop_fuel (suc f) zero fs buf h k = absurd (omega arith)
  parse_loop_fuel (suc f) (suc g) fs buf h k =
      fuel_step f g fs buf (λ fs' rest s. parse_loop_fuel f g fs' rest (omega arith) (omega arith))
        (parse_step buf) refl (parse_step-Shrinks buf)

  -- What a run on the buffer says of a run with more input: a value or an error comes again, with the
  -- input behind what is left; a run that waits goes on where it stopped.
  abbrev pub Resumes : ℕ → List Frame → Bytes → Bytes → Bytes → Outcome → Type 0
  Resumes g fs buf at more none = Unit
  Resumes g fs buf at more (some (complete v, fs', rest)) =
      parse_loop g fs (buf ++ more) ≡ some (complete v, fs', rest ++ more)
  Resumes g fs buf at more (some (error e, fs', rest)) =
      parse_loop g fs (buf ++ more) ≡ some (error e, fs', rest ++ more)
  Resumes g fs buf at more (some (needs_more, fs', rest)) =
      parse_loop g fs (buf ++ more) ≡ parse_loop (length (at ++ more) + 1) fs' (at ++ more)

  -- A round on, on both sides.
  Resumes-step :
      (g g' : ℕ) (fs fs' : List Frame) (buf rest at more : Bytes) (r : Outcome)
      → parse_loop g fs (buf ++ more) ≡ parse_loop g' fs' (rest ++ more)
      → Resumes g' fs' rest at more r
      → Resumes g fs buf at more r
  Resumes-step g g' fs fs' buf rest at more none e h = tt
  Resumes-step g g' fs fs' buf rest at more (some (complete v, fs1, r)) e h = e ∙ h
  Resumes-step g g' fs fs' buf rest at more (some (error v, fs1, r)) e h = e ∙ h
  Resumes-step g g' fs fs' buf rest at more (some (needs_more, fs1, r)) e h = e ∙ h

  resume_handled :
      (f g : ℕ) (fs : List Frame) (buf rest more : Bytes) (v : RespValue)
      → ((fs' : List Frame)
          → Resumes g fs' rest (waiting_loop f fs' rest) more (parse_loop f fs' rest))
      → parse_step buf ≡ parsed v rest
      → parse_step (buf ++ more) ≡ parsed v (rest ++ more)
      → (h : Handled) → handle_parsed_value fs v ≡ h
      → Resumes (suc g) fs buf (waiting_loop (suc f) fs buf) more (parse_loop (suc f) fs buf)
  unfolding parse_loop waiting_loop
  resume_handled f g fs buf rest more v ih e e' (done w fs') k =
      rw (e, k, parse_loop, waiting_loop) (rw (e', k, parse_loop))
  resume_handled f g fs buf rest more v ih e e' (refused w fs') k =
      rw (e, k, parse_loop, waiting_loop) (rw (e', k, parse_loop))
  resume_handled f g fs buf rest more v ih e e' (absorbed fs') k =
      rw (e, k, parse_loop, waiting_loop)
        (Resumes-step (suc g) g fs fs' buf rest _ more _ (rw (e', k, parse_loop)) (ih fs'))

  resume_step :
      (f g : ℕ) (fs : List Frame) (buf more : Bytes)
      → length (buf ++ more) < suc g
      → ((fs' : List Frame) (rest : Bytes)
          → length rest < length buf
          → Resumes g fs' rest (waiting_loop f fs' rest) more (parse_loop f fs' rest))
      → (t : Step) → parse_step buf ≡ t
      → Shrinks buf t
      → Extends more t (parse_step (buf ++ more))
      → Resumes (suc g) fs buf (waiting_loop (suc f) fs buf) more (parse_loop (suc f) fs buf)
  unfolding parse_loop waiting_loop
  resume_step f g fs buf more b ih (pushed fr rest) e s x =
      rw (e, parse_loop, waiting_loop)
        (Resumes-step (suc g) g fs (fr ∷ fs) buf rest _ more _ (rw (x, parse_loop))
          (ih (fr ∷ fs) rest s))
  resume_step f g fs buf more b ih (incomplete rest) e s x =
      rw (e, parse_loop, waiting_loop)
        (parse_loop_fuel (suc g) (length (buf ++ more) + 1) fs (buf ++ more) b (omega arith))
  resume_step f g fs buf more b ih (failed w rest) e s x =
      rw (e, parse_loop, waiting_loop) (rw (x, parse_loop))
  resume_step f g fs buf more b ih ran_out e s x = absurd s
  resume_step f g fs buf more b ih (parsed v rest) e s x =
      resume_handled f g fs buf rest more v (λ fs'. ih fs' rest s) e x (handle_parsed_value fs v)
        refl

  pub resume_loop :
      (f g : ℕ) (fs : List Frame) (buf more : Bytes)
      → length (buf ++ more) < g
      → Resumes g fs buf (waiting_loop f fs buf) more (parse_loop f fs buf)
  resume_loop zero g fs buf more h = unfold parse_loop in tt
  resume_loop (suc f) zero fs buf more h = absurd (omega arith)
  resume_loop (suc f) (suc g) fs buf more h =
      resume_step f g fs buf more h
        (λ fs' rest s. resume_loop f g fs' rest more (omega (arith, length-append_bytes)))
        (parse_step buf) refl (parse_step-Shrinks buf) (parse_step-Extends buf more)
