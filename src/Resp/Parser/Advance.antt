-- ===== src/Resp/Parser/Advance.antt =====
-- `parse` of nimbis-resp/src/parser.rs: a value takes some input.
use nimbis.Prelude.{
  ℕ, zero, suc, ◌+◌, ◌<◌, ◌≡◌, refl, ◌∷◌, some, none, arith, Bytes, length, List, subst,
}
use nimbis.Resp.Types.{RespValue}
use nimbis.Resp.External.{External}
use nimbis.Resp.Parser.{parse_step, parse_loop, parse, with_root, Outcome, complete}
use nimbis.Resp.Parser.Frames.{Frame, Handled, done, absorbed, refused, handle_parsed_value}
use nimbis.Resp.Parser.Items.{Step, parsed, pushed, incomplete, failed, ran_out}
use nimbis.Resp.Parser.Extends.{Shrinks}
use nimbis.Resp.Parser.Steady.{parse_step-Shrinks}

-- What is left behind a value is shorter than `n`.
abbrev Advances : ℕ → Outcome → Type 0
Advances n (some (complete v, fs, rest)) = length rest < n
Advances n _ = Unit

Advances-mono : (m n : ℕ) (r : Outcome) → m < n → Advances m r → Advances n r
Advances-mono m n none h a = tt
Advances-mono m n (some (complete v, fs, rest)) h a = omega arith
Advances-mono m n (some (r, fs, rest)) h a = ground arith

module _ ⦃x : External⦄ where
  handled-Advances :
      (f : ℕ) (fs : List Frame) (buf rest : Bytes) (v : RespValue)
      → ((fs' : List Frame) → Advances (length rest) (parse_loop f fs' rest))
      → parse_step buf ≡ parsed v rest
      → length rest < length buf
      → (h : Handled) → handle_parsed_value fs v ≡ h
      → Advances (length buf) (parse_loop (suc f) fs buf)
  unfolding parse_loop
  handled-Advances f fs buf rest v ih e s (done w fs') k = rw (e, k, parse_loop) s
  handled-Advances f fs buf rest v ih e s (refused w fs') k = rw (e, k, parse_loop) tt
  handled-Advances f fs buf rest v ih e s (absorbed fs') k =
      rw (e, k, parse_loop) (Advances-mono (length rest) (length buf) _ s (ih fs'))

  step-Advances :
      (f : ℕ) (fs : List Frame) (buf : Bytes)
      → ((fs' : List Frame) (rest : Bytes) → Advances (length rest) (parse_loop f fs' rest))
      → (t : Step) → parse_step buf ≡ t
      → Shrinks buf t
      → Advances (length buf) (parse_loop (suc f) fs buf)
  unfolding parse_loop
  step-Advances f fs buf ih (pushed fr rest) e s =
      rw (e, parse_loop)
        (Advances-mono (length rest) (length buf) (parse_loop f (fr ∷ fs) rest) s
          (ih (fr ∷ fs) rest))
  step-Advances f fs buf ih (incomplete rest) e s = rw (e, parse_loop) tt
  step-Advances f fs buf ih (failed w rest) e s = rw (e, parse_loop) tt
  step-Advances f fs buf ih ran_out e s = absurd s
  step-Advances f fs buf ih (parsed v rest) e s =
      handled-Advances f fs buf rest v (λ fs'. ih fs' rest) e s (handle_parsed_value fs v) refl

  loop-Advances :
      (f : ℕ) (fs : List Frame) (buf : Bytes) → Advances (length buf) (parse_loop f fs buf)
  unfolding parse_loop
  loop-Advances zero fs buf = tt
  loop-Advances (suc f) fs buf =
      step-Advances f fs buf (λ fs' rest. loop-Advances f fs' rest) (parse_step buf) refl
        (parse_step-Shrinks buf)

  -- What `parse` leaves of the buffer behind a value is shorter than the buffer.
  pub parse_advances :
      (fs fs' : List Frame) (buf rest : Bytes) (v : RespValue)
      → parse fs buf ≡ some (complete v, fs', rest)
      → length rest < length buf
  unfolding parse
  parse_advances fs fs' buf rest v e =
      subst (Advances (length buf)) e (loop-Advances (length buf + 1) (with_root fs) buf)
