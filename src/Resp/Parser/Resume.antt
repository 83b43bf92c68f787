-- ===== src/Resp/Parser/Resume.antt =====
-- `parse` of nimbis-resp/src/parser.rs over input that comes in pieces.
use nimbis.Prelude.{
  ℕ, zero, suc, ◌+◌, ◌<◌, ◌≡◌, ◌≢◌, refl, [], ◌∷◌, ◌++◌, some, none, arith, Bytes, length, List,
  subst,
}
use nimbis.Resp.Types.{RespValue, ParseError, append_value, insert_value, insert_entry}
use nimbis.Resp.External.{External}
use nimbis.Resp.Parser.{
  parse_step, parse_loop, parse, with_root, Outcome, complete, needs_more, error,
}
use nimbis.Resp.Parser.Frames.{Frame, Handled, done, absorbed, refused, handle_parsed_value}
use nimbis.Resp.Parser.Items.{Step, parsed, pushed, incomplete, failed, ran_out}
use nimbis.Resp.Parser.Extends.{Shrinks}
use nimbis.Resp.Parser.Steady.{parse_step-Shrinks}
use nimbis.Resp.Parser.Stream.{waiting_at, Resumes, resume_loop}

-- The loop has a result, and one that waits leaves a frame on the stack.
abbrev EndsWell : Outcome → Type 0
EndsWell none = ⊥
EndsWell (some (needs_more, [], rest)) = ⊥
EndsWell _ = Unit

-- What a frame below the top takes leaves a frame.
handled-ne-nil :
    (fs : List Frame) (v : RespValue) (fs' : List Frame)
    → handle_parsed_value fs v ≡ absorbed fs'
    → fs' ≢ []
unfolding handle_parsed_value
handled-ne-nil [] v fs' h = cc
handled-ne-nil (Frame.root ∷ fs) v fs' h = cc
handled-ne-nil (Frame.array_frame n xs ∷ fs) v fs' h =
    ground (arith, handled-ne-nil fs (RespValue.array (append_value xs v)) fs')
handled-ne-nil (Frame.set_frame n xs ∷ fs) v fs' h =
    ground (arith, handled-ne-nil fs (RespValue.set (insert_value xs v)) fs')
handled-ne-nil (Frame.push_frame n xs ∷ fs) v fs' h =
    ground (arith, handled-ne-nil fs (RespValue.push (append_value xs v)) fs')
handled-ne-nil (Frame.map_frame n es none ∷ fs) v fs' h =
    ground (arith, handled-ne-nil fs (RespValue.map es) fs')
handled-ne-nil (Frame.map_frame n es (some k) ∷ fs) v fs' h =
    ground (arith, handled-ne-nil fs (RespValue.map (insert_entry es k v)) fs')

module _ ⦃x : External⦄ where
  ends_handled :
      (f : ℕ) (fs : List Frame) (buf rest : Bytes) (v : RespValue)
      → ((fs' : List Frame) → fs' ≢ [] → EndsWell (parse_loop f fs' rest))
      → parse_step buf ≡ parsed v rest
      → (h : Handled) → handle_parsed_value fs v ≡ h
      → EndsWell (parse_loop (suc f) fs buf)
  unfolding parse_loop
  ends_handled f fs buf rest v ih e (done w fs') k = rw (e, k, parse_loop) tt
  ends_handled f fs buf rest v ih e (refused w fs') k = rw (e, k, parse_loop) tt
  ends_handled f fs buf rest v ih e (absorbed fs') k =
      rw (e, k, parse_loop) (ih fs' (handled-ne-nil fs v fs' k))

  ends_step :
      (f : ℕ) (fs : List Frame) (buf : Bytes)
      → fs ≢ []
      → ((fs' : List Frame) (rest : Bytes)
          → fs' ≢ []
          → length rest < length buf
          → EndsWell (parse_loop f fs' rest))
      → (t : Step) → parse_step buf ≡ t
      → Shrinks buf t
      → EndsWell (parse_loop (suc f) fs buf)
  unfolding parse_loop
  ends_step f fs buf n ih (pushed fr rest) e s = rw (e, parse_loop) (ih (fr ∷ fs) rest (cc) s)
  ends_step f [] buf n ih (incomplete rest) e s = absurd (n refl)
  ends_step f (fr ∷ fs) buf n ih (incomplete rest) e s = rw (e, parse_loop) tt
  ends_step f fs buf n ih (failed w rest) e s = rw (e, parse_loop) tt
  ends_step f fs buf n ih ran_out e s = absurd s
  ends_step f fs buf n ih (parsed v rest) e s =
      ends_handled f fs buf rest v (λ fs' m. ih fs' rest m s) e (handle_parsed_value fs v) refl

  ends_loop :
      (f : ℕ) (fs : List Frame) (buf : Bytes)
      → fs ≢ []
      → length buf < f
      → EndsWell (parse_loop f fs buf)
  ends_loop zero fs buf n h = absurd (omega arith)
  ends_loop (suc f) fs buf n h =
      ends_step f fs buf n (λ fs' rest m s. ends_loop f fs' rest m (omega arith)) (parse_step buf)
        refl (parse_step-Shrinks buf)

  with_root-ne-nil : (fs : List Frame) → with_root fs ≢ []
  with_root-ne-nil [] = cc
  with_root-ne-nil (f ∷ fs) = cc

  with_root-id : (fs : List Frame) → fs ≢ [] → with_root fs ≡ fs
  with_root-id [] h = absurd (h refl)
  with_root-id (f ∷ fs) h = refl

  parse-EndsWell : (fs : List Frame) (buf : Bytes) → EndsWell (parse fs buf)
  unfolding parse
  parse-EndsWell fs buf =
      ends_loop (length buf + 1) (with_root fs) buf (with_root-ne-nil fs) (omega arith)

  -- For every stack and every buffer the loop of `parse` ends, and so does the loop over the lines of an
  -- inline command: the rounds that the model allows them are enough.
  pub parse_total : (fs : List Frame) (buf : Bytes) → parse fs buf ≢ none
  parse_total fs buf h = subst EndsWell h (parse-EndsWell fs buf)

  waits-ne-nil :
      (fs fs' : List Frame) (buf rest : Bytes)
      → parse fs buf ≡ some (needs_more, fs', rest)
      → fs' ≢ []
  waits-ne-nil fs [] buf rest h = absurd (subst EndsWell h (parse-EndsWell fs buf))
  waits-ne-nil fs (f ∷ fs') buf rest h = cc

  resume :
      (fs : List Frame) (buf more : Bytes)
      → Resumes
          (length (buf ++ more) + 1)
          (with_root fs)
          buf
          (waiting_at fs buf)
          more
          (parse fs buf)
  unfolding parse waiting_at
  resume fs buf more =
      resume_loop (length buf + 1) (length (buf ++ more) + 1) (with_root fs) buf more (omega arith)

  -- A value that is complete is not changed by further input: the same value and stack come out, and
  -- the further input stands behind what is left of the buffer.
  pub parse-append_complete :
      (fs fs' : List Frame) (buf rest more : Bytes) (v : RespValue)
      → parse fs buf ≡ some (complete v, fs', rest)
      → parse fs (buf ++ more) ≡ some (complete v, fs', rest ++ more)
  parse-append_complete fs fs' buf rest more v h =
      let r =
        subst (Resumes (length (buf ++ more) + 1) (with_root fs) buf (waiting_at fs buf) more) h
          (resume fs buf more) in
      unfold parse in r

  -- An error is not changed by further input: the same error and stack come out, and the further input
  -- stands behind what is left of the buffer.
  pub parse-append_error :
      (fs fs' : List Frame) (buf rest more : Bytes) (e : ParseError)
      → parse fs buf ≡ some (error e, fs', rest)
      → parse fs (buf ++ more) ≡ some (error e, fs', rest ++ more)
  parse-append_error fs fs' buf rest more v h =
      let r =
        subst (Resumes (length (buf ++ more) + 1) (with_root fs) buf (waiting_at fs buf) more) h
          (resume fs buf more) in
      unfold parse in r

  -- Input may come in pieces: if `parse` needs more input and its last round took nothing from the
  -- buffer, then a second call on what is left and the further input does what one call on all of the
  -- input does.
  pub parse_resume :
      (fs fs' : List Frame) (buf rest more : Bytes)
      → parse fs buf ≡ some (needs_more, fs', rest)
      → waiting_at fs buf ≡ rest
      → parse fs (buf ++ more) ≡ parse fs' (rest ++ more)
  parse_resume fs fs' buf rest more h w =
      let r =
        subst (Resumes (length (buf ++ more) + 1) (with_root fs) buf (waiting_at fs buf) more) h
          (resume fs buf more) in
      let n = with_root-id fs' (waits-ne-nil fs fs' buf rest h) in unfold parse in rw n (rw w at r)
