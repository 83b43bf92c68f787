-- ===== src/Resp/RoundTrip/Loop.antt =====
-- The loop of `parse` (nimbis-resp/src/parser.rs) on the wire form of a value: it goes on as if the
-- value had been handed to the frame on top.
use nimbis.Prelude.{
  ℕ, suc, ◌+◌, ◌-◌, ◌^◌, ◌≤◌, ◌<◌, ◌≡◌, refl, ap, ◌∙◌, false, [], ◌∷◌, ◌++◌, arith, Bytes, length,
  length-append, if◌then◌else◌, ◌==◌, some, none, List,
}
use nimbis.Resp.Types.{
  RespValue, RespValues, RespEntries, simple_string, error, integer, bulk_string, array, null,
  boolean, double, big_number, bulk_error, verbatim_string, map, set, push, no_values, value,
  no_entries, entry, count_values, count_entries, append_value,
}
use nimbis.Resp.External.{External}
use nimbis.Resp.Parser.{parse_step, parse_loop, Outcome, complete, RespParseResult}
use nimbis.Resp.Parser.Frames.{
  Frame, root, map_frame, Handled, done, absorbed, refused, handle_parsed_value,
}
use nimbis.Resp.Parser.Items.{parsed, pushed}
use nimbis.Resp.RoundTrip.Wire.{wire, wire_values, wire_entries}
use nimbis.Resp.RoundTrip.Encodable.{
  IsEncodable, AreEncodable, AreEncodableEntries, AreNewKeys, has_key, append_entry,
}
use nimbis.Resp.RoundTrip.Filling.{
  Kind, an_array, a_set, a_push, Fits, Fits-tail, frame_of, build, join, join-append_value,
  join-no_values, join_entries, join_entries-append, join_entries-no_entries, handle_last,
  handle_next, handle_key, handle_last_entry, handle_next_entry,
}
use nimbis.Resp.RoundTrip.Steps

-- The rounds that a value takes: one for each item.
mutual
  pub cost : RespValue → ℕ
  cost (array xs) = suc (cost_values xs)
  cost (map es) = suc (cost_entries es)
  cost (set xs) = suc (cost_values xs)
  cost (push xs) = suc (cost_values xs)
  cost _ = 1

  pub cost_values : RespValues → ℕ
  cost_values no_values = 0
  cost_values (value v xs) = cost v + cost_values xs

  pub cost_entries : RespEntries → ℕ
  cost_entries no_entries = 0
  cost_entries (entry k v es) = cost k + (cost v + cost_entries es)

length-append_bytes : (s t : Bytes) → length (s ++ t) ≡ length s + length t
length-append_bytes = length-append

module _ ⦃x : External⦄ where
  -- The rest of the loop after a value was handed to the stack.
  abbrev go_on : ℕ → Bytes → Handled → Outcome
  go_on f rest (done final fs) = some (complete final, fs, rest)
  go_on f rest (absorbed fs) = parse_loop f fs rest
  go_on f rest (refused e fs) = some (RespParseResult.error e, fs, rest)

  abbrev absorb : ℕ → List Frame → RespValue → Bytes → Outcome
  absorb f fs v rest = go_on f rest (handle_parsed_value fs v)

  loop_parsed :
      (f g : ℕ) (fs : List Frame) (buf rest : Bytes) {v : RespValue}
      → g ≡ suc f
      → parse_step buf ≡ parsed v rest
      → parse_loop g fs buf ≡ absorb f fs v rest
  unfolding parse_loop
  loop_parsed f g fs buf rest {v} e h = rw (e, h, parse_loop) (ground arith)

  loop_pushed :
      (f g : ℕ) (fs : List Frame) (buf rest : Bytes) {frame : Frame}
      → g ≡ suc f
      → parse_step buf ≡ pushed frame rest
      → parse_loop g fs buf ≡ parse_loop f (frame ∷ fs) rest
  unfolding parse_loop
  loop_pushed f g fs buf rest e h = rw (e, h, parse_loop)

  -- A collection of values, the loop over its elements and its start.
  list_loop :
      (k : Kind) (xs : RespValues) (f g : ℕ) (fs : List Frame) (buf rest : Bytes)
      → parse_step buf ≡ (
          if count_values xs == 0
          then parsed (build k no_values) (wire_values xs rest)
          else pushed (frame_of k (count_values xs) no_values) (wire_values xs rest))
      → g ≡ suc (cost_values xs + f)
      → ((g' : ℕ)
          → g' ≡ cost_values xs + f
          → 0 < count_values xs
          → parse_loop g' (frame_of k (count_values xs) no_values ∷ fs) (wire_values xs rest)
            ≡ absorb f fs (build k xs) rest)
      → parse_loop g fs buf ≡ absorb f fs (build k xs) rest
  unfolding count_values cost_values wire
  list_loop k no_values f g fs buf rest h e ih = loop_parsed f g fs buf rest (omega arith) h
  list_loop k (value v xs) f g fs buf rest h e ih =
      loop_pushed (cost v + cost_values xs + f) g fs buf _ (omega arith) (h ∙ ground arith)
      ∙ ih _ refl (omega arith)

  after_value :
      (k : Kind) (xs acc : RespValues) (v : RespValue) (f : ℕ) (fs : List Frame) (rest : Bytes)
      → Fits k acc (value v xs)
      → suc (count_values xs) < 2 ^ 63
      → ((g : ℕ)
          → g ≡ cost_values xs + f
          → 0 < count_values xs
          → parse_loop g
              (frame_of k (count_values xs) (append_value acc v) ∷ fs)
              (wire_values xs rest)
            ≡ absorb f fs (build k (join (append_value acc v) xs)) rest)
      → absorb
          (cost_values xs + f)
          (frame_of k (suc (count_values xs)) acc ∷ fs)
          v
          (wire_values xs rest)
        ≡ absorb f fs (build k (join (append_value acc v) xs)) rest
  unfolding count_values cost_values wire
  after_value k no_values acc v f fs rest h b ih =
      let e : 0 + f ≡ f = omega arith in
      rw (e, handle_last k acc v no_values fs h, join-no_values (append_value acc v))
  after_value k (value w xs) acc v f fs rest h b ih =
      rw (handle_next k (count_values xs) acc v (value w xs) fs h b) (ih _ refl (omega arith))

  after_entry :
      (es acc : RespEntries) (k v : RespValue) (f : ℕ) (fs : List Frame) (rest : Bytes)
      → has_key acc k ≡ false
      → suc (count_entries es) < 2 ^ 63
      → ((g : ℕ)
          → g ≡ cost_entries es + f
          → 0 < count_entries es
          → parse_loop g
              (map_frame (count_entries es) (append_entry acc k v) none ∷ fs)
              (wire_entries es rest)
            ≡ absorb f fs (map (join_entries (append_entry acc k v) es)) rest)
      → absorb
          (cost_entries es + f)
          (map_frame (suc (count_entries es)) acc (some k) ∷ fs)
          v
          (wire_entries es rest)
        ≡ absorb f fs (map (join_entries (append_entry acc k v) es)) rest
  unfolding count_entries cost_entries wire
  after_entry no_entries acc k v f fs rest h b ih =
      let e : 0 + f ≡ f = omega arith in
      rw (e, handle_last_entry acc k v fs h, join_entries-no_entries (append_entry acc k v))
  after_entry (entry j w es) acc k v f fs rest h b ih =
      rw (handle_next_entry (count_entries es) acc k v fs h b) (ih _ refl (omega arith))

  map_loop :
      (es : RespEntries) (f g : ℕ) (fs : List Frame) (buf rest : Bytes)
      → parse_step buf ≡ (
          if count_entries es == 0
          then parsed (map no_entries) (wire_entries es rest)
          else pushed (map_frame (count_entries es) no_entries none) (wire_entries es rest))
      → g ≡ suc (cost_entries es + f)
      → ((g' : ℕ)
          → g' ≡ cost_entries es + f
          → 0 < count_entries es
          → parse_loop g' (map_frame (count_entries es) no_entries none ∷ fs) (wire_entries es rest)
            ≡ absorb f fs (map es) rest)
      → parse_loop g fs buf ≡ absorb f fs (map es) rest
  unfolding count_entries cost_entries wire
  map_loop no_entries f g fs buf rest h e ih = loop_parsed f g fs buf rest (omega arith) h
  map_loop (entry k v es) f g fs buf rest h e ih =
      loop_pushed (cost k + (cost v + cost_entries es) + f) g fs buf _ (omega arith)
        (h ∙ ground arith)
      ∙ ih _ refl (omega arith)

  mutual
    unfolding wire cost count_values count_entries join join_entries

    loop_value :
        (v : RespValue) (f g : ℕ) (fs : List Frame) (rest : Bytes)
        → IsEncodable v
        → g ≡ cost v + f
        → parse_loop g fs (wire v rest) ≡ absorb f fs v rest
    loop_value (simple_string s) f g fs rest h e =
        loop_parsed f g fs _ rest (omega arith) (Steps.step_simple_string s rest h)
    loop_value (error s) f g fs rest h e =
        loop_parsed f g fs _ rest (omega arith) (Steps.step_error s rest h)
    loop_value (integer z) f g fs rest h e =
        loop_parsed f g fs _ rest (omega arith) (Steps.step_integer z rest h)
    loop_value (bulk_string s) f g fs rest h e =
        loop_parsed f g fs _ rest (omega arith) (Steps.step_bulk_string s rest h)
    loop_value null f g fs rest h e = loop_parsed f g fs _ rest (omega arith) (Steps.step_null rest)
    loop_value (boolean b) f g fs rest h e =
        loop_parsed f g fs _ rest (omega arith) (Steps.step_boolean b rest)
    loop_value (double d) f g fs rest h e =
        loop_parsed f g fs _ rest (omega arith) (Steps.step_double d rest h)
    loop_value (big_number s) f g fs rest h e =
        loop_parsed f g fs _ rest (omega arith) (Steps.step_big_number s rest h)
    loop_value (bulk_error s) f g fs rest h e =
        loop_parsed f g fs _ rest (omega arith) (Steps.step_bulk_error s rest h)
    loop_value (verbatim_string t s) f g fs rest h e =
        loop_parsed f g fs _ rest (omega arith) (Steps.step_verbatim_string t s rest h.0 h.1)
    loop_value (array xs) f g fs rest h e =
        list_loop an_array xs f g fs _ rest
          (Steps.step_array (count_values xs) (wire_values xs rest) h.0 h.2) (omega arith)
          (λ g' e' p. loop_values an_array xs no_values f g' fs rest h.1 tt h.0 p e')
    loop_value (push xs) f g fs rest h e =
        list_loop a_push xs f g fs _ rest
          (Steps.step_push (count_values xs) (wire_values xs rest) h.0 h.2) (omega arith)
          (λ g' e' p. loop_values a_push xs no_values f g' fs rest h.1 tt h.0 p e')
    loop_value (set xs) f g fs rest h e =
        list_loop a_set xs f g fs _ rest
          (Steps.step_set (count_values xs) (wire_values xs rest) h.0 h.3) (omega arith)
          (λ g' e' p. loop_values a_set xs no_values f g' fs rest h.1 h.2 h.0 p e')
    loop_value (map es) f g fs rest h e =
        map_loop es f g fs _ rest (Steps.step_map (count_entries es) (wire_entries es rest) h.0 h.3)
          (omega arith) (λ g' e' p. loop_entries es no_entries f g' fs rest h.1 h.2 h.0 p e')

    loop_values :
        (k : Kind) (xs acc : RespValues) (f g : ℕ) (fs : List Frame) (rest : Bytes)
        → AreEncodable xs
        → Fits k acc xs
        → count_values xs < 2 ^ 63
        → 0 < count_values xs
        → g ≡ cost_values xs + f
        → parse_loop g (frame_of k (count_values xs) acc ∷ fs) (wire_values xs rest)
          ≡ absorb f fs (build k (join acc xs)) rest
    loop_values k no_values acc f g fs rest h n b p e = absurd (omega arith)
    loop_values k (value v xs) acc f g fs rest h n b p e =
        loop_value v (cost_values xs + f) g _ (wire_values xs rest) h.0 (omega arith)
        ∙ after_value k xs acc v f fs rest n b (λ g' e' p'.
          loop_values k xs (append_value acc v) f g' fs rest h.1 (Fits-tail k acc v xs n)
            (omega arith) p' e')
        ∙ ap (λ ys. absorb f fs (build k ys) rest) (join-append_value acc v xs)

    loop_entries :
        (es acc : RespEntries) (f g : ℕ) (fs : List Frame) (rest : Bytes)
        → AreEncodableEntries es
        → AreNewKeys acc es
        → count_entries es < 2 ^ 63
        → 0 < count_entries es
        → g ≡ cost_entries es + f
        → parse_loop g (map_frame (count_entries es) acc none ∷ fs) (wire_entries es rest)
          ≡ absorb f fs (map (join_entries acc es)) rest
    loop_entries no_entries acc f g fs rest h n b p e = absurd (omega arith)
    loop_entries (entry k v es) acc f g fs rest h n b p e =
        loop_value k (cost v + (cost_entries es + f)) g _ (wire v (wire_entries es rest)) h.0
          (omega arith)
        ∙ ap (λ r. go_on (cost v + (cost_entries es + f)) (wire v (wire_entries es rest)) r)
            (handle_key (count_entries es) acc k fs)
        ∙ loop_value v (cost_entries es + f) _ _ (wire_entries es rest) h.1 refl
        ∙ after_entry es acc k v f fs rest n.0 b (λ g' e' p'.
          loop_entries es (append_entry acc k v) f g' fs rest h.2 n.1 (omega arith) p' e')
        ∙ ap (λ ys. absorb f fs (map ys) rest) (join_entries-append acc k v es)

  -- A value behind which a command is complete: at the bottom of the stack stands the root.
  pub loop_root :
      (v : RespValue) (g : ℕ) (rest : Bytes)
      → IsEncodable v
      → cost v ≤ g
      → parse_loop g (root ∷ []) (wire v rest) ≡ some (complete v, [], rest)
  unfolding handle_parsed_value
  loop_root v g rest h b = loop_value v (g - cost v) g (root ∷ []) rest h (omega arith)

  -- Each item takes a byte at least.
  mutual
    unfolding wire cost

    cost-le : (v : RespValue) (rest : Bytes) → cost v + length rest ≤ length (wire v rest)
    cost-le (array xs) rest = omega (arith, length-append_bytes, cost_values-le xs rest)
    cost-le (push xs) rest = omega (arith, length-append_bytes, cost_values-le xs rest)
    cost-le (set xs) rest = omega (arith, length-append_bytes, cost_values-le xs rest)
    cost-le (map es) rest = omega (arith, length-append_bytes, cost_entries-le es rest)
    cost-le v rest = omega (arith, length-append_bytes)

    cost_values-le :
        (xs : RespValues) (rest : Bytes)
        → cost_values xs + length rest ≤ length (wire_values xs rest)
    cost_values-le no_values rest = omega arith
    cost_values-le (value v xs) rest =
        omega (arith, cost-le v (wire_values xs rest), cost_values-le xs rest)

    cost_entries-le :
        (es : RespEntries) (rest : Bytes)
        → cost_entries es + length rest ≤ length (wire_entries es rest)
    cost_entries-le no_entries rest = omega arith
    cost_entries-le (entry k v es) rest = omega (
      arith,
      cost-le k (wire v (wire_entries es rest)),
      cost-le v (wire_entries es rest),
      cost_entries-le es rest,
    )

  pub cost-le-length : (v : RespValue) (rest : Bytes) → cost v ≤ length (wire v rest)
  cost-le-length v rest = omega (arith, cost-le v rest)
