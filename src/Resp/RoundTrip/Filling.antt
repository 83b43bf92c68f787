-- ===== src/Resp/RoundTrip/Filling.antt =====
-- Frames that are filled value by value (`handle_parsed_value` of nimbis-resp/src/parser.rs).
use nimbis.Prelude.{ℕ, suc, ◌^◌, ◌<◌, ◌≡◌, refl, ap, false, ◌∷◌, arith, ◌==◌, some, none, List}
use nimbis.Resp.Types.{
  RespValue, RespValues, RespEntries, array, map, set, push, no_values, value, no_entries, entry,
  append_value, insert_value, insert_entry,
}
use nimbis.Resp.Parser.Frames.{
  Frame, array_frame, map_frame, set_frame, push_frame, absorbed, handle_parsed_value, decrement,
}
use nimbis.Resp.RoundTrip.Encodable.{AreNew, has_key, append_entry}

-- The kinds of collections that hold a sequence.
pub data Kind : Type 0 where
  an_array a_set a_push : Kind

abbrev pub frame_of : Kind → ℕ → RespValues → Frame
frame_of an_array n xs = array_frame n xs
frame_of a_set n xs = set_frame n xs
frame_of a_push n xs = push_frame n xs

abbrev pub build : Kind → RespValues → RespValue
build an_array xs = array xs
build a_set xs = set xs
build a_push xs = push xs

-- What the sequence must satisfy to be kept as it is.
abbrev pub Fits : Kind → RespValues → RespValues → Type 0
Fits a_set seen xs = AreNew seen xs
Fits _ seen xs = Unit

unfoldable pub join : RespValues → RespValues → RespValues
join no_values ys = ys
join (value x xs) ys = value x (join xs ys)

pub join-append_value :
    (acc : RespValues) (x : RespValue) (xs : RespValues)
    → join (append_value acc x) xs ≡ join acc (value x xs)
unfolding join append_value
join-append_value no_values x xs = refl
join-append_value (value y acc) x xs = ap (λ t. value y t) (join-append_value acc x xs)

pub join-no_values : (acc : RespValues) → join acc no_values ≡ acc
unfolding join
join-no_values no_values = refl
join-no_values (value y acc) = ap (λ t. value y t) (join-no_values acc)

unfoldable pub join_entries : RespEntries → RespEntries → RespEntries
join_entries no_entries fs = fs
join_entries (entry k v es) fs = entry k v (join_entries es fs)

pub join_entries-append :
    (acc : RespEntries) (k v : RespValue) (es : RespEntries)
    → join_entries (append_entry acc k v) es ≡ join_entries acc (entry k v es)
unfolding join_entries
join_entries-append no_entries k v es = refl
join_entries-append (entry j w acc) k v es = ap (λ t. entry j w t) (join_entries-append acc k v es)

pub join_entries-no_entries : (acc : RespEntries) → join_entries acc no_entries ≡ acc
unfolding join_entries
join_entries-no_entries no_entries = refl
join_entries-no_entries (entry j w acc) = ap (λ t. entry j w t) (join_entries-no_entries acc)

pub insert_entry-new :
    (es : RespEntries) (k v : RespValue)
    → has_key es k ≡ false
    → insert_entry es k v ≡ append_entry es k v
unfolding insert_entry
insert_entry-new no_entries k v h = refl
insert_entry-new (entry j w es) k v h = ground (arith, insert_entry-new es k v)

pub decrement-suc : (n : ℕ) → suc n < 2 ^ 63 → decrement (suc n) ≡ n
decrement-suc n h = omega arith

pub suc-eq-zero : (n : ℕ) → (suc n == 0) ≡ false
suc-eq-zero n = ground arith

-- The last element completes the collection, and one before the last does not.
pub handle_last :
    (k : Kind) (acc : RespValues) (v : RespValue) (xs : RespValues) (fs : List Frame)
    → Fits k acc (value v xs)
    → handle_parsed_value (frame_of k 1 acc ∷ fs) v
      ≡ handle_parsed_value fs (build k (append_value acc v))
unfolding handle_parsed_value insert_value
handle_last an_array acc v xs fs h = refl
handle_last a_push acc v xs fs h = refl
handle_last a_set acc v xs fs h = rw (h.0)

pub handle_next :
    (k : Kind) (n : ℕ) (acc : RespValues) (v : RespValue) (xs : RespValues) (fs : List Frame)
    → Fits k acc (value v xs)
    → suc (suc n) < 2 ^ 63
    → handle_parsed_value (frame_of k (suc (suc n)) acc ∷ fs) v
      ≡ absorbed (frame_of k (suc n) (append_value acc v) ∷ fs)
unfolding handle_parsed_value insert_value
handle_next an_array n acc v xs fs h b = rw (decrement-suc (suc n) b, suc-eq-zero n)
handle_next a_push n acc v xs fs h b = rw (decrement-suc (suc n) b, suc-eq-zero n)
handle_next a_set n acc v xs fs h b = rw (decrement-suc (suc n) b, suc-eq-zero n, h.0)

pub Fits-tail :
    (k : Kind) (acc : RespValues) (v : RespValue) (xs : RespValues)
    → Fits k acc (value v xs)
    → Fits k (append_value acc v) xs
Fits-tail an_array acc v xs h = tt
Fits-tail a_push acc v xs h = tt
Fits-tail a_set acc v xs h = h.1

-- A key waits in its frame, and its value makes an entry of it.
pub handle_key :
    (n : ℕ) (acc : RespEntries) (k : RespValue) (fs : List Frame)
    → handle_parsed_value (map_frame (suc n) acc none ∷ fs) k
      ≡ absorbed (map_frame (suc n) acc (some k) ∷ fs)
unfolding handle_parsed_value
handle_key n acc k fs = rw (suc-eq-zero n)

pub handle_last_entry :
    (acc : RespEntries) (k v : RespValue) (fs : List Frame)
    → has_key acc k ≡ false
    → handle_parsed_value (map_frame 1 acc (some k) ∷ fs) v
      ≡ handle_parsed_value fs (map (append_entry acc k v))
unfolding handle_parsed_value
handle_last_entry acc k v fs h = rw (insert_entry-new acc k v h)

pub handle_next_entry :
    (n : ℕ) (acc : RespEntries) (k v : RespValue) (fs : List Frame)
    → has_key acc k ≡ false
    → suc (suc n) < 2 ^ 63
    → handle_parsed_value (map_frame (suc (suc n)) acc (some k) ∷ fs) v
      ≡ absorbed (map_frame (suc n) (append_entry acc k v) none ∷ fs)
unfolding handle_parsed_value
handle_next_entry n acc k v fs h b =
    rw (decrement-suc (suc n) b, suc-eq-zero n, insert_entry-new acc k v h)
