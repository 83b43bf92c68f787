-- ===== src/Resp/Utils.antt =====
-- nimbis-resp/src/utils.rs: markers, lines, integers and doubles.
pub mod Line
pub mod Integer
use Prim.Native.Nat.{◌≤◌}
use mathlib.Core.Option
use nimbis.Prelude.{
  ℕ, zero, suc, ◌+◌, ◌-◌, Bool, true, false, ◌&&◌, ◌||◌, Option, none, some, List, [], ◌∷◌, Bytes,
  codes, length, get_or, take, drop, leb, ltb, ◌==◌, if◌then◌else◌, Result, ok, err, and_then,
}
use nimbis.Prelude.Int.{ℤ, pos, checked_add, checked_sub, checked_mul, ◌+ℤ◌, ◌-ℤ◌, ◌*ℤ◌}
use nimbis.Prelude.Decimal.{is_ascii_digit}
use nimbis.Resp.Types.{F64, ParseError, invalid_integer, invalid_double, utf8_error}
use nimbis.Resp.External.{External, infinity, neg_infinity}

abbrev pub cr : ℕ
cr = 13

abbrev pub lf : ℕ
lf = 10

abbrev pub crlf : Bytes
crlf = cr ∷ lf ∷ []

-- The positions of `\r` from `start` on, until one has `\n` behind it. Each round moves `start` on, so
-- `length buf + 1` rounds are enough.
unfoldable pub scan_crlf : ⦃x : External⦄ → ℕ → Bytes → ℕ → Option ℕ
scan_crlf zero buf start = none
scan_crlf ⦃x⦄ (suc fuel) buf start = elim (x.memchr cr (drop start buf)) [
  | none ↦ none
  | some cr_pos ↦
      let abs_pos = start + cr_pos in
      let rest = scan_crlf fuel buf (abs_pos + 1) in
      if ltb (abs_pos + 1) (length buf) && get_or buf (abs_pos + 1) 0 == lf
      then some abs_pos
      else rest
]

unfoldable pub find_crlf : ⦃x : External⦄ → Bytes → Option ℕ
unfolding scan_crlf
find_crlf buf = scan_crlf (length buf + 1) buf 0

-- The line before the next CRLF, and the length of the line with its CRLF.
unfoldable pub peek_line : ⦃x : External⦄ → Bytes → Option (Bytes × ℕ)
peek_line buf = Option.map (λ i. (take i buf, i + 2)) (find_crlf buf)

abbrev pub or_overflow : Option ℤ → Result ParseError ℤ
or_overflow (some r) = ok r
or_overflow none = err invalid_integer

-- One round of the loop of `parse_integer`: both operations are checked.
unfoldable pub add_digit : Bool → ℕ → ℤ → Result ParseError ℤ
unfolding ◌+ℤ◌ ◌-ℤ◌ ◌*ℤ◌
add_digit negative byte result =
    let digit = pos (byte - b'0') in
    or_overflow (
      and_then (checked_mul result (pos 10))
        λ r. if negative then checked_sub r digit else checked_add r digit)

unfoldable pub parse_digits : Bool → Bytes → ℤ → Result ParseError ℤ
parse_digits negative [] result = ok result
parse_digits negative (byte ∷ rest) result =
    if is_ascii_digit byte
    then elim (add_digit negative byte result) [
      | ok r ↦ parse_digits negative rest r
      | err e ↦ err e
    ]
    else err invalid_integer

abbrev pub digits_or_empty : Bool → Bytes → Result ParseError ℤ
digits_or_empty negative [] = err invalid_integer
digits_or_empty negative (c ∷ s) = parse_digits negative (c ∷ s) (pos 0)

unfoldable pub parse_integer : Bytes → Result ParseError ℤ
parse_integer [] = digits_or_empty false []
parse_integer (c ∷ rest) =
    if c == b'-'
    then digits_or_empty true rest
    else if c == b'+'
    then digits_or_empty false rest
    else digits_or_empty false (c ∷ rest)

abbrev pub or_invalid_double : Option F64 → Result ParseError F64
or_invalid_double (some d) = ok d
or_invalid_double none = err invalid_double

abbrev pub between : ℕ → ℕ → ℕ → Bool
between lo hi c = leb lo c && leb c hi

-- Where a check of UTF-8 stands: before a sequence, or before a byte in `lo` to `hi` and `left` more
-- continuation bytes.
pub data Utf8 : Type 0 where
  ready refused : Utf8
  expect : ℕ → ℕ → ℕ → Utf8

-- The table of well-formed sequences that `std::str::from_utf8` accepts.
unfoldable pub utf8_lead : ℕ → Utf8
utf8_lead c =
    if ltb c 0x80
    then ready
    else if between 0xc2 0xdf c
    then expect 0 0x80 0xbf
    else if c == 0xe0
    then expect 1 0xa0 0xbf
    else if c == 0xed
    then expect 1 0x80 0x9f
    else if between 0xe1 0xef c
    then expect 1 0x80 0xbf
    else if c == 0xf0
    then expect 2 0x90 0xbf
    else if between 0xf1 0xf3 c
    then expect 2 0x80 0xbf
    else if c == 0xf4
    then expect 2 0x80 0x8f
    else refused

unfoldable pub utf8_next : Utf8 → ℕ → Utf8
unfolding utf8_lead
utf8_next ready c = utf8_lead c
utf8_next refused c = refused
utf8_next (expect left lo hi) c =
    if between lo hi c then (if left == 0 then ready else expect (left - 1) 0x80 0xbf) else refused

unfoldable pub utf8_run : Utf8 → Bytes → Utf8
unfolding utf8_next
utf8_run u [] = u
utf8_run u (c ∷ s) = utf8_run (utf8_next u c) s

abbrev pub is_ready : Utf8 → Bool
is_ready ready = true
is_ready _ = false

unfoldable pub is_utf8 : Bytes → Bool
unfolding utf8_run
is_utf8 s = is_ready (utf8_run ready s)

unfoldable pub same_bytes : Bytes → Bytes → Bool
same_bytes [] [] = true
same_bytes (c ∷ s) (d ∷ t) = c == d && same_bytes s t
same_bytes _ _ = false

unfoldable pub parse_double : ⦃x : External⦄ → Bytes → Result ParseError F64
unfolding is_utf8 same_bytes
parse_double ⦃x⦄ buf =
    if is_utf8 buf
    then (if same_bytes buf (codes "inf")
        then ok infinity
        else if same_bytes buf (codes "-inf")
        then ok neg_infinity
        else or_invalid_double (x.read_f64 buf))
    else err utf8_error
