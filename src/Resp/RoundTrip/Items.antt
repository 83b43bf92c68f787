-- ===== src/Resp/RoundTrip/Items.antt =====
-- Each item of the protocol in front of further input is parsed (nimbis-resp/src/parser.rs).
use nimbis.Prelude.{
  ℕ, suc, ◌+◌, ◌^◌, ◌<◌, ◌≡◌, ◌≢◌, refl, true, false, [], ◌∷◌, ◌++◌, arith, Bytes, codes, All,
  length, drop, length-append, drop-append, take-append, lt→ltb, Result, ok,
}
use nimbis.Prelude.Int.{ℤ, pos, negsuc}
use nimbis.Prelude.Decimal.{print_ℕ, print_ℤ, IsDigit, print_ℕ-IsDigit}
use nimbis.Resp.Types.{F64, RespValue, ParseError}
use nimbis.Resp.External.{External, IsFinite, IsDecimal}
use nimbis.Resp.Utils.{
  cr, lf, parse_integer, parse_double, is_utf8, utf8_run, utf8_next, utf8_lead, ready, same_bytes,
}
use nimbis.Resp.Utils.Line.{line_end, IsLine, peek_line-line, drop-line}
use nimbis.Resp.Utils.Integer.{parse_integer-print_ℤ}
use nimbis.Resp.Parser.Items.{Step, parsed, parse_line_item, parse_length_item, read_sized}
use nimbis.Resp.RoundTrip.Wire.{line}

-- A text without `\r` stands in a line.
pub Lacks_cr-IsLine : (s : Bytes) → All (λ c. c ≢ cr) s → IsLine s
unfolding line_end
Lacks_cr-IsLine [] h = refl
Lacks_cr-IsLine (c ∷ []) h = refl
Lacks_cr-IsLine (c ∷ d ∷ s) (h, hs) = ground (arith, Lacks_cr-IsLine (d ∷ s) hs)

pub All-map : (P Q : ℕ → Type 0) (s : Bytes) → ((c : ℕ) → P c → Q c) → All P s → All Q s
All-map P Q [] f h = tt
All-map P Q (c ∷ s) f (h, hs) = (f c h, All-map P Q s f hs)

pub print_ℕ-IsLine : (n : ℕ) → IsLine (print_ℕ n)
print_ℕ-IsLine n =
    Lacks_cr-IsLine (print_ℕ n)
      (All-map IsDigit (λ c. c ≢ cr) (print_ℕ n) (λ c h. omega arith) (print_ℕ-IsDigit n))

pub print_ℤ-IsLine : (z : ℤ) → IsLine (print_ℤ z)
unfolding print_ℤ
print_ℤ-IsLine (pos n) = print_ℕ-IsLine n
print_ℤ-IsLine (negsuc n) = Lacks_cr-IsLine (b'-' ∷ print_ℕ (suc n)) (
  omega arith,
  All-map IsDigit (λ c. c ≢ cr) (print_ℕ (suc n)) (λ c h. omega arith) (print_ℕ-IsDigit (suc n)),
)

-- What is left behind a marker and a line.
pub drop-line_behind :
    (m : ℕ) (body rest : Bytes) → drop (1 + (length body + 2)) (line m body rest) ≡ rest
drop-line_behind m body rest =
    let e : 1 + (length body + 2) ≡ suc (length body + 2) = omega arith in
    rw e (drop-line body rest)

parse_integer-print_ℕ : (n : ℕ) → n < 2 ^ 63 → parse_integer (print_ℕ n) ≡ ok (pos n)
unfolding print_ℤ
parse_integer-print_ℕ n h = parse_integer-print_ℤ (pos n) h

module _ ⦃x : External⦄ where
  pub parse_line_item-line :
      (convert : Bytes → Result ParseError RespValue) (m : ℕ) (body rest : Bytes) {v : RespValue}
      → IsLine body
      → convert body ≡ ok v
      → parse_line_item convert (line m body rest) ≡ parsed v rest
  unfolding parse_line_item
  parse_line_item-line convert m body rest h e =
      rw (peek_line-line body rest h, e, drop-line_behind m body rest)

  pub parse_length_item-line :
      (body : Bytes → ℕ → ℤ → Step) (m n : ℕ) (rest : Bytes)
      → n < 2 ^ 63
      → parse_length_item body (line m (print_ℕ n) rest)
        ≡ body (line m (print_ℕ n) rest) (length (print_ℕ n) + 2) (pos n)
  unfolding parse_length_item
  parse_length_item-line body m n rest h =
      rw (peek_line-line (print_ℕ n) rest (print_ℕ-IsLine n), parse_integer-print_ℕ n h)

  -- A payload of the announced length and its CRLF.
  pub read_sized-sized :
      (finish : Bytes → Bytes → Step) (m : ℕ) (l s rest : Bytes)
      → read_sized finish (line m l (s ++ (cr ∷ lf ∷ rest))) (length l + 2) (length s)
        ≡ finish s rest
  unfolding read_sized
  read_sized-sized finish m l s rest =
      rw
        (
          drop-line_behind m l (s ++ (cr ∷ lf ∷ rest)),
          drop-append s (cr ∷ lf ∷ rest),
          take-append s (cr ∷ lf ∷ rest),
        )
        (ground (
          arith,
          length-append l (cr ∷ lf ∷ (s ++ (cr ∷ lf ∷ rest))),
          length-append s (cr ∷ lf ∷ rest),
        ))

-- ASCII is UTF-8.
ascii-ready : (s : Bytes) → All (λ c. c < 0x80) s → utf8_run ready s ≡ ready
unfolding utf8_run utf8_next utf8_lead
ascii-ready [] h = refl
ascii-ready (c ∷ s) (h, hs) = rw (lt→ltb c 0x80 h) (ascii-ready s hs)

decimal-IsLine : (s : Bytes) → All IsDecimal s → IsLine s
decimal-IsLine s h = Lacks_cr-IsLine s (All-map IsDecimal (λ c. c ≢ cr) s (λ c h. omega arith) h)

pub decimal-is_utf8 : (s : Bytes) → All IsDecimal s → is_utf8 s ≡ true
unfolding is_utf8
decimal-is_utf8 s h =
    rw (ascii-ready s (All-map IsDecimal (λ c. c < 0x80) s (λ c h. omega arith) h))

-- Decimal notation is neither `inf` nor `-inf`.
decimal-ne-inf :
    (s : Bytes)
    → All IsDecimal s
    → (same_bytes s (codes "inf") ≡ false) × (same_bytes s (codes "-inf") ≡ false)
unfolding same_bytes
decimal-ne-inf [] h = (refl, refl)
decimal-ne-inf (c ∷ []) h = (ground arith, ground arith)
decimal-ne-inf (c ∷ d ∷ s) (h, (k, hs)) = (ground arith, ground arith)

module _ ⦃x : External⦄ where
  pub parse_double-show : (d : F64) → IsFinite d → parse_double (x.show_f64 d) ≡ ok d
  unfolding parse_double
  parse_double-show d h =
      let s = x.show-IsDecimal d h in
      let (e, f) = decimal-ne-inf (x.show_f64 d) s in
      rw (decimal-is_utf8 (x.show_f64 d) s, e, f, x.read-show d h)

  pub show-IsLine : (d : F64) → IsFinite d → IsLine (x.show_f64 d)
  show-IsLine d h = decimal-IsLine (x.show_f64 d) (x.show-IsDecimal d h)
