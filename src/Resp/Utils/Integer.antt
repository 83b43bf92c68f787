-- ===== src/Resp/Utils/Integer.antt =====
-- What `parse_integer` of nimbis-resp/src/utils.rs returns.
use nimbis.Prelude.{
  ℕ, zero, suc, ◌+◌, ◌-◌, ◌*◌, ◌^◌, ◌≤◌, ◌<◌, ◌≡◌, refl, sym, ◌∙◌, Bool, true, false, ◌||◌, Option,
  none, some, [], ◌∷◌, append-nil, arith, Bytes, leb, ◌==◌, ok, err, Result, if◌then◌else◌, inl,
  inr, Option-cases, Bool-cases, subst, leb→le, le→leb,
}
use nimbis.Prelude.Int.{ℤ, pos, negsuc, negate, IsI64}
use nimbis.Prelude.Decimal.{
  IsDigit, is_ascii_digit, digits_value, digits_value-print_ℕ, print_ℕ_first, print_ℕ, print_ℤ,
}
use nimbis.Resp.Types.{ParseError, invalid_integer}
use nimbis.Resp.Utils.{add_digit, parse_digits, parse_integer}

-- The largest magnitude with this sign.
abbrev limit : Bool → ℕ
limit true = 2 ^ 63
limit false = 2 ^ 63 - 1

abbrev signed : Bool → ℕ → ℤ
signed true n = negate n
signed false n = pos n

add_digit_step :
    (negative : Bool) (m d : ℕ)
    → d < 10
    → m * 10 + d ≤ limit negative
    → add_digit negative (b'0' + d) (signed negative m) ≡ ok (signed negative (m * 10 + d))
unfolding add_digit
add_digit_step false m d h k = ground arith
add_digit_step true zero zero h k = ground arith
add_digit_step true zero (suc d) h k = ground arith
add_digit_step true (suc m) d h k = ground arith

add_digit_overflow :
    (negative : Bool) (m d : ℕ)
    → d < 10
    → m ≤ limit negative
    → limit negative < m * 10 + d
    → add_digit negative (b'0' + d) (signed negative m) ≡ err invalid_integer
unfolding add_digit
add_digit_overflow false m d h b k = ground arith
add_digit_overflow true zero d h b k = absurd (omega arith)
add_digit_overflow true (suc m) d h b k = ground arith

le-digits_value : (n : ℕ) (s : Bytes) (v : ℕ) → digits_value n s ≡ some v → n ≤ v
unfolding digits_value
le-digits_value n [] v h = ground arith
le-digits_value n (c ∷ s) v h = ground (arith, le-digits_value (n * 10 + (c - b'0')) s v)

-- The digits after the sign, as a result of `parse_integer`.
abbrev pub within : Bool → Option ℕ → Result ParseError ℤ
within negative none = err invalid_integer
within negative (some v) =
    if leb v (limit negative) then ok (signed negative v) else err invalid_integer

within_above :
    (negative : Bool) (n : ℕ) (s : Bytes)
    → limit negative < n
    → within negative (digits_value n s) ≡ err invalid_integer
within_above negative n s h = elim (Option-cases (digits_value n s)) [
  | inl e ↦ rw e
  | inr (v, e) ↦ rw e (ground (arith, le-digits_value n s v e))
]

add_digit_byte :
    (negative : Bool) (c n : ℕ)
    → is_ascii_digit c ≡ true
    → n ≤ limit negative
    → add_digit negative c (signed negative n) ≡ within negative (some (n * 10 + (c - b'0')))
add_digit_byte negative c n d h =
    let e : c ≡ b'0' + (c - b'0') = ground arith in
    let small : c - b'0' < 10 = ground arith in
    elim (Bool-cases (leb (n * 10 + (c - b'0')) (limit negative))) [
      | inl p ↦ rw p (
          subst
            (λ b.
              add_digit negative b (signed negative n) ≡ ok (signed negative (n * 10 + (c - b'0'))))
            (sym e) (add_digit_step negative n (c - b'0') small (leb→le _ _ p)))
      | inr p ↦ rw p (
          subst (λ b. add_digit negative b (signed negative n) ≡ err invalid_integer) (sym e)
            (add_digit_overflow negative n (c - b'0') small h (ground arith)))
    ]

parse_digits-value :
    (negative : Bool) (s : Bytes) (n : ℕ)
    → n ≤ limit negative
    → parse_digits negative s (signed negative n) ≡ within negative (digits_value n s)
unfolding parse_digits digits_value
parse_digits-value negative [] n h = ground arith
parse_digits-value negative (c ∷ s) n h = elim (Bool-cases (is_ascii_digit c)) [
  | inr d ↦ rw d
  | inl d ↦
      rw (d, add_digit_byte negative c n d h)
        (elim (Bool-cases (leb (n * 10 + (c - b'0')) (limit negative))) [
          | inl p ↦ rw p (parse_digits-value negative s (n * 10 + (c - b'0')) (leb→le _ _ p))
          | inr p ↦ rw p (sym (within_above negative (n * 10 + (c - b'0')) s (ground arith)))
        ])
]

-- The reference for `parse_integer`: a sign, at least one digit, and the range of `i64`.
unfoldable pub integer_value : Bytes → Result ParseError ℤ
integer_value [] = err invalid_integer
integer_value (c ∷ []) = within false (digits_value 0 (c ∷ []))
integer_value (c ∷ d ∷ s) =
    if c == b'-'
    then within true (digits_value 0 (d ∷ s))
    else if c == b'+'
    then within false (digits_value 0 (d ∷ s))
    else within false (digits_value 0 (c ∷ d ∷ s))

sign_alone :
    (c : ℕ)
    → (c == b'-') || (c == b'+') ≡ true
    → within false (digits_value 0 (c ∷ [])) ≡ err invalid_integer
unfolding digits_value
sign_alone c h = ground arith

-- `parse_integer` reads an optional sign and one or more digits, and accepts exactly the numbers of
-- the range of `i64`, with their value.
pub parse_integer-value : (s : Bytes) → parse_integer s ≡ integer_value s
unfolding integer_value parse_integer
parse_integer-value [] = refl
parse_integer-value (c ∷ []) =
    ground (arith, parse_digits-value false (c ∷ []) 0 (omega arith), sign_alone c)
parse_integer-value (c ∷ d ∷ s) = ground (
  arith,
  parse_digits-value true (d ∷ s) 0 (omega arith),
  parse_digits-value false (d ∷ s) 0 (omega arith),
  parse_digits-value false (c ∷ d ∷ s) 0 (omega arith),
)

within-print :
    (negative : Bool) (n : ℕ)
    → n ≤ limit negative
    → within negative (digits_value 0 (print_ℕ n)) ≡ ok (signed negative n)
within-print negative n h =
    let e = digits_value-print_ℕ n [] in
    rw (rw append-nil at e) (unfold digits_value in rw (le→leb _ _ h))

unsigned :
    (c : ℕ) (t : Bytes) → IsDigit c → integer_value (c ∷ t) ≡ within false (digits_value 0 (c ∷ t))
unfolding integer_value
unsigned c [] h = refl
unsigned c (d ∷ t) h = ground arith

minus :
    (s : Bytes) {c : ℕ} {t : Bytes}
    → s ≡ c ∷ t
    → integer_value (b'-' ∷ s) ≡ within true (digits_value 0 s)
unfolding integer_value
minus s e = rw e

integer_value-print_ℕ : (n : ℕ) → n < 2 ^ 63 → integer_value (print_ℕ n) ≡ ok (pos n)
integer_value-print_ℕ n h =
    let (c, t, e, d) = print_ℕ_first n in cc (e, unsigned c t d, within-print false n (omega arith))

-- What Rust prints of an `i64` is read back.
pub parse_integer-print_ℤ : (z : ℤ) → IsI64 z → parse_integer (print_ℤ z) ≡ ok z
unfolding print_ℤ
parse_integer-print_ℤ (pos n) h = parse_integer-value (print_ℕ n) ∙ integer_value-print_ℕ n h
parse_integer-print_ℤ (negsuc n) h =
    let (c, t, e, d) = print_ℕ_first (suc n) in
    parse_integer-value (b'-' ∷ print_ℕ (suc n))
    ∙ minus (print_ℕ (suc n)) e
    ∙ within-print true (suc n) (omega arith)
