-- ===== src/Prelude/Decimal.antt =====
-- Decimal notation: `to_string` of Rust's integers.
use nimbis.Prelude.{
  ℕ, zero, suc, ◌+◌, ◌-◌, ◌*◌, ◌/◌, ◌%◌, ◌≤◌, ◌<◌, ◌≡◌, refl, [], ◌∷◌, ◌++◌, arith, Bytes, ltb,
  if◌then◌else◌, All, leb, ◌&&◌, ◌≢◌, Bool, true, Option, none, some, Bool-cases, inl, inr,
  append_assoc, ◌∙◌, All-append, codes,
}
use mathlib.Core.List.{concat-ne-nil}
use nimbis.Prelude.Int.{ℤ, pos, negsuc}

-- One digit a round, from the last; a number has at most as many digits as its value plus one.
pub print_digits : ℕ → ℕ → Bytes
print_digits zero n = []
print_digits (suc f) n =
    let front = print_digits f (n / 10) in
    let digit = (b'0' + n % 10) ∷ [] in if ltb n 10 then digit else front ++ digit

unfoldable pub print_ℕ : ℕ → Bytes
unfolding print_digits
print_ℕ n = print_digits (suc n) n

unfoldable pub print_ℤ : ℤ → Bytes
print_ℤ (pos n) = print_ℕ n
print_ℤ (negsuc n) = b'-' ∷ print_ℕ (suc n)

abbrev pub IsDigit : ℕ → Type 0
IsDigit c = (b'0' ≤ c) × (c ≤ b'9')

print_digits-IsDigit : (f n : ℕ) → All IsDigit (print_digits f n)
unfolding print_digits
print_digits-IsDigit zero n = tt
print_digits-IsDigit (suc f) n = ground (
  arith,
  All-append IsDigit (print_digits f (n / 10)) ((b'0' + n % 10) ∷ [])
      (print_digits-IsDigit f (n / 10)),
)

pub print_ℕ-IsDigit : (n : ℕ) → All IsDigit (print_ℕ n)
unfolding print_ℕ
print_ℕ-IsDigit n = print_digits-IsDigit (suc n) n

abbrev pub is_ascii_digit : ℕ → Bool
is_ascii_digit c = leb b'0' c && leb c b'9'

-- The number that digits spell behind `n`, with no bound.
unfoldable pub digits_value : ℕ → Bytes → Option ℕ
digits_value n [] = some n
digits_value n (c ∷ s) = if is_ascii_digit c then digits_value (n * 10 + (c - b'0')) s else none

-- Reading the last digit of `n` after those before it gives `n`.
digits_value_last :
    (n : ℕ) (rest : Bytes) → digits_value (n / 10) ((b'0' + n % 10) ∷ rest) ≡ digits_value n rest
unfolding digits_value
digits_value_last n rest =
    let e : n / 10 * 10 + (b'0' + n % 10 - b'0') ≡ n = omega arith in
    let d : is_ascii_digit (b'0' + n % 10) ≡ true = ground arith in rw (d, e)

digits_value-print_digits :
    (f n : ℕ) (rest : Bytes)
    → n < f
    → digits_value 0 (print_digits f n ++ rest) ≡ digits_value n rest
unfolding print_digits
digits_value-print_digits zero n rest h = absurd (omega arith)
digits_value-print_digits (suc f) n rest h = elim (Bool-cases (ltb n 10)) [
  | inl e ↦ let z : n / 10 ≡ 0 = ground arith in rw e (rw z at (digits_value_last n rest))
  | inr e ↦
      rw (e, append_assoc)
        (digits_value-print_digits f (n / 10) ((b'0' + n % 10) ∷ rest) (ground arith)
          ∙ digits_value_last n rest)
]

-- A printed number is read back.
pub digits_value-print_ℕ :
    (n : ℕ) (rest : Bytes) → digits_value 0 (print_ℕ n ++ rest) ≡ digits_value n rest
unfolding print_ℕ
digits_value-print_ℕ n rest = digits_value-print_digits (suc n) n rest (omega arith)

print_digits-ne-nil : (f n : ℕ) → print_digits (suc f) n ≢ []
unfolding print_digits
print_digits-ne-nil f n = ground (arith, concat-ne-nil (b'0' + n % 10) (print_digits f (n / 10)))

first-IsDigit :
    (s : Bytes) → s ≢ [] → All IsDigit s → (c : ℕ) × (t : Bytes) × (s ≡ c ∷ t) × IsDigit c
first-IsDigit [] h k = absurd (h refl)
first-IsDigit (c ∷ t) h k = (c, t, refl, k.0)

-- A printed number starts with a digit.
pub print_ℕ_first : (n : ℕ) → (c : ℕ) × (t : Bytes) × (print_ℕ n ≡ c ∷ t) × IsDigit c
unfolding print_ℕ
print_ℕ_first n =
    first-IsDigit (print_digits (suc n) n) (print_digits-ne-nil n n)
      (print_digits-IsDigit (suc n) n)

print_minus : print_ℤ (negsuc 1204) ≡ codes "-1205"
unfolding print_ℤ print_ℕ
print_minus = refl
