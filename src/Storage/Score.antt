-- ===== src/Storage/Score.antt =====
-- nimbis-storage/src/zset/score_key.rs: the scores as numbers that are in the order of the floats.
use nimbis.Prelude.{
  ℕ, ◌+◌, ◌-◌, ◌%◌, ◌^◌, ◌<◌, ◌≡◌, Bool, false, not, ◌&&◌, ◌||◌, arith, ltb, leb, ◌==◌,
  if◌then◌else◌,
}
use nimbis.Prelude.Int.{ℤ, pos, negate, ltb_ℤ}
use nimbis.Resp.Types.{F64, is_nan}

-- `score >= 0.0`: not a NaN, and positive or one of the zeros.
abbrev pub is_not_negative : F64 → Bool
is_not_negative d = not (is_nan d) && (ltb d (2 ^ 63) || d % 2 ^ 63 == 0)

-- The sign bit is set, or all bits are flipped.
unfoldable pub encode_score : F64 → ℕ
encode_score bits =
    if is_not_negative bits
    then (if ltb bits (2 ^ 63) then bits + 2 ^ 63 else bits)
    else 2 ^ 64 - 1 - bits

unfoldable pub decode_score : ℕ → F64
decode_score encoded = if leb (2 ^ 63) encoded then encoded % 2 ^ 63 else 2 ^ 64 - 1 - encoded

-- The sign and the other bits as a number: floats that are no NaN are ordered by it.
abbrev pub signed_magnitude : F64 → ℤ
signed_magnitude d = if ltb d (2 ^ 63) then pos d else negate (d % 2 ^ 63)

-- `<` of `f64`.
unfoldable pub less_f64 : F64 → F64 → Bool
less_f64 a b = not (is_nan a) && not (is_nan b) && ltb_ℤ (signed_magnitude a) (signed_magnitude b)

-- -0.0 becomes 0.0.
abbrev pub without_sign_of_zero : F64 → F64
without_sign_of_zero d = if d == 2 ^ 63 then 0 else d

-- A score that is no NaN is decoded to itself, except that -0.0 is decoded to 0.0.
pub decode_score-encode_score :
    (d : F64)
    → d < 2 ^ 64
    → is_nan d ≡ false
    → decode_score (encode_score d) ≡ without_sign_of_zero d
unfolding decode_score encode_score
decode_score-encode_score d h n = ground arith

-- The numbers of two scores that are no NaN are in the order of the scores.
pub encode_score_order :
    (a b : F64)
    → a < 2 ^ 64
    → b < 2 ^ 64
    → is_nan a ≡ false
    → is_nan b ≡ false
    → ltb (encode_score a) (encode_score b) ≡ less_f64 a b
unfolding encode_score less_f64
encode_score_order a b h k n m = ground arith

pub encode_score_bound : (d : F64) → d < 2 ^ 64 → encode_score d < 2 ^ 64
unfolding encode_score
encode_score_bound d h = ground arith
