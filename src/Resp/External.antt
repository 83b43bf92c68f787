-- ===== src/Resp/External.antt =====
-- What nimbis-resp takes from other crates and from Rust's formatting of floats.
use nimbis.Prelude.{
  ℕ, suc, ◌^◌, ◌<◌, ◌≡◌, ◌⊎◌, Bool, ◌||◌, Option, none, some, [], ◌∷◌, Bytes, All, ◌==◌, ltb,
  if◌then◌else◌,
}
use mathlib.Core.Option
use nimbis.Resp.Types.{F64}

abbrev pub infinity : F64
infinity = 0x7ff0_0000_0000_0000

abbrev pub neg_infinity : F64
neg_infinity = 0xfff0_0000_0000_0000

abbrev pub is_infinite : F64 → Bool
is_infinite d = d == infinity || d == neg_infinity

-- The sign bit is clear.
abbrev pub is_sign_positive : F64 → Bool
is_sign_positive d = ltb d (2 ^ 63)

-- Finite: the exponent is not all ones.
abbrev pub IsFinite : F64 → Type 0
IsFinite d = (d < infinity) ⊎ ((2 ^ 63 < suc d) × (d < neg_infinity))

-- A byte of the decimal notation that Rust prints a finite float in: a digit, `-` or `.`.
abbrev pub IsDecimal : ℕ → Type 0
IsDecimal c = (c ≡ b'-') ⊎ ((c ≡ b'.') ⊎ ((b'0' < suc c) × (c < suc b'9')))

-- What `with_capacity` is called for: a `Vec`, a `HashSet` and a `HashMap` of values, a `Vec` of `Bytes`.
pub data Capacity : Type 0 where
  values_capacity set_capacity map_capacity bytes_capacity : Capacity

-- `memchr` is the first position of a byte (crate memchr). `show_f64` is `f64::to_string` and
-- `read_f64` is `str::parse::<f64>`: a finite float is printed in decimal notation, without an
-- exponent, and is read back. `has_room` is whether `with_capacity` of a number of elements returns; it panics
-- if so many bytes are more than an `isize` counts.
pub record External : Type 0 where
  pub memchr : ℕ → Bytes → Option ℕ
  pub memchr-nil : (c : ℕ) → memchr c [] ≡ none
  pub memchr-cons :
      (c x : ℕ) (s : Bytes)
      → memchr c (x ∷ s) ≡ (if x == c then some 0 else Option.map suc (memchr c s))
  pub has_room : Capacity → ℕ → Bool
  pub show_f64 : F64 → Bytes
  pub read_f64 : Bytes → Option F64
  pub read-show : (d : F64) → IsFinite d → read_f64 (show_f64 d) ≡ some d
  pub show-IsDecimal : (d : F64) → IsFinite d → All IsDecimal (show_f64 d)
