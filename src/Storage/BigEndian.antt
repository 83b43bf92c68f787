-- ===== src/Storage/BigEndian.antt =====
-- The big-endian integers of the `bytes` crate (`put_u16`, `get_u64` and so on), and the order in which
-- the database keeps its keys.
use nimbis.Prelude.{
  ℕ, zero, suc, ◌+◌, ◌*◌, ◌/◌, ◌%◌, ◌<◌, ◌≡◌, refl, ap, Bool, true, false, [], ◌∷◌, ◌++◌,
  append_assoc, append-nil, arith, Bool-cases, Bytes, length, length-append, take, drop, ltb,
  ltb→lt, ◌==◌, if◌then◌else◌, inl, inr,
}

-- The lowest `k` bytes of `n`, the highest of them first.
unfoldable pub be_bytes : ℕ → ℕ → Bytes
be_bytes zero n = []
be_bytes (suc k) n = be_bytes k (n / 256) ++ (n % 256) ∷ []

unfoldable pub be_value : ℕ → Bytes → ℕ
be_value n [] = n
be_value n (b ∷ s) = be_value (n * 256 + b) s

-- What `get_u16` or `get_u64` reads from the front of a buffer that is long enough; the buffer moves on
-- by `k`.
unfoldable pub get_be : ℕ → Bytes → ℕ
unfolding be_value
get_be k s = be_value 0 (take k s)

-- 256 to a power.
abbrev pub bytes_limit : ℕ → ℕ
bytes_limit zero = 1
bytes_limit (suc k) = 256 * bytes_limit k

pub length-be_bytes : (k n : ℕ) → length (be_bytes k n) ≡ k
unfolding be_bytes
length-be_bytes zero n = refl
length-be_bytes (suc k) n =
    omega
      (arith, length-be_bytes k (n / 256), length-append (be_bytes k (n / 256)) ((n % 256) ∷ []))

be_value-be_bytes :
    (k n : ℕ) (s : Bytes) → n < bytes_limit k → be_value 0 (be_bytes k n ++ s) ≡ be_value n s
unfolding be_bytes be_value
be_value-be_bytes zero n s h = let e : n ≡ 0 = omega arith in rw e
be_value-be_bytes (suc k) n s h =
    let e : (n / 256) * 256 + n % 256 ≡ n = omega arith in
    rw (
      append_assoc (be_bytes k (n / 256)) ((n % 256) ∷ []) s,
      be_value-be_bytes k (n / 256) ((n % 256) ∷ s) (omega arith),
      be_value,
      e,
    )

pub take_front : (k : ℕ) (s t : Bytes) → length s ≡ k → take k (s ++ t) ≡ s
take_front zero [] t h = refl
take_front zero (x ∷ s) t h = absurd (omega arith)
take_front (suc k) [] t h = absurd (omega arith)
take_front (suc k) (x ∷ s) t h = ap (λ u. x ∷ u) (take_front k s t (omega arith))

pub drop_front : (k : ℕ) (s t : Bytes) → length s ≡ k → drop k (s ++ t) ≡ t
drop_front zero [] t h = refl
drop_front zero (x ∷ s) t h = absurd (omega arith)
drop_front (suc k) [] t h = absurd (omega arith)
drop_front (suc k) (x ∷ s) t h = drop_front k s t (omega arith)

-- What was put is got back, and what follows is left.
pub get_be-be_bytes : (k n : ℕ) (s : Bytes) → n < bytes_limit k → get_be k (be_bytes k n ++ s) ≡ n
unfolding get_be be_value
get_be-be_bytes k n s h =
    let e = be_value-be_bytes k n [] h in
    rw (take_front k (be_bytes k n) s (length-be_bytes k n)) (rw append-nil at e)

pub drop-be_bytes : (k n : ℕ) (s : Bytes) → drop k (be_bytes k n ++ s) ≡ s
drop-be_bytes k n s = drop_front k (be_bytes k n) s (length-be_bytes k n)

-- The order of keys in the database: byte by byte, a proper prefix first.
unfoldable pub bytes_less : Bytes → Bytes → Bool
bytes_less s [] = false
bytes_less [] (d ∷ t) = true
bytes_less (c ∷ s) (d ∷ t) = if c == d then bytes_less s t else ltb c d

pub bytes_less-append : (p s t : Bytes) → bytes_less (p ++ s) (p ++ t) ≡ bytes_less s t
unfolding bytes_less
bytes_less-append [] s t = refl
bytes_less-append (c ∷ p) s t = ground (arith, bytes_less-append p s t)

-- Big-endian numbers of one width stand in the order of their values.
pub bytes_less-be_bytes :
    (k m n : ℕ) (s t : Bytes)
    → m < n
    → n < bytes_limit k
    → bytes_less (be_bytes k m ++ s) (be_bytes k n ++ t) ≡ true
unfolding be_bytes bytes_less
bytes_less-be_bytes zero m n s t h b = absurd (omega arith)
bytes_less-be_bytes (suc k) m n s t h b = elim (Bool-cases (ltb (m / 256) (n / 256))) [
  | inl p ↦
      rw
        (
          append_assoc (be_bytes k (m / 256)) ((m % 256) ∷ []) s,
          append_assoc (be_bytes k (n / 256)) ((n % 256) ∷ []) t,
        )
        (bytes_less-be_bytes k (m / 256) (n / 256) _ _ (ltb→lt _ _ p) (omega arith))
  | inr p ↦
      let e : m / 256 ≡ n / 256 = ground arith in
      let lt : m % 256 < n % 256 = omega arith in
      rw
        (
          append_assoc (be_bytes k (m / 256)) ((m % 256) ∷ []) s,
          append_assoc (be_bytes k (n / 256)) ((n % 256) ∷ []) t,
          e,
          bytes_less-append (be_bytes k (n / 256)) ((m % 256) ∷ s) ((n % 256) ∷ t),
        )
        (ground (arith, lt))
]
