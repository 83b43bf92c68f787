-- ===== src/Storage/BytesEq.antt =====
-- The comparison of byte strings is their equality.
use nimbis.Prelude.{◌≡◌, refl, true, false, Bytes, [], ◌∷◌, arith, inl, inr, Bool-cases, ◌≢◌, sym}
use nimbis.Resp.Utils.{same_bytes}

pub same_bytes_refl : (s : Bytes) → same_bytes s s ≡ true
unfolding same_bytes
same_bytes_refl [] = refl
same_bytes_refl (c ∷ s) = ground (arith, same_bytes_refl s)

pub eq_of_same_bytes : (s t : Bytes) → same_bytes s t ≡ true → s ≡ t
unfolding same_bytes
eq_of_same_bytes [] [] h = refl
eq_of_same_bytes [] (d ∷ t) h = cc
eq_of_same_bytes (c ∷ s) [] h = cc
eq_of_same_bytes (c ∷ s) (d ∷ t) h = ground (arith, eq_of_same_bytes s t)

pub same_bytes_of_ne : (s t : Bytes) → s ≢ t → same_bytes s t ≡ false
same_bytes_of_ne s t h = elim (Bool-cases (same_bytes s t)) [
  | inl e ↦ absurd (h (eq_of_same_bytes s t e))
  | inr e ↦ e
]

pub ne_of_same_bytes : (s t : Bytes) → same_bytes s t ≡ false → s ≢ t
ne_of_same_bytes s t h e = cc (h, e, same_bytes_refl t)

pub same_bytes_sym : (s t : Bytes) → same_bytes s t ≡ false → same_bytes t s ≡ false
same_bytes_sym s t h = same_bytes_of_ne t s λ e. ne_of_same_bytes s t h (sym e)
