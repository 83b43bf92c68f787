-- ===== src/Storage/Elements/Members.antt =====
-- How the members of a collection change with its entries (nimbis-storage/src/storage_hash.rs and
-- storage_set.rs).
use nimbis.Prelude.{
  ℕ, suc, ◌<◌, ◌^◌, ◌≡◌, ◌∙◌, refl, sym, ap, true, false, Bytes, List, [], ◌∷◌, arith, le→leb,
  if◌then◌else◌, length, Option, none, some, inl, inr, Bool-cases,
}
use nimbis.Resp.Utils.{same_bytes}
use nimbis.Storage.BytesEq.{same_bytes_refl, eq_of_same_bytes, same_bytes_of_ne, ne_of_same_bytes}
use nimbis.Storage.Database.{KeyValue}
use nimbis.Storage.Elements.{is_current, has, without, AreDistinct, HasMembers}

pub same_bytes_sym : (s t : Bytes) → same_bytes s t ≡ false → same_bytes t s ≡ false
same_bytes_sym s t h = same_bytes_of_ne t s λ e. ne_of_same_bytes s t h (sym e)

has-without :
    (x y : Bytes) (ys : List Bytes)
    → AreDistinct ys
    → has x (without y ys) ≡ (if same_bytes x y then false else has x ys)
has-without x y [] d = ground arith
has-without x y (z ∷ zs) (new, d) = elim (Bool-cases (same_bytes y z)) [
  | inl e ↦ ground (arith, e, eq_of_same_bytes y z e, eq_of_same_bytes x z, new)
  | inr e ↦ ground (arith, e, has-without x y zs d, eq_of_same_bytes x y, eq_of_same_bytes x z)
]

pub length-without :
    (y : Bytes) (ys : List Bytes) → has y ys ≡ true → suc (length (without y ys)) ≡ length ys
length-without y [] h = cc
length-without y (z ∷ zs) h = elim (Bool-cases (same_bytes y z)) [
  | inl e ↦ rw e refl
  | inr e ↦ rw e (ap suc (length-without y zs (rw e at h)))
]

without-AreDistinct : (y : Bytes) (ys : List Bytes) → AreDistinct ys → AreDistinct (without y ys)
without-AreDistinct y [] d = tt
without-AreDistinct y (z ∷ zs) (new, d) = elim (Bool-cases (same_bytes y z)) [
  | inl e ↦ rw e d
  | inr e ↦ rw e (rw (has-without z y zs d, new) (ground arith), without-AreDistinct y zs d)
]

-- Entries that are the same have the same members.
pub members_same :
    (version : ℕ) (e e' : Bytes → Option KeyValue) (ms : List Bytes)
    → ((x : Bytes) → length x < 2 ^ 32 → e' x ≡ e x)
    → HasMembers version e ms
    → HasMembers version e' ms
members_same version e e' ms same m = record {
  distinct = m.distinct;
  short = m.short;
  present = λ x h. m.present x h ∙ ap (is_current version) (sym (same x h));
}

old_not_current :
    (n : ℕ) (r : Option KeyValue)
    → ((kv : KeyValue) → r ≡ some kv → kv.seq < n)
    → is_current n r ≡ false
old_not_current n none h = refl
old_not_current n (some kv) h = let old = h kv refl in ground arith

-- Some entry is current, so the generation is older than the next number.
pub current_older :
    (version n : ℕ) (r : Option KeyValue)
    → is_current version r ≡ true
    → ((kv : KeyValue) → r ≡ some kv → kv.seq < n)
    → version < n
current_older version n none c h = cc
current_older version n (some kv) c h = let old = h kv refl in ground arith

pub members_older :
    (version n : ℕ) (e : Bytes → Option KeyValue) (ms : List Bytes)
    → HasMembers version e ms
    → 0 < length ms
    → ((x : Bytes) (kv : KeyValue) → e x ≡ some kv → kv.seq < n)
    → version < n
members_older version n e [] m h older = absurd (omega arith)
members_older version n e (y ∷ ys) m h older =
    let there : has y (y ∷ ys) ≡ true = rw (same_bytes_refl y) refl in
    current_older version n (e y) (sym (m.present y (m.short y there)) ∙ there) (older y)

-- The first entry of a generation is its only member.
pub members_first :
    (n : ℕ) (y : Bytes) (kv : KeyValue) (e e' : Bytes → Option KeyValue)
    → length y < 2 ^ 32
    → kv.seq ≡ n
    → ((x : Bytes) (kv : KeyValue) → e x ≡ some kv → kv.seq < n)
    → e' y ≡ some kv
    → ((x : Bytes) → length x < 2 ^ 32 → same_bytes x y ≡ false → e' x ≡ e x)
    → HasMembers n e' (y ∷ [])
members_first n y kv e e' short seq older there others = record {
  distinct = (refl, tt);
  short = λ x h. elim (Bool-cases (same_bytes x y)) [
    | inl s ↦ rw (eq_of_same_bytes x y s) short
    | inr s ↦ cc (rw s at h)
  ];
  present = λ x h. elim (Bool-cases (same_bytes x y)) [
    | inl s ↦ rw (s, eq_of_same_bytes x y s, there, seq) (sym (le→leb n n (omega arith)))
    | inr s ↦ rw (s, others x h s) (sym (old_not_current n (e x) (older x)))
  ];
}

put_current :
    (version n : ℕ) (kv : KeyValue) → kv.seq ≡ n → version < n → is_current version (some kv) ≡ true
put_current version n kv e h = le→leb version kv.seq (omega arith)

-- A new member comes to the others.
pub members_added :
    (version n : ℕ) (y : Bytes) (kv : KeyValue) (e e' : Bytes → Option KeyValue) (ms : List Bytes)
    → HasMembers version e ms
    → has y ms ≡ false
    → length y < 2 ^ 32
    → kv.seq ≡ n
    → version < n
    → e' y ≡ some kv
    → ((x : Bytes) → length x < 2 ^ 32 → same_bytes x y ≡ false → e' x ≡ e x)
    → HasMembers version e' (y ∷ ms)
members_added version n y kv e e' ms m new short seq older there others = record {
  distinct = (new, m.distinct);
  short = λ x h. elim (Bool-cases (same_bytes x y)) [
    | inl s ↦ rw (eq_of_same_bytes x y s) short
    | inr s ↦ m.short x (rw s at h)
  ];
  present = λ x h. elim (Bool-cases (same_bytes x y)) [
    | inl s ↦ rw (s, eq_of_same_bytes x y s, there) (sym (put_current version n kv seq older))
    | inr s ↦ rw (s, others x h s) (m.present x h)
  ];
}

-- A member is written again.
pub members_kept :
    (version n : ℕ) (y : Bytes) (kv : KeyValue) (e e' : Bytes → Option KeyValue) (ms : List Bytes)
    → HasMembers version e ms
    → has y ms ≡ true
    → kv.seq ≡ n
    → version < n
    → e' y ≡ some kv
    → ((x : Bytes) → length x < 2 ^ 32 → same_bytes x y ≡ false → e' x ≡ e x)
    → HasMembers version e' ms
members_kept version n y kv e e' ms m old seq older there others = record {
  distinct = m.distinct;
  short = m.short;
  present = λ x h. elim (Bool-cases (same_bytes x y)) [
    | inl s ↦
        let same = eq_of_same_bytes x y s in
        rw (same, there) (old ∙ sym (put_current version n kv seq older))
    | inr s ↦ rw (others x h s) (m.present x h)
  ];
}

-- A member is deleted.
pub members_removed :
    (version : ℕ) (y : Bytes) (e e' : Bytes → Option KeyValue) (ms : List Bytes)
    → HasMembers version e ms
    → e' y ≡ none
    → ((x : Bytes) → length x < 2 ^ 32 → same_bytes x y ≡ false → e' x ≡ e x)
    → HasMembers version e' (without y ms)
members_removed version y e e' ms m there others = record {
  distinct = without-AreDistinct y ms m.distinct;
  short = λ x h.
      let k = rw (has-without x y ms m.distinct) at h in
      elim (Bool-cases (same_bytes x y)) [ inl s ↦ cc (rw s at k) | inr s ↦ m.short x (rw s at k) ];
  present = λ x h. elim (Bool-cases (same_bytes x y)) [
    | inl s ↦ rw (has-without x y ms m.distinct, s, eq_of_same_bytes x y s, there) refl
    | inr s ↦ rw (has-without x y ms m.distinct, s, others x h s) (m.present x h)
  ];
}
