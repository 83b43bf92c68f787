-- ===== src/Storage/Lock/Stripes.antt =====
-- The stripes of nimbis-storage/src/lock.rs: each once, in ascending order, a write before a read.
use nimbis.Prelude.{
  ℕ, ◌<◌, ◌≤◌, suc, ◌≡◌, refl, Bool, true, false, ◌||◌, arith, Bytes, List, [], ◌∷◌, ltb, ◌==◌,
  if◌then◌else◌, Option, none, some, Bool-cases, Option-cases, inl, inr,
}
use nimbis.Storage.Lock.{
  StorageLock, KeyMode, read, write, StripeMap, or_insert, insert, stripe_index, insert_reads,
  insert_writes, ordered_key_stripes,
}

-- Every stripe is above the one before, and none is below `low`.
abbrev pub Ascending : ℕ → StripeMap → Type 0
Ascending low [] = Unit
Ascending low ((s, m) ∷ rest) = (low ≤ s) × Ascending (suc s) rest

abbrev pub lookup : ℕ → StripeMap → Option KeyMode
lookup t [] = none
lookup t ((s, m) ∷ rest) = if t == s then some m else lookup t rest

-- What a lock of a stripe must be for these keys.
abbrev pub is_needed : (Bytes → ℕ) → ℕ → ℕ → List Bytes → Bool
is_needed hash stripe_count t [] = false
is_needed hash stripe_count t (k ∷ ks) =
    stripe_index hash k stripe_count == t || is_needed hash stripe_count t ks

abbrev or_else : Option KeyMode → KeyMode → KeyMode
or_else (some m) d = m
or_else none d = d

lookup_below : (low t : ℕ) (st : StripeMap) → t < low → Ascending low st → lookup t st ≡ none
lookup_below low t [] h a = refl
lookup_below low t ((s, m) ∷ rest) h (l, a) =
    ground (arith, lookup_below (suc s) t rest (omega arith) a)

or_insert_lem :
    (low stripe t : ℕ) (mode : KeyMode) (st : StripeMap)
    → low ≤ stripe
    → Ascending low st
    → Ascending low (or_insert stripe mode st)
      × (lookup t (or_insert stripe mode st)
          ≡ (if t == stripe then some (or_else (lookup t st) mode) else lookup t st))
unfolding or_insert
or_insert_lem low stripe t mode [] h a = ((h, tt), refl)
or_insert_lem low stripe t mode ((s, m) ∷ rest) h (l, a) = elim (Bool-cases (stripe == s)) [
  | inl e ↦ rw e ((l, a), ground arith)
  | inr e ↦ elim (Bool-cases (ltb stripe s)) [
    | inl g ↦ rw (e, g) ((h, (ground arith, a)), ground (arith, lookup_below (suc s) t rest, a))
    | inr g ↦
        let (asc, look) = or_insert_lem (suc s) stripe t mode rest (ground arith) a in
        rw (e, g) ((l, asc), ground (arith, look))
  ]
]

insert_lem :
    (low stripe t : ℕ) (mode : KeyMode) (st : StripeMap)
    → low ≤ stripe
    → Ascending low st
    → Ascending low (insert stripe mode st)
      × (lookup t (insert stripe mode st) ≡ (if t == stripe then some mode else lookup t st))
unfolding insert
insert_lem low stripe t mode [] h a = ((h, tt), refl)
insert_lem low stripe t mode ((s, m) ∷ rest) h (l, a) = elim (Bool-cases (stripe == s)) [
  | inl e ↦ rw e ((l, a), ground arith)
  | inr e ↦ elim (Bool-cases (ltb stripe s)) [
    | inl g ↦ rw (e, g) ((h, (ground arith, a)), ground arith)
    | inr g ↦
        let (asc, look) = insert_lem (suc s) stripe t mode rest (ground arith) a in
        rw (e, g) ((l, asc), ground (arith, look))
  ]
]

-- The mode of a stripe for keys to read and keys to write.
abbrev pub needed_mode : Bool → Bool → Option KeyMode
needed_mode _ true = some write
needed_mode true false = some read
needed_mode false false = none

abbrev or_read : Option KeyMode → Bool → Option KeyMode
or_read m b = if b then some (or_else m read) else m

insert_reads_lem :
    (hash : Bytes → ℕ) (n t : ℕ) (ks : List Bytes) (st : StripeMap)
    → Ascending 0 st
    → Ascending 0 (insert_reads hash n ks st)
      × (lookup t (insert_reads hash n ks st) ≡ or_read (lookup t st) (is_needed hash n t ks))
unfolding insert_reads
insert_reads_lem hash n t [] st a = (a, refl)
insert_reads_lem hash n t (k ∷ ks) st a =
    let s = stripe_index hash k n in
    let (asc, look) = or_insert_lem 0 s t read st (omega arith) a in
    let (asc', look') = insert_reads_lem hash n t ks (or_insert s read st) asc in
    (
      asc',
      ground (arith, look, look', Option-cases (lookup t st), Bool-cases (is_needed hash n t ks)),
    )

insert_writes_lem :
    (hash : Bytes → ℕ) (n t : ℕ) (ks : List Bytes) (st : StripeMap)
    → Ascending 0 st
    → Ascending 0 (insert_writes hash n ks st)
      × (lookup t (insert_writes hash n ks st)
          ≡ (if is_needed hash n t ks then some write else lookup t st))
unfolding insert_writes
insert_writes_lem hash n t [] st a = (a, refl)
insert_writes_lem hash n t (k ∷ ks) st a =
    let s = stripe_index hash k n in
    let (asc, look) = insert_lem 0 s t write st (omega arith) a in
    let (asc', look') = insert_writes_lem hash n t ks (insert s write st) asc in
    (asc', ground (arith, look, look', Bool-cases (is_needed hash n t ks)))

-- The stripes of a lock come in strictly ascending order, each once, whatever the keys and the hash.
pub ordered_key_stripes-Ascending :
    (hash : Bytes → ℕ) (lock : StorageLock) (n : ℕ) → Ascending 0 (ordered_key_stripes hash lock n)
unfolding ordered_key_stripes
ordered_key_stripes-Ascending hash lock n =
    let (asc, _) = insert_reads_lem hash n 0 lock.read_keys [] tt in
    let (asc', _) =
      insert_writes_lem hash n 0 lock.write_keys (insert_reads hash n lock.read_keys []) asc in
    asc'

-- A stripe is locked for writing if it has a key to write, for reading if it has a key to read and none
-- to write, and not at all if it has neither.
pub lookup-ordered_key_stripes :
    (hash : Bytes → ℕ) (lock : StorageLock) (n t : ℕ)
    → lookup t (ordered_key_stripes hash lock n)
      ≡ needed_mode (is_needed hash n t lock.read_keys) (is_needed hash n t lock.write_keys)
unfolding ordered_key_stripes
lookup-ordered_key_stripes hash lock n t =
    let (asc, look) = insert_reads_lem hash n t lock.read_keys [] tt in
    let (_, look') =
      insert_writes_lem hash n t lock.write_keys (insert_reads hash n lock.read_keys []) asc in
    ground (
      arith,
      look,
      look',
      Bool-cases (is_needed hash n t lock.read_keys),
      Bool-cases (is_needed hash n t lock.write_keys),
    )
