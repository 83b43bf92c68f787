-- ===== src/Storage/Lock.antt =====
-- nimbis-storage/src/lock.rs: which stripes a command locks, and in which order.
pub mod Stripes
use nimbis.Prelude.{ℕ, ◌%◌, Bytes, List, [], ◌∷◌, ltb, ◌==◌, if◌then◌else◌, Option, none, some}

pub data StorageLockMode : Type 0 where
  unlocked keys global_write : StorageLockMode

pub record StorageLock : Type 0 where
  pub mode : StorageLockMode
  pub read_keys : List Bytes
  pub write_keys : List Bytes

pub data KeyMode : Type 0 where
  read write : KeyMode

-- A `BTreeMap` from stripes, as its entries in ascending order.
abbrev pub StripeMap : Type 0
StripeMap = List (ℕ × KeyMode)

-- `map.entry(stripe).or_insert(mode)`
unfoldable pub or_insert : ℕ → KeyMode → StripeMap → StripeMap
or_insert stripe mode [] = (stripe, mode) ∷ []
or_insert stripe mode ((s, m) ∷ rest) =
    if stripe == s
    then (s, m) ∷ rest
    else if ltb stripe s
    then (stripe, mode) ∷ (s, m) ∷ rest
    else (s, m) ∷ or_insert stripe mode rest

-- `map.insert(stripe, mode)`
unfoldable pub insert : ℕ → KeyMode → StripeMap → StripeMap
insert stripe mode [] = (stripe, mode) ∷ []
insert stripe mode ((s, m) ∷ rest) =
    if stripe == s
    then (s, mode) ∷ rest
    else if ltb stripe s
    then (stripe, mode) ∷ (s, m) ∷ rest
    else (s, m) ∷ insert stripe mode rest

-- `hash` is the hash of a key by `DefaultHasher`.
unfoldable pub stripe_index : (Bytes → ℕ) → Bytes → ℕ → ℕ
stripe_index hash key stripe_count = hash key % stripe_count

unfoldable pub insert_reads : (Bytes → ℕ) → ℕ → List Bytes → StripeMap → StripeMap
insert_reads hash stripe_count [] stripes = stripes
insert_reads hash stripe_count (key ∷ ks) stripes =
    insert_reads hash stripe_count ks (or_insert (stripe_index hash key stripe_count) read stripes)

unfoldable pub insert_writes : (Bytes → ℕ) → ℕ → List Bytes → StripeMap → StripeMap
insert_writes hash stripe_count [] stripes = stripes
insert_writes hash stripe_count (key ∷ ks) stripes =
    insert_writes hash stripe_count ks (insert (stripe_index hash key stripe_count) write stripes)

unfoldable pub ordered_key_stripes : (Bytes → ℕ) → StorageLock → ℕ → StripeMap
unfolding insert_reads insert_writes
ordered_key_stripes hash lock stripe_count =
    insert_writes hash stripe_count lock.write_keys
      (insert_reads hash stripe_count lock.read_keys [])

-- What `acquire` waits for, in this order, and the guard holds.
pub data Wait : Type 0 where
  db_read db_write : Wait
  key_lock : ℕ → KeyMode → Wait

abbrev pub key_waits : StripeMap → List Wait
key_waits [] = []
key_waits ((s, m) ∷ rest) = key_lock s m ∷ key_waits rest

unfoldable pub acquire_key_locks : (Bytes → ℕ) → StorageLock → ℕ → List Wait
acquire_key_locks hash lock stripe_count =
    db_read ∷ key_waits (ordered_key_stripes hash lock stripe_count)

abbrev pub waits_of : StorageLockMode → List Wait → List Wait
waits_of unlocked ws = []
waits_of global_write ws = db_write ∷ []
waits_of keys ws = ws

unfoldable pub acquire : (Bytes → ℕ) → StorageLock → ℕ → List Wait
acquire hash lock stripe_count = waits_of lock.mode (acquire_key_locks hash lock stripe_count)
