-- ===== src/Storage/Database.antt =====
-- The databases that nimbis-storage stands on (crate slatedb), as an interface. Times are milliseconds
-- since 1970.
use nimbis.Prelude.{
  ℕ, ◌<◌, ◌^◌, ◌≡◌, ◌≢◌, ◌⊎◌, true, false, Bytes, List, [], ◌∷◌, if◌then◌else◌, Result, ok, Option,
  none, some,
}
use nimbis.Resp.Utils.{same_bytes}
use nimbis.Storage.BigEndian.{bytes_less}

pub record KeyValue : Type 0 where
  pub value : Bytes
  pub seq : ℕ
  pub expire_ts : Option ℕ

-- `PutOptions::default()` has `Ttl::Default`.
pub data Ttl : Type 0 where
  default_ttl no_expiry : Ttl
  expire_after : ℕ → Ttl

-- An entry of a `WriteBatch`; every put of the program has the default options.
pub data BatchOp : Type 0 where
  batch_put : Bytes → Bytes → BatchOp
  batch_delete : Bytes → BatchOp

-- Only an entry that was put to expire has a time of expiry.
abbrev pub Expiry : Ttl → Option ℕ → Type 0
Expiry (expire_after ms) ts = ts ≢ none
Expiry _ ts = ts ≡ none

-- What a read may return for an entry: the entry, or nothing for one that has a time of expiry.
abbrev pub Reads : Option KeyValue → Option KeyValue → Type 0
Reads (some kv) r = (r ≡ some kv) ⊎ ((r ≡ none) × (kv.expire_ts ≢ none))
Reads none r = r ≡ none

-- What a batch with the sequence number `n` leaves of the entry under `j`.
abbrev pub after_batch : List BatchOp → ℕ → Bytes → Option KeyValue → Option KeyValue
after_batch [] n j entry = entry
after_batch (batch_put k v ∷ ops) n j entry =
    after_batch ops n j
      (if same_bytes j k then some (record { value = v; seq = n; expire_ts = none }) else entry)
after_batch (batch_delete k ∷ ops) n j entry =
    after_batch ops n j (if same_bytes j k then none else entry)

abbrev pub found_in : Bytes → List (Bytes × KeyValue) → Option KeyValue
found_in j [] = none
found_in j ((k, kv) ∷ es) = if same_bytes j k then some kv else found_in j es

abbrev pub AreAfter : Bytes → List (Bytes × KeyValue) → Type 0
AreAfter k [] = Unit
AreAfter k ((j, kv) ∷ es) = (bytes_less k j ≡ true) × AreAfter k es

-- Keys in strictly ascending order, none of them before `start`.
abbrev pub AscendingKeys : Bytes → List (Bytes × KeyValue) → Type 0
AscendingKeys start [] = Unit
AscendingKeys start ((k, kv) ∷ es) =
    (bytes_less k start ≡ false) × AreAfter k es × AscendingKeys start es

-- A SlateDB database: `D` is its contents and `E` its errors; `view` is the newest entry of a key. Each
-- call may fail. A put or a batch gets a sequence number above those of all entries.
pub record Db (D E : Type 0) : Type 0 where
  pub get_key_value : D → Bytes → Result E (Option KeyValue)
  pub put_with_options : D → Bytes → Bytes → Ttl → Result E (D × ℕ)
  pub delete_with_options : D → Bytes → Result E D
  pub write_with_options : D → List BatchOp → Result E D
  pub scan : D → Bytes → Result E (List (Bytes × KeyValue))
  pub view : D → Bytes → Option KeyValue
  pub get-view :
      (d : D) (k : Bytes) (r : Option KeyValue) → get_key_value d k ≡ ok r → Reads (view d k) r
  pub put-view :
      (d d' : D) (k v : Bytes) (t : Ttl) (n : ℕ)
      → put_with_options d k v t ≡ ok (d', n)
      → (ts : Option ℕ) × (view d' k ≡ some (record { value = v; seq = n; expire_ts = ts }))
        × Expiry t ts
        × (n < 2 ^ 64)
  pub put-others :
      (d d' : D) (k v : Bytes) (t : Ttl) (n : ℕ)
      → put_with_options d k v t ≡ ok (d', n)
      → (j : Bytes) → same_bytes j k ≡ false
      → view d' j ≡ view d j
  pub put_newer :
      (d d' : D) (k v : Bytes) (t : Ttl) (n : ℕ)
      → put_with_options d k v t ≡ ok (d', n)
      → (j : Bytes) (kv : KeyValue) → view d j ≡ some kv
      → kv.seq < n
  pub delete-view :
      (d d' : D) (k : Bytes)
      → delete_with_options d k ≡ ok d'
      → (j : Bytes) → view d' j ≡ (if same_bytes j k then none else view d j)
  pub write-view :
      (d d' : D) (ops : List BatchOp)
      → write_with_options d ops ≡ ok d'
      → (n : ℕ) × ((j : Bytes) → view d' j ≡ after_batch ops n j (view d j))
        × ((j : Bytes) (kv : KeyValue) → view d j ≡ some kv → kv.seq < n)
        × (n < 2 ^ 64)
  pub scan_ascending :
      (d : D) (start : Bytes) (es : List (Bytes × KeyValue))
      → scan d start ≡ ok es
      → AscendingKeys start es
  pub scan-view :
      (d : D) (start : Bytes) (es : List (Bytes × KeyValue))
      → scan d start ≡ ok es
      → (j : Bytes) → bytes_less j start ≡ false
      → Reads (view d j) (found_in j es)
