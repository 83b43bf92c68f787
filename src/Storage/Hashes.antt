-- ===== src/Storage/Hashes.antt =====
-- nimbis-storage/src/storage_hash.rs: the operations on hashes. Reads that the source starts together are
-- done one after the other.
pub mod Keys
pub mod Set
pub mod Update
pub mod Delete
pub mod Get
use nimbis.Prelude.{
  ℕ, suc, ◌+◌, ◌-◌, ◌%◌, ◌^◌, Bool, true, false, not, Bytes, List, [], ◌∷◌, leb, ltb, ◌==◌, length,
  drop, if◌then◌else◌, Option, none, some,
}
use nimbis.Storage.BigEndian.{get_be}
use nimbis.Storage.DataType.{DataType}
use nimbis.Storage.Keys.{HashFieldKey, encode_hash_field_key, user_key_prefix}
use nimbis.Storage.Keys.Prefix.{starts_with}
use nimbis.Storage.Meta.{HashMetaValue, hash_meta_with_ttl, encode_hash_meta}
use nimbis.Storage.Database.{Db, KeyValue, Ttl, default_ttl}
use nimbis.Storage.Elements.{is_current, current_value, delete_current, parse_name}
use nimbis.Storage.Engine.{
  Action, pure, ◌>>=◌, ◌>>◌, read_entry, put_entry, delete_entry, scan_from, get_meta, put_meta,
  hash_meta, meta_key,
}

abbrev pub hash_key : Bytes → Bytes → Bytes
hash_key key field = encode_hash_field_key (record { user_key = key; field = field })

-- `len += 1`, with the wrap-around of `u64`.
abbrev pub longer : HashMetaValue → HashMetaValue
longer m = record m { len = (m.len + 1) % 2 ^ 64 }

abbrev pub shorter : HashMetaValue → ℕ → HashMetaValue
shorter m n = record m { len = m.len - n }

abbrev pub no_values : List Bytes → List (Option Bytes)
no_values [] = []
no_values (field ∷ fields) = none ∷ no_values fields

-- The fields from one entry on: the scan ends at the first key without the prefix.
unfoldable pub collect_fields : Bytes → ℕ → List (Bytes × KeyValue) → List (Bytes × Bytes)
collect_fields prefix version [] = []
collect_fields prefix version ((k, kv) ∷ es) =
    let rest = collect_fields prefix version es in
    if not (starts_with prefix k)
    then []
    else if ltb kv.seq version
    then rest
    else elim (parse_name (drop (length prefix) k)) [
      | none ↦ rest
      | some field ↦ (field, kv.value) ∷ rest
    ]

module _ {D E : Type 0} {db : Db D E} where
  -- The first field of a new generation, whose version is the sequence number of the field.
  abbrev pub create_hash : Bytes → Bytes → Bytes → Action db ℕ
  create_hash key field value = do
    version ← put_entry DataType.hash (hash_key key field) value default_ttl
    put_entry DataType.string (meta_key key) (encode_hash_meta (hash_meta_with_ttl version 1 0))
        default_ttl
    pure 1

  -- From the update of the metadata on.
  abbrev pub count_field : Bytes → HashMetaValue → Option KeyValue → Action db ℕ
  count_field key m existing =
      if is_current m.version existing
      then pure 0
      else (do put_meta hash_meta key (longer m); pure 1)

  -- From the test on whether the field is there.
  abbrev pub write_field : Bytes → Bytes → Bytes → HashMetaValue → Option KeyValue → Action db ℕ
  write_field key field value m existing = do
    put_entry DataType.hash (hash_key key field) value default_ttl
    count_field key m existing

  abbrev pub update_hash : Bytes → Bytes → Bytes → HashMetaValue → Action db ℕ
  update_hash key field value m = do
    existing ← read_entry DataType.hash (hash_key key field)
    write_field key field value m existing

  unfoldable pub hset : Bytes → Bytes → Bytes → Action db ℕ
  hset key field value = do
    found ← get_meta hash_meta key
    elim found [ none ↦ create_hash key field value | some m ↦ update_hash key field value m ]

  abbrev pub read_field : Bytes → ℕ → Bytes → Action db (Option Bytes)
  read_field key version field = do
    kv ← read_entry DataType.hash (hash_key key field)
    pure (current_value version kv)

  unfoldable pub hget : Bytes → Bytes → Action db (Option Bytes)
  hget key field = do
    found ← get_meta hash_meta key
    elim found [ none ↦ pure none | some m ↦ read_field key m.version field ]

  unfoldable pub hlen : Bytes → Action db ℕ
  hlen key = do found ← get_meta hash_meta key; elim found [ none ↦ pure 0 | some m ↦ pure m.len ]

  unfoldable pub read_fields : Bytes → ℕ → List Bytes → Action db (List (Option Bytes))
  read_fields key version [] = pure []
  read_fields key version (field ∷ fields) = do
    value ← read_field key version field
    values ← read_fields key version fields
    pure (value ∷ values)

  unfoldable pub hmget : Bytes → List Bytes → Action db (List (Option Bytes))
  unfolding read_fields
  hmget key fields = do
    found ← get_meta hash_meta key
    elim found [ none ↦ pure (no_values fields) | some m ↦ read_fields key m.version fields ]

  unfoldable pub hgetall : Bytes → Action db (List (Bytes × Bytes))
  hgetall key = do
    found ← get_meta hash_meta key
    elim found [
      | none ↦ pure []
      | some m ↦ do
        es ← scan_from DataType.hash (user_key_prefix key)
        pure (collect_fields (user_key_prefix key) m.version es)
    ]

  -- The metadata of an empty hash is deleted.
  abbrev pub shrink_hash : Bytes → HashMetaValue → ℕ → Action db ℕ
  shrink_hash key m deleted =
      if ltb 0 deleted
      then (if leb m.len deleted
          then (do delete_entry DataType.string (meta_key key); pure deleted)
          else (do put_meta hash_meta key (shorter m deleted); pure deleted))
      else pure deleted

  unfoldable pub hdel : Bytes → List Bytes → Action db ℕ
  unfolding delete_current
  hdel key fields = do
    found ← get_meta hash_meta key
    elim found [
      | none ↦ pure 0
      | some m ↦
          delete_current DataType.hash (hash_key key) m.version fields 0 >>= shrink_hash key m
    ]
